-- ===== src/EventLoop/Icmp.antt =====
-- `sendEchoReply` and `handleIcmp`.
pub mod Ping
use wirestack.Common.{ℕ, [], Bool, true, false, if◌then◌else◌, ok, err}
use wirestack.Ethernet.{EthernetFrame}
use wirestack.Ipv4.{Ipv4Packet}
use wirestack.Icmp.{
  IcmpEcho, IcmpEchoType, echo_reply, echo_request, parse_icmp_echo, serialize_icmp_echo,
  make_echo_reply,
}
use wirestack.EventLoop.Arp.{Host, Frames}
use wirestack.EventLoop.Send.{packet_from, send_packet}

unfoldable pub send_echo_reply : Host → Ipv4Packet → EthernetFrame → IcmpEcho → Frames
send_echo_reply host packet frame request =
    send_packet host frame.source (
      packet_from host packet.source packet.protocol
        (serialize_icmp_echo (make_echo_reply request)))

abbrev is_echo_request : IcmpEchoType → Bool
is_echo_request echo_reply = false
is_echo_request echo_request = true

unfoldable pub handle_icmp : Host → Ipv4Packet → EthernetFrame → Frames
handle_icmp host packet frame = elim (parse_icmp_echo packet.payload) [
  | err e ↦ []
  | ok message ↦
      if is_echo_request message.type then send_echo_reply host packet frame message else []
]
