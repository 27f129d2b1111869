-- ===== src/EventLoop/Send.antt =====
-- The ends of `sendEchoReply`, `sendUdpPacket`, `handleUdp` and `sendTcpSegment`, which wrap a
-- payload in IPv4 and Ethernet in the same way, and `sendUdpPacket` and `sendTcpSegment`.
pub mod Frame
use wirestack.Common.{ℕ, List, [], ◌∷◌, ◌++◌, ok, err, Option, none, some}
use wirestack.Address.{MacAddress, Ipv4Address}
use wirestack.Ethernet.{EthernetFrame, serialize_ethernet_frame}
use wirestack.Ipv4.{Ipv4Packet, serialize_ipv4_packet}
use wirestack.Udp.{UdpDatagram, serialize_udp_datagram}
use wirestack.Tcp.Segment.{TcpSegment, serialize_tcp_segment}
use wirestack.EventLoop.Arp.{Host, Frames}

abbrev pub ether_type_ipv4 : ℕ
ether_type_ipv4 = 0x0800

abbrev pub protocol_icmp : ℕ
protocol_icmp = 1

abbrev pub protocol_tcp : ℕ
protocol_tcp = 6

abbrev pub protocol_udp : ℕ
protocol_udp = 17

-- The fields that are not set have the defaults of `Ipv4Packet`.
abbrev pub packet_from : Host → Ipv4Address → ℕ → List ℕ → Ipv4Packet
packet_from host remote_ip protocol payload = record {
  dscp_ecn = 0;
  identification = 0;
  ttl = 64;
  protocol = protocol;
  source = host.ip;
  destination = remote_ip;
  payload = payload;
}

abbrev pub frame_from : Host → MacAddress → List ℕ → EthernetFrame
frame_from host remote_mac payload = record {
  destination = remote_mac;
  source = host.mac;
  ether_type = ether_type_ipv4;
  payload = payload;
}

-- A packet that is too large is dropped.
unfoldable pub send_packet : Host → MacAddress → Ipv4Packet → Frames
send_packet host remote_mac packet = elim (serialize_ipv4_packet packet) [
  | err e ↦ []
  | ok bytes ↦ serialize_ethernet_frame (frame_from host remote_mac bytes) ∷ []
]

unfoldable pub send_udp_packet : Host → Ipv4Address → MacAddress → ℕ → ℕ → List ℕ → Frames
send_udp_packet host remote_ip remote_mac local_port remote_port payload =
    let datagram : UdpDatagram = record {
      source_port = local_port;
      destination_port = remote_port;
      payload = payload;
    } in
    elim (serialize_udp_datagram datagram host.ip remote_ip) [
      | err e ↦ []
      | ok bytes ↦ send_packet host remote_mac (packet_from host remote_ip protocol_udp bytes)
    ]

unfoldable pub send_tcp_segment : Host → Ipv4Address → MacAddress → TcpSegment → Frames
send_tcp_segment host remote_ip remote_mac segment =
    elim (serialize_tcp_segment segment host.ip remote_ip) [
      | err e ↦ []
      | ok bytes ↦ send_packet host remote_mac (packet_from host remote_ip protocol_tcp bytes)
    ]

-- `sendTcpReply` for the packet and the frame just received; the handlers take it as an argument.
unfoldable pub send_tcp_reply : Host → Ipv4Packet → EthernetFrame → TcpSegment → Frames
send_tcp_reply host packet frame segment = send_tcp_segment host packet.source frame.source segment

-- `for (const auto& segment : segments) sendTcpReply(...)`
unfoldable pub send_all : (TcpSegment → Frames) → List TcpSegment → Frames
send_all reply [] = []
send_all reply (segment ∷ segments) = reply segment ++ send_all reply segments

abbrev pub send_if : (TcpSegment → Frames) → Option TcpSegment → Frames
send_if reply none = []
send_if reply (some segment) = reply segment
