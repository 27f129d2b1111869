-- ===== src/EventLoop/Ipv4.antt =====
-- `handleIpv4`, and the dispatch of a frame in the main loop.
use wirestack.Common.{ℕ, List, [], not, ◌||◌, ◌==◌, if◌then◌else◌}
use wirestack.Common.{Option, none, some, ok, err}
use wirestack.Address.{ip_equal}
use wirestack.ArpCache.{insert}
use wirestack.Ethernet.{EthernetFrame, parse_ethernet_frame}
use wirestack.Ipv4.{Ipv4Packet, parse_ipv4_packet}
use wirestack.EventLoop.Arp.{Host, Frames, ether_type_arp, handle_arp}
use wirestack.EventLoop.Send.{ether_type_ipv4, protocol_icmp, protocol_tcp, protocol_udp}
use wirestack.EventLoop.Icmp.{handle_icmp}
use wirestack.EventLoop.State.{Runtime, DnsRuntimeState}
use wirestack.EventLoop.Udp.{handle_dns_client_udp, handle_udp}
use wirestack.EventLoop.Tcp.{handle_tcp}

-- The readings of the clock while a frame is handled: by the cache for `stateOf` and `insert`, and
-- by `handleTcp`; and what the ISN generator returns if it is asked.
pub record Readings : Type 0 where
  pub asked : ℕ
  pub learned : ℕ
  pub received : ℕ
  pub draw : Option ℕ

abbrev pub dns_client_udp :
    Option DnsRuntimeState → Host → ℕ → Ipv4Packet → Runtime → Option Runtime
dns_client_udp none host tcp_source_port packet runtime = none
dns_client_udp (some state) host tcp_source_port packet runtime =
    handle_dns_client_udp state host tcp_source_port packet runtime

unfoldable pub dispatch_udp : Host → ℕ → Ipv4Packet → EthernetFrame → Runtime → Frames × Runtime
dispatch_udp host tcp_source_port packet frame runtime =
    elim (dns_client_udp runtime.dns_state host tcp_source_port packet runtime) [
      | some consumed ↦ ([], consumed)
      | none ↦ (handle_udp host runtime.udp_endpoints packet frame, runtime)
    ]

unfoldable pub dispatch_packet :
    Host → ℕ → Readings → Ipv4Packet → EthernetFrame → Runtime → Frames × Runtime
dispatch_packet host tcp_source_port readings packet frame runtime =
    if packet.protocol == protocol_icmp
    then (handle_icmp host packet frame, runtime)
    else if packet.protocol == protocol_tcp
    then handle_tcp host readings.received readings.draw packet frame runtime
    else if packet.protocol == protocol_udp
    then dispatch_udp host tcp_source_port packet frame runtime
    else ([], runtime)

abbrev pub learn_sender : Ipv4Packet → EthernetFrame → ℕ → Runtime → Runtime
learn_sender packet frame learned runtime = record runtime {
  arp_cache = insert packet.source frame.source learned runtime.arp_cache;
}

unfoldable pub handle_ipv4 : Host → ℕ → Readings → EthernetFrame → Runtime → Frames × Runtime
handle_ipv4 host tcp_source_port readings frame runtime = elim (parse_ipv4_packet frame.payload) [
  | err e ↦ ([], runtime)
  | ok packet ↦
      if packet.ttl == 0 || not (ip_equal packet.destination host.ip)
      then ([], runtime)
      else dispatch_packet host tcp_source_port readings packet frame
          (learn_sender packet frame readings.learned runtime)
]

abbrev pub dispatch_arp : Host → Readings → EthernetFrame → Runtime → Frames × Runtime
dispatch_arp host readings frame runtime =
    let (frames, cache) = handle_arp host frame readings.asked readings.learned runtime.arp_cache in
    (frames, record runtime { arp_cache = cache })

-- What the loop does with the bytes that it read.
unfoldable pub receive_frame : Host → ℕ → Readings → List ℕ → Runtime → Frames × Runtime
receive_frame host tcp_source_port readings bytes runtime = elim (parse_ethernet_frame bytes) [
  | err e ↦ ([], runtime)
  | ok frame ↦
      if frame.ether_type == ether_type_arp
      then dispatch_arp host readings frame runtime
      else if frame.ether_type == ether_type_ipv4
      then handle_ipv4 host tcp_source_port readings frame runtime
      else ([], runtime)
]
