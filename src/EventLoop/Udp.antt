-- ===== src/EventLoop/Udp.antt =====
-- `handleDnsClientUdp` and `handleUdp`.
use wirestack.Common.{ℕ, List, [], if◌then◌else◌, ◌==◌, ◌!=◌}
use wirestack.Common.{Option, none, some, ok, err}
use wirestack.Ethernet.{EthernetFrame}
use wirestack.Ipv4.{Ipv4Packet}
use wirestack.Udp.{UdpDatagram, parse_udp_datagram, serialize_udp_datagram}
use wirestack.UdpEndpoint.{UdpHandler, deliver}
use wirestack.Dns.Session.{pending, session_resolved, session_failed, handle_dns_response}
use wirestack.EventLoop.Arp.{Host, Frames}
use wirestack.EventLoop.Send.{packet_from, send_packet}
use wirestack.EventLoop.State.{Runtime, DnsRuntimeState}

-- The address is set when the state is Resolved; without it nothing is dialled.
unfoldable pub dial_resolved : Host → ℕ → DnsRuntimeState → Runtime → Runtime
dial_resolved host tcp_local_port state runtime = elim state.session.state [
  | pending ↦ runtime
  | session_failed ↦ runtime
  | session_resolved ↦ elim state.session.resolved_address [
    | none ↦ runtime
    | some address ↦ record runtime {
      dial_target_ip = some address;
      active_open_key = some record {
        local_ip = host.ip;
        local_port = tcp_local_port;
        remote_ip = address;
        remote_port = state.http_port;
      };
    }
  ]
]

-- None is `false`: the datagram is not for the resolver's port.
unfoldable pub handle_dns_client_udp :
    DnsRuntimeState → Host → ℕ → Ipv4Packet → Runtime → Option Runtime
handle_dns_client_udp state host tcp_local_port packet runtime =
    elim (parse_udp_datagram packet.payload packet.source packet.destination) [
      | err e ↦ none
      | ok datagram ↦
          let (changed, session) =
            handle_dns_response state.session packet.source datagram.source_port
              datagram.destination_port datagram.payload in
          let after = record state { session = session } in
          let kept = record runtime { dns_state = some after } in
          if datagram.destination_port != state.session.local_port
          then none
          else some (if changed then dial_resolved host tcp_local_port after kept else kept)
    ]

unfoldable pub reply_udp : Host → Ipv4Packet → EthernetFrame → UdpDatagram → List ℕ → Frames
reply_udp host packet frame datagram response =
    let reply : UdpDatagram = record {
      source_port = datagram.destination_port;
      destination_port = datagram.source_port;
      payload = response;
    } in
    elim (serialize_udp_datagram reply host.ip packet.source) [
      | err e ↦ []
      | ok bytes ↦
          send_packet host frame.source (packet_from host packet.source packet.protocol bytes)
    ]

unfoldable pub handle_udp : Host → List (ℕ × UdpHandler) → Ipv4Packet → EthernetFrame → Frames
handle_udp host endpoints packet frame =
    elim (parse_udp_datagram packet.payload packet.source packet.destination) [
      | err e ↦ []
      | ok datagram ↦ elim (deliver datagram.destination_port datagram.payload endpoints) [
        | none ↦ []
        | some response ↦
            if datagram.source_port == 0 then [] else reply_udp host packet frame datagram response
      ]
    ]
