-- ===== src/EventLoop/Received.antt =====
-- Handling a frame keeps the neighbour cache and the connection table within their limits.
use wirestack.Common.{ℕ, ◌≡◌, sym, subst, List, [], Option, none, some, arith}
use wirestack.Common.{inl, inr, Option-cases, not, ◌||◌, ◌==◌}
use wirestack.Address.{ip_equal}
use wirestack.Ethernet.{EthernetFrame, parse_ethernet_frame}
use wirestack.Ipv4.{Ipv4Packet, parse_ipv4_packet}
use wirestack.Tcp.Segment.{TcpSegment, parse_tcp_segment}
use wirestack.TcpConnection.Key.{TcpConnectionKey}
use wirestack.TcpConnection.Table.{handle}
use wirestack.TcpConnection.Limits as Table
use wirestack.EventLoop.Arp.{ether_type_arp, Host, Frames}
use wirestack.EventLoop.Bounds.{
  IsCacheBounded, IsTableBounded, if_keeps, Result-cases, table_step, insert-bounded,
  handle_arp-bounded, IsSound, KeepsRuntime, serve-IsSound, handle_http_client-IsSound,
}
use wirestack.EventLoop.State.{Runtime, RuntimeOptions, DnsRuntimeState}
use wirestack.EventLoop.Send.{
  send_tcp_reply, protocol_icmp, protocol_tcp, protocol_udp, ether_type_ipv4,
}
use wirestack.EventLoop.HttpServer.{serve}
use wirestack.EventLoop.HttpClient.{handle_http_client}
use wirestack.EventLoop.Tcp.{receive_segment, forget_sessions, handle_tcp, key_for}
use wirestack.EventLoop.Udp.{handle_dns_client_udp, dial_resolved}
use wirestack.EventLoop.Ipv4.{
  Readings, dispatch_udp, dispatch_packet, handle_ipv4, receive_frame, learn_sender, dns_client_udp,
  dispatch_arp,
}
use wirestack.EventLoop.Round.{receive_if_readable}

pub forget_sessions-IsSound :
    (key : TcpConnectionKey) (runtime : Runtime)
    → IsSound runtime
    → IsSound (forget_sessions key runtime)
unfolding forget_sessions
forget_sessions-IsSound key runtime v = record {
  neighbors = v.neighbors;
  connections = v.connections;
}

receive_segment-IsSound :
    (reply : TcpSegment → Frames) (key : TcpConnectionKey) (segment : TcpSegment) (now : ℕ)
    (draw : Option ℕ) (runtime : Runtime)
    → IsSound runtime
    → IsSound (receive_segment reply key segment now draw runtime).1
unfolding receive_segment
receive_segment-IsSound reply key segment now draw runtime v =
    let handled = handle key segment now draw runtime.tcp_connections in
    let kept : Runtime = record runtime { tcp_connections = handled.1 } in
    let sound : IsSound kept = record {
      neighbors = v.neighbors;
      connections =
          table_step (Table.segment key segment now draw runtime.tcp_connections) v.connections;
    } in
    let served = serve reply key handled.0 now kept in
    let asked = handle_http_client reply key handled.0 now served.1 in
    let after =
      handle_http_client-IsSound reply key handled.0 now served.1
        (serve-IsSound reply key handled.0 now kept sound) in
    if_keeps IsSound (handled.0.connection_reset || handled.0.connection_closed) _ _
      (forget_sessions-IsSound key asked.1 after) after

handle_tcp-IsSound :
    (host : Host) (now : ℕ) (draw : Option ℕ) (packet : Ipv4Packet) (frame : EthernetFrame)
    (runtime : Runtime)
    → IsSound runtime
    → IsSound (handle_tcp host now draw packet frame runtime).1
unfolding handle_tcp
handle_tcp-IsSound host now draw packet frame runtime v =
    elim (Result-cases (parse_tcp_segment packet.payload packet.source packet.destination)) [
      | inl (e, p) ↦ rw (handle_tcp, p) v
      | inr (segment, p) ↦
          rw (handle_tcp, p)
            (receive_segment-IsSound (send_tcp_reply host packet frame)
              (key_for host packet segment) segment now draw runtime v)
    ]

-- What neither sends nor learns keeps both.
unfoldable pub SameTables : Runtime → Runtime → Type 0
SameTables after runtime =
    (after.arp_cache ≡ runtime.arp_cache) × (after.tcp_connections ≡ runtime.tcp_connections)

pub same-IsSound :
    {after runtime : Runtime} → SameTables after runtime → IsSound runtime → IsSound after
unfolding SameTables
same-IsSound same v = record {
  neighbors = subst IsCacheBounded (sym same.0) v.neighbors;
  connections = subst IsTableBounded (sym same.1) v.connections;
}

dial_resolved-same :
    (host : Host) (port : ℕ) (state : DnsRuntimeState) (runtime : Runtime)
    → SameTables (dial_resolved host port state runtime) runtime
unfolding dial_resolved SameTables
dial_resolved-same host port state runtime = ground arith

handle_dns_client_udp-same :
    (state : DnsRuntimeState) (host : Host) (port : ℕ) (packet : Ipv4Packet)
    (runtime after : Runtime)
    → handle_dns_client_udp state host port packet runtime ≡ some after
    → SameTables after runtime
unfolding handle_dns_client_udp dial_resolved SameTables
handle_dns_client_udp-same state host port packet runtime after h = ground (arith, h)

dns_client_udp-same :
    (resolver : Option DnsRuntimeState) (host : Host) (port : ℕ) (packet : Ipv4Packet)
    (runtime after : Runtime)
    → dns_client_udp resolver host port packet runtime ≡ some after
    → SameTables after runtime
dns_client_udp-same none host port packet runtime after h = cc
dns_client_udp-same (some state) host port packet runtime after h =
    handle_dns_client_udp-same state host port packet runtime after h

dispatch_udp-IsSound :
    (host : Host) (port : ℕ) (packet : Ipv4Packet) (frame : EthernetFrame) (runtime : Runtime)
    → IsSound runtime
    → IsSound (dispatch_udp host port packet frame runtime).1
unfolding dispatch_udp
dispatch_udp-IsSound host port packet frame runtime v =
    elim (Option-cases (dns_client_udp runtime.dns_state host port packet runtime)) [
      | inl p ↦ rw (dispatch_udp, p) v
      | inr (after, p) ↦
          rw (dispatch_udp, p)
            (same-IsSound (dns_client_udp-same runtime.dns_state host port packet runtime after p)
              v)
    ]

dispatch_packet-IsSound :
    (host : Host) (port : ℕ) (readings : Readings) (packet : Ipv4Packet) (frame : EthernetFrame)
    (runtime : Runtime)
    → IsSound runtime
    → IsSound (dispatch_packet host port readings packet frame runtime).1
unfolding dispatch_packet KeepsRuntime
dispatch_packet-IsSound host port readings packet frame runtime v =
    if_keeps KeepsRuntime (packet.protocol == protocol_icmp) _ _ v (
      if_keeps KeepsRuntime (packet.protocol == protocol_tcp) _ _
        (handle_tcp-IsSound host readings.received readings.draw packet frame runtime v)
        (if_keeps KeepsRuntime (packet.protocol == protocol_udp) _ ([], runtime)
          (dispatch_udp-IsSound host port packet frame runtime v) v))

handle_ipv4-IsSound :
    (host : Host) (port : ℕ) (readings : Readings) (frame : EthernetFrame) (runtime : Runtime)
    → IsSound runtime
    → IsSound (handle_ipv4 host port readings frame runtime).1
unfolding handle_ipv4 KeepsRuntime
handle_ipv4-IsSound host port readings frame runtime v =
    elim (Result-cases (parse_ipv4_packet frame.payload)) [
      | inl (e, p) ↦ rw (handle_ipv4, p) v
      | inr (packet, p) ↦
          let learned = learn_sender packet frame readings.learned runtime in
          let sound : IsSound learned = record {
            neighbors =
                insert-bounded packet.source frame.source readings.learned runtime.arp_cache
                  v.neighbors;
            connections = v.connections;
          } in
          rw (handle_ipv4, p)
            (if_keeps KeepsRuntime (packet.ttl == 0 || not (ip_equal packet.destination host.ip))
              ([], runtime) _ v
              (dispatch_packet-IsSound host port readings packet frame learned sound))
    ]

receive_frame-IsSound :
    (host : Host) (port : ℕ) (readings : Readings) (bytes : List ℕ) (runtime : Runtime)
    → IsSound runtime
    → IsSound (receive_frame host port readings bytes runtime).1
unfolding receive_frame KeepsRuntime
receive_frame-IsSound host port readings bytes runtime v =
    elim (Result-cases (parse_ethernet_frame bytes)) [
      | inl (e, p) ↦ rw (receive_frame, p) v
      | inr (frame, p) ↦
          let sound : IsSound (dispatch_arp host readings frame runtime).1 = record {
            neighbors =
                handle_arp-bounded host frame readings.asked readings.learned runtime.arp_cache
                  v.neighbors;
            connections = v.connections;
          } in
          rw (receive_frame, p)
            (if_keeps KeepsRuntime (frame.ether_type == ether_type_arp) _ _ sound (
              if_keeps KeepsRuntime (frame.ether_type == ether_type_ipv4) _ ([], runtime)
                (handle_ipv4-IsSound host port readings frame runtime v) v))
    ]

pub receive_if_readable-IsSound :
    (host : Host) (options : RuntimeOptions) (readings : Readings) (bytes : Option (List ℕ))
    (runtime : Runtime)
    → IsSound runtime
    → IsSound (receive_if_readable host options readings bytes runtime).1
receive_if_readable-IsSound host options readings none runtime v = v
receive_if_readable-IsSound host options readings (some bytes) runtime v =
    receive_frame-IsSound host options.source_port readings bytes runtime v
