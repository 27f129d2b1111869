-- ===== src/EventLoop/Tcp.antt =====
-- `handleTcp`.
use wirestack.Common.{ℕ, [], ◌++◌, ◌||◌, Option, ok, err, if◌then◌else◌}
use wirestack.Common.Map
use wirestack.Ethernet.{EthernetFrame}
use wirestack.Ipv4.{Ipv4Packet}
use wirestack.Tcp.Segment.{TcpSegment, parse_tcp_segment}
use wirestack.TcpConnection.Key.{TcpConnectionKey, TcpReceiveResult, key_equal}
use wirestack.TcpConnection.Table.{handle}
use wirestack.EventLoop.Arp.{Host, Frames}
use wirestack.EventLoop.Send.{send_tcp_reply, send_all, send_if}
use wirestack.EventLoop.State.{Runtime}
use wirestack.EventLoop.HttpServer.{serve}
use wirestack.EventLoop.HttpClient.{handle_http_client}

abbrev pub key_for : Host → Ipv4Packet → TcpSegment → TcpConnectionKey
key_for host packet segment = record {
  local_ip = host.ip;
  local_port = segment.destination_port;
  remote_ip = packet.source;
  remote_port = segment.source_port;
}

-- The segments that the connection table answers with.
unfoldable pub send_result : (TcpSegment → Frames) → TcpReceiveResult → Frames
send_result reply result =
    send_if reply result.reply
    ++ send_if reply result.fast_retransmit
    ++ send_all reply result.scheduled

-- `http_sessions.erase(key)` and `http_client_sessions.erase(key)`
unfoldable pub forget_sessions : TcpConnectionKey → Runtime → Runtime
forget_sessions key runtime = record runtime {
  http_sessions = Map.erase key_equal key runtime.http_sessions;
  http_client_sessions = Map.erase key_equal key runtime.http_client_sessions;
}

unfoldable pub receive_segment :
    (TcpSegment → Frames)
    → TcpConnectionKey
    → TcpSegment
    → ℕ
    → Option ℕ
    → Runtime
    → Frames × Runtime
receive_segment reply key segment now draw runtime =
    let (result, table) = handle key segment now draw runtime.tcp_connections in
    let (served, after_server) =
      serve reply key result now (record runtime { tcp_connections = table }) in
    let (asked, after_client) = handle_http_client reply key result now after_server in
    (
      send_result reply result ++ served ++ asked,
      if result.connection_reset || result.connection_closed
          then forget_sessions key after_client
          else after_client,
    )

unfoldable pub handle_tcp :
    Host → ℕ → Option ℕ → Ipv4Packet → EthernetFrame → Runtime → Frames × Runtime
handle_tcp host now draw packet frame runtime =
    elim (parse_tcp_segment packet.payload packet.source packet.destination) [
      | err e ↦ ([], runtime)
      | ok segment ↦
          receive_segment (send_tcp_reply host packet frame) (key_for host packet segment) segment
            now draw runtime
    ]
