-- ===== src/EventLoop/Round.antt =====
-- The rounds of the main loop: what it received, its neighbours, and its timers.
use wirestack.Common.{ℕ, ◌-◌, ◌/◌, ◌^◌, min, List, [], ◌∷◌, ◌++◌, true, not, ◌&&◌}
use wirestack.Common.{if◌then◌else◌, Option, none, some, ltb}
use wirestack.Address.{MacAddress, Ipv4Address, ip_equal}
use wirestack.ArpCache.{ArpCache, poll, next_deadline_of}
use wirestack.Tcp.Segment.{TcpSegment}
use wirestack.Dns.Session.{session_failed}
use wirestack.TcpConnection.Key.{TcpConnectionKey}
use wirestack.TcpConnection.Timers.{
  poll_retransmissions, poll_persist_probes, next_retransmission_deadline, next_persist_deadline,
  sooner,
}
use wirestack.EventLoop.Arp.{Host, Frames, send_arp_request, resolve_neighbor}
use wirestack.EventLoop.Send.{send_tcp_segment}
use wirestack.EventLoop.State.{RuntimeOptions, Runtime, DnsRuntimeState}
use wirestack.EventLoop.Tcp.{forget_sessions}
use wirestack.EventLoop.Ipv4.{Readings, receive_frame}
use wirestack.EventLoop.Resolver.{drive_dns}
use wirestack.EventLoop.Dial.{dial}

unfoldable pub fail_resolution : Ipv4Address → Runtime → Runtime
fail_resolution ip runtime = elim runtime.dns_state [
  | none ↦ runtime
  | some state ↦
      let ended = record state.session { state = session_failed; next_deadline = none } in
      if not state.query_started && ip_equal state.session.server_ip ip
      then record runtime { dns_state = some record state { session = ended } }
      else runtime
]

unfoldable pub fail_dial : Ipv4Address → Runtime → Runtime
fail_dial ip runtime = elim runtime.dial_target_ip [
  | none ↦ runtime
  | some target ↦
      if not runtime.active_open_started && ip_equal target ip
      then record runtime { active_open_started = true }
      else runtime
]

unfoldable pub fail_neighbors : List Ipv4Address → Runtime → Runtime
fail_neighbors [] runtime = runtime
fail_neighbors (ip ∷ ips) runtime = fail_neighbors ips (fail_dial ip (fail_resolution ip runtime))

unfoldable pub send_requests : Host → List Ipv4Address → Frames
send_requests host [] = []
send_requests host (ip ∷ ips) = send_arp_request host ip ∷ send_requests host ips

unfoldable pub poll_neighbors : Host → ℕ → Runtime → Frames × Runtime
poll_neighbors host now runtime =
    let (due, cache) = poll now runtime.arp_cache in
    (
      send_requests host due.requests,
      fail_neighbors due.failed_ips (record runtime { arp_cache = cache }),
    )

abbrev segment_to : Host → Ipv4Address → Option MacAddress → TcpSegment → Frames
segment_to host remote_ip none segment = []
segment_to host remote_ip (some mac) segment = send_tcp_segment host remote_ip mac segment

-- The loops over the retransmissions and over the probes.
unfoldable pub send_due :
    Host → ℕ → List (TcpConnectionKey × TcpSegment) → ArpCache → Frames × ArpCache
send_due host now [] cache = ([], cache)
send_due host now ((key, segment) ∷ due) cache =
    let (mac, asked, after) = resolve_neighbor host key.remote_ip now cache in
    let (frames, last) = send_due host now due after in
    (asked ++ segment_to host key.remote_ip mac segment ++ frames, last)

unfoldable pub forget_all : List TcpConnectionKey → Runtime → Runtime
forget_all [] runtime = runtime
forget_all (key ∷ keys) runtime = forget_all keys (forget_sessions key runtime)

unfoldable pub drive_timers : Host → ℕ → Runtime → Frames × Runtime
drive_timers host now runtime =
    let (due, polled) = poll_retransmissions now runtime.tcp_connections in
    let (resent, cache) = send_due host now due.retransmissions runtime.arp_cache in
    let (probes, probed) = poll_persist_probes now polled in
    let (probing, last) = send_due host now probes cache in
    let after = record runtime { tcp_connections = probed; arp_cache = last } in
    (resent ++ probing, forget_all due.time_wait_expired (forget_all due.timed_out after))

-- The readings of the clock in one round of the loop, in the program's order, and what the ISN
-- generator returns to `beginConnect`.
pub record RoundReadings : Type 0 where
  pub frame : Readings
  pub arp_polled : ℕ
  pub dns_driven : ℕ
  pub dns_looked : ℕ
  pub dialled : ℕ
  pub connect_draw : Option ℕ
  pub timers : ℕ

abbrev pub receive_if_readable :
    Host → RuntimeOptions → Readings → Option (List ℕ) → Runtime → Frames × Runtime
receive_if_readable host options readings none runtime = ([], runtime)
receive_if_readable host options readings (some bytes) runtime =
    receive_frame host options.source_port readings bytes runtime

-- One round of the loop, on the bytes read if the device was readable.
unfoldable pub round :
    Host → RuntimeOptions → RoundReadings → Option (List ℕ) → Runtime → Frames × Runtime
round host options readings bytes runtime =
    let (answers, received) = receive_if_readable host options readings.frame bytes runtime in
    let (requests, polled) = poll_neighbors host readings.arp_polled received in
    let (queries, resolved) = drive_dns host readings.dns_driven readings.dns_looked polled in
    let (dialling, connected) = dial host options readings.dialled readings.connect_draw resolved in
    let (resent, after) = drive_timers host readings.timers connected in
    (answers ++ requests ++ queries ++ dialling ++ resent, after)

abbrev resolver_deadline : Option DnsRuntimeState → Option ℕ
resolver_deadline none = none
resolver_deadline (some state) = state.session.next_deadline

unfoldable pub next_deadline : Runtime → Option ℕ
next_deadline runtime =
    sooner
      (sooner
        (sooner (next_retransmission_deadline runtime.tcp_connections)
          (next_persist_deadline runtime.tcp_connections))
        (resolver_deadline runtime.dns_state))
      (next_deadline_of runtime.arp_cache)

-- The argument of `waitReadable` in milliseconds; none is -1, no limit.
unfoldable pub poll_timeout : ℕ → Option ℕ → Option ℕ
poll_timeout now none = none
poll_timeout now (some deadline) =
    let remaining = if ltb now deadline then (deadline - now) / 1000000 else 0 in
    some (min remaining (2 ^ 31 - 1))
