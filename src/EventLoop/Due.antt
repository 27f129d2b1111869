-- ===== src/EventLoop/Due.antt =====
-- What is due in a round keeps the neighbour cache and the connection table within their limits.
use wirestack.Common.{ℕ, List, [], ◌∷◌, Option, arith}
use wirestack.Common.{true, inl, inr, Option-cases, not, ◌||◌}
use wirestack.Address.{MacAddress, Ipv4Address}
use wirestack.ArpCache.{ArpCache, poll}
use wirestack.ArpCache.Bounds.{FewSent}
use wirestack.ArpCache.Bounds as Cache
use wirestack.Tcp.Segment.{TcpSegment}
use wirestack.Dns.Session.{is_pending, poll_dns_timeout}
use wirestack.TcpConnection.Key.{TcpConnectionKey}
use wirestack.TcpConnection.Table.{TcpConnectResult, begin_connect}
use wirestack.TcpConnection.Timers.{poll_retransmissions, poll_persist_probes}
use wirestack.TcpConnection.Limits as Table
use wirestack.EventLoop.Arp.{Host, resolve_neighbor}
use wirestack.EventLoop.Bounds.{
  IsCacheBounded, if_keeps, cache_step, table_step, lookup-bounded, resolve_neighbor-bounded,
  IsSound, KeepsRuntime,
}
use wirestack.EventLoop.Received.{SameTables, same-IsSound, forget_sessions-IsSound}
use wirestack.EventLoop.State.{Runtime, RuntimeOptions, DnsRuntimeState}
use wirestack.EventLoop.Tcp.{forget_sessions}
use wirestack.EventLoop.Round.{
  fail_resolution, fail_dial, fail_neighbors, poll_neighbors, send_due, forget_all, drive_timers,
}
use wirestack.EventLoop.Dial.{after_connect, connect, dial, is_passive}
use wirestack.EventLoop.Resolver.{send_query, start_query, retry_query, drive_dns}

fail_resolution-same :
    (ip : Ipv4Address) (runtime : Runtime) → SameTables (fail_resolution ip runtime) runtime
unfolding fail_resolution SameTables
fail_resolution-same ip runtime = ground arith

fail_dial-same : (ip : Ipv4Address) (runtime : Runtime) → SameTables (fail_dial ip runtime) runtime
unfolding fail_dial SameTables
fail_dial-same ip runtime = ground arith

fail_neighbors-IsSound :
    (ips : List Ipv4Address) (runtime : Runtime)
    → IsSound runtime
    → IsSound (fail_neighbors ips runtime)
unfolding fail_neighbors
fail_neighbors-IsSound [] runtime v = v
fail_neighbors-IsSound (ip ∷ ips) runtime v =
    fail_neighbors-IsSound ips (fail_dial ip (fail_resolution ip runtime)) (
      same-IsSound (fail_dial-same ip (fail_resolution ip runtime))
        (same-IsSound (fail_resolution-same ip runtime) v))

pub with_cache :
    (cache : ArpCache) (runtime : Runtime)
    → IsCacheBounded cache
    → IsSound runtime
    → IsSound (record runtime { arp_cache = cache })
with_cache cache runtime b v = record { neighbors = b; connections = v.connections }

pub poll_neighbors-IsSound :
    (host : Host) (now : ℕ) (runtime : Runtime)
    → IsSound runtime
    → IsSound (poll_neighbors host now runtime).1
unfolding poll_neighbors
poll_neighbors-IsSound host now runtime v =
    let polled = poll now runtime.arp_cache in
    fail_neighbors-IsSound polled.0.failed_ips (record runtime { arp_cache = polled.1 })
      (with_cache polled.1 runtime (cache_step (Cache.polls now runtime.arp_cache) v.neighbors) v)

send_query-same :
    (host : Host) (now : ℕ) (state : DnsRuntimeState) (mac : MacAddress) (runtime : Runtime)
    → SameTables (send_query host now state mac runtime).1 runtime
unfolding send_query SameTables
send_query-same host now state mac runtime = ground arith

start_query-IsSound :
    (host : Host) (now : ℕ) (state : DnsRuntimeState) (runtime : Runtime)
    → IsSound runtime
    → IsSound (start_query host now state runtime).1
unfolding start_query
start_query-IsSound host now state runtime v =
    let ip = state.session.server_ip in
    let found = resolve_neighbor host ip now runtime.arp_cache in
    let resolved : Runtime = record runtime { arp_cache = found.2 } in
    let sound : IsSound resolved =
      with_cache found.2 runtime
        (resolve_neighbor-bounded host ip now runtime.arp_cache v.neighbors) v in
    elim (Option-cases found.0) [
      | inl p ↦ rw (start_query, p) sound
      | inr (mac, p) ↦
          rw (start_query, p) (same-IsSound (send_query-same host now state mac resolved) sound)
    ]

retry_query-IsSound :
    (host : Host) (now looked : ℕ) (state : DnsRuntimeState) (runtime : Runtime)
    → IsSound runtime
    → IsSound (retry_query host now looked state runtime).1
unfolding retry_query
retry_query-IsSound host now looked state runtime v =
    let polled = poll_dns_timeout state.session now in
    let found = lookup-bounded polled.1.server_ip looked runtime.arp_cache v.neighbors in
    elim (Option-cases polled.0.retransmit) [
      | inl p ↦
          rw (retry_query, p) (record { neighbors = v.neighbors; connections = v.connections })
      | inr (bytes, p) ↦
          rw (retry_query, p) (record { neighbors = found; connections = v.connections })
    ]

pub drive_dns-IsSound :
    (host : Host) (now looked : ℕ) (runtime : Runtime)
    → IsSound runtime
    → IsSound (drive_dns host now looked runtime).1
unfolding drive_dns KeepsRuntime
drive_dns-IsSound host now looked runtime v = elim (Option-cases runtime.dns_state) [
  | inl p ↦ rw (drive_dns, p) v
  | inr (state, p) ↦
      rw (drive_dns, p)
        (if_keeps KeepsRuntime (not (is_pending state.session.state)) ([], runtime) _ v
          (if_keeps KeepsRuntime (not state.query_started) _ _
            (start_query-IsSound host now state runtime v)
            (retry_query-IsSound host now looked state runtime v)))
]

after_connect-same :
    (host : Host) (options : RuntimeOptions) (key : TcpConnectionKey) (ip : Ipv4Address)
    (mac : MacAddress) (result : TcpConnectResult) (runtime : Runtime)
    → SameTables (after_connect host options key ip mac result runtime).1 runtime
unfolding after_connect SameTables
after_connect-same host options key ip mac result runtime = ground arith

connect-IsSound :
    (host : Host) (options : RuntimeOptions) (now : ℕ) (draw : Option ℕ) (ip : Ipv4Address)
    (mac : MacAddress) (runtime : Runtime)
    → IsSound runtime
    → IsSound (connect host options now draw ip mac runtime).1
unfolding connect
connect-IsSound host options now draw ip mac runtime v =
    elim (Option-cases runtime.active_open_key) [
      | inl p ↦ rw (connect, p) v
      | inr (key, p) ↦
          let opened = begin_connect key now draw runtime.tcp_connections in
          let started : Runtime = record runtime {
            tcp_connections = opened.1;
            active_open_started = true;
          } in
          let sound : IsSound started = record {
            neighbors = v.neighbors;
            connections =
                table_step (Table.connect key now draw runtime.tcp_connections) v.connections;
          } in
          rw (connect, p)
            (same-IsSound (after_connect-same host options key ip mac opened.0 started) sound)
    ]

pub dial-IsSound :
    (host : Host) (options : RuntimeOptions) (now : ℕ) (draw : Option ℕ) (runtime : Runtime)
    → IsSound runtime
    → IsSound (dial host options now draw runtime).1
unfolding dial KeepsRuntime
dial-IsSound host options now draw runtime v = elim (Option-cases runtime.dial_target_ip) [
  | inl p ↦ rw (dial, p) v
  | inr (ip, p) ↦
      let found = resolve_neighbor host ip now runtime.arp_cache in
      let resolved : Runtime = record runtime { arp_cache = found.2 } in
      let sound : IsSound resolved =
        with_cache found.2 runtime
          (resolve_neighbor-bounded host ip now runtime.arp_cache v.neighbors) v in
      let idle = is_passive options.mode || runtime.active_open_started in
      elim (Option-cases found.0) [
        | inl q ↦ rw (dial, p, q) (if_keeps KeepsRuntime idle ([], runtime) _ v sound)
        | inr (mac, q) ↦
            rw (dial, p, q)
              (if_keeps KeepsRuntime idle ([], runtime) _ v
                (connect-IsSound host options now draw ip mac resolved sound))
      ]
]

send_due-bounded :
    (host : Host) (now : ℕ) (due : List (TcpConnectionKey × TcpSegment)) (c : ArpCache)
    → IsCacheBounded c
    → IsCacheBounded (send_due host now due c).1
unfolding send_due
send_due-bounded host now [] c v = v
send_due-bounded host now ((key, segment) ∷ due) c v =
    send_due-bounded host now due (resolve_neighbor host key.remote_ip now c).2
      (resolve_neighbor-bounded host key.remote_ip now c v)

forget_all-IsSound :
    (keys : List TcpConnectionKey) (runtime : Runtime)
    → IsSound runtime
    → IsSound (forget_all keys runtime)
unfolding forget_all
forget_all-IsSound [] runtime v = v
forget_all-IsSound (key ∷ keys) runtime v =
    forget_all-IsSound keys (forget_sessions key runtime) (forget_sessions-IsSound key runtime v)

pub drive_timers-IsSound :
    (host : Host) (now : ℕ) (runtime : Runtime)
    → IsSound runtime
    → IsSound (drive_timers host now runtime).1
unfolding drive_timers
drive_timers-IsSound host now runtime v =
    let due = poll_retransmissions now runtime.tcp_connections in
    let resent = send_due host now due.0.retransmissions runtime.arp_cache in
    let probed = poll_persist_probes now due.1 in
    let last = send_due host now probed.0 resent.1 in
    let after : Runtime = record runtime { tcp_connections = probed.1; arp_cache = last.1 } in
    let first = send_due-bounded host now due.0.retransmissions runtime.arp_cache v.neighbors in
    let sound : IsSound after = record {
      neighbors = send_due-bounded host now probed.0 resent.1 first;
      connections =
          table_step (Table.probes now due.1)
            (table_step (Table.retransmissions now runtime.tcp_connections) v.connections);
    } in
    forget_all-IsSound due.0.time_wait_expired (forget_all due.0.timed_out after)
      (forget_all-IsSound due.0.timed_out after sound)
