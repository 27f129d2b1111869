-- ===== src/EventLoop/Run.antt =====
-- The loop as a sequence of rounds, from `main`'s start: its neighbours and connections stay within
-- their limits.
use wirestack.Common.{ℕ, ◌≤◌, List, [], ◌∷◌, Option, arith}
use wirestack.Common.{inl, inr, Option-cases, length}
use wirestack.TcpConnection.Table.{half_open_count}
use wirestack.EventLoop.Arp.{Host, resolve_neighbor}
use wirestack.EventLoop.Bounds.{IsCacheBounded, IsTableBounded, resolve_neighbor-bounded, IsSound}
use wirestack.EventLoop.Received.{receive_if_readable-IsSound}
use wirestack.EventLoop.Limits.{SameLimits}
use wirestack.EventLoop.State.{Runtime, RuntimeOptions}
use wirestack.EventLoop.Round.{poll_neighbors, RoundReadings, receive_if_readable, round}
use wirestack.EventLoop.Dial.{dial}
use wirestack.EventLoop.Resolver.{drive_dns}
use wirestack.EventLoop.Start.{configure, start, initial_neighbor}
use wirestack.EventLoop.Due.{
  with_cache, poll_neighbors-IsSound, drive_dns-IsSound, dial-IsSound, drive_timers-IsSound,
}

round-IsSound :
    (host : Host) (options : RuntimeOptions) (readings : RoundReadings) (bytes : Option (List ℕ))
    (runtime : Runtime)
    → IsSound runtime
    → IsSound (round host options readings bytes runtime).1
unfolding round
round-IsSound host options readings bytes runtime v =
    let received = receive_if_readable host options readings.frame bytes runtime in
    let polled = poll_neighbors host readings.arp_polled received.1 in
    let resolved = drive_dns host readings.dns_driven readings.dns_looked polled.1 in
    let connected = dial host options readings.dialled readings.connect_draw resolved.1 in
    drive_timers-IsSound host readings.timers connected.1 (
      dial-IsSound host options readings.dialled readings.connect_draw resolved.1 (
        drive_dns-IsSound host readings.dns_driven readings.dns_looked polled.1 (
          poll_neighbors-IsSound host readings.arp_polled received.1
            (receive_if_readable-IsSound host options readings.frame bytes runtime v))))

-- The rounds of the loop one after the other.
unfoldable pub run :
    Host → RuntimeOptions → List (RoundReadings × Option (List ℕ)) → Runtime → Runtime
run host options [] runtime = runtime
run host options ((readings, bytes) ∷ rounds) runtime =
    run host options rounds (round host options readings bytes runtime).1

run-IsSound :
    (host : Host) (options : RuntimeOptions) (rounds : List (RoundReadings × Option (List ℕ)))
    (runtime : Runtime)
    → IsSound runtime
    → IsSound (run host options rounds runtime)
unfolding run
run-IsSound host options [] runtime v = v
run-IsSound host options ((readings, bytes) ∷ rounds) runtime v =
    run-IsSound host options rounds (round host options readings bytes runtime).1
      (round-IsSound host options readings bytes runtime v)

configure-IsSound :
    (host : Host) (options : RuntimeOptions) (id : ℕ) → IsSound (configure host options id)
unfolding configure half_open_count IsCacheBounded IsTableBounded SameLimits
configure-IsSound host options id = ground arith

start-IsSound :
    (host : Host) (options : RuntimeOptions) (id now : ℕ) → IsSound (start host options id now).1
unfolding start
start-IsSound host options id now =
    let runtime = configure host options id in
    let v = configure-IsSound host options id in
    elim (Option-cases (initial_neighbor runtime)) [
      | inl p ↦ rw (start, p) v
      | inr (ip, p) ↦
          rw (start, p)
            (with_cache (resolve_neighbor host ip now runtime.arp_cache).2 runtime
              (resolve_neighbor-bounded host ip now runtime.arp_cache v.neighbors) v)
    ]

-- From `main`'s start, after any rounds of the loop, whatever bytes are read and whatever the clock
-- and the generator return: at most 256 neighbours are kept, and at most 1024 connections, of which at
-- most 256 are half open.
pub run-bounded :
    (host : Host) (options : RuntimeOptions) (id now : ℕ)
    (rounds : List (RoundReadings × Option (List ℕ)))
    → let after = run host options rounds (start host options id now).1 in
      (length after.arp_cache.entries ≤ 256)
      × (length after.tcp_connections.connections ≤ 1024)
      × (half_open_count after.tcp_connections.connections ≤ 256)
unfolding IsCacheBounded IsTableBounded SameLimits
run-bounded host options id now rounds =
    let sound =
      run-IsSound host options rounds (start host options id now).1
        (start-IsSound host options id now) in
    (
      omega (arith, sound.neighbors.0.within, sound.neighbors.1),
      omega (arith, sound.connections.0.size, sound.connections.1.0),
      omega (arith, sound.connections.0.half_open, sound.connections.1.1),
    )
