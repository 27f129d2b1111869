-- ===== src/TcpConnection/Limits/Count.antt =====
-- The half-open connections: no operation but an open adds one.
use wirestack.Common.{ℕ, ◌+◌, ◌≤◌, ◌≡◌, true, false, arith, Option, some, none, List, [], ◌∷◌}
use wirestack.Common.{if◌then◌else◌, ◌&&◌, not, ltb, leb, inl, inr, Bool-cases, length, ◌++◌, ◌-◌}
use wirestack.Common.Map
use wirestack.TcpConnection.State.{Connection}
use wirestack.TcpConnection.Key.{TcpConnectionKey, key_equal, key_less}
use wirestack.TcpConnection.States.{Trace, here, Trace-past_handshake, Trace-eq}
use wirestack.TcpConnection.Congestion.{apply_timeout_congestion_collapse}
use wirestack.TcpConnection.Schedule.{
  app_owned_bytes, schedule_queued_data, maybe_sequence_fin, update_persist_state,
}
use wirestack.TcpConnection.Synchronized.Moves.{
  schedule_queued_data-Trace, maybe_sequence_fin-Trace,
}
use wirestack.TcpConnection.Table.{Connections, half_open_count, is_half_open, find_connection}
use wirestack.TcpConnection.Table.Moves.{MovesTo}
use wirestack.TcpConnection.Api.{enqueue, is_sendable, close_connection, tcp_send_buffer_capacity}
use wirestack.TcpConnection.Timers.{
  poll_connection, poll_pending, retransmit_oldest, collapse_for, poll_connections,
  probe_connection, probe_connections,
}

-- A connection past its handshake stays so, or is erased.
abbrev pub StaysOpen : Connection → Option Connection → Type 0
StaysOpen c none = Unit {0}
StaysOpen c (some d) = is_half_open c ≡ false → is_half_open d ≡ false

Trace-StaysOpen : (c d : Connection) → Trace c.state d.state → StaysOpen c (some d)
Trace-StaysOpen c d p h = ground (arith, Trace-past_handshake (ground arith) p)

pub MovesTo-StaysOpen : (c : Connection) (d : Option Connection) → MovesTo c.state d → StaysOpen c d
MovesTo-StaysOpen c none m = tt
MovesTo-StaysOpen c (some d) m = Trace-StaysOpen c d m

pub half_open-assign :
    (key : TcpConnectionKey) (c d : Connection) (m : Connections)
    → find_connection key m ≡ some c
    → StaysOpen c (some d)
    → half_open_count (Map.assign key_equal key d m) ≤ half_open_count m
unfolding half_open_count Map.assign Map.find
half_open-assign key c d [] found stays = omega arith
half_open-assign key c d ((j, e) ∷ m) found stays = elim (Bool-cases (key_equal j key)) [
  | inl same ↦ elim (Bool-cases (is_half_open c)) [
    | inl half ↦ ground arith
    | inr full ↦ ground (arith, stays full)
  ]
  | inr other ↦ ground (arith, half_open-assign key c d m)
]

pub half_open-erase :
    (key : TcpConnectionKey) (m : Connections)
    → half_open_count (Map.erase key_equal key m) ≤ half_open_count m
unfolding half_open_count Map.erase
half_open-erase key [] = omega arith
half_open-erase key ((j, e) ∷ m) = ground (arith, half_open-erase key m)

pub half_open-emplace :
    (key : TcpConnectionKey) (c : Connection) (m : Connections)
    → half_open_count (Map.emplace key_equal key_less key c m) ≤ half_open_count m + 1
unfolding half_open_count Map.emplace
half_open-emplace key c [] = ground arith
half_open-emplace key c ((j, e) ∷ m) = ground (arith, half_open-emplace key c m)

-- Sending and closing.
pub enqueue-Trace :
    (key : TcpConnectionKey) (c : Connection) (payload : List ℕ) (now : ℕ)
    → Trace c.state (enqueue key c payload now).1.state
unfolding enqueue
enqueue-Trace key c payload now =
    let queued : Connection = record c { unsent = c.unsent ++ payload } in
    let owned = app_owned_bytes c in
    let remaining =
      if leb tcp_send_buffer_capacity owned then 0 else tcp_send_buffer_capacity - owned in
    let sent = (schedule_queued_data key queued now).1 in
    let accepted = is_sendable c && not c.close_requested && not (ltb remaining (length payload)) in
    elim (Bool-cases accepted) [
      | inl e ↦
          Trace-eq {t = sent.state} (ground arith)
            (schedule_queued_data-Trace key queued now (ground arith))
      | inr e ↦ Trace-eq {t = c.state} (ground arith) here
    ]

pub close_connection-Trace :
    (key : TcpConnectionKey) (c : Connection) (now : ℕ)
    → Trace c.state (close_connection key c now).1.state
unfolding close_connection update_persist_state
close_connection-Trace key c now =
    let closed = (maybe_sequence_fin key (record c { close_requested = true }) now).1 in
    elim (Bool-cases (is_sendable c)) [
      | inr e ↦ rw e here
      | inl e ↦ rw e (
          Trace-eq {t = closed.state} (ground arith)
            (maybe_sequence_fin-Trace key (record c { close_requested = true }) now e))
    ]

pub enqueue-StaysOpen :
    (key : TcpConnectionKey) (c : Connection) (payload : List ℕ) (now : ℕ)
    → StaysOpen c (some (enqueue key c payload now).1)
enqueue-StaysOpen key c payload now =
    Trace-StaysOpen c (enqueue key c payload now).1 (enqueue-Trace key c payload now)

pub close_connection-StaysOpen :
    (key : TcpConnectionKey) (c : Connection) (now : ℕ)
    → StaysOpen c (some (close_connection key c now).1)
close_connection-StaysOpen key c now =
    Trace-StaysOpen c (close_connection key c now).1 (close_connection-Trace key c now)

-- The timers keep every state.
poll_connection-state :
    (key : TcpConnectionKey) (c : Connection) (now : ℕ)
    → (poll_connection key c now).1.state ≡ c.state
unfolding poll_connection poll_pending retransmit_oldest collapse_for
    apply_timeout_congestion_collapse
poll_connection-state key c now = ground arith

pub poll_connections-counts :
    (now : ℕ) (m : Connections)
    → (length (poll_connections now m).1 ≤ length m)
      × (half_open_count (poll_connections now m).1 ≤ half_open_count m)
unfolding poll_connections half_open_count
poll_connections-counts now [] = omega arith
poll_connections-counts now ((key, c) ∷ m) =
    ground (arith, poll_connections-counts now m, poll_connection-state key c now)

probe_connection-state :
    (key : TcpConnectionKey) (c : Connection) (now : ℕ)
    → (probe_connection key c now).1.state ≡ c.state
unfolding probe_connection
probe_connection-state key c now = ground arith

pub probe_connections-counts :
    (now : ℕ) (m : Connections)
    → (length (probe_connections now m).1 ≡ length m)
      × (half_open_count (probe_connections now m).1 ≡ half_open_count m)
unfolding probe_connections half_open_count
probe_connections-counts now [] = omega arith
probe_connections-counts now ((key, c) ∷ m) =
    ground (arith, probe_connections-counts now m, probe_connection-state key c now)
