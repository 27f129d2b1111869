-- ===== src/TcpConnection/Timers/Deadlines.antt =====
-- The deadline that `nextRetransmissionDeadline` reports: nothing is due before it.
use wirestack.Common.{
  ℕ, ◌+◌, ◌≤◌, ◌<◌, ◌≡◌, refl, true, false, arith, Option, some, none, List, [], ◌∷◌,
}
use wirestack.Common.{ltb, inl, inr, Bool-cases, Option-cases}
use wirestack.TcpConnection.State.{Connection, PendingTransmission, time_wait, same_state}
use wirestack.TcpConnection.Key.{TcpConnectionKey}
use wirestack.TcpConnection.Table.{Connections, TcpConnectionTable}
use wirestack.TcpConnection.Timers.{
  idle, poll_connection, poll_pending, is_past, sooner, earliest_deadline, retransmission_deadline,
  queue_deadline, poll_connections, poll_retransmissions, next_retransmission_deadline,
}

-- A deadline that is not before another.
abbrev NotBefore : ℕ → Option ℕ → Type 0
NotBefore d none = Unit {0}
NotBefore d (some x) = d ≤ x

abbrev AllNotBefore : ℕ → (Connection → Option ℕ) → Connections → Type 0
AllNotBefore d f [] = Unit {0}
AllNotBefore d f ((key, c) ∷ m) = NotBefore d (f c) × AllNotBefore d f m

sooner-NotBefore :
    (d : ℕ) (a b : Option ℕ) → NotBefore d (sooner a b) → NotBefore d a × NotBefore d b
unfolding sooner
sooner-NotBefore d none none h = (tt, tt)
sooner-NotBefore d (some x) none h = (h, tt)
sooner-NotBefore d none (some y) h = (tt, h)
sooner-NotBefore d (some x) (some y) h = elim (Bool-cases (ltb y x)) [
  | inl e ↦ let h' : d ≤ y = rw e at h in ground arith
  | inr e ↦ let h' : d ≤ x = rw e at h in ground arith
]

earliest_deadline-NotBefore :
    (d : ℕ) (f : Connection → Option ℕ) (a : Option ℕ) (m : Connections)
    → NotBefore d (earliest_deadline f a m)
    → NotBefore d a × AllNotBefore d f m
unfolding earliest_deadline
earliest_deadline-NotBefore d f a [] h = (h, tt)
earliest_deadline-NotBefore d f a ((key, c) ∷ m) h =
    let rest = earliest_deadline-NotBefore d f (sooner a (f c)) m h in
    let both = sooner-NotBefore d a (f c) rest.0 in (both.0, (both.1, rest.1))

time_wait-idle :
    (c : Connection) (deadline : Option ℕ) (d now : ℕ)
    → NotBefore d deadline
    → now < d
    → is_past deadline now ≡ false
time_wait-idle c none d now h early = refl
time_wait-idle c (some x) d now h early = ground arith

poll_pending-idle :
    (key : TcpConnectionKey) (c : Connection) (queue : List PendingTransmission) (d now : ℕ)
    → NotBefore d (queue_deadline queue)
    → now < d
    → poll_pending key c queue now ≡ (idle, c)
unfolding poll_pending
poll_pending-idle key c [] d now h early = refl
poll_pending-idle key c (e ∷ rest) d now h early =
    let waiting : ltb now (e.last_sent_at + e.timeout_interval) ≡ true = ground arith in rw waiting

poll_connection-idle :
    (key : TcpConnectionKey) (c : Connection) (d now : ℕ)
    → NotBefore d (retransmission_deadline c)
    → now < d
    → poll_connection key c now ≡ (idle, c)
unfolding poll_connection retransmission_deadline
poll_connection-idle key c d now h early = elim (Bool-cases (same_state c.state time_wait)) [
  | inl e ↦
      let h' : NotBefore d c.time_wait_deadline = rw e at h in
      rw e (rw (time_wait-idle c c.time_wait_deadline d now h' early))
  | inr e ↦
      let h' : NotBefore d (queue_deadline c.pending) = rw e at h in
      rw e (poll_pending-idle key c c.pending d now h' early)
]

poll_connections-idle :
    (d now : ℕ) (m : Connections)
    → AllNotBefore d retransmission_deadline m
    → now < d
    → poll_connections now m
      ≡ (record { retransmissions = []; timed_out = []; time_wait_expired = [] }, m)
unfolding poll_connections
poll_connections-idle d now [] h early = refl
poll_connections-idle d now ((key, c) ∷ m) h early =
    rw (poll_connection-idle key c d now h.0 early, poll_connections-idle d now m h.1 early)

-- Before the deadline that the table reports, a poll finds nothing due and changes nothing; with no
-- deadline it never does.
pub poll_retransmissions-early :
    (t : TcpConnectionTable) (now : ℕ)
    → ((d : ℕ) → next_retransmission_deadline t ≡ some d → now < d)
    → poll_retransmissions now t
      ≡ (record { retransmissions = []; timed_out = []; time_wait_expired = [] }, t)
unfolding poll_retransmissions next_retransmission_deadline
poll_retransmissions-early t now early =
    elim (Option-cases (earliest_deadline retransmission_deadline none t.connections)) [
      | inl e ↦
          let all =
            earliest_deadline-NotBefore (now + 1) retransmission_deadline none t.connections
              (rw e tt) in
          rw (poll_connections-idle (now + 1) now t.connections all.1 (omega arith))
      | inr (d, e) ↦
          let all =
            earliest_deadline-NotBefore d retransmission_deadline none t.connections
              (rw e (omega arith)) in
          rw (poll_connections-idle d now t.connections all.1 (early d e))
    ]
