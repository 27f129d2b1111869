-- ===== src/TcpConnection/Synchronized/Moves.antt =====
-- `handleSynchronized` moves a connection along the state machine.
use wirestack.Common.{ℕ, ◌≡◌, refl, subst, Bool, true, arith, Option, List, []}
use wirestack.Common.{if◌then◌else◌, ◌==◌, not, ◌&&◌, ◌||◌, ltb, inl, inr, Bool-cases, Option-cases}
use wirestack.Tcp.Segment.{TcpSegment}
use wirestack.Tcp.Options.{TcpParsedOptions}
use wirestack.TcpConnection.State.{
  Connection, TcpState, established, fin_wait1, fin_wait2, close_wait, last_ack, same_state,
}
use wirestack.TcpConnection.Key.{TcpConnectionKey}
use wirestack.TcpConnection.States.{
  Trace, here, Trace-trans, Trace-tested, Trace-eq, close, close_after_peer, peer_close,
  simultaneous_close, peer_close_after,
}
use wirestack.TcpConnection.Window.{available_send_window}
use wirestack.TcpConnection.Sequence.{sequence_less_or_equal}
use wirestack.TcpConnection.Schedule.{
  is_empty, is_set, schedule_data, maybe_sequence_fin, update_persist_state, schedule_queued_data,
}
use wirestack.TcpConnection.Acknowledge.{start_time_wait, process_ack}
use wirestack.TcpConnection.Reassembly.{insert_reassembly_fragment, release_contiguous}
use wirestack.TcpConnection.Synchronized.{
  duplicate_handshake_syn_ack, usable_part, fin_is_next, Usable, schedule_if_sendable, ack_only,
  outside_window, store_payload, retain_fin, consume_fin, receive_usable, receive_part,
  handle_well_formed, handle_synchronized, parsed_options,
}
use wirestack.TcpConnection.Acknowledge.Moves.{Keeps, process_ack-Trace}

-- Scheduling sends the deferred FIN of a connection that may send.
schedule_data-state :
    (key : TcpConnectionKey) (c : Connection) (now : ℕ) → Keeps c (schedule_data key c now).1
unfolding schedule_data
schedule_data-state key c now = refl

update_persist_state-state : (c : Connection) (now : ℕ) → Keeps c (update_persist_state c now)
unfolding update_persist_state
update_persist_state-state c now = ground arith

abbrev is_data_state : TcpState → Bool
is_data_state s = same_state s established || same_state s close_wait

Trace-fin :
    (s : TcpState)
    → is_data_state s ≡ true
    → Trace s (if same_state s established then fin_wait1 else last_ack)
Trace-fin s h = elim (Bool-cases (same_state s established)) [
  | inl e ↦ rw e (Trace-tested s e close)
  | inr e ↦ rw e (Trace-tested s (ground arith) close_after_peer)
]

pub maybe_sequence_fin-Trace :
    (key : TcpConnectionKey) (c : Connection) (now : ℕ)
    → is_data_state c.state ≡ true
    → Trace c.state (maybe_sequence_fin key c now).1.state
unfolding maybe_sequence_fin
maybe_sequence_fin-Trace key c now h = elim (Bool-cases c.close_requested) [
  | inr e ↦ simp e here
  | inl e ↦ simp e (elim (Bool-cases (is_set c.local_fin_seq)) [
    | inl f ↦ rw f here
    | inr f ↦ rw f (elim (Bool-cases (is_empty c.unsent)) [
      | inr g ↦ rw g here
      | inl g ↦ rw g (elim (Bool-cases (ltb (available_send_window c) 1)) [
        | inl k ↦ rw k here
        | inr k ↦ rw k (Trace-fin c.state h)
      ])
    ])
  ])
]

pub schedule_queued_data-Trace :
    (key : TcpConnectionKey) (c : Connection) (now : ℕ)
    → is_data_state c.state ≡ true
    → Trace c.state (schedule_queued_data key c now).1.state
unfolding schedule_queued_data
schedule_queued_data-Trace key c now h =
    let sent = (schedule_data key c now).1 in
    let same = schedule_data-state key c now in
    let fins : List TcpSegment × Connection =
      if is_empty sent.unsent then maybe_sequence_fin key sent now else ([], sent) in
    let moved : Trace sent.state fins.1.state = elim (Bool-cases (is_empty sent.unsent)) [
      | inl e ↦ rw e (maybe_sequence_fin-Trace key sent now (rw same h))
      | inr e ↦ rw e here
    ] in
    Trace-eq (update_persist_state-state fins.1 now) (subst (λ s. Trace s fins.1.state) same moved)

schedule_if_sendable-Trace :
    (key : TcpConnectionKey) (c : Connection) (now : ℕ)
    → Trace c.state (schedule_if_sendable key c now).1.state
unfolding schedule_if_sendable
schedule_if_sendable-Trace key c now =
    elim (Bool-cases (not c.pending_removal && is_data_state c.state)) [
      | inl e ↦ rw e (schedule_queued_data-Trace key c now (ground arith))
      | inr e ↦ rw e (Trace-eq (update_persist_state-state c now) here)
    ]

-- The peer's FIN.
consume_fin-Trace : (c : Connection) (now : ℕ) → Trace c.state (consume_fin c now).1.state
unfolding consume_fin start_time_wait
consume_fin-Trace c now = elim (Bool-cases (fin_is_next c.pending_fin_seq c.rcv_nxt)) [
  | inr e ↦ rw e here
  | inl e ↦ rw e (elim (Bool-cases (same_state c.state established)) [
    | inl f ↦ rw f (Trace-tested c.state f peer_close)
    | inr f ↦ rw f (elim (Bool-cases (same_state c.state fin_wait1)) [
      | inl g ↦ rw g (Trace-tested c.state g simultaneous_close)
      | inr g ↦ rw g (elim (Bool-cases (same_state c.state fin_wait2)) [
        | inl k ↦ rw k (Trace-tested c.state k peer_close_after)
        | inr k ↦ rw k here
      ])
    ])
  ])
]

received-state :
    (c : Connection) (segment : TcpSegment) (usable : Usable)
    → Keeps c (release_contiguous (retain_fin (store_payload c segment usable).1 segment usable)).1
unfolding release_contiguous retain_fin store_payload insert_reassembly_fragment
received-state c segment usable = ground arith

receive_usable-Trace :
    (key : TcpConnectionKey) (c : Connection) (segment : TcpSegment) (usable : Usable)
    (fast : Option TcpSegment) (now : ℕ)
    → Trace c.state (receive_usable key c segment usable fast now).1.state
unfolding receive_usable
receive_usable-Trace key c segment usable fast now =
    let stored = (store_payload c segment usable).1 in
    let released = (release_contiguous (retain_fin stored segment usable)).1 in
    let closed = (consume_fin released now).1 in
    subst (λ s. Trace s (schedule_if_sendable key closed now).1.state)
      (received-state c segment usable)
      (Trace-trans (consume_fin-Trace released now) (schedule_if_sendable-Trace key closed now))

receive_part-Trace :
    (key : TcpConnectionKey) (c : Connection) (segment : TcpSegment) (fast : Option TcpSegment)
    (now : ℕ)
    → Trace c.state (receive_part key c segment fast now).1.state
unfolding receive_part ack_only outside_window
receive_part-Trace key c segment fast now =
    let usable = usable_part c segment in
    elim (Bool-cases (is_empty segment.payload && not segment.flags.fin)) [
      | inl e ↦ rw e (schedule_if_sendable-Trace key c now)
      | inr e ↦ rw e (elim (Bool-cases (not usable.any_payload && not usable.fin)) [
        | inl f ↦ rw f (schedule_if_sendable-Trace key c now)
        | inr f ↦ rw f (receive_usable-Trace key c segment usable fast now)
      ])
    ]

handle_well_formed-Trace :
    (key : TcpConnectionKey) (c : Connection) (segment : TcpSegment) (parsed : TcpParsedOptions)
    (now : ℕ)
    → Trace c.state (handle_well_formed key c segment parsed now).1.state
unfolding handle_well_formed
handle_well_formed-Trace key c segment parsed now =
    let acked = process_ack key c segment parsed.sack_blocks now in
    elim (Bool-cases segment.flags.rst) [
      | inl e ↦ simp e (elim (Bool-cases (segment.sequence_number == c.rcv_nxt)) [
        | inl f ↦ rw f here
        | inr f ↦ rw f here
      ])
      | inr e ↦ simp e (elim (Bool-cases segment.flags.ack) [
        | inr f ↦ simp f here
        | inl f ↦
            simp f
              (elim (Bool-cases (sequence_less_or_equal segment.acknowledgment_number c.snd_nxt)) [
                | inr g ↦ rw g here
                | inl g ↦ rw g (
                    Trace-trans (process_ack-Trace key c segment parsed.sack_blocks now)
                      (receive_part-Trace key acked.1 segment acked.0 now))
              ])
      ])
    ]

-- A segment for a synchronized connection takes it along the transitions of the state machine.
pub handle_synchronized-Trace :
    (key : TcpConnectionKey) (c : Connection) (segment : TcpSegment) (now : ℕ)
    → Trace c.state (handle_synchronized key c segment now).1.state
unfolding handle_synchronized
handle_synchronized-Trace key c segment now = elim (Bool-cases segment.flags.syn) [
  | inl e ↦ simp e (elim (Bool-cases (duplicate_handshake_syn_ack c segment)) [
    | inl f ↦ rw f here
    | inr f ↦ rw f here
  ])
  | inr e ↦ simp e (elim (Option-cases (parsed_options segment.options)) [
    | inl f ↦ rw (f, handle_synchronized) here
    | inr (parsed, f) ↦
        rw (f, handle_synchronized) (handle_well_formed-Trace key c segment parsed now)
  ])
]
