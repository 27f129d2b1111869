-- ===== src/TcpConnection/Table/Moves.antt =====
-- Every operation moves a connection along the state machine, or erases it.
use wirestack.Common.{ℕ, ◌≡◌, Bool, true, false, arith, Option, some, none}
use wirestack.Common.{if◌then◌else◌, ◌+◌, not, ◌||◌, inl, inr, Bool-cases, Option-cases}
use wirestack.Bytes.{u32}
use wirestack.Tcp.Segment.{TcpSegment}
use wirestack.Tcp.Options.{TcpParsedOptions}
use wirestack.TcpConnection.State.{
  Connection, TcpState, established, syn_sent, syn_received, time_wait, same_state,
}
use wirestack.TcpConnection.Key.{TcpConnectionKey, TcpReceiveResult}
use wirestack.TcpConnection.States.{Trace, here, Trace-tested, Trace-eq, active_open, passive_open}
use wirestack.TcpConnection.Retire.Frame.{retire_acknowledged-frame}
use wirestack.TcpConnection.Synchronized.{parsed_options, handle_synchronized}
use wirestack.TcpConnection.Synchronized.Moves.{handle_synchronized-Trace}
use wirestack.TcpConnection.Handshake.{
  complete_active_open, complete_passive_open, syn_sent_well_formed, handle_syn_sent, negotiate,
  handle_time_wait, handle_syn_received,
}
use wirestack.TcpConnection.Table.{keep_or_erase, handle_connection}

-- A connection that is erased has no state to reach.
abbrev pub MovesTo : TcpState → Option Connection → Type 0
MovesTo s none = Unit {0}
MovesTo s (some c) = Trace s c.state

keep_or_erase-MovesTo :
    (s : TcpState) (r : TcpReceiveResult × Connection)
    → Trace s r.1.state
    → MovesTo s (keep_or_erase r).1
unfolding keep_or_erase
keep_or_erase-MovesTo s r p = elim (Bool-cases r.1.pending_removal) [
  | inl e ↦ rw e tt
  | inr e ↦ simp e p
]

handle_time_wait-state :
    (key : TcpConnectionKey) (c : Connection) (segment : TcpSegment) (now : ℕ)
    → (handle_time_wait key c segment now).1.state ≡ c.state
unfolding handle_time_wait
handle_time_wait-state key c segment now = ground arith

complete_active_open-state :
    (c : Connection) (segment : TcpSegment) (parsed : TcpParsedOptions) (now : ℕ)
    → (complete_active_open c segment parsed now).state ≡ established
unfolding complete_active_open
complete_active_open-state c segment parsed now =
    let known : Connection = record c {
      remote_isn = segment.sequence_number;
      remote_isn_known = true;
      rcv_nxt = u32 (segment.sequence_number + 1);
    } in
    let opened : Connection = record (negotiate known parsed) { state = established } in
    (retire_acknowledged-frame opened segment.acknowledgment_number now).state

complete_passive_open-state :
    (c : Connection) (segment : TcpSegment) (now : ℕ)
    → (complete_passive_open c segment now).state ≡ established
unfolding complete_passive_open
complete_passive_open-state c segment now =
    let opened : Connection = record c {
      state = established;
      rcv_nxt = u32 (c.remote_isn + 1);
      snd_una = c.local_isn;
      snd_nxt = u32 (c.local_isn + 1);
    } in
    (retire_acknowledged-frame opened (u32 (c.local_isn + 1)) now).state

-- A handshake handler either keeps the state or establishes the connection.
opens-Trace :
    (s : TcpState) (d : Connection)
    → same_state s syn_sent || same_state s syn_received ≡ true
    → (b : Bool) → d.state ≡ (if b then established else s)
    → Trace s d.state
opens-Trace s d h false e = Trace-eq e here
opens-Trace s d h true e = Trace-eq e (elim (Bool-cases (same_state s syn_sent)) [
  | inl f ↦ Trace-tested s f active_open
  | inr f ↦ Trace-tested s (ground arith) passive_open
])

syn_sent_well_formed-state :
    (key : TcpConnectionKey) (c : Connection) (segment : TcpSegment) (parsed : TcpParsedOptions)
    (now : ℕ)
    → let r = syn_sent_well_formed key c segment parsed now in
      r.1.state ≡ (if r.0.connection_established then established else c.state)
unfolding syn_sent_well_formed
syn_sent_well_formed-state key c segment parsed now =
    ground (arith, complete_active_open-state c segment parsed now)

handle_syn_sent-Trace :
    (key : TcpConnectionKey) (c : Connection) (segment : TcpSegment) (now : ℕ)
    → same_state c.state syn_sent ≡ true
    → Trace c.state (handle_syn_sent key c segment now).1.state
unfolding handle_syn_sent
handle_syn_sent-Trace key c segment now h = elim (Option-cases (parsed_options segment.options)) [
  | inl f ↦ rw (f, handle_syn_sent) here
  | inr (parsed, f) ↦
      let r = syn_sent_well_formed key c segment parsed now in
      rw (f, handle_syn_sent)
        (opens-Trace c.state r.1 (ground arith) r.0.connection_established
          (syn_sent_well_formed-state key c segment parsed now))
]

-- What is left of a connection in SynReceived.
handle_syn_received-MovesTo :
    (key : TcpConnectionKey) (c : Connection) (segment : TcpSegment) (now : ℕ)
    → same_state c.state syn_received ≡ true
    → MovesTo c.state (handle_syn_received key c segment now).1
unfolding handle_syn_received
handle_syn_received-MovesTo key c segment now h =
    elim (Option-cases (handle_syn_received key c segment now).1) [
      | inl e ↦ rw e tt
      | inr (d, e) ↦
          let moved : d.state
              ≡ (if not (same_state d.state syn_received) then established else c.state) =
            ground (arith, complete_passive_open-state c segment now) in
          rw e (opens-Trace c.state d (ground arith) (not (same_state d.state syn_received)) moved)
    ]

-- A segment takes its connection along the transitions of the state machine, in every state, unless
-- the connection is erased.
pub handle_connection-MovesTo :
    (key : TcpConnectionKey) (c : Connection) (segment : TcpSegment) (now : ℕ)
    → MovesTo c.state (handle_connection key c segment now).1
unfolding handle_connection
handle_connection-MovesTo key c segment now = elim (Bool-cases (same_state c.state time_wait)) [
  | inl e ↦ rw e (
      keep_or_erase-MovesTo c.state (handle_time_wait key c segment now)
        (Trace-eq (handle_time_wait-state key c segment now) here))
  | inr e ↦ rw e (elim (Bool-cases (same_state c.state syn_sent)) [
    | inl f ↦ rw f (
        keep_or_erase-MovesTo c.state (handle_syn_sent key c segment now)
          (handle_syn_sent-Trace key c segment now f))
    | inr f ↦ rw f (elim (Bool-cases (same_state c.state syn_received)) [
      | inl g ↦ rw g (handle_syn_received-MovesTo key c segment now g)
      | inr g ↦ rw g (
          keep_or_erase-MovesTo c.state (handle_synchronized key c segment now)
            (handle_synchronized-Trace key c segment now))
    ])
  ])
]
