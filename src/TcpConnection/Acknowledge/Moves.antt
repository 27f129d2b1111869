-- ===== src/TcpConnection/Acknowledge/Moves.antt =====
-- Processing an acknowledgment moves a connection along the state machine.
use wirestack.Common.{ℕ, ◌≡◌, refl, subst, ◌+◌, Bool, arith, Option, some, none, List}
use wirestack.Common.{if◌then◌else◌, ◌!=◌, ◌&&◌, inl, inr, Bool-cases}
use wirestack.Tcp.Segment.{TcpSegment}
use wirestack.Tcp.Options.{TcpSackBlock}
use wirestack.TcpConnection.State.{Connection, fin_wait1, closing, last_ack, same_state}
use wirestack.TcpConnection.Key.{TcpConnectionKey}
use wirestack.TcpConnection.States.{
  Trace, here, Trace-tested, &&-left, fin_acknowledged, closing_acknowledged,
}
use wirestack.TcpConnection.Window.{update_send_window}
use wirestack.TcpConnection.Congestion.{apply_congestion_growth, clamp_cwnd}
use wirestack.TcpConnection.Retire.{TcpAckRetirementResult, retire_acknowledged}
use wirestack.TcpConnection.Retire.Frame.{retire_acknowledged-frame}
use wirestack.TcpConnection.Sack.{apply_sack_blocks}
use wirestack.TcpConnection.Recovery.{
  retransmit_selected, begin_fast_recovery, build_recovery_retransmission, build_selected,
  select_recovery_retransmission,
}
use wirestack.TcpConnection.Acknowledge.{
  fin_acked, start_time_wait, exit_recovery, deflate, on_advance, on_duplicate, congestion_control,
  local_fin_progress, process_ack,
}

-- The state is kept.
abbrev pub Keeps : Connection → Connection → Type 0
Keeps c d = d.state ≡ c.state

build_selected-state :
    (key : TcpConnectionKey) (c : Connection) (now : ℕ) (index : Option ℕ)
    → Keeps c (build_selected key c now index).1
unfolding build_recovery_retransmission
build_selected-state key c now none = refl
build_selected-state key c now (some i) = ground arith

retransmit_selected-state :
    (key : TcpConnectionKey) (c : Connection) (now : ℕ) → Keeps c (retransmit_selected key c now).1
unfolding retransmit_selected
retransmit_selected-state key c now =
    build_selected-state key c now (select_recovery_retransmission c)

apply_congestion_growth-state : (c : Connection) (n : ℕ) → Keeps c (apply_congestion_growth c n)
unfolding apply_congestion_growth
apply_congestion_growth-state c n = ground arith

on_advance-state :
    (key : TcpConnectionKey) (c : Connection) (acked : TcpAckRetirementResult) (ack now : ℕ)
    → Keeps c (on_advance key c acked ack now).1
unfolding on_advance exit_recovery deflate
on_advance-state key c acked ack now =
    let counted : Connection = record c { duplicate_ack_count = 0 } in
    ground (
      arith,
      retransmit_selected-state key (deflate counted acked.newly_acked_sequence_space) now,
      apply_congestion_growth-state counted acked.newly_acked_data_bytes,
    )

begin_fast_recovery-state :
    (key : TcpConnectionKey) (c : Connection) (now : ℕ) → Keeps c (begin_fast_recovery key c now).1
unfolding begin_fast_recovery
begin_fast_recovery-state key c now = retransmit_selected-state key _ now

on_duplicate-state :
    (key : TcpConnectionKey) (c : Connection) (now : ℕ) → Keeps c (on_duplicate key c now).1
unfolding on_duplicate
on_duplicate-state key c now =
    let counted : Connection = record c { duplicate_ack_count = c.duplicate_ack_count + 1 } in
    let inflated : Connection = record counted {
      cwnd = clamp_cwnd (c.cwnd + c.effective_send_mss);
    } in
    ground
      (arith, retransmit_selected-state key inflated now, begin_fast_recovery-state key counted now)

congestion_control-state :
    (key : TcpConnectionKey) (c : Connection) (acked : TcpAckRetirementResult)
    (segment : TcpSegment) (changed : Bool) (now : ℕ)
    → Keeps c (congestion_control key c acked segment changed now).1
unfolding congestion_control
congestion_control-state key c acked segment changed now = ground (
  arith,
  on_advance-state key c acked segment.acknowledgment_number now,
  on_duplicate-state key c now,
)

update_send_window-state : (c : Connection) (s : TcpSegment) → Keeps c (update_send_window c s)
unfolding update_send_window
update_send_window-state c s = ground arith

-- The two transitions that the acknowledgment of the local FIN makes.
local_fin_progress-Trace :
    (c : Connection) (now : ℕ) → Trace c.state (local_fin_progress c now).state
unfolding local_fin_progress start_time_wait
local_fin_progress-Trace c now =
    let acked = fin_acked c.local_fin_seq c.snd_una in
    elim (Bool-cases (same_state c.state fin_wait1 && acked)) [
      | inl e ↦
          rw e
            (Trace-tested c.state (&&-left (same_state c.state fin_wait1) acked e) fin_acknowledged)
      | inr e ↦ rw e (elim (Bool-cases (same_state c.state closing && acked)) [
        | inl f ↦ rw f (
            Trace-tested c.state (&&-left (same_state c.state closing) acked f)
              closing_acknowledged)
        | inr f ↦ rw f (elim (Bool-cases (same_state c.state last_ack && acked)) [
          | inl g ↦ rw g here
          | inr g ↦ rw g here
        ])
      ])
    ]

pub process_ack-Trace :
    (key : TcpConnectionKey) (c : Connection) (segment : TcpSegment) (blocks : List TcpSackBlock)
    (now : ℕ)
    → Trace c.state (process_ack key c segment blocks now).1.state
unfolding process_ack apply_sack_blocks
process_ack-Trace key c segment blocks now =
    let (acked, retired) = retire_acknowledged c segment.acknowledgment_number now in
    let marked : Connection =
      if retired.sack_permitted
      then apply_sack_blocks retired segment.acknowledgment_number blocks
      else retired in
    let windowed = update_send_window marked segment in
    let changed = windowed.snd_wnd != marked.snd_wnd in
    let controlled = (congestion_control key windowed acked segment changed now).1 in
    let same : controlled.state ≡ c.state = ground (
      arith,
      congestion_control-state key windowed acked segment changed now,
      update_send_window-state marked segment,
      (retire_acknowledged-frame c segment.acknowledgment_number now).state,
    ) in
    subst (λ s. Trace s (local_fin_progress controlled now).state) same
      (local_fin_progress-Trace controlled now)
