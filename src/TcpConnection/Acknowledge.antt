-- ===== src/TcpConnection/Acknowledge.antt =====
-- The acknowledgment half of `handleSynchronized`: retirement, SACK blocks, the send window,
-- congestion control with fast recovery, and the states that wait for the local FIN's
-- acknowledgment; and `startTimeWait`.
pub mod Moves
use wirestack.Common.{ℕ, ◌+◌, ◌-◌, max, Bool, true, false, not, ◌&&◌, ◌||◌, List, [], ◌∷◌, map}
use wirestack.Common.{Option, none, some, if◌then◌else◌, ltb, leb, ◌==◌, ◌!=◌}
use wirestack.Bytes.{u32}
use wirestack.Tcp.Segment.{TcpSegment}
use wirestack.Tcp.Options.{TcpSackBlock}
use wirestack.TcpConnection.Sequence.{sequence_less_or_equal}
use wirestack.TcpConnection.State.{
  Connection, PendingTransmission, fin_wait1, fin_wait2, closing, last_ack, time_wait,
}
use wirestack.TcpConnection.State.{same_state}
use wirestack.TcpConnection.Key.{TcpConnectionKey}
use wirestack.TcpConnection.Window.{update_send_window}
use wirestack.TcpConnection.Congestion.{clamp_cwnd, apply_congestion_growth}
use wirestack.TcpConnection.Retire.{TcpAckRetirementResult, retire_acknowledged}
use wirestack.TcpConnection.Sack.{apply_sack_blocks}
use wirestack.TcpConnection.Recovery.{
  retransmit_selected, begin_fast_recovery, forget_retransmitted,
}
use wirestack.TcpConnection.Schedule.{is_empty, is_application}

-- `kTimeWaitDuration` in nanoseconds.
abbrev pub time_wait_duration : ℕ
time_wait_duration = 60000000000

unfoldable pub start_time_wait : Connection → ℕ → Connection
start_time_wait connection now = record connection {
  state = time_wait;
  time_wait_deadline = some (now + time_wait_duration);
  pending = [];
}

-- A full acknowledgment: the recovery point is reached or passed.
unfoldable pub exit_recovery : Connection → Connection
exit_recovery connection = record connection {
  cwnd = connection.ssthresh;
  in_fast_recovery = false;
  congestion_avoidance_acked_bytes = 0;
  pending = map forget_retransmitted connection.pending;
}

-- A partial acknowledgment of `deflate_by` numbers: deflate the window, stay in recovery.
unfoldable pub deflate : Connection → ℕ → Connection
deflate connection deflate_by =
    let smss = connection.effective_send_mss in
    let left = if ltb deflate_by connection.cwnd then connection.cwnd - deflate_by else 0 in
    let floored = max left smss in
    record connection {
      cwnd = clamp_cwnd (if leb smss deflate_by then floored + smss else floored);
    }

-- An advancing acknowledgment.
unfoldable pub on_advance :
    TcpConnectionKey → Connection → TcpAckRetirementResult → ℕ → ℕ → Option TcpSegment × Connection
on_advance key connection acked ack now =
    let counted = record connection { duplicate_ack_count = 0 } in
    if connection.in_fast_recovery
    then (if sequence_less_or_equal connection.recovery_point ack
        then (none, exit_recovery counted)
        else retransmit_selected key (deflate counted acked.newly_acked_sequence_space) now)
    else (none, apply_congestion_growth counted acked.newly_acked_data_bytes)

unfoldable pub has_outstanding_data : List PendingTransmission → Bool
has_outstanding_data [] = false
has_outstanding_data (entry ∷ rest) = is_application entry || has_outstanding_data rest

unfoldable pub is_duplicate_ack : Connection → TcpSegment → Bool → Bool
is_duplicate_ack connection segment window_changed =
    segment.acknowledgment_number == connection.snd_una
    && is_empty segment.payload
    && not segment.flags.syn
    && not segment.flags.fin
    && not window_changed
    && has_outstanding_data connection.pending

-- A duplicate acknowledgment: the third starts recovery, later ones inflate the window.
unfoldable pub on_duplicate : TcpConnectionKey → Connection → ℕ → Option TcpSegment × Connection
on_duplicate key connection now =
    let counted = record connection { duplicate_ack_count = connection.duplicate_ack_count + 1 } in
    let inflated = record counted {
      cwnd = clamp_cwnd (connection.cwnd + connection.effective_send_mss);
    } in
    if connection.in_fast_recovery
    then (if connection.sack_permitted
        then retransmit_selected key inflated now
        else (none, inflated))
    else if counted.duplicate_ack_count == 3
    then begin_fast_recovery key counted now
    else (none, counted)

unfoldable pub congestion_control :
    TcpConnectionKey
    → Connection
    → TcpAckRetirementResult
    → TcpSegment
    → Bool
    → ℕ
    → Option TcpSegment × Connection
congestion_control key connection acked segment window_changed now =
    if acked.ack_advanced
    then on_advance key connection acked segment.acknowledgment_number now
    else if is_duplicate_ack connection segment window_changed
    then on_duplicate key connection now
    else if window_changed
    then (none, record connection { duplicate_ack_count = 0 })
    else (none, connection)

abbrev pub fin_acked : Option ℕ → ℕ → Bool
fin_acked none snd_una = false
fin_acked (some fin_seq) snd_una = sequence_less_or_equal (u32 (fin_seq + 1)) snd_una

-- The three states that the acknowledgment of the local FIN leaves.
unfoldable pub local_fin_progress : Connection → ℕ → Connection
local_fin_progress connection now =
    let acked = fin_acked connection.local_fin_seq connection.snd_una in
    if same_state connection.state fin_wait1 && acked
    then record connection { state = fin_wait2 }
    else if same_state connection.state closing && acked
    then start_time_wait connection now
    else if same_state connection.state last_ack && acked
    then record connection { pending_removal = true }
    else connection

-- Everything that the acknowledgment of an acceptable segment does.
unfoldable pub process_ack :
    TcpConnectionKey
    → Connection
    → TcpSegment
    → List TcpSackBlock
    → ℕ
    → Option TcpSegment × Connection
process_ack key connection segment blocks now =
    let (acked, retired) = retire_acknowledged connection segment.acknowledgment_number now in
    let marked =
      if retired.sack_permitted
      then apply_sack_blocks retired segment.acknowledgment_number blocks
      else retired in
    let windowed = update_send_window marked segment in
    let window_changed = windowed.snd_wnd != marked.snd_wnd in
    let (fast_retransmit, controlled) =
      congestion_control key windowed acked segment window_changed now in
    (fast_retransmit, local_fin_progress controlled now)
