-- ===== src/TcpConnection/Schedule.antt =====
-- The send queue: `appOwnedBytes`, `maybeSequenceFin`, `scheduleQueuedData`, `persistEligible` and
-- `updatePersistState`.
pub mod Chunks
pub mod Stream
use wirestack.Common.{ℕ, zero, suc, ◌+◌, ◌-◌, ◌*◌, min, Bool, true, false, not, ◌&&◌, ◌||◌}
use wirestack.Common.{List, [], ◌∷◌, ◌++◌, map, Option, none, some}
use wirestack.Common.{if◌then◌else◌, ltb, leb, ◌==◌, length, take, drop}
use wirestack.Bytes.{u32}
use wirestack.Tcp.Flags.{TcpFlags, no_flags}
use wirestack.Tcp.Segment.{TcpSegment}
use wirestack.TcpConnection.State.{
  Connection, PendingTransmission, TcpState, established, fin_wait1, close_wait, last_ack,
}
use wirestack.TcpConnection.State.{same_state}
use wirestack.TcpConnection.Key.{TcpConnectionKey, segment_from}
use wirestack.TcpConnection.Segments.{make_fin}
use wirestack.TcpConnection.Window.{
  advertised_window_for, available_send_window, available_congestion_window,
}

-- `kMaxSegmentsPerSend`, and `kInitialPersistInterval` in nanoseconds.
abbrev pub max_segments_per_send : ℕ
max_segments_per_send = 128

abbrev pub initial_persist_interval : ℕ
initial_persist_interval = 1000000000

abbrev pub is_empty {ℓ} : {A : Type ℓ} → List A → Bool
is_empty [] = true
is_empty (x ∷ xs) = false

abbrev pub is_set {ℓ} : {A : Type ℓ} → Option A → Bool
is_set none = false
is_set (some x) = true

-- `!entry.is_syn && !entry.is_fin`
abbrev pub is_application : PendingTransmission → Bool
is_application entry = not entry.is_syn && not entry.is_fin

unfoldable pub pending_bytes : List PendingTransmission → ℕ
pending_bytes [] = 0
pending_bytes (entry ∷ rest) =
    (if is_application entry then length entry.payload else 0) + pending_bytes rest

unfoldable pub app_owned_bytes : Connection → ℕ
app_owned_bytes connection = length connection.unsent + pending_bytes connection.pending

-- `PendingTransmission{}` sent now, with the retransmission timeout of its connection.
abbrev pub new_pending : ℕ → TcpFlags → ℕ → Connection → PendingTransmission
new_pending start flags now connection = record {
  sequence_start = start;
  is_syn = false;
  is_active_syn = false;
  is_fin = false;
  flags = flags;
  payload = [];
  first_sent_at = now;
  last_sent_at = now;
  timeout_interval = connection.current_rto;
  timeout_retransmit_count = 0;
  was_retransmitted = false;
  rtt_sample_taken = false;
  sacked = false;
  retransmitted_in_recovery = false;
}

-- The FIN that is sequenced, if it is, and the connection then.
unfoldable pub maybe_sequence_fin : TcpConnectionKey → Connection → ℕ → List TcpSegment × Connection
maybe_sequence_fin key connection now =
    let segment = make_fin key connection in
    let pending = record (new_pending connection.snd_nxt segment.flags now connection) {
      is_fin = true;
    } in
    if not connection.close_requested
    then ([], connection)
    else if is_set connection.local_fin_seq
    then ([], connection)
    else if not (is_empty connection.unsent)
    then ([], connection)
    else if ltb (available_send_window connection) 1
    then ([], connection)
    else (
      segment ∷ [],
      record connection {
        pending = connection.pending ++ pending ∷ [];
        local_fin_seq = some connection.snd_nxt;
        snd_nxt = u32 (connection.snd_nxt + 1);
        state = if same_state connection.state established then fin_wait1 else last_ack;
      },
    )

unfoldable pub persist_eligible : Connection → Bool
persist_eligible connection =
    (same_state connection.state established || same_state connection.state close_wait)
    && not (is_empty connection.unsent)
    && connection.snd_wnd == 0
    && connection.snd_nxt == connection.snd_una
    && not (is_set connection.local_fin_seq)

unfoldable pub update_persist_state : Connection → ℕ → Connection
update_persist_state connection now =
    if not (persist_eligible connection)
    then record connection { persist_deadline = none }
    else if is_set connection.persist_deadline
    then connection
    else record connection {
      persist_interval = initial_persist_interval;
      persist_deadline = some (now + initial_persist_interval);
    }

-- One segment of the loop of `scheduleQueuedData`.
abbrev pub data_segment : TcpConnectionKey → Connection → ℕ → Bool → List ℕ → TcpSegment
data_segment key connection seq push chunk = record (segment_from key) {
  sequence_number = seq;
  acknowledgment_number = connection.rcv_nxt;
  flags = record no_flags { ack = true; psh = push };
  window_size = advertised_window_for connection connection.window_scaling_enabled;
  payload = chunk;
}

-- `while (offset < to_send)`, over the bytes from `offset` up to `to_send`.
unfoldable pub send_chunks : ℕ → TcpConnectionKey → Connection → Bool → ℕ → List ℕ → List TcpSegment
send_chunks zero key connection draining seq queued = []
send_chunks (suc fuel) key connection draining seq [] = []
send_chunks (suc fuel) key connection draining seq (b ∷ bs) =
    let mss = connection.effective_send_mss in
    let chunk = take mss (b ∷ bs) in
    let rest = drop mss (b ∷ bs) in
    data_segment key connection seq (is_empty rest && draining) chunk
    ∷ send_chunks fuel key connection draining (u32 (seq + length chunk)) rest

-- The pending transmission of a segment, which owns a copy of its payload.
abbrev pub sent_entry : ℕ → Connection → TcpSegment → PendingTransmission
sent_entry now connection segment =
    record (new_pending segment.sequence_number segment.flags now connection) {
      payload = segment.payload;
    }

-- How many bytes one scheduling pass sends.
unfoldable pub bytes_to_send : Connection → ℕ
bytes_to_send connection =
    let send_available =
      min (available_send_window connection) (available_congestion_window connection) in
    let pass_cap = max_segments_per_send * connection.effective_send_mss in
    min (min send_available (length connection.unsent)) pass_cap

-- The loop makes at most `max_segments_per_send` rounds, which is its fuel.
unfoldable pub schedule_data : TcpConnectionKey → Connection → ℕ → List TcpSegment × Connection
schedule_data key connection now =
    let to_send = bytes_to_send connection in
    let draining = to_send == length connection.unsent && ltb 0 to_send in
    let segments =
      send_chunks max_segments_per_send key connection draining connection.snd_nxt
        (take to_send connection.unsent) in
    (
      segments,
      record connection {
        pending = connection.pending ++ map (sent_entry now connection) segments;
        unsent = drop to_send connection.unsent;
        snd_nxt = u32 (connection.snd_nxt + to_send);
      },
    )

unfoldable pub schedule_queued_data :
    TcpConnectionKey → Connection → ℕ → List TcpSegment × Connection
schedule_queued_data key connection now =
    let (segments, sent) = schedule_data key connection now in
    let (fins, closed) =
      if is_empty sent.unsent then maybe_sequence_fin key sent now else ([], sent) in
    (segments ++ fins, update_persist_state closed now)
