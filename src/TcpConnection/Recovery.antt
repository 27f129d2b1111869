-- ===== src/TcpConnection/Recovery.antt =====
-- Fast recovery: `selectRecoveryRetransmission`, `buildRecoveryRetransmission` and
-- `beginFastRecovery`. An entry that the code points to is its index in the queue.
use wirestack.Common.{ℕ, suc, ◌+◌, ◌*◌, ◌/◌, max, true, false, not, ◌||◌, List, [], ◌∷◌, map}
use wirestack.Common.{Option, none, some, if◌then◌else◌, get_elem?, set}
use wirestack.Tcp.Segment.{TcpSegment}
use wirestack.TcpConnection.Sequence.{sub32, sequence_greater}
use wirestack.TcpConnection.State.{Connection, PendingTransmission}
use wirestack.TcpConnection.Key.{TcpConnectionKey, segment_from}
use wirestack.TcpConnection.Window.{advertised_window_for}
use wirestack.TcpConnection.Congestion.{clamp_cwnd}

abbrev pub next_index : Option ℕ → Option ℕ
next_index none = none
next_index (some i) = some (suc i)

unfoldable pub select_from : ℕ → List PendingTransmission → Option ℕ
select_from recovery_point [] = none
select_from recovery_point (entry ∷ rest) =
    let later = next_index (select_from recovery_point rest) in
    if entry.is_syn || entry.is_fin
    then later
    else if not (sequence_greater recovery_point entry.sequence_start)
    then none
    else if entry.sacked || entry.retransmitted_in_recovery
    then later
    else some 0

unfoldable pub select_recovery_retransmission : Connection → Option ℕ
select_recovery_retransmission connection = select_from connection.recovery_point connection.pending

unfoldable pub build_recovery_retransmission :
    TcpConnectionKey → Connection → ℕ → PendingTransmission → ℕ → TcpSegment × Connection
build_recovery_retransmission key connection index entry now = (
  record (segment_from key) {
    sequence_number = entry.sequence_start;
    acknowledgment_number = connection.rcv_nxt;
    flags = entry.flags;
    window_size = advertised_window_for connection connection.window_scaling_enabled;
    payload = entry.payload;
  },
  record connection {
    pending = set connection.pending index (record entry {
      was_retransmitted = true;
      retransmitted_in_recovery = true;
      last_sent_at = now;
    });
  },
)

-- `if (PendingTransmission* entry = select...) segment = build...`
abbrev pub build_at :
    TcpConnectionKey
    → Connection
    → ℕ
    → ℕ
    → Option PendingTransmission
    → Option TcpSegment × Connection
build_at key connection now index none = (none, connection)
build_at key connection now index (some entry) =
    let built = build_recovery_retransmission key connection index entry now in
    (some built.0, built.1)

abbrev pub build_selected :
    TcpConnectionKey → Connection → ℕ → Option ℕ → Option TcpSegment × Connection
build_selected key connection now none = (none, connection)
build_selected key connection now (some index) =
    build_at key connection now index (get_elem? connection.pending index)

unfoldable pub retransmit_selected :
    TcpConnectionKey → Connection → ℕ → Option TcpSegment × Connection
retransmit_selected key connection now =
    build_selected key connection now (select_recovery_retransmission connection)

abbrev pub forget_retransmitted : PendingTransmission → PendingTransmission
forget_retransmitted entry = record entry { retransmitted_in_recovery = false }

unfoldable pub begin_fast_recovery :
    TcpConnectionKey → Connection → ℕ → Option TcpSegment × Connection
begin_fast_recovery key connection now =
    let flight = sub32 connection.snd_nxt connection.snd_una in
    let smss = connection.effective_send_mss in
    let ssthresh = clamp_cwnd (max (flight / 2) (2 * smss)) in
    retransmit_selected key
      (record connection {
        ssthresh = ssthresh;
        recovery_point = connection.snd_nxt;
        cwnd = clamp_cwnd (ssthresh + 3 * smss);
        in_fast_recovery = true;
        congestion_avoidance_acked_bytes = 0;
        pending = map forget_retransmitted connection.pending;
      })
      now
