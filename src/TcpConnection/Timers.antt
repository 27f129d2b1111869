-- ===== src/TcpConnection/Timers.antt =====
-- The timers: `pollRetransmissions`, `nextRetransmissionDeadline`, `pollPersistProbes` and
-- `nextPersistDeadline`.
pub mod Deadlines
use wirestack.Common.{ℕ, ◌+◌, ◌-◌, ◌*◌, ◌^◌, min, max, Bool, true, false, not, ◌&&◌, ◌||◌}
use wirestack.Common.{List, [], ◌∷◌, ◌++◌, Option, none, some, if◌then◌else◌, ltb, leb, take}
use wirestack.Bytes.{u32}
use wirestack.Tcp.Flags.{TcpFlags, no_flags}
use wirestack.Tcp.Segment.{TcpSegment}
use wirestack.TcpConnection.State.{Connection, PendingTransmission, time_wait, same_state}
use wirestack.TcpConnection.Key.{TcpConnectionKey, segment_from}
use wirestack.TcpConnection.Sequence.{sub32}
use wirestack.TcpConnection.Options.{build_syn_ack_options, build_active_syn_options}
use wirestack.TcpConnection.Window.{advertised_window_for, max_rto}
use wirestack.TcpConnection.Congestion.{apply_timeout_congestion_collapse}
use wirestack.TcpConnection.Schedule.{persist_eligible, is_application}
use wirestack.TcpConnection.Table.{Connections, TcpConnectionTable}

abbrev pub max_retransmits : ℕ
max_retransmits = 5

-- `kMaxPersistInterval` in nanoseconds.
abbrev pub max_persist_interval : ℕ
max_persist_interval = 60000000000

-- What one connection contributes to a poll.
pub data TimerEvent : Type 0 where
  idle retry_limit time_wait_over : TimerEvent
  retransmit : TcpSegment → TimerEvent

unfoldable pub retransmission_options : Connection → PendingTransmission → List ℕ
retransmission_options connection oldest =
    if oldest.is_active_syn
    then build_active_syn_options
    else if oldest.is_syn
    then build_syn_ack_options connection
    else []

-- The segment, from the connection after a collapse if there is one.
unfoldable pub retransmission_segment :
    TcpConnectionKey → Connection → PendingTransmission → TcpSegment
retransmission_segment key connection oldest = record (segment_from key) {
  sequence_number = oldest.sequence_start;
  acknowledgment_number =
      if oldest.is_active_syn
      then 0
      else if oldest.is_syn
      then u32 (connection.remote_isn + 1)
      else connection.rcv_nxt;
  flags = oldest.flags;
  window_size =
      advertised_window_for connection (not oldest.is_syn && connection.window_scaling_enabled);
  payload = oldest.payload;
  options = retransmission_options connection oldest;
}

-- The entry after a timeout: one retry more, and twice the interval up to a minute.
unfoldable pub back_off : ℕ → PendingTransmission → PendingTransmission
back_off now oldest = record oldest {
  timeout_retransmit_count = oldest.timeout_retransmit_count + 1;
  was_retransmitted = true;
  last_sent_at = now;
  timeout_interval = min (oldest.timeout_interval * 2) max_rto;
}

abbrev pub set_front :
    (PendingTransmission → PendingTransmission)
    → List PendingTransmission
    → List PendingTransmission
set_front f [] = []
set_front f (entry ∷ rest) = f entry ∷ rest

-- Only application data collapses the congestion window.
unfoldable pub collapse_for : PendingTransmission → Connection → Connection
collapse_for oldest connection =
    if is_application oldest then apply_timeout_congestion_collapse connection else connection

-- A collapse changes the front entry's SACK marks, so it is backed off where it stands.
unfoldable pub retransmit_oldest :
    TcpConnectionKey → Connection → PendingTransmission → ℕ → TimerEvent × Connection
retransmit_oldest key connection oldest now =
    let collapsed = collapse_for oldest connection in
    (
      retransmit (retransmission_segment key collapsed oldest),
      record collapsed {
        pending = set_front (back_off now) collapsed.pending;
        current_rto = max collapsed.current_rto (back_off now oldest).timeout_interval;
      },
    )

unfoldable pub poll_pending :
    TcpConnectionKey → Connection → List PendingTransmission → ℕ → TimerEvent × Connection
poll_pending key connection [] now = (idle, connection)
poll_pending key connection (oldest ∷ rest) now =
    if ltb now (oldest.last_sent_at + oldest.timeout_interval)
    then (idle, connection)
    else if leb max_retransmits oldest.timeout_retransmit_count
    then (retry_limit, connection)
    else retransmit_oldest key connection oldest now

abbrev pub is_past : Option ℕ → ℕ → Bool
is_past none now = false
is_past (some deadline) now = leb deadline now

unfoldable pub poll_connection : TcpConnectionKey → Connection → ℕ → TimerEvent × Connection
poll_connection key connection now =
    if same_state connection.state time_wait
    then (if is_past connection.time_wait_deadline now
        then (time_wait_over, connection)
        else (idle, connection))
    else poll_pending key connection connection.pending now

pub record TcpTimeoutPollResult : Type 0 where
  pub retransmissions : List (TcpConnectionKey × TcpSegment)
  pub timed_out : List TcpConnectionKey
  pub time_wait_expired : List TcpConnectionKey

-- One round of the loop, with the result of the later ones.
abbrev record_event :
    TcpConnectionKey
    → TimerEvent × Connection
    → TcpTimeoutPollResult × Connections
    → TcpTimeoutPollResult × Connections
record_event key (idle, connection) (result, rest) = (result, (key, connection) ∷ rest)
record_event key (retry_limit, connection) (result, rest) =
    (record result { timed_out = key ∷ result.timed_out }, rest)
record_event key (time_wait_over, connection) (result, rest) =
    (record result { time_wait_expired = key ∷ result.time_wait_expired }, rest)
record_event key (retransmit segment, connection) (result, rest) = (
  record result { retransmissions = (key, segment) ∷ result.retransmissions },
  (key, connection) ∷ rest,
)

unfoldable pub poll_connections : ℕ → Connections → TcpTimeoutPollResult × Connections
poll_connections now [] =
    (record { retransmissions = []; timed_out = []; time_wait_expired = [] }, [])
poll_connections now ((key, connection) ∷ rest) =
    record_event key (poll_connection key connection now) (poll_connections now rest)

unfoldable pub poll_retransmissions :
    ℕ → TcpConnectionTable → TcpTimeoutPollResult × TcpConnectionTable
poll_retransmissions now table =
    let polled = poll_connections now table.connections in
    (polled.0, record table { connections = polled.1 })

abbrev pub queue_deadline : List PendingTransmission → Option ℕ
queue_deadline [] = none
queue_deadline (oldest ∷ rest) = some (oldest.last_sent_at + oldest.timeout_interval)

unfoldable pub retransmission_deadline : Connection → Option ℕ
retransmission_deadline connection =
    if same_state connection.state time_wait
    then connection.time_wait_deadline
    else queue_deadline connection.pending

-- `if (deadline && (!earliest || *deadline < *earliest)) earliest = deadline;`
unfoldable pub sooner : Option ℕ → Option ℕ → Option ℕ
sooner earliest none = earliest
sooner none (some deadline) = some deadline
sooner (some best) (some deadline) = if ltb deadline best then some deadline else some best

unfoldable pub earliest_deadline : (Connection → Option ℕ) → Option ℕ → Connections → Option ℕ
earliest_deadline deadline_of earliest [] = earliest
earliest_deadline deadline_of earliest ((key, connection) ∷ rest) =
    earliest_deadline deadline_of (sooner earliest (deadline_of connection)) rest

unfoldable pub next_retransmission_deadline : TcpConnectionTable → Option ℕ
next_retransmission_deadline table =
    earliest_deadline retransmission_deadline none table.connections

unfoldable pub next_persist_deadline : TcpConnectionTable → Option ℕ
next_persist_deadline table =
    earliest_deadline (λ connection. connection.persist_deadline) none table.connections

-- `snd_nxt - 1` is a number that is already acknowledged; the byte is the first unsent one.
unfoldable pub persist_probe : TcpConnectionKey → Connection → TcpSegment
persist_probe key connection = record (segment_from key) {
  sequence_number = sub32 connection.snd_nxt 1;
  acknowledgment_number = connection.rcv_nxt;
  flags = record no_flags { ack = true };
  window_size = advertised_window_for connection connection.window_scaling_enabled;
  payload = take 1 connection.unsent;
}

unfoldable pub probe_connection :
    TcpConnectionKey → Connection → ℕ → List (TcpConnectionKey × TcpSegment) × Connection
probe_connection key connection now =
    let interval = min (connection.persist_interval * 2) max_persist_interval in
    if not (is_past connection.persist_deadline now)
    then ([], connection)
    else if not (persist_eligible connection)
    then ([], record connection { persist_deadline = none })
    else (
      (key, persist_probe key connection) ∷ [],
      record connection { persist_interval = interval; persist_deadline = some (now + interval) },
    )

unfoldable pub probe_connections :
    ℕ → Connections → List (TcpConnectionKey × TcpSegment) × Connections
probe_connections now [] = ([], [])
probe_connections now ((key, connection) ∷ rest) =
    let probed = probe_connection key connection now in
    let later = probe_connections now rest in (probed.0 ++ later.0, (key, probed.1) ∷ later.1)

unfoldable pub poll_persist_probes :
    ℕ → TcpConnectionTable → List (TcpConnectionKey × TcpSegment) × TcpConnectionTable
poll_persist_probes now table =
    let probed = probe_connections now table.connections in
    (probed.0, record table { connections = probed.1 })
