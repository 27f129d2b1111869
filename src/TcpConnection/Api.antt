-- ===== src/TcpConnection/Api.antt =====
-- What the application calls: `stateOf`, `snapshotOf`, `makeOutgoingData` and `beginClose`.
use wirestack.Common.{ℕ, ◌+◌, ◌-◌, Bool, true, false, not, ◌||◌, List, [], ◌∷◌, ◌++◌}
use wirestack.Common.{Option, none, some, if◌then◌else◌, ltb, leb, length}
use wirestack.Tcp.Segment.{TcpSegment}
use wirestack.TcpConnection.State.{
  Connection, PendingTransmission, TcpState, established, close_wait, same_state,
}
use wirestack.TcpConnection.Key.{TcpConnectionKey}
use wirestack.TcpConnection.Window.{buffered_receive_bytes, advertised_window_for}
use wirestack.TcpConnection.Schedule.{
  is_empty, is_set, app_owned_bytes, maybe_sequence_fin, schedule_queued_data, update_persist_state,
}
use wirestack.TcpConnection.Table.{TcpConnectionTable, find_connection, store_connection}

unfoldable pub state_of : TcpConnectionKey → TcpConnectionTable → Option TcpState
state_of key table = elim (find_connection key table.connections) [
  | none ↦ none
  | some connection ↦ some connection.state
]

-- `kMaxApplicationSendSize` and `kTcpSendBufferCapacity`
abbrev pub max_application_send_size : ℕ
max_application_send_size = 65535

abbrev pub tcp_send_buffer_capacity : ℕ
tcp_send_buffer_capacity = 262144

pub data TcpSendError : Type 0 where
  not_sendable empty_payload too_large buffer_full construction_failed : TcpSendError

pub record TcpSendResult : Type 0 where
  pub segments : List TcpSegment
  pub bytes_accepted : ℕ
  pub error : Option TcpSendError

abbrev pub send_error : TcpSendError → TcpSendResult
send_error error = record { segments = []; bytes_accepted = 0; error = some error }

-- `state == Established || state == CloseWait`
abbrev pub is_sendable : Connection → Bool
is_sendable connection =
    same_state connection.state established || same_state connection.state close_wait

-- The queueing and the scheduling, on the connection.
unfoldable pub enqueue : TcpConnectionKey → Connection → List ℕ → ℕ → TcpSendResult × Connection
enqueue key connection payload now =
    let owned = app_owned_bytes connection in
    let remaining =
      if leb tcp_send_buffer_capacity owned then 0 else tcp_send_buffer_capacity - owned in
    let queued = record connection { unsent = connection.unsent ++ payload } in
    let (segments, sent) = schedule_queued_data key queued now in
    if not (is_sendable connection)
    then (send_error not_sendable, connection)
    else if connection.close_requested
    then (send_error not_sendable, connection)
    else if ltb remaining (length payload)
    then (send_error buffer_full, connection)
    else (record { segments = segments; bytes_accepted = length payload; error = none }, sent)

unfoldable pub make_outgoing_data :
    TcpConnectionKey → List ℕ → ℕ → TcpConnectionTable → TcpSendResult × TcpConnectionTable
make_outgoing_data key payload now table =
    if is_empty payload
    then (send_error empty_payload, table)
    else if ltb max_application_send_size (length payload)
    then (send_error too_large, table)
    else elim (find_connection key table.connections) [
      | none ↦ (send_error not_sendable, table)
      | some connection ↦
          let sent = enqueue key connection payload now in
          (sent.0, store_connection key (some sent.1) table)
    ]

pub record TcpCloseResult : Type 0 where
  pub accepted : Bool
  pub fin : Option TcpSegment

abbrev front : List TcpSegment → Option TcpSegment
front [] = none
front (segment ∷ rest) = some segment

unfoldable pub close_connection : TcpConnectionKey → Connection → ℕ → TcpCloseResult × Connection
close_connection key connection now =
    let (segments, closed) =
      maybe_sequence_fin key (record connection { close_requested = true }) now in
    if not (is_sendable connection)
    then (record { accepted = false; fin = none }, connection)
    else (record { accepted = true; fin = front segments }, update_persist_state closed now)

unfoldable pub begin_close :
    TcpConnectionKey → ℕ → TcpConnectionTable → TcpCloseResult × TcpConnectionTable
begin_close key now table = elim (find_connection key table.connections) [
  | none ↦ (record { accepted = false; fin = none }, table)
  | some connection ↦
      let closed = close_connection key connection now in
      (closed.0, store_connection key (some closed.1) table)
]

pub record TcpConnectionSnapshot : Type 0 where
  pub state : TcpState
  pub rcv_nxt : ℕ
  pub snd_una : ℕ
  pub snd_nxt : ℕ
  pub pending_count : ℕ
  pub snd_wnd : ℕ
  pub reassembly_fragment_count : ℕ
  pub reassembly_buffered_bytes : ℕ
  pub advertised_window : ℕ
  pub peer_mss : ℕ
  pub effective_send_mss : ℕ
  pub peer_window_scale : ℕ
  pub local_window_scale : ℕ
  pub window_scaling_enabled : Bool
  pub has_rtt_sample : Bool
  pub srtt : ℕ
  pub rttvar : ℕ
  pub current_rto : ℕ
  pub cwnd : ℕ
  pub ssthresh : ℕ
  pub duplicate_ack_count : ℕ
  pub in_fast_recovery : Bool
  pub recovery_point : ℕ
  pub congestion_avoidance_acked_bytes : ℕ
  pub sack_permitted : Bool
  pub sacked_pending_count : ℕ
  pub recovery_retransmitted_count : ℕ
  pub unsent_bytes : ℕ
  pub owned_bytes : ℕ
  pub close_requested : Bool
  pub persist_armed : Bool
  pub persist_deadline : Option ℕ

unfoldable pub count_entries : (PendingTransmission → Bool) → List PendingTransmission → ℕ
count_entries p [] = 0
count_entries p (entry ∷ rest) = (if p entry then 1 else 0) + count_entries p rest

unfoldable pub snapshot : Connection → TcpConnectionSnapshot
snapshot connection = record {
  state = connection.state;
  rcv_nxt = connection.rcv_nxt;
  snd_una = connection.snd_una;
  snd_nxt = connection.snd_nxt;
  pending_count = length connection.pending;
  snd_wnd = connection.snd_wnd;
  reassembly_fragment_count = length connection.out_of_order;
  reassembly_buffered_bytes = buffered_receive_bytes connection;
  advertised_window = advertised_window_for connection connection.window_scaling_enabled;
  peer_mss = connection.peer_mss;
  effective_send_mss = connection.effective_send_mss;
  peer_window_scale = connection.peer_window_scale;
  local_window_scale = connection.local_window_scale;
  window_scaling_enabled = connection.window_scaling_enabled;
  has_rtt_sample = connection.has_rtt_sample;
  srtt = connection.srtt;
  rttvar = connection.rttvar;
  current_rto = connection.current_rto;
  cwnd = connection.cwnd;
  ssthresh = connection.ssthresh;
  duplicate_ack_count = connection.duplicate_ack_count;
  in_fast_recovery = connection.in_fast_recovery;
  recovery_point = connection.recovery_point;
  congestion_avoidance_acked_bytes = connection.congestion_avoidance_acked_bytes;
  sack_permitted = connection.sack_permitted;
  sacked_pending_count = count_entries (λ entry. entry.sacked) connection.pending;
  recovery_retransmitted_count =
      count_entries (λ entry. entry.retransmitted_in_recovery) connection.pending;
  unsent_bytes = length connection.unsent;
  owned_bytes = app_owned_bytes connection;
  close_requested = connection.close_requested;
  persist_armed = is_set connection.persist_deadline;
  persist_deadline = connection.persist_deadline;
}

unfoldable pub snapshot_of : TcpConnectionKey → TcpConnectionTable → Option TcpConnectionSnapshot
snapshot_of key table = elim (find_connection key table.connections) [
  | none ↦ none
  | some connection ↦ some (snapshot connection)
]
