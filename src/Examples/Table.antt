-- ===== src/Examples/Table.antt =====
-- The TCP connection table at concrete contents.
use wirestack.Common.{
  ◌+◌, ◌≤◌, ◌≡◌, refl, [], ◌∷◌, ◌++◌, arith, false, true, some, none, drop, length,
}
use wirestack.Common.Map
use wirestack.Bytes.{u32}
use wirestack.Address.{Ipv4Address}
use wirestack.Tcp.Flags.{no_flags}
use wirestack.Tcp.Segment.{TcpSegment}
use wirestack.Tcp.Options.{done, parse_tcp_options}
use wirestack.TcpConnection.State.{Connection, PendingTransmission, established}
use wirestack.TcpConnection.Key.{TcpConnectionKey, segment_from, no_result}
use wirestack.TcpConnection.Options.{tcp_mss, build_syn_ack_options}
use wirestack.TcpConnection.Options.RoundTrip.{parse_tcp_options-build_syn_ack_options}
use wirestack.TcpConnection.Segments.{make_closed_port_reset}
use wirestack.TcpConnection.Retire.{retire_acknowledged}
use wirestack.TcpConnection.Schedule.{schedule_data, new_pending}
use wirestack.TcpConnection.Schedule.Chunks.{payloads, Contiguous, Sized}
use wirestack.TcpConnection.Schedule.Stream.{outgoing, schedule_data-segments}
use wirestack.TcpConnection.Stream.{IsEntry, retire_acknowledged-outgoing, enqueue-outgoing}
use wirestack.TcpConnection.Synchronized.{parsed_options}
use wirestack.TcpConnection.Handshake.{
  complete_passive_open, final_ack, handle_syn_sent, handle_syn_received,
}
use wirestack.TcpConnection.Handshake.Opens.{offer}
use wirestack.TcpConnection.Table.{
  half_open_count, TcpConnectionTable, active_connection, passive_connection, handle,
  handle_connection, begin_connect,
}
use wirestack.TcpConnection.Table.Handshake.{three_way_handshake}
use wirestack.TcpConnection.Table.Moves.{MovesTo, handle_connection-MovesTo}
use wirestack.TcpConnection.Table.Reset.{IsSilent, handle-rst_IsSilent, connection_refused}
use wirestack.TcpConnection.Api.{TcpSendError, enqueue, tcp_send_buffer_capacity}
use wirestack.TcpConnection.Limits.{IsWithin, Reach-IsWithin, start, later, connect, segment}
use wirestack.TcpConnection.Timers.{
  next_retransmission_deadline, earliest_deadline, retransmission_deadline, sooner,
  poll_retransmissions,
}
use wirestack.TcpConnection.Timers.Deadlines.{poll_retransmissions-early}
use wirestack.Examples.Connection.{ten_sent}

abbrev client_ip : Ipv4Address
client_ip = record { a0 = 10; a1 = 0; a2 = 0; a3 = 2 }

abbrev server_ip : Ipv4Address
server_ip = record { a0 = 10; a1 = 0; a2 = 0; a3 = 1 }

abbrev client_key : TcpConnectionKey
client_key = record {
  local_ip = client_ip;
  local_port = 50000;
  remote_ip = server_ip;
  remote_port = 80;
}

abbrev server_key : TcpConnectionKey
server_key = record {
  local_ip = server_ip;
  local_port = 80;
  remote_ip = client_ip;
  remote_port = 50000;
}

abbrev empty_table : TcpConnectionTable
empty_table = record {
  listen_port = 8080;
  max_connections = 2;
  max_half_open_connections = 1;
  last_isn = none;
  connections = [];
}

abbrev fin_segment : TcpSegment
fin_segment = record (segment_from server_key) {
  sequence_number = 101;
  acknowledgment_number = 5;
  flags = record no_flags { fin = true; ack = true };
  window_size = 500;
}

abbrev rst_segment : TcpSegment
rst_segment = record (segment_from server_key) { flags = record no_flags { rst = true } }

three_way_handshake_example :
    let client = active_connection client_key 7 100 in
    let server = passive_connection server_key client.0 offer 9 101 in
    let (r, opened) = handle_syn_sent client_key client.1 server.0 102 in
    let ack = final_ack client_key opened in
    let answered = complete_passive_open server.1 ack 103 in
    (parsed_options client.0.options ≡ some offer)
    × (r.reply ≡ some ack)
    × (handle_syn_received server_key server.1 ack 103 ≡ (no_result, some answered))
    × (opened.state ≡ established)
    × (answered.state ≡ established)
    × (opened.snd_nxt ≡ answered.rcv_nxt)
    × (opened.rcv_nxt ≡ answered.snd_nxt)
    × (opened.pending ≡ [])
    × (answered.pending ≡ [])
three_way_handshake_example =
    three_way_handshake client_key server_key 7 9 100 101 102 103 (omega arith) (omega arith)

connection_refused_example :
    let client = active_connection client_key 7 100 in
    let reset = make_closed_port_reset client.0 in
    ((handle server_key client.0 101 none empty_table).0.reply ≡ some reset)
    × ((handle server_key client.0 101 none empty_table).1 ≡ empty_table)
    × ((handle_syn_sent client_key client.1 reset 102).0.connection_reset ≡ true)
    × ((handle_syn_sent client_key client.1 reset 102).1.pending_removal ≡ true)
unfolding Map.find
connection_refused_example =
    connection_refused client_key server_key 7 100 101 102 none empty_table (omega arith) refl
      (omega arith)

handle-rst_IsSilent_example : IsSilent (handle server_key rst_segment 5 none empty_table).0
handle-rst_IsSilent_example = handle-rst_IsSilent server_key rst_segment 5 refl none empty_table

handle_connection-MovesTo_example :
    MovesTo established (handle_connection client_key ten_sent fin_segment 5).1
handle_connection-MovesTo_example = handle_connection-MovesTo client_key ten_sent fin_segment 5

empty_IsWithin : IsWithin empty_table
unfolding half_open_count
empty_IsWithin = omega arith

Reach-IsWithin_example :
    IsWithin
      (handle server_key fin_segment 9 none (begin_connect client_key 5 (some 7) empty_table).1).1
Reach-IsWithin_example = Reach-IsWithin {t = empty_table} empty_IsWithin (
    later (later start (connect client_key 5 (some 7) empty_table))
      (segment server_key fin_segment 9 none _))

parse_tcp_options-build_syn_ack_options_example :
    parse_tcp_options (build_syn_ack_options ten_sent)
    ≡ done (record {
      maximum_segment_size = some tcp_mss;
      window_scale = some 2;
      sack_permitted = false;
      sack_blocks = [];
    })
parse_tcp_options-build_syn_ack_options_example =
    parse_tcp_options-build_syn_ack_options ten_sent (omega arith)

-- Two bytes wait, and a window of 4000 bytes takes them.
abbrev two_waiting : Connection
two_waiting = record ten_sent { unsent = 7 ∷ 8 ∷ []; cwnd = 14600 }

schedule_data-segments_example :
    let (segments, sent) = schedule_data client_key two_waiting 5 in
    (payloads segments ++ sent.unsent ≡ 7 ∷ 8 ∷ [])
    × (u32 (5 + length (payloads segments)) ≡ sent.snd_nxt)
    × Contiguous 5 segments
    × Sized 1460 segments
schedule_data-segments_example = schedule_data-segments client_key two_waiting 5 (omega arith)

enqueue-outgoing_example :
    let (result, sent) = enqueue client_key two_waiting (9 ∷ []) 5 in
    (result.error ≡ none
      → (outgoing sent ≡ 7 ∷ 8 ∷ 9 ∷ [])
        × (length (outgoing sent) ≤ tcp_send_buffer_capacity)
        × (result.bytes_accepted ≡ 1))
    × ((e : TcpSendError) → result.error ≡ some e → sent ≡ two_waiting)
enqueue-outgoing_example =
    enqueue-outgoing client_key two_waiting (9 ∷ []) 5 (omega arith) (omega arith)

-- Three bytes in flight at 5, and a queue of one entry.
abbrev one_entry_queue : PendingTransmission
one_entry_queue = record (new_pending 0xffff_fffb no_flags 3 ten_sent) { payload = 1 ∷ 2 ∷ 3 ∷ [] }

abbrev one_in_flight : Connection
one_in_flight = record ten_sent { pending = one_entry_queue ∷ []; unsent = 4 ∷ [] }

one_in_flight_entries : IsEntry one_entry_queue
one_in_flight_entries = record {
  start_fits = omega arith;
  short = omega arith;
  control_empty = λ h. cc;
  one_control = refl;
}

-- Two of the three bytes are acknowledged.
retire_acknowledged-outgoing_example :
    let (result, retired) = retire_acknowledged one_in_flight 0xffff_fffd 9 in
    (outgoing retired ≡ drop result.newly_acked_data_bytes (1 ∷ 2 ∷ 3 ∷ 4 ∷ []))
    × (result.newly_acked_data_bytes ≤ 4)
retire_acknowledged-outgoing_example =
    retire_acknowledged-outgoing one_in_flight 0xffff_fffd 9 (omega arith)
      (one_in_flight_entries, tt) (omega arith)

-- Its entry was sent at time 3, and is due one retransmission timeout after it.
abbrev in_flight_table : TcpConnectionTable
in_flight_table = record empty_table { connections = (client_key, one_in_flight) ∷ [] }

in_flight_due :
    next_retransmission_deadline in_flight_table ≡ some (3 + one_entry_queue.timeout_interval)
unfolding next_retransmission_deadline earliest_deadline retransmission_deadline sooner
in_flight_due = refl

poll_retransmissions-early_example :
    poll_retransmissions 900000000 in_flight_table
    ≡ (record { retransmissions = []; timed_out = []; time_wait_expired = [] }, in_flight_table)
poll_retransmissions-early_example =
    poll_retransmissions-early in_flight_table 900000000 (λ d e. ground (arith, in_flight_due))
