-- ===== src/TcpConnection/Synchronized.antt =====
-- `handleSynchronized`: a segment for a connection past its handshake.
pub mod Moves
use wirestack.Common.{ℕ, ◌+◌, Bool, true, false, not, ◌&&◌, ◌||◌, List, [], ◌∷◌}
use wirestack.Common.{Option, none, some, if◌then◌else◌, ◌==◌, length, take, drop}
use wirestack.Bytes.{u32}
use wirestack.Tcp.Segment.{TcpSegment}
use wirestack.Tcp.Options.{TcpSackBlock, TcpParsedOptions, Outcome, done, parse_tcp_options}
use wirestack.TcpConnection.Sequence.{
  sub32, sequence_greater, sequence_less_or_equal, sequence_max, sequence_min,
}
use wirestack.TcpConnection.State.{
  Connection, TcpReassemblyFragment, established, fin_wait1, fin_wait2, close_wait, closing,
}
use wirestack.TcpConnection.State.{same_state}
use wirestack.TcpConnection.Key.{TcpConnectionKey, TcpReceiveResult, no_result}
use wirestack.TcpConnection.Segments.{make_pure_ack}
use wirestack.TcpConnection.Sack.{fragment_sequence_end}
use wirestack.TcpConnection.Window.{advertised_logical_window_for}
use wirestack.TcpConnection.Schedule.{is_empty, schedule_queued_data, update_persist_state}
use wirestack.TcpConnection.Reassembly.{insert_reassembly_fragment, release_contiguous}
use wirestack.TcpConnection.Acknowledge.{process_ack, start_time_wait}

-- The duplicate of the SYN-ACK that completed an active open.
unfoldable pub duplicate_handshake_syn_ack : Connection → TcpSegment → Bool
duplicate_handshake_syn_ack connection segment =
    segment.flags.ack
    && not segment.flags.rst
    && not segment.flags.fin
    && is_empty segment.payload
    && connection.remote_isn_known
    && segment.sequence_number == connection.remote_isn
    && segment.acknowledgment_number == u32 (connection.local_isn + 1)

-- `std::get<TcpParsedOptions>`, or none for an error. The parser never runs out of its fuel or
-- reads past the end.
unfoldable pub parsed_options : List ℕ → Option TcpParsedOptions
parsed_options options = elim (parse_tcp_options options) [ done parsed ↦ some parsed | _ ↦ none ]

-- `scheduleIfSendable`
unfoldable pub schedule_if_sendable :
    TcpConnectionKey → Connection → ℕ → List TcpSegment × Connection
schedule_if_sendable key connection now =
    if not connection.pending_removal
      && (same_state connection.state established || same_state connection.state close_wait)
    then schedule_queued_data key connection now
    else ([], update_persist_state connection now)

-- `connection.sack_permitted && !connection.out_of_order.empty()`
abbrev pub has_sack_to_report : Connection → Bool
has_sack_to_report connection = connection.sack_permitted && not (is_empty connection.out_of_order)

-- A segment with neither payload nor FIN.
unfoldable pub ack_only :
    TcpConnectionKey → Connection → Option TcpSegment → ℕ → TcpReceiveResult × Connection
ack_only key connection fast_retransmit now =
    let (scheduled, sent) = schedule_if_sendable key connection now in
    (
      record no_result {
        connection_closed = connection.pending_removal;
        fast_retransmit = fast_retransmit;
        scheduled = scheduled;
        reply = if has_sack_to_report sent then some (make_pure_ack key sent none) else none;
      },
      sent,
    )

-- Where the segment meets the receive window.
pub record Usable : Type 0 where
  pub start : ℕ
  pub stop : ℕ
  pub any_payload : Bool
  pub fin : Bool

unfoldable pub usable_part : Connection → TcpSegment → Usable
usable_part connection segment =
    let window_end = u32 (connection.rcv_nxt + advertised_logical_window_for connection) in
    let seg_end = u32 (segment.sequence_number + length segment.payload) in
    let start = sequence_max connection.rcv_nxt segment.sequence_number in
    let stop = sequence_min seg_end window_end in
    let fin_events_open =
      same_state connection.state established
      || same_state connection.state fin_wait1
      || same_state connection.state fin_wait2 in
    record {
      start = start;
      stop = stop;
      any_payload = sequence_greater stop start;
      fin =
          fin_events_open
          && segment.flags.fin
          && sequence_less_or_equal connection.rcv_nxt seg_end
          && sequence_greater window_end seg_end;
    }

-- Nothing of the segment lies in the window.
unfoldable pub outside_window :
    TcpConnectionKey → Connection → Option TcpSegment → ℕ → TcpReceiveResult × Connection
outside_window key connection fast_retransmit now =
    let (scheduled, sent) = schedule_if_sendable key connection now in
    (
      record no_result {
        fast_retransmit = fast_retransmit;
        scheduled = scheduled;
        reply =
            if is_empty scheduled || has_sack_to_report sent
            then some (make_pure_ack key sent none)
            else none;
      },
      sent,
    )

-- The start of the fragment that contains a sequence number.
unfoldable pub containing_fragment : ℕ → List TcpReassemblyFragment → Option ℕ
containing_fragment start [] = none
containing_fragment start (fragment ∷ fragments) =
    if sequence_less_or_equal fragment.sequence_start start
      && sequence_greater (fragment_sequence_end fragment) start
    then some fragment.sequence_start
    else containing_fragment start fragments

unfoldable pub store_payload : Connection → TcpSegment → Usable → Option ℕ × Connection
store_payload connection segment usable =
    let prefix_trim = sub32 usable.start segment.sequence_number in
    let usable_len = sub32 usable.stop usable.start in
    let stored =
      insert_reassembly_fragment connection usable.start
        (take usable_len (drop prefix_trim segment.payload)) in
    if usable.any_payload
    then (containing_fragment usable.start stored.out_of_order, stored)
    else (none, connection)

unfoldable pub retain_fin : Connection → TcpSegment → Usable → Connection
retain_fin connection segment usable =
    if usable.fin
    then record connection {
      pending_fin_seq = some (u32 (segment.sequence_number + length segment.payload));
    }
    else connection

abbrev pub fin_is_next : Option ℕ → ℕ → Bool
fin_is_next none rcv_nxt = false
fin_is_next (some fin_seq) rcv_nxt = fin_seq == rcv_nxt

-- The peer's FIN once everything before it has been released, with whether it was consumed.
unfoldable pub consume_fin : Connection → ℕ → Bool × Connection
consume_fin connection now =
    let next = record connection {
      rcv_nxt = u32 (connection.rcv_nxt + 1);
      pending_fin_seq = none;
    } in
    if not (fin_is_next connection.pending_fin_seq connection.rcv_nxt)
    then (false, connection)
    else if same_state connection.state established
    then (true, record next { state = close_wait })
    else if same_state connection.state fin_wait1
    then (true, record next { state = closing })
    else if same_state connection.state fin_wait2
    then (true, start_time_wait next now)
    else (true, next)

unfoldable pub receive_usable :
    TcpConnectionKey
    → Connection
    → TcpSegment
    → Usable
    → Option TcpSegment
    → ℕ
    → TcpReceiveResult × Connection
receive_usable key connection segment usable fast_retransmit now =
    let (most_recent, stored) = store_payload connection segment usable in
    let (accepted_payload, released) = release_contiguous (retain_fin stored segment usable) in
    let (peer_closed, closed) = consume_fin released now in
    let (scheduled, sent) = schedule_if_sendable key closed now in
    (
      record no_result {
        accepted_payload = accepted_payload;
        fast_retransmit = fast_retransmit;
        peer_closed = peer_closed;
        scheduled = scheduled;
        reply =
            if is_empty accepted_payload && is_empty scheduled || has_sack_to_report sent
            then some (make_pure_ack key sent most_recent)
            else none;
      },
      sent,
    )

-- After the acknowledgment has been processed.
unfoldable pub receive_part :
    TcpConnectionKey
    → Connection
    → TcpSegment
    → Option TcpSegment
    → ℕ
    → TcpReceiveResult × Connection
receive_part key connection segment fast_retransmit now =
    let usable = usable_part connection segment in
    if is_empty segment.payload && not segment.flags.fin
    then ack_only key connection fast_retransmit now
    else if not usable.any_payload && not usable.fin
    then outside_window key connection fast_retransmit now
    else receive_usable key connection segment usable fast_retransmit now

-- A segment whose options are well formed.
unfoldable pub handle_well_formed :
    TcpConnectionKey
    → Connection
    → TcpSegment
    → TcpParsedOptions
    → ℕ
    → TcpReceiveResult × Connection
handle_well_formed key connection segment parsed now =
    let (fast_retransmit, acked) = process_ack key connection segment parsed.sack_blocks now in
    if segment.flags.rst
    then (if segment.sequence_number == connection.rcv_nxt
        then (
          record no_result { connection_reset = true },
          record connection { pending_removal = true },
        )
        else (no_result, connection))
    else if not segment.flags.ack
    then (no_result, connection)
    else if not (sequence_less_or_equal segment.acknowledgment_number connection.snd_nxt)
    then (no_result, connection)
    else receive_part key acked segment fast_retransmit now

unfoldable pub handle_synchronized :
    TcpConnectionKey → Connection → TcpSegment → ℕ → TcpReceiveResult × Connection
handle_synchronized key connection segment now =
    if segment.flags.syn
    then (if duplicate_handshake_syn_ack connection segment
        then (record no_result { reply = some (make_pure_ack key connection none) }, connection)
        else (no_result, connection))
    else elim (parsed_options segment.options) [
      | none ↦ (no_result, connection)
      | some parsed ↦ handle_well_formed key connection segment parsed now
    ]
