-- ===== src/TcpConnection/Handshake.antt =====
-- The states outside the synchronized ones: `handleSynSent`, `handleTimeWait` and the SynReceived
-- part of `handle`.
pub mod Opens
use wirestack.Common.{
  ℕ, ◌+◌, min, Bool, true, false, not, ◌&&◌, ◌||◌, List, [], ◌∷◌, Option, none, some,
}
use wirestack.Common.{if◌then◌else◌, ◌==◌, ◌!=◌}
use wirestack.Bytes.{u32}
use wirestack.Tcp.Flags.{TcpFlags, no_flags}
use wirestack.Tcp.Segment.{TcpSegment}
use wirestack.Tcp.Options.{TcpParsedOptions}
use wirestack.TcpConnection.State.{Connection, PendingTransmission, established}
use wirestack.TcpConnection.Key.{TcpConnectionKey, TcpReceiveResult, no_result, segment_from}
use wirestack.TcpConnection.Options.{tcp_mss, local_window_scale_shift}
use wirestack.TcpConnection.Segments.{make_pure_ack, make_syn_ack}
use wirestack.TcpConnection.Window.{advertised_window_for, decode_peer_window}
use wirestack.TcpConnection.Congestion.{initial_congestion_window}
use wirestack.TcpConnection.Retire.{retire_acknowledged}
use wirestack.TcpConnection.Acknowledge.{time_wait_duration}
use wirestack.TcpConnection.Schedule.{is_empty}
use wirestack.TcpConnection.Synchronized.{parsed_options}

abbrev pub default_peer_mss : ℕ
default_peer_mss = 536

abbrev pub max_window_scale_shift : ℕ
max_window_scale_shift = 14

abbrev pub value_or : Option ℕ → ℕ → ℕ
value_or none d = d
value_or (some v) d = v

unfoldable pub negotiate_scale : Option ℕ → Connection → Connection
negotiate_scale none connection = connection
negotiate_scale (some shift) connection = record connection {
  window_scaling_enabled = true;
  peer_window_scale = min shift max_window_scale_shift;
  local_window_scale = local_window_scale_shift;
}

-- The negotiation that both sides of the handshake do.
unfoldable pub negotiate : Connection → TcpParsedOptions → Connection
negotiate connection parsed =
    let peer_mss = value_or parsed.maximum_segment_size default_peer_mss in
    let effective = min tcp_mss peer_mss in
    let sized = record connection {
      peer_mss = peer_mss;
      effective_send_mss = effective;
      cwnd = initial_congestion_window effective;
    } in
    record (negotiate_scale parsed.window_scale sized) { sack_permitted = parsed.sack_permitted }

-- The connection after an acceptable SYN-ACK.
unfoldable pub complete_active_open : Connection → TcpSegment → TcpParsedOptions → ℕ → Connection
complete_active_open connection segment parsed now =
    let known = record connection {
      remote_isn = segment.sequence_number;
      remote_isn_known = true;
      rcv_nxt = u32 (segment.sequence_number + 1);
    } in
    let opened = record (negotiate known parsed) { state = established } in
    record (retire_acknowledged opened segment.acknowledgment_number now).1 {
      snd_wnd = segment.window_size;
      snd_wl1 = segment.sequence_number;
      snd_wl2 = segment.acknowledgment_number;
    }

unfoldable pub final_ack : TcpConnectionKey → Connection → TcpSegment
final_ack key connection = record (segment_from key) {
  sequence_number = connection.snd_nxt;
  acknowledgment_number = connection.rcv_nxt;
  flags = record no_flags { ack = true };
  window_size = advertised_window_for connection connection.window_scaling_enabled;
}

unfoldable pub syn_sent_well_formed :
    TcpConnectionKey
    → Connection
    → TcpSegment
    → TcpParsedOptions
    → ℕ
    → TcpReceiveResult × Connection
syn_sent_well_formed key connection segment parsed now =
    let opened = complete_active_open connection segment parsed now in
    if segment.flags.rst
    then (if segment.flags.ack && segment.acknowledgment_number == connection.snd_nxt
        then (
          record no_result { connection_reset = true },
          record connection { pending_removal = true },
        )
        else (no_result, connection))
    else if not segment.flags.syn
    then (no_result, connection)
    else if not segment.flags.ack
    then (no_result, connection)
    else if segment.flags.fin || not (is_empty segment.payload)
    then (no_result, connection)
    else if segment.acknowledgment_number != connection.snd_nxt
    then (no_result, connection)
    else (
      record no_result { reply = some (final_ack key opened); connection_established = true },
      opened,
    )

unfoldable pub handle_syn_sent :
    TcpConnectionKey → Connection → TcpSegment → ℕ → TcpReceiveResult × Connection
handle_syn_sent key connection segment now = elim (parsed_options segment.options) [
  | none ↦ (no_result, connection)
  | some parsed ↦ syn_sent_well_formed key connection segment parsed now
]

unfoldable pub handle_time_wait :
    TcpConnectionKey → Connection → TcpSegment → ℕ → TcpReceiveResult × Connection
handle_time_wait key connection segment now =
    let again = record connection { time_wait_deadline = some (now + time_wait_duration) } in
    if segment.flags.rst
    then (if segment.sequence_number == connection.rcv_nxt
        then (no_result, record connection { pending_removal = true })
        else (no_result, connection))
    else if segment.flags.syn || not (is_empty segment.payload)
    then (no_result, connection)
    else if segment.flags.fin && u32 (segment.sequence_number + 1) == connection.rcv_nxt
    then (record no_result { reply = some (make_pure_ack key again none) }, again)
    else (no_result, connection)

-- The acknowledgment of the SYN-ACK.
unfoldable pub complete_passive_open : Connection → TcpSegment → ℕ → Connection
complete_passive_open connection segment now =
    let opened = record connection {
      state = established;
      rcv_nxt = u32 (connection.remote_isn + 1);
      snd_una = connection.local_isn;
      snd_nxt = u32 (connection.local_isn + 1);
    } in
    let retired = (retire_acknowledged opened (u32 (connection.local_isn + 1)) now).1 in
    record retired {
      snd_wnd = decode_peer_window retired segment.window_size;
      snd_wl1 = segment.sequence_number;
      snd_wl2 = segment.acknowledgment_number;
    }

-- `connection.pending.front().last_sent_at = now`
abbrev pub touch_front : ℕ → List PendingTransmission → List PendingTransmission
touch_front now [] = []
touch_front now (entry ∷ rest) = record entry { last_sent_at = now } ∷ rest

-- The SynReceived part of `handle`; none for the connection means that it is erased.
unfoldable pub handle_syn_received :
    TcpConnectionKey → Connection → TcpSegment → ℕ → TcpReceiveResult × Option Connection
handle_syn_received key connection segment now =
    let again = record connection { pending = touch_front now connection.pending } in
    if segment.flags.rst
    then (if segment.sequence_number == u32 (connection.remote_isn + 1)
        then (no_result, none)
        else (no_result, some connection))
    else if segment.flags.syn && not segment.flags.ack
    then (if segment.sequence_number == connection.remote_isn
        then (record no_result { reply = some (make_syn_ack key again) }, some again)
        else (no_result, some connection))
    else if segment.flags.ack
        && not segment.flags.syn
        && segment.acknowledgment_number == u32 (connection.local_isn + 1)
        && segment.sequence_number == u32 (connection.remote_isn + 1)
    then (no_result, some (complete_passive_open connection segment now))
    else (no_result, some connection)
