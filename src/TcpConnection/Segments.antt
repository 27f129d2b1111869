-- ===== src/TcpConnection/Segments.antt =====
-- The segments that a connection sends: `makeClosedPortReset`, `makeSynAck`, `makeActiveSyn`,
-- `makePureAck` and `makeFin`.
use wirestack.Common.{ℕ, ◌+◌, true, false, [], if◌then◌else◌, length, Option}
use wirestack.Bytes.{u32}
use wirestack.Tcp.Flags.{no_flags}
use wirestack.Tcp.Segment.{TcpSegment}
use wirestack.TcpConnection.State.{Connection}
use wirestack.TcpConnection.Key.{TcpConnectionKey, segment_from}
use wirestack.TcpConnection.Window.{advertised_window_for}
use wirestack.TcpConnection.Options.{
  build_syn_ack_options, build_active_syn_options, build_sack_options,
}
use wirestack.TcpConnection.Sack.{generate_sack_blocks}

-- The sequence space that a segment takes: its bytes, its SYN and its FIN.
unfoldable pub consumed : TcpSegment → ℕ
consumed incoming =
    length incoming.payload
    + (if incoming.flags.syn then 1 else 0)
    + (if incoming.flags.fin then 1 else 0)

unfoldable pub make_closed_port_reset : TcpSegment → TcpSegment
make_closed_port_reset incoming =
    let reset : TcpSegment = record {
      source_port = incoming.destination_port;
      destination_port = incoming.source_port;
      sequence_number = 0;
      acknowledgment_number = 0;
      flags = record no_flags { rst = true };
      window_size = 0;
      urgent_pointer = 0;
      options = [];
      payload = [];
    } in
    if incoming.flags.ack
    then record reset { sequence_number = incoming.acknowledgment_number }
    else record reset {
      acknowledgment_number = u32 (incoming.sequence_number + consumed incoming);
      flags = record no_flags { rst = true; ack = true };
    }

unfoldable pub make_syn_ack : TcpConnectionKey → Connection → TcpSegment
make_syn_ack key connection = record (segment_from key) {
  sequence_number = connection.local_isn;
  acknowledgment_number = u32 (connection.remote_isn + 1);
  flags = record no_flags { syn = true; ack = true };
  window_size = advertised_window_for connection false;
  options = build_syn_ack_options connection;
}

unfoldable pub make_active_syn : TcpConnectionKey → Connection → TcpSegment
make_active_syn key connection = record (segment_from key) {
  sequence_number = connection.local_isn;
  flags = record no_flags { syn = true };
  window_size = advertised_window_for connection false;
  options = build_active_syn_options;
}

unfoldable pub make_pure_ack : TcpConnectionKey → Connection → Option ℕ → TcpSegment
make_pure_ack key connection most_recent = record (segment_from key) {
  sequence_number = connection.snd_nxt;
  acknowledgment_number = connection.rcv_nxt;
  flags = record no_flags { ack = true };
  window_size = advertised_window_for connection connection.window_scaling_enabled;
  options =
      if connection.sack_permitted
      then build_sack_options (generate_sack_blocks connection most_recent)
      else [];
}

unfoldable pub make_fin : TcpConnectionKey → Connection → TcpSegment
make_fin key connection = record (segment_from key) {
  sequence_number = connection.snd_nxt;
  acknowledgment_number = connection.rcv_nxt;
  flags = record no_flags { fin = true; ack = true };
  window_size = advertised_window_for connection connection.window_scaling_enabled;
}
