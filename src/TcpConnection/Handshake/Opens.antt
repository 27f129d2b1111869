-- ===== src/TcpConnection/Handshake/Opens.antt =====
-- The three-way handshake between two tables of this program.
use wirestack.Common.{ℕ, ◌+◌, ◌<◌, ◌^◌, ◌≡◌, true, false, some, [], ◌∷◌, arith}
use wirestack.Bytes.{u32}
use wirestack.Tcp.Segment.{TcpSegment}
use wirestack.Tcp.Options.{TcpParsedOptions}
use wirestack.TcpConnection.Sequence.{sequence_greater}
use wirestack.TcpConnection.State.{
  Connection, PendingTransmission, pending_sequence_end, established,
}
use wirestack.TcpConnection.Key.{TcpConnectionKey, no_result}
use wirestack.TcpConnection.Retire.Frame.{retire_acknowledged-frame, retire_acknowledged-one}
use wirestack.TcpConnection.Options.{
  tcp_mss, local_window_scale_shift, build_active_syn_options, build_syn_ack_options,
}
use wirestack.TcpConnection.Options.RoundTrip.{
  parse_tcp_options-build_active_syn_options, parse_tcp_options-build_syn_ack_options,
}
use wirestack.TcpConnection.Synchronized.{parsed_options}
use wirestack.TcpConnection.Handshake.{
  negotiate, negotiate_scale, complete_active_open, complete_passive_open, final_ack,
  handle_syn_sent, syn_sent_well_formed,
}
use wirestack.TcpConnection.Window.{decode_peer_window}

-- What both sides negotiate from the options that this program sends.
abbrev pub offer : TcpParsedOptions
offer = record {
  maximum_segment_size = some tcp_mss;
  window_scale = some local_window_scale_shift;
  sack_permitted = true;
  sack_blocks = [];
}

pub parsed_options-build_active_syn_options : parsed_options build_active_syn_options ≡ some offer
unfolding parsed_options
parsed_options-build_active_syn_options =
    rw (parsed_options, parse_tcp_options-build_active_syn_options)

pub parsed_options-build_syn_ack_options :
    (c : Connection)
    → c.local_window_scale ≡ 2
    → c.window_scaling_enabled ≡ true
    → c.sack_permitted ≡ true
    → parsed_options (build_syn_ack_options c) ≡ some offer
unfolding parsed_options
parsed_options-build_syn_ack_options c h e s =
    ground (arith, parse_tcp_options-build_syn_ack_options c)

-- The segment that answers an active SYN.
pub record IsSynAck (c : Connection) (segment : TcpSegment) : Type 0 where
  pub parsed : parsed_options segment.options ≡ some offer
  pub syn : segment.flags.syn ≡ true
  pub ack : segment.flags.ack ≡ true
  pub rst : segment.flags.rst ≡ false
  pub fin : segment.flags.fin ≡ false
  pub empty : segment.payload ≡ []
  pub acknowledges : segment.acknowledgment_number ≡ c.snd_nxt

pub handle_syn_sent-eq :
    (key : TcpConnectionKey) (c : Connection) (segment : TcpSegment) (now : ℕ)
    → IsSynAck c segment
    → let opened = complete_active_open c segment offer now in
      handle_syn_sent key c segment now ≡ (
        record no_result { reply = some (final_ack key opened); connection_established = true },
        opened,
      )
unfolding handle_syn_sent syn_sent_well_formed
handle_syn_sent-eq key c segment now h = ground (arith, h.parsed)

-- A connection whose queue holds nothing but its SYN.
pub record HasSyn (c : Connection) (e : PendingTransmission) : Type 0 where
  pub small : c.local_isn < 2 ^ 32
  pub una : c.snd_una ≡ c.local_isn
  pub nxt : c.snd_nxt ≡ u32 (c.local_isn + 1)
  pub queue : c.pending ≡ e ∷ []
  pub end : pending_sequence_end e ≡ u32 (c.local_isn + 1)

isn_advances : (isn : ℕ) → isn < 2 ^ 32 → sequence_greater (u32 (isn + 1)) isn ≡ true
unfolding sequence_greater
isn_advances isn h = ground arith

pub complete_active_open-eq :
    (c : Connection) (e : PendingTransmission) (segment : TcpSegment) (now : ℕ)
    → HasSyn c e
    → segment.acknowledgment_number ≡ c.snd_nxt
    → let r = complete_active_open c segment offer now in
      (r.state ≡ established)
      × (r.pending ≡ [])
      × (r.snd_una ≡ c.snd_nxt)
      × (r.snd_nxt ≡ c.snd_nxt)
      × (r.rcv_nxt ≡ u32 (segment.sequence_number + 1))
      × (r.snd_wnd ≡ segment.window_size)
unfolding complete_active_open negotiate negotiate_scale
complete_active_open-eq c e segment now h ack =
    let known : Connection = record c {
      remote_isn = segment.sequence_number;
      remote_isn_known = true;
      rcv_nxt = u32 (segment.sequence_number + 1);
    } in
    let opened : Connection = record (negotiate known offer) { state = established } in
    let one =
      retire_acknowledged-one opened e segment.acknowledgment_number now (ground arith) h.queue
        (ground arith) (ground (arith, isn_advances c.local_isn)) in
    let frame = retire_acknowledged-frame opened segment.acknowledgment_number now in
    ground (arith, one, frame.state, frame.rcv_nxt, frame.snd_nxt)

-- The other side: the acknowledgment of its SYN-ACK.
pub complete_passive_open-eq :
    (c : Connection) (e : PendingTransmission) (segment : TcpSegment) (now : ℕ)
    → c.local_isn < 2 ^ 32
    → c.pending ≡ e ∷ []
    → pending_sequence_end e ≡ u32 (c.local_isn + 1)
    → let r = complete_passive_open c segment now in
      (r.state ≡ established)
      × (r.pending ≡ [])
      × (r.snd_una ≡ u32 (c.local_isn + 1))
      × (r.snd_nxt ≡ u32 (c.local_isn + 1))
      × (r.rcv_nxt ≡ u32 (c.remote_isn + 1))
      × (r.snd_wnd ≡ decode_peer_window c segment.window_size)
unfolding complete_passive_open decode_peer_window
complete_passive_open-eq c e segment now h queue end =
    let opened : Connection = record c {
      state = established;
      rcv_nxt = u32 (c.remote_isn + 1);
      snd_una = c.local_isn;
      snd_nxt = u32 (c.local_isn + 1);
    } in
    let one =
      retire_acknowledged-one opened e (u32 (c.local_isn + 1)) now (ground arith) queue end
        (isn_advances c.local_isn h) in
    let frame = retire_acknowledged-frame opened (u32 (c.local_isn + 1)) now in
    ground (
      arith, one, frame.state, frame.rcv_nxt, frame.snd_nxt, frame.window_scaling_enabled,
      frame.peer_window_scale,
    )
