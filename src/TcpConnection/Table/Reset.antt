-- ===== src/TcpConnection/Table/Reset.antt =====
-- Resets: they are never answered, and the reset for a closed port ends the attempt to open.
use wirestack.Common.{ℕ, ◌≡◌, ◌≢◌, ◌<◌, ◌^◌, refl, true, false, some, none, [], arith, Option}
use wirestack.Common.{inl, inr, Option-cases}
use wirestack.Tcp.Segment.{TcpSegment}
use wirestack.Tcp.Options.{TcpParsedOptions, no_options, parse_tcp_options, options_loop}
use wirestack.TcpConnection.State.{Connection}
use wirestack.TcpConnection.Key.{TcpConnectionKey, TcpReceiveResult}
use wirestack.TcpConnection.Synchronized.{
  duplicate_handshake_syn_ack, parsed_options, handle_well_formed, handle_synchronized,
}
use wirestack.TcpConnection.Handshake.{
  handle_syn_sent, syn_sent_well_formed, handle_time_wait, handle_syn_received,
}
use wirestack.TcpConnection.Segments.{make_active_syn, make_closed_port_reset, consumed}
use wirestack.TcpConnection.Table.{
  active_connection, TcpConnectionTable, find_connection, handle_unknown, keep_or_erase,
  handle_connection, handle,
}

-- Nothing is sent and nothing is delivered.
pub record IsSilent (r : TcpReceiveResult) : Type 0 where
  pub reply : r.reply ≡ none
  pub fast_retransmit : r.fast_retransmit ≡ none
  pub scheduled : r.scheduled ≡ []
  pub accepted_payload : r.accepted_payload ≡ []
  pub peer_closed : r.peer_closed ≡ false

module _ (key : TcpConnectionKey) (segment : TcpSegment) (now : ℕ)
    (rst : segment.flags.rst ≡ true) where
  handle_well_formed-IsSilent :
      (c : Connection) (parsed : TcpParsedOptions)
      → IsSilent (handle_well_formed key c segment parsed now).0
  unfolding handle_well_formed
  handle_well_formed-IsSilent c parsed = ground arith

  handle_synchronized-IsSilent :
      (c : Connection) → IsSilent (handle_synchronized key c segment now).0
  unfolding handle_synchronized duplicate_handshake_syn_ack
  handle_synchronized-IsSilent c = elim (Option-cases (parsed_options segment.options)) [
    | inl e ↦ ground arith
    | inr (parsed, e) ↦ ground (arith, handle_well_formed-IsSilent c parsed)
  ]

  handle_syn_sent-IsSilent : (c : Connection) → IsSilent (handle_syn_sent key c segment now).0
  unfolding handle_syn_sent syn_sent_well_formed
  handle_syn_sent-IsSilent c = ground arith

  handle_time_wait-IsSilent : (c : Connection) → IsSilent (handle_time_wait key c segment now).0
  unfolding handle_time_wait
  handle_time_wait-IsSilent c = ground arith

  handle_syn_received-IsSilent :
      (c : Connection) → IsSilent (handle_syn_received key c segment now).0
  unfolding handle_syn_received
  handle_syn_received-IsSilent c = ground arith

  handle_connection-IsSilent : (c : Connection) → IsSilent (handle_connection key c segment now).0
  unfolding handle_connection keep_or_erase
  handle_connection-IsSilent c = ground (
    arith,
    handle_time_wait-IsSilent c,
    handle_syn_sent-IsSilent c,
    handle_syn_received-IsSilent c,
    handle_synchronized-IsSilent c,
  )

  -- A segment with the RST flag is never answered and delivers nothing, payload or close, whatever the
  -- table holds.
  pub handle-rst_IsSilent :
      (draw : Option ℕ) (table : TcpConnectionTable)
      → IsSilent (handle key segment now draw table).0
  unfolding handle handle_unknown
  handle-rst_IsSilent draw table = elim (Option-cases (find_connection key table.connections)) [
    | inl e ↦ ground arith
    | inr (c, e) ↦ ground (arith, handle_connection-IsSilent c)
  ]

parsed_options-nil : parsed_options [] ≡ some no_options
unfolding parsed_options parse_tcp_options options_loop
parsed_options-nil = refl

-- A SYN for a port that nobody listens on is answered by a reset, and that reset, taken by the
-- connection that sent the SYN, reports the refusal and marks the connection for removal.
pub connection_refused :
    (ck sk : TcpConnectionKey) (isn t0 t1 t2 : ℕ) (draw : Option ℕ) (server : TcpConnectionTable)
    → isn < 2 ^ 32
    → find_connection sk server.connections ≡ none
    → sk.local_port ≢ server.listen_port
    → let client = active_connection ck isn t0 in
      let reset = make_closed_port_reset client.0 in
      ((handle sk client.0 t1 draw server).0.reply ≡ some reset)
      × ((handle sk client.0 t1 draw server).1 ≡ server)
      × ((handle_syn_sent ck client.1 reset t2).0.connection_reset ≡ true)
      × ((handle_syn_sent ck client.1 reset t2).1.pending_removal ≡ true)
unfolding handle handle_unknown active_connection make_active_syn make_closed_port_reset consumed
    handle_syn_sent syn_sent_well_formed
connection_refused ck sk isn t0 t1 t2 draw server small unknown unbound =
    let client = active_connection ck isn t0 in
    let parsed = parsed_options-nil in (ground arith, ground arith, ground arith, ground arith)
