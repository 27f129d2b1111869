-- ===== src/TcpConnection/Table/Handshake.antt =====
-- The three-way handshake between two connections of this program.
use wirestack.Common.{ℕ, ◌<◌, ◌^◌, ◌≡◌, refl, some, [], arith}
use wirestack.TcpConnection.State.{PendingTransmission, pending_sequence_end, established}
use wirestack.TcpConnection.Key.{TcpConnectionKey, no_result}
use wirestack.TcpConnection.Segments.{make_active_syn, make_syn_ack}
use wirestack.TcpConnection.Handshake.{
  negotiate, negotiate_scale, complete_active_open, complete_passive_open, final_ack,
  handle_syn_sent, handle_syn_received,
}
use wirestack.TcpConnection.Synchronized.{parsed_options}
use wirestack.TcpConnection.Handshake.Opens.{
  offer, IsSynAck, HasSyn, handle_syn_sent-eq, complete_active_open-eq, complete_passive_open-eq,
  parsed_options-build_active_syn_options, parsed_options-build_syn_ack_options,
}
use wirestack.TcpConnection.Table.{active_connection, passive_connection}

active_connection-HasSyn :
    (key : TcpConnectionKey) (isn now : ℕ)
    → isn < 2 ^ 32
    → (e : PendingTransmission) × HasSyn (active_connection key isn now).1 e
unfolding active_connection pending_sequence_end
active_connection-HasSyn key isn now h =
    (_, record { small = h; una = refl; nxt = refl; queue = refl; end = ground arith })

-- Two connections of this program, the second created from what the options of the first's SYN
-- parse to, each driven by the segments of the other, are both established
-- after the third segment, each expects the number that the other sends next, and nothing is left
-- to retransmit.
pub three_way_handshake :
    (ck sk : TcpConnectionKey) (ci si t0 t1 t2 t3 : ℕ)
    → ci < 2 ^ 32
    → si < 2 ^ 32
    → let client = active_connection ck ci t0 in
      let server = passive_connection sk client.0 offer si t1 in
      let (r, opened) = handle_syn_sent ck client.1 server.0 t2 in
      let ack = final_ack ck opened in
      let answered = complete_passive_open server.1 ack t3 in
      (parsed_options client.0.options ≡ some offer)
      × (r.reply ≡ some ack)
      × (handle_syn_received sk server.1 ack t3 ≡ (no_result, some answered))
      × (opened.state ≡ established)
      × (answered.state ≡ established)
      × (opened.snd_nxt ≡ answered.rcv_nxt)
      × (opened.rcv_nxt ≡ answered.snd_nxt)
      × (opened.pending ≡ [])
      × (answered.pending ≡ [])
unfolding active_connection passive_connection make_active_syn make_syn_ack negotiate
    negotiate_scale pending_sequence_end final_ack handle_syn_received
three_way_handshake ck sk ci si t0 t1 t2 t3 hc hs =
    let client = active_connection ck ci t0 in
    let server = passive_connection sk client.0 offer si t1 in
    let (e, has) = active_connection-HasSyn ck ci t0 hc in
    let answer : IsSynAck client.1 server.0 = record {
      parsed = parsed_options-build_syn_ack_options _ refl refl refl;
      syn = refl;
      ack = refl;
      rst = refl;
      fin = refl;
      empty = refl;
      acknowledges = refl;
    } in
    let opened = complete_active_open client.1 server.0 offer t2 in
    let opens = handle_syn_sent-eq ck client.1 server.0 t2 answer in
    let facts = complete_active_open-eq client.1 e server.0 t2 has refl in
    let ack = final_ack ck opened in
    let server' = complete_passive_open server.1 ack t3 in
    let passive = complete_passive_open-eq server.1 _ ack t3 hs refl (ground arith) in
    (
      parsed_options-build_active_syn_options,
      rw opens refl,
      rw opens (ground (arith, facts)),
      rw opens facts.0,
      rw opens passive.0,
      rw opens (ground (arith, facts, passive)),
      rw opens (ground (arith, facts, passive)),
      rw opens facts.1,
      rw opens passive.1,
    )
