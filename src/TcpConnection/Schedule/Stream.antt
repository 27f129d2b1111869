-- ===== src/TcpConnection/Schedule/Stream.antt =====
-- The outgoing byte stream of a connection: the application bytes that are sent and not
-- acknowledged, and then those that wait. Scheduling moves bytes between the two and loses none.
use wirestack.Common.{ℕ, ◌+◌, ◌*◌, ◌≤◌, ◌<◌, ◌≡◌, refl, ap, ◌∙◌, sym}
use wirestack.Common.{true, false, List, [], ◌∷◌, ◌++◌, map, arith, length, take, drop}
use wirestack.Common.{take-append-drop, length-take, append_assoc, if◌then◌else◌}
use wirestack.Bytes.{u32}
use wirestack.Tcp.Segment.{TcpSegment}
use wirestack.TcpConnection.State.{Connection, PendingTransmission}
use wirestack.TcpConnection.Key.{TcpConnectionKey}
use wirestack.TcpConnection.Schedule.{
  is_application, is_empty, new_pending, sent_entry, bytes_to_send, schedule_data,
  maybe_sequence_fin, update_persist_state, schedule_queued_data, max_segments_per_send,
}
use wirestack.TcpConnection.Segments.{make_fin}
use wirestack.TcpConnection.Schedule.Chunks.{
  payloads, Contiguous, Sized, send_chunks-payloads, send_chunks-Contiguous, send_chunks-Sized,
}

-- The application payload of a queue.
abbrev pub queued_payload : List PendingTransmission → List ℕ
queued_payload [] = []
queued_payload (entry ∷ rest) =
    (if is_application entry then entry.payload else []) ++ queued_payload rest

abbrev pub outgoing : Connection → List ℕ
outgoing c = queued_payload c.pending ++ c.unsent

pub queued_payload-append :
    (p q : List PendingTransmission)
    → queued_payload (p ++ q) ≡ queued_payload p ++ queued_payload q
queued_payload-append [] q = refl
queued_payload-append (entry ∷ p) q =
    ap (λ t. (if is_application entry then entry.payload else []) ++ t) (queued_payload-append p q)
    ∙ sym (
        append_assoc (if is_application entry then entry.payload else []) (queued_payload p)
          (queued_payload q))

queued_payload-sent :
    (now : ℕ) (c : Connection) (segments : List TcpSegment)
    → queued_payload (map (sent_entry now c) segments) ≡ payloads segments
queued_payload-sent now c [] = refl
queued_payload-sent now c (segment ∷ segments) =
    ap (λ t. segment.payload ++ t) (queued_payload-sent now c segments)

bytes_to_send-bounds :
    (c : Connection)
    → (bytes_to_send c ≤ length c.unsent)
      × (bytes_to_send c ≤ max_segments_per_send * c.effective_send_mss)
unfolding bytes_to_send
bytes_to_send-bounds c = omega arith

-- One pass: its segments carry exactly the bytes that leave the queue, from the next sequence
-- number on without a gap, each with at least one byte and at most a segment's worth.
pub schedule_data-segments :
    (key : TcpConnectionKey) (c : Connection) (now : ℕ)
    → 0 < c.effective_send_mss
    → let (segments, sent) = schedule_data key c now in
      (payloads segments ++ sent.unsent ≡ c.unsent)
      × (u32 (c.snd_nxt + length (payloads segments)) ≡ sent.snd_nxt)
      × Contiguous c.snd_nxt segments
      × Sized c.effective_send_mss segments
unfolding schedule_data
schedule_data-segments key c now pos =
    let n = bytes_to_send c in
    let bounds = bytes_to_send-bounds c in
    let carried =
      send_chunks-payloads max_segments_per_send key c _ c.snd_nxt (take n c.unsent)
        (omega (arith, length-take n c.unsent)) in
    (
      ap (λ t. t ++ drop n c.unsent) carried ∙ take-append-drop n c.unsent,
      rw carried (omega (arith, length-take n c.unsent)),
      send_chunks-Contiguous max_segments_per_send key c _ c.snd_nxt (take n c.unsent),
      send_chunks-Sized max_segments_per_send key c _ c.snd_nxt (take n c.unsent) pos,
    )

schedule_data-outgoing :
    (key : TcpConnectionKey) (c : Connection) (now : ℕ)
    → 0 < c.effective_send_mss
    → outgoing (schedule_data key c now).1 ≡ outgoing c
unfolding schedule_data
schedule_data-outgoing key c now pos =
    let segments = (schedule_data key c now).0 in
    let n = bytes_to_send c in
    ap (λ t. t ++ drop n c.unsent)
      (queued_payload-append c.pending (map (sent_entry now c) segments)
        ∙ ap (λ t. queued_payload c.pending ++ t) (queued_payload-sent now c segments))
    ∙ append_assoc (queued_payload c.pending) (payloads segments) (drop n c.unsent)
    ∙ ap (λ t. queued_payload c.pending ++ t) (schedule_data-segments key c now pos).0

queued_payload-control :
    (p : List PendingTransmission) (entry : PendingTransmission)
    → is_application entry ≡ false
    → queued_payload (p ++ entry ∷ []) ≡ queued_payload p
queued_payload-control [] entry h = ground arith
queued_payload-control (e ∷ p) entry h =
    ap (λ t. (if is_application e then e.payload else []) ++ t) (queued_payload-control p entry h)

maybe_sequence_fin-outgoing :
    (key : TcpConnectionKey) (c : Connection) (now : ℕ)
    → outgoing (maybe_sequence_fin key c now).1 ≡ outgoing c
unfolding maybe_sequence_fin
maybe_sequence_fin-outgoing key c now =
    let fin : PendingTransmission = record (new_pending c.snd_nxt (make_fin key c).flags now c) {
      is_fin = true;
    } in
    ground (arith, queued_payload-control c.pending fin refl)

update_persist_state-outgoing :
    (c : Connection) (now : ℕ) → outgoing (update_persist_state c now) ≡ outgoing c
unfolding update_persist_state
update_persist_state-outgoing c now = ground arith

-- Scheduling, a deferred FIN and the persist timer included, keeps the outgoing stream as it is.
pub schedule_queued_data-outgoing :
    (key : TcpConnectionKey) (c : Connection) (now : ℕ)
    → 0 < c.effective_send_mss
    → outgoing (schedule_queued_data key c now).1 ≡ outgoing c
unfolding schedule_queued_data
schedule_queued_data-outgoing key c now pos =
    let sent = (schedule_data key c now).1 in
    let closed : List TcpSegment × Connection =
      if is_empty sent.unsent then maybe_sequence_fin key sent now else ([], sent) in
    update_persist_state-outgoing closed.1 now
    ∙ ground (arith, maybe_sequence_fin-outgoing key sent now, schedule_data-outgoing key c now pos)
