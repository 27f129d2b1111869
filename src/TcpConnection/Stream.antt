-- ===== src/TcpConnection/Stream.antt =====
-- The send side as a queue of bytes: what the application hands over is appended, and what the peer
-- acknowledges is taken off the front.
use wirestack.Common.{ℕ, ◌+◌, ◌^◌, ◌≤◌, ◌<◌, ◌≡◌, refl, ap, ◌∙◌, sym, ap₂}
use wirestack.Common.{Bool, true, false, List, [], ◌∷◌, ◌++◌, arith, length, take, drop, All, ◌&&◌}
use wirestack.Common.{
  take-append-drop, length-take, length-append, drop-append_left, append_assoc, if◌then◌else◌, inl,
  inr, Bool-cases, Option, some, none,
}
use wirestack.Bytes.{u32}
use wirestack.TcpConnection.Sequence.{sub32, sequence_greater, sequence_less_or_equal}
use wirestack.TcpConnection.State.{Connection, PendingTransmission, pending_sequence_end}
use wirestack.TcpConnection.Key.{TcpConnectionKey}
use wirestack.TcpConnection.Window.{record_rtt_sample, smooth_rtt}
use wirestack.TcpConnection.Retire.{
  Retired, sampled, retire_loop, trim_entry, mark_front, take_sample, sample_age,
  retire_acknowledged,
}
use wirestack.TcpConnection.Schedule.{
  is_application, schedule_queued_data, pending_bytes, app_owned_bytes,
}
use wirestack.TcpConnection.Schedule.Stream.{
  queued_payload, outgoing, schedule_queued_data-outgoing,
}
use wirestack.TcpConnection.Api.{TcpSendError, enqueue, tcp_send_buffer_capacity}

-- What the field types and the functions that append to the queue give of an entry.
pub record IsEntry (e : PendingTransmission) : Type 0 where
  pub start_fits : e.sequence_start < 2 ^ 32
  pub short : length e.payload < 2 ^ 30
  pub control_empty : is_application e ≡ false → e.payload ≡ []
  pub one_control : e.is_syn && e.is_fin ≡ false

-- An entry that is acknowledged in part is application data and holds all that is acknowledged.
trimmed_within :
    (ack : ℕ) (e : PendingTransmission)
    → ack < 2 ^ 32
    → IsEntry e
    → sequence_less_or_equal (pending_sequence_end e) ack ≡ false
    → sequence_greater ack e.sequence_start ≡ true
    → (sub32 ack e.sequence_start ≤ length e.payload) × (is_application e ≡ true)
unfolding sequence_less_or_equal sequence_greater pending_sequence_end
trimmed_within ack e h v p q = elim (Bool-cases (is_application e)) [
  | inl app ↦ ground arith
  | inr control ↦ ground (arith, ap length (v.control_empty control))
]

own_payload :
    (e : PendingTransmission) → IsEntry e → (if is_application e then e.payload else []) ≡ e.payload
own_payload e v = elim (Bool-cases (is_application e)) [
  | inl app ↦ rw app
  | inr control ↦ rw control (sym (v.control_empty control))
]

-- The loop takes a prefix off the queue's payload, and counts it.
Takes : ℕ → Retired → List PendingTransmission → Type 0
Takes bytes r queue =
    (acked : List ℕ) × (queued_payload queue ≡ acked ++ queued_payload r.pending)
    × (r.data_bytes ≡ u32 (bytes + length acked))

retire_loop-Takes :
    (ack bytes : ℕ) (sample : Option ℕ) (queue : List PendingTransmission)
    → ack < 2 ^ 32
    → bytes < 2 ^ 32
    → All IsEntry queue
    → Takes bytes (retire_loop ack bytes sample queue) queue
unfolding retire_loop Takes trim_entry
retire_loop-Takes ack bytes sample [] h b v = ([], refl, omega arith)
retire_loop-Takes ack bytes sample (e ∷ rest) h b v =
    let own = own_payload e v.0 in
    let front = λ (t : List ℕ). t ++ queued_payload rest in
    elim (Bool-cases (sequence_less_or_equal (pending_sequence_end e) ack)) [
      | inl full ↦
          let (acked, split, count) =
            retire_loop-Takes ack (u32 (bytes + length e.payload)) (sampled e sample) rest h
              (omega arith) v.1 in
          rw full (
            e.payload ++ acked,
            ap front own ∙ ap (λ t. e.payload ++ t) split ∙ sym (append_assoc e.payload acked _),
            omega (arith, count, length-append e.payload acked),
          )
      | inr more ↦ rw more (elim (Bool-cases (sequence_greater ack e.sequence_start)) [
        | inl part ↦
            let n = sub32 ack e.sequence_start in
            let within = trimmed_within ack e h v.0 more part in
            rw (part, within.1)
              (
                take n e.payload,
                ap front (sym (take-append-drop n e.payload))
                    ∙ append_assoc (take n e.payload) (drop n e.payload) (queued_payload rest),
                omega (arith, length-take n e.payload, within.0),
              )
        | inr none_of_it ↦ rw none_of_it ([], refl, omega arith)
      ])
    ]

mark_front-payload :
    (survives : Bool) (queue : List PendingTransmission)
    → queued_payload (mark_front survives queue) ≡ queued_payload queue
unfolding mark_front
mark_front-payload survives [] = refl
mark_front-payload false (e ∷ rest) = refl
mark_front-payload true (e ∷ rest) = refl

record_rtt_sample-outgoing :
    (c : Connection) (r : ℕ)
    → ((record_rtt_sample c r).pending ≡ c.pending) × ((record_rtt_sample c r).unsent ≡ c.unsent)
unfolding record_rtt_sample smooth_rtt
record_rtt_sample-outgoing c r = ground arith

take_sample-outgoing :
    (age : Option ℕ) (survives : Bool) (c : Connection)
    → outgoing (take_sample age survives c) ≡ outgoing c
unfolding take_sample
take_sample-outgoing none survives c = refl
take_sample-outgoing (some age) survives c =
    let same = record_rtt_sample-outgoing c age in
    ap₂ ◌++◌
      (mark_front-payload survives (record_rtt_sample c age).pending ∙ ap queued_payload same.0)
      same.1

retire_acknowledged-takes :
    (c : Connection) (ack now : ℕ)
    → ack < 2 ^ 32
    → All IsEntry c.pending
    → let (result, retired) = retire_acknowledged c ack now in
      (acked : List ℕ) × (outgoing c ≡ acked ++ outgoing retired)
      × (result.newly_acked_data_bytes ≡ u32 (length acked))
unfolding retire_acknowledged Takes
retire_acknowledged-takes c ack now h v =
    let retired = retire_loop ack 0 none c.pending in
    let age = sample_age now retired.sample_first_sent in
    let advanced : Connection = record c { snd_una = ack; pending = retired.pending } in
    let (acked, split, count) = retire_loop-Takes ack 0 none c.pending h (omega arith) v in
    elim (Bool-cases (sequence_greater ack c.snd_una)) [
      | inr stale ↦ rw stale ([], refl, refl)
      | inl newer ↦ rw newer (
        acked,
        ap (λ t. t ++ c.unsent) split
            ∙ append_assoc acked (queued_payload retired.pending) c.unsent
            ∙ ap (λ t. acked ++ t)
                (sym (take_sample-outgoing age retired.sample_survives advanced)),
        omega (arith, count),
      )
    ]

-- An acknowledgment takes off the front of the outgoing stream as many bytes as it reports, never
-- more than there are, and leaves the rest in order.
pub retire_acknowledged-outgoing :
    (c : Connection) (ack now : ℕ)
    → ack < 2 ^ 32
    → All IsEntry c.pending
    → length (outgoing c) < 2 ^ 32
    → let (result, retired) = retire_acknowledged c ack now in
      (outgoing retired ≡ drop result.newly_acked_data_bytes (outgoing c))
      × (result.newly_acked_data_bytes ≤ length (outgoing c))
retire_acknowledged-outgoing c ack now h v small =
    let (acked, split, count) = retire_acknowledged-takes c ack now h v in
    let rest = outgoing (retire_acknowledged c ack now).1 in
    let sizes : length (outgoing c) ≡ length acked + length rest =
      ap length split ∙ length-append acked rest in
    let exact : (retire_acknowledged c ack now).0.newly_acked_data_bytes ≡ length acked =
      omega (arith, count, sizes) in
    (
      sym (ap₂ drop exact split ∙ drop-append_left (length acked) acked rest refl),
      omega (arith, exact, sizes),
    )

pending_bytes-payload :
    (queue : List PendingTransmission) → pending_bytes queue ≡ length (queued_payload queue)
unfolding pending_bytes
pending_bytes-payload [] = refl
pending_bytes-payload (e ∷ rest) = elim (Bool-cases (is_application e)) [
  | inl app ↦
      rw app
        (omega (arith, pending_bytes-payload rest, length-append e.payload (queued_payload rest)))
  | inr control ↦ rw control (omega (arith, pending_bytes-payload rest))
]

-- The bytes that the send buffer is charged for are those of the outgoing stream.
pub app_owned_bytes-outgoing : (c : Connection) → app_owned_bytes c ≡ length (outgoing c)
unfolding app_owned_bytes
app_owned_bytes-outgoing c =
    omega
      (arith, pending_bytes-payload c.pending, length-append (queued_payload c.pending) c.unsent)

-- A payload of at least one byte that is accepted is appended to the outgoing stream, which stays within the send buffer's
-- capacity; with an error nothing changes.
pub enqueue-outgoing :
    (key : TcpConnectionKey) (c : Connection) (payload : List ℕ) (now : ℕ)
    → 0 < c.effective_send_mss
    → 0 < length payload
    → let (result, sent) = enqueue key c payload now in
      (result.error ≡ none
        → (outgoing sent ≡ outgoing c ++ payload)
          × (length (outgoing sent) ≤ tcp_send_buffer_capacity)
          × (result.bytes_accepted ≡ length payload))
      × ((e : TcpSendError) → result.error ≡ some e → sent ≡ c)
unfolding enqueue
enqueue-outgoing key c payload now pos some_bytes =
    let queued : Connection = record c { unsent = c.unsent ++ payload } in
    let whole : outgoing (schedule_queued_data key queued now).1 ≡ outgoing c ++ payload =
      schedule_queued_data-outgoing key queued now pos
      ∙ sym (append_assoc (queued_payload c.pending) c.unsent payload) in
    let size : length (outgoing c ++ payload) ≡ app_owned_bytes c + length payload =
      omega (arith, length-append (outgoing c) payload, app_owned_bytes-outgoing c) in
    ((λ accepted. ground (arith, whole, size, ap length whole)), (λ e failed. ground arith))
