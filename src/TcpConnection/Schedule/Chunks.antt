-- ===== src/TcpConnection/Schedule/Chunks.antt =====
-- The segments of one scheduling pass: they carry the queued bytes in order, contiguously.
use wirestack.Common.{ℕ, zero, suc, ◌+◌, ◌*◌, ◌≤◌, ◌<◌, ◌≡◌, refl, ap, ◌∙◌}
use wirestack.Common.{Bool, List, [], ◌∷◌, ◌++◌, arith, length, take, drop}
use wirestack.Common.{take-append-drop, length-take, length-drop}
use wirestack.Bytes.{u32}
use wirestack.Tcp.Segment.{TcpSegment}
use wirestack.TcpConnection.State.{Connection}
use wirestack.TcpConnection.Key.{TcpConnectionKey}
use wirestack.TcpConnection.Schedule.{send_chunks}

-- The payloads of segments, one after another.
abbrev pub payloads : List TcpSegment → List ℕ
payloads [] = []
payloads (segment ∷ segments) = segment.payload ++ payloads segments

-- Each starts where the one before ends.
abbrev pub Contiguous : ℕ → List TcpSegment → Type 0
Contiguous seq [] = Unit
Contiguous seq (segment ∷ segments) =
    (segment.sequence_number ≡ seq) × Contiguous (u32 (seq + length segment.payload)) segments

-- Each has between one byte and `mss` bytes.
abbrev pub Sized : ℕ → List TcpSegment → Type 0
Sized mss [] = Unit
Sized mss (segment ∷ segments) =
    (0 < length segment.payload) × (length segment.payload ≤ mss) × Sized mss segments

pub send_chunks-payloads :
    (fuel : ℕ) (key : TcpConnectionKey) (c : Connection) (draining : Bool) (seq : ℕ)
    (queued : List ℕ)
    → length queued ≤ fuel * c.effective_send_mss
    → payloads (send_chunks fuel key c draining seq queued) ≡ queued
unfolding send_chunks
send_chunks-payloads zero key c draining seq [] h = refl
send_chunks-payloads zero key c draining seq (b ∷ bs) h = absurd (omega arith)
send_chunks-payloads (suc fuel) key c draining seq [] h = refl
send_chunks-payloads (suc fuel) key c draining seq (b ∷ bs) h =
    let mss = c.effective_send_mss in
    let rest = drop mss (b ∷ bs) in
    ap (λ t. take mss (b ∷ bs) ++ t)
      (send_chunks-payloads fuel key c draining (u32 (seq + length (take mss (b ∷ bs)))) rest
        (omega (arith, length-drop mss (b ∷ bs))))
    ∙ take-append-drop mss (b ∷ bs)

pub send_chunks-Contiguous :
    (fuel : ℕ) (key : TcpConnectionKey) (c : Connection) (draining : Bool) (seq : ℕ)
    (queued : List ℕ)
    → Contiguous seq (send_chunks fuel key c draining seq queued)
unfolding send_chunks
send_chunks-Contiguous zero key c draining seq queued = tt
send_chunks-Contiguous (suc fuel) key c draining seq [] = tt
send_chunks-Contiguous (suc fuel) key c draining seq (b ∷ bs) =
    (refl, send_chunks-Contiguous fuel key c draining _ _)

pub send_chunks-Sized :
    (fuel : ℕ) (key : TcpConnectionKey) (c : Connection) (draining : Bool) (seq : ℕ)
    (queued : List ℕ)
    → 0 < c.effective_send_mss
    → Sized c.effective_send_mss (send_chunks fuel key c draining seq queued)
unfolding send_chunks
send_chunks-Sized zero key c draining seq queued h = tt
send_chunks-Sized (suc fuel) key c draining seq [] h = tt
send_chunks-Sized (suc fuel) key c draining seq (b ∷ bs) h =
    let mss = c.effective_send_mss in
    (
      omega (arith, length-take mss (b ∷ bs)),
      omega (arith, length-take mss (b ∷ bs)),
      send_chunks-Sized fuel key c draining _ _ h,
    )
