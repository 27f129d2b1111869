-- ===== src/TcpConnection/Reassembly/Release.antt =====
-- `releaseContiguous`.
use wirestack.Common.{ℕ, ◌+◌, ◌^◌, ◌<◌, ◌≡◌, ◌≢◌, false, refl, ap}
use wirestack.Common.{List, [], ◌∷◌, ◌++◌, arith, length, length-append}
use wirestack.Common.{inl, inr, Bool-cases, ◌==◌}
use wirestack.Bytes.{u32}
use wirestack.TcpConnection.State.{Connection, TcpReassemblyFragment}
use wirestack.TcpConnection.Reassembly.{Released, release_loop, release_contiguous}

-- The bytes of the buffer in its order.
unfoldable pub buffered : List TcpReassemblyFragment → List ℕ
buffered [] = []
buffered (fragment ∷ fragments) = fragment.payload ++ buffered fragments

-- Fragments of which each starts at the number that those before it lead to.
unfoldable pub Chained : ℕ → List TcpReassemblyFragment → Type 0
Chained next [] = Unit {0}
Chained next (fragment ∷ fragments) =
    (fragment.sequence_start ≡ next) × Chained (u32 (next + length fragment.payload)) fragments

-- The first fragment, if there is one, starts elsewhere.
unfoldable pub IsGap : ℕ → List TcpReassemblyFragment → Type 0
IsGap next [] = Unit {0}
IsGap next (fragment ∷ fragments) = fragment.sequence_start ≢ next

release_loop-taken :
    (next : ℕ) (fragments : List TcpReassemblyFragment)
    → u32 next ≡ next
    → let released = release_loop next fragments in
      (taken : List TcpReassemblyFragment) × (fragments ≡ taken ++ released.fragments)
      × Chained next taken
      × (released.bytes ≡ buffered taken)
      × IsGap released.next released.fragments
      × (released.next ≡ u32 (next + length released.bytes))
unfolding release_loop buffered Chained IsGap
release_loop-taken next [] h = ([], refl, tt, refl, tt, ground arith)
release_loop-taken next (fragment ∷ fragments) h =
    let after = u32 (next + length fragment.payload) in
    let rest = release_loop after fragments in
    let (taken, split, chained, read, gap, advance) =
      release_loop-taken after fragments (ground arith) in
    elim (Bool-cases (fragment.sequence_start == next)) [
      | inl due ↦ rw due (
        fragment ∷ taken,
        ap (λ fs. fragment ∷ fs) split,
        (ground arith, chained),
        ap (λ b. fragment.payload ++ b) read,
        gap,
        ground (arith, advance, length-append fragment.payload rest.bytes),
      )
      | inr apart ↦ rw apart ([], refl, tt, refl, ground arith, ground arith)
    ]

release_loop-gap :
    (next : ℕ) (fragments : List TcpReassemblyFragment)
    → IsGap next fragments
    → release_loop next fragments ≡ record { bytes = []; next = next; fragments = fragments }
unfolding release_loop IsGap
release_loop-gap next [] h = refl
release_loop-gap next (fragment ∷ fragments) h =
    let apart : (fragment.sequence_start == next) ≡ false = ground arith in rw apart refl

-- The fragments that are released are the first ones of the buffer. The first of them starts at the
-- next expected number and each further one where the one before ends; their bytes are what is
-- released; the next expected number moves by as many, modulo 2^32; and the first fragment that
-- stays starts at another number than the one expected then, so that releasing again releases
-- nothing and changes nothing.
pub release_contiguous-all :
    (c : Connection)
    → c.rcv_nxt < 2 ^ 32
    → let (bytes, after) = release_contiguous c in
      (taken : List TcpReassemblyFragment) × (c.out_of_order ≡ taken ++ after.out_of_order)
      × Chained c.rcv_nxt taken
      × (bytes ≡ buffered taken)
      × IsGap after.rcv_nxt after.out_of_order
      × (after.rcv_nxt ≡ u32 (c.rcv_nxt + length bytes))
      × (release_contiguous after ≡ ([], after))
unfolding release_contiguous
release_contiguous-all c h =
    let (taken, split, chained, read, gap, advance) =
      release_loop-taken c.rcv_nxt c.out_of_order (omega arith) in
    let released = release_loop c.rcv_nxt c.out_of_order in
    let as_result : Released → List ℕ × Connection =
      λ r. (r.bytes, record c { rcv_nxt = r.next; out_of_order = r.fragments }) in
    (
      taken,
      split,
      chained,
      read,
      gap,
      advance,
      ap as_result (release_loop-gap released.next released.fragments gap),
    )
