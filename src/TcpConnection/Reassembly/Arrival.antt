-- ===== src/TcpConnection/Reassembly/Arrival.antt =====
-- `insertReassemblyFragment` on the bytes of the buffer: what has arrived stays, and a segment adds
-- its bytes where nothing has arrived.
use wirestack.Common.{ℕ, ◌+◌, ◌-◌, ◌^◌, ◌≤◌, ◌<◌, ◌≡◌, refl, ap}
use wirestack.Common.{Bool, true, false, List, [], ◌∷◌, ◌++◌, arith, length, take, drop}
use wirestack.Common.{
  if◌then◌else◌, inl, inr, Bool-cases, leb, ltb, ◌==◌, All, All-append, length-take, length-append,
}
use wirestack.Bytes.{u32}
use wirestack.TcpConnection.Sequence.{sub32}
use wirestack.TcpConnection.State.{Connection, TcpReassemblyFragment}
use wirestack.TcpConnection.Sack.{sort, insert_sorted, fragment_sequence_end}
use wirestack.TcpConnection.Reassembly.{
  max_reassembly_fragments, push_gaps, subtract_fragments, coalesce_from, coalesce,
  earlier_fragment, insert_reassembly_fragment,
}
use wirestack.TcpConnection.Reassembly.Hold.{
  byte_held, held_at, in_range, covered, Fits, gaps_at, IsWithin, byte_held-append, byte_held-piece,
  byte_held-before, byte_held-after, held_at-append, gaps_at-subtract_fragments,
  subtract_fragments-IsWithin,
}

piece_of : ℕ → ℕ → List ℕ → ℕ × ℕ → TcpReassemblyFragment
piece_of base start payload (s, e) = record {
  sequence_start = u32 (base + s);
  payload = take (e - s) (drop (s - start) payload);
}

piece_of-at :
    (f : ℕ → ℕ) (base o start s e : ℕ) (payload : List ℕ)
    → base < 2 ^ 32
    → start + length payload < 2 ^ 32
    → IsWithin start (start + length payload) (s, e)
    → s ≤ e
    → Fits base (piece_of base start payload (s, e))
      × (held_at f base o (piece_of base start payload (s, e) ∷ [])
          ≡ (if in_range o s e then byte_held f o start payload else 0))
unfolding piece_of IsWithin Fits held_at
piece_of-at f base o start s e payload hb hp h k =
    let piece = take (e - s) (drop (s - start) payload) in
    let place : sub32 (u32 (base + s)) base ≡ s = ground arith in
    let short : length piece ≤ e - s =
      omega (arith, length-take (e - s) (drop (s - start) payload)) in
    let there : byte_held f o (sub32 (u32 (base + s)) base) piece ≡ byte_held f o s piece =
      ap (λ n. byte_held f o n piece) place in
    (ground arith, ground (arith, byte_held-piece f o start s e payload h.0 k h.1))

-- Every gap over the offset adds the segment's byte, while there is room for the pieces.
push_gaps-held_at :
    (f : ℕ → ℕ) (base o start : ℕ) (payload : List ℕ) (gaps : List (ℕ × ℕ))
    (fragments : List TcpReassemblyFragment)
    → base < 2 ^ 32
    → start + length payload < 2 ^ 32
    → All (IsWithin start (start + length payload)) gaps
    → All (Fits base) fragments
    → length fragments + length gaps ≤ max_reassembly_fragments
    → All (Fits base) (push_gaps base start payload gaps fragments)
      × (held_at f base o (push_gaps base start payload gaps fragments)
          ≡ held_at f base o fragments + gaps_at (byte_held f o start payload) o gaps)
unfolding push_gaps gaps_at piece_of
push_gaps-held_at f base o start payload [] fragments hb hp h fits room = (fits, omega arith)
push_gaps-held_at f base o start payload ((s, e) ∷ gaps) fragments hb hp h fits room =
    let piece = piece_of base start payload (s, e) in
    elim (Bool-cases (leb e s)) [
      | inl empty ↦
          let rest =
            push_gaps-held_at f base o start payload gaps fragments hb hp h.1 fits (omega arith) in
          rw empty (rest.0, ground (arith, rest.1))
      | inr some_bytes ↦
          let one = piece_of-at f base o start s e payload hb hp h.0 (ground arith) in
          let more : List TcpReassemblyFragment = fragments ++ piece ∷ [] in
          let room_left : leb max_reassembly_fragments (length fragments) ≡ false = ground arith in
          let count = length-append fragments (piece ∷ []) in
          let all_fit = All-append (Fits base) fragments (piece ∷ []) fits (one.0, tt) in
          let rest =
            push_gaps-held_at f base o start payload gaps more hb hp h.1 all_fit (omega arith) in
          rw (some_bytes, room_left)
            (rest.0, ground (arith, rest.1, held_at-append f base o fragments (piece ∷ []), one.1))
    ]

module _ (less : TcpReassemblyFragment → TcpReassemblyFragment → Bool) where
  insert_sorted-held_at :
      (f : ℕ → ℕ) (base o : ℕ) (x : TcpReassemblyFragment) (xs : List TcpReassemblyFragment)
      → Fits base x
      → All (Fits base) xs
      → All (Fits base) (insert_sorted less x xs)
        × (held_at f base o (insert_sorted less x xs) ≡ held_at f base o (x ∷ xs))
  unfolding insert_sorted held_at
  insert_sorted-held_at f base o x [] p q = ((p, tt), refl)
  insert_sorted-held_at f base o x (y ∷ ys) p q =
      let rest = insert_sorted-held_at f base o x ys p q.1 in
      elim (Bool-cases (less y x)) [
        | inl later ↦ rw later ((q.0, rest.0), omega (arith, rest.1))
        | inr first ↦ rw first ((p, q), refl)
      ]

  sort-held_at :
      (f : ℕ → ℕ) (base o : ℕ) (xs : List TcpReassemblyFragment)
      → All (Fits base) xs
      → All (Fits base) (sort less xs) × (held_at f base o (sort less xs) ≡ held_at f base o xs)
  unfolding sort held_at
  sort-held_at f base o [] h = (tt, refl)
  sort-held_at f base o (x ∷ xs) h =
      let rest = sort-held_at f base o xs h.1 in
      let one = insert_sorted-held_at f base o x (sort less xs) h.0 rest.0 in
      (one.0, omega (arith, one.1, rest.1))

-- Joining two fragments that touch keeps every byte where it is.
joined-held_at :
    (f : ℕ → ℕ) (base o : ℕ) (a b : TcpReassemblyFragment)
    → base < 2 ^ 32
    → Fits base a
    → Fits base b
    → (fragment_sequence_end a == b.sequence_start) ≡ true
    → let joined : TcpReassemblyFragment = record a { payload = a.payload ++ b.payload } in
      Fits base joined
      × (held_at f base o (joined ∷ []) ≡ held_at f base o (a ∷ []) + held_at f base o (b ∷ []))
unfolding held_at Fits fragment_sequence_end
joined-held_at f base o a b hb p q e =
    let start = sub32 a.sequence_start base in
    let place : sub32 b.sequence_start base ≡ start + length a.payload = ground arith in
    let there = ap (λ n. byte_held f o n b.payload) place in
    (
      ground (arith, length-append a.payload b.payload),
      ground (arith, byte_held-append f o start a.payload b.payload, there),
    )

coalesce_from-held_at :
    (f : ℕ → ℕ) (base o : ℕ) (last : TcpReassemblyFragment) (fragments : List TcpReassemblyFragment)
    → base < 2 ^ 32
    → Fits base last
    → All (Fits base) fragments
    → held_at f base o (coalesce_from last fragments) ≡ held_at f base o (last ∷ fragments)
unfolding coalesce_from held_at
coalesce_from-held_at f base o last [] hb p q = refl
coalesce_from-held_at f base o last (fragment ∷ fragments) hb p q =
    let joined : TcpReassemblyFragment = record last {
      payload = last.payload ++ fragment.payload;
    } in
    elim (Bool-cases (fragment_sequence_end last == fragment.sequence_start)) [
      | inl touch ↦
          let (fits, same) = joined-held_at f base o last fragment hb p q.0 touch in
          rw touch
            (omega (arith, coalesce_from-held_at f base o joined fragments hb fits q.1, same))
      | inr apart ↦
          rw apart (omega (arith, coalesce_from-held_at f base o fragment fragments hb q.0 q.1))
    ]

coalesce-held_at :
    (f : ℕ → ℕ) (base o : ℕ) (fragments : List TcpReassemblyFragment)
    → base < 2 ^ 32
    → All (Fits base) fragments
    → held_at f base o (coalesce fragments) ≡ held_at f base o fragments
unfolding coalesce
coalesce-held_at f base o [] hb h = refl
coalesce-held_at f base o (fragment ∷ fragments) hb h =
    coalesce_from-held_at f base o fragment fragments hb h.0 h.1

-- Outside its range a segment has no byte to add.
gap-of_segment :
    (f : ℕ → ℕ) (o start end : ℕ) (payload : List ℕ)
    → end ≡ start + length payload
    → gaps_at (byte_held f o start payload) o ((start, end) ∷ []) ≡ byte_held f o start payload
unfolding gaps_at
gap-of_segment f o start end payload h = elim (Bool-cases (leb start o)) [
  | inr early ↦ ground (arith, byte_held-before f o start payload (ground arith))
  | inl from ↦ elim (Bool-cases (ltb o end)) [
    | inl inside ↦ ground arith
    | inr late ↦ ground (arith, byte_held-after f o start payload (ground arith))
  ]
]

-- In a buffer whose fragments do not wrap around, with room for the gaps that a segment fills: at
-- every offset from the next expected number, the buffer afterwards holds what it held, and the
-- segment's own byte exactly where no buffered fragment covered the offset. (`f` is any measure of
-- a byte: 1 counts the bytes that are held at the offset, the identity gives their value.)
pub first_arrival_wins :
    (f : ℕ → ℕ) (c : Connection) (sequence_start o : ℕ) (payload : List ℕ)
    → let start = sub32 sequence_start c.rcv_nxt in
      let gaps =
        subtract_fragments c.rcv_nxt c.out_of_order ((start, u32 (start + length payload)) ∷ []) in
      c.rcv_nxt < 2 ^ 32
      → start + length payload < 2 ^ 32
      → All (Fits c.rcv_nxt) c.out_of_order
      → length c.out_of_order + length gaps ≤ max_reassembly_fragments
      → held_at f c.rcv_nxt o (insert_reassembly_fragment c sequence_start payload).out_of_order
        ≡ held_at f c.rcv_nxt o c.out_of_order
          + (if covered c.rcv_nxt o c.out_of_order then 0 else byte_held f o start payload)
unfolding insert_reassembly_fragment IsWithin
first_arrival_wins f c sequence_start o payload hb hp fits room =
    let base = c.rcv_nxt in
    let start = sub32 sequence_start base in
    let end = u32 (start + length payload) in
    let whole : List (ℕ × ℕ) = (start, end) ∷ [] in
    let gaps = subtract_fragments base c.out_of_order whole in
    let exact : end ≡ start + length payload = omega arith in
    let within =
      subtract_fragments-IsWithin start (start + length payload) base c.out_of_order whole
        (omega arith, tt) in
    let pushed =
      push_gaps-held_at f base o start payload gaps c.out_of_order hb hp within fits room in
    let sorted =
      sort-held_at (earlier_fragment base) f base o
        (push_gaps base start payload gaps c.out_of_order) pushed.0 in
    let left =
      gaps_at-subtract_fragments (byte_held f o start payload) base o c.out_of_order whole fits in
    let joined =
      coalesce-held_at f base o
        (sort (earlier_fragment base) (push_gaps base start payload gaps c.out_of_order)) hb
        sorted.0 in
    let whole_at = gap-of_segment f o start end payload exact in
    elim (Bool-cases (covered base o c.out_of_order)) [
      | inl known ↦ ground (arith, joined, sorted.1, pushed.1, left)
      | inr new ↦ ground (arith, joined, sorted.1, pushed.1, left, whole_at)
    ]
