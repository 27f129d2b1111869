-- ===== src/TcpConnection/Reassembly/Bound.antt =====
-- The number of fragments that are buffered.
use wirestack.Common.{ℕ, ◌+◌, ◌≤◌, ◌≡◌, refl, List, [], ◌∷◌, ◌++◌, arith, length, take, drop, ◌-◌}
use wirestack.Common.{Bool, inl, inr, Bool-cases, leb, ◌==◌, length-append}
use wirestack.Bytes.{u32}
use wirestack.TcpConnection.Sequence.{sub32}
use wirestack.TcpConnection.State.{Connection, TcpReassemblyFragment}
use wirestack.TcpConnection.Sack.{sort, insert_sorted, fragment_sequence_end}
use wirestack.TcpConnection.Reassembly.{
  max_reassembly_fragments, push_gaps, subtract_fragments, coalesce_from, coalesce,
  earlier_fragment, insert_reassembly_fragment,
}

length-push_gaps :
    (base start : ℕ) (payload : List ℕ) (gaps : List (ℕ × ℕ))
    (fragments : List TcpReassemblyFragment)
    → length fragments ≤ max_reassembly_fragments
    → length (push_gaps base start payload gaps fragments) ≤ max_reassembly_fragments
unfolding push_gaps
length-push_gaps base start payload [] fragments h = h
length-push_gaps base start payload ((s, e) ∷ gaps) fragments h =
    let piece : TcpReassemblyFragment = record {
      sequence_start = u32 (base + s);
      payload = take (e - s) (drop (s - start) payload);
    } in
    elim (Bool-cases (leb e s)) [
      | inl empty ↦ rw empty (length-push_gaps base start payload gaps fragments h)
      | inr some_bytes ↦ elim (Bool-cases (leb max_reassembly_fragments (length fragments))) [
        | inl full ↦ rw (some_bytes, full) h
        | inr room ↦
            let count = length-append fragments (piece ∷ []) in
            rw (some_bytes, room)
              (length-push_gaps base start payload gaps (fragments ++ piece ∷ []) (ground arith))
      ]
    ]

module _ (less : TcpReassemblyFragment → TcpReassemblyFragment → Bool) where
  length-insert_sorted :
      (x : TcpReassemblyFragment) (xs : List TcpReassemblyFragment)
      → length (insert_sorted less x xs) ≡ length xs + 1
  unfolding insert_sorted
  length-insert_sorted x [] = omega arith
  length-insert_sorted x (y ∷ ys) = ground (arith, length-insert_sorted x ys)

  length-sort : (xs : List TcpReassemblyFragment) → length (sort less xs) ≡ length xs
  unfolding sort
  length-sort [] = refl
  length-sort (x ∷ xs) = omega (arith, length-sort xs, length-insert_sorted x (sort less xs))

length-coalesce_from :
    (last : TcpReassemblyFragment) (fragments : List TcpReassemblyFragment)
    → length (coalesce_from last fragments) ≤ length fragments + 1
unfolding coalesce_from
length-coalesce_from last [] = omega arith
length-coalesce_from last (fragment ∷ fragments) =
    let joined : TcpReassemblyFragment = record last {
      payload = last.payload ++ fragment.payload;
    } in
    elim (Bool-cases (fragment_sequence_end last == fragment.sequence_start)) [
      | inl touch ↦ rw touch (omega (arith, length-coalesce_from joined fragments))
      | inr apart ↦ rw apart (omega (arith, length-coalesce_from fragment fragments))
    ]

length-coalesce :
    (fragments : List TcpReassemblyFragment) → length (coalesce fragments) ≤ length fragments
unfolding coalesce
length-coalesce [] = omega arith
length-coalesce (fragment ∷ fragments) = omega (arith, length-coalesce_from fragment fragments)

-- A buffer of at most kMaxReassemblyFragments fragments has at most that many after any segment,
-- also one that touches many gaps at once.
pub insert_reassembly_fragment-bounded :
    (c : Connection) (sequence_start : ℕ) (payload : List ℕ)
    → length c.out_of_order ≤ max_reassembly_fragments
    → length (insert_reassembly_fragment c sequence_start payload).out_of_order
      ≤ max_reassembly_fragments
unfolding insert_reassembly_fragment
insert_reassembly_fragment-bounded c sequence_start payload h =
    let base = c.rcv_nxt in
    let start = sub32 sequence_start base in
    let gaps =
      subtract_fragments base c.out_of_order ((start, u32 (start + length payload)) ∷ []) in
    let pushed = push_gaps base start payload gaps c.out_of_order in
    omega (
      arith,
      length-push_gaps base start payload gaps c.out_of_order h,
      length-sort (earlier_fragment base) pushed,
      length-coalesce (sort (earlier_fragment base) pushed),
    )
