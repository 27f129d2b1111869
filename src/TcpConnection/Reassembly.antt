-- ===== src/TcpConnection/Reassembly.antt =====
-- The out-of-order receive buffer: `insertReassemblyFragment` and `releaseContiguous`.
pub mod Hold
pub mod Arrival
pub mod Release
pub mod Bound
use wirestack.Common.{ℕ, ◌+◌, ◌-◌, Bool, ◌||◌, List, [], ◌∷◌, ◌++◌}
use wirestack.Common.{if◌then◌else◌, ltb, leb, ◌==◌, length, take, drop}
use wirestack.Bytes.{u32}
use wirestack.TcpConnection.Sequence.{sub32}
use wirestack.TcpConnection.State.{Connection, TcpReassemblyFragment}
use wirestack.TcpConnection.Sack.{sort, fragment_sequence_end}

abbrev pub max_reassembly_fragments : ℕ
max_reassembly_fragments = 128

-- What a fragment from `f_start` to `f_end` leaves of the gap from `s` to `e`.
unfoldable pub split_gap : ℕ → ℕ → ℕ → ℕ → List (ℕ × ℕ)
split_gap f_start f_end s e =
    let before = if ltb s f_start then (s, f_start) ∷ [] else [] in
    let after = if ltb f_end e then (f_end, e) ∷ [] else [] in
    if leb f_end s || leb e f_start then (s, e) ∷ [] else before ++ after

unfoldable pub split_gaps : ℕ → ℕ → List (ℕ × ℕ) → List (ℕ × ℕ)
split_gaps f_start f_end [] = []
split_gaps f_start f_end ((s, e) ∷ gaps) =
    split_gap f_start f_end s e ++ split_gaps f_start f_end gaps

-- The loop over the fragments that are buffered.
unfoldable pub subtract_fragments : ℕ → List TcpReassemblyFragment → List (ℕ × ℕ) → List (ℕ × ℕ)
subtract_fragments base [] gaps = gaps
subtract_fragments base (fragment ∷ fragments) gaps =
    let f_start = sub32 fragment.sequence_start base in
    let f_end = u32 (f_start + length fragment.payload) in
    subtract_fragments base fragments (split_gaps f_start f_end gaps)

-- The loop over the gaps that are left: each becomes a fragment while there is room.
unfoldable pub push_gaps :
    ℕ → ℕ → List ℕ → List (ℕ × ℕ) → List TcpReassemblyFragment → List TcpReassemblyFragment
push_gaps base new_start payload [] fragments = fragments
push_gaps base new_start payload ((s, e) ∷ gaps) fragments =
    let piece : TcpReassemblyFragment = record {
      sequence_start = u32 (base + s);
      payload = take (e - s) (drop (s - new_start) payload);
    } in
    let skipped = push_gaps base new_start payload gaps fragments in
    let pushed = push_gaps base new_start payload gaps (fragments ++ piece ∷ []) in
    if leb e s
    then skipped
    else if leb max_reassembly_fragments (length fragments)
    then fragments
    else pushed

-- The coalescing loop, from the fragment that is last in `merged`.
unfoldable pub coalesce_from :
    TcpReassemblyFragment → List TcpReassemblyFragment → List TcpReassemblyFragment
coalesce_from last [] = last ∷ []
coalesce_from last (fragment ∷ fragments) =
    let joined =
      coalesce_from (record last { payload = last.payload ++ fragment.payload }) fragments in
    let apart = coalesce_from fragment fragments in
    if fragment_sequence_end last == fragment.sequence_start then joined else last ∷ apart

unfoldable pub coalesce : List TcpReassemblyFragment → List TcpReassemblyFragment
coalesce [] = []
coalesce (fragment ∷ fragments) = coalesce_from fragment fragments

abbrev pub earlier_fragment : ℕ → TcpReassemblyFragment → TcpReassemblyFragment → Bool
earlier_fragment base a b = ltb (sub32 a.sequence_start base) (sub32 b.sequence_start base)

unfoldable pub insert_reassembly_fragment : Connection → ℕ → List ℕ → Connection
insert_reassembly_fragment connection sequence_start payload =
    let base = connection.rcv_nxt in
    let new_start = sub32 sequence_start base in
    let new_end = u32 (new_start + length payload) in
    let gaps = subtract_fragments base connection.out_of_order ((new_start, new_end) ∷ []) in
    let pushed = push_gaps base new_start payload gaps connection.out_of_order in
    record connection { out_of_order = coalesce (sort (earlier_fragment base) pushed) }

-- The released bytes, the next expected number and the fragments that stay.
pub record Released : Type 0 where
  pub bytes : List ℕ
  pub next : ℕ
  pub fragments : List TcpReassemblyFragment

unfoldable pub release_loop : ℕ → List TcpReassemblyFragment → Released
release_loop next [] = record { bytes = []; next = next; fragments = [] }
release_loop next (fragment ∷ fragments) =
    let rest = release_loop (u32 (next + length fragment.payload)) fragments in
    if fragment.sequence_start == next
    then record rest { bytes = fragment.payload ++ rest.bytes }
    else record { bytes = []; next = next; fragments = fragment ∷ fragments }

unfoldable pub release_contiguous : Connection → List ℕ × Connection
release_contiguous connection =
    let released = release_loop connection.rcv_nxt connection.out_of_order in
    (
      released.bytes,
      record connection { rcv_nxt = released.next; out_of_order = released.fragments },
    )
