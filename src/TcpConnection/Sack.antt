-- ===== src/TcpConnection/Sack.antt =====
-- The SACK blocks that are sent and received: `generateSackBlocks` and `applySackBlocks`.
use wirestack.Common.{ℕ, ◌+◌, Bool, true, false, not, ◌&&◌, ◌||◌, List, [], ◌∷◌, ◌++◌, map}
use wirestack.Common.{Option, none, some, if◌then◌else◌, ◌==◌, take, length}
use wirestack.Bytes.{u32}
use wirestack.Tcp.Options.{TcpSackBlock}
use wirestack.TcpConnection.Sequence.{sequence_greater, sequence_less_or_equal, sequence_max}
use wirestack.TcpConnection.State.{
  Connection, PendingTransmission, TcpReassemblyFragment, pending_sequence_end,
}

-- `TcpReassemblyFragment::sequenceEnd`
unfoldable pub fragment_sequence_end : TcpReassemblyFragment → ℕ
fragment_sequence_end fragment = u32 (fragment.sequence_start + length fragment.payload)

-- `std::sort` by a comparator. Where two elements are equivalent their order is not specified; the
-- callers' results do not depend on it.
module _ {A : Type 0} (less : A → A → Bool) where
  unfoldable pub insert_sorted : A → List A → List A
  insert_sorted x [] = x ∷ []
  insert_sorted x (y ∷ ys) = if less y x then y ∷ insert_sorted x ys else x ∷ y ∷ ys

  unfoldable pub sort : List A → List A
  sort [] = []
  sort (x ∷ xs) = insert_sorted x (sort xs)

-- The first fragment that starts at `start`, and the fragments without it.
unfoldable pub most_recent_first :
    ℕ → List TcpReassemblyFragment → List TcpReassemblyFragment × List TcpReassemblyFragment
most_recent_first start [] = ([], [])
most_recent_first start (fragment ∷ fragments) =
    let later = most_recent_first start fragments in
    if fragment.sequence_start == start
    then (fragment ∷ [], fragments)
    else (later.0, fragment ∷ later.1)

abbrev fragment_block : TcpReassemblyFragment → TcpSackBlock
fragment_block fragment = record {
  left_edge = fragment.sequence_start;
  right_edge = fragment_sequence_end fragment;
}

abbrev later_fragment : TcpReassemblyFragment → TcpReassemblyFragment → Bool
later_fragment a b = sequence_greater a.sequence_start b.sequence_start

abbrev split_most_recent :
    Option ℕ → List TcpReassemblyFragment → List TcpReassemblyFragment × List TcpReassemblyFragment
split_most_recent none fragments = ([], fragments)
split_most_recent (some start) fragments = most_recent_first start fragments

unfoldable pub generate_sack_blocks : Connection → Option ℕ → List TcpSackBlock
generate_sack_blocks connection most_recent =
    let split = split_most_recent most_recent connection.out_of_order in
    take 4 (map fragment_block (split.0 ++ sort later_fragment split.1))

-- The blocks that are usable against the cumulative acknowledgment.
unfoldable pub valid_blocks : ℕ → ℕ → List TcpSackBlock → List (ℕ × ℕ)
valid_blocks cumulative_ack snd_nxt [] = []
valid_blocks cumulative_ack snd_nxt (block ∷ blocks) =
    let rest = valid_blocks cumulative_ack snd_nxt blocks in
    if not (sequence_greater block.left_edge cumulative_ack)
    then rest
    else if not (sequence_greater block.right_edge block.left_edge)
    then rest
    else if sequence_greater block.right_edge snd_nxt
    then rest
    else (block.left_edge, block.right_edge) ∷ rest

-- The merging loop, from the block that is last in `merged`.
unfoldable pub merge_from : ℕ → ℕ → List (ℕ × ℕ) → List (ℕ × ℕ)
merge_from left right [] = (left, right) ∷ []
merge_from left right ((l, r) ∷ blocks) =
    let joined = merge_from left (sequence_max right r) blocks in
    let apart = merge_from l r blocks in
    if not (sequence_greater l right) then joined else (left, right) ∷ apart

abbrev merge_blocks : List (ℕ × ℕ) → List (ℕ × ℕ)
merge_blocks [] = []
merge_blocks ((l, r) ∷ blocks) = merge_from l r blocks

unfoldable pub covers : List (ℕ × ℕ) → PendingTransmission → Bool
covers [] entry = false
covers ((left, right) ∷ merged) entry =
    (sequence_less_or_equal left entry.sequence_start
      && sequence_less_or_equal (pending_sequence_end entry) right)
    || covers merged entry

unfoldable pub mark_sacked : List (ℕ × ℕ) → PendingTransmission → PendingTransmission
mark_sacked merged entry =
    if entry.is_syn || entry.is_fin || entry.sacked
    then entry
    else if covers merged entry
    then record entry { sacked = true }
    else entry

abbrev earlier_block : ℕ × ℕ → ℕ × ℕ → Bool
earlier_block a b = sequence_greater b.0 a.0

-- With no valid block the code returns at once; marking by none changes nothing either.
unfoldable pub apply_sack_blocks : Connection → ℕ → List TcpSackBlock → Connection
apply_sack_blocks connection cumulative_ack blocks =
    let valid = valid_blocks cumulative_ack connection.snd_nxt blocks in
    let merged = merge_blocks (sort earlier_block valid) in
    record connection { pending = map (mark_sacked merged) connection.pending }
