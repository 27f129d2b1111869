-- ===== src/Examples/Reassembly.antt =====
-- The receive buffer at concrete segments.
use wirestack.Common.{List, ◌+◌, ◌≤◌, ◌≡◌, refl, [], ◌∷◌, ◌++◌, arith, length}
use wirestack.Bytes.{u32}
use wirestack.TcpConnection.State.{Connection, TcpReassemblyFragment, new_connection, established}
use wirestack.TcpConnection.Sack.{sort, insert_sorted, fragment_sequence_end}
use wirestack.TcpConnection.Reassembly.{
  insert_reassembly_fragment, release_contiguous, max_reassembly_fragments, subtract_fragments,
  split_gaps, split_gap, push_gaps, coalesce, coalesce_from, release_loop,
}
use wirestack.TcpConnection.Reassembly.Hold.{byte_held, held_at, covered, Fits}
use wirestack.TcpConnection.Reassembly.Arrival.{first_arrival_wins}
use wirestack.TcpConnection.Reassembly.Release.{buffered, Chained, IsGap, release_contiguous-all}
use wirestack.TcpConnection.Reassembly.Bound.{insert_reassembly_fragment-bounded}

-- Two bytes at offsets 4 and 5 wait for what comes before them.
abbrev waiting : TcpReassemblyFragment
waiting = record { sequence_start = 1004; payload = 1 ∷ 2 ∷ [] }

abbrev with_gap : Connection
with_gap = record (new_connection established 7) { rcv_nxt = 1000; out_of_order = waiting ∷ [] }

-- A segment on both sides of them fills the gaps and leaves them as they are.
overlap_kept :
    (insert_reassembly_fragment with_gap 1002 (5 ∷ 6 ∷ 7 ∷ 8 ∷ 9 ∷ [])).out_of_order
    ≡ record { sequence_start = 1002; payload = 5 ∷ 6 ∷ 1 ∷ 2 ∷ 9 ∷ [] } ∷ []
unfolding insert_reassembly_fragment subtract_fragments split_gaps split_gap push_gaps sort
    insert_sorted coalesce coalesce_from fragment_sequence_end
overlap_kept = refl

first_arrival_wins_example :
    held_at
      (λ b. b)
      1000
      4
      (insert_reassembly_fragment with_gap 1002 (5 ∷ 6 ∷ 7 ∷ 8 ∷ 9 ∷ [])).out_of_order
    ≡ 1
unfolding held_at byte_held covered Fits subtract_fragments split_gaps split_gap
first_arrival_wins_example =
    first_arrival_wins (λ b. b) with_gap 1002 4 (5 ∷ 6 ∷ 7 ∷ 8 ∷ 9 ∷ []) (omega arith) (omega arith)
      (omega arith, tt) (omega arith)

-- The first fragment is due, the second is not.
abbrev half_due : Connection
half_due = record (new_connection established 7) {
  rcv_nxt = 1004;
  out_of_order = waiting ∷ record { sequence_start = 1008; payload = 3 ∷ [] } ∷ [];
}

release_contiguous-all_example :
    let (bytes, after) = release_contiguous half_due in
    (taken : List TcpReassemblyFragment) × (waiting
        ∷ record { sequence_start = 1008; payload = 3 ∷ [] }
        ∷ []
      ≡ taken ++ after.out_of_order)
    × Chained 1004 taken
    × (bytes ≡ buffered taken)
    × IsGap after.rcv_nxt after.out_of_order
    × (after.rcv_nxt ≡ u32 (1004 + length bytes))
    × (release_contiguous after ≡ ([], after))
release_contiguous-all_example = release_contiguous-all half_due (omega arith)

two_released : (release_contiguous half_due).0 ≡ 1 ∷ 2 ∷ []
unfolding release_contiguous release_loop
two_released = refl

insert_reassembly_fragment-bounded_example :
    length (insert_reassembly_fragment with_gap 1002 (5 ∷ 6 ∷ 7 ∷ 8 ∷ 9 ∷ [])).out_of_order
    ≤ max_reassembly_fragments
insert_reassembly_fragment-bounded_example =
    insert_reassembly_fragment-bounded with_gap 1002 (5 ∷ 6 ∷ 7 ∷ 8 ∷ 9 ∷ []) (omega arith)
