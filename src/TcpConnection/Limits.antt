-- ===== src/TcpConnection/Limits.antt =====
-- Admission: whatever the operations do, the table stays within its two limits.
pub mod Count
use wirestack.Common.{
  ℕ, ◌+◌, ◌≤◌, ◌≡◌, refl, Bool, true, false, arith, Option, some, none, List, [], ◌∷◌,
}
use wirestack.Common.{
  if◌then◌else◌, ◌&&◌, ◌||◌, not, inl, inr, Bool-cases, Option-cases, length, leb, subst,
}
use wirestack.Common.Map
use wirestack.Tcp.Segment.{TcpSegment}
use wirestack.Tcp.Options.{TcpParsedOptions}
use wirestack.TcpConnection.State.{Connection}
use wirestack.TcpConnection.Key.{TcpConnectionKey, key_equal, key_less}
use wirestack.TcpConnection.Schedule.{schedule_queued_data}
use wirestack.TcpConnection.Synchronized.{parsed_options}
use wirestack.TcpConnection.Table.{
  TcpConnectionTable, Connections, half_open_count, is_half_open, find_connection, next_isn,
  is_full, add_connection, open_active, open_passive, begin_connect, admit, handle_unknown,
  store_connection, handle, handle_connection,
}
use wirestack.TcpConnection.Table.Moves.{handle_connection-MovesTo}
use wirestack.TcpConnection.Api.{enqueue, make_outgoing_data, close_connection, begin_close}
use wirestack.TcpConnection.Timers.{
  poll_connections, poll_retransmissions, probe_connections, poll_persist_probes,
}
use wirestack.TcpConnection.Limits.Count.{
  StaysOpen, MovesTo-StaysOpen, half_open-assign, half_open-erase, half_open-emplace,
  enqueue-StaysOpen, close_connection-StaysOpen, poll_connections-counts, probe_connections-counts,
}

pub record IsWithin (t : TcpConnectionTable) : Type 0 where
  pub size : length t.connections ≤ t.max_connections
  pub half_open : half_open_count t.connections ≤ t.max_half_open_connections

-- Every operation of the table, with what the environment chooses.
pub data Step : TcpConnectionTable → TcpConnectionTable → Type 0 where
  connect :
      (key : TcpConnectionKey) (now : ℕ) (draw : Option ℕ) (t : TcpConnectionTable)
      → Step t (begin_connect key now draw t).1
  segment :
      (key : TcpConnectionKey) (s : TcpSegment) (now : ℕ) (draw : Option ℕ) (t : TcpConnectionTable)
      → Step t (handle key s now draw t).1
  send :
      (key : TcpConnectionKey) (payload : List ℕ) (now : ℕ) (t : TcpConnectionTable)
      → Step t (make_outgoing_data key payload now t).1
  close :
      (key : TcpConnectionKey) (now : ℕ) (t : TcpConnectionTable) → Step t (begin_close key now t).1
  retransmissions : (now : ℕ) (t : TcpConnectionTable) → Step t (poll_retransmissions now t).1
  probes : (now : ℕ) (t : TcpConnectionTable) → Step t (poll_persist_probes now t).1

pub data Reach (t : TcpConnectionTable) : TcpConnectionTable → Type 0 where
  start : Reach t t
  later : {u v : TcpConnectionTable} → Reach t u → Step u v → Reach t v

add_connection-IsWithin :
    (key : TcpConnectionKey) (c : Connection) (t : TcpConnectionTable)
    → IsWithin t
    → is_full t ≡ false
    → IsWithin (add_connection key c t)
unfolding add_connection is_full
add_connection-IsWithin key c t w room = ground (
  arith,
  Map.length-emplace key_equal key_less key c t.connections,
  half_open-emplace key c t.connections,
)

store_connection-IsWithin :
    (key : TcpConnectionKey) (c : Connection) (d : Option Connection) (t : TcpConnectionTable)
    → find_connection key t.connections ≡ some c
    → StaysOpen c d
    → IsWithin t
    → IsWithin (store_connection key d t)
unfolding store_connection
store_connection-IsWithin key c none t found stays w =
    ground
      (arith, Map.length-erase_le key_equal key t.connections, half_open-erase key t.connections)
store_connection-IsWithin key c (some d) t found stays w = ground (
  arith,
  Map.length-assign key_equal key d t.connections,
  half_open-assign key c d t.connections found stays,
)

next_isn-limits :
    (draw : Option ℕ) (t : TcpConnectionTable)
    → ((next_isn draw t).1.connections ≡ t.connections)
      × ((next_isn draw t).1.max_connections ≡ t.max_connections)
      × ((next_isn draw t).1.max_half_open_connections ≡ t.max_half_open_connections)
unfolding next_isn
next_isn-limits none t = (refl, refl, refl)
next_isn-limits (some isn) t = ground arith

next_isn-IsWithin :
    (draw : Option ℕ) (t : TcpConnectionTable) → IsWithin t → IsWithin (next_isn draw t).1
next_isn-IsWithin draw t w = ground (arith, next_isn-limits draw t)

next_isn-is_full :
    (draw : Option ℕ) (t : TcpConnectionTable)
    → is_full t ≡ false
    → is_full (next_isn draw t).1 ≡ false
unfolding is_full
next_isn-is_full draw t h = ground (arith, next_isn-limits draw t)

open_active-IsWithin :
    (key : TcpConnectionKey) (now : ℕ) (drawn : Option ℕ × TcpConnectionTable)
    → IsWithin drawn.1
    → is_full drawn.1 ≡ false
    → IsWithin (open_active key now drawn).1
unfolding open_active
open_active-IsWithin key now (none, t) w room = w
open_active-IsWithin key now (some isn, t) w room = add_connection-IsWithin key _ t w room

begin_connect-IsWithin :
    (key : TcpConnectionKey) (now : ℕ) (draw : Option ℕ) (t : TcpConnectionTable)
    → IsWithin t
    → IsWithin (begin_connect key now draw t).1
unfolding begin_connect
begin_connect-IsWithin key now draw t w =
    let drawn = next_isn draw t in
    elim (Bool-cases (is_full t)) [
      | inl full ↦ ground arith
      | inr room ↦
          let opened =
            open_active-IsWithin key now drawn (next_isn-IsWithin draw t w)
              (next_isn-is_full draw t room) in
          ground arith
    ]

open_passive-IsWithin :
    (key : TcpConnectionKey) (s : TcpSegment) (parsed : TcpParsedOptions) (now : ℕ)
    (drawn : Option ℕ × TcpConnectionTable)
    → IsWithin drawn.1
    → is_full drawn.1 ≡ false
    → IsWithin (open_passive key s parsed now drawn).1
unfolding open_passive
open_passive-IsWithin key s parsed now (none, t) w room = w
open_passive-IsWithin key s parsed now (some isn, t) w room = add_connection-IsWithin key _ t w room

admit-IsWithin :
    (key : TcpConnectionKey) (s : TcpSegment) (parsed : TcpParsedOptions) (now : ℕ)
    (draw : Option ℕ) (t : TcpConnectionTable)
    → IsWithin t
    → IsWithin (admit key s parsed now draw t).1
unfolding admit
admit-IsWithin key s parsed now draw t w =
    let drawn = next_isn draw t in
    elim (Bool-cases (is_full t)) [
      | inl full ↦ ground arith
      | inr room ↦
          let opened =
            open_passive-IsWithin key s parsed now drawn (next_isn-IsWithin draw t w)
              (next_isn-is_full draw t room) in
          ground arith
    ]

handle_unknown-IsWithin :
    (key : TcpConnectionKey) (s : TcpSegment) (now : ℕ) (draw : Option ℕ) (t : TcpConnectionTable)
    → IsWithin t
    → IsWithin (handle_unknown key s now draw t).1
unfolding handle_unknown
handle_unknown-IsWithin key s now draw t w = elim (Option-cases (parsed_options s.options)) [
  | inl e ↦ ground arith
  | inr (parsed, e) ↦ ground (arith, admit-IsWithin key s parsed now draw t w)
]

handle-IsWithin :
    (key : TcpConnectionKey) (s : TcpSegment) (now : ℕ) (draw : Option ℕ) (t : TcpConnectionTable)
    → IsWithin t
    → IsWithin (handle key s now draw t).1
unfolding handle
handle-IsWithin key s now draw t w = elim (Option-cases (find_connection key t.connections)) [
  | inl e ↦ rw (e, handle) (handle_unknown-IsWithin key s now draw t w)
  | inr (c, e) ↦
      let d = (handle_connection key c s now).1 in
      rw (e, handle)
        (store_connection-IsWithin key c d t e
          (MovesTo-StaysOpen c d (handle_connection-MovesTo key c s now)) w)
]

make_outgoing_data-IsWithin :
    (key : TcpConnectionKey) (payload : List ℕ) (now : ℕ) (t : TcpConnectionTable)
    → IsWithin t
    → IsWithin (make_outgoing_data key payload now t).1
unfolding make_outgoing_data
make_outgoing_data-IsWithin key payload now t w =
    elim (Option-cases (find_connection key t.connections)) [
      | inl e ↦ ground arith
      | inr (c, e) ↦
          let d = (enqueue key c payload now).1 in
          let stored =
            store_connection-IsWithin key c (some d) t e (enqueue-StaysOpen key c payload now) w in
          ground arith
    ]

begin_close-IsWithin :
    (key : TcpConnectionKey) (now : ℕ) (t : TcpConnectionTable)
    → IsWithin t
    → IsWithin (begin_close key now t).1
unfolding begin_close
begin_close-IsWithin key now t w = elim (Option-cases (find_connection key t.connections)) [
  | inl e ↦ ground arith
  | inr (c, e) ↦
      let d = (close_connection key c now).1 in
      let stored =
        store_connection-IsWithin key c (some d) t e (close_connection-StaysOpen key c now) w in
      ground arith
]

poll_retransmissions-IsWithin :
    (now : ℕ) (t : TcpConnectionTable) → IsWithin t → IsWithin (poll_retransmissions now t).1
unfolding poll_retransmissions
poll_retransmissions-IsWithin now t w = ground (arith, poll_connections-counts now t.connections)

poll_persist_probes-IsWithin :
    (now : ℕ) (t : TcpConnectionTable) → IsWithin t → IsWithin (poll_persist_probes now t).1
unfolding poll_persist_probes
poll_persist_probes-IsWithin now t w = ground (arith, probe_connections-counts now t.connections)

Step-IsWithin : {t u : TcpConnectionTable} → Step t u → IsWithin t → IsWithin u
Step-IsWithin (connect key now draw t) w = begin_connect-IsWithin key now draw t w
Step-IsWithin (segment key s now draw t) w = handle-IsWithin key s now draw t w
Step-IsWithin (send key payload now t) w = make_outgoing_data-IsWithin key payload now t w
Step-IsWithin (close key now t) w = begin_close-IsWithin key now t w
Step-IsWithin (retransmissions now t) w = poll_retransmissions-IsWithin now t w
Step-IsWithin (probes now t) w = poll_persist_probes-IsWithin now t w

-- Whatever sequence of operations, segments and timers a table goes through, it never holds more
-- connections or more half-open connections than its two limits.
pub Reach-IsWithin : {t u : TcpConnectionTable} → IsWithin t → Reach t u → IsWithin u
Reach-IsWithin w start = w
Reach-IsWithin w (later r s) = Step-IsWithin s (Reach-IsWithin w r)
