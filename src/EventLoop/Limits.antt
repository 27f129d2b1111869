-- ===== src/EventLoop/Limits.antt =====
-- No operation of the neighbour cache or of the connection table changes the limits of either.
use wirestack.Common.{ℕ, ◌≡◌, refl, Option, none, some, arith, inl, inr, Option-cases}
use wirestack.ArpCache.{
  ArpCache, Entry, expire, make_room, emplace_with_room, insert, lookup, begin_resolution, poll,
  resolved_entry, incomplete_entry,
}
use wirestack.Address.{Ipv4Address}
use wirestack.ArpCache.Bounds.{Step, inserts, looks_up, begins, polls}
use wirestack.Tcp.Segment.{TcpSegment}
use wirestack.Tcp.Options.{TcpParsedOptions}
use wirestack.TcpConnection.State.{Connection}
use wirestack.TcpConnection.Key.{TcpConnectionKey}
use wirestack.TcpConnection.Synchronized.{parsed_options}
use wirestack.TcpConnection.Table.{
  TcpConnectionTable, handle, begin_connect, next_isn, add_connection, open_active, open_passive,
  admit, handle_unknown, store_connection, find_connection,
}
use wirestack.TcpConnection.Api.{make_outgoing_data, begin_close}
use wirestack.TcpConnection.Timers.{poll_retransmissions, poll_persist_probes}
use wirestack.TcpConnection.Limits as Table

emplace-capacity :
    (ip : Ipv4Address) (e : Entry) (c : ArpCache)
    → (emplace_with_room ip e c).1.capacity ≡ c.capacity
unfolding emplace_with_room make_room
emplace-capacity ip e c = ground arith

pub Step-capacity : {c d : ArpCache} → Step c d → d.capacity ≡ c.capacity
unfolding insert lookup begin_resolution poll expire
Step-capacity (inserts ip mac now c) =
    ground (arith, emplace-capacity ip (resolved_entry mac now) (expire now c))
Step-capacity (looks_up ip now c) = ground arith
Step-capacity (begins ip now c) =
    ground (arith, emplace-capacity ip (incomplete_entry now) (expire now c))
Step-capacity (polls now c) = ground arith

unfoldable pub SameLimits : TcpConnectionTable → TcpConnectionTable → Type 0
SameLimits after table =
    (after.max_connections ≡ table.max_connections)
    × (after.max_half_open_connections ≡ table.max_half_open_connections)

store-limits :
    (key : TcpConnectionKey) (c : Option Connection) (t : TcpConnectionTable)
    → SameLimits (store_connection key c t) t
unfolding store_connection SameLimits
store-limits key none t = (refl, refl)
store-limits key (some c) t = (refl, refl)

next_isn-limits : (draw : Option ℕ) (t : TcpConnectionTable) → SameLimits (next_isn draw t).1 t
unfolding next_isn SameLimits
next_isn-limits none t = (refl, refl)
next_isn-limits (some isn) t = ground arith

open_active-limits :
    (key : TcpConnectionKey) (now : ℕ) (drawn : Option ℕ × TcpConnectionTable)
    → SameLimits (open_active key now drawn).1 drawn.1
unfolding open_active add_connection SameLimits
open_active-limits key now (none, t) = (refl, refl)
open_active-limits key now (some isn, t) = (refl, refl)

open_passive-limits :
    (key : TcpConnectionKey) (s : TcpSegment) (parsed : TcpParsedOptions) (now : ℕ)
    (drawn : Option ℕ × TcpConnectionTable)
    → SameLimits (open_passive key s parsed now drawn).1 drawn.1
unfolding open_passive add_connection SameLimits
open_passive-limits key s parsed now (none, t) = (refl, refl)
open_passive-limits key s parsed now (some isn, t) = (refl, refl)

admit-limits :
    (key : TcpConnectionKey) (s : TcpSegment) (parsed : TcpParsedOptions) (now : ℕ)
    (draw : Option ℕ) (t : TcpConnectionTable)
    → SameLimits (admit key s parsed now draw t).1 t
unfolding admit SameLimits
admit-limits key s parsed now draw t =
    ground (arith, open_passive-limits key s parsed now (next_isn draw t), next_isn-limits draw t)

handle_unknown-limits :
    (key : TcpConnectionKey) (s : TcpSegment) (now : ℕ) (draw : Option ℕ) (t : TcpConnectionTable)
    → SameLimits (handle_unknown key s now draw t).1 t
unfolding handle_unknown SameLimits
handle_unknown-limits key s now draw t = elim (Option-cases (parsed_options s.options)) [
  | inl p ↦ ground arith
  | inr (parsed, p) ↦ ground (arith, admit-limits key s parsed now draw t)
]

-- Each operation of the table.
pub Step-limits : {t u : TcpConnectionTable} → Table.Step t u → SameLimits u t
unfolding handle begin_connect make_outgoing_data begin_close poll_retransmissions
    poll_persist_probes store_connection SameLimits
Step-limits (Table.connect key now draw t) =
    ground (arith, open_active-limits key now (next_isn draw t), next_isn-limits draw t)
Step-limits (Table.segment key s now draw t) =
    elim (Option-cases (find_connection key t.connections)) [
      | inl p ↦ ground (arith, handle_unknown-limits key s now draw t)
      | inr (c, p) ↦ rw (handle, p) (store-limits key _ t)
    ]
Step-limits (Table.send key payload now t) = ground arith
Step-limits (Table.close key now t) = ground arith
Step-limits (Table.retransmissions now t) = (refl, refl)
Step-limits (Table.probes now t) = (refl, refl)
