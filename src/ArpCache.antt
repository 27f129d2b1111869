-- ===== src/ArpCache.antt =====
-- src/arp_cache.cpp and include/wirestack/arp_cache.hpp: the bounded neighbour cache. Time points
-- and durations of the steady clock are nanoseconds as natural numbers.
pub mod Bounds
pub mod Lookup
pub mod Poll
pub mod Requests
use wirestack.Common.{ℕ, suc, ◌+◌, ◌*◌, ◌^◌, ◌≤◌, List, [], ◌∷◌, Bool, true, false, not, ◌||◌, ◌&&◌}
use wirestack.Common.{Option, none, some, ltb, leb, if◌then◌else◌, length, All}
use wirestack.Common.Map
use wirestack.Address.{MacAddress, Ipv4Address, ip_equal, ip_less}

pub data ArpNeighborState : Type 0 where
  resolved incomplete failed : ArpNeighborState

pub record Entry : Type 0 where
  pub state : ArpNeighborState
  pub mac : Option MacAddress
  pub updated_at : ℕ
  pub next_deadline : Option ℕ
  pub transmit_count : ℕ

pub record ArpCache : Type 0 where
  pub capacity : ℕ
  pub entry_lifetime : ℕ
  pub entries : List (Ipv4Address × Entry)

pub record ArpPollResult : Type 0 where
  pub requests : List Ipv4Address
  pub failed_ips : List Ipv4Address

-- One second; three transmissions; by default five minutes and 256 entries.
abbrev pub arp_retry_interval : ℕ
arp_retry_interval = 1_000_000_000

abbrev pub arp_max_transmissions : ℕ
arp_max_transmissions = 3

abbrev pub is_incomplete : ArpNeighborState → Bool
is_incomplete resolved = false
is_incomplete incomplete = true
is_incomplete failed = false

abbrev pub is_resolved : ArpNeighborState → Bool
is_resolved resolved = true
is_resolved incomplete = false
is_resolved failed = false

abbrev pub find_entry : Ipv4Address → List (Ipv4Address × Entry) → Option Entry
find_entry = Map.find ip_equal

-- `state != Incomplete && now - updated_at >= entry_lifetime`, the difference being signed.
unfoldable pub expired : ℕ → ℕ → Entry → Bool
expired lifetime now e = not (is_incomplete e.state) && leb (e.updated_at + lifetime) now

unfoldable pub expire_entries : ℕ → ℕ → List (Ipv4Address × Entry) → List (Ipv4Address × Entry)
expire_entries lifetime now [] = []
expire_entries lifetime now ((ip, e) ∷ m) =
    let rest = expire_entries lifetime now m in
    if expired lifetime now e then rest else (ip, e) ∷ rest

unfoldable pub expire : ℕ → ArpCache → ArpCache
expire now c = record c { entries = expire_entries c.entry_lifetime now c.entries }

-- The loop of `makeRoom`: the oldest entry so far that is not incomplete, if any.
unfoldable pub oldest_from :
    Option (Ipv4Address × Entry) → List (Ipv4Address × Entry) → Option (Ipv4Address × Entry)
oldest_from oldest [] = oldest
oldest_from none ((ip, e) ∷ m) =
    oldest_from (if is_incomplete e.state then none else some (ip, e)) m
oldest_from (some (jp, o)) ((ip, e) ∷ m) =
    oldest_from
      (if is_incomplete e.state
        then some (jp, o)
        else if ltb e.updated_at o.updated_at
        then some (ip, e)
        else some (jp, o))
      m

-- Whether there is room now, and the cache after it.
unfoldable pub make_room : ArpCache → Bool × ArpCache
make_room c =
    if ltb (length c.entries) c.capacity then (true, c) else elim (oldest_from none c.entries) [
      | none ↦ (false, c)
      | some oldest ↦ (true, record c { entries = Map.erase ip_equal oldest.0 c.entries })
    ]

abbrev pub resolved_entry : MacAddress → ℕ → Entry
resolved_entry mac now = record {
  state = resolved;
  mac = some mac;
  updated_at = now;
  next_deadline = none;
  transmit_count = 0;
}

abbrev pub incomplete_entry : ℕ → Entry
incomplete_entry now = record {
  state = incomplete;
  mac = none;
  updated_at = now;
  next_deadline = some (now + arp_retry_interval);
  transmit_count = 1;
}

-- `if (!makeRoom()) return; entries_.emplace(ip, entry);`, with whether it was emplaced.
unfoldable pub emplace_with_room : Ipv4Address → Entry → ArpCache → Bool × ArpCache
emplace_with_room ip e c =
    let (room, c') = make_room c in
    if room
    then (true, record c' { entries = Map.emplace ip_equal ip_less ip e c'.entries })
    else (false, c')

unfoldable pub insert : Ipv4Address → MacAddress → ℕ → ArpCache → ArpCache
insert ip mac now c =
    let c' = expire now c in
    elim (find_entry ip c'.entries) [
      | none ↦ (emplace_with_room ip (resolved_entry mac now) c').1
      | some _ ↦ record c' { entries = Map.assign ip_equal ip (resolved_entry mac now) c'.entries }
    ]

unfoldable pub lookup : Ipv4Address → ℕ → ArpCache → Option MacAddress × ArpCache
lookup ip now c =
    let c' = expire now c in
    elim (find_entry ip c'.entries) [
      | none ↦ (none, c')
      | some e ↦ (if is_resolved e.state then e.mac else none, c')
    ]

-- True when the caller should send the first request.
unfoldable pub begin_resolution : Ipv4Address → ℕ → ArpCache → Bool × ArpCache
begin_resolution ip now c =
    let c' = expire now c in
    elim (find_entry ip c'.entries) [
      | none ↦ emplace_with_room ip (incomplete_entry now) c'
      | some _ ↦ (false, c')
    ]

-- What one round of the loop of `poll` does to an entry: leave it, send again, or give up.
pub data PollAction : Type 0 where
  skip again give_up : PollAction

unfoldable pub is_due : ℕ → Option ℕ → Bool
is_due now none = false
is_due now (some deadline) = leb deadline now

unfoldable pub poll_action : ℕ → Entry → PollAction
poll_action now e =
    if not (is_incomplete e.state) || not (is_due now e.next_deadline)
    then skip
    else if leb arp_max_transmissions e.transmit_count
    then give_up
    else again

unfoldable pub polled : ℕ → Entry → Entry
polled now e = elim (poll_action now e) [
  | skip ↦ e
  | again ↦ record e {
    transmit_count = e.transmit_count + 1;
    next_deadline = some (now + arp_retry_interval);
  }
  | give_up ↦ record e { state = failed; updated_at = now; next_deadline = none }
]

unfoldable pub poll_entries :
    ℕ → List (Ipv4Address × Entry) → ArpPollResult × List (Ipv4Address × Entry)
poll_entries now [] = (record { requests = []; failed_ips = [] }, [])
poll_entries now ((ip, e) ∷ m) =
    let (r, m') = poll_entries now m in
    (
      elim (poll_action now e) [
        | skip ↦ r
        | again ↦ record r { requests = ip ∷ r.requests }
        | give_up ↦ record r { failed_ips = ip ∷ r.failed_ips }
      ],
      (ip, polled now e) ∷ m',
    )

unfoldable pub poll : ℕ → ArpCache → ArpPollResult × ArpCache
poll now c =
    let c' = expire now c in
    let (r, m) = poll_entries now c'.entries in (r, record c' { entries = m })

unfoldable pub entry_deadline : ℕ → Entry → Option ℕ
entry_deadline lifetime e =
    if is_incomplete e.state then e.next_deadline else some (e.updated_at + lifetime)

unfoldable pub earlier : Option ℕ → Option ℕ → Option ℕ
earlier deadline none = deadline
earlier none (some candidate) = some candidate
earlier (some d) (some candidate) = if ltb candidate d then some candidate else some d

unfoldable pub next_deadline_from : ℕ → Option ℕ → List (Ipv4Address × Entry) → Option ℕ
next_deadline_from lifetime deadline [] = deadline
next_deadline_from lifetime deadline ((ip, e) ∷ m) =
    next_deadline_from lifetime (earlier deadline (entry_deadline lifetime e)) m

pub next_deadline_of : ArpCache → Option ℕ
next_deadline_of c = next_deadline_from c.entry_lifetime none c.entries

unfoldable pub state_of : Ipv4Address → ℕ → ArpCache → Option ArpNeighborState × ArpCache
state_of ip now c =
    let c' = expire now c in
    elim (find_entry ip c'.entries) [ none ↦ (none, c') | some e ↦ (some e.state, c') ]
