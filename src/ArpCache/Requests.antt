-- ===== src/ArpCache/Requests.antt =====
-- The requests that the cache has its caller send for an address: those that `beginResolution`
-- answers with true, and those that `poll` lists.
use wirestack.Common.{
  ℕ, suc, ◌+◌, ◌-◌, ◌*◌, ◌≤◌, ◌≡◌, List, [], ◌∷◌, Bool, true, false, arith, none,
}
use wirestack.Common.{if◌then◌else◌, length, Option-cases, inl, inr, Bool-cases, ltb, ◌&&◌}
use wirestack.Common.Map
use wirestack.Address.{MacAddress, Ipv4Address, ip_equal, ip_less}
use wirestack.ArpCache.{
  ArpCache, Entry, arp_max_transmissions, resolved_entry, incomplete_entry, find_entry,
  is_incomplete, expire_entries, expire, oldest_from, make_room, emplace_with_room, insert, lookup,
  state_of, begin_resolution, polled, poll_entries, poll, poll_action,
}
use wirestack.ArpCache.Bounds.{
  IsBounded, insert-IsBounded, lookup-IsBounded, begin_resolution-IsBounded, poll-IsBounded,
  expire-IsBounded,
}

-- How often an address is listed.
unfoldable pub occurrences : Ipv4Address → List Ipv4Address → ℕ
occurrences ip [] = 0
occurrences ip (j ∷ js) = let rest = occurrences ip js in if ip_equal j ip then suc rest else rest

-- One for a request that is sent for the address.
abbrev pub one_if : Bool → ℕ
one_if true = 1
one_if false = 0

-- A cache that was empty and went through any operations, with the number of resolutions that were
-- begun for the address since then and the number of requests sent for it.
pub data History (ip : Ipv4Address) : ℕ → ℕ → ArpCache → Type 0 where
  empty : (c : ArpCache) → c.entries ≡ [] → History ip 0 0 c
  inserted :
      (begun sent : ℕ) (jp : Ipv4Address) (mac : MacAddress) (now : ℕ) (c : ArpCache)
      → History ip begun sent c
      → History ip begun sent (insert jp mac now c)
  looked_up :
      (begun sent : ℕ) (jp : Ipv4Address) (now : ℕ) (c : ArpCache)
      → History ip begun sent c
      → History ip begun sent (lookup jp now c).1
  examined :
      (begun sent : ℕ) (jp : Ipv4Address) (now : ℕ) (c : ArpCache)
      → History ip begun sent c
      → History ip begun sent (state_of jp now c).1
  resolving :
      (begun sent : ℕ) (jp : Ipv4Address) (now : ℕ) (c : ArpCache)
      → History ip begun sent c
      → History ip
          (begun + one_if ((begin_resolution jp now c).0 && ip_equal jp ip))
          (sent + one_if ((begin_resolution jp now c).0 && ip_equal jp ip))
          (begin_resolution jp now c).1
  polling :
      (begun sent now : ℕ) (c : ArpCache)
      → History ip begun sent c
      → History ip begun (sent + occurrences ip (poll now c).0.requests) (poll now c).1

-- The transmissions that an entry has left.
abbrev remaining : Entry → ℕ
remaining e = if is_incomplete e.state then arp_max_transmissions - e.transmit_count else 0

module _ (ip : Ipv4Address) where
  -- The transmissions that the entries for the address have left.
  unfoldable budget : List (Ipv4Address × Entry) → ℕ
  budget [] = 0
  budget ((j, e) ∷ m) = let rest = budget m in if ip_equal j ip then remaining e + rest else rest

  budget-expire_entries :
      (lifetime now : ℕ) (m : List (Ipv4Address × Entry))
      → budget (expire_entries lifetime now m) ≤ budget m
  unfolding expire_entries budget
  budget-expire_entries lifetime now [] = omega arith
  budget-expire_entries lifetime now ((j, e) ∷ m) =
      ground (arith, budget-expire_entries lifetime now m)

  budget-erase :
      (k : Ipv4Address) (m : List (Ipv4Address × Entry))
      → budget (Map.erase ip_equal k m) ≤ budget m
  unfolding Map.erase budget
  budget-erase k [] = omega arith
  budget-erase k ((j, e) ∷ m) = ground (arith, budget-erase k m)

  budget-assign :
      (k : Ipv4Address) (mac : MacAddress) (now : ℕ) (m : List (Ipv4Address × Entry))
      → budget (Map.assign ip_equal k (resolved_entry mac now) m) ≤ budget m
  unfolding Map.assign budget
  budget-assign k mac now [] = omega arith
  budget-assign k mac now ((j, e) ∷ m) = ground (arith, budget-assign k mac now m)

  budget-emplace :
      (k : Ipv4Address) (e : Entry) (m : List (Ipv4Address × Entry))
      → budget (Map.emplace ip_equal ip_less k e m)
        ≡ (if ip_equal k ip then remaining e else 0) + budget m
  unfolding Map.emplace budget
  budget-emplace k e [] = ground arith
  budget-emplace k e ((j, f) ∷ m) = ground (arith, budget-emplace k e m)

  budget-make_room : (c : ArpCache) → budget (make_room c).1.entries ≤ budget c.entries
  unfolding make_room
  budget-make_room c = elim (Bool-cases (ltb (length c.entries) c.capacity)) [
    | inl p ↦ ground arith
    | inr p ↦ elim (Option-cases (oldest_from none c.entries)) [
      | inl q ↦ ground arith
      | inr (o, q) ↦ ground (arith, budget-erase o.0 c.entries)
    ]
  ]

  -- What is emplaced brings its transmissions; without room nothing is.
  budget-emplace_with_room :
      (k : Ipv4Address) (e : Entry) (c : ArpCache)
      → let (room, after) = emplace_with_room k e c in
        budget after.entries ≤ (if room && ip_equal k ip then remaining e else 0) + budget c.entries
  unfolding emplace_with_room
  budget-emplace_with_room k e c =
      ground (arith, budget-make_room c, budget-emplace k e (make_room c).1.entries)

  budget-expire : (now : ℕ) (c : ArpCache) → budget (expire now c).entries ≤ budget c.entries
  unfolding expire
  budget-expire now c = budget-expire_entries c.entry_lifetime now c.entries

  budget-insert :
      (jp : Ipv4Address) (mac : MacAddress) (now : ℕ) (c : ArpCache)
      → budget (insert jp mac now c).entries ≤ budget c.entries
  unfolding insert
  budget-insert jp mac now c = elim (Option-cases (find_entry jp (expire now c).entries)) [
    | inl p ↦
        rw (p, insert)
          (ground (
            arith,
            budget-emplace_with_room jp (resolved_entry mac now) (expire now c),
            budget-expire now c,
          ))
    | inr (e, p) ↦
        rw (p, insert)
          (ground (arith, budget-assign jp mac now (expire now c).entries, budget-expire now c))
  ]

  budget-lookup :
      (jp : Ipv4Address) (now : ℕ) (c : ArpCache)
      → budget (lookup jp now c).1.entries ≤ budget c.entries
  unfolding lookup
  budget-lookup jp now c = ground (arith, budget-expire now c)

  budget-state_of :
      (jp : Ipv4Address) (now : ℕ) (c : ArpCache)
      → budget (state_of jp now c).1.entries ≤ budget c.entries
  unfolding state_of
  budget-state_of jp now c = ground (arith, budget-expire now c)

  -- A request for the address and the two that may follow it.
  budget-begin_resolution :
      (jp : Ipv4Address) (now : ℕ) (c : ArpCache)
      → let (asks, after) = begin_resolution jp now c in
        budget after.entries ≤ 2 * one_if (asks && ip_equal jp ip) + budget c.entries
  unfolding begin_resolution
  budget-begin_resolution jp now c = elim (Option-cases (find_entry jp (expire now c).entries)) [
    | inl p ↦
        rw (p, begin_resolution)
          (ground (
            arith,
            budget-emplace_with_room jp (incomplete_entry now) (expire now c),
            budget-expire now c,
          ))
    | inr (e, p) ↦ rw (p, begin_resolution) (ground (arith, budget-expire now c))
  ]

  -- Every request that a poll lists uses up a transmission.
  budget-poll_entries :
      (now : ℕ) (m : List (Ipv4Address × Entry))
      → let (r, after) = poll_entries now m in occurrences ip r.requests + budget after ≤ budget m
  unfolding poll_entries polled poll_action occurrences budget
  budget-poll_entries now [] = omega arith
  budget-poll_entries now ((j, e) ∷ m) = ground (arith, budget-poll_entries now m)

  budget-poll :
      (now : ℕ) (c : ArpCache)
      → let (r, after) = poll now c in
        occurrences ip r.requests + budget after.entries ≤ budget c.entries
  unfolding poll
  budget-poll now c =
      ground (arith, budget-poll_entries now (expire now c).entries, budget-expire now c)

  History-budget :
      (begun sent : ℕ) (c : ArpCache)
      → History ip begun sent c
      → sent + budget c.entries ≤ arp_max_transmissions * begun
  unfolding budget
  History-budget _ _ c (empty _ h) = ground arith
  History-budget begun sent _ (inserted _ _ jp mac now c h) =
      omega (arith, budget-insert jp mac now c, History-budget begun sent c h)
  History-budget begun sent _ (looked_up _ _ jp now c h) =
      omega (arith, budget-lookup jp now c, History-budget begun sent c h)
  History-budget begun sent _ (examined _ _ jp now c h) =
      omega (arith, budget-state_of jp now c, History-budget begun sent c h)
  History-budget _ _ _ (resolving begun sent jp now c h) =
      omega (arith, budget-begin_resolution jp now c, History-budget begun sent c h)
  History-budget begun _ _ (polling _ sent now c h) =
      omega (arith, budget-poll now c, History-budget begun sent c h)

state_of-IsBounded :
    (ip : Ipv4Address) (now : ℕ) (c : ArpCache) → IsBounded c → IsBounded (state_of ip now c).1
unfolding state_of
state_of-IsBounded ip now c v = ground (arith, expire-IsBounded now c v)

History-IsBounded :
    (ip : Ipv4Address) (begun sent : ℕ) (c : ArpCache) → History ip begun sent c → IsBounded c
History-IsBounded ip _ _ c (empty _ h) = ground arith
History-IsBounded ip begun sent _ (inserted _ _ jp mac now c h) =
    insert-IsBounded jp mac now c (History-IsBounded ip begun sent c h)
History-IsBounded ip begun sent _ (looked_up _ _ jp now c h) =
    lookup-IsBounded jp now c (History-IsBounded ip begun sent c h)
History-IsBounded ip begun sent _ (examined _ _ jp now c h) =
    state_of-IsBounded jp now c (History-IsBounded ip begun sent c h)
History-IsBounded ip _ _ _ (resolving begun sent jp now c h) =
    begin_resolution-IsBounded jp now c (History-IsBounded ip begun sent c h)
History-IsBounded ip begun _ _ (polling _ sent now c h) =
    poll-IsBounded now c (History-IsBounded ip begun sent c h)

-- From an empty cache on, through any insertions, lookups, queries of the state,
-- resolutions and polls, the requests sent
-- for an address are at most three times the resolutions begun for it, and the cache stays within
-- its capacity.
pub requests_bounded :
    (ip : Ipv4Address) (begun sent : ℕ) (c : ArpCache)
    → History ip begun sent c
    → (sent ≤ arp_max_transmissions * begun) × (length c.entries ≤ c.capacity)
requests_bounded ip begun sent c h =
    (omega (arith, History-budget ip begun sent c h), (History-IsBounded ip begun sent c h).within)
