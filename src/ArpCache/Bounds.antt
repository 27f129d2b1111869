-- ===== src/ArpCache/Bounds.antt =====
-- The cache never exceeds its capacity, and no transmit counter exceeds three.
use wirestack.Common.{
  ℕ, suc, ◌≤◌, ◌<◌, ◌≡◌, refl, List, [], ◌∷◌, Bool, true, false, arith, Option, none, some, ap,
}
use wirestack.Common.{◌⊎◌, if◌then◌else◌, length, All, Option-cases, inl, inr, Bool-cases, ltb}
use wirestack.Common.Map
use wirestack.Address.{MacAddress, Ipv4Address, ip_equal, ip_less}
use wirestack.Address.Laws.{ip_equal_iff}
use wirestack.ArpCache.{ArpCache, Entry, arp_max_transmissions, resolved_entry, find_entry}
use wirestack.ArpCache.{
  is_incomplete, expire_entries, expire, oldest_from, make_room, emplace_with_room, insert, lookup,
}
use wirestack.ArpCache.{begin_resolution, polled, poll_entries, poll, poll_action}

abbrev pub FewSent : Ipv4Address × Entry → Type 0
FewSent b = b.1.transmit_count ≤ arp_max_transmissions

pub record IsBounded (c : ArpCache) : Type 0 where
  pub within : length c.entries ≤ c.capacity
  pub few_sent : All FewSent c.entries

expire_entries_lem :
    (lifetime now : ℕ) (m : List (Ipv4Address × Entry))
    → All FewSent m
    → (length (expire_entries lifetime now m) ≤ length m)
      × All FewSent (expire_entries lifetime now m)
unfolding expire_entries
expire_entries_lem lifetime now [] p = (omega arith, tt)
expire_entries_lem lifetime now ((ip, e) ∷ m) p =
    ground (arith, expire_entries_lem lifetime now m p.1)

pub expire-IsBounded : (now : ℕ) (c : ArpCache) → IsBounded c → IsBounded (expire now c)
unfolding expire
expire-IsBounded now c v =
    ground (arith, expire_entries_lem c.entry_lifetime now c.entries v.few_sent)

-- What `makeRoom` evicts is in the cache.
find-cons :
    (k j : Ipv4Address) (e : Entry) (m : List (Ipv4Address × Entry))
    → (v : Entry) × (find_entry k m ≡ some v)
    → (v : Entry) × (find_entry k ((j, e) ∷ m) ≡ some v)
unfolding Map.find
find-cons k j e m (v, h) = elim (Bool-cases (ip_equal j k)) [
  | inl p ↦ (e, ground arith)
  | inr p ↦ (v, ground arith)
]

find-head :
    (j : Ipv4Address) (e : Entry) (m : List (Ipv4Address × Entry))
    → find_entry j ((j, e) ∷ m) ≡ some e
unfolding Map.find
find-head j e m = ground (arith, ip_equal_iff j j)

found_head :
    (ip : Ipv4Address) (e : Entry) (m : List (Ipv4Address × Entry)) (o : Ipv4Address × Entry)
    → some (ip, e) ≡ some o
    → (v : Entry) × (find_entry o.0 ((ip, e) ∷ m) ≡ some v)
found_head ip e m (jp, f) q = (e, cc (find-head ip e m))

chosen :
    {A : Type 0} (b c : Bool) (x y r : Option A)
    → (if b then x else if c then y else x) ≡ r
    → (x ≡ r) ⊎ (y ≡ r)
chosen true c x y r h = inl h
chosen false true x y r h = inr h
chosen false false x y r h = inl h

-- The loop ends with the candidate that it started from, or with one of the map.
oldest_from-found :
    (acc : Option (Ipv4Address × Entry)) (m : List (Ipv4Address × Entry)) (o : Ipv4Address × Entry)
    → oldest_from acc m ≡ some o
    → (acc ≡ some o) ⊎ ((v : Entry) × (find_entry o.0 m ≡ some v))
unfolding oldest_from
oldest_from-found acc [] o h = inl h
oldest_from-found none ((ip, e) ∷ m) o h =
    elim (oldest_from-found (if is_incomplete e.state then none else some (ip, e)) m o h) [
      | inl q ↦ elim (chosen (is_incomplete e.state) true none (some (ip, e)) (some o) q) [
        | inl z ↦ cc
        | inr z ↦ inr (found_head ip e m o z)
      ]
      | inr f ↦ inr (find-cons o.0 ip e m f)
    ]
oldest_from-found (some (jp, old)) ((ip, e) ∷ m) o h =
    elim (oldest_from-found
      (if is_incomplete e.state
        then some (jp, old)
        else if ltb e.updated_at old.updated_at
        then some (ip, e)
        else some (jp, old))
      m o h) [
        | inl q ↦
            elim (chosen (is_incomplete e.state) (ltb e.updated_at old.updated_at) (some (jp, old))
              (some (ip, e)) (some o) q) [ inl z ↦ inl z | inr z ↦ inr (found_head ip e m o z) ]
        | inr f ↦ inr (find-cons o.0 ip e m f)
      ]

-- After `makeRoom` says that there is room, there is; it evicts at most one entry.
make_room_lem :
    (c : ArpCache)
    → IsBounded c
    → IsBounded (make_room c).1
      × ((make_room c).1.capacity ≡ c.capacity)
      × ((make_room c).0 ≡ true → length (make_room c).1.entries < c.capacity)
unfolding make_room
make_room_lem c v = elim (Bool-cases (ltb (length c.entries) c.capacity)) [
  | inl p ↦ ground arith
  | inr p ↦ elim (Option-cases (oldest_from none c.entries)) [
    | inl q ↦ ground arith
    | inr (o, q) ↦ evict o q (oldest_from-found none c.entries o q)
  ]
]
  where
    evict :
        (o : Ipv4Address × Entry)
        → oldest_from none c.entries ≡ some o
        → (none ≡ some o) ⊎ ((e : Entry) × (find_entry o.0 c.entries ≡ some e))
        → IsBounded (make_room c).1
          × ((make_room c).1.capacity ≡ c.capacity)
          × ((make_room c).0 ≡ true → length (make_room c).1.entries < c.capacity)
    evict o q (inl z) = cc
    evict o q (inr (e, f)) = ground (
      arith,
      Map.length-erase ip_equal o.0 e c.entries f,
      Map.All-erase ip_equal FewSent o.0 c.entries v.few_sent,
    )

emplace_with_room-IsBounded :
    (ip : Ipv4Address) (e : Entry) (c : ArpCache)
    → e.transmit_count ≤ arp_max_transmissions
    → IsBounded c
    → IsBounded (emplace_with_room ip e c).1
unfolding emplace_with_room
emplace_with_room-IsBounded ip e c few v = ground (
  arith,
  make_room_lem c v,
  Map.length-emplace ip_equal ip_less ip e (make_room c).1.entries,
  Map.All-emplace ip_equal FewSent ip_less ip e (make_room c).1.entries few,
)

-- `insert` keeps the cache within its capacity and every counter within three.
pub insert-IsBounded :
    (ip : Ipv4Address) (mac : MacAddress) (now : ℕ) (c : ArpCache)
    → IsBounded c
    → IsBounded (insert ip mac now c)
unfolding insert
insert-IsBounded ip mac now c v = elim (Option-cases (find_entry ip (expire now c).entries)) [
  | inl p ↦
      rw (p, insert)
        (emplace_with_room-IsBounded ip _ (expire now c) (omega arith) (expire-IsBounded now c v))
  | inr (e, p) ↦
      rw (p, insert)
        (ground (
          arith,
          expire-IsBounded now c v,
          Map.length-assign ip_equal ip (resolved_entry mac now) (expire now c).entries,
          Map.All-assign ip_equal FewSent ip (resolved_entry mac now) (expire now c).entries
              (λ j. omega arith),
        ))
]

-- `beginResolution` keeps the cache within its capacity and every counter within
-- three.
pub begin_resolution-IsBounded :
    (ip : Ipv4Address) (now : ℕ) (c : ArpCache)
    → IsBounded c
    → IsBounded (begin_resolution ip now c).1
unfolding begin_resolution
begin_resolution-IsBounded ip now c v = elim (Option-cases (find_entry ip (expire now c).entries)) [
  | inl p ↦
      rw (p, begin_resolution)
        (emplace_with_room-IsBounded ip _ (expire now c) (omega arith) (expire-IsBounded now c v))
  | inr (e, p) ↦ rw (p, begin_resolution) (expire-IsBounded now c v)
]

polled-few :
    (now : ℕ) (e : Entry)
    → e.transmit_count ≤ arp_max_transmissions
    → (polled now e).transmit_count ≤ arp_max_transmissions
unfolding polled poll_action
polled-few now e h = ground arith

poll_entries_lem :
    (now : ℕ) (m : List (Ipv4Address × Entry))
    → All FewSent m
    → (length (poll_entries now m).1 ≡ length m) × All FewSent (poll_entries now m).1
unfolding poll_entries
poll_entries_lem now [] p = (refl, tt)
poll_entries_lem now ((ip, e) ∷ m) p =
    let rest = poll_entries_lem now m p.1 in (ap suc rest.0, (polled-few now e p.0, rest.1))

-- `poll`, which counts transmissions up, keeps the cache within its capacity and every counter within
-- three.
pub poll-IsBounded : (now : ℕ) (c : ArpCache) → IsBounded c → IsBounded (poll now c).1
unfolding poll
poll-IsBounded now c v =
    ground (arith, expire-IsBounded now c v, poll_entries_lem now (expire now c).entries)

pub lookup-IsBounded :
    (ip : Ipv4Address) (now : ℕ) (c : ArpCache) → IsBounded c → IsBounded (lookup ip now c).1
unfolding lookup
lookup-IsBounded ip now c v = ground (arith, expire-IsBounded now c v)

-- Every operation of the cache.
pub data Step : ArpCache → ArpCache → Type 0 where
  inserts :
      (ip : Ipv4Address) (mac : MacAddress) (now : ℕ) (c : ArpCache) → Step c (insert ip mac now c)
  looks_up : (ip : Ipv4Address) (now : ℕ) (c : ArpCache) → Step c (lookup ip now c).1
  begins : (ip : Ipv4Address) (now : ℕ) (c : ArpCache) → Step c (begin_resolution ip now c).1
  polls : (now : ℕ) (c : ArpCache) → Step c (poll now c).1

pub data Reach (c : ArpCache) : ArpCache → Type 0 where
  start : Reach c c
  later : {d e : ArpCache} → Reach c d → Step d e → Reach c e

Step-IsBounded : {c d : ArpCache} → Step c d → IsBounded c → IsBounded d
Step-IsBounded (inserts ip mac now c) v = insert-IsBounded ip mac now c v
Step-IsBounded (looks_up ip now c) v = lookup-IsBounded ip now c v
Step-IsBounded (begins ip now c) v = begin_resolution-IsBounded ip now c v
Step-IsBounded (polls now c) v = poll-IsBounded now c v

-- Whatever sequence of insertions, lookups, resolutions and polls a cache goes through, it stays
-- within its capacity, and no entry's transmit counter exceeds three.
pub Reach-IsBounded : {c d : ArpCache} → IsBounded c → Reach c d → IsBounded d
Reach-IsBounded v start = v
Reach-IsBounded v (later r s) = Step-IsBounded s (Reach-IsBounded v r)
