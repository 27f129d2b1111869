-- ===== src/ArpCache/Lookup.antt =====
-- What `lookup` returns: what was inserted, for as long as it lives, and never anything older.
use wirestack.Common.{ℕ, ◌+◌, ◌<◌, ◌≡◌, List, [], ◌∷◌, false, arith, some}
use wirestack.Common.{length, Option-cases, inl, inr}
use wirestack.Common.Map
use wirestack.Address.{MacAddress, Ipv4Address, ip_equal, ip_less}
use wirestack.Address.Laws.{ip_equal_iff}
use wirestack.ArpCache.{
  ArpCache, Entry, resolved_entry, find_entry, expired, expire_entries, expire,
}
use wirestack.ArpCache.{make_room, emplace_with_room, insert, lookup, resolved}

-- Expiry does not touch an entry that is still alive.
pub find-expire_entries :
    (lifetime now : ℕ) (ip : Ipv4Address) (e : Entry) (m : List (Ipv4Address × Entry))
    → expired lifetime now e ≡ false
    → find_entry ip m ≡ some e
    → find_entry ip (expire_entries lifetime now m) ≡ some e
unfolding expire_entries Map.find
find-expire_entries lifetime now ip e [] fresh h = h
find-expire_entries lifetime now ip e ((jp, f) ∷ m) fresh h =
    ground (arith, find-expire_entries lifetime now ip e m fresh)

find-expire_entries_fresh :
    (lifetime now : ℕ) (ip : Ipv4Address) (e : Entry) (m : List (Ipv4Address × Entry))
    → find_entry ip (expire_entries lifetime now m) ≡ some e
    → expired lifetime now e ≡ false
unfolding expire_entries Map.find
find-expire_entries_fresh lifetime now ip e [] h = cc
find-expire_entries_fresh lifetime now ip e ((jp, f) ∷ m) h =
    ground (arith, find-expire_entries_fresh lifetime now ip e m)

find-insert :
    (ip : Ipv4Address) (mac : MacAddress) (now : ℕ) (c : ArpCache)
    → length (expire now c).entries < (expire now c).capacity
    → (find_entry ip (insert ip mac now c).entries ≡ some (resolved_entry mac now))
      × ((insert ip mac now c).entry_lifetime ≡ c.entry_lifetime)
unfolding insert emplace_with_room make_room expire
find-insert ip mac now c room = elim (Option-cases (find_entry ip (expire now c).entries)) [
  | inl p ↦ ground (
    arith,
    Map.find-emplace ip_equal ip_equal_iff ip_less ip ip (resolved_entry mac now)
        (expire now c).entries p,
    ip_equal_iff ip ip,
  )
  | inr (e, p) ↦ ground (
    arith,
    Map.find-assign ip_equal ip_equal_iff ip ip (resolved_entry mac now) e (expire now c).entries p,
    ip_equal_iff ip ip,
  )
]

-- A mapping inserted into a cache with room is found at every time before its lifetime is over.
pub lookup-insert :
    (ip : Ipv4Address) (mac : MacAddress) (now later : ℕ) (c : ArpCache)
    → length (expire now c).entries < (expire now c).capacity
    → later < now + c.entry_lifetime
    → (lookup ip later (insert ip mac now c)).0 ≡ some mac
unfolding lookup expire
lookup-insert ip mac now later c room alive = ground (
  arith,
  find-insert ip mac now c room,
  find-expire_entries (insert ip mac now c).entry_lifetime later ip (resolved_entry mac now)
      (insert ip mac now c).entries
      (unfold expired in ground (arith, find-insert ip mac now c room)),
)

-- A mapping for a key that the cache holds is found, with room or without.
pub lookup-insert_known :
    (ip : Ipv4Address) (mac : MacAddress) (now later : ℕ) (e : Entry) (c : ArpCache)
    → find_entry ip (expire now c).entries ≡ some e
    → later < now + c.entry_lifetime
    → (lookup ip later (insert ip mac now c)).0 ≡ some mac
unfolding lookup insert expire
lookup-insert_known ip mac now later e c p alive =
    let entries = Map.assign ip_equal ip (resolved_entry mac now) (expire now c).entries in
    let found : find_entry ip entries ≡ some (resolved_entry mac now) = ground (
      arith,
      Map.find-assign ip_equal ip_equal_iff ip ip (resolved_entry mac now) e (expire now c).entries
          p,
      ip_equal_iff ip ip,
    ) in
    let kept =
      find-expire_entries c.entry_lifetime later ip (resolved_entry mac now) entries
        (unfold expired in ground arith) found in
    ground (arith, p, kept)

-- Whatever `lookup` returns is the address of the entry for that key that expiry leaves, which is
-- resolved and whose lifetime is not over.
pub lookup-fresh :
    (ip : Ipv4Address) (mac : MacAddress) (now : ℕ) (c : ArpCache)
    → (lookup ip now c).0 ≡ some mac
    → (e : Entry) × (find_entry ip (expire now c).entries ≡ some e)
      × (e.mac ≡ some mac)
      × (e.state ≡ resolved)
      × (now < e.updated_at + c.entry_lifetime)
unfolding lookup expire
lookup-fresh ip mac now c h = elim (Option-cases (find_entry ip (expire now c).entries)) [
  | inl p ↦ absurd (ground arith)
  | inr (e, p) ↦ (
    e,
    p,
    ground arith,
    ground arith,
    unfold expired in
        ground (arith, find-expire_entries_fresh c.entry_lifetime now ip e c.entries p),
  )
]
