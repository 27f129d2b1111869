-- ===== src/EventLoop/Arp/Resolve.antt =====
-- Two hosts resolve an address: the request, the answer to it, and what the answer teaches.
use wirestack.Common.{ℕ, ◌+◌, ◌≤◌, ◌<◌, ◌≡◌, ◌≢◌, refl, ap, ◌∙◌, List, [], ◌∷◌}
use wirestack.Common.{ok, arith, true, none, some, length}
use wirestack.Common.Map
use wirestack.Address.{Ipv4Address, IsMac, ip_equal, ip_less}
use wirestack.Address.{broadcast, zero_mac}
use wirestack.Address.Laws.{ip_equal_iff}
use wirestack.Ethernet.{parse_ethernet_frame}
use wirestack.Arp.{make_arp_request, make_arp_reply}
use wirestack.ArpCache.Lookup.{find-expire_entries, lookup-insert_known}
use wirestack.ArpCache.{
  Entry, incomplete, emplace_with_room, make_room, expire_entries, expired, ArpCache, insert,
  lookup, begin_resolution, state_of, find_entry, expire, incomplete_entry,
}
use wirestack.EventLoop.Arp.{
  Host, arp_frame, send_arp_request, resolve_neighbor, handle_arp, awaited, zero_ip,
}
use wirestack.EventLoop.Arp.Exchange.{
  request_packet, reply_packet, frame_of, IsHost, request_handled, reply_handled, frame_read,
  packet_bytes,
}

find-expire_none :
    (lifetime now : ℕ) (ip : Ipv4Address) (m : List (Ipv4Address × Entry))
    → find_entry ip m ≡ none
    → find_entry ip (expire_entries lifetime now m) ≡ none
unfolding expire_entries Map.find
find-expire_none lifetime now ip [] h = refl
find-expire_none lifetime now ip ((jp, e) ∷ m) h =
    ground (arith, find-expire_none lifetime now ip m)

length-expire_le :
    (lifetime now : ℕ) (m : List (Ipv4Address × Entry))
    → length (expire_entries lifetime now m) ≤ length m
unfolding expire_entries
length-expire_le lifetime now [] = omega arith
length-expire_le lifetime now ((jp, e) ∷ m) = ground (arith, length-expire_le lifetime now m)

begin_absent :
    (ip : Ipv4Address) (now : ℕ) (c : ArpCache)
    → find_entry ip c.entries ≡ none
    → length c.entries < c.capacity
    → ((begin_resolution ip now c).0 ≡ true)
      × (find_entry ip (begin_resolution ip now c).1.entries ≡ some (incomplete_entry now))
      × ((begin_resolution ip now c).1.entry_lifetime ≡ c.entry_lifetime)
unfolding begin_resolution emplace_with_room make_room expire
begin_absent ip now c absent room =
    let gone = find-expire_none c.entry_lifetime now ip c.entries absent in
    ground (
      arith,
      gone,
      length-expire_le c.entry_lifetime now c.entries,
      Map.find-emplace ip_equal ip_equal_iff ip_less ip ip (incomplete_entry now)
          (expire now c).entries gone,
      ip_equal_iff ip ip,
    )

nothing_known :
    (ip : Ipv4Address) (now : ℕ) (c : ArpCache)
    → find_entry ip (expire now c).entries ≡ none
    → lookup ip now c ≡ (none, expire now c)
unfolding lookup
nothing_known ip now c absent = rw (lookup, absent) refl

-- What `resolveNeighbor` does for an address that the cache does not hold.
asked_lem :
    (a : Host) (ip : Ipv4Address) (now : ℕ) (c : ArpCache)
    → find_entry ip (expire now c).entries ≡ none
    → length (expire now c).entries < c.capacity
    → resolve_neighbor a ip now c
      ≡ (none, send_arp_request a ip ∷ [], (begin_resolution ip now (expire now c)).1)
unfolding resolve_neighbor
asked_lem a ip now c absent room =
    let first = (begin_absent ip now (expire now c) absent (unfold expire in room)).0 in
    let gone : (lookup ip now c).0 ≡ none = ap (λ r. r.0) (nothing_known ip now c absent) in
    let after : (lookup ip now c).1 ≡ expire now c =
      ap (λ r. r.1) (nothing_known ip now c absent) in
    rw (resolve_neighbor, gone, after, first) refl

-- An incomplete entry does not expire.
still_awaited :
    (ip : Ipv4Address) (sent now : ℕ) (c : ArpCache)
    → find_entry ip c.entries ≡ some (incomplete_entry sent)
    → find_entry ip (expire now c).entries ≡ some (incomplete_entry sent)
unfolding expire expired
still_awaited ip sent now c h =
    find-expire_entries c.entry_lifetime now ip (incomplete_entry sent) c.entries refl h

state_awaited :
    (ip : Ipv4Address) (sent now : ℕ) (c : ArpCache)
    → find_entry ip c.entries ≡ some (incomplete_entry sent)
    → state_of ip now c ≡ (some incomplete, expire now c)
unfolding state_of
state_awaited ip sent now c h = rw (state_of, still_awaited ip sent now c h) refl

-- Two hosts, the first without an entry for the second and with room for one. The first's
-- `resolveNeighbor` sends one frame; the second reads it, answers it with one frame, and learns the
-- first's address; the first reads the answer, sends nothing, and from then on finds the second's
-- MAC address until the lifetime of its cache's entries is over.
pub resolution_succeeds :
    (a b : Host) (now asked_b learned_b asked_a learned_a later : ℕ) (ca cb : ArpCache)
    → IsHost a
    → IsHost b
    → a.ip ≢ zero_ip
    → find_entry b.ip (expire now ca).entries ≡ none
    → length (expire now ca).entries < ca.capacity
    → later < learned_a + ca.entry_lifetime
    → let begun = (begin_resolution b.ip now (expire now ca)).1 in
      let question = arp_frame a broadcast (request_packet a b) in
      let answer = arp_frame b a.mac (reply_packet a b) in
      let asking = frame_of a broadcast (request_packet a b) in
      let answering = frame_of b a.mac (reply_packet a b) in
      (resolve_neighbor a b.ip now ca ≡ (none, question ∷ [], begun))
      × (parse_ethernet_frame question ≡ ok asking)
      × (handle_arp b asking asked_b learned_b cb ≡ (answer ∷ [], insert a.ip a.mac learned_b cb))
      × (parse_ethernet_frame answer ≡ ok answering)
      × ((handle_arp a answering asked_a learned_a begun).0 ≡ [])
      × ((lookup b.ip later (handle_arp a answering asked_a learned_a begun).1).0 ≡ some b.mac)
unfolding make_arp_request make_arp_reply send_arp_request
resolution_succeeds a b now asked_b learned_b asked_a learned_a later ca cb va vb known absent room
      alive =
    let begun = (begin_resolution b.ip now (expire now ca)).1 in
    let (first, entered, lifetime) =
      begin_absent b.ip now (expire now ca) absent (unfold expire in room) in
    let zero : IsMac zero_mac =
      (omega arith, omega arith, omega arith, omega arith, omega arith, omega arith) in
    let ones : IsMac broadcast =
      (omega arith, omega arith, omega arith, omega arith, omega arith, omega arith) in
    let (question_bytes, question_size) =
      packet_bytes (request_packet a b) va.mac_bytes va.ip_bytes zero vb.ip_bytes in
    let (answer_bytes, answer_size) =
      packet_bytes (reply_packet a b) vb.mac_bytes vb.ip_bytes va.mac_bytes va.ip_bytes in
    let waiting = state_awaited b.ip now asked_a begun entered in
    let handled =
      reply_handled a b asked_a learned_a begun vb (ap (λ s. awaited s.0) waiting)
      ∙ ap (λ s. ([], insert b.ip b.mac learned_a s.1)) waiting in
    let awaits = still_awaited b.ip now asked_a begun entered in
    let kept : begun.entry_lifetime ≡ ca.entry_lifetime = unfold expire in lifetime in
    let in_time : later < learned_a + (expire asked_a begun).entry_lifetime =
      unfold expire in omega arith in
    let waits = still_awaited b.ip now learned_a (expire asked_a begun) awaits in
    (
      asked_lem a b.ip now ca absent room,
      frame_read a broadcast (request_packet a b) va ones question_bytes question_size,
      request_handled a b asked_b learned_b cb va known,
      frame_read b a.mac (reply_packet a b) vb va.mac_bytes answer_bytes answer_size,
      ap (λ r. r.0) handled,
      ap (λ r. (lookup b.ip later r.1).0) handled
          ∙ lookup-insert_known b.ip b.mac learned_a later (incomplete_entry now)
              (expire asked_a begun) waits in_time,
    )
