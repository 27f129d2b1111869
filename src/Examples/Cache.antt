-- ===== src/Examples/Cache.antt =====
-- The neighbour cache and the UDP table at concrete contents.
use wirestack.Common.Map
use wirestack.ArpCache.{
  expire, expire_entries, emplace_with_room, make_room, poll_entries, poll_action, is_due, expired,
  polled, arp_max_transmissions,
}
use wirestack.ArpCache.Requests.{requests_bounded, occurrences, polling, resolving, empty}
use wirestack.Address.{ip_equal}
use wirestack.Common.{◌*◌, ◌≤◌, refl, length, [], ◌∷◌}
use wirestack.Address.{MacAddress, Ipv4Address}
use wirestack.ArpCache.{ArpCache}
use wirestack.ArpCache.{begin_resolution, poll}
use wirestack.ArpCache.{resolved_entry}
use wirestack.UdpEndpoint.{UdpHandler}

abbrev mac_c : MacAddress
mac_c = record { m0 = 2; m1 = 0; m2 = 0; m3 = 0; m4 = 0; m5 = 3 }

abbrev ip_c : Ipv4Address
ip_c = record { a0 = 10; a1 = 0; a2 = 0; a3 = 3 }

abbrev ip_d : Ipv4Address
ip_d = record { a0 = 10; a1 = 0; a2 = 0; a3 = 4 }

-- A cache of one entry, which is full.
abbrev one_entry : ArpCache
one_entry = record {
  capacity = 1;
  entry_lifetime = 300_000_000_000;
  entries = (ip_c, resolved_entry mac_c 0) ∷ [];
}

abbrev empty_cache : ArpCache
empty_cache = record { capacity = 1; entry_lifetime = 300_000_000_000; entries = [] }

-- The echo endpoint on port 9000.
abbrev echo_handler : UdpHandler
echo_handler request = request

-- A resolution is begun at 5 and not answered, and the cache is polled a second later: two requests.
requests_bounded_example :
    let after = (poll 1_000_000_005 (begin_resolution ip_d 5 empty_cache).1).1 in
    (2 ≤ arp_max_transmissions * 1) × (length after.entries ≤ 1)
unfolding begin_resolution expire expire_entries Map.find emplace_with_room make_room Map.emplace
    ip_equal poll poll_entries poll_action is_due occurrences expired polled
requests_bounded_example =
    requests_bounded ip_d 1 2 (poll 1_000_000_005 (begin_resolution ip_d 5 empty_cache).1).1 (
      polling 1 1 1_000_000_005 (begin_resolution ip_d 5 empty_cache).1
        (resolving 0 0 ip_d 5 empty_cache (empty empty_cache refl)))
