-- ===== src/EventLoop/Arp.antt =====
-- `sendArpRequest`, `resolveNeighbor` and `handleArp`.
pub mod Resolve
pub mod Exchange
use wirestack.Common.{ℕ, List, [], ◌∷◌, Bool, true, false, not, ◌||◌, if◌then◌else◌}
use wirestack.Common.{Option, none, some, ok, err}
use wirestack.Address.{MacAddress, Ipv4Address, zero_mac, broadcast, mac_equal, ip_equal}
use wirestack.Address.{is_broadcast}
use wirestack.Ethernet.{EthernetFrame, serialize_ethernet_frame}
use wirestack.Arp.{
  ArpPacket, parse_arp_packet, serialize_arp_packet, make_arp_request, is_arp_reply_for,
  maybe_reply, is_reply,
}
use wirestack.ArpCache.{
  ArpCache, ArpNeighborState, is_incomplete, insert, lookup, begin_resolution, state_of,
}

-- `local_ip` and `local_mac`, which every handler is given.
pub record Host : Type 0 where
  pub ip : Ipv4Address
  pub mac : MacAddress

-- The frames handed to `tap.write`.
abbrev pub Frames : Type 0
Frames = List (List ℕ)

abbrev pub ether_type_arp : ℕ
ether_type_arp = 0x0806

-- `Ipv4Address{}`
abbrev pub zero_ip : Ipv4Address
zero_ip = record { a0 = 0; a1 = 0; a2 = 0; a3 = 0 }

abbrev pub arp_frame : Host → MacAddress → ArpPacket → List ℕ
arp_frame host destination packet = serialize_ethernet_frame (record {
  destination = destination;
  source = host.mac;
  ether_type = ether_type_arp;
  payload = serialize_arp_packet packet;
})

unfoldable pub send_arp_request : Host → Ipv4Address → List ℕ
send_arp_request host target_ip =
    arp_frame host broadcast (make_arp_request host.ip host.mac target_ip)

-- The address if it is known, the frames sent, and the cache after it.
unfoldable pub resolve_neighbor :
    Host → Ipv4Address → ℕ → ArpCache → Option MacAddress × Frames × ArpCache
resolve_neighbor host target_ip now cache =
    let (known, looked) = lookup target_ip now cache in
    let (first, begun) = begin_resolution target_ip now looked in
    elim known [
      | some mac ↦ (some mac, [], looked)
      | none ↦ (none, if first then send_arp_request host target_ip ∷ [] else [], begun)
    ]

unfoldable pub invalid_sender : EthernetFrame → ArpPacket → Bool
invalid_sender frame packet =
    not (mac_equal frame.source packet.sender_mac)
    || mac_equal packet.sender_mac zero_mac
    || is_broadcast packet.sender_mac

abbrev pub awaited : Option ArpNeighborState → Bool
awaited none = false
awaited (some state) = is_incomplete state

-- The cache reads the clock once for `stateOf` and once for `insert`.
unfoldable pub handle_arp_reply : Host → EthernetFrame → ArpPacket → ℕ → ℕ → ArpCache → ArpCache
handle_arp_reply host frame packet asked learned cache =
    let (state, after) = state_of packet.sender_ip asked cache in
    if not (mac_equal frame.destination host.mac) || not (is_arp_reply_for packet host.ip host.mac)
    then cache
    else if not (awaited state)
    then after
    else insert packet.sender_ip packet.sender_mac learned after

unfoldable pub handle_arp_request : Host → ArpPacket → ℕ → ArpCache → Frames × ArpCache
handle_arp_request host packet learned cache = elim (maybe_reply packet host.ip host.mac) [
  | none ↦ ([], cache)
  | some reply ↦ (
    arp_frame host packet.sender_mac reply ∷ [],
    if ip_equal packet.sender_ip zero_ip
        then cache
        else insert packet.sender_ip packet.sender_mac learned cache,
  )
]

unfoldable pub handle_arp : Host → EthernetFrame → ℕ → ℕ → ArpCache → Frames × ArpCache
handle_arp host frame asked learned cache = elim (parse_arp_packet frame.payload) [
  | err e ↦ ([], cache)
  | ok packet ↦
      if invalid_sender frame packet
      then ([], cache)
      else if is_reply packet.operation
      then ([], handle_arp_reply host frame packet asked learned cache)
      else handle_arp_request host packet learned cache
]
