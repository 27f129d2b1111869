-- ===== src/EventLoop/Arp/Exchange.antt =====
-- The frames that two hosts exchange, and what each makes of the other's.
use wirestack.Common.{ℕ, ◌≡◌, ◌≢◌, refl, sym, ap, ◌∙◌, [], ◌∷◌}
use wirestack.Common.{ok, arith, true, false, length, append-nil}
use wirestack.Bytes.{IsByte, IsBytes}
use wirestack.Bytes.Laws.{byte_of-IsByte}
use wirestack.Address.{MacAddress, IsMac, IsIpv4, ip_equal, mac_equal}
use wirestack.Address.{broadcast, zero_mac, is_broadcast}
use wirestack.Address.Laws.{ip_equal_iff, mac_equal_iff}
use wirestack.Ethernet.{EthernetFrame, parse_ethernet_frame}
use wirestack.Ethernet.RoundTrip.{parse_ethernet_frame-serialize}
use wirestack.Arp.{
  ArpPacket, parse_arp_packet, serialize_arp_packet, make_arp_request, make_arp_reply,
  is_arp_reply_for, maybe_reply,
}
use wirestack.Arp.RoundTrip.{parse_arp_packet-serialize}
use wirestack.ArpCache.{ArpCache, insert, state_of}
use wirestack.EventLoop.Arp.{
  Host, arp_frame, handle_arp, handle_arp_reply, handle_arp_request, invalid_sender, awaited,
  ether_type_arp, zero_ip,
}

-- The frames of the exchange.
abbrev pub request_packet : Host → Host → ArpPacket
request_packet a b = make_arp_request a.ip a.mac b.ip

abbrev pub reply_packet : Host → Host → ArpPacket
reply_packet a b = make_arp_reply (request_packet a b) b.ip b.mac

abbrev pub frame_of : Host → MacAddress → ArpPacket → EthernetFrame
frame_of host destination packet = record {
  destination = destination;
  source = host.mac;
  ether_type = ether_type_arp;
  payload = serialize_arp_packet packet;
}

-- A host with a unicast address.
pub record IsHost (host : Host) : Type 0 where
  pub mac_bytes : IsMac host.mac
  pub ip_bytes : IsIpv4 host.ip
  pub not_zero : host.mac ≢ zero_mac
  pub not_broadcast : host.mac ≢ broadcast

valid_sender :
    (host : Host) (destination : MacAddress) (packet : ArpPacket)
    → IsHost host
    → packet.sender_mac ≡ host.mac
    → invalid_sender (frame_of host destination packet) packet ≡ false
unfolding invalid_sender is_broadcast
valid_sender host destination packet v same = ground (
  arith,
  v.not_zero,
  v.not_broadcast,
  mac_equal_iff host.mac packet.sender_mac,
  mac_equal_iff packet.sender_mac zero_mac,
  mac_equal_iff packet.sender_mac broadcast,
)

parsed_back : (packet : ArpPacket) → parse_arp_packet (serialize_arp_packet packet) ≡ ok packet
parsed_back packet =
    ap parse_arp_packet (sym (append-nil (serialize_arp_packet packet)))
    ∙ parse_arp_packet-serialize packet []

-- The owner answers the request, and learns the address of the host that asked.
pub request_handled :
    (a b : Host) (asked learned : ℕ) (cache : ArpCache)
    → IsHost a
    → a.ip ≢ zero_ip
    → handle_arp b (frame_of a broadcast (request_packet a b)) asked learned cache
      ≡ (arp_frame b a.mac (reply_packet a b) ∷ [], insert a.ip a.mac learned cache)
unfolding make_arp_request make_arp_reply handle_arp handle_arp_request maybe_reply
request_handled a b asked learned cache v known =
    let valid = valid_sender a broadcast (request_packet a b) v refl in
    let own : ip_equal b.ip b.ip ≡ true = ground (arith, ip_equal_iff b.ip b.ip) in
    let not_zero : ip_equal a.ip zero_ip ≡ false = ground (arith, ip_equal_iff a.ip zero_ip) in
    rw (handle_arp, parsed_back (request_packet a b), valid)
      (rw (handle_arp_request, maybe_reply, own, not_zero) refl)

-- The host that asked, with the address still awaited, learns it and sends nothing.
pub reply_handled :
    (a b : Host) (asked learned : ℕ) (cache : ArpCache)
    → IsHost b
    → awaited (state_of b.ip asked cache).0 ≡ true
    → handle_arp a (frame_of b a.mac (reply_packet a b)) asked learned cache
      ≡ ([], insert b.ip b.mac learned (state_of b.ip asked cache).1)
unfolding make_arp_request make_arp_reply handle_arp handle_arp_reply is_arp_reply_for
reply_handled a b asked learned cache v waits =
    let valid = valid_sender b a.mac (reply_packet a b) v refl in
    let own : mac_equal a.mac a.mac ≡ true = ground (arith, mac_equal_iff a.mac a.mac) in
    let target : ip_equal a.ip a.ip ≡ true = ground (arith, ip_equal_iff a.ip a.ip) in
    rw (handle_arp, parsed_back (reply_packet a b), valid)
      (rw (handle_arp_reply, is_arp_reply_for, own, target, waits) refl)

pub frame_read :
    (host : Host) (destination : MacAddress) (packet : ArpPacket)
    → IsHost host
    → IsMac destination
    → IsBytes (serialize_arp_packet packet)
    → length (serialize_arp_packet packet) ≡ 28
    → parse_ethernet_frame (arp_frame host destination packet)
      ≡ ok (frame_of host destination packet)
frame_read host destination packet v target bytes size =
    parse_ethernet_frame-serialize (frame_of host destination packet)
      (record {
        destination_mac = target;
        source_mac = v.mac_bytes;
        type_fits = omega arith;
        payload_bytes = bytes;
      })
      (omega arith)

pub packet_bytes :
    (packet : ArpPacket)
    → IsMac packet.sender_mac
    → IsIpv4 packet.sender_ip
    → IsMac packet.target_mac
    → IsIpv4 packet.target_ip
    → IsBytes (serialize_arp_packet packet) × (length (serialize_arp_packet packet) ≡ 28)
unfolding serialize_arp_packet
packet_bytes packet (m0, m1, m2, m3, m4, m5) (i0, i1, i2, i3) (n0, n1, n2, n3, n4, n5)
      (j0, j1, j2, j3) =
    let six : IsByte 6 = omega arith in
    let four : IsByte 4 = omega arith in
    (
      search (
        byte_of-IsByte, six, four, m0, m1, m2, m3, m4, m5, i0, i1, i2, i3, n0, n1, n2, n3, n4, n5,
        j0, j1, j2, j3,
      ),
      omega arith,
    )
