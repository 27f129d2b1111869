-- ===== src/EventLoop/Send/Frame.antt =====
-- What `send_packet` hands to the device is read back as the packet, on the other side.
use wirestack.Common.{
  ℕ, zero, suc, ◌+◌, ◌≤◌, ◌≡◌, refl, ap, sym, subst, ◌∙◌, take, List, [], ◌∷◌, ◌++◌, ok, arith, set,
}
use wirestack.Common.{All-append, length, length-append, append-nil}
use wirestack.Bytes.{IsByte, IsBytes, byte_at, byte_of}
use wirestack.Bytes.Laws.{byte_of-IsByte}
use wirestack.Address.{MacAddress, IsMac}
use wirestack.Checksum.{internet_checksum}
use wirestack.Ethernet.{IsFrame, parse_ethernet_frame, serialize_ethernet_frame}
use wirestack.Ethernet.RoundTrip.{parse_ethernet_frame-serialize}
use wirestack.Ipv4.{
  Ipv4Packet, IsPacket, serialize_ipv4_packet, parse_ipv4_packet, unsummed_header, header_size,
}
use wirestack.Ipv4.RoundTrip.{parse_ipv4_packet-serialize}
use wirestack.EventLoop.Arp.{Host}
use wirestack.EventLoop.Send.{frame_from, send_packet}

pub byte_at-IsByte : (xs : List ℕ) (i : ℕ) → IsBytes xs → IsByte (byte_at xs i)
byte_at-IsByte [] i p = omega arith
byte_at-IsByte (x ∷ xs) zero p = p.0
byte_at-IsByte (x ∷ xs) (suc i) p = byte_at-IsByte xs i p.1

pub set-IsBytes : (xs : List ℕ) (i b : ℕ) → IsBytes xs → IsByte b → IsBytes (set xs i b)
set-IsBytes [] i b p q = tt
set-IsBytes (x ∷ xs) zero b p q = (q, p.1)
set-IsBytes (x ∷ xs) (suc i) b p q = (p.0, set-IsBytes xs i b p.1 q)

pub length-set : (xs : List ℕ) (i b : ℕ) → length (set xs i b) ≡ length xs
length-set [] i b = refl
length-set (x ∷ xs) zero b = refl
length-set (x ∷ xs) (suc i) b = ap suc (length-set xs i b)

unsummed_header-IsBytes : (p : Ipv4Packet) → IsPacket p → IsBytes (unsummed_header p)
unfolding unsummed_header
unsummed_header-IsBytes p v =
    let (s0, s1, s2, s3) = v.source_bytes in
    let (d0, d1, d2, d3) = v.destination_bytes in
    (
      omega arith,
      search (
        byte_of-IsByte, v.dscp_ecn_byte, v.ttl_byte, v.protocol_byte, s0, s1, s2, s3, d0, d1, d2,
        d3,
      ),
    )

length-unsummed_header : (p : Ipv4Packet) → length (unsummed_header p) ≡ header_size
unfolding unsummed_header
length-unsummed_header p = refl

-- A packet in range is serialized to its header and its payload.
pub serialize_ipv4_packet-bytes :
    (p : Ipv4Packet) (xs : List ℕ)
    → IsPacket p
    → serialize_ipv4_packet p ≡ ok xs
    → IsBytes xs × (length xs ≡ header_size + length p.payload)
unfolding serialize_ipv4_packet
serialize_ipv4_packet-bytes p xs v h =
    let out = unsummed_header p in
    let checksum = internet_checksum (take header_size out) in
    let first = set out 10 (byte_of 1 checksum) in
    let header = set first 11 (byte_of 0 checksum) in
    let valid : IsBytes header =
      set-IsBytes first 11 (byte_of 0 checksum)
        (set-IsBytes out 10 (byte_of 1 checksum) (unsummed_header-IsBytes p v)
          (byte_of-IsByte 1 checksum))
        (byte_of-IsByte 0 checksum) in
    let size : length header ≡ header_size =
      length-set first 11 (byte_of 0 checksum)
      ∙ length-set out 10 (byte_of 1 checksum)
      ∙ length-unsummed_header p in
    let written : header ++ p.payload ≡ xs = ground (arith, h) in
    (
      subst IsBytes written (All-append IsByte header p.payload valid v.payload_bytes),
      ap length (sym written) ∙ omega (arith, length-append header p.payload, size),
    )

-- Another host reads from the one frame that is sent the packet, with the addresses of the frame.
pub send_packet-read :
    (host : Host) (remote_mac : MacAddress) (p : Ipv4Packet)
    → IsMac host.mac
    → IsMac remote_mac
    → IsPacket p
    → 34 + length p.payload ≤ 65535
    → (answer xs : List ℕ) × (send_packet host remote_mac p ≡ answer ∷ [])
      × (parse_ethernet_frame answer ≡ ok (frame_from host remote_mac xs))
      × (parse_ipv4_packet xs ≡ ok p)
unfolding send_packet
send_packet-read host remote_mac p local remote v fits =
    let (xs, written, read) = parse_ipv4_packet-serialize p [] v (omega arith) in
    let (valid, size) = serialize_ipv4_packet-bytes p xs v written in
    let frame = frame_from host remote_mac xs in
    let in_range : IsFrame frame = record {
      destination_mac = remote;
      source_mac = local;
      type_fits = omega arith;
      payload_bytes = valid;
    } in
    (
      serialize_ethernet_frame frame,
      xs,
      rw (send_packet, written) refl,
      parse_ethernet_frame-serialize frame in_range (omega arith),
      ap parse_ipv4_packet (sym (append-nil xs)) ∙ read,
    )
