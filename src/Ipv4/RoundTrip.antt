-- ===== src/Ipv4/RoundTrip.antt =====
-- An IPv4 packet is parsed back from its serialization, header checksum included.
use wirestack.Common.{ℕ, ◌+◌, ◌≤◌, ◌≡◌, refl, List, [], ◌∷◌, ◌++◌, arith, ok, length}
use wirestack.Common.{length-append, take-append_left, set}
use wirestack.Bytes.{byte_of, u16}
use wirestack.Address.{write_ipv4_address}
use wirestack.Bytes.Laws.{join16-byte_of, byte_of-IsByte}
use wirestack.Checksum.{internet_checksum}
use wirestack.Checksum.Correct.{internet_checksum-filled_self}
use wirestack.Ipv4.{Ipv4Packet, IsPacket, parse_ipv4_packet, serialize_ipv4_packet, unsummed_header}
use wirestack.Ipv4.{header_size, max_total_length}

-- The header that is sent.
header_of : Ipv4Packet → List ℕ
header_of p =
    let c = internet_checksum (unsummed_header p) in
    set (set (unsummed_header p) 10 (byte_of 1 c)) 11 (byte_of 0 c)

header_of-verifies : (p : Ipv4Packet) → IsPacket p → internet_checksum (header_of p) ≡ 0
unfolding header_of unsummed_header
header_of-verifies p v =
    internet_checksum-filled_self 5
      (0x45
        ∷ p.dscp_ecn
        ∷ byte_of 1 (u16 (header_size + length p.payload))
        ∷ byte_of 0 (u16 (header_size + length p.payload))
        ∷ byte_of 1 p.identification
        ∷ byte_of 0 p.identification
        ∷ byte_of 1 0
        ∷ byte_of 0 0
        ∷ p.ttl
        ∷ p.protocol
        ∷ [])
      (write_ipv4_address p.source ++ write_ipv4_address p.destination) refl
      (omega (arith, byte_of-IsByte)) (omega arith) (omega arith)

serialize-header_of :
    (p : Ipv4Packet)
    → header_size + length p.payload ≤ max_total_length
    → serialize_ipv4_packet p ≡ ok (header_of p ++ p.payload)
unfolding serialize_ipv4_packet header_of unsummed_header
serialize-header_of p fits = ground arith

-- Every packet whose total length fits 16 bits is parsed back from its serialization, whatever
-- padding the link layer leaves behind it: the checksum verifies and the padding is cut off.
pub parse_ipv4_packet-serialize :
    (p : Ipv4Packet) (padding : List ℕ)
    → IsPacket p
    → header_size + length p.payload ≤ max_total_length
    → (xs : List ℕ) × (serialize_ipv4_packet p ≡ ok xs) × (parse_ipv4_packet (xs ++ padding) ≡ ok p)
unfolding parse_ipv4_packet header_of unsummed_header
parse_ipv4_packet-serialize p padding v fits = (
  header_of p ++ p.payload,
  serialize-header_of p fits,
  ground (
    arith,
    header_of-verifies p v,
    join16-byte_of (u16 (header_size + length p.payload)),
    join16-byte_of p.identification,
    join16-byte_of 0,
    length-append p.payload padding,
    take-append_left (length p.payload) p.payload padding,
  ),
)
