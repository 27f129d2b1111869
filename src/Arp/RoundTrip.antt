-- ===== src/Arp/RoundTrip.antt =====
-- Parsing and serializing ARP packets.
use wirestack.Common.{◌⊎◌, ℕ, ◌≡◌, refl, List, ◌∷◌, ◌++◌, arith, ok, length, take}
use wirestack.Bytes.{IsBytes, join16}
use wirestack.Bytes.Laws.{join16-byte_of, byte_of-join16}
use wirestack.Arp.{ArpPacket, ArpOperation, request, reply, parse_arp_packet, serialize_arp_packet}
use wirestack.Arp.{packet_size, operation_code, operation_of}

operation_of-code : (o : ArpOperation) → operation_of (operation_code o) ≡ o
operation_of-code request = refl
operation_of-code reply = refl

length-serialize : (p : ArpPacket) → length (serialize_arp_packet p) ≡ packet_size
unfolding serialize_arp_packet
length-serialize p = refl

-- Every packet is parsed back from its serialization, also where padding follows it as in a
-- minimum-size Ethernet frame; no range hypothesis is needed, since no field is wider than a byte.
pub parse_arp_packet-serialize :
    (p : ArpPacket) (padding : List ℕ) → parse_arp_packet (serialize_arp_packet p ++ padding) ≡ ok p
unfolding parse_arp_packet serialize_arp_packet
parse_arp_packet-serialize p padding =
    ground (
      arith,
      join16-byte_of 1,
      join16-byte_of 2,
      join16-byte_of 2048,
      operation_of-code p.operation,
    )

operation_code-of : (code : ℕ) → (code ≡ 1) ⊎ (code ≡ 2) → operation_code (operation_of code) ≡ code
operation_code-of code h = ground arith

-- Whatever parses begins with the serialization of its packet: the parser ignores nothing but
-- what follows the 28 bytes.
pub serialize_arp_packet-parse :
    (xs : List ℕ) (p : ArpPacket)
    → IsBytes xs
    → parse_arp_packet xs ≡ ok p
    → serialize_arp_packet p ≡ take packet_size xs
unfolding parse_arp_packet serialize_arp_packet
serialize_arp_packet-parse
      (h0 ∷ h1 ∷ p0 ∷ p1 ∷ hs ∷ ps ∷ o0 ∷ o1 ∷ a ∷ b ∷ c ∷ d ∷ e ∷ f ∷ g ∷ h ∷ i ∷ j ∷ k ∷ l ∷ m ∷ n
        ∷ q ∷ r ∷ s ∷ t ∷ u ∷ v ∷ xs)
      p bytes parsed =
    ground (
      arith,
      byte_of-join16 h0 h1,
      byte_of-join16 p0 p1,
      byte_of-join16 o0 o1,
      operation_code-of (join16 o0 o1),
    )
serialize_arp_packet-parse xs p bytes parsed = ground arith
