-- ===== src/Udp/RoundTrip.antt =====
-- A UDP datagram is parsed back from its serialization, its checksum being used and verified.
use wirestack.Common.{ℕ, ◌%◌, ◌+◌, ◌≤◌, ◌<◌, ◌≡◌, ◌≢◌, refl, List, [], ◌∷◌, ◌++◌, arith, ok, length}
use wirestack.Common.{length-append, take-append_left}
use wirestack.Bytes.{read_big_endian16, byte_of, u16}
use wirestack.Bytes.Laws.{join16-byte_of, byte_of-IsByte}
use wirestack.Address.{Ipv4Address, IsIpv4, write_ipv4_address}
use wirestack.Checksum.Correct.{internet_checksum-filled, internet_checksum_lt}
use wirestack.Udp.{UdpDatagram, IsDatagram, parse_udp_datagram, serialize_udp_datagram, unsummed}
use wirestack.Udp.{udp_checksum, sent_checksum, header_size, max_length, checksum_buffer}

-- The datagram that is sent, for a checksum field `c`.
abbrev with_checksum : UdpDatagram → ℕ → List ℕ
with_checksum d c =
    byte_of 1 d.source_port
    ∷ byte_of 0 d.source_port
    ∷ byte_of 1 d.destination_port
    ∷ byte_of 0 d.destination_port
    ∷ byte_of 1 (u16 (header_size + length d.payload))
    ∷ byte_of 0 (u16 (header_size + length d.payload))
    ∷ byte_of 1 c
    ∷ byte_of 0 c
    ∷ d.payload

-- The checksum field that the serializer fills in.
field : UdpDatagram → Ipv4Address → Ipv4Address → ℕ
field d source destination = sent_checksum (udp_checksum source destination (with_checksum d 0))

sent_checksum_lem :
    (c : ℕ)
    → c < 65536
    → (sent_checksum c % 65535 ≡ c % 65535)
      × (c ≤ sent_checksum c)
      × (0 < sent_checksum c)
      × (sent_checksum c < 65536)
unfolding sent_checksum
sent_checksum_lem c h = ground arith

field_lem :
    (d : UdpDatagram) (s t : Ipv4Address)
    → let c = udp_checksum s t (with_checksum d 0) in
      (field d s t % 65535 ≡ c % 65535)
      × (c ≤ field d s t)
      × (0 < field d s t)
      × (field d s t < 65536)
unfolding field udp_checksum
field_lem d s t =
    sent_checksum_lem _ (internet_checksum_lt (checksum_buffer s t (with_checksum d 0)))

field-verifies :
    (d : UdpDatagram) (s t : Ipv4Address)
    → IsDatagram d
    → IsIpv4 s
    → IsIpv4 t
    → header_size + length d.payload ≤ max_length
    → udp_checksum s t (with_checksum d (field d s t)) ≡ 0
unfolding udp_checksum
field-verifies d s t v vs vt fits =
    internet_checksum-filled 9
      (write_ipv4_address s
        ++ (write_ipv4_address t
            ++ (0
                ∷ 17
                ∷ byte_of 1 (u16 (length (with_checksum d 0)))
                ∷ byte_of 0 (u16 (length (with_checksum d 0)))
                ∷ byte_of 1 d.source_port
                ∷ byte_of 0 d.source_port
                ∷ byte_of 1 d.destination_port
                ∷ byte_of 0 d.destination_port
                ∷ byte_of 1 (u16 (header_size + length d.payload))
                ∷ byte_of 0 (u16 (header_size + length d.payload))
                ∷ [])))
      d.payload refl (omega (arith, byte_of-IsByte)) v.payload_bytes (omega arith) (field d s t)
      (field_lem d s t).3 (field_lem d s t).0 (field_lem d s t).1

serialize-with_checksum :
    (d : UdpDatagram) (s t : Ipv4Address)
    → header_size + length d.payload ≤ max_length
    → serialize_udp_datagram d s t ≡ ok (with_checksum d (field d s t))
unfolding serialize_udp_datagram field unsummed
serialize-with_checksum d s t fits = ground arith

-- Every datagram whose length fits 16 bits is parsed back from its serialization between any two
-- addresses, whatever follows it. Its checksum field is never 0, so the receiver verifies it.
pub parse_udp_datagram-serialize :
    (d : UdpDatagram) (s t : Ipv4Address) (padding : List ℕ)
    → IsDatagram d
    → IsIpv4 s
    → IsIpv4 t
    → header_size + length d.payload ≤ max_length
    → (xs : List ℕ) × (serialize_udp_datagram d s t ≡ ok xs)
      × (read_big_endian16 xs 6 ≢ 0)
      × (parse_udp_datagram (xs ++ padding) s t ≡ ok d)
unfolding parse_udp_datagram
parse_udp_datagram-serialize d s t padding v vs vt fits = (
  with_checksum d (field d s t),
  serialize-with_checksum d s t fits,
  omega (arith, field_lem d s t, join16-byte_of (field d s t)),
  ground (
    arith,
    field-verifies d s t v vs vt fits,
    join16-byte_of (u16 (header_size + length d.payload)),
    join16-byte_of d.source_port,
    join16-byte_of d.destination_port,
    length-append d.payload padding,
    take-append_left (length (with_checksum d (field d s t))) (with_checksum d (field d s t))
        padding,
  ),
)
