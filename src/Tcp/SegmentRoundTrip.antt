-- ===== src/Tcp/SegmentRoundTrip.antt =====
-- A TCP segment is parsed back from its serialization.
use wirestack.Common.{
  take, drop, ◌-◌, ℕ, ◌%◌, ◌*◌, ◌+◌, ◌/◌, ◌^◌, ◌≤◌, ◌≡◌, refl, List, [], ◌∷◌, ◌++◌, arith, ok,
  length,
}
use wirestack.Common.{length-append, take-append_left, drop-append_left, All-append}
use wirestack.Bytes.{byte_of, u8, u16, IsByte}
use wirestack.Bytes.Laws.{join16-byte_of, join32-byte_of, byte_of-IsByte}
use wirestack.Address.{Ipv4Address, IsIpv4, write_ipv4_address}
use wirestack.Checksum.Correct.{internet_checksum-filled_self}
use wirestack.Tcp.Flags.{encode_flags, decode_flags-encode_flags}
use wirestack.Tcp.Segment.{
  TcpSegment, IsSegment, parse_tcp_segment, serialize_tcp_segment, unsummed,
}
use wirestack.Tcp.Segment.{
  tcp_checksum, min_header_size, max_tcp_segment_length, max_tcp_options_length,
}

abbrev data_offset_byte : TcpSegment → ℕ
data_offset_byte s = u8 (u8 ((min_header_size + length s.options) / 4) * 2 ^ 4)

-- The header before the checksum field, and what comes after it.
abbrev front : TcpSegment → List ℕ
front s =
    byte_of 1 s.source_port
    ∷ byte_of 0 s.source_port
    ∷ byte_of 1 s.destination_port
    ∷ byte_of 0 s.destination_port
    ∷ byte_of 3 s.sequence_number
    ∷ byte_of 2 s.sequence_number
    ∷ byte_of 1 s.sequence_number
    ∷ byte_of 0 s.sequence_number
    ∷ byte_of 3 s.acknowledgment_number
    ∷ byte_of 2 s.acknowledgment_number
    ∷ byte_of 1 s.acknowledgment_number
    ∷ byte_of 0 s.acknowledgment_number
    ∷ data_offset_byte s
    ∷ encode_flags s.flags
    ∷ byte_of 1 s.window_size
    ∷ byte_of 0 s.window_size
    ∷ []

abbrev back : TcpSegment → List ℕ
back s = byte_of 1 s.urgent_pointer ∷ byte_of 0 s.urgent_pointer ∷ (s.options ++ s.payload)

abbrev with_checksum : TcpSegment → ℕ → List ℕ
with_checksum s c = front s ++ byte_of 1 c ∷ byte_of 0 c ∷ back s

module _ (s : TcpSegment) (a b : Ipv4Address) (v : IsSegment s) (va : IsIpv4 a) (vb : IsIpv4 b)
    (aligned : length s.options % 4 ≡ 0) (short : length s.options ≤ max_tcp_options_length)
    (fits : min_header_size + length s.options + length s.payload ≤ max_tcp_segment_length) where
  abbrev sent : ℕ
  sent = tcp_checksum a b (with_checksum s 0)

  length-options_payload : length (s.options ++ s.payload) ≡ length s.options + length s.payload
  length-options_payload = length-append s.options s.payload

  sent-verifies : tcp_checksum a b (with_checksum s sent) ≡ 0
  unfolding tcp_checksum
  sent-verifies =
      internet_checksum-filled_self 14
        (write_ipv4_address a
          ++ (write_ipv4_address b
              ++ (0
                  ∷ 6
                  ∷ byte_of 1 (u16 (length (with_checksum s 0)))
                  ∷ byte_of 0 (u16 (length (with_checksum s 0)))
                  ∷ front s)))
        (back s) refl (omega (arith, byte_of-IsByte, decode_flags-encode_flags s.flags))
        (
          byte_of-IsByte 1 s.urgent_pointer,
          (
            byte_of-IsByte 0 s.urgent_pointer,
            All-append IsByte s.options s.payload v.options_bytes v.payload_bytes,
          ),
        )
        (omega (arith, length-options_payload))

  serialize-with_checksum : serialize_tcp_segment s a b ≡ ok (with_checksum s sent)
  unfolding serialize_tcp_segment unsummed
  serialize-with_checksum = ground arith

  offset : data_offset_byte s / 2 ^ 4 * 4 ≡ min_header_size + length s.options
  offset = omega arith

  options_back :
      take (data_offset_byte s / 2 ^ 4 * 4 - min_header_size) (s.options ++ s.payload) ≡ s.options
  options_back = take-append_left _ s.options s.payload (omega (arith, offset))

  payload_back : drop (data_offset_byte s / 2 ^ 4 * 4) (with_checksum s sent) ≡ s.payload
  payload_back =
      drop-append_left (data_offset_byte s / 2 ^ 4 * 4)
        (front s
          ++ byte_of 1 sent
            ∷ byte_of 0 sent
            ∷ byte_of 1 s.urgent_pointer
            ∷ byte_of 0 s.urgent_pointer
            ∷ s.options)
        s.payload (omega (arith, offset))

  -- Every segment with aligned options of at most 40 bytes, within 65535 bytes, is parsed back from
  -- its serialization: flags, options, sequence numbers and payload, with a verified checksum.
  pub parse_tcp_segment-serialize :
      (xs : List ℕ) × (serialize_tcp_segment s a b ≡ ok xs) × (parse_tcp_segment xs a b ≡ ok s)
  unfolding parse_tcp_segment
  parse_tcp_segment-serialize = (
    with_checksum s sent,
    serialize-with_checksum,
    ground (
      arith,
      offset,
      options_back,
      payload_back,
      sent-verifies,
      length-options_payload,
      decode_flags-encode_flags s.flags,
      join16-byte_of s.source_port,
      join16-byte_of s.destination_port,
      join32-byte_of s.sequence_number,
      join32-byte_of s.acknowledgment_number,
      join16-byte_of s.window_size,
      join16-byte_of s.urgent_pointer,
    ),
  )
