-- ===== src/Tcp/Segment.antt =====
-- `TcpSegment`, `parseTcpSegment` and `serializeTcpSegment`.
use wirestack.Common.{
  ℕ, ◌+◌, ◌-◌, ◌*◌, ◌/◌, ◌%◌, ◌^◌, ◌<◌, List, [], ◌∷◌, ◌++◌, ◌||◌, Result, ok, err,
}
use wirestack.Common.{ltb, ◌!=◌, if◌then◌else◌, length, take, drop, set}
use wirestack.Bytes.{u8, u16, IsBytes, byte_at, byte_of, read_big_endian16, read_big_endian32}
use wirestack.Bytes.{write_big_endian16, write_big_endian32}
use wirestack.Address.{Ipv4Address, write_ipv4_address}
use wirestack.Checksum.{internet_checksum}
use wirestack.Tcp.Flags.{TcpFlags, decode_flags, encode_flags}

pub record TcpSegment : Type 0 where
  pub source_port : ℕ
  pub destination_port : ℕ
  pub sequence_number : ℕ
  pub acknowledgment_number : ℕ
  pub flags : TcpFlags
  pub window_size : ℕ
  pub urgent_pointer : ℕ
  pub options : List ℕ
  pub payload : List ℕ

pub data TcpParseError : Type 0 where
  too_short too_long invalid_data_offset bad_checksum : TcpParseError

pub data TcpSerializeError : Type 0 where
  payload_too_large unaligned_options options_too_long : TcpSerializeError

-- The ranges that the field types give.
pub record IsSegment (s : TcpSegment) : Type 0 where
  pub source_port_fits : s.source_port < 65536
  pub destination_port_fits : s.destination_port < 65536
  pub sequence_number_fits : s.sequence_number < 2 ^ 32
  pub acknowledgment_number_fits : s.acknowledgment_number < 2 ^ 32
  pub window_size_fits : s.window_size < 65536
  pub urgent_pointer_fits : s.urgent_pointer < 65536
  pub options_bytes : IsBytes s.options
  pub payload_bytes : IsBytes s.payload

abbrev pub min_header_size : ℕ
min_header_size = 20

abbrev pub max_tcp_segment_length : ℕ
max_tcp_segment_length = 65535

abbrev pub max_tcp_options_length : ℕ
max_tcp_options_length = 40

abbrev pub protocol_tcp : ℕ
protocol_tcp = 6

-- The pseudo-header and the segment, as `tcpChecksum` builds them.
abbrev pub checksum_buffer : Ipv4Address → Ipv4Address → List ℕ → List ℕ
checksum_buffer source destination tcp_bytes =
    write_ipv4_address source
    ++ (write_ipv4_address destination
        ++ (0 ∷ protocol_tcp ∷ [] ++ (write_big_endian16 (u16 (length tcp_bytes)) ++ tcp_bytes)))

unfoldable pub tcp_checksum : Ipv4Address → Ipv4Address → List ℕ → ℕ
tcp_checksum source destination tcp_bytes =
    internet_checksum (checksum_buffer source destination tcp_bytes)

unfoldable pub parse_tcp_segment :
    List ℕ → Ipv4Address → Ipv4Address → Result TcpParseError TcpSegment
parse_tcp_segment bytes source destination =
    let data_offset_field = byte_at bytes 12 / 2 ^ 4 in
    let header_length = data_offset_field * 4 in
    if ltb (length bytes) min_header_size
    then err too_short
    else if ltb max_tcp_segment_length (length bytes)
    then err too_long
    else if ltb data_offset_field 5 || ltb (length bytes) header_length
    then err invalid_data_offset
    else if tcp_checksum source destination bytes != 0
    then err bad_checksum
    else ok (record {
      source_port = read_big_endian16 bytes 0;
      destination_port = read_big_endian16 bytes 2;
      sequence_number = read_big_endian32 bytes 4;
      acknowledgment_number = read_big_endian32 bytes 8;
      flags = decode_flags (byte_at bytes 13);
      window_size = read_big_endian16 bytes 14;
      urgent_pointer = read_big_endian16 bytes 18;
      options = take (header_length - min_header_size) (drop min_header_size bytes);
      payload = drop header_length bytes;
    })

-- The segment with the checksum placeholder.
unfoldable pub unsummed : TcpSegment → List ℕ
unsummed segment =
    let data_offset = u8 ((min_header_size + length segment.options) / 4) in
    write_big_endian16 segment.source_port
    ++ (write_big_endian16 segment.destination_port
        ++ (write_big_endian32 segment.sequence_number
            ++ (write_big_endian32 segment.acknowledgment_number
                ++ (u8 (data_offset * 2 ^ 4) ∷ encode_flags segment.flags ∷ []
                    ++ (write_big_endian16 segment.window_size
                        ++ (write_big_endian16 0
                            ++ (write_big_endian16 segment.urgent_pointer
                                ++ (segment.options ++ segment.payload))))))))

unfoldable pub serialize_tcp_segment :
    TcpSegment → Ipv4Address → Ipv4Address → Result TcpSerializeError (List ℕ)
serialize_tcp_segment segment source destination =
    let out = unsummed segment in
    let checksum = tcp_checksum source destination out in
    let total_length = min_header_size + length segment.options + length segment.payload in
    if length segment.options % 4 != 0
    then err unaligned_options
    else if ltb max_tcp_options_length (length segment.options)
    then err options_too_long
    else if ltb max_tcp_segment_length total_length
    then err payload_too_large
    else ok (set (set out 16 (byte_of 1 checksum)) 17 (byte_of 0 checksum))
