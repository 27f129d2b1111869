-- ===== src/Ipv4.antt =====
-- src/ipv4.cpp and include/wirestack/ipv4.hpp: IPv4 packets with the 20-byte header.
pub mod RoundTrip
pub mod Accepts
use wirestack.Common.{ℕ, ◌+◌, ◌-◌, ◌*◌, ◌/◌, ◌^◌, ◌<◌, List, [], ◌∷◌, ◌++◌, ◌||◌, Result, ok, err}
use wirestack.Common.{bit_and, bit_or, ltb, ◌!=◌, if◌then◌else◌, length, take, drop, set}
use wirestack.Bytes.{
  u8, u16, IsByte, IsBytes, byte_at, byte_of, read_big_endian16, write_big_endian16,
}
use wirestack.Address.{Ipv4Address, IsIpv4, read_ipv4_address, write_ipv4_address}
use wirestack.Checksum.{internet_checksum}

pub record Ipv4Packet : Type 0 where
  pub dscp_ecn : ℕ
  pub identification : ℕ
  pub ttl : ℕ
  pub protocol : ℕ
  pub source : Ipv4Address
  pub destination : Ipv4Address
  pub payload : List ℕ

pub data Ipv4ParseError : Type 0 where
  too_short unsupported_version invalid_header_length unsupported_options : Ipv4ParseError
  invalid_total_length fragmented bad_checksum : Ipv4ParseError

pub data Ipv4SerializeError : Type 0 where
  payload_too_large : Ipv4SerializeError

-- The ranges that the field types give.
pub record IsPacket (p : Ipv4Packet) : Type 0 where
  pub dscp_ecn_byte : IsByte p.dscp_ecn
  pub identification_fits : p.identification < 65536
  pub ttl_byte : IsByte p.ttl
  pub protocol_byte : IsByte p.protocol
  pub source_bytes : IsIpv4 p.source
  pub destination_bytes : IsIpv4 p.destination
  pub payload_bytes : IsBytes p.payload

abbrev pub header_size : ℕ
header_size = 20

abbrev pub max_total_length : ℕ
max_total_length = 65535

unfoldable pub parse_ipv4_packet : List ℕ → Result Ipv4ParseError Ipv4Packet
parse_ipv4_packet data_bytes =
    let version_ihl = byte_at data_bytes 0 in
    let version = u8 (version_ihl / 2 ^ 4) in
    let ihl = u8 (bit_and version_ihl 0x0f) in
    let total_length = read_big_endian16 data_bytes 2 in
    let flags_fragment = read_big_endian16 data_bytes 6 in
    if ltb (length data_bytes) header_size
    then err too_short
    else if version != 4
    then err unsupported_version
    else if ltb ihl 5
    then err invalid_header_length
    else if ihl != 5
    then err unsupported_options
    else if internet_checksum (take header_size data_bytes) != 0
    then err bad_checksum
    else if ltb total_length header_size || ltb (length data_bytes) total_length
    then err invalid_total_length
    else if bit_and flags_fragment 0x2000 != 0 || bit_and flags_fragment 0x1fff != 0
    then err fragmented
    else ok (record {
      dscp_ecn = byte_at data_bytes 1;
      identification = read_big_endian16 data_bytes 4;
      ttl = byte_at data_bytes 8;
      protocol = byte_at data_bytes 9;
      source = read_ipv4_address data_bytes 12;
      destination = read_ipv4_address data_bytes 16;
      payload = take (total_length - header_size) (drop header_size data_bytes);
    })

-- The header with the checksum placeholder.
unfoldable pub unsummed_header : Ipv4Packet → List ℕ
unsummed_header packet =
    bit_or (4 * 2 ^ 4) 5 ∷ packet.dscp_ecn ∷ []
    ++ (write_big_endian16 (u16 (header_size + length packet.payload))
        ++ (write_big_endian16 packet.identification
            ++ (write_big_endian16 0
                ++ (packet.ttl ∷ packet.protocol ∷ []
                    ++ (write_big_endian16 0
                        ++ (write_ipv4_address packet.source
                            ++ write_ipv4_address packet.destination))))))

unfoldable pub serialize_ipv4_packet : Ipv4Packet → Result Ipv4SerializeError (List ℕ)
serialize_ipv4_packet packet =
    let out = unsummed_header packet in
    let checksum = internet_checksum (take header_size out) in
    if ltb max_total_length (header_size + length packet.payload)
    then err payload_too_large
    else ok (set (set out 10 (byte_of 1 checksum)) 11 (byte_of 0 checksum) ++ packet.payload)
