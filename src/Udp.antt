-- ===== src/Udp.antt =====
-- src/udp.cpp and include/wirestack/udp.hpp: UDP datagrams under the IPv4 pseudo-header.
pub mod RoundTrip
use wirestack.Common.{
  ℕ, ◌+◌, ◌-◌, ◌<◌, List, [], ◌∷◌, ◌++◌, ◌&&◌, ◌||◌, Result, ok, err, ltb, ◌==◌, ◌!=◌,
}
use wirestack.Common.{if◌then◌else◌, length, take, drop, set}
use wirestack.Bytes.{u16, IsBytes, byte_of, read_big_endian16, write_big_endian16}
use wirestack.Address.{Ipv4Address, write_ipv4_address}
use wirestack.Checksum.{internet_checksum}

pub record UdpDatagram : Type 0 where
  pub source_port : ℕ
  pub destination_port : ℕ
  pub payload : List ℕ

pub data UdpParseError : Type 0 where
  too_short invalid_length bad_checksum : UdpParseError

pub data UdpSerializeError : Type 0 where
  payload_too_large : UdpSerializeError

-- The ranges that the field types give.
pub record IsDatagram (d : UdpDatagram) : Type 0 where
  pub source_port_fits : d.source_port < 65536
  pub destination_port_fits : d.destination_port < 65536
  pub payload_bytes : IsBytes d.payload

abbrev pub header_size : ℕ
header_size = 8

abbrev pub max_length : ℕ
max_length = 65535

abbrev pub protocol_udp : ℕ
protocol_udp = 17

-- The pseudo-header and the datagram, as `udpChecksum` builds them.
abbrev pub checksum_buffer : Ipv4Address → Ipv4Address → List ℕ → List ℕ
checksum_buffer source destination udp_bytes =
    write_ipv4_address source
    ++ (write_ipv4_address destination
        ++ (0 ∷ protocol_udp ∷ [] ++ (write_big_endian16 (u16 (length udp_bytes)) ++ udp_bytes)))

unfoldable pub udp_checksum : Ipv4Address → Ipv4Address → List ℕ → ℕ
udp_checksum source destination udp_bytes =
    internet_checksum (checksum_buffer source destination udp_bytes)

unfoldable pub parse_udp_datagram :
    List ℕ → Ipv4Address → Ipv4Address → Result UdpParseError UdpDatagram
parse_udp_datagram bytes source destination =
    let declared = read_big_endian16 bytes 4 in
    let logical_bytes = take declared bytes in
    let checksum = read_big_endian16 bytes 6 in
    if ltb (length bytes) header_size
    then err too_short
    else if ltb declared header_size || ltb (length bytes) declared
    then err invalid_length
    else if checksum != 0 && udp_checksum source destination logical_bytes != 0
    then err bad_checksum
    else ok (record {
      source_port = read_big_endian16 bytes 0;
      destination_port = read_big_endian16 bytes 2;
      payload = drop header_size logical_bytes;
    })

-- The datagram with the checksum placeholder.
unfoldable pub unsummed : UdpDatagram → List ℕ
unsummed datagram =
    write_big_endian16 datagram.source_port
    ++ (write_big_endian16 datagram.destination_port
        ++ (write_big_endian16 (u16 (header_size + length datagram.payload))
            ++ (write_big_endian16 0 ++ datagram.payload)))

-- A computed checksum of zero is sent as 0xffff.
unfoldable pub sent_checksum : ℕ → ℕ
sent_checksum checksum = if checksum == 0 then 0xffff else checksum

unfoldable pub serialize_udp_datagram :
    UdpDatagram → Ipv4Address → Ipv4Address → Result UdpSerializeError (List ℕ)
serialize_udp_datagram datagram source destination =
    let out = unsummed datagram in
    let checksum = sent_checksum (udp_checksum source destination out) in
    if ltb max_length (header_size + length datagram.payload)
    then err payload_too_large
    else ok (set (set out 6 (byte_of 1 checksum)) 7 (byte_of 0 checksum))
