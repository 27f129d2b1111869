-- ===== src/Ethernet.antt =====
-- src/ethernet.cpp and include/wirestack/ethernet.hpp: Ethernet II frames.
pub mod RoundTrip
use wirestack.Common.{
  ℕ, ◌+◌, ◌*◌, ◌<◌, List, ◌++◌, Result, ok, err, ltb, if◌then◌else◌, length, drop,
}
use wirestack.Bytes.{IsBytes, read_big_endian16, write_big_endian16}
use wirestack.Address.{MacAddress, IsMac, read_mac_address, write_mac_address}

pub record EthernetFrame : Type 0 where
  pub destination : MacAddress
  pub source : MacAddress
  pub ether_type : ℕ
  pub payload : List ℕ

pub data EthernetParseError : Type 0 where
  too_short too_long : EthernetParseError

abbrev pub header_size : ℕ
header_size = 2 * 6 + 2

abbrev pub max_ethernet_frame_length : ℕ
max_ethernet_frame_length = 65535

-- The ranges that the field types give.
pub record IsFrame (f : EthernetFrame) : Type 0 where
  pub destination_mac : IsMac f.destination
  pub source_mac : IsMac f.source
  pub type_fits : f.ether_type < 65536
  pub payload_bytes : IsBytes f.payload

unfoldable pub parse_ethernet_frame : List ℕ → Result EthernetParseError EthernetFrame
parse_ethernet_frame data_bytes =
    if ltb (length data_bytes) header_size
    then err too_short
    else if ltb max_ethernet_frame_length (length data_bytes)
    then err too_long
    else ok (record {
      destination = read_mac_address data_bytes 0;
      source = read_mac_address data_bytes 6;
      ether_type = read_big_endian16 data_bytes 12;
      payload = drop header_size data_bytes;
    })

unfoldable pub serialize_ethernet_frame : EthernetFrame → List ℕ
serialize_ethernet_frame frame =
    write_mac_address frame.destination
    ++ (write_mac_address frame.source ++ (write_big_endian16 frame.ether_type ++ frame.payload))
