-- ===== src/Icmp.antt =====
-- src/icmp.cpp and include/wirestack/icmp.hpp: ICMP echo messages.
pub mod RoundTrip
use wirestack.Common.{ℕ, ◌+◌, ◌<◌, List, [], ◌∷◌, ◌++◌, ◌&&◌, Result, ok, err, ltb, ◌==◌, ◌!=◌}
use wirestack.Common.{if◌then◌else◌, length, drop, set}
use wirestack.Bytes.{IsBytes, byte_at, byte_of, read_big_endian16, write_big_endian16}
use wirestack.Checksum.{internet_checksum}

pub data IcmpEchoType : Type 0 where
  echo_reply echo_request : IcmpEchoType

pub record IcmpEcho : Type 0 where
  pub type : IcmpEchoType
  pub identifier : ℕ
  pub sequence : ℕ
  pub payload : List ℕ

pub data IcmpParseError : Type 0 where
  too_short unsupported_type invalid_code bad_checksum : IcmpParseError

-- The ranges that the field types give.
pub record IsEcho (m : IcmpEcho) : Type 0 where
  pub identifier_fits : m.identifier < 65536
  pub sequence_fits : m.sequence < 65536
  pub payload_bytes : IsBytes m.payload

abbrev pub header_size : ℕ
header_size = 8

-- `static_cast<std::uint8_t>(type)`, and the cast back on the two values let through.
abbrev pub type_code : IcmpEchoType → ℕ
type_code echo_reply = 0
type_code echo_request = 8

abbrev pub type_of : ℕ → IcmpEchoType
type_of code = if code == 8 then echo_request else echo_reply

unfoldable pub parse_icmp_echo : List ℕ → Result IcmpParseError IcmpEcho
parse_icmp_echo data_bytes =
    let raw_type = byte_at data_bytes 0 in
    if ltb (length data_bytes) header_size
    then err too_short
    else if raw_type != 8 && raw_type != 0
    then err unsupported_type
    else if byte_at data_bytes 1 != 0
    then err invalid_code
    else if internet_checksum data_bytes != 0
    then err bad_checksum
    else ok (record {
      type = type_of raw_type;
      identifier = read_big_endian16 data_bytes 4;
      sequence = read_big_endian16 data_bytes 6;
      payload = drop header_size data_bytes;
    })

-- The message with the checksum placeholder.
unfoldable pub unsummed : IcmpEcho → List ℕ
unsummed message =
    type_code message.type ∷ 0 ∷ []
    ++ (write_big_endian16 0
        ++ (write_big_endian16 message.identifier
            ++ (write_big_endian16 message.sequence ++ message.payload)))

unfoldable pub serialize_icmp_echo : IcmpEcho → List ℕ
serialize_icmp_echo message =
    let out = unsummed message in
    let checksum = internet_checksum out in
    set (set out 2 (byte_of 1 checksum)) 3 (byte_of 0 checksum)

unfoldable pub make_echo_reply : IcmpEcho → IcmpEcho
make_echo_reply request = record {
  type = echo_reply;
  identifier = request.identifier;
  sequence = request.sequence;
  payload = request.payload;
}
