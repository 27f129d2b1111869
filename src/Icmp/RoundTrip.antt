-- ===== src/Icmp/RoundTrip.antt =====
-- An echo message is parsed back from its serialization, checksum included.
use wirestack.Common.{
  All-drop, length-drop, ℕ, ◌+◌, ◌≤◌, ◌<◌, ◌≡◌, refl, List, [], ◌∷◌, arith, ok, length,
}
use wirestack.Bytes.{IsByte, IsBytes, byte_at, byte_of}
use wirestack.Bytes.Laws.{join16-byte_of, join16_lt, byte_of-IsByte}
use wirestack.Checksum.{internet_checksum}
use wirestack.Checksum.Correct.{internet_checksum-filled_self}
use wirestack.Icmp.{IcmpEcho, IcmpEchoType, echo_reply, echo_request, IsEcho, type_code, type_of}
use wirestack.Icmp.{parse_icmp_echo, serialize_icmp_echo, unsummed, header_size, make_echo_reply}

type_of-code : (t : IcmpEchoType) → type_of (type_code t) ≡ t
type_of-code echo_reply = refl
type_of-code echo_request = refl

type_code-lt : (t : IcmpEchoType) → type_code t < 256
type_code-lt echo_reply = omega arith
type_code-lt echo_request = omega arith

-- The longest payload of an IPv4 packet.
abbrev pub max_length : ℕ
max_length = 65515

serialize-verifies :
    (m : IcmpEcho)
    → IsEcho m
    → header_size + length m.payload ≤ max_length
    → internet_checksum (serialize_icmp_echo m) ≡ 0
unfolding serialize_icmp_echo unsummed
serialize-verifies m v fits =
    internet_checksum-filled_self 1 (type_code m.type ∷ 0 ∷ [])
      (byte_of 1 m.identifier
        ∷ byte_of 0 m.identifier
        ∷ byte_of 1 m.sequence
        ∷ byte_of 0 m.sequence
        ∷ m.payload)
      refl (type_code-lt m.type, (omega arith, tt)) (search (byte_of-IsByte, v.payload_bytes))
      (omega arith)

-- Every echo message that fits an IPv4 packet is parsed back from its serialization: the
-- checksum that was filled in verifies.
pub parse_icmp_echo-serialize :
    (m : IcmpEcho)
    → IsEcho m
    → header_size + length m.payload ≤ max_length
    → parse_icmp_echo (serialize_icmp_echo m) ≡ ok m
unfolding parse_icmp_echo serialize_icmp_echo unsummed
parse_icmp_echo-serialize m v fits = ground (
  arith,
  serialize-verifies m v fits,
  join16-byte_of m.identifier,
  join16-byte_of m.sequence,
  type_of-code m.type,
)

-- What parses has fields in range and the payload after the header.
pub parse-IsEcho :
    (xs : List ℕ) (m : IcmpEcho)
    → IsBytes xs
    → parse_icmp_echo xs ≡ ok m
    → IsEcho m × (header_size + length m.payload ≡ length xs)
unfolding parse_icmp_echo
parse-IsEcho xs m p h = ground (
  arith,
  join16_lt (byte_at xs 4) (byte_at xs 5),
  join16_lt (byte_at xs 6) (byte_at xs 7),
  All-drop IsByte header_size xs p,
  length-drop header_size xs,
)

-- A request that was received is answered by a message that parses as an echo reply with the
-- request's identifier, sequence number and payload.
pub parse_icmp_echo-make_echo_reply :
    (xs : List ℕ) (m : IcmpEcho)
    → IsBytes xs
    → length xs ≤ max_length
    → parse_icmp_echo xs ≡ ok m
    → parse_icmp_echo (serialize_icmp_echo (make_echo_reply m))
      ≡ ok (record m { type = echo_reply })
unfolding make_echo_reply
parse_icmp_echo-make_echo_reply xs m p short h =
    let facts = parse-IsEcho xs m p h in
    parse_icmp_echo-serialize (record m { type = echo_reply })
      (record {
        identifier_fits = facts.0.identifier_fits;
        sequence_fits = facts.0.sequence_fits;
        payload_bytes = facts.0.payload_bytes;
      })
      (omega arith)
