-- ===== src/Ipv4/Accepts.antt =====
-- Which packets `parseIpv4Packet` lets through.
use wirestack.Common.{
  ℕ, ◌+◌, ◌-◌, ◌*◌, ◌%◌, ◌≤◌, ◌≡◌, ◌≢◌, sym, ◌∙◌, ap, List, ◌∷◌, ◌++◌, arith, ok,
}
use wirestack.Common.{length, take, drop, length-append, length-take, length-drop, take-append_left}
use wirestack.Common.Bits.{bit_and-15, bit_and-8191, bit_and-8192}
use wirestack.Bytes.{IsByte, IsBytes, byte_at, read_big_endian16}
use wirestack.Checksum.{internet_checksum}
use wirestack.Checksum.Correct.{one_word_detected}
use wirestack.Ipv4.{Ipv4Packet, parse_ipv4_packet, header_size}

-- What an accepted packet satisfies: version 4 without options, a header that verifies, a total
-- length within the data, no fragment, and a payload of the declared length.
pub record IsAccepted (xs : List ℕ) (p : Ipv4Packet) : Type 0 where
  pub version_and_ihl : byte_at xs 0 ≡ 0x45
  pub verifies : internet_checksum (take header_size xs) ≡ 0
  pub declared : header_size + length p.payload ≡ read_big_endian16 xs 2
  pub within : read_big_endian16 xs 2 ≤ length xs
  pub unfragmented : read_big_endian16 xs 6 % 16384 ≡ 0

pub parse_ipv4_packet-IsAccepted :
    (xs : List ℕ) (p : Ipv4Packet) → IsBytes xs → parse_ipv4_packet xs ≡ ok p → IsAccepted xs p
unfolding parse_ipv4_packet
parse_ipv4_packet-IsAccepted (x ∷ xs) p bytes h = ground (
  arith,
  bit_and-15 x,
  bit_and-8191 (read_big_endian16 (x ∷ xs) 6),
  bit_and-8192 (read_big_endian16 (x ∷ xs) 6),
  length-take (read_big_endian16 (x ∷ xs) 2 - header_size) (drop header_size (x ∷ xs)),
  length-drop header_size (x ∷ xs),
)
parse_ipv4_packet-IsAccepted xs p bytes h = ground arith

header-verifies :
    (header rest : List ℕ) (p : Ipv4Packet)
    → length header ≡ header_size
    → parse_ipv4_packet (header ++ rest) ≡ ok p
    → internet_checksum header ≡ 0
unfolding parse_ipv4_packet
header-verifies header rest p e h =
    ap internet_checksum (sym (take-append_left header_size header rest (sym e))) ∙ ground arith

-- A header damaged in one aligned 16-bit word, other than by exchanging 0x0000 and 0xffff, is
-- never accepted: if the packet before was accepted, the packet after is not.
pub damaged_header_rejected :
    (k : ℕ) (before after rest : List ℕ) (a b c d : ℕ) (p q : Ipv4Packet)
    → length before ≡ k * 2
    → length before + 2 + length after ≡ header_size
    → IsBytes before
    → IsBytes after
    → IsByte a × IsByte b × IsByte c × IsByte d
    → (a * 256 + b) % 65535 ≢ (c * 256 + d) % 65535
    → parse_ipv4_packet (before ++ a ∷ b ∷ after ++ rest) ≡ ok p
    → parse_ipv4_packet (before ++ c ∷ d ∷ after ++ rest) ≢ ok q
damaged_header_rejected k before after rest a b c d p q even whole pre post word differ ph qh =
    differ (
      one_word_detected k before after even pre post (omega arith) a b c d word.0 word.1 word.2
        word.3
        (header-verifies (before ++ a ∷ b ∷ after) rest p
          (omega (arith, length-append before (a ∷ b ∷ after))) ph)
        (header-verifies (before ++ c ∷ d ∷ after) rest q
          (omega (arith, length-append before (c ∷ d ∷ after))) qh))
