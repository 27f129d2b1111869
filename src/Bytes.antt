-- ===== src/Bytes.antt =====
-- The big-endian readers and writers that src/{ethernet,arp,ipv4,icmp,udp,tcp}.cpp each declare,
-- over a byte sequence as a list of numbers.
pub mod Laws
use wirestack.Common.{ℕ, ◌+◌, ◌*◌, ◌/◌, ◌%◌, ◌^◌, ◌<◌, bit_and, bit_or, List, [], ◌∷◌, get_or, All}

abbrev pub u8 : ℕ → ℕ
u8 n = n % 2 ^ 8

abbrev pub u16 : ℕ → ℕ
u16 n = n % 2 ^ 16

abbrev pub u32 : ℕ → ℕ
u32 n = n % 2 ^ 32

-- `data[offset]`. Each caller tests the size first, so the 0 past the end is never used.
abbrev pub byte_at : List ℕ → ℕ → ℕ
byte_at data_bytes offset = get_or data_bytes offset 0

abbrev pub IsByte : ℕ → Type 0
IsByte b = b < 256

abbrev pub IsBytes : List ℕ → Type 0
IsBytes = All IsByte

-- `static_cast<std::uint16_t>((hi << 8) | lo)`
unfoldable pub join16 : ℕ → ℕ → ℕ
join16 hi lo = u16 (bit_or (hi * 2 ^ 8) lo)

-- `(a << 24) | (b << 16) | (c << 8) | d` on `std::uint32_t`
unfoldable pub join32 : ℕ → ℕ → ℕ → ℕ → ℕ
join32 a b c d = bit_or (bit_or (bit_or (u32 (a * 2 ^ 24)) (u32 (b * 2 ^ 16))) (u32 (c * 2 ^ 8))) d

-- `(value >> 8 * i) & 0xff`
unfoldable pub byte_of : ℕ → ℕ → ℕ
byte_of i value = bit_and (value / 2 ^ (8 * i)) 0xff

abbrev pub read_big_endian16 : List ℕ → ℕ → ℕ
read_big_endian16 data_bytes offset =
    join16 (byte_at data_bytes offset) (byte_at data_bytes (offset + 1))

abbrev pub read_big_endian32 : List ℕ → ℕ → ℕ
read_big_endian32 data_bytes offset =
    join32 (byte_at data_bytes offset) (byte_at data_bytes (offset + 1))
      (byte_at data_bytes (offset + 2)) (byte_at data_bytes (offset + 3))

-- The bytes that the two writers push.
abbrev pub write_big_endian16 : ℕ → List ℕ
write_big_endian16 value = byte_of 1 value ∷ byte_of 0 value ∷ []

abbrev pub write_big_endian32 : ℕ → List ℕ
write_big_endian32 value =
    byte_of 3 value ∷ byte_of 2 value ∷ byte_of 1 value ∷ byte_of 0 value ∷ []
