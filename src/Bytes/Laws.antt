-- ===== src/Bytes/Laws.antt =====
-- Big-endian fields: the arithmetic behind them, and reading after writing.
use wirestack.Common.{ℕ, ◌+◌, ◌*◌, ◌/◌, ◌%◌, ◌^◌, ◌<◌, ◌≡◌, ap, ap₂, ◌∙◌, arith, bit_or}
use wirestack.Common.Bits.{bit_and-255, bit_or_byte, bit_or-times_256}
use wirestack.Bytes.{IsByte, join16, join32, byte_of}

pub byte_of-eq : (i v : ℕ) → byte_of i v ≡ v / 2 ^ (8 * i) % 256
unfolding byte_of
byte_of-eq i v = bit_and-255 (v / 2 ^ (8 * i))

pub byte_of-IsByte : (i v : ℕ) → IsByte (byte_of i v)
byte_of-IsByte i v = omega (arith, byte_of-eq i v)

pub join16-eq : (hi lo : ℕ) → IsByte hi → IsByte lo → join16 hi lo ≡ hi * 256 + lo
unfolding join16
join16-eq hi lo h l = omega (arith, bit_or_byte hi lo l)

pub join32-eq :
    (a b c d : ℕ)
    → IsByte a
    → IsByte b
    → IsByte c
    → IsByte d
    → join32 a b c d ≡ a * 16777216 + b * 65536 + c * 256 + d
unfolding join32
join32-eq a b c d ha hb hc hd =
    ap (λ t. bit_or t d)
      (ap₂ bit_or upper (omega arith)
        ∙ bit_or-times_256 _ c
        ∙ ap (λ t. t * 256) (bit_or_byte _ c hc))
    ∙ bit_or_byte _ d hd
    ∙ omega arith
  where
    upper : bit_or (a * 2 ^ 24 % 2 ^ 32) (b * 2 ^ 16 % 2 ^ 32) ≡ (a * 256 + b) * 256 * 256
    upper =
        ap₂ bit_or {x = a * 2 ^ 24 % 2 ^ 32} {y = a * 256 * 256 * 256} (omega arith) (omega arith)
        ∙ bit_or-times_256 (a * 256 * 256) (b * 256)
        ∙ ap (λ t. t * 256) (bit_or-times_256 (a * 256) b ∙ ap (λ t. t * 256) (bit_or_byte a b hb))

pub join16_lt : (hi lo : ℕ) → join16 hi lo < 65536
unfolding join16
join16_lt hi lo = omega arith

-- Reading a field that was written gives the value back.
pub join16-byte_of : (v : ℕ) → v < 65536 → join16 (byte_of 1 v) (byte_of 0 v) ≡ v
join16-byte_of v h = omega (
  arith,
  join16-eq (byte_of 1 v) (byte_of 0 v) (byte_of-IsByte 1 v) (byte_of-IsByte 0 v),
  byte_of-eq 1 v,
  byte_of-eq 0 v,
)

pub join32-byte_of :
    (v : ℕ) → v < 2 ^ 32 → join32 (byte_of 3 v) (byte_of 2 v) (byte_of 1 v) (byte_of 0 v) ≡ v
join32-byte_of v h = omega (
  arith,
  join32-eq (byte_of 3 v) (byte_of 2 v) (byte_of 1 v) (byte_of 0 v) (byte_of-IsByte 3 v)
      (byte_of-IsByte 2 v) (byte_of-IsByte 1 v) (byte_of-IsByte 0 v),
  byte_of-eq 3 v,
  byte_of-eq 2 v,
  byte_of-eq 1 v,
  byte_of-eq 0 v,
)

-- Writing a field that was read gives its bytes back.
pub byte_of-join16 :
    (hi lo : ℕ)
    → IsByte hi
    → IsByte lo
    → (byte_of 1 (join16 hi lo) ≡ hi) × (byte_of 0 (join16 hi lo) ≡ lo)
byte_of-join16 hi lo h l =
    omega (arith, join16-eq hi lo h l, byte_of-eq 1 (join16 hi lo), byte_of-eq 0 (join16 hi lo))
