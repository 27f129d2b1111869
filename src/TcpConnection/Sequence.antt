-- ===== src/TcpConnection/Sequence.antt =====
-- The wraparound-safe comparisons of 32-bit sequence numbers.
use wirestack.Common.{
  ℕ, ◌+◌, ◌-◌, ◌%◌, ◌^◌, ◌≤◌, ◌<◌, min, max, not, ◌≡◌, ◌≢◌, ◌↔◌, Bool, true, ◌&&◌, arith, ltb, ◌!=◌,
  if◌then◌else◌,
}
use wirestack.Bytes.{u32}

-- `a - b` on `std::uint32_t`; 2 ^ 32 is added first since `-` stops at 0.
abbrev pub sub32 : ℕ → ℕ → ℕ
sub32 a b = (a + 2 ^ 32 - b) % 2 ^ 32

-- `static_cast<std::int32_t>(a - b) > 0`: positive is not 0 with the sign bit clear.
unfoldable pub sequence_greater : ℕ → ℕ → Bool
sequence_greater a b = sub32 a b != 0 && ltb (sub32 a b) (2 ^ 31)

-- `static_cast<std::int32_t>(b - a) >= 0`
unfoldable pub sequence_less_or_equal : ℕ → ℕ → Bool
sequence_less_or_equal a b = ltb (sub32 b a) (2 ^ 31)

unfoldable pub sequence_max : ℕ → ℕ → ℕ
sequence_max a b = if sequence_greater a b then a else b

unfoldable pub sequence_min : ℕ → ℕ → ℕ
sequence_min a b = if sequence_greater a b then b else a

-- Within half of the sequence space from any base, across the wrap, the comparisons and the two
-- choices are those of the distances from the base.
pub sequence_order :
    (base x y : ℕ)
    → base < 2 ^ 32
    → x < 2 ^ 31
    → y < 2 ^ 31
    → ((sequence_greater (u32 (base + x)) (u32 (base + y)) ≡ true) ↔ (y < x))
      × ((sequence_less_or_equal (u32 (base + x)) (u32 (base + y)) ≡ true) ↔ (x ≤ y))
unfolding sequence_greater sequence_less_or_equal
sequence_order base x y hb hx hy = (ground arith, ground arith)

pub sequence_max-eq :
    (base x y : ℕ)
    → base < 2 ^ 32
    → x < 2 ^ 31
    → y < 2 ^ 31
    → (sequence_max (u32 (base + x)) (u32 (base + y)) ≡ u32 (base + max x y))
      × (sequence_min (u32 (base + x)) (u32 (base + y)) ≡ u32 (base + min x y))
unfolding sequence_max sequence_min
sequence_max-eq base x y hb hx hy = ground (arith, sequence_order base x y hb hx hy)

-- For numbers at any distance but exactly half the space, one is not greater exactly when it is
-- less or equal.
pub sequence_greater-not :
    (a b : ℕ)
    → a < 2 ^ 32
    → b < 2 ^ 32
    → sub32 a b ≢ 2 ^ 31
    → sequence_greater a b ≡ not (sequence_less_or_equal a b)
unfolding sequence_greater sequence_less_or_equal
sequence_greater-not a b ha hb h = ground arith
