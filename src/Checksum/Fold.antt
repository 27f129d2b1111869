-- ===== src/Checksum/Fold.antt =====
-- Folding the carries is the remainder by 65535, with 65535 in place of a positive multiple.
use wirestack.Common.{
  ℕ, zero, suc, ◌+◌, ◌-◌, ◌/◌, ◌%◌, ◌^◌, ◌≤◌, ◌<◌, ◌≡◌, refl, sym, ◌∙◌, dec_lt, arith, ◌==◌,
  if◌then◌else◌,
}
use wirestack.Common.Bits.{bit_and-65535}
use wirestack.Checksum.{fold, complement}

-- The ones' complement value of a sum.
abbrev pub ones : ℕ → ℕ
ones sum = if sum == 0 then 0 else (sum - 1) % 65535 + 1

fold-step :
    (fuel sum : ℕ)
    → 65536 ≤ sum
    → sum < 2 ^ 32
    → fold (suc fuel) sum ≡ fold fuel (sum % 65536 + sum / 65536)
unfolding fold
fold-step fuel sum big h = ground (arith, bit_and-65535 sum)

fold-small : (fuel sum : ℕ) → sum < 65536 → fold fuel sum ≡ sum
unfolding fold
fold-small zero sum h = refl
fold-small (suc fuel) sum h = ground arith

ones-small : (sum : ℕ) → sum < 65536 → ones sum ≡ sum
ones-small sum h = ground arith

ones-carry : (sum : ℕ) → 65536 ≤ sum → ones (sum % 65536 + sum / 65536) ≡ ones sum
ones-carry sum h = ground arith

-- The loop ends within two rounds, for every 32-bit sum, and with more fuel it does the same.
pub fold-eq-ones : (fuel sum : ℕ) → sum < 2 ^ 32 → fold (suc (suc fuel)) sum ≡ ones sum
fold-eq-ones fuel sum h = elim (dec_lt sum 65536) [
  | yes small ↦ fold-small (suc (suc fuel)) sum small ∙ sym (ones-small sum small)
  | no big ↦ fold-step (suc fuel) sum (omega arith) h ∙ second ∙ ones-carry sum (omega arith)
]
  where
    once : ℕ
    once = sum % 65536 + sum / 65536

    second : fold (suc fuel) once ≡ ones once
    second = elim (dec_lt once 65536) [
      | yes small ↦ fold-small (suc fuel) once small ∙ sym (ones-small once small)
      | no big ↦
          fold-step fuel once (omega arith) (omega arith)
          ∙ fold-small fuel _ (omega arith)
          ∙ sym (ones-small _ (omega arith))
          ∙ ones-carry once (omega arith)
    ]

pub complement-eq : (sum : ℕ) → sum < 65536 → complement sum ≡ 65535 - sum
unfolding complement
complement-eq sum h = omega (arith, bit_and-65535 (2 ^ 32 - 1 - sum))
