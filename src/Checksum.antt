-- ===== src/Checksum.antt =====
-- src/checksum.cpp: the Internet checksum.
pub mod Sum
pub mod Fold
pub mod Correct
use wirestack.Common.{ℕ, zero, suc, ◌+◌, ◌-◌, ◌*◌, ◌/◌, ◌%◌, ◌^◌, bit_and, bit_or, List, [], ◌∷◌}
use wirestack.Common.{◌==◌, if◌then◌else◌}
use wirestack.Bytes.{u16, u32}

-- The loop over pairs of bytes and the odd byte after it, from the sum so far.
unfoldable pub sum_words : ℕ → List ℕ → ℕ
sum_words sum [] = sum
sum_words sum (hi ∷ []) = u32 (sum + u16 (hi * 2 ^ 8))
sum_words sum (hi ∷ lo ∷ rest) = sum_words (u32 (sum + u16 (bit_or (hi * 2 ^ 8) lo))) rest

-- `while ((sum >> 16) != 0)`, on fuel.
unfoldable pub fold : ℕ → ℕ → ℕ
fold zero sum = sum
fold (suc fuel) sum =
    let rest = fold fuel (u32 (bit_and sum 0xffff + sum / 2 ^ 16)) in
    if sum / 2 ^ 16 == 0 then sum else rest

-- Two rounds end the loop from any 32-bit sum (`Fold.fold_ends`).
abbrev pub fold_fuel : ℕ
fold_fuel = 2

-- `static_cast<std::uint16_t>(~sum & 0xffff)`
unfoldable pub complement : ℕ → ℕ
complement sum = u16 (bit_and (2 ^ 32 - 1 - sum) 0xffff)

unfoldable pub internet_checksum : List ℕ → ℕ
internet_checksum data_bytes = complement (fold fold_fuel (sum_words 0 data_bytes))
