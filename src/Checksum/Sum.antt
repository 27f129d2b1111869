-- ===== src/Checksum/Sum.antt =====
-- The loop of `internetChecksum` computes the plain sum of the 16-bit words: no 32-bit addition
-- wraps on anything that fits a datagram.
use wirestack.Common.{ℕ, ◌+◌, ◌*◌, ◌^◌, ◌≤◌, ◌<◌, ◌≡◌, ap, ◌∙◌, bit_or, arith}
use wirestack.Common.{List, [], ◌∷◌, length}
use wirestack.Common.Bits.{bit_or_byte}
use wirestack.Bytes.{IsBytes, u16, u32}
use wirestack.Checksum.{sum_words}

-- The sum of the big-endian 16-bit words, an odd last byte being the high half of a word.
abbrev pub word_sum : List ℕ → ℕ
word_sum [] = 0
word_sum (hi ∷ []) = hi * 256
word_sum (hi ∷ lo ∷ rest) = hi * 256 + lo + word_sum rest

pub word_sum-le : (xs : List ℕ) → IsBytes xs → word_sum xs ≤ 32768 * length xs + 32768
word_sum-le [] p = omega arith
word_sum-le (hi ∷ []) p = omega arith
word_sum-le (hi ∷ lo ∷ rest) p = omega (arith, word_sum-le rest p.1.1)

pub sum_words-eq :
    (sum : ℕ) (xs : List ℕ)
    → IsBytes xs
    → sum + word_sum xs < 2 ^ 32
    → sum_words sum xs ≡ sum + word_sum xs
unfolding sum_words
sum_words-eq sum [] p h = omega arith
sum_words-eq sum (hi ∷ []) p h = omega arith
sum_words-eq sum (hi ∷ lo ∷ rest) p h =
    ap (λ t. sum_words t rest) step
    ∙ sum_words-eq (sum + (hi * 256 + lo)) rest p.1.1 (omega arith)
    ∙ omega arith
  where
    step : u32 (sum + u16 (bit_or (hi * 2 ^ 8) lo)) ≡ sum + (hi * 256 + lo)
    step = omega (arith, bit_or_byte hi lo p.1.0)
