-- ===== src/Checksum/Correct.antt =====
-- `internetChecksum` is the ones' complement checksum, and what a sender fills in verifies.
use wirestack.Common.{
  ℕ, zero, suc, ◌+◌, ◌-◌, ◌*◌, ◌%◌, ◌^◌, ◌≤◌, ◌<◌, ◌≡◌, ◌↔◌, refl, ◌∙◌, ap, arith, Bool-cases, ◌==◌,
  inl, inr,
}
use wirestack.Common.{List, [], ◌∷◌, ◌++◌, length, length-append, All-append}
use wirestack.Bytes.{IsByte, IsBytes, byte_of}
use wirestack.Bytes.Laws.{byte_of-IsByte, byte_of-eq}
use wirestack.Checksum.{internet_checksum, fold, sum_words, complement}
use wirestack.Checksum.Sum.{word_sum, word_sum-le, sum_words-eq}
use wirestack.Checksum.Fold.{ones, fold-eq-ones, complement-eq}

-- Below this many bytes no 32-bit addition wraps. A datagram with its pseudo-header has at most
-- 65547.
abbrev pub max_summed : ℕ
max_summed = 131071

ones-lt : (n : ℕ) → ones n < 65536
ones-lt n = ground arith

-- On every byte sequence below 131071 bytes the code returns the ones' complement of the ones'
-- complement sum of the big-endian 16-bit words.
pub internet_checksum-eq-ones :
    (xs : List ℕ)
    → IsBytes xs
    → length xs < max_summed
    → internet_checksum xs ≡ 65535 - ones (word_sum xs)
unfolding internet_checksum
internet_checksum-eq-ones xs p h =
    ap (λ s. complement (fold 2 s)) sums
    ∙ ap complement (fold-eq-ones 0 (word_sum xs) bound)
    ∙ complement-eq (ones (word_sum xs)) (ones-lt (word_sum xs))
  where
    bound : word_sum xs < 2 ^ 32
    bound = omega (arith, word_sum-le xs p)

    sums : sum_words 0 xs ≡ word_sum xs
    sums = sum_words-eq 0 xs p (omega (arith, bound)) ∙ omega arith

-- The test that every parser makes.
pub internet_checksum-zero_iff :
    (xs : List ℕ)
    → IsBytes xs
    → length xs < max_summed
    → (internet_checksum xs ≡ 0) ↔ ((0 < word_sum xs) × (word_sum xs % 65535 ≡ 0))
internet_checksum-zero_iff xs p h = ground (arith, internet_checksum-eq-ones xs p h)

pub internet_checksum_lt : (xs : List ℕ) → internet_checksum xs < 65536
unfolding internet_checksum complement
internet_checksum_lt xs = omega arith

ones-cancel :
    (n v c : ℕ)
    → c ≡ 65535 - ones n
    → v % 65535 ≡ c % 65535
    → c ≤ v
    → (0 < n + v) × ((n + v) % 65535 ≡ 0)
ones-cancel n v c def e le = elim (Bool-cases (n == 0)) [
  | inl p ↦ ground arith
  | inr p ↦ ground arith
]

word_sum-append :
    (k : ℕ) (xs ys : List ℕ) → length xs ≡ k * 2 → word_sum (xs ++ ys) ≡ word_sum xs + word_sum ys
word_sum-append k [] ys e = omega arith
word_sum-append k (x ∷ []) ys e = absurd (omega arith)
word_sum-append zero (x ∷ y ∷ xs) ys e = absurd (omega arith)
word_sum-append (suc k) (x ∷ y ∷ xs) ys e = omega (arith, word_sum-append k xs ys (omega arith))

module _ (k : ℕ) (before after : List ℕ) (even : length before ≡ k * 2)
    (before_bytes : IsBytes before) (after_bytes : IsBytes after)
    (short : length before + length after + 2 < max_summed) where
  word_sum-with_word :
      (hi lo : ℕ)
      → word_sum (before ++ hi ∷ lo ∷ after) ≡ word_sum before + (hi * 256 + lo + word_sum after)
  word_sum-with_word hi lo = word_sum-append k before (hi ∷ lo ∷ after) even

  with_word-IsBytes : (hi lo : ℕ) → IsByte hi → IsByte lo → IsBytes (before ++ hi ∷ lo ∷ after)
  with_word-IsBytes hi lo h l =
      All-append IsByte before (hi ∷ lo ∷ after) before_bytes (h, (l, after_bytes))

  with_word-short : (hi lo : ℕ) → length (before ++ hi ∷ lo ∷ after) < max_summed
  with_word-short hi lo = omega (arith, length-append before (hi ∷ lo ∷ after))

  -- Filling the zeroed field with its checksum, or with 0xffff where that is 0, makes the whole
  -- verify.
  pub internet_checksum-filled :
      (v : ℕ)
      → v < 65536
      → v % 65535 ≡ internet_checksum (before ++ byte_of 1 0 ∷ byte_of 0 0 ∷ after) % 65535
      → internet_checksum (before ++ byte_of 1 0 ∷ byte_of 0 0 ∷ after) ≤ v
      → internet_checksum (before ++ byte_of 1 v ∷ byte_of 0 v ∷ after) ≡ 0
  internet_checksum-filled v small e le =
      (internet_checksum-zero_iff (before ++ byte_of 1 v ∷ byte_of 0 v ∷ after)
          (with_word-IsBytes (byte_of 1 v) (byte_of 0 v) (byte_of-IsByte 1 v) (byte_of-IsByte 0 v))
          (with_word-short (byte_of 1 v) (byte_of 0 v))).1
        (omega (arith, sums, zeroed, cancels), omega (arith, sums, zeroed, cancels))
    where
      sums :
          word_sum (before ++ byte_of 1 v ∷ byte_of 0 v ∷ after)
          ≡ word_sum before + v + word_sum after
      sums =
          omega
            (arith, word_sum-with_word (byte_of 1 v) (byte_of 0 v), byte_of-eq 1 v, byte_of-eq 0 v)

      zeroed :
          word_sum (before ++ byte_of 1 0 ∷ byte_of 0 0 ∷ after) ≡ word_sum before + word_sum after
      zeroed =
          omega
            (arith, word_sum-with_word (byte_of 1 0) (byte_of 0 0), byte_of-eq 1 0, byte_of-eq 0 0)

      cancels :
          (0 < word_sum (before ++ byte_of 1 0 ∷ byte_of 0 0 ∷ after) + v)
          × ((word_sum (before ++ byte_of 1 0 ∷ byte_of 0 0 ∷ after) + v) % 65535 ≡ 0)
      cancels =
          ones-cancel (word_sum (before ++ byte_of 1 0 ∷ byte_of 0 0 ∷ after)) v
            (internet_checksum (before ++ byte_of 1 0 ∷ byte_of 0 0 ∷ after))
            (internet_checksum-eq-ones _
              (with_word-IsBytes _ _ (byte_of-IsByte 1 0) (byte_of-IsByte 0 0))
              (with_word-short _ _))
            e le

  -- A zeroed field at an even offset, filled with the checksum of the whole, makes the whole verify.
  pub internet_checksum-filled_self :
      internet_checksum (
        before
        ++ byte_of 1 (internet_checksum (before ++ byte_of 1 0 ∷ byte_of 0 0 ∷ after))
          ∷ byte_of 0 (internet_checksum (before ++ byte_of 1 0 ∷ byte_of 0 0 ∷ after))
          ∷ after)
      ≡ 0
  internet_checksum-filled_self =
      internet_checksum-filled _
        (internet_checksum_lt (before ++ byte_of 1 0 ∷ byte_of 0 0 ∷ after)) refl (omega arith)

  -- Two verifying sequences that differ in one aligned word hold words that are equal modulo
  -- 65535.
  pub one_word_detected :
      (a b c d : ℕ)
      → IsByte a
      → IsByte b
      → IsByte c
      → IsByte d
      → internet_checksum (before ++ a ∷ b ∷ after) ≡ 0
      → internet_checksum (before ++ c ∷ d ∷ after) ≡ 0
      → (a * 256 + b) % 65535 ≡ (c * 256 + d) % 65535
  one_word_detected a b c d ha hb hc hd p q = omega (
    arith,
    (internet_checksum-zero_iff _ (with_word-IsBytes a b ha hb) (with_word-short a b)).0 p,
    (internet_checksum-zero_iff _ (with_word-IsBytes c d hc hd) (with_word-short c d)).0 q,
    word_sum-with_word a b,
    word_sum-with_word c d,
  )
