-- ===== src/HttpClient/Response/Length.antt =====
-- The decimal length that a server prints, as the client reads it.
use wirestack.Common.{
  ℕ, zero, suc, ◌+◌, ◌-◌, ◌*◌, ◌/◌, ◌%◌, ◌^◌, ◌≤◌, ◌<◌, ◌≡◌, refl, ap, ◌∙◌, arith,
}
use wirestack.Common.{true, false, not, [], ◌∷◌, ◌++◌, length, ltb, inl, inr}
use wirestack.Common.{Bool-cases, length-append}
use wirestack.Common.Text.{Text, all, is_digit, decimal_upto, to_string}
use wirestack.Common.Text.Laws.{all-append, all-weaken}
use wirestack.Http.Chars.{skip_ows, is_ows}
use wirestack.HttpClient.Response.{
  content_length_of, is_all_digits, trim_trailing_ows, keep_unless_blank,
}

-- What so many decimal digits reach.
unfoldable pub reach : ℕ → ℕ
reach zero = 1
reach (suc rounds) = 10 * reach rounds

decimal-digits : (rounds n : ℕ) → all is_digit (decimal_upto rounds n) ≡ true
unfolding decimal_upto all is_digit
decimal-digits zero n = refl
decimal-digits (suc rounds) n = elim (Bool-cases (ltb n 10)) [
  | inl small ↦ rw (decimal_upto, small) (ground arith)
  | inr large ↦
      rw (decimal_upto, large)
        (rw (all-append is_digit (decimal_upto rounds (n / 10)) ((b'0' + n % 10) ∷ []))
          (ground (arith, decimal-digits rounds (n / 10))))
]

length-decimal : (rounds n : ℕ) → length (decimal_upto rounds n) ≤ rounds
unfolding decimal_upto
length-decimal zero n = omega arith
length-decimal (suc rounds) n = ground (
  arith,
  length-decimal rounds (n / 10),
  length-append (decimal_upto rounds (n / 10)) ((b'0' + n % 10) ∷ []),
)

decimal-some_digit : (rounds n : ℕ) → 1 ≤ length (decimal_upto (suc rounds) n)
unfolding decimal_upto
decimal-some_digit rounds n =
    ground (arith, length-append (decimal_upto rounds (n / 10)) ((b'0' + n % 10) ∷ []))

content_length_of-append :
    (v w : ℕ) (xs ys : Text)
    → content_length_of v xs ≡ (w, false)
    → content_length_of v (xs ++ ys) ≡ content_length_of w ys
unfolding content_length_of
content_length_of-append v w [] ys h = ap (λ p. content_length_of p.0 ys) h
content_length_of-append v w (x ∷ xs) ys h =
    ground (arith, content_length_of-append (v * 10 + (x - b'0')) w xs ys)

-- One digit more.
content_length_of-digit :
    (v d n : ℕ)
    → d < 10
    → v * 10 + d ≡ n
    → n < 2 ^ 64
    → content_length_of v ((b'0' + d) ∷ []) ≡ (n, false)
unfolding content_length_of
content_length_of-digit v d n h e k =
    let fits : ltb ((2 ^ 64 - 1 - (b'0' + d - b'0')) / 10) v ≡ false = ground arith in
    rw fits (ap (λ m. (m, false)) (omega arith))

content_length_of-decimal :
    (rounds n : ℕ)
    → n < reach rounds
    → n < 2 ^ 64
    → content_length_of 0 (decimal_upto rounds n) ≡ (n, false)
unfolding reach decimal_upto
content_length_of-decimal zero n h k =
    unfold content_length_of in ap (λ m. (m, false)) (omega arith)
content_length_of-decimal (suc rounds) n h k = elim (Bool-cases (ltb n 10)) [
  | inl small ↦
      rw (decimal_upto, small) (content_length_of-digit 0 n n (ground arith) (omega arith) k)
  | inr large ↦
      rw (decimal_upto, large)
        (content_length_of-append 0 (n / 10) (decimal_upto rounds (n / 10)) ((b'0' + n % 10) ∷ [])
            (content_length_of-decimal rounds (n / 10) (ground arith) (omega arith))
          ∙ content_length_of-digit (n / 10) (n % 10) n (omega arith) (omega arith) k)
]

digit-not_blank : (c : ℕ) → is_digit c ≡ true → not (is_ows c) ≡ true
unfolding is_digit
digit-not_blank c h = ground arith

skip_ows-solid : (xs : Text) → all (λ c. not (is_ows c)) xs ≡ true → skip_ows xs ≡ xs
unfolding skip_ows all
skip_ows-solid [] h = refl
skip_ows-solid (x ∷ xs) h = ground arith

keep-solid : (c : ℕ) (xs : Text) → is_ows c ≡ false → keep_unless_blank c xs ≡ c ∷ xs
keep-solid c [] h = ground arith
keep-solid c (x ∷ xs) h = refl

trim-solid : (xs : Text) → all (λ c. not (is_ows c)) xs ≡ true → trim_trailing_ows xs ≡ xs
unfolding trim_trailing_ows all
trim-solid [] h = refl
trim-solid (x ∷ xs) h =
    ap (keep_unless_blank x) (trim-solid xs (ground arith)) ∙ keep-solid x xs (ground arith)

digits_only : (xs : Text) → 1 ≤ length xs → all is_digit xs ≡ true → is_all_digits xs ≡ true
unfolding is_all_digits
digits_only xs h k = ground arith

-- A length below 2^64 is printed as digits without blanks, and read back.
pub to_string-reads :
    (n : ℕ)
    → n < 2 ^ 64
    → (all is_digit (to_string n) ≡ true)
      × (is_all_digits (to_string n) ≡ true)
      × (trim_trailing_ows (skip_ows (to_string n)) ≡ to_string n)
      × (content_length_of 0 (to_string n) ≡ (n, false))
      × (length (to_string n) ≤ 20)
unfolding to_string reach
to_string-reads n h =
    let digits = decimal-digits 20 n in
    let solid =
      all-weaken is_digit (λ c. not (is_ows c)) (decimal_upto 20 n) digit-not_blank digits in
    (
      digits,
      digits_only (decimal_upto 20 n) (decimal-some_digit 19 n) digits,
      ap trim_trailing_ows (skip_ows-solid (decimal_upto 20 n) solid)
          ∙ trim-solid (decimal_upto 20 n) solid,
      content_length_of-decimal 20 n (omega arith) h,
      length-decimal 20 n,
    )
