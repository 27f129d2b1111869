-- ===== src/Common/Text/Laws.antt =====
-- Laws of the text functions.
use Prim.Native.Nat.{ℕ, suc, ◌+◌, ◌≤◌}
use mathlib.Core.Path.{◌≡◌, refl, ap, ◌∙◌}
use mathlib.Core.Logic.{inl, inr}
use mathlib.Core.Bool.{Bool, true, false, ◌&&◌, ◌||◌}
use mathlib.Core.List.{[], ◌∷◌, ◌++◌}
use mathlib.Core.Option.{Option, none, some}
use native.Mathlib.Omega.{arith}
use wirestack.Common.Tests.{◌==◌, Bool-cases, Option-cases}
use wirestack.Common.Lists.{length}
use wirestack.Common.Text.{
  Text, same_text, all, contains, is_prefix, find_text, next_position, cut, split,
}

pub all-append : (test : ℕ → Bool) (xs ys : Text) → all test (xs ++ ys) ≡ all test xs && all test ys
unfolding all
all-append test [] ys = refl
all-append test (x ∷ xs) ys = ground (arith, all-append test xs ys)

pub all-weaken :
    (p q : ℕ → Bool) (xs : Text)
    → ((c : ℕ) → p c ≡ true → q c ≡ true)
    → all p xs ≡ true
    → all q xs ≡ true
unfolding all
all-weaken p q [] h k = refl
all-weaken p q (x ∷ xs) h k = ground (arith, h x, all-weaken p q xs h)

pub contains-append :
    (c : ℕ) (xs ys : Text) → contains c (xs ++ ys) ≡ contains c xs || contains c ys
unfolding contains
contains-append c [] ys = refl
contains-append c (x ∷ xs) ys = ground (arith, contains-append c xs ys)

pub all-lacks :
    (c : ℕ) (p : ℕ → Bool) (xs : Text) → p c ≡ false → all p xs ≡ true → contains c xs ≡ false
unfolding all contains
all-lacks c p [] h k = refl
all-lacks c p (x ∷ xs) h k = elim (Bool-cases (x == c)) [
  | inl same ↦ let at : x ≡ c = ground arith in ground (arith, ap p at)
  | inr other ↦ ground (arith, all-lacks c p xs h)
]

pub same_text_refl : (xs : Text) → same_text xs xs ≡ true
unfolding same_text
same_text_refl [] = refl
same_text_refl (x ∷ xs) = ground (arith, same_text_refl xs)

pub same_text_eq : (xs ys : Text) → same_text xs ys ≡ true → xs ≡ ys
unfolding same_text
same_text_eq [] [] h = refl
same_text_eq [] (y ∷ ys) h = ground arith
same_text_eq (x ∷ xs) [] h = ground arith
same_text_eq (x ∷ xs) (y ∷ ys) h = ground (arith, same_text_eq xs ys)

-- A part without the separator is cut and split off whole.
pub cut-append :
    (sep : ℕ) (xs ys : Text) → contains sep xs ≡ false → cut sep (xs ++ sep ∷ ys) ≡ some (xs, ys)
unfolding cut contains
cut-append sep [] ys h = ground arith
cut-append sep (x ∷ xs) ys h = ground (arith, cut-append sep xs ys)

pub split_whole : (sep : ℕ) (xs : Text) → contains sep xs ≡ false → split sep xs ≡ xs ∷ []
unfolding split contains
split_whole sep [] h = refl
split_whole sep (x ∷ xs) h = ground (arith, split_whole sep xs)

pub split-append :
    (sep : ℕ) (xs ys : Text)
    → contains sep xs ≡ false
    → split sep (xs ++ sep ∷ ys) ≡ xs ∷ split sep ys
unfolding split contains
split-append sep [] ys h = ground arith
split-append sep (x ∷ xs) ys h = ground (arith, split-append sep xs ys)

-- A position in the text behind.
abbrev pub shift : ℕ → Option ℕ → Option ℕ
shift n none = none
shift n (some k) = some (n + k)

shift_next : (n : ℕ) (o : Option ℕ) → next_position (shift n o) ≡ shift (suc n) o
shift_next n none = refl
shift_next n (some k) = ap some (omega arith)

shift_zero : (o : Option ℕ) → o ≡ shift 0 o
shift_zero none = refl
shift_zero (some k) = ap some (omega arith)

-- A text without the pattern's first character is skipped whole.
pub find_text-append :
    (p : ℕ) (ps xs ys : Text)
    → contains p xs ≡ false
    → find_text (p ∷ ps) (xs ++ ys) ≡ shift (length xs) (find_text (p ∷ ps) ys)
unfolding find_text is_prefix contains
find_text-append p ps [] ys h = shift_zero (find_text (p ∷ ps) ys)
find_text-append p ps (x ∷ xs) ys h =
    let here : (x == p && is_prefix ps (xs ++ ys)) ≡ false = ground arith in
    rw here (
      ap next_position (find_text-append p ps xs ys (ground arith))
      ∙ shift_next (length xs) (find_text (p ∷ ps) ys))

is_prefix-append :
    (ps xs ys : Text) → length ps ≤ length xs → is_prefix ps (xs ++ ys) ≡ is_prefix ps xs
unfolding is_prefix
is_prefix-append [] xs ys h = refl
is_prefix-append (p ∷ ps) [] ys h = absurd (omega arith)
is_prefix-append (p ∷ ps) (x ∷ xs) ys h =
    ap (λ b. x == p && b) (is_prefix-append ps xs ys (omega arith))

is_prefix-length : (ps xs : Text) → is_prefix ps xs ≡ true → length ps ≤ length xs
unfolding is_prefix
is_prefix-length [] xs h = omega arith
is_prefix-length (p ∷ ps) [] h = ground arith
is_prefix-length (p ∷ ps) (x ∷ xs) h = ground (arith, is_prefix-length ps xs)

-- A pattern that is found lies within the text.
pub find_text-within :
    (pattern xs : Text) (k : ℕ) → find_text pattern xs ≡ some k → k + length pattern ≤ length xs
unfolding find_text
find_text-within pattern [] k h = elim (Bool-cases (is_prefix pattern [])) [
  | inl here ↦ ground (arith, is_prefix-length pattern [] here, rw here at h)
  | inr absent ↦ ground (arith, rw absent at h)
]
find_text-within pattern (x ∷ xs) k h = elim (Bool-cases (is_prefix pattern (x ∷ xs))) [
  | inl here ↦
      let at : some 0 ≡ some k = rw here at h in
      ground (arith, is_prefix-length pattern (x ∷ xs) here, at)
  | inr later ↦
      let at : next_position (find_text pattern xs) ≡ some k = rw later at h in
      elim (Option-cases (find_text pattern xs)) [
        | inl absent ↦ ground (arith, rw absent at at)
        | inr (j, found) ↦
            let place : some (suc j) ≡ some k = rw found at at in
            ground (arith, find_text-within pattern xs j found, place)
      ]
]

found_in_empty :
    (pattern ys : Text) (k : ℕ) → find_text pattern [] ≡ some k → find_text pattern ys ≡ some k
unfolding find_text is_prefix
found_in_empty [] [] k h = h
found_in_empty [] (y ∷ ys) k h = h
found_in_empty (p ∷ ps) ys k h = ground arith

-- What is found in a text is found at the same place when more follows.
pub find_text-extends :
    (pattern xs ys : Text) (k : ℕ)
    → find_text pattern xs ≡ some k
    → find_text pattern (xs ++ ys) ≡ some k
unfolding find_text
find_text-extends pattern [] ys k h = found_in_empty pattern ys k h
find_text-extends pattern (x ∷ xs) ys k h =
    let within = find_text-within pattern (x ∷ xs) k (unfold find_text in h) in
    let same = is_prefix-append pattern (x ∷ xs) ys (omega (arith, within)) in
    elim (Bool-cases (is_prefix pattern (x ∷ xs))) [
      | inl here ↦ ground (arith, same, here, h)
      | inr later ↦
          let at : next_position (find_text pattern xs) ≡ some k = rw later at h in
          elim (Option-cases (find_text pattern xs)) [
            | inl absent ↦ ground (arith, rw absent at at)
            | inr (j, found) ↦
                let place : some (suc j) ≡ some k = rw found at at in
                rw (same, later)
                  (ap next_position (find_text-extends pattern xs ys j found) ∙ place)
          ]
    ]
