-- ===== src/Common/Text.antt =====
-- Texts as lists of character codes: `std::string`, `std::string_view` and what the program calls of
-- them. A position that `find` does not find is none.
pub mod Laws
use Prim.Native.Char.{Char, code}
use Prim.Native.String.{String}
use Prim.Native.Nat.{ℕ, ◌+◌, ◌-◌, ◌*◌, ◌/◌, ◌%◌, zero, suc}
use mathlib.Core.Bool.{Bool, true, false, not, ◌&&◌, ◌||◌}
use mathlib.Core.List.{List, [], ◌∷◌, ◌++◌, map}
use mathlib.Core.Option.{Option, none, some}
use wirestack.Common.Tests.{ltb, leb, ◌==◌, if◌then◌else◌}
use wirestack.Common.Lists.{length}

abbrev pub Text : Type 0
Text = List ℕ

-- The codes of a literal, which is ASCII.
abbrev pub codes : String → Text
codes String.[] = []
codes (String.◌∷◌ c s) = code c ∷ codes s

abbrev pub in_chars : ℕ → ℕ → ℕ → Bool
in_chars first last c = leb first c && leb c last

-- `std::tolower` in the C locale.
unfoldable pub tolower : ℕ → ℕ
tolower c = if in_chars b'A' b'Z' c then c + 32 else c

unfoldable pub is_digit : ℕ → Bool
is_digit c = in_chars b'0' b'9' c

unfoldable pub same_text : Text → Text → Bool
same_text [] [] = true
same_text [] (d ∷ ds) = false
same_text (c ∷ cs) [] = false
same_text (c ∷ cs) (d ∷ ds) = c == d && same_text cs ds

-- `std::all_of`
unfoldable pub all : (ℕ → Bool) → Text → Bool
all test [] = true
all test (c ∷ cs) = test c && all test cs

unfoldable pub contains : ℕ → Text → Bool
contains c [] = false
contains c (d ∷ ds) = d == c || contains c ds

unfoldable pub is_prefix : Text → Text → Bool
is_prefix [] text = true
is_prefix (p ∷ ps) [] = false
is_prefix (p ∷ ps) (c ∷ cs) = c == p && is_prefix ps cs

abbrev pub next_position : Option ℕ → Option ℕ
next_position none = none
next_position (some n) = some (suc n)

-- `text.find(pattern)`
unfoldable pub find_text : Text → Text → Option ℕ
find_text pattern [] = if is_prefix pattern [] then some 0 else none
find_text pattern (c ∷ cs) =
    if is_prefix pattern (c ∷ cs) then some 0 else next_position (find_text pattern cs)

abbrev pub prepend_before : ℕ → Option (Text × Text) → Option (Text × Text)
prepend_before c none = none
prepend_before c (some parts) = some (c ∷ parts.0, parts.1)

-- The text before the first separator, and the text after it.
unfoldable pub cut : ℕ → Text → Option (Text × Text)
cut sep [] = none
cut sep (c ∷ cs) = if c == sep then some ([], cs) else prepend_before c (cut sep cs)

abbrev pub prepend_first : ℕ → List Text → List Text
prepend_first c [] = (c ∷ []) ∷ []
prepend_first c (part ∷ parts) = (c ∷ part) ∷ parts

-- The parts between the separators.
unfoldable pub split : ℕ → Text → List Text
split sep [] = [] ∷ []
split sep (c ∷ cs) = let rest = split sep cs in if c == sep then [] ∷ rest else prepend_first c rest

-- `std::to_string` of an unsigned number, on as many rounds as it may have digits.
unfoldable pub decimal_upto : ℕ → ℕ → Text
decimal_upto zero n = []
decimal_upto (suc rounds) n =
    let leading = decimal_upto rounds (n / 10) in
    if ltb n 10 then (b'0' + n) ∷ [] else leading ++ (b'0' + n % 10) ∷ []

-- A 64-bit number has at most 20 digits.
unfoldable pub to_string : ℕ → Text
to_string = decimal_upto 20
