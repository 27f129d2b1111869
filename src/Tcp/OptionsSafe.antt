-- ===== src/Tcp/OptionsSafe.antt =====
-- `parseTcpOptions` on any bytes whatever: it ends, reads nothing outside the options, and what it
-- returns is in range.
use wirestack.Common.{
  ℕ, zero, suc, ◌+◌, ◌-◌, ◌*◌, ◌/◌, ◌≤◌, ◌<◌, ◌≡◌, refl, List, [], ◌∷◌, arith, Option, none, some,
}
use wirestack.Common.{length, ltb, leb, ◌==◌, ◌!=◌, Bool, true, false, not, ◌&&◌, if◌then◌else◌, ap}
use wirestack.Bytes.{IsByte, IsBytes}
use wirestack.Bytes.Laws.{join16_lt}
use wirestack.Tcp.Options.{TcpOptionParseError, Outcome, done, failed, ◌>>=◌, TcpParsedOptions}
use wirestack.Tcp.Options.{no_options, read, read16, read32, read_blocks, apply_option, mss_option}
use wirestack.Tcp.Options.{window_scale_option, sack_permitted_option, sack_option, long_option}
use wirestack.Tcp.Options.{options_loop, parse_tcp_options, has_value, is_empty}

-- The run ends in a result that satisfies `P`, or in an error that the code reports.
pub data Settles {A : Type 0} (P : A → Type 0) : Outcome A → Type 0 where
  settled : {a : A} → P a → Settles P (done a)
  reported : {e : TcpOptionParseError} → Settles P (failed e)

-- A maximum segment size is a positive 16-bit number, a shift count a byte, and there are at most
-- four blocks.
abbrev pub MssInRange : Option ℕ → Type 0
MssInRange none = Unit
MssInRange (some v) = (0 < v) × (v < 65536)

abbrev pub ShiftInRange : Option ℕ → Type 0
ShiftInRange none = Unit
ShiftInRange (some v) = v < 256

pub record IsParsed (p : TcpParsedOptions) : Type 0 where
  pub mss_in_range : MssInRange p.maximum_segment_size
  pub shift_in_range : ShiftInRange p.window_scale
  pub few_blocks : length p.sack_blocks ≤ 4

Settles-bind :
    {A B : Type 0} {P : A → Type 0} {Q : B → Type 0} {m : Outcome A} (f : A → Outcome B)
    → Settles P m
    → ((a : A) → P a → Settles Q (f a))
    → Settles Q (m >>= f)
Settles-bind f (settled {a} p) k = k a p
Settles-bind f reported k = reported

Settles-if :
    {A : Type 0} {P : A → Type 0} (b : Bool) {m n : Outcome A}
    → (b ≡ true → Settles P m)
    → (b ≡ false → Settles P n)
    → Settles P (if b then m else n)
Settles-if true s t = s refl
Settles-if false s t = t refl

read-Settles : (xs : List ℕ) (i : ℕ) → IsBytes xs → i < length xs → Settles IsByte (read xs i)
unfolding read
read-Settles [] i p h = absurd (omega arith)
read-Settles (x ∷ xs) zero p h = settled p.0
read-Settles (x ∷ xs) (suc i) p h = read-Settles xs i p.1 (omega arith)

module _ (xs : List ℕ) (bytes : IsBytes xs) where
  read16-Settles : (i : ℕ) → i + 1 < length xs → Settles (λ v. v < 65536) (read16 xs i)
  unfolding read16
  read16-Settles i h =
      Settles-bind _ (read-Settles xs i bytes (omega arith))
        λ hi _. Settles-bind _ (read-Settles xs (i + 1) bytes h) λ lo _. settled (join16_lt hi lo)

  read32-Settles : (i : ℕ) → i + 3 < length xs → Settles (λ v. Unit {0}) (read32 xs i)
  unfolding read32
  read32-Settles i h = Settles-bind _ (read-Settles xs i bytes (omega arith)) λ a _.
      Settles-bind _ (read-Settles xs (i + 1) bytes (omega arith)) λ b _.
        Settles-bind _ (read-Settles xs (i + 2) bytes (omega arith))
          λ c _. Settles-bind _ (read-Settles xs (i + 3) bytes h) λ d _. settled tt

  read_blocks-Settles :
      (count i : ℕ)
      → i + count * 8 ≤ length xs
      → Settles (λ bs. length bs ≡ count) (read_blocks count xs i)
  unfolding read_blocks
  read_blocks-Settles zero i h = settled refl
  read_blocks-Settles (suc count) i h = Settles-bind _ (read32-Settles i (omega arith)) λ l _.
      Settles-bind _ (read32-Settles (i + 4) (omega arith)) λ r _.
        Settles-bind _ (read_blocks-Settles count (i + 8) (omega arith))
          λ rest e. settled (ap suc e)

  -- Each known option, its declared length lying within the bytes.
  module _ (i len : ℕ) (inside : i + len ≤ length xs) (parsed : TcpParsedOptions)
      (v : IsParsed parsed) where
    mss_option-Settles : Settles IsParsed (mss_option xs i len parsed)
    unfolding mss_option
    mss_option-Settles =
        Settles-if (len != 4) (λ _. reported)
          λ four.
            Settles-if (has_value parsed.maximum_segment_size) (λ _. reported)
              λ _.
                Settles-bind _ (read16-Settles (i + 2) (ground arith)) λ value small.
                  Settles-if (value == 0) (λ _. reported) λ pos. settled (ground arith)

    window_scale_option-Settles : Settles IsParsed (window_scale_option xs i len parsed)
    unfolding window_scale_option
    window_scale_option-Settles =
        Settles-if (len != 3) (λ _. reported)
          λ three.
            Settles-if (has_value parsed.window_scale) (λ _. reported)
              λ _.
                Settles-bind _ (read-Settles xs (i + 2) bytes (ground arith))
                  λ shift small. settled (ground arith)

    sack_permitted_option-Settles : Settles IsParsed (sack_permitted_option len parsed)
    unfolding sack_permitted_option
    sack_permitted_option-Settles =
        Settles-if (len != 2) (λ _. reported)
          λ two. Settles-if parsed.sack_permitted (λ _. reported) λ _. settled (ground arith)

    sack_option-Settles : Settles IsParsed (sack_option xs i len parsed)
    unfolding sack_option
    sack_option-Settles =
        Settles-if (len != 10 && len != 18 && len != 26 && len != 34) (λ _. reported)
          λ known.
            Settles-if (not (is_empty parsed.sack_blocks)) (λ _. reported)
              λ _.
                Settles-bind _ (read_blocks-Settles ((len - 2) / 8) (i + 2) (ground arith))
                  λ blocks count. settled (ground arith)

    apply_option-Settles : (kind : ℕ) → Settles IsParsed (apply_option xs i kind len parsed)
    unfolding apply_option
    apply_option-Settles kind =
        Settles-if (kind == 2) (λ _. mss_option-Settles)
          λ _.
            Settles-if (kind == 3) (λ _. window_scale_option-Settles)
              λ _.
                Settles-if (kind == 4) (λ _. sack_permitted_option-Settles)
                  λ _. Settles-if (kind == 5) (λ _. sack_option-Settles) λ _. settled v

  -- An option with a length byte moves the index on by two at least, and not past the end.
  long_option-Settles :
      (i kind : ℕ) (parsed : TcpParsedOptions)
      → IsParsed parsed
      → Settles
          (λ next. IsParsed next.1 × (i + 2 ≤ next.0) × (next.0 ≤ length xs))
          (long_option xs i kind parsed)
  unfolding long_option
  long_option-Settles i kind parsed v =
      Settles-if (leb (length xs) (i + 1)) (λ _. reported)
        λ room. Settles-bind _ (read-Settles xs (i + 1) bytes (ground arith)) λ len _.
          Settles-if (ltb len 2) (λ _. reported)
            λ two.
              Settles-if (ltb (length xs) (i + len)) (λ _. reported)
                λ inside.
                  Settles-bind _ (apply_option-Settles i len (ground arith) parsed v kind)
                    λ parsed' v'. settled (v', ground arith, ground arith)

  options_loop-Settles :
      (fuel i : ℕ) (parsed : TcpParsedOptions)
      → IsParsed parsed
      → i ≤ length xs
      → length xs < fuel + i
      → Settles IsParsed (options_loop fuel xs i parsed)
  unfolding options_loop
  options_loop-Settles zero i parsed v le h = absurd (omega arith)
  options_loop-Settles (suc fuel) i parsed v le h =
      Settles-if (not (ltb i (length xs))) (λ _. settled v)
        λ more. Settles-bind _ (read-Settles xs i bytes (ground arith)) λ kind _.
          Settles-if (kind == 0) (λ _. settled v)
            λ _.
              Settles-if (kind == 1)
                (λ _. options_loop-Settles fuel (i + 1) parsed v (ground arith) (omega arith))
                λ _.
                  Settles-bind _ (long_option-Settles i kind parsed v)
                    λ next ok. options_loop-Settles fuel next.0 next.1 ok.0 ok.2 (omega arith)

-- On every byte sequence the parser ends, never reads outside it, and either reports an error or
-- returns options in range.
pub parse_tcp_options-Settles : (xs : List ℕ) → IsBytes xs → Settles IsParsed (parse_tcp_options xs)
unfolding parse_tcp_options
parse_tcp_options-Settles xs bytes =
    options_loop-Settles xs bytes (suc (length xs)) 0 no_options (omega arith) (omega arith)
      (omega arith)
