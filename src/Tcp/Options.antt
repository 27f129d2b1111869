-- ===== src/Tcp/Options.antt =====
-- `parseTcpOptions`. A read outside the options is the outcome `fault`; the loop runs on fuel.
use wirestack.Common.{ℕ, zero, suc, ◌+◌, ◌-◌, ◌/◌, List, [], ◌∷◌, Bool, true, false, not, ◌&&◌}
use wirestack.Common.{Option, none, some, ltb, leb, ◌==◌, ◌!=◌, if◌then◌else◌, length, get_elem?}
use wirestack.Bytes.{join16, join32}

pub record TcpSackBlock : Type 0 where
  pub left_edge : ℕ
  pub right_edge : ℕ

pub record TcpParsedOptions : Type 0 where
  pub maximum_segment_size : Option ℕ
  pub window_scale : Option ℕ
  pub sack_permitted : Bool
  pub sack_blocks : List TcpSackBlock

pub data TcpOptionParseError : Type 0 where
  missing_length invalid_length truncated_option duplicate_mss : TcpOptionParseError
  duplicate_window_scale invalid_mss duplicate_sack_permitted duplicate_sack : TcpOptionParseError
  invalid_sack_permitted_length invalid_sack_length : TcpOptionParseError

-- `fault` is a read past the end, which the code must not make; `no_fuel` a loop that has not
-- ended in as many rounds as there are bytes.
pub data Outcome (A : Type 0) : Type 0 where
  done : A → Outcome A
  failed : TcpOptionParseError → Outcome A
  fault no_fuel : Outcome A

-- `TcpParsedOptions{}`
abbrev pub no_options : TcpParsedOptions
no_options = record {
  maximum_segment_size = none;
  window_scale = none;
  sack_permitted = false;
  sack_blocks = [];
}

infixl 5 ◌>>=◌
abbrev pub ◌>>=◌ : {A B : Type 0} → Outcome A → (A → Outcome B) → Outcome B
done a >>= f = f a
failed e >>= f = failed e
fault >>= f = fault
no_fuel >>= f = no_fuel

unfoldable pub read : List ℕ → ℕ → Outcome ℕ
read options i = elim (get_elem? options i) [ none ↦ fault | some b ↦ done b ]

unfoldable pub read16 : List ℕ → ℕ → Outcome ℕ
read16 options i = do hi ← read options i; lo ← read options (i + 1); done (join16 hi lo)

unfoldable pub read32 : List ℕ → ℕ → Outcome ℕ
read32 options i = do
  a ← read options i
  b ← read options (i + 1)
  c ← read options (i + 2)
  d ← read options (i + 3)
  done (join32 a b c d)

-- The loop over the blocks of a SACK option, from the next block's offset.
unfoldable pub read_blocks : ℕ → List ℕ → ℕ → Outcome (List TcpSackBlock)
read_blocks zero options offset = done []
read_blocks (suc count) options offset = do
  left ← read32 options offset
  right ← read32 options (offset + 4)
  rest ← read_blocks count options (offset + 8)
  done (record { left_edge = left; right_edge = right } ∷ rest)

abbrev pub has_value : Option ℕ → Bool
has_value none = false
has_value (some v) = true

abbrev pub is_empty : List TcpSackBlock → Bool
is_empty [] = true
is_empty (b ∷ bs) = false

-- The options that are understood, each at index `i` with its declared length.
unfoldable pub mss_option : List ℕ → ℕ → ℕ → TcpParsedOptions → Outcome TcpParsedOptions
mss_option options i len parsed =
    if len != 4
    then failed truncated_option
    else if has_value parsed.maximum_segment_size
    then failed duplicate_mss
    else do
      value ← read16 options (i + 2)
      if value == 0
          then failed invalid_mss
          else done (record parsed { maximum_segment_size = some value })

unfoldable pub window_scale_option : List ℕ → ℕ → ℕ → TcpParsedOptions → Outcome TcpParsedOptions
window_scale_option options i len parsed =
    if len != 3
    then failed truncated_option
    else if has_value parsed.window_scale
    then failed duplicate_window_scale
    else do shift ← read options (i + 2); done (record parsed { window_scale = some shift })

unfoldable pub sack_permitted_option : ℕ → TcpParsedOptions → Outcome TcpParsedOptions
sack_permitted_option len parsed =
    if len != 2
    then failed invalid_sack_permitted_length
    else if parsed.sack_permitted
    then failed duplicate_sack_permitted
    else done (record parsed { sack_permitted = true })

unfoldable pub sack_option : List ℕ → ℕ → ℕ → TcpParsedOptions → Outcome TcpParsedOptions
sack_option options i len parsed =
    if len != 10 && len != 18 && len != 26 && len != 34
    then failed invalid_sack_length
    else if not (is_empty parsed.sack_blocks)
    then failed duplicate_sack
    else do
      blocks ← read_blocks ((len - 2) / 8) options (i + 2)
      done (record parsed { sack_blocks = blocks })

-- Any other kind is skipped.
unfoldable pub apply_option : List ℕ → ℕ → ℕ → ℕ → TcpParsedOptions → Outcome TcpParsedOptions
apply_option options i kind len parsed =
    if kind == 2
    then mss_option options i len parsed
    else if kind == 3
    then window_scale_option options i len parsed
    else if kind == 4
    then sack_permitted_option len parsed
    else if kind == 5
    then sack_option options i len parsed
    else done parsed

-- One option that has a length byte, at index `i`: what is parsed then, and the next index.
unfoldable pub long_option : List ℕ → ℕ → ℕ → TcpParsedOptions → Outcome (ℕ × TcpParsedOptions)
long_option options i kind parsed =
    if leb (length options) (i + 1) then failed missing_length else do
      len ← read options (i + 1)
      if ltb len 2
          then failed invalid_length
          else if ltb (length options) (i + len)
          then failed truncated_option
          else do parsed' ← apply_option options i kind len parsed; done (i + len, parsed')

-- `while (i < options.size())`
unfoldable pub options_loop : ℕ → List ℕ → ℕ → TcpParsedOptions → Outcome TcpParsedOptions
options_loop zero options i parsed = no_fuel
options_loop (suc fuel) options i parsed =
    let after_nop = options_loop fuel options (i + 1) parsed in
    if not (ltb i (length options)) then done parsed else do
      kind ← read options i
      if kind == 0
          then done parsed
          else if kind == 1
          then after_nop
          else do next ← long_option options i kind parsed; options_loop fuel options next.0 next.1

unfoldable pub parse_tcp_options : List ℕ → Outcome TcpParsedOptions
parse_tcp_options options = options_loop (suc (length options)) options 0 no_options
