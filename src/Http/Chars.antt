-- ===== src/Http/Chars.antt =====
-- The characters, lines and header fields of both HTTP parsers: src/http_client.cpp repeats these
-- functions of src/http.cpp and the loops over the lines and over a field.
use wirestack.Common.{ℕ, List, [], ◌∷◌, ◌++◌, Option, none, some, Bool, true, false, not, ◌||◌}
use wirestack.Common.{if◌then◌else◌, ltb, ◌==◌, ◌&&◌, length, get_or}
use wirestack.Common.Text.{Text, codes, in_chars, is_digit, contains, all, cut, is_prefix}

-- `kExtra`
abbrev extra_token_chars : Text
extra_token_chars = codes "!#$%&'*+-.^_`|~"

unfoldable pub is_token_char : ℕ → Bool
is_token_char c =
    in_chars b'A' b'Z' c || in_chars b'a' b'z' c || is_digit c || contains c extra_token_chars

unfoldable pub is_control_byte : ℕ → Bool
is_control_byte c = ltb c 0x20 || c == 0x7f

unfoldable pub is_valid_version_syntax : Text → Bool
is_valid_version_syntax version =
    length version == 8
    && is_prefix (codes "HTTP/") version
    && is_digit (get_or version 5 0)
    && get_or version 6 0 == b'.'
    && is_digit (get_or version 7 0)

abbrev pub crlf : Text
crlf = codes "\r\n"

abbrev pub head_end : Text
head_end = codes "\r\n\r\n"

abbrev pub prepend_line : Text → Option (List Text) → Option (List Text)
prepend_line line none = none
prepend_line line (some lines) = some (line ∷ lines)

-- The loop over the lines, from a position on: the line up to there, and the block from there. The
-- empty line ends it; none is a malformed block.
unfoldable pub head_lines : Text → Text → Option (List Text)
head_lines line [] = none
head_lines line (c ∷ []) = none
head_lines line (c ∷ d ∷ block) = elim (c == b'\r' && d == b'\n') [
  | false ↦ head_lines (line ++ c ∷ []) (d ∷ block)
  | true ↦ elim (contains b'\r' line || contains b'\n' line) [
    | true ↦ none
    | false ↦ elim line [
      | [] ↦ some ([] ∷ [])
      | first ∷ rest ↦ prepend_line (first ∷ rest) (head_lines [] block)
    ]
  ]
]

abbrev pub is_ows : ℕ → Bool
is_ows c = c == b' ' || c == b'\t'

unfoldable pub skip_ows : Text → Text
skip_ows [] = []
skip_ows (c ∷ cs) = if is_ows c then skip_ows cs else c ∷ cs

-- `uc == '\t' || !isControlByte(uc)`
abbrev pub is_value_byte : ℕ → Bool
is_value_byte c = c == b'\t' || not (is_control_byte c)

unfoldable pub checked_name : Option (Text × Text) → Option (Text × Text)
checked_name none = none
checked_name (some (name, rest)) =
    if length name == 0 || not (all is_token_char name) then none else some (name, skip_ows rest)

-- A header field's name, and its value without the leading blanks.
unfoldable pub split_field : Text → Option (Text × Text)
split_field [] = none
split_field (c ∷ cs) = if is_ows c then none else checked_name (cut b':' (c ∷ cs))
