-- ===== src/HttpClient/Response/Lines.antt =====
-- The server's response as lines, and what the client's parser makes of each.
use wirestack.Common.{ℕ, ◌≤◌, ◌<◌, ◌^◌, ◌≡◌, refl, arith, Bool, true, false}
use wirestack.Common.{List, [], ◌∷◌, ◌++◌, none, some, length, All, inl}
use wirestack.Common.{append_assoc, Bool-cases, inr}
use wirestack.Common.Text.{
  Text, codes, all, contains, cut, same_text, tolower, is_digit, to_string, is_prefix,
}
use wirestack.Common.Text.Laws.{all-weaken}
use wirestack.Http.Chars.{
  is_control_byte, is_valid_version_syntax, skip_ows, split_field, checked_name, is_value_byte,
  is_token_char,
}
use wirestack.Http.Lines.{is_line_char, IsLine, render_lines}
use wirestack.Http.Response.{
  HttpStatus, ok200, bad_request400, not_found404, method_not_allowed405, version_not_supported505,
  HttpResponse, status_line, serialize_http_response,
}
use wirestack.HttpClient.Response.{
  parse_status_line, parse_after_version, parse_code, code_value, is_all_digits, line_ok,
  FieldsSeen, read_fields, response_field, trim_trailing_ows, keep_unless_blank,
}
use wirestack.HttpClient.Response.Length.{to_string-reads}

-- The lines of a response.
pub first_line : HttpStatus → Text
first_line status = codes "HTTP/1.0 " ++ status_line status

unfoldable pub type_line : Text → Text
type_line content_type = codes "Content-Type: " ++ content_type

unfoldable pub length_line : ℕ → Text
length_line n = codes "Content-Length: " ++ to_string n

abbrev pub close_line : Text
close_line = codes "Connection: close"

unfoldable pub last_lines : Bool → List Text
last_lines true = codes "Allow: GET" ∷ close_line ∷ []
last_lines false = close_line ∷ []

abbrev pub field_lines : HttpResponse → List Text
field_lines r =
    type_line r.content_type ∷ length_line (length r.body) ∷ last_lines r.include_allow_get

pub serialize-lines :
    (r : HttpResponse)
    → serialize_http_response r ≡ render_lines (first_line r.status ∷ field_lines r) ++ r.body
unfolding serialize_http_response first_line type_line length_line last_lines render_lines
serialize-lines r = elim (Bool-cases r.include_allow_get) [
  | inl allow ↦ simp (allow, append_assoc)
  | inr no_allow ↦ simp (no_allow, append_assoc)
]

-- The code that a status line spells.
unfoldable pub code_of : HttpStatus → ℕ
code_of ok200 = 200
code_of bad_request400 = 400
code_of not_found404 = 404
code_of method_not_allowed405 = 405
code_of version_not_supported505 = 505

pub parse_first_line : (s : HttpStatus) → parse_status_line (first_line s) ≡ line_ok (code_of s)
unfolding parse_status_line first_line status_line code_of cut is_valid_version_syntax same_text
    parse_after_version parse_code code_value is_all_digits all is_control_byte is_digit is_prefix
parse_first_line ok200 = refl
parse_first_line bad_request400 = refl
parse_first_line not_found404 = refl
parse_first_line method_not_allowed405 = refl
parse_first_line version_not_supported505 = refl

pub first_line-IsLine : (s : HttpStatus) → IsLine (first_line s) × (length (first_line s) ≤ 40)
unfolding IsLine first_line status_line all is_line_char
first_line-IsLine ok200 = ((refl, omega arith), omega arith)
first_line-IsLine bad_request400 = ((refl, omega arith), omega arith)
first_line-IsLine not_found404 = ((refl, omega arith), omega arith)
first_line-IsLine method_not_allowed405 = ((refl, omega arith), omega arith)
first_line-IsLine version_not_supported505 = ((refl, omega arith), omega arith)

value_byte-line : (c : ℕ) → is_value_byte c ≡ true → is_line_char c ≡ true
unfolding is_line_char is_control_byte
value_byte-line c h = ground arith

digit-line : (c : ℕ) → is_digit c ≡ true → is_line_char c ≡ true
unfolding is_line_char is_digit
digit-line c h = ground arith

digit-value : (c : ℕ) → is_digit c ≡ true → is_value_byte c ≡ true
unfolding is_digit is_control_byte
digit-value c h = ground arith

pub type_line-IsLine : (t : Text) → all is_value_byte t ≡ true → IsLine (type_line t)
unfolding IsLine type_line is_line_char all
type_line-IsLine t h = (all-weaken is_value_byte is_line_char t value_byte-line h, omega arith)

pub length_line-IsLine : (n : ℕ) → n < 2 ^ 64 → IsLine (length_line n)
unfolding IsLine length_line is_line_char all
length_line-IsLine n h =
    (all-weaken is_digit is_line_char (to_string n) digit-line (to_string-reads n h).0, omega arith)

pub last_lines-IsLine : (allow : Bool) → All IsLine (last_lines allow)
unfolding IsLine last_lines is_line_char all
last_lines-IsLine true = ((refl, omega arith), ((refl, omega arith), tt))
last_lines-IsLine false = ((refl, omega arith), tt)

all-skip_ows : (p : ℕ → Bool) (xs : Text) → all p xs ≡ true → all p (skip_ows xs) ≡ true
unfolding skip_ows all
all-skip_ows p [] h = refl
all-skip_ows p (x ∷ xs) h = ground (arith, all-skip_ows p xs)

all-keep :
    (p : ℕ → Bool) (x : ℕ) (xs : Text)
    → p x ≡ true
    → all p xs ≡ true
    → all p (keep_unless_blank x xs) ≡ true
unfolding all
all-keep p x [] h k = ground arith
all-keep p x (y ∷ ys) h k = ground arith

all-trim : (p : ℕ → Bool) (xs : Text) → all p xs ≡ true → all p (trim_trailing_ows xs) ≡ true
unfolding trim_trailing_ows all
all-trim p [] h = refl
all-trim p (x ∷ xs) h =
    all-keep p x (trim_trailing_ows xs) (ground arith) (all-trim p xs (ground arith))

-- What each field adds to what has been seen.
pub type_field :
    (seen : FieldsSeen) (t next : Text) (lines : List Text)
    → all is_value_byte t ≡ true
    → read_fields seen (type_line t ∷ next ∷ lines) ≡ read_fields seen (next ∷ lines)
unfolding read_fields type_line split_field checked_name cut is_token_char all is_digit contains
    skip_ows response_field tolower same_text
type_field seen t next lines h =
    let value = all-trim is_value_byte (skip_ows t) (all-skip_ows is_value_byte t h) in
    rw (read_fields, value) refl

pub length_field :
    (n : ℕ) (next : Text) (lines : List Text)
    → n < 2 ^ 64
    → read_fields
        (record { has_transfer_encoding = false; content_length = none })
        (length_line n ∷ next ∷ lines)
      ≡ read_fields
          (record { has_transfer_encoding = false; content_length = some (n, false) })
          (next ∷ lines)
unfolding read_fields length_line split_field checked_name cut is_token_char all is_digit contains
    skip_ows response_field tolower same_text
length_field n next lines h =
    let (digits, all_digits, solid, value, size) = to_string-reads n h in
    let values = all-weaken is_digit is_value_byte (to_string n) digit-value digits in
    rw (read_fields, solid) (rw (values, all_digits, value) refl)

pub last_fields :
    (seen : FieldsSeen) (allow : Bool) → read_fields seen (last_lines allow ++ [] ∷ []) ≡ some seen
unfolding read_fields last_lines split_field checked_name cut is_token_char all is_digit contains
    skip_ows response_field tolower same_text trim_trailing_ows is_control_byte
last_fields seen true = refl
last_fields seen false = refl
