-- ===== src/HttpClient/Response.antt =====
-- `parseHttpResponse`.
pub mod Length
pub mod Render
pub mod Exchange
pub mod Lines
use wirestack.Common.{ℕ, ◌+◌, ◌-◌, ◌*◌, ◌/◌, ◌^◌, List, [], ◌∷◌, Option, none, some, Bool, true}
use wirestack.Common.{
  false, not, ◌&&◌, ◌||◌, if◌then◌else◌, ltb, ◌==◌, ◌!=◌, length, take, drop, map,
}
use wirestack.Common.{get_or}
use wirestack.Common.Text.{Text, codes, same_text, all, contains, find_text, cut, tolower, is_digit}
use wirestack.Http.Chars.{
  is_valid_version_syntax, crlf, head_end, head_lines, is_ows, is_value_byte, split_field,
}

abbrev pub max_http_response_status_line_length : ℕ
max_http_response_status_line_length = 2048

abbrev pub max_http_response_header_block_length : ℕ
max_http_response_header_block_length = 8192

abbrev pub max_http_response_body_length : ℕ
max_http_response_body_length = 262144

pub data HttpResponseParseStatus : Type 0 where
  incomplete complete malformed too_large unsupported_version : HttpResponseParseStatus
  unsupported_transfer_encoding truncated : HttpResponseParseStatus

pub record HttpResponseParseResult : Type 0 where
  pub status : HttpResponseParseStatus
  pub status_code : Option ℕ
  pub body : Text
  pub content_length_present : Bool

unfoldable pub is_all_digits : Text → Bool
is_all_digits text = length text != 0 && all is_digit text

abbrev pub keep_unless_blank : ℕ → Text → Text
keep_unless_blank c [] = if is_ows c then [] else c ∷ []
keep_unless_blank c (d ∷ ds) = c ∷ d ∷ ds

unfoldable pub trim_trailing_ows : Text → Text
trim_trailing_ows [] = []
trim_trailing_ows (c ∷ cs) = keep_unless_blank c (trim_trailing_ows cs)

-- `StatusLineParse`, with the code where the outcome is Ok.
pub data StatusLineParse : Type 0 where
  malformed_line version_not_known : StatusLineParse
  line_ok : ℕ → StatusLineParse

unfoldable pub code_value : Text → ℕ
code_value code =
    (get_or code 0 0 - b'0') * 100 + (get_or code 1 0 - b'0') * 10 + (get_or code 2 0 - b'0')

unfoldable pub parse_code : Text → Text → StatusLineParse
parse_code code_str reason =
    let code = code_value code_str in
    if length code_str != 3 || not (is_all_digits code_str)
    then malformed_line
    else if ltb code 200 || ltb 599 code
    then malformed_line
    else if not (all is_value_byte reason)
    then malformed_line
    else line_ok code

unfoldable pub parse_after_version : Text → StatusLineParse
parse_after_version [] = malformed_line
parse_after_version (c ∷ cs) = if c == b' ' then malformed_line else elim (cut b' ' (c ∷ cs)) [
  | none ↦ malformed_line
  | some parts ↦ parse_code parts.0 parts.1
]

unfoldable pub parse_status_line : Text → StatusLineParse
parse_status_line line = elim (cut b' ' line) [
  | none ↦ malformed_line
  | some parts ↦
      if not (is_valid_version_syntax parts.0)
      then malformed_line
      else if not (same_text parts.0 (codes "HTTP/1.0"))
      then version_not_known
      else parse_after_version parts.1
]

unfoldable pub reject : HttpResponseParseStatus → HttpResponseParseResult
reject status = record {
  status = status;
  status_code = none;
  body = [];
  content_length_present = false;
}

-- The value of Content-Length so far, and whether it left 64 bits.
unfoldable pub content_length_of : ℕ → Text → ℕ × Bool
content_length_of v [] = (v, false)
content_length_of v (c ∷ cs) =
    let d = c - b'0' in
    let rest = content_length_of (v * 10 + d) cs in
    if ltb ((2 ^ 64 - 1 - d) / 10) v then (v, true) else rest

-- The variables of the loop over the fields.
pub record FieldsSeen : Type 0 where
  pub has_transfer_encoding : Bool
  pub content_length : Option (ℕ × Bool)

unfoldable pub response_field : FieldsSeen → Text → Text → Option FieldsSeen
response_field seen name value =
    let read = record seen { content_length = some (content_length_of 0 value) } in
    if not (all is_value_byte value)
    then none
    else if same_text name (codes "transfer-encoding")
    then some (record seen { has_transfer_encoding = true })
    else if not (same_text name (codes "content-length"))
    then some seen
    else elim seen.content_length [
      | some length ↦ none
      | none ↦ if not (is_all_digits value) then none else some read
    ]

-- The loop over the lines behind the first; the last one is the blank line.
unfoldable pub read_fields : FieldsSeen → List Text → Option FieldsSeen
read_fields seen [] = some seen
read_fields seen (last ∷ []) = some seen
read_fields seen (line ∷ next ∷ lines) = elim (split_field line) [
  | none ↦ none
  | some field ↦ elim (response_field seen (map tolower field.0) (trim_trailing_ows field.1)) [
    | none ↦ none
    | some now ↦ read_fields now (next ∷ lines)
  ]
]

abbrev no_fields_seen : FieldsSeen
no_fields_seen = record { has_transfer_encoding = false; content_length = none }

abbrev pub fields_behind : List Text → Option FieldsSeen
fields_behind [] = some no_fields_seen
fields_behind (first ∷ lines) = read_fields no_fields_seen lines

unfoldable pub response_fields : Text → Option FieldsSeen
response_fields header_block = elim (head_lines [] header_block) [
  | none ↦ none
  | some lines ↦ fields_behind lines
]

abbrev pub unfinished : ℕ → Text → Bool → HttpResponseParseResult
unfinished limit view peer_closed =
    if ltb limit (length view)
    then reject too_large
    else if peer_closed
    then reject truncated
    else reject incomplete

abbrev completed : ℕ → Text → Bool → HttpResponseParseResult
completed code body present = record {
  status = complete;
  status_code = some code;
  body = body;
  content_length_present = present;
}

-- The body, with a declared length and without.
unfoldable pub declared_body : ℕ → ℕ × Bool → Text → Bool → HttpResponseParseResult
declared_body code (n, overflowed) extra peer_closed =
    if overflowed || ltb max_http_response_body_length n
    then reject too_large
    else if ltb n (length extra)
    then reject malformed
    else if ltb (length extra) n
    then (if peer_closed then reject truncated else reject incomplete)
    else completed code extra true

unfoldable pub undeclared_body : ℕ → Text → Bool → HttpResponseParseResult
undeclared_body code extra peer_closed =
    if ltb max_http_response_body_length (length extra)
    then reject too_large
    else if not peer_closed
    then reject incomplete
    else completed code extra false

unfoldable pub response_body : ℕ → FieldsSeen → Text → Bool → HttpResponseParseResult
response_body code seen extra peer_closed =
    if seen.has_transfer_encoding
    then reject unsupported_transfer_encoding
    else elim seen.content_length [
      | some declared ↦ declared_body code declared extra peer_closed
      | none ↦ undeclared_body code extra peer_closed
    ]

unfoldable pub parse_ended_head : Text → Bool → ℕ → ℕ → HttpResponseParseResult
parse_ended_head view peer_closed code terminator =
    let header_block = take (terminator + 4) view in
    if ltb max_http_response_header_block_length (terminator + 4)
    then reject too_large
    else if contains 0 header_block
    then reject malformed
    else elim (response_fields header_block) [
      | none ↦ reject malformed
      | some seen ↦ response_body code seen (drop (terminator + 4) view) peer_closed
    ]

unfoldable pub parse_headers : Text → Bool → StatusLineParse → HttpResponseParseResult
parse_headers view peer_closed malformed_line = reject malformed
parse_headers view peer_closed version_not_known = reject unsupported_version
parse_headers view peer_closed (line_ok code) = elim (find_text head_end view) [
  | none ↦ unfinished max_http_response_header_block_length view peer_closed
  | some terminator ↦ parse_ended_head view peer_closed code terminator
]

unfoldable pub parse_http_response : Text → Bool → HttpResponseParseResult
parse_http_response view peer_closed = elim (find_text crlf view) [
  | none ↦ unfinished max_http_response_status_line_length view peer_closed
  | some status_line_end ↦
      if ltb max_http_response_status_line_length (status_line_end + 2)
      then reject too_large
      else parse_headers view peer_closed (parse_status_line (take status_line_end view))
]
