-- ===== src/Http/Request.antt =====
-- `parseHttpRequest` and `appendHttpBytes`.
pub mod Render
pub mod Sound
use wirestack.Common.{ℕ, ◌+◌, ◌-◌, List, [], ◌∷◌, ◌++◌, Option, none, some, Bool, true, false, not}
use wirestack.Common.{if◌then◌else◌, ltb, leb, ◌==◌, ◌!=◌, ◌&&◌, ◌||◌, length, take, drop, map, min}
use wirestack.Common.Text.{Text, codes, same_text, all, contains, find_text, split, tolower}
use wirestack.Http.Chars.{
  is_token_char, is_control_byte, is_valid_version_syntax, crlf, head_end, head_lines,
  is_value_byte, split_field,
}

pub record HttpRequest : Type 0 where
  pub method : Text
  pub target : Text
  pub version : Text

pub data HttpParseStatus : Type 0 where
  incomplete complete malformed too_large unsupported_method unsupported_version : HttpParseStatus

pub record HttpParseResult : Type 0 where
  pub status : HttpParseStatus
  pub request : Option HttpRequest

abbrev pub max_http_request_line_length : ℕ
max_http_request_line_length = 2048

abbrev pub max_http_header_block_length : ℕ
max_http_header_block_length = 8192

unfoldable pub any_empty : List Text → Bool
any_empty [] = false
any_empty (field ∷ fields) = length field == 0 || any_empty fields

unfoldable pub split_exact : Text → ℕ → ℕ → List Text
split_exact text sep count =
    let fields = split sep text in if length fields != count || any_empty fields then [] else fields

unfoldable pub is_valid_method_token : Text → Bool
is_valid_method_token method = length method != 0 && all is_token_char method

unfoldable pub is_target_char : ℕ → Bool
is_target_char c = not (c == b' ' || is_control_byte c)

unfoldable pub is_valid_target : Text → Bool
is_valid_target [] = false
is_valid_target (c ∷ cs) = c == b'/' && all is_target_char (c ∷ cs)

-- `HeadParse`, with the request where the outcome is Complete.
pub data HeadParse : Type 0 where
  malformed_head method_not_known version_not_known : HeadParse
  head_read : HttpRequest → HeadParse

-- From the lower-case name on; none is a malformed field, else whether Content-Length was seen.
unfoldable pub known_field : Bool → Text → Text → Option Bool
known_field seen name value =
    if not (all is_value_byte value)
    then none
    else if same_text name (codes "transfer-encoding")
    then none
    else if not (same_text name (codes "content-length"))
    then some seen
    else if seen || not (same_text value (codes "0"))
    then none
    else some true

unfoldable pub header_field : Bool → Text → Option Bool
header_field seen line = elim (split_field line) [
  | none ↦ none
  | some field ↦ known_field seen (map tolower field.0) field.1
]

-- The loop over the lines behind the first; the last one is the blank line.
unfoldable pub check_fields : Bool → List Text → Bool
check_fields seen [] = true
check_fields seen (last ∷ []) = true
check_fields seen (line ∷ next ∷ lines) = elim (header_field seen line) [
  | none ↦ false
  | some now ↦ check_fields now (next ∷ lines)
]

unfoldable pub check_request : Text → Text → Text → List Text → HeadParse
check_request method target version lines =
    if not (is_valid_method_token method)
    then malformed_head
    else if not (is_valid_version_syntax version)
    then malformed_head
    else if not (is_valid_target target)
    then malformed_head
    else if not (same_text method (codes "GET"))
    then method_not_known
    else if not (same_text version (codes "HTTP/1.0"))
    then version_not_known
    else if not (check_fields false lines)
    then malformed_head
    else head_read record { method = method; target = target; version = version }

unfoldable pub parse_tokens : List Text → List Text → HeadParse
parse_tokens (method ∷ target ∷ version ∷ []) lines = check_request method target version lines
parse_tokens tokens lines = malformed_head

unfoldable pub parse_lines : List Text → HeadParse
parse_lines [] = malformed_head
parse_lines ([] ∷ lines) = malformed_head
parse_lines ((c ∷ cs) ∷ lines) = parse_tokens (split_exact (c ∷ cs) b' ' 3) lines

unfoldable pub parse_head : Text → HeadParse
parse_head head_block = elim (head_lines [] head_block) [
  | none ↦ malformed_head
  | some lines ↦ parse_lines lines
]

abbrev pub refused_request : HttpParseStatus → HttpParseResult
refused_request status = record { status = status; request = none }

-- The switch over the outcome of the head.
unfoldable pub request_result : HeadParse → Text → HttpParseResult
request_result malformed_head extra = refused_request malformed
request_result method_not_known extra = refused_request unsupported_method
request_result version_not_known extra = refused_request unsupported_version
request_result (head_read request) [] = record { status = complete; request = some request }
request_result (head_read request) (c ∷ cs) = refused_request malformed

-- `first_crlf != npos && first_crlf + 2 > kMaxHttpRequestLineLength`
abbrev pub line_too_long : Option ℕ → Bool
line_too_long none = false
line_too_long (some first_crlf) = ltb max_http_request_line_length (first_crlf + 2)

unfoldable pub parse_unfinished : Text → HttpParseResult
parse_unfinished view =
    if line_too_long (find_text crlf view)
    then refused_request too_large
    else if leb max_http_header_block_length (length view)
    then refused_request too_large
    else refused_request incomplete

unfoldable pub parse_terminated : Text → ℕ → HttpParseResult
parse_terminated view terminator =
    let head_block = take (terminator + 4) view in
    if line_too_long (find_text crlf view)
    then refused_request too_large
    else if ltb max_http_header_block_length (terminator + 4)
    then refused_request too_large
    else if contains 0 head_block
    then refused_request malformed
    else request_result (parse_head head_block) (drop (terminator + 4) view)

unfoldable pub parse_http_request : Text → HttpParseResult
parse_http_request view = elim (find_text head_end view) [
  | none ↦ parse_unfinished view
  | some terminator ↦ parse_terminated view terminator
]

pub record HttpConnectionState : Type 0 where
  pub buffer : Text
  pub responded : Bool

unfoldable pub append_http_bytes : HttpConnectionState → Text → HttpConnectionState
append_http_bytes state bytes =
    let room = max_http_header_block_length - length state.buffer in
    if leb max_http_header_block_length (length state.buffer)
    then state
    else record state { buffer = state.buffer ++ take (min room (length bytes)) bytes }
