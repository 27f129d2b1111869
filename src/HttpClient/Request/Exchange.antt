-- ===== src/HttpClient/Request/Exchange.antt =====
-- The server's parser on the client's request.
use wirestack.Common.{ℕ, ◌+◌, ◌≤◌, ◌≡◌, refl, ap, ◌∙◌, arith, true, false}
use wirestack.Common.{List, [], ◌∷◌, ◌++◌, none, some, length, All, ◌==◌}
use wirestack.Common.{append_assoc, length-append}
use wirestack.Common.Text.{
  Text, codes, all, contains, is_prefix, split, cut, same_text, tolower, is_digit,
}
use wirestack.Common.Text.Laws.{all-append, all-weaken, all-lacks, split-append, split_whole}
use wirestack.Http.Chars.{
  is_control_byte, is_valid_version_syntax, skip_ows, split_field, checked_name, is_value_byte,
  is_token_char,
}
use wirestack.Http.Lines.{is_line_char, IsLine, render_lines}
use wirestack.Http.Request.{
  parse_http_request, parse_lines, parse_tokens, check_request, check_fields, header_field,
  known_field, split_exact, any_empty, is_valid_method_token, is_target_char, is_valid_target,
  head_read, request_result, complete, max_http_request_line_length, max_http_header_block_length,
}
use wirestack.Http.Request.Render.{parse_http_request-render_lines}
use wirestack.HttpClient.Request.{
  build_http_get_request, get_request_text, validate_http_client_target, validate_http_client_host,
}

-- The three lines of the request.
request_line : Text → Text
request_line target = codes "GET " ++ (target ++ codes " HTTP/1.0")

host_line : Text → Text
host_line host = codes "Host: " ++ host

abbrev close_line : Text
close_line = codes "Connection: close"

get_request-lines :
    (host target : Text)
    → get_request_text host target
      ≡ render_lines (request_line target ∷ host_line host ∷ close_line ∷ [])
unfolding request_line host_line render_lines
get_request-lines host target = simp append_assoc

-- What the two checks accept.
target_valid :
    (target : Text) → validate_http_client_target target ≡ none → is_valid_target target ≡ true
unfolding validate_http_client_target is_valid_target
target_valid [] h = ground arith
target_valid (c ∷ cs) h = ground arith

host_valid :
    (host : Text)
    → validate_http_client_host host ≡ none
    → (all is_target_char host ≡ true) × (1 ≤ length host)
unfolding validate_http_client_host
host_valid [] h = ground arith
host_valid (c ∷ cs) h = ground arith

valid-chars :
    (target : Text)
    → is_valid_target target ≡ true
    → (all is_target_char target ≡ true) × (1 ≤ length target)
unfolding is_valid_target
valid-chars [] h = ground arith
valid-chars (c ∷ cs) h = ground arith

target_char-line : (c : ℕ) → is_target_char c ≡ true → is_line_char c ≡ true
unfolding is_target_char is_control_byte is_line_char
target_char-line c h = ground arith

target_char-value : (c : ℕ) → is_target_char c ≡ true → is_value_byte c ≡ true
unfolding is_target_char is_control_byte
target_char-value c h = ground arith

request_line-IsLine :
    (target : Text) → all is_target_char target ≡ true → IsLine (request_line target)
unfolding IsLine request_line is_line_char all
request_line-IsLine target h =
    let chars : all is_line_char (target ++ codes " HTTP/1.0") ≡ true =
      rw
        (
          all-append is_line_char target (codes " HTTP/1.0"),
          all-weaken is_target_char is_line_char target target_char-line h,
        )
        refl in
    (chars, omega arith)

host_line-IsLine : (host : Text) → all is_target_char host ≡ true → IsLine (host_line host)
unfolding IsLine host_line is_line_char all
host_line-IsLine host h =
    (all-weaken is_target_char is_line_char host target_char-line h, omega arith)

-- The request line splits into its three tokens.
request_tokens :
    (target : Text)
    → is_valid_target target ≡ true
    → split_exact (request_line target) b' ' 3 ≡ codes "GET" ∷ target ∷ codes "HTTP/1.0" ∷ []
unfolding split_exact request_line any_empty is_target_char contains is_control_byte
request_tokens target h =
    let (chars, some_char) = valid-chars target h in
    let no_space = all-lacks b' ' is_target_char target refl chars in
    let parts : split b' ' (request_line target) ≡ codes "GET" ∷ target ∷ codes "HTTP/1.0" ∷ [] =
      split-append b' ' (codes "GET") (target ++ codes " HTTP/1.0") refl
      ∙ ap (λ ps. codes "GET" ∷ ps)
          (split-append b' ' target (codes "HTTP/1.0") no_space
            ∙ ap (λ ps. target ∷ ps) (split_whole b' ' (codes "HTTP/1.0") refl)) in
    let full : (length target == 0) ≡ false = ground arith in rw (parts, full) refl

skip_ows-host : (host : Text) → all is_target_char host ≡ true → skip_ows host ≡ host
unfolding skip_ows all is_target_char is_control_byte
skip_ows-host [] h = refl
skip_ows-host (c ∷ cs) h = ground arith

-- The Host field is a field that the server does not look at.
host_field :
    (host : Text)
    → all is_target_char host ≡ true
    → header_field false (host_line host) ≡ some false
unfolding header_field split_field checked_name host_line cut is_token_char all tolower same_text
    known_field is_digit contains skip_ows is_control_byte
host_field host h =
    let values = all-weaken is_target_char is_value_byte host target_char-value h in
    rw (skip_ows-host host h, values) refl

pub build_checks :
    (host target bytes : Text)
    → build_http_get_request host target ≡ some bytes
    → (validate_http_client_target target ≡ none)
      × (validate_http_client_host host ≡ none)
      × (bytes ≡ get_request_text host target)
unfolding build_http_get_request
build_checks host target bytes h = ground arith

close_field : header_field false close_line ≡ some false
unfolding header_field split_field checked_name cut is_token_char all tolower same_text known_field
    is_digit contains skip_ows is_control_byte
close_field = refl

fields_accepted :
    (host : Text)
    → all is_target_char host ≡ true
    → check_fields false (host_line host ∷ close_line ∷ [] ∷ []) ≡ true
unfolding check_fields
fields_accepted host h = rw (check_fields, host_field host h) (rw (check_fields, close_field) refl)

parsed_request :
    (host target : Text)
    → is_valid_target target ≡ true
    → all is_target_char host ≡ true
    → parse_lines ((request_line target ∷ host_line host ∷ close_line ∷ []) ++ [] ∷ [])
      ≡ head_read record { method = codes "GET"; target = target; version = codes "HTTP/1.0" }
unfolding parse_lines parse_tokens check_request request_line is_valid_method_token
    is_valid_version_syntax is_token_char all same_text is_digit contains is_prefix
parsed_request host target h k = rw (request_tokens target h) (rw (h, fields_accepted host k) refl)

close_line-IsLine : IsLine close_line
unfolding IsLine all is_line_char
close_line-IsLine = (refl, omega arith)

length-request_line : (target : Text) → length (request_line target) ≡ 13 + length target
unfolding request_line
length-request_line target = omega (arith, length-append target (codes " HTTP/1.0"))

-- The request that the client builds for a target and a host is read by the server as a complete
-- GET request for that target, whatever bytes both hold that the client accepts, those above 0x7f
-- included, as long as the request line and the head are within the server's bounds.
pub parse_http_request-build_http_get_request :
    (host target bytes : Text)
    → build_http_get_request host target ≡ some bytes
    → length target + 15 ≤ max_http_request_line_length
    → length bytes ≤ max_http_header_block_length
    → parse_http_request bytes ≡ record {
      status = complete;
      request = some record { method = codes "GET"; target = target; version = codes "HTTP/1.0" };
    }
unfolding request_result
parse_http_request-build_http_get_request host target bytes built short bounded =
    let (target_ok, host_ok, text) = build_checks host target bytes built in
    let valid = target_valid target target_ok in
    let target_chars = (valid-chars target valid).0 in
    let host_chars = (host_valid host host_ok).0 in
    let lines : List Text = host_line host ∷ close_line ∷ [] in
    let as_lines = text ∙ get_request-lines host target in
    let line_size : length (request_line target) ≡ 13 + length target =
      length-request_line target in
    let all_lines : All IsLine (request_line target ∷ lines) = (
      request_line-IsLine target target_chars,
      (host_line-IsLine host host_chars, (close_line-IsLine, tt)),
    ) in
    ap parse_http_request as_lines
    ∙ parse_http_request-render_lines (request_line target) lines all_lines (omega arith)
        (omega (arith, ap length as_lines))
    ∙ ap (λ parsed. request_result parsed []) (parsed_request host target valid host_chars)
