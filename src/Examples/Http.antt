-- ===== src/Examples/Http.antt =====
-- Both sides of HTTP at concrete messages.
use wirestack.Common.{◌-◌, ◌≤◌, ◌≡◌, refl, arith, [], ◌∷◌, ◌++◌, some, true}
use wirestack.Common.{false, length, ltb, if◌then◌else◌}
use wirestack.Common.Text.{
  Text, codes, is_digit, contains, all, is_prefix, find_text, cut, split, tolower, same_text,
  to_string, decimal_upto,
}
use wirestack.Http.Chars.{
  head_end, is_token_char, is_control_byte, is_valid_version_syntax, head_lines, skip_ows,
  split_field, checked_name,
}
use wirestack.Http.Request.{
  HttpRequest, parse_http_request, refused_request, malformed, unsupported_method, incomplete,
  parse_terminated, request_result, parse_head, parse_lines, parse_tokens, check_request,
  split_exact, any_empty, is_valid_method_token, is_valid_target, is_target_char, check_fields,
  header_field, known_field, max_http_header_block_length,
}
use wirestack.Http.Request.Sound.{completed, parse_http_request-prefix, parse_http_request_sound}
use wirestack.Http.Response.{
  make_not_found_response, make_method_not_allowed_response, serialize_http_response, status_line,
}
use wirestack.Http.Received.{joined}
use wirestack.HttpClient.Request.{
  build_http_get_request, validate_http_client_target, validate_http_client_host,
}
use wirestack.HttpClient.Request.Exchange.{parse_http_request-build_http_get_request}
use wirestack.HttpClient.Response.{parse_http_response, reject}
use wirestack.HttpClient.Response.{incomplete as still_incomplete}
use wirestack.HttpClient.Response.Exchange.{
  response_head, parse_http_response-serialize_http_response,
}
use wirestack.HttpClient.Session.{HttpClientSession, response_cap}
use wirestack.HttpClient.Session.Received.{append_client_all, append_client_all-stream}

abbrev request_bytes : Text
request_bytes = codes "GET /x HTTP/1.0\r\nHost: a:80\r\nConnection: close\r\n\r\n"

abbrev pub request : HttpRequest
request = record { method = codes "GET"; target = codes "/x"; version = codes "HTTP/1.0" }

request_built : build_http_get_request (codes "a:80") (codes "/x") ≡ some request_bytes
unfolding build_http_get_request validate_http_client_target validate_http_client_host all
    is_target_char is_control_byte
request_built = refl

pub request_read : parse_http_request request_bytes ≡ completed request
request_read =
    parse_http_request-build_http_get_request (codes "a:80") (codes "/x") request_bytes
      request_built (omega arith) (omega arith)

parse_http_request-build_http_get_request_example :
    parse_http_request request_bytes ≡ completed request
parse_http_request-build_http_get_request_example =
    parse_http_request-build_http_get_request (codes "a:80") (codes "/x") request_bytes
      request_built (omega arith) (omega arith)

parse_http_request-prefix_example :
    parse_http_request (codes "GET /x HTTP/1.0\r\nHost: a:80\r\nConnection: close\r\n")
    ≡ refused_request incomplete
parse_http_request-prefix_example =
    parse_http_request-prefix (codes "GET /x HTTP/1.0\r\nHost: a:80\r\nConnection: close\r\n")
      (codes "\r\n") request request_read (cc)

parse_http_request_sound_example :
    (is_valid_target (codes "/x") ≡ true)
    × (codes "GET" ≡ codes "GET")
    × (codes "HTTP/1.0" ≡ codes "HTTP/1.0")
    × (length request_bytes ≤ max_http_header_block_length)
    × (find_text head_end request_bytes ≡ some (length request_bytes - 4))
parse_http_request_sound_example = parse_http_request_sound request_bytes request request_read

-- A second length, a method other than GET, and bytes behind the head.
refused :
    (parse_http_request (codes "GET / HTTP/1.0\r\nContent-Length: 0\r\ncontent-length: 0\r\n\r\n")
      ≡ refused_request malformed)
    × (parse_http_request (codes "POST / HTTP/1.0\r\n\r\n") ≡ refused_request unsupported_method)
    × (parse_http_request (codes "GET / HTTP/1.0\r\n\r\nGET") ≡ refused_request malformed)
unfolding parse_http_request parse_terminated request_result parse_head parse_lines parse_tokens
    check_request split_exact any_empty is_valid_method_token is_valid_target is_target_char
    check_fields header_field known_field is_token_char is_control_byte is_valid_version_syntax
    head_lines skip_ows split_field checked_name is_digit contains all is_prefix find_text cut split
    tolower same_text
refused = (refl, refl, refl)

not_allowed_bytes :
    serialize_http_response make_method_not_allowed_response
    ≡ codes
        "HTTP/1.0 405 Method Not Allowed\r\nContent-Type: text/plain; charset=utf-8\r\nContent-Length: 19\r\nAllow: GET\r\nConnection: close\r\n\r\nMethod Not Allowed\n"
unfolding serialize_http_response make_method_not_allowed_response status_line to_string
    decimal_upto
not_allowed_bytes = refl

parse_http_response-serialize_http_response_example :
    (serialize_http_response make_not_found_response
      ≡ response_head make_not_found_response ++ codes "Not Found\n")
    × (parse_http_response (response_head make_not_found_response ++ codes "Not") false
        ≡ reject still_incomplete)
unfolding make_not_found_response all is_control_byte
parse_http_response-serialize_http_response_example =
    parse_http_response-serialize_http_response make_not_found_response 3 false refl (omega arith)
      (omega arith) (omega arith)

abbrev pub fresh_session : HttpClientSession
fresh_session = record {
  remote_ip = record { a0 = 10; a1 = 0; a2 = 0; a3 = 1 };
  remote_port = 80;
  host_header = codes "a:80";
  target = codes "/x";
  request_enqueued = true;
  response_buffer = [];
  peer_fin_seen = false;
  response_overflowed = false;
  response_complete = false;
  failed = false;
  close_initiated = false;
  status_code = 0;
  body = [];
}

append_client_all-stream_example :
    let after = append_client_all fresh_session ((1 ∷ 2 ∷ []) ∷ (3 ∷ []) ∷ []) in
    (after.response_overflowed ≡ ltb response_cap 3)
    × ((if after.response_overflowed then [] else after.response_buffer)
        ≡ (if ltb response_cap 3 then [] else 1 ∷ 2 ∷ 3 ∷ []))
    × (length after.response_buffer ≤ response_cap)
unfolding joined
append_client_all-stream_example =
    append_client_all-stream fresh_session ((1 ∷ 2 ∷ []) ∷ (3 ∷ []) ∷ []) refl refl
