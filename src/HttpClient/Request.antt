-- ===== src/HttpClient/Request.antt =====
-- The checks of a request's target and host, and `buildHttpGetRequest`.
pub mod Exchange
use wirestack.Common.{ℕ, List, [], ◌∷◌, ◌++◌, Option, none, some, Bool, true, false, not, ◌||◌}
use wirestack.Common.{if◌then◌else◌, ◌==◌}
use wirestack.Common.Text.{Text, codes, all}
use wirestack.Http.Chars.{is_control_byte}
use wirestack.Http.Request.{is_target_char}

pub data HttpClientTargetError : Type 0 where
  empty_target missing_leading_slash invalid_target_byte : HttpClientTargetError

unfoldable pub validate_http_client_target : Text → Option HttpClientTargetError
validate_http_client_target [] = some empty_target
validate_http_client_target (c ∷ cs) =
    if not (c == b'/')
    then some missing_leading_slash
    else if not (all is_target_char (c ∷ cs))
    then some invalid_target_byte
    else none

pub data HttpClientHostError : Type 0 where
  empty_host invalid_host_byte : HttpClientHostError

unfoldable pub validate_http_client_host : Text → Option HttpClientHostError
validate_http_client_host [] = some empty_host
validate_http_client_host (c ∷ cs) =
    if not (all is_target_char (c ∷ cs)) then some invalid_host_byte else none

abbrev pub get_request_text : Text → Text → Text
get_request_text host_header target =
    codes "GET "
    ++ target
    ++ codes " HTTP/1.0\r\n"
    ++ codes "Host: "
    ++ host_header
    ++ codes "\r\n"
    ++ codes "Connection: close\r\n"
    ++ codes "\r\n"

unfoldable pub build_http_get_request : Text → Text → Option Text
build_http_get_request host_header target = elim (validate_http_client_target target) [
  | some e ↦ none
  | none ↦ elim (validate_http_client_host host_header) [
    | some e ↦ none
    | none ↦ some (get_request_text host_header target)
  ]
]
