-- ===== src/Http/Response.antt =====
-- The responses of the server and their serializer.
use wirestack.Common.{ℕ, ◌++◌, Bool, true, false, if◌then◌else◌, length, [], ◌∷◌, zero, suc}
use wirestack.Common.Text.{Text, codes, same_text, to_string}
use wirestack.Http.Chars.{crlf}
use wirestack.Http.Request.{HttpRequest}

pub data HttpStatus : Type 0 where
  ok200 bad_request400 not_found404 method_not_allowed405 version_not_supported505 : HttpStatus

pub record HttpResponse : Type 0 where
  pub status : HttpStatus
  pub content_type : Text
  pub body : Text
  pub include_allow_get : Bool

abbrev pub plain_text_content_type : Text
plain_text_content_type = codes "text/plain; charset=utf-8"

abbrev plain : HttpStatus → Text → Bool → HttpResponse
plain status body allow = record {
  status = status;
  content_type = plain_text_content_type;
  body = body;
  include_allow_get = allow;
}

unfoldable pub make_ok_response : HttpResponse
make_ok_response = plain ok200 (codes "Hello from Wirestack\n") false

unfoldable pub make_bad_request_response : HttpResponse
make_bad_request_response = plain bad_request400 (codes "Bad Request\n") false

unfoldable pub make_not_found_response : HttpResponse
make_not_found_response = plain not_found404 (codes "Not Found\n") false

unfoldable pub make_method_not_allowed_response : HttpResponse
make_method_not_allowed_response = plain method_not_allowed405 (codes "Method Not Allowed\n") true

unfoldable pub make_version_not_supported_response : HttpResponse
make_version_not_supported_response =
    plain version_not_supported505 (codes "HTTP Version Not Supported\n") false

abbrev pub sack_test_body_size : ℕ
sack_test_body_size = 12000

-- `std::vector<std::byte>(size, value)`
unfoldable pub repeat : ℕ → ℕ → Text
repeat zero value = []
repeat (suc size) value = value ∷ repeat size value

unfoldable pub select_response : HttpRequest → HttpResponse
select_response request =
    if same_text request.target (codes "/")
    then make_ok_response
    else if same_text request.target (codes "/sack-test")
    then plain ok200 (repeat sack_test_body_size b's') false
    else make_not_found_response

unfoldable pub status_line : HttpStatus → Text
status_line ok200 = codes "200 OK"
status_line bad_request400 = codes "400 Bad Request"
status_line not_found404 = codes "404 Not Found"
status_line method_not_allowed405 = codes "405 Method Not Allowed"
status_line version_not_supported505 = codes "505 HTTP Version Not Supported"

unfoldable pub serialize_http_response : HttpResponse → Text
serialize_http_response response =
    codes "HTTP/1.0 "
    ++ status_line response.status
    ++ crlf
    ++ codes "Content-Type: "
    ++ response.content_type
    ++ crlf
    ++ codes "Content-Length: "
    ++ to_string (length response.body)
    ++ crlf
    ++ (if response.include_allow_get then codes "Allow: GET\r\n" else [])
    ++ codes "Connection: close\r\n"
    ++ crlf
    ++ response.body
