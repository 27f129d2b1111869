-- ===== src/HttpClient/Response/Exchange.antt =====
-- The client's parser on the server's responses.
use wirestack.Common.{ℕ, ◌+◌, ◌≤◌, ◌<◌, ◌^◌, ◌≡◌, refl, ◌∙◌, arith, Bool, true, false}
use wirestack.Common.{List, [], ◌∷◌, ◌++◌, none, some, length, take, All, ltb, ◌==◌, inl}
use wirestack.Common.{length-append, length-take, take_all, Bool-cases, inr, if◌then◌else◌}
use wirestack.Common.Text.{Text, codes, all, to_string}
use wirestack.Http.Chars.{is_value_byte}
use wirestack.Http.Lines.{IsLine, render_lines, length-head}
use wirestack.Http.Response.{HttpResponse, serialize_http_response}
use wirestack.HttpClient.Response.{
  parse_http_response, FieldsSeen, read_fields, response_body, declared_body, complete, incomplete,
  truncated, reject, max_http_response_body_length,
}
use wirestack.HttpClient.Response.Length.{to_string-reads}
use wirestack.HttpClient.Response.Render.{parse_http_response-render_lines}
use wirestack.HttpClient.Response.Lines.{
  first_line, type_line, length_line, close_line, last_lines, field_lines, serialize-lines, code_of,
  parse_first_line, first_line-IsLine, type_line-IsLine, length_line-IsLine, last_lines-IsLine,
  type_field, length_field, last_fields,
}

-- Everything that a response sends before its body.
pub response_head : HttpResponse → Text
response_head r = render_lines (first_line r.status ∷ field_lines r)

length-last_lines : (allow : Bool) → length (render_lines (last_lines allow)) ≤ 40
unfolding last_lines render_lines
length-last_lines true = omega arith
length-last_lines false = omega arith

pub length-response_head :
    (r : HttpResponse)
    → length r.body < 2 ^ 64
    → length (response_head r) ≤ length r.content_type + 160
unfolding response_head type_line length_line
length-response_head r h =
    let t = type_line r.content_type in
    let n = length_line (length r.body) in
    let last = last_lines r.include_allow_get in
    omega (
      arith,
      length-head (first_line r.status) (t ∷ n ∷ last),
      length-head t (n ∷ last),
      length-head n last,
      (first_line-IsLine r.status).1,
      length-append (codes "Content-Type: ") r.content_type,
      length-append (codes "Content-Length: ") (to_string (length r.body)),
      (to_string-reads (length r.body) h).4,
      length-last_lines r.include_allow_get,
    )

response_seen :
    (t : Text) (n : ℕ) (allow : Bool)
    → all is_value_byte t ≡ true
    → n < 2 ^ 64
    → read_fields
        (record { has_transfer_encoding = false; content_length = none })
        (type_line t ∷ length_line n ∷ (last_lines allow ++ [] ∷ []))
      ≡ some (record { has_transfer_encoding = false; content_length = some (n, false) })
unfolding last_lines
response_seen t n true h k =
    let rest : List Text = close_line ∷ [] ∷ [] in
    let none_yet : FieldsSeen = record { has_transfer_encoding = false; content_length = none } in
    type_field none_yet t (length_line n) (codes "Allow: GET" ∷ rest) h
    ∙ length_field n (codes "Allow: GET") rest k
    ∙ last_fields (record { has_transfer_encoding = false; content_length = some (n, false) }) true
response_seen t n false h k =
    let none_yet : FieldsSeen = record { has_transfer_encoding = false; content_length = none } in
    type_field none_yet t (length_line n) (close_line ∷ [] ∷ []) h
    ∙ length_field n close_line ([] ∷ []) k
    ∙ last_fields (record { has_transfer_encoding = false; content_length = some (n, false) }) false

response_body-so_far :
    (code : ℕ) (body : Text) (k : ℕ) (closed : Bool)
    → length body ≤ max_http_response_body_length
    → k ≤ length body
    → response_body code
        (record { has_transfer_encoding = false; content_length = some (length body, false) })
        (take k body)
        closed
      ≡ (if k == length body
          then record {
            status = complete;
            status_code = some code;
            body = body;
            content_length_present = true;
          }
          else if closed
          then reject truncated
          else reject incomplete)
unfolding response_body declared_body
response_body-so_far code body k closed h l =
    let size : length (take k body) ≡ k = omega (arith, length-take k body) in
    let small : ltb max_http_response_body_length (length body) ≡ false = ground arith in
    let fits : ltb (length body) (length (take k body)) ≡ false = ground arith in
    elim (Bool-cases (k == length body)) [
      | inl whole ↦
          let same : take k body ≡ body = take_all k body (ground arith) in
          let enough : ltb (length body) (length body) ≡ false = ground arith in
          rw (whole, same) (rw (small, enough) refl)
      | inr part ↦
          let less : ltb (length (take k body)) (length body) ≡ true = ground arith in
          rw part (rw (small, fits, less) refl)
    ]

-- What the server sends for a response is its head and its body. While the client has received the
-- head and the first k bytes of the body, it waits, or reports truncation once the peer has closed;
-- with the whole body it is complete, with the status code, that body and a declared length. The
-- content type is of at most 8000 bytes of a header value, the body within the client's bound.
pub parse_http_response-serialize_http_response :
    (r : HttpResponse) (k : ℕ) (closed : Bool)
    → all is_value_byte r.content_type ≡ true
    → length r.content_type ≤ 8000
    → length r.body ≤ max_http_response_body_length
    → k ≤ length r.body
    → (serialize_http_response r ≡ response_head r ++ r.body)
      × (parse_http_response (response_head r ++ take k r.body) closed ≡ (
          if k == length r.body
          then record {
            status = complete;
            status_code = some (code_of r.status);
            body = r.body;
            content_length_present = true;
          }
          else if closed
          then reject truncated
          else reject incomplete))
unfolding response_head
parse_http_response-serialize_http_response r k closed h l m n =
    let small : length r.body < 2 ^ 64 = omega arith in
    let first = first_line-IsLine r.status in
    let head_size = length-response_head r small in
    let all_lines : All IsLine (first_line r.status ∷ field_lines r) = (
      first.0,
      (
        type_line-IsLine r.content_type h,
        (length_line-IsLine (length r.body) small, last_lines-IsLine r.include_allow_get),
      ),
    ) in
    (
      serialize-lines r,
      parse_http_response-render_lines (first_line r.status) (field_lines r) (take k r.body) closed
            (code_of r.status)
            (record { has_transfer_encoding = false; content_length = some (length r.body, false) })
            all_lines (omega (arith, first.1)) (omega arith) (parse_first_line r.status)
            (response_seen r.content_type (length r.body) r.include_allow_get h small)
          ∙ response_body-so_far (code_of r.status) r.body k closed m n,
    )
