-- ===== src/HttpClient/Response/Render.antt =====
-- The parser on a whole head of lines, with any part of a body behind it.
use wirestack.Common.{ℕ, ◌+◌, ◌-◌, ◌≤◌, ◌≡◌, refl, ap, ◌∙◌, arith, Bool, false}
use wirestack.Common.{List, [], ◌∷◌, ◌++◌, some, length, take, drop, All, ltb}
use wirestack.Common.{take-append_left, drop-append_left, append_assoc}
use wirestack.Common.Text.{Text, find_text}
use wirestack.Http.Chars.{crlf}
use wirestack.Http.Lines.{
  IsLine, render_lines, head_lines-render_lines, no_nul, find_text-crlf, find_text-render_lines,
  length-render_lines, length-head,
}
use wirestack.HttpClient.Response.{
  parse_http_response, parse_headers, parse_ended_head, parse_status_line, line_ok, response_fields,
  fields_behind, FieldsSeen, response_body, max_http_response_status_line_length,
  max_http_response_header_block_length,
}

pub parse_http_response-render_lines :
    (line : Text) (lines : List Text) (extra : Text) (closed : Bool) (code : ℕ) (seen : FieldsSeen)
    → All IsLine (line ∷ lines)
    → length line + 2 ≤ max_http_response_status_line_length
    → length (render_lines (line ∷ lines)) ≤ max_http_response_header_block_length
    → parse_status_line line ≡ line_ok code
    → fields_behind ((line ∷ lines) ++ [] ∷ []) ≡ some seen
    → parse_http_response (render_lines (line ∷ lines) ++ extra) closed
      ≡ response_body code seen extra closed
unfolding parse_http_response parse_headers parse_ended_head response_fields IsLine
parse_http_response-render_lines line lines extra closed code seen h short bounded status fields =
    let head = render_lines (line ∷ lines) in
    let view : Text = head ++ extra in
    let rest : Text = b'\r' ∷ b'\n' ∷ render_lines lines in
    let size : 4 ≤ length head = omega (arith, length-render_lines lines, length-head line lines) in
    let split : view ≡ line ++ (b'\r' ∷ b'\n' ∷ (render_lines lines ++ extra)) =
      unfold render_lines in append_assoc line rest extra in
    let first : find_text crlf view ≡ some (length line) =
      ap (find_text crlf) split ∙ find_text-crlf line (render_lines lines ++ extra) h.0.0 in
    let status_part : take (length line) view ≡ line =
      ap (take (length line)) split
      ∙ take-append_left (length line) line (b'\r' ∷ b'\n' ∷ (render_lines lines ++ extra)) refl in
    let found = find_text-render_lines line lines extra h in
    let block : take (length head - 4 + 4) view ≡ head =
      take-append_left (length head - 4 + 4) head extra (omega arith) in
    let behind : drop (length head - 4 + 4) view ≡ extra =
      drop-append_left (length head - 4 + 4) head extra (omega arith) in
    let i1 : ltb max_http_response_status_line_length (length line + 2) ≡ false = ground arith in
    let i2 : ltb max_http_response_header_block_length (length head - 4 + 4) ≡ false =
      ground arith in
    rw (parse_http_response, first, i1, status_part, status)
      (rw (parse_headers, found)
        (rw (parse_ended_head, i2, block)
          (rw (no_nul (line ∷ lines) h, response_fields, head_lines-render_lines (line ∷ lines) h)
            (rw fields (ap (λ e. response_body code seen e closed) behind)))))
