-- ===== src/Http/Request/Render.antt =====
-- The parser on a whole head of lines.
use wirestack.Common.{◌+◌, ◌-◌, ◌≤◌, ◌≡◌, refl, ap, sym, ◌∙◌, arith, false, append-nil}
use wirestack.Common.{List, [], ◌∷◌, ◌++◌, some, length, take, drop, All, ltb}
use wirestack.Common.{take_all, drop-append_left}
use wirestack.Common.Text.{Text, find_text}
use wirestack.Http.Chars.{crlf, head_end}
use wirestack.Http.Lines.{
  IsLine, render_lines, head_lines-render_lines, no_nul, find_text-crlf, find_text-render_lines,
  length-render_lines, length-head,
}
use wirestack.Http.Request.{
  parse_http_request, parse_terminated, parse_head, parse_lines, request_result,
  max_http_request_line_length, max_http_header_block_length,
}

pub parse_http_request-render_lines :
    (line : Text) (lines : List Text)
    → All IsLine (line ∷ lines)
    → length line + 2 ≤ max_http_request_line_length
    → length (render_lines (line ∷ lines)) ≤ max_http_header_block_length
    → parse_http_request (render_lines (line ∷ lines))
      ≡ request_result (parse_lines ((line ∷ lines) ++ [] ∷ [])) []
unfolding parse_http_request parse_terminated parse_head IsLine
parse_http_request-render_lines line lines h short bounded =
    let view = render_lines (line ∷ lines) in
    let size = length-render_lines lines in
    let whole : 4 ≤ length view = omega (arith, size, length-head line lines) in
    let found : find_text head_end view ≡ some (length view - 4) =
      ap (find_text head_end) (sym (append-nil view)) ∙ find_text-render_lines line lines [] h in
    let first : find_text crlf view ≡ some (length line) =
      unfold render_lines in find_text-crlf line (render_lines lines) h.0.0 in
    let all_of_it : length view - 4 + 4 ≡ length view = omega arith in
    let block : take (length view - 4 + 4) view ≡ view =
      take_all (length view - 4 + 4) view (omega arith) in
    let behind : drop (length view - 4 + 4) view ≡ [] =
      ap (drop (length view - 4 + 4)) (sym (append-nil view))
      ∙ drop-append_left (length view - 4 + 4) view [] (omega arith) in
    let i1 : ltb max_http_request_line_length (length line + 2) ≡ false = ground arith in
    let i2 : ltb max_http_header_block_length (length view - 4 + 4) ≡ false = ground arith in
    rw (parse_http_request, found)
      (rw (parse_terminated, first, i1, i2, block)
        (rw (behind, no_nul (line ∷ lines) h)
          (rw (parse_head, head_lines-render_lines (line ∷ lines) h) refl)))
