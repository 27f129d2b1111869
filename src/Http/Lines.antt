-- ===== src/Http/Lines.antt =====
-- A block of lines as it is sent, and what the functions of both parsers find in it.
use wirestack.Common.{
  ℕ, ◌+◌, ◌-◌, ◌≤◌, ◌≡◌, refl, ap, sym, ◌∙◌, arith, Bool, true, false, not, ◌&&◌, ◌||◌,
}
use wirestack.Common.{
  List, [], ◌∷◌, ◌++◌, append-nil, append_assoc, Option, none, some, length, All,
}
use wirestack.Common.{◌==◌, length-append}
use wirestack.Common.Text.{Text, codes, all, contains, is_prefix, find_text, next_position}
use wirestack.Common.Text.Laws.{all-lacks, contains-append, shift, find_text-append}
use wirestack.Http.Chars.{crlf, head_end, head_lines, prepend_line}

-- A line on its own: no CR, no LF and no NUL.
unfoldable pub is_line_char : ℕ → Bool
is_line_char c = not (c == b'\r' || c == b'\n' || c == 0)

unfoldable pub IsLine : Text → Type 0
IsLine line = (all is_line_char line ≡ true) × (1 ≤ length line)

-- The lines with their ends, and the blank line.
unfoldable pub render_lines : List Text → Text
render_lines [] = crlf
render_lines (line ∷ lines) = line ++ (b'\r' ∷ b'\n' ∷ render_lines lines)

head_lines-within :
    (line : Text) (xs block : Text)
    → all is_line_char xs ≡ true
    → head_lines line (xs ++ (b'\r' ∷ b'\n' ∷ block))
      ≡ head_lines (line ++ xs) (b'\r' ∷ b'\n' ∷ block)
unfolding head_lines all is_line_char
head_lines-within line [] block h =
    ap (λ l. head_lines l (b'\r' ∷ b'\n' ∷ block)) (sym (append-nil line))
head_lines-within line (c ∷ []) block h =
    let other : (c == b'\r' && b'\r' == b'\n') ≡ false = ground arith in rw (head_lines, other) refl
head_lines-within line (c ∷ d ∷ xs) block h =
    let other : (c == b'\r' && d == b'\n') ≡ false = ground arith in
    rw (head_lines, other)
      (head_lines-within (line ++ c ∷ []) (d ∷ xs) block (ground arith)
        ∙ ap (λ l. head_lines l (b'\r' ∷ b'\n' ∷ block)) (append_assoc line (c ∷ []) (d ∷ xs)))

-- Lines without CR and LF are read back.
pub head_lines-render_lines :
    (lines : List Text)
    → All IsLine lines
    → head_lines [] (render_lines lines) ≡ some (lines ++ [] ∷ [])
unfolding head_lines render_lines IsLine is_line_char contains
head_lines-render_lines [] h = refl
head_lines-render_lines ([] ∷ lines) h = absurd (omega (arith, h.0.1))
head_lines-render_lines ((c ∷ cs) ∷ lines) h =
    let no_cr = all-lacks b'\r' is_line_char (c ∷ cs) refl h.0.0 in
    let no_lf = all-lacks b'\n' is_line_char (c ∷ cs) refl h.0.0 in
    head_lines-within [] (c ∷ cs) (render_lines lines) h.0.0
    ∙ rw (head_lines, no_cr, no_lf) (ap (prepend_line (c ∷ cs)) (head_lines-render_lines lines h.1))

pub no_nul : (lines : List Text) → All IsLine lines → contains 0 (render_lines lines) ≡ false
unfolding render_lines contains IsLine is_line_char
no_nul [] h = refl
no_nul (line ∷ lines) h =
    rw
      (
        contains-append 0 line (b'\r' ∷ b'\n' ∷ render_lines lines),
        all-lacks 0 is_line_char line refl h.0.0,
        no_nul lines h.1,
      )
      refl

-- The first CRLF is the end of the first line.
pub find_text-crlf :
    (line rest : Text)
    → all is_line_char line ≡ true
    → find_text crlf (line ++ (b'\r' ∷ b'\n' ∷ rest)) ≡ some (length line)
unfolding find_text is_prefix is_line_char
find_text-crlf line rest h =
    find_text-append b'\r' (b'\n' ∷ []) line (b'\r' ∷ b'\n' ∷ rest)
      (all-lacks b'\r' is_line_char line refl h)
    ∙ ap some (omega arith)

two_more : (o : Option ℕ) → next_position (next_position o) ≡ shift 2 o
two_more none = refl
two_more (some k) = ap some (omega arith)

-- A CRLF before another line is no end of the head.
after_crlf :
    (c : ℕ) (rest : Text)
    → is_line_char c ≡ true
    → find_text head_end (b'\r' ∷ b'\n' ∷ c ∷ rest) ≡ shift 2 (find_text head_end (c ∷ rest))
unfolding find_text is_prefix is_line_char
after_crlf c rest h =
    let other : (c == b'\r') ≡ false = ground arith in
    rw other (two_more (next_position (find_text head_end rest)))

lacks_cr : (line : Text) → all is_line_char line ≡ true → contains b'\r' line ≡ false
unfolding is_line_char
lacks_cr line h = all-lacks b'\r' is_line_char line refl h

first_char : (c : ℕ) (cs : Text) → all is_line_char (c ∷ cs) ≡ true → is_line_char c ≡ true
unfolding all
first_char c cs h = ground arith

pub length-render_lines : (lines : List Text) → 2 ≤ length (render_lines lines)
unfolding render_lines
length-render_lines [] = omega arith
length-render_lines (line ∷ lines) =
    omega
      (arith, length-append line (b'\r' ∷ b'\n' ∷ render_lines lines), length-render_lines lines)

pub length-head :
    (line : Text) (lines : List Text)
    → length (render_lines (line ∷ lines)) ≡ length line + 2 + length (render_lines lines)
unfolding render_lines
length-head line lines = omega (arith, length-append line (b'\r' ∷ b'\n' ∷ render_lines lines))

-- Behind the end of a line, the head ends with the last of the lines that follow.
find_text-head_end :
    (lines : List Text) (extra : Text)
    → All IsLine lines
    → find_text head_end (b'\r' ∷ b'\n' ∷ (render_lines lines ++ extra))
      ≡ some (length (render_lines lines) - 2)
unfolding render_lines IsLine
find_text-head_end [] extra h = unfold find_text is_prefix in refl
find_text-head_end ([] ∷ lines) extra h = absurd (omega (arith, h.0.1))
find_text-head_end ((c ∷ cs) ∷ lines) extra h =
    let rest = render_lines lines in
    let tail : Text = b'\r' ∷ b'\n' ∷ rest in
    let lacks = lacks_cr (c ∷ cs) h.0.0 in
    let size = length-append cs (b'\r' ∷ b'\n' ∷ rest) in
    ap (λ t. find_text head_end (b'\r' ∷ b'\n' ∷ c ∷ t)) (append_assoc cs tail extra)
    ∙ after_crlf c (cs ++ (b'\r' ∷ b'\n' ∷ (rest ++ extra))) (first_char c cs h.0.0)
    ∙ ap (shift 2) (
        find_text-append b'\r' (codes "\n\r\n") (c ∷ cs) (b'\r' ∷ b'\n' ∷ (rest ++ extra)) lacks
        ∙ ap (shift (length (c ∷ cs))) (find_text-head_end lines extra h.1))
    ∙ ap some (omega (arith, size, length-render_lines lines))

-- The head of a message ends with its lines, whatever follows.
pub find_text-render_lines :
    (line : Text) (lines : List Text) (extra : Text)
    → All IsLine (line ∷ lines)
    → find_text head_end (render_lines (line ∷ lines) ++ extra)
      ≡ some (length (render_lines (line ∷ lines)) - 4)
unfolding render_lines IsLine
find_text-render_lines line lines extra h =
    let rest = render_lines lines in
    let tail : Text = b'\r' ∷ b'\n' ∷ rest in
    let lacks = lacks_cr line h.0.0 in
    ap (find_text head_end) (append_assoc line tail extra)
    ∙ find_text-append b'\r' (codes "\n\r\n") line (b'\r' ∷ b'\n' ∷ (rest ++ extra)) lacks
    ∙ ap (shift (length line)) (find_text-head_end lines extra h.1)
    ∙ ap some (omega (arith, length-append line tail, length-render_lines lines))
