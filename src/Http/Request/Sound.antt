-- ===== src/Http/Request/Sound.antt =====
-- What is known of a complete request, and of every part of it that was there before.
use wirestack.Common.{ℕ, ◌+◌, ◌-◌, ◌≤◌, ◌≡◌, ◌≢◌, refl, ap, sym, ◌∙◌, arith, true, false}
use wirestack.Common.{List, [], ◌∷◌, ◌++◌, some, length, take, drop, leb, inl, inr}
use wirestack.Common.{length-append, length-drop, Option-cases}
use wirestack.Common.Text.{Text, codes, find_text}
use wirestack.Common.Text.Laws.{find_text-within, find_text-extends, same_text_eq}
use wirestack.Http.Chars.{crlf, head_end, head_lines}
use wirestack.Http.Request.{
  HttpRequest, HttpParseResult, HeadParse, malformed_head, method_not_known, version_not_known,
  head_read, complete, incomplete, refused_request, parse_http_request, parse_terminated,
  parse_unfinished, parse_head, parse_lines, parse_tokens, check_request, request_result,
  is_valid_target, line_too_long, max_http_header_block_length, split_exact,
}

abbrev pub completed : HttpRequest → HttpParseResult
completed request = record { status = complete; request = some request }

-- The view ends where its head does, and the head is within the bounds.
Ends : Text → HttpRequest → ℕ → Type 0
Ends view request terminator =
    (find_text head_end view ≡ some terminator)
    × (line_too_long (find_text crlf view) ≡ false)
    × (terminator + 4 ≤ max_http_header_block_length)
    × (parse_head (take (terminator + 4) view) ≡ head_read request)
    × (length view ≤ terminator + 4)

result_complete :
    (parsed : HeadParse) (extra : Text) (request : HttpRequest)
    → request_result parsed extra ≡ completed request
    → (parsed ≡ head_read request) × (extra ≡ [])
unfolding request_result
result_complete malformed_head extra request h = ground arith
result_complete method_not_known extra request h = ground arith
result_complete version_not_known extra request h = ground arith
result_complete (head_read r) [] request h = ground arith
result_complete (head_read r) (c ∷ cs) request h = ground arith

terminated_complete :
    (view : Text) (request : HttpRequest) (terminator : ℕ)
    → find_text head_end view ≡ some terminator
    → parse_terminated view terminator ≡ completed request
    → Ends view request terminator
unfolding parse_terminated Ends
terminated_complete view request terminator found h =
    let parsed =
      result_complete (parse_head (take (terminator + 4) view)) (drop (terminator + 4) view) request
        (ground (arith, h)) in
    (
      found,
      ground (arith, h),
      ground (arith, h),
      parsed.0,
      omega (arith, ap length parsed.1, length-drop (terminator + 4) view),
    )

complete-Ends :
    (view : Text) (request : HttpRequest)
    → parse_http_request view ≡ completed request
    → (terminator : ℕ) × Ends view request terminator
unfolding parse_http_request parse_unfinished
complete-Ends view request h = elim (Option-cases (find_text head_end view)) [
  | inl absent ↦ ground (arith, rw (parse_http_request, absent) at h)
  | inr (terminator, found) ↦ (
    terminator,
    terminated_complete view request terminator found (rw (parse_http_request, found) at h),
  )
]

pub length-some : (xs : Text) → xs ≢ [] → 1 ≤ length xs
length-some [] h = absurd (h refl)
length-some (x ∷ xs) h = omega arith

line_before :
    (before rest : Text)
    → line_too_long (find_text crlf (before ++ rest)) ≡ false
    → line_too_long (find_text crlf before) ≡ false
line_before before rest h = elim (Option-cases (find_text crlf before)) [
  | inl absent ↦ rw absent refl
  | inr (k, early) ↦ ap line_too_long (early ∙ sym (find_text-extends crlf before rest k early)) ∙ h
]

-- A part of a complete request is incomplete: whatever more was needed, the parser asked for it.
pub parse_http_request-prefix :
    (before rest : Text) (request : HttpRequest)
    → parse_http_request (before ++ rest) ≡ completed request
    → rest ≢ []
    → parse_http_request before ≡ refused_request incomplete
unfolding parse_http_request parse_unfinished Ends
parse_http_request-prefix before rest request h more =
    let (terminator, ends) = complete-Ends (before ++ rest) request h in
    let (found, short, bounded, head, size) = ends in
    let sum = length-append before rest in
    let some_more : 1 ≤ length rest = length-some rest more in
    elim (Option-cases (find_text head_end before)) [
      | inr (k, early) ↦
          let later = find_text-extends head_end before rest k early in
          let both : some terminator ≡ some k = sym found ∙ later in
          let same : terminator ≡ k = ground (arith, both) in
          absurd (omega (arith, find_text-within head_end before k early))
      | inl absent ↦
          let first : line_too_long (find_text crlf before) ≡ false =
            line_before before rest short in
          let room : leb max_http_header_block_length (length before) ≡ false = ground arith in
          rw (parse_http_request, absent) (rw (parse_unfinished, first, room) refl)
    ]

-- The tokens of an accepted head.
tokens_accepted :
    (tokens lines : List Text) (request : HttpRequest)
    → parse_tokens tokens lines ≡ head_read request
    → (is_valid_target request.target ≡ true)
      × (request.method ≡ codes "GET")
      × (request.version ≡ codes "HTTP/1.0")
      × (tokens ≡ request.method ∷ request.target ∷ request.version ∷ [])
unfolding parse_tokens check_request
tokens_accepted [] lines request h = ground arith
tokens_accepted (m ∷ []) lines request h = ground arith
tokens_accepted (m ∷ t ∷ []) lines request h = ground arith
tokens_accepted (m ∷ t ∷ v ∷ []) lines request h =
    ground (arith, h, same_text_eq m (codes "GET"), same_text_eq v (codes "HTTP/1.0"))
tokens_accepted (m ∷ t ∷ v ∷ w ∷ ws) lines request h = ground arith

lines_accepted :
    (lines : List Text) (request : HttpRequest)
    → parse_lines lines ≡ head_read request
    → (is_valid_target request.target ≡ true)
      × (request.method ≡ codes "GET")
      × (request.version ≡ codes "HTTP/1.0")
unfolding parse_lines
lines_accepted [] request h = ground arith
lines_accepted ([] ∷ lines) request h = ground arith
lines_accepted ((c ∷ cs) ∷ lines) request h =
    let (target, method, version, tokens) =
      tokens_accepted (split_exact (c ∷ cs) b' ' 3) lines request h in
    (target, method, version)

head_accepted :
    (block : Text) (request : HttpRequest)
    → parse_head block ≡ head_read request
    → (is_valid_target request.target ≡ true)
      × (request.method ≡ codes "GET")
      × (request.version ≡ codes "HTTP/1.0")
unfolding parse_head
head_accepted block request h = elim (Option-cases (head_lines [] block)) [
  | inl broken ↦ ground (arith, rw (parse_head, broken) at h)
  | inr (lines, read) ↦ lines_accepted lines request (rw (parse_head, read) at h)
]

-- A complete request is a GET with version HTTP/1.0 for a valid target, of at most
-- kMaxHttpHeaderBlockLength bytes, and its bytes end with the first end of a head among them.
pub parse_http_request_sound :
    (view : Text) (request : HttpRequest)
    → parse_http_request view ≡ completed request
    → (is_valid_target request.target ≡ true)
      × (request.method ≡ codes "GET")
      × (request.version ≡ codes "HTTP/1.0")
      × (length view ≤ max_http_header_block_length)
      × (find_text head_end view ≡ some (length view - 4))
unfolding Ends
parse_http_request_sound view request h =
    let (terminator, ends) = complete-Ends view request h in
    let (found, short, bounded, head, size) = ends in
    let (target, method, version) = head_accepted (take (terminator + 4) view) request head in
    let within = find_text-within head_end view terminator found in
    (target, method, version, omega arith, found ∙ ap some (omega arith))
