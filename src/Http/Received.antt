-- ===== src/Http/Received.antt =====
-- A server's buffer after a connection's payloads have been appended one after the other.
use wirestack.Common.{ℕ, ◌-◌, ◌≤◌, ◌≡◌, refl, ap, sym, ◌∙◌, arith, List, [], ◌∷◌, ◌++◌}
use wirestack.Common.{length, take, min, leb, false, inl, inr, Bool-cases}
use wirestack.Common.{append-nil, append_assoc, length-take, take-append_left, take_all, zero, suc}
use wirestack.Common.Text.{Text}
use wirestack.Http.Request.{HttpConnectionState, append_http_bytes, max_http_header_block_length}

-- The payloads in order.
unfoldable pub joined : List Text → Text
joined [] = []
joined (chunk ∷ chunks) = chunk ++ joined chunks

unfoldable pub append_all : HttpConnectionState → List Text → HttpConnectionState
append_all state [] = state
append_all state (chunk ∷ chunks) = append_all (append_http_bytes state chunk) chunks

take-take_append : (n : ℕ) (xs ys : Text) → take n (take n xs ++ ys) ≡ take n (xs ++ ys)
take-take_append zero xs ys = refl
take-take_append (suc n) [] ys = refl
take-take_append (suc n) (x ∷ xs) ys = ap (λ t. x ∷ t) (take-take_append n xs ys)

take-append_right :
    (n : ℕ) (xs ys : Text) → length xs ≤ n → take n (xs ++ ys) ≡ xs ++ take (n - length xs) ys
take-append_right n [] ys h = ap (λ m. take m ys) (omega arith)
take-append_right zero (x ∷ xs) ys h = absurd (omega arith)
take-append_right (suc n) (x ∷ xs) ys h =
    let same : n - length xs ≡ suc n - suc (length xs) = omega arith in
    ap (λ t. x ∷ t) (take-append_right n xs ys (omega arith) ∙ ap (λ m. xs ++ take m ys) same)

take-min : (n : ℕ) (xs : Text) → take (min n (length xs)) xs ≡ take n xs
take-min n xs = elim (Bool-cases (leb n (length xs))) [
  | inl fewer ↦ ap (λ m. take m xs) (ground arith)
  | inr more ↦
      let all_of_it : min n (length xs) ≡ length xs = ground arith in
      ap (λ m. take m xs) all_of_it
      ∙ take_all (length xs) xs (omega arith)
      ∙ sym (take_all n xs (ground arith))
]

append_http_bytes-buffer :
    (s : HttpConnectionState) (chunk : Text)
    → length s.buffer ≤ max_http_header_block_length
    → (append_http_bytes s chunk).buffer ≡ take max_http_header_block_length (s.buffer ++ chunk)
unfolding append_http_bytes
append_http_bytes-buffer s chunk h =
    elim (Bool-cases (leb max_http_header_block_length (length s.buffer))) [
      | inl full ↦
          rw full
            (sym (take-append_left max_http_header_block_length s.buffer chunk (ground arith)))
      | inr room ↦
          let limit = max_http_header_block_length in
          rw room (
            ap (λ t. s.buffer ++ t) (take-min (limit - length s.buffer) chunk)
            ∙ sym (take-append_right limit s.buffer chunk h))
    ]

append_all-takes :
    (s : HttpConnectionState) (chunks : List Text)
    → length s.buffer ≤ max_http_header_block_length
    → (append_all s chunks).buffer ≡ take max_http_header_block_length (s.buffer ++ joined chunks)
unfolding append_all joined
append_all-takes s [] h =
    let limit = max_http_header_block_length in
    sym (take_all limit s.buffer h) ∙ ap (take limit) (sym (append-nil s.buffer))
append_all-takes s (chunk ∷ chunks) h =
    let limit = max_http_header_block_length in
    let one = append_http_bytes-buffer s chunk h in
    let size = length-take limit (s.buffer ++ chunk) in
    append_all-takes (append_http_bytes s chunk) chunks (omega (arith, ap length one, size))
    ∙ ap (λ b. take limit (b ++ joined chunks)) one
    ∙ take-take_append limit (s.buffer ++ chunk) (joined chunks)
    ∙ ap (take limit) (append_assoc s.buffer chunk (joined chunks))

-- From an empty buffer, whatever the payloads and however many, the buffer holds the first
-- kMaxHttpHeaderBlockLength bytes of the stream.
pub append_all-buffer :
    (chunks : List Text)
    → (append_all (record { buffer = []; responded = false }) chunks).buffer
      ≡ take max_http_header_block_length (joined chunks)
append_all-buffer chunks =
    append_all-takes (record { buffer = []; responded = false }) chunks (omega arith)
