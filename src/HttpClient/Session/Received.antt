-- ===== src/HttpClient/Session/Received.antt =====
-- A client's buffer after a connection's payloads have been appended one after the other.
use wirestack.Common.{◌-◌, ◌≤◌, ◌<◌, ◌≡◌, refl, ap, sym, ◌∙◌, subst, arith, List, [], ◌∷◌, ◌++◌}
use wirestack.Common.{length, false, true, inl, inr, Bool-cases, ltb, if◌then◌else◌}
use wirestack.Common.{append-nil, append_assoc, length-append}
use wirestack.Common.Text.{Text}
use wirestack.Http.Received.{joined}
use wirestack.HttpClient.Session.{HttpClientSession, append_http_client_bytes, response_cap}

unfoldable pub append_client_all : HttpClientSession → List Text → HttpClientSession
append_client_all session [] = session
append_client_all session (chunk ∷ chunks) =
    append_client_all (append_http_client_bytes session chunk) chunks

-- Overflow is kept, whatever follows.
overflow_stays :
    (s : HttpClientSession) (chunks : List Text)
    → s.response_overflowed ≡ true
    → append_client_all s chunks ≡ s
unfolding append_client_all append_http_client_bytes
overflow_stays s [] h = refl
overflow_stays s (chunk ∷ chunks) h =
    let same : append_http_client_bytes s chunk ≡ s = rw (append_http_client_bytes, h) refl in
    ap (λ t. append_client_all t chunks) same ∙ overflow_stays s chunks h

appended_over :
    (s : HttpClientSession) (chunk : Text)
    → s.response_overflowed ≡ false
    → ltb (response_cap - length s.response_buffer) (length chunk) ≡ true
    → append_http_client_bytes s chunk ≡ record s { response_overflowed = true }
unfolding append_http_client_bytes
appended_over s chunk h k = rw (append_http_client_bytes, h, k) refl

appended_whole :
    (s : HttpClientSession) (chunk : Text)
    → s.response_overflowed ≡ false
    → ltb (response_cap - length s.response_buffer) (length chunk) ≡ false
    → append_http_client_bytes s chunk ≡ record s { response_buffer = s.response_buffer ++ chunk }
unfolding append_http_client_bytes
appended_whole s chunk h k = rw (append_http_client_bytes, h, k) refl

-- What a session holds of a stream.
unfoldable pub IsBuffered : Text → HttpClientSession → Type 0
IsBuffered stream s =
    (length stream ≤ response_cap → (s.response_buffer ≡ stream) × (s.response_overflowed ≡ false))
    × (response_cap < length stream → s.response_overflowed ≡ true)
    × (length s.response_buffer ≤ response_cap)

-- For a session that has not overflowed, whatever the payloads: if the whole stream fits, it is
-- buffered whole and in order; if it does not, the session has overflowed. The buffer stays within
-- the header and body bounds together in both cases.
append_client_all-buffer :
    (s : HttpClientSession) (chunks : List Text)
    → s.response_overflowed ≡ false
    → length s.response_buffer ≤ response_cap
    → IsBuffered (s.response_buffer ++ joined chunks) (append_client_all s chunks)
unfolding append_client_all joined IsBuffered
append_client_all-buffer s [] h k =
    let whole = append-nil s.response_buffer in
    (λ l. (sym whole, h), λ l. absurd (omega (arith, ap length whole)), k)
append_client_all-buffer s (chunk ∷ chunks) h k =
    let room = response_cap - length s.response_buffer in
    let longer : HttpClientSession = record s { response_buffer = s.response_buffer ++ chunk } in
    let over : HttpClientSession = record s { response_overflowed = true } in
    let total = length-append s.response_buffer (chunk ++ joined chunks) in
    let parts = length-append chunk (joined chunks) in
    let part = length-append s.response_buffer chunk in
    elim (Bool-cases (ltb room (length chunk))) [
      | inl too_much ↦
          let kept =
            ap (λ t. append_client_all t chunks) (appended_over s chunk h too_much)
            ∙ overflow_stays over chunks refl in
          (
            λ l. absurd (ground arith),
            λ l. ap (λ t. t.response_overflowed) kept,
            omega (arith, ap (λ t. length t.response_buffer) kept),
          )
      | inr fits ↦
          let step = appended_whole s chunk h fits in
          let order = append_assoc s.response_buffer chunk (joined chunks) in
          subst
            (λ t.
              IsBuffered (s.response_buffer ++ (chunk ++ joined chunks))
                (append_client_all t chunks))
            (sym step)
            (subst (λ b. IsBuffered b (append_client_all longer chunks)) order
              (append_client_all-buffer longer chunks h (ground arith)))
    ]

-- A fresh session that is handed a stream in any payloads has overflowed exactly when the stream is
-- longer than the header and body bounds together; otherwise it holds the stream whole and in
-- order. Its buffer never exceeds the bounds.
pub append_client_all-stream :
    (s : HttpClientSession) (chunks : List Text)
    → s.response_overflowed ≡ false
    → s.response_buffer ≡ []
    → let after = append_client_all s chunks in
      let stream = joined chunks in
      (after.response_overflowed ≡ ltb response_cap (length stream))
      × ((if after.response_overflowed then [] else after.response_buffer)
          ≡ (if ltb response_cap (length stream) then [] else stream))
      × (length after.response_buffer ≤ response_cap)
unfolding IsBuffered
append_client_all-stream s chunks h empty =
    let all_of_it : s.response_buffer ++ joined chunks ≡ joined chunks =
      ap (λ b. b ++ joined chunks) empty in
    let (whole, beyond, bounded) =
      subst (λ b. IsBuffered b (append_client_all s chunks)) all_of_it
        (append_client_all-buffer s chunks h (omega (arith, ap length empty))) in
    elim (Bool-cases (ltb response_cap (length (joined chunks)))) [
      | inl longer ↦ let over = beyond (ground arith) in rw (over, longer) (refl, refl, bounded)
      | inr fits ↦ let (same, kept) = whole (ground arith) in rw (kept, fits) (refl, same, bounded)
    ]
