-- ===== src/EventLoop/HttpServer/Served.antt =====
-- A connection's request is answered once, when it is complete.
use wirestack.Common.{ℕ, ◌-◌, ◌≤◌, ◌≡◌, ◌≢◌, ◌↔◌, refl, sym, ap, ◌∙◌, List, [], ◌∷◌, ◌++◌, arith}
use wirestack.Common.{true, false, not, ◌&&◌, some, none, Option, Option-cases, inl, inr, ◌⊎◌}
use wirestack.Common.{length, length-append, take_all, min, leb, append-nil}
use wirestack.Common.{if◌then◌else◌, Option-cases}
use wirestack.Common.{Bool}
use wirestack.TcpConnection.Table.{TcpConnectionTable}
use wirestack.Common.Map
use wirestack.Common.Text.{Text}
use wirestack.Address.Laws.{ip_equal_iff}
use wirestack.Tcp.Segment.{TcpSegment}
use wirestack.Http.Request.{
  HttpRequest, HttpConnectionState, parse_http_request, append_http_bytes,
  max_http_header_block_length,
}
use wirestack.Http.Request.Sound.{
  length-some, completed, parse_http_request-prefix, parse_http_request_sound,
}
use wirestack.Http.Response.{HttpResponse, select_response, serialize_http_response}
use wirestack.TcpConnection.Key.{TcpConnectionKey, TcpReceiveResult, key_equal, key_less}
use wirestack.TcpConnection.Schedule.{is_empty}
use wirestack.EventLoop.Arp.{Frames}
use wirestack.EventLoop.Bounds.{if_keeps}
use wirestack.EventLoop.State.{Runtime, HttpSessions, is_active_open}
use wirestack.EventLoop.HttpServer.{
  or_fresh, session_of, put_session, choose_response, respond, serve, send_response,
}
use wirestack.EventLoop.Send.{send_all, send_if}
use wirestack.TcpConnection.Api.{make_outgoing_data, begin_close}

key_equal_iff : (a b : TcpConnectionKey) → (key_equal a b ≡ true) ↔ (a ≡ b)
unfolding key_equal
key_equal_iff a b =
    ground (arith, ip_equal_iff a.local_ip b.local_ip, ip_equal_iff a.remote_ip b.remote_ip)

-- What is put under a key is found there.
session_of-put_session :
    (key : TcpConnectionKey) (session : HttpConnectionState) (sessions : HttpSessions)
    → session_of key (put_session key session sessions) ≡ session
unfolding session_of put_session
session_of-put_session key session sessions =
    let same : key_equal key key ≡ true = ground (arith, key_equal_iff key key) in
    elim (Option-cases (Map.find key_equal key sessions)) [
      | inl p ↦
          let found =
            Map.find-emplace key_equal key_equal_iff key_less key key session sessions p in
          rw (put_session, p) (ap or_fresh (rw same at found))
      | inr (before, p) ↦
          let found = Map.find-assign key_equal key_equal_iff key key session before sessions p in
          rw (put_session, p) (ap or_fresh (rw same at found))
    ]

respond-responded :
    (reply : TcpSegment → Frames) (key : TcpConnectionKey) (session : HttpConnectionState)
    (response : Option HttpResponse) (now : ℕ) (runtime : Runtime)
    → (respond reply key session response now runtime).0 ≢ []
    → (session_of key (respond reply key session response now runtime).1.http_sessions).responded
      ≡ true
unfolding respond
respond-responded reply key session none now runtime sent = absurd (sent refl)
respond-responded reply key session (some response) now runtime sent =
    ap (λ s. s.responded)
      (session_of-put_session key (record session { responded = true }) runtime.http_sessions)

-- What a result that sends anything leaves behind.
Responded : TcpConnectionKey → Frames × Runtime → Type 0
Responded key after = after.0 ≢ [] → (session_of key after.1.http_sessions).responded ≡ true

serve-Responded :
    (reply : TcpSegment → Frames) (key : TcpConnectionKey) (result : TcpReceiveResult) (now : ℕ)
    (runtime : Runtime)
    → Responded key (serve reply key result now runtime)
unfolding serve Responded
serve-Responded reply key result now runtime =
    let session = session_of key runtime.http_sessions in
    let quiet = is_empty result.accepted_payload && not result.peer_closed in
    if_keeps (Responded key) quiet ([], runtime) _ (λ sent. absurd (sent refl))
      (if_keeps (Responded key) (is_active_open key runtime.active_open_key) ([], runtime) _
        (λ sent. absurd (sent refl))
        (if_keeps (Responded key) session.responded _ _ (λ sent. absurd (sent refl))
          (respond-responded reply key _ _ now runtime)))

serve-silent :
    (reply : TcpSegment → Frames) (key : TcpConnectionKey) (result : TcpReceiveResult) (now : ℕ)
    (runtime : Runtime)
    → (session_of key runtime.http_sessions).responded ≡ true
    → ((serve reply key result now runtime).0 ≡ [])
      × ((serve reply key result now runtime).1.tcp_connections ≡ runtime.tcp_connections)
unfolding serve
serve-silent reply key result now runtime r = ground arith

sent_or_not : (frames : Frames) → (frames ≡ []) ⊎ (frames ≢ [])
sent_or_not [] = inl refl
sent_or_not (frame ∷ frames) = inr (λ h. cc)

-- Of two deliveries to a connection whose session is not erased or changed in between, at most one
-- sends anything for the server: either the first sends nothing, or the second sends nothing and
-- leaves the connections as they are.
pub served_once :
    (reply : TcpSegment → Frames) (key : TcpConnectionKey) (first second : TcpReceiveResult)
    (now later : ℕ) (runtime after : Runtime)
    → session_of key after.http_sessions
      ≡ session_of key (serve reply key first now runtime).1.http_sessions
    → ((serve reply key first now runtime).0 ≡ [])
      ⊎ (((serve reply key second later after).0 ≡ [])
          × ((serve reply key second later after).1.tcp_connections ≡ after.tcp_connections))
unfolding Responded
served_once reply key first second now later runtime after kept =
    elim (sent_or_not (serve reply key first now runtime).0) [
      | inl nothing ↦ inl nothing
      | inr sent ↦ inr (
          serve-silent reply key second later after
            (ap (λ s. s.responded) kept ∙ serve-Responded reply key first now runtime sent))
    ]

not_empty : (xs : List ℕ) → xs ≢ [] → is_empty xs ≡ false
not_empty [] h = absurd (h refl)
not_empty (x ∷ xs) h = refl

-- The response for the bytes so far.
chosen_response :
    (bytes more : Text) (request : HttpRequest)
    → parse_http_request (bytes ++ more) ≡ completed request
    → choose_response (parse_http_request bytes) false
      ≡ (if is_empty more then some (select_response request) else none)
unfolding choose_response
chosen_response bytes [] request whole =
    let read : parse_http_request bytes ≡ completed request =
      ap parse_http_request (sym (append-nil bytes)) ∙ whole in
    ap (λ parsed. choose_response parsed false) read
chosen_response bytes (c ∷ more) request whole =
    let waits = parse_http_request-prefix bytes (c ∷ more) request whole (cc) in
    ap (λ parsed. choose_response parsed false) waits

appended :
    (before payload : Text)
    → length (before ++ payload) ≤ max_http_header_block_length
    → payload ≢ []
    → append_http_bytes (record { buffer = before; responded = false }) payload
      ≡ record { buffer = before ++ payload; responded = false }
unfolding append_http_bytes
appended before payload short some_more =
    let size = length-append before payload in
    let more : 1 ≤ length payload = length-some payload some_more in
    let room : leb max_http_header_block_length (length before) ≡ false = ground arith in
    let all_of_it : min (max_http_header_block_length - length before) (length payload)
        ≡ length payload =
      omega arith in
    rw (append_http_bytes, room, all_of_it)
      (ap (λ p. record { buffer = before ++ p; responded = false })
        (take_all (length payload) payload (omega arith)))

serve_part :
    (reply : TcpSegment → Frames) (key : TcpConnectionKey) (result : TcpReceiveResult) (now : ℕ)
    (runtime : Runtime) (before more : Text) (request : HttpRequest)
    → session_of key runtime.http_sessions ≡ record { buffer = before; responded = false }
    → is_active_open key runtime.active_open_key ≡ false
    → result.accepted_payload ≢ []
    → result.peer_closed ≡ false
    → parse_http_request (before ++ result.accepted_payload ++ more) ≡ completed request
    → serve reply key result now runtime
      ≡ respond reply key
          (record { buffer = before ++ result.accepted_payload; responded = false })
          (if is_empty more then some (select_response request) else none)
          now
          runtime
unfolding serve
serve_part reply key result now runtime before more request session passive some_payload unclosed
      whole =
    let payload = result.accepted_payload in
    let bounded = (parse_http_request_sound (before ++ payload ++ more) request whole).3 in
    let short : length (before ++ payload) ≤ max_http_header_block_length =
      omega (arith, length-append (before ++ payload) more) in
    let given : is_empty payload ≡ false = not_empty payload some_payload in
    let filled = appended before payload short some_payload in
    let chosen = chosen_response (before ++ payload) more request whole in
    rw (serve, given, unclosed, passive, session, filled, chosen) refl

send_response-taken :
    (reply : TcpSegment → Frames) (key : TcpConnectionKey) (response : HttpResponse) (now : ℕ)
    (table : TcpConnectionTable)
    → let (sent, queued) = make_outgoing_data key (serialize_http_response response) now table in
      let (closed, ended) = begin_close key now queued in
      sent.error ≡ none
      → send_response reply key response now table
        ≡ (send_all reply sent.segments ++ send_if reply closed.fin, ended)
unfolding send_response
send_response-taken reply key response now table taken = rw (send_response, taken) refl

-- What the two outcomes of the parse leave, if TCP takes the response.
respond_if :
    (reply : TcpSegment → Frames) (key : TcpConnectionKey) (now : ℕ) (runtime : Runtime)
    (bytes : Text) (response : HttpResponse) (whole : Bool)
    → (whole ≡ true
        → (make_outgoing_data key
            (serialize_http_response response)
            now
            runtime.tcp_connections).0.error
          ≡ none)
    → let table = runtime.tcp_connections in
      let (sent, queued) = make_outgoing_data key (serialize_http_response response) now table in
      let (closed, ended) = begin_close key now queued in
      let (frames, after) =
        respond reply key
          (record { buffer = bytes; responded = false })
          (if whole then some response else none)
          now
          runtime in
      (session_of key after.http_sessions ≡ record { buffer = bytes; responded = whole })
      × (frames ≡ (if whole then send_all reply sent.segments ++ send_if reply closed.fin else []))
      × (after.tcp_connections ≡ (if whole then ended else table))
unfolding respond
respond_if reply key now runtime bytes response true taken = (
  session_of-put_session key (record { buffer = bytes; responded = true }) runtime.http_sessions,
  ap (λ r. r.0) (send_response-taken reply key response now runtime.tcp_connections (taken refl)),
  ap (λ r. r.1) (send_response-taken reply key response now runtime.tcp_connections (taken refl)),
)
respond_if reply key now runtime bytes response false taken = (
  session_of-put_session key (record { buffer = bytes; responded = false }) runtime.http_sessions,
  refl,
  refl,
)

-- A payload without the FIN that brings an unanswered passive session to a part of a request is
-- kept in the session. While the request is not complete, nothing is sent, the connections stay as
-- they are and the session stays unanswered. If it is complete and TCP takes the response for its
-- target, the frames sent are those for the response's segments and for the FIN, the connections
-- are those after both, and the session is marked as answered.
pub request_in_parts :
    (reply : TcpSegment → Frames) (key : TcpConnectionKey) (result : TcpReceiveResult) (now : ℕ)
    (runtime : Runtime) (before more : Text) (request : HttpRequest)
    → session_of key runtime.http_sessions ≡ record { buffer = before; responded = false }
    → is_active_open key runtime.active_open_key ≡ false
    → result.accepted_payload ≢ []
    → result.peer_closed ≡ false
    → parse_http_request (before ++ result.accepted_payload ++ more) ≡ completed request
    → (is_empty more ≡ true
        → (make_outgoing_data key
            (serialize_http_response (select_response request))
            now
            runtime.tcp_connections).0.error
          ≡ none)
    → let table = runtime.tcp_connections in
      let (sent, queued) =
        make_outgoing_data key (serialize_http_response (select_response request)) now table in
      let (closed, ended) = begin_close key now queued in
      let (frames, after) = serve reply key result now runtime in
      (session_of key after.http_sessions
        ≡ record { buffer = before ++ result.accepted_payload; responded = is_empty more })
      × (frames ≡ (
          if is_empty more then send_all reply sent.segments ++ send_if reply closed.fin else []))
      × (after.tcp_connections ≡ (if is_empty more then ended else table))
request_in_parts reply key result now runtime before more request session passive some_payload
      unclosed whole taken =
    rw
      (serve_part reply key result now runtime before more request session passive some_payload
        unclosed whole)
      (respond_if reply key now runtime (before ++ result.accepted_payload)
        (select_response request) (is_empty more) taken)
