-- ===== src/EventLoop/HttpClient/Outcome.antt =====
-- What the client makes of the server's response, and that its outcome is final.
use wirestack.Common.{ℕ, ◌-◌, ◌≤◌, ◌≡◌, ◌≢◌, refl, ap, ap₂, ◌∙◌, List, [], ◌∷◌, ◌++◌, arith}
use wirestack.Common.{true, false, Bool, ◌||◌, some, length, take, ltb, ◌==◌}
use wirestack.Common.{if◌then◌else◌, length-append, length-take, inl, inr, Bool-cases}
use wirestack.Common.Text.{Text, all}
use wirestack.Http.Chars.{is_value_byte}
use wirestack.Http.Response.{HttpResponse}
use wirestack.HttpClient.Response.{
  parse_http_response, reject, incomplete, complete, truncated, max_http_response_body_length,
}
use wirestack.HttpClient.Response.Exchange.{
  response_head, length-response_head, parse_http_response-serialize_http_response,
}
use wirestack.HttpClient.Response.Lines.{code_of}
use wirestack.HttpClient.Session.{HttpClientSession, append_http_client_bytes, response_cap}
use wirestack.Tcp.Segment.{TcpSegment}
use wirestack.TcpConnection.Key.{TcpConnectionKey, TcpReceiveResult}
use wirestack.TcpConnection.Schedule.{is_empty}
use wirestack.TcpConnection.Table.{TcpConnectionTable}
use wirestack.EventLoop.Arp.{Frames}
use wirestack.Common.{◌&&◌, not}
use wirestack.HttpClient.Response.{HttpResponseParseResult}
use wirestack.EventLoop.HttpClient.{
  enqueue_request, start_request, finish, client_step, receive_response, received_session,
  parsed_session,
}

-- A session that had not asked for the close, after results of any segments, at any times and with
-- any connections.
pub data Reach : HttpClientSession → Type 0 where
  opened : (s : HttpClientSession) → s.close_initiated ≡ false → Reach s
  stepped :
      (reply : TcpSegment → Frames) (key : TcpConnectionKey) (result : TcpReceiveResult) (now : ℕ)
      (s : HttpClientSession) (t : TcpConnectionTable)
      → Reach s
      → Reach (client_step reply key result now s t).session

abbrev is_over : HttpClientSession → Bool
is_over s = s.response_complete || s.failed

-- A session that has asked for the close has an outcome.
IsEnded : HttpClientSession → Type 0
IsEnded s = s.close_initiated ≡ true → is_over s ≡ true

-- A later session with the same request for the close, and the outcome if there was one.
KeepsOutcome : HttpClientSession → HttpClientSession → Type 0
KeepsOutcome s after =
    (after.close_initiated ≡ s.close_initiated) × (is_over s ≡ true → is_over after ≡ true)

start_request-KeepsOutcome :
    (reply : TcpSegment → Frames) (key : TcpConnectionKey) (result : TcpReceiveResult) (now : ℕ)
    (s : HttpClientSession) (t : TcpConnectionTable)
    → KeepsOutcome s (start_request reply key result now s t).session
unfolding start_request enqueue_request KeepsOutcome
start_request-KeepsOutcome reply key result now s t = ground arith

parsed_session-close :
    (s : HttpClientSession) (parsed : HttpResponseParseResult)
    → (parsed_session s parsed).close_initiated ≡ s.close_initiated
unfolding parsed_session
parsed_session-close s parsed = ground arith

received_session-close :
    (s : HttpClientSession) (result : TcpReceiveResult)
    → (received_session s result).close_initiated ≡ s.close_initiated
unfolding append_http_client_bytes
received_session-close s result = ground arith

receive_response-KeepsOutcome :
    (s : HttpClientSession) (result : TcpReceiveResult) → KeepsOutcome s (receive_response s result)
unfolding receive_response KeepsOutcome
receive_response-KeepsOutcome s result =
    let received = received_session s result in
    let parsed = parse_http_response received.response_buffer received.peer_fin_seen in
    ground (arith, received_session-close s result, parsed_session-close received parsed)

finish-IsEnded :
    (reply : TcpSegment → Frames) (key : TcpConnectionKey) (now : ℕ) (s : HttpClientSession)
    (t : TcpConnectionTable)
    → IsEnded s
    → IsEnded (finish reply key now s t).session
unfolding finish IsEnded
finish-IsEnded reply key now s t ended = ground (arith, ended)

Reach-IsEnded : (s : HttpClientSession) → Reach s → IsEnded s
unfolding client_step IsEnded KeepsOutcome
Reach-IsEnded s (opened _ fresh) = λ closed. cc
Reach-IsEnded _ (stepped reply key result now s t r) =
    let started = start_request reply key result now s t in
    let received = receive_response started.session result in
    let before = Reach-IsEnded s r in
    let first = start_request-KeepsOutcome reply key result now s t in
    let second = receive_response-KeepsOutcome started.session result in
    finish-IsEnded reply key now received started.connections
      (λ closed. second.1 (first.1 (before (cc))))

-- After any results that a session without a request for the close has seen: once it has asked for
-- the close, a further result sends nothing and leaves the connections, the status code and the
-- body as they are, unless it reports the connection as established to a session whose request
-- never went out.
pub client_final :
    (reply : TcpSegment → Frames) (key : TcpConnectionKey) (result : TcpReceiveResult) (now : ℕ)
    (session : HttpClientSession) (t : TcpConnectionTable)
    → Reach session
    → session.close_initiated ≡ true
    → (result.connection_established && not session.request_enqueued) ≡ false
    → let after = client_step reply key result now session t in
      (after.frames ≡ [])
      × (after.connections ≡ t)
      × (after.session.close_initiated ≡ true)
      × (after.session.status_code ≡ session.status_code)
      × (after.session.body ≡ session.body)
unfolding client_step start_request finish receive_response IsEnded
client_final reply key result now session t reached closed quiet =
    let over : is_over session ≡ true = Reach-IsEnded session reached closed in ground arith

appended :
    (session : HttpClientSession) (payload : Text)
    → session.response_overflowed ≡ false
    → length (session.response_buffer ++ payload) ≤ response_cap
    → append_http_client_bytes session payload
      ≡ record session { response_buffer = session.response_buffer ++ payload }
unfolding append_http_client_bytes
appended session payload whole fits =
    let size = length-append session.response_buffer payload in
    let room : ltb (response_cap - length session.response_buffer) (length payload) ≡ false =
      ground arith in
    rw (append_http_client_bytes, whole, room) refl

not_empty : (xs : List ℕ) → xs ≢ [] → is_empty xs ≡ false
not_empty [] h = absurd (h refl)
not_empty (x ∷ xs) h = refl

skip_if : {A : Type 0} (test : Bool) (x y : A) → test ≡ false → (if test then x else y) ≡ y
skip_if true x y h = absurd (ground arith)
skip_if false x y h = refl

-- The last part of `receive_response`, on the session with what was received.
judged : HttpClientSession → HttpClientSession
judged received =
    if received.response_overflowed
    then record received { failed = true }
    else parsed_session received
        (parse_http_response received.response_buffer received.peer_fin_seen)

receive_response-judged :
    (session : HttpClientSession) (result : TcpReceiveResult)
    → session.response_complete ≡ false
    → session.failed ≡ false
    → receive_response session result ≡ judged (received_session session result)
unfolding receive_response judged
receive_response-judged session result going live =
    skip_if session.response_complete _ _ going ∙ skip_if session.failed _ _ live

received_payload :
    (session : HttpClientSession) (result : TcpReceiveResult)
    → session.response_overflowed ≡ false
    → result.peer_closed ≡ false
    → is_empty result.accepted_payload ≡ false
    → length (session.response_buffer ++ result.accepted_payload) ≤ response_cap
    → received_session session result
      ≡ record session { response_buffer = session.response_buffer ++ result.accepted_payload }
received_payload session result whole unclosed some_payload size =
    skip_if result.peer_closed _ _ unclosed
    ∙ skip_if (is_empty result.accepted_payload) _ _ some_payload
    ∙ appended session result.accepted_payload whole size

concluded :
    (received : HttpClientSession) (r : HttpResponse) (k : ℕ)
    → parsed_session received (
        if k == length r.body
        then record {
          status = complete;
          status_code = some (code_of r.status);
          body = r.body;
          content_length_present = true;
        }
        else if false
        then reject truncated
        else reject incomplete)
      ≡ (if k == length r.body
          then record received {
            response_complete = true;
            status_code = code_of r.status;
            body = r.body;
          }
          else received)
unfolding parsed_session reject
concluded received r k = elim (Bool-cases (k == length r.body)) [
  | inl p ↦ rw p refl
  | inr p ↦ rw p refl
]

-- While the connection is open, the payload that brings a waiting client up to the first k bytes of
-- the body of the server's response leaves it waiting, or, with the whole body, complete with the
-- response's status code and body.
pub response_in_parts :
    (session : HttpClientSession) (result : TcpReceiveResult) (r : HttpResponse) (k : ℕ)
    → session.response_overflowed ≡ false
    → session.response_complete ≡ false
    → session.failed ≡ false
    → session.peer_fin_seen ≡ false
    → result.peer_closed ≡ false
    → result.accepted_payload ≢ []
    → all is_value_byte r.content_type ≡ true
    → length r.content_type ≤ 8000
    → length r.body ≤ max_http_response_body_length
    → k ≤ length r.body
    → session.response_buffer ++ result.accepted_payload ≡ response_head r ++ take k r.body
    → let received = record session {
      response_buffer = session.response_buffer ++ result.accepted_payload;
    } in
      receive_response session result ≡ (
        if k == length r.body
        then record received {
          response_complete = true;
          status_code = code_of r.status;
          body = r.body;
        }
        else received)
unfolding judged
response_in_parts session result r k whole going live still unclosed given plain short fits within
      stream =
    let payload = result.accepted_payload in
    let some_payload : is_empty payload ≡ false = not_empty payload given in
    let size : length (session.response_buffer ++ payload) ≤ response_cap = omega (
      arith,
      ap length stream,
      length-append (response_head r) (take k r.body),
      length-take k r.body,
      length-response_head r (omega arith),
    ) in
    let received : HttpClientSession = record session {
      response_buffer = session.response_buffer ++ payload;
    } in
    let as_received =
      receive_response-judged session result going live
      ∙ ap judged (received_payload session result whole unclosed some_payload size)
      ∙ skip_if session.response_overflowed _ _ whole in
    let parsed =
      ap₂ parse_http_response stream still
      ∙ (parse_http_response-serialize_http_response r k false plain short fits within).1 in
    as_received ∙ ap (parsed_session received) parsed ∙ concluded received r k
