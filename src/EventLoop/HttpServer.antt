-- ===== src/EventLoop/HttpServer.antt =====
-- The part of `handleTcp` that serves HTTP: what is received for a connection goes into its
-- session, and a response is handed to TCP, which is then asked to close. The argument `reply` is
-- `sendTcpReply` for the packet and the frame just received.
pub mod Served
use wirestack.Common.{ℕ, List, [], ◌++◌, Bool, true, false, not, ◌&&◌, ◌||◌, if◌then◌else◌}
use wirestack.Common.{Option, none, some}
use wirestack.Common.Map
use wirestack.Tcp.Segment.{TcpSegment}
use wirestack.Http.Request.{
  HttpParseResult, HttpParseStatus, HttpRequest, HttpConnectionState, parse_http_request,
  append_http_bytes, incomplete, complete, malformed, too_large, unsupported_method,
  unsupported_version,
}
use wirestack.Http.Response.{
  HttpResponse, select_response, make_bad_request_response, make_method_not_allowed_response,
  make_version_not_supported_response, serialize_http_response,
}
use wirestack.TcpConnection.Key.{TcpConnectionKey, TcpReceiveResult, key_equal, key_less}
use wirestack.TcpConnection.Schedule.{is_empty}
use wirestack.TcpConnection.Table.{TcpConnectionTable}
use wirestack.TcpConnection.Api.{make_outgoing_data, begin_close}
use wirestack.EventLoop.Arp.{Frames}
use wirestack.EventLoop.Send.{send_all, send_if}
use wirestack.EventLoop.State.{Runtime, HttpSessions, is_active_open}

-- `HttpConnectionState{}`
abbrev pub fresh_session : HttpConnectionState
fresh_session = record { buffer = []; responded = false }

abbrev pub or_fresh : Option HttpConnectionState → HttpConnectionState
or_fresh none = fresh_session
or_fresh (some session) = session

-- `http_sessions[key]`, and the map after a change through the reference.
unfoldable pub session_of : TcpConnectionKey → HttpSessions → HttpConnectionState
session_of key sessions = or_fresh (Map.find key_equal key sessions)

unfoldable pub put_session : TcpConnectionKey → HttpConnectionState → HttpSessions → HttpSessions
put_session key session sessions = elim (Map.find key_equal key sessions) [
  | none ↦ Map.emplace key_equal key_less key session sessions
  | some before ↦ Map.assign key_equal key session sessions
]

-- A complete request has its method, target and version.
abbrev select_for : Option HttpRequest → Option HttpResponse
select_for none = none
select_for (some request) = some (select_response request)

-- The switch over the outcome of the parser.
unfoldable pub choose_response : HttpParseResult → Bool → Option HttpResponse
choose_response parsed peer_closed = elim parsed.status [
  | incomplete ↦ if peer_closed then some make_bad_request_response else none
  | complete ↦ select_for parsed.request
  | malformed ↦ some make_bad_request_response
  | too_large ↦ some make_bad_request_response
  | unsupported_method ↦ some make_method_not_allowed_response
  | unsupported_version ↦ some make_version_not_supported_response
]

unfoldable pub send_response :
    (TcpSegment → Frames)
    → TcpConnectionKey
    → HttpResponse
    → ℕ
    → TcpConnectionTable
    → Frames × TcpConnectionTable
send_response reply key response now table =
    let (sent, queued) = make_outgoing_data key (serialize_http_response response) now table in
    let (closed, after) = begin_close key now queued in
    elim sent.error [
      | some error ↦ ([], queued)
      | none ↦ (send_all reply sent.segments ++ send_if reply closed.fin, after)
    ]

-- What follows the parse: the response, if there is one, and the session after it.
unfoldable pub respond :
    (TcpSegment → Frames)
    → TcpConnectionKey
    → HttpConnectionState
    → Option HttpResponse
    → ℕ
    → Runtime
    → Frames × Runtime
respond reply key session none now runtime =
    ([], record runtime { http_sessions = put_session key session runtime.http_sessions })
respond reply key session (some response) now runtime =
    let (frames, table) = send_response reply key response now runtime.tcp_connections in
    let responded = record session { responded = true } in
    (
      frames,
      record runtime {
        http_sessions = put_session key responded runtime.http_sessions;
        tcp_connections = table;
      },
    )

abbrev pub with_payload : HttpConnectionState → List ℕ → HttpConnectionState
with_payload session payload =
    if is_empty payload then session else append_http_bytes session payload

unfoldable pub serve :
    (TcpSegment → Frames) → TcpConnectionKey → TcpReceiveResult → ℕ → Runtime → Frames × Runtime
serve reply key result now runtime =
    let session = session_of key runtime.http_sessions in
    let received = with_payload session result.accepted_payload in
    let response = choose_response (parse_http_request received.buffer) result.peer_closed in
    let opened = record runtime { http_sessions = put_session key session runtime.http_sessions } in
    if is_empty result.accepted_payload && not result.peer_closed
    then ([], runtime)
    else if is_active_open key runtime.active_open_key
    then ([], runtime)
    else if session.responded
    then ([], opened)
    else respond reply key received response now runtime
