-- ===== src/EventLoop/HttpClient.antt =====
-- `handleHttpClient`. The argument `reply` is `sendTcpReply` for the packet and the frame just
-- received.
pub mod Outcome
use wirestack.Common.{ℕ, List, [], ◌++◌, Bool, true, false, not, ◌&&◌, ◌||◌, if◌then◌else◌}
use wirestack.Common.{Option, none, some}
use wirestack.Common.Map
use wirestack.Tcp.Segment.{TcpSegment}
use wirestack.HttpClient.Request.{build_http_get_request}
use wirestack.HttpClient.Response.{
  HttpResponseParseResult, HttpResponseParseStatus, parse_http_response, incomplete, complete,
  malformed, too_large, unsupported_version, unsupported_transfer_encoding, truncated,
}
use wirestack.HttpClient.Session.{HttpClientSession, append_http_client_bytes}
use wirestack.TcpConnection.Key.{TcpConnectionKey, TcpReceiveResult, key_equal}
use wirestack.TcpConnection.Schedule.{is_empty}
use wirestack.TcpConnection.Table.{TcpConnectionTable}
use wirestack.TcpConnection.Api.{make_outgoing_data, begin_close}
use wirestack.EventLoop.Arp.{Frames}
use wirestack.EventLoop.Send.{send_all, send_if}
use wirestack.EventLoop.State.{Runtime, HttpClientSessions}

-- What each of the three parts of the function returns.
pub record ClientStep : Type 0 where
  pub frames : Frames
  pub session : HttpClientSession
  pub connections : TcpConnectionTable

unfoldable pub enqueue_request :
    (TcpSegment → Frames)
    → TcpConnectionKey
    → List ℕ
    → ℕ
    → HttpClientSession
    → TcpConnectionTable
    → ClientStep
enqueue_request reply key request now session table =
    let (sent, queued) = make_outgoing_data key request now table in
    elim sent.error [
      | none ↦ record {
        frames = send_all reply sent.segments;
        session = record session { request_enqueued = true };
        connections = queued;
      }
      | some error ↦ record {
        frames = [];
        session = record session { failed = true };
        connections = queued;
      }
    ]

unfoldable pub start_request :
    (TcpSegment → Frames)
    → TcpConnectionKey
    → TcpReceiveResult
    → ℕ
    → HttpClientSession
    → TcpConnectionTable
    → ClientStep
start_request reply key result now session table =
    let unchanged : ClientStep = record { frames = []; session = session; connections = table } in
    if not (result.connection_established && not session.request_enqueued)
    then unchanged
    else elim (build_http_get_request session.host_header session.target) [
      | none ↦ record unchanged { session = record session { failed = true } }
      | some request ↦ enqueue_request reply key request now session table
    ]

-- The status code of a complete response is set.
abbrev code_or_unset : Option ℕ → ℕ
code_or_unset none = 0
code_or_unset (some code) = code

-- The switch over the outcome of the parser.
unfoldable pub parsed_session : HttpClientSession → HttpResponseParseResult → HttpClientSession
parsed_session session parsed =
    let rejected = record session { failed = true } in
    elim parsed.status [
      | incomplete ↦ session
      | complete ↦ record session {
        response_complete = true;
        status_code = code_or_unset parsed.status_code;
        body = parsed.body;
      }
      | malformed ↦ rejected
      | too_large ↦ rejected
      | unsupported_version ↦ rejected
      | unsupported_transfer_encoding ↦ rejected
      | truncated ↦ rejected
    ]

-- The session after the payload and the FIN are noted.
abbrev pub received_session : HttpClientSession → TcpReceiveResult → HttpClientSession
received_session session result =
    let filled =
      if is_empty result.accepted_payload
      then session
      else append_http_client_bytes session result.accepted_payload in
    if result.peer_closed then record filled { peer_fin_seen = true } else filled

unfoldable pub receive_response : HttpClientSession → TcpReceiveResult → HttpClientSession
receive_response session result =
    let received = received_session session result in
    if session.response_complete
    then (if is_empty result.accepted_payload then session else record session { failed = true })
    else if session.failed
    then session
    else if received.response_overflowed
    then record received { failed = true }
    else parsed_session received
        (parse_http_response received.response_buffer received.peer_fin_seen)

unfoldable pub finish :
    (TcpSegment → Frames)
    → TcpConnectionKey
    → ℕ
    → HttpClientSession
    → TcpConnectionTable
    → ClientStep
finish reply key now session table =
    let (closed, after) = begin_close key now table in
    if (session.response_complete || session.failed) && not session.close_initiated
    then record {
      frames = send_if reply closed.fin;
      session = record session { close_initiated = true };
      connections = after;
    }
    else record { frames = []; session = session; connections = table }

unfoldable pub client_step :
    (TcpSegment → Frames)
    → TcpConnectionKey
    → TcpReceiveResult
    → ℕ
    → HttpClientSession
    → TcpConnectionTable
    → ClientStep
client_step reply key result now session table =
    let started = start_request reply key result now session table in
    let ended =
      finish reply key now (receive_response started.session result) started.connections in
    record ended { frames = started.frames ++ ended.frames }

unfoldable pub handle_http_client :
    (TcpSegment → Frames) → TcpConnectionKey → TcpReceiveResult → ℕ → Runtime → Frames × Runtime
handle_http_client reply key result now runtime =
    elim (Map.find key_equal key runtime.http_client_sessions) [
      | none ↦ ([], runtime)
      | some session ↦
          let step = client_step reply key result now session runtime.tcp_connections in
          (
            step.frames,
            record runtime {
              tcp_connections = step.connections;
              http_client_sessions =
                  Map.assign key_equal key step.session runtime.http_client_sessions;
            },
          )
    ]
