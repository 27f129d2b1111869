-- ===== src/EventLoop/Dial.antt =====
-- The part of a round that dials the configured connection, once.
use wirestack.Common.{ℕ, [], ◌∷◌, ◌++◌, Bool, true, false, not}
use wirestack.Common.{◌||◌, if◌then◌else◌, Option, none, some}
use wirestack.Common.Map
use wirestack.Common.Text.{Text, to_string}
use wirestack.Address.{MacAddress, Ipv4Address}
use wirestack.Address.Text.{ip_to_string}
use wirestack.HttpClient.Session.{HttpClientSession}
use wirestack.TcpConnection.Key.{TcpConnectionKey, key_equal, key_less}
use wirestack.TcpConnection.Table.{TcpConnectResult, begin_connect}
use wirestack.EventLoop.Arp.{Host, Frames, resolve_neighbor}
use wirestack.EventLoop.Send.{send_tcp_segment}
use wirestack.EventLoop.State.{
  RuntimeMode, RuntimeOptions, Runtime, DnsRuntimeState, HttpClientSessions, passive, active_open,
  http_get,
}

abbrev pub is_passive : RuntimeMode → Bool
is_passive passive = true
is_passive active_open = false
is_passive http_get = false

abbrev is_http_get : RuntimeMode → Bool
is_http_get passive = false
is_http_get active_open = false
is_http_get http_get = true

-- The host header of a resolved host name is the one that the resolver's state carries.
abbrev resolver_header : Option DnsRuntimeState → Text
resolver_header none = []
resolver_header (some state) = state.host_header

abbrev host_header_for : RuntimeOptions → Option DnsRuntimeState → Ipv4Address → Text
host_header_for options dns_state dial_ip =
    if options.destination_is_hostname
    then resolver_header dns_state
    else ip_to_string dial_ip ++ (b':' ∷ to_string options.remote_port)

abbrev client_session : RuntimeOptions → Text → Ipv4Address → HttpClientSession
client_session options host_header dial_ip = record {
  remote_ip = dial_ip;
  remote_port = options.remote_port;
  host_header = host_header;
  target = options.target;
  request_enqueued = false;
  response_buffer = [];
  peer_fin_seen = false;
  response_overflowed = false;
  response_complete = false;
  failed = false;
  close_initiated = false;
  status_code = 0;
  body = [];
}

-- `emplace` leaves a session that is there.
unfoldable pub add_client_session :
    TcpConnectionKey → HttpClientSession → HttpClientSessions → HttpClientSessions
add_client_session key session sessions = elim (Map.find key_equal key sessions) [
  | none ↦ Map.emplace key_equal key_less key session sessions
  | some before ↦ sessions
]

-- After `beginConnect`: the SYN, and the client's session.
unfoldable pub after_connect :
    Host
    → RuntimeOptions
    → TcpConnectionKey
    → Ipv4Address
    → MacAddress
    → TcpConnectResult
    → Runtime
    → Frames × Runtime
after_connect host options key dial_ip mac result runtime =
    let header = host_header_for options runtime.dns_state dial_ip in
    let with_session = record runtime {
      http_client_sessions =
          add_client_session key (client_session options header dial_ip)
            runtime.http_client_sessions;
    } in
    elim result.syn [
      | none ↦ ([], runtime)
      | some syn ↦ if not result.accepted then ([], runtime) else (
        send_tcp_segment host dial_ip mac syn,
        if is_http_get options.mode then with_session else runtime,
      )
    ]

-- The key of the connection is set with the address that is dialled.
unfoldable pub connect :
    Host → RuntimeOptions → ℕ → Option ℕ → Ipv4Address → MacAddress → Runtime → Frames × Runtime
connect host options now draw dial_ip mac runtime = elim runtime.active_open_key [
  | none ↦ ([], runtime)
  | some key ↦
      let (result, table) = begin_connect key now draw runtime.tcp_connections in
      after_connect host options key dial_ip mac result
        (record runtime { tcp_connections = table; active_open_started = true })
]

unfoldable pub dial : Host → RuntimeOptions → ℕ → Option ℕ → Runtime → Frames × Runtime
dial host options now draw runtime = elim runtime.dial_target_ip [
  | none ↦ ([], runtime)
  | some dial_ip ↦
      let (mac, asked, cache) = resolve_neighbor host dial_ip now runtime.arp_cache in
      let resolved = record runtime { arp_cache = cache } in
      if is_passive options.mode || runtime.active_open_started then ([], runtime) else elim mac [
        | none ↦ (asked, resolved)
        | some known ↦
            let (frames, after) = connect host options now draw dial_ip known resolved in
            (asked ++ frames, after)
      ]
]
