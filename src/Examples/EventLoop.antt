-- ===== src/Examples/EventLoop.antt =====
-- The event loop on concrete frames and sessions.
use wirestack.Common.{
  ℕ, ◌≤◌, ◌≡◌, refl, arith, List, [], ◌∷◌, ◌++◌, Option, some, none, true, false,
}
use wirestack.Common.{ok, length}
use wirestack.Common.Map
use wirestack.Common.Text.{Text, codes, all}
use wirestack.Bytes.{join16}
use wirestack.Address.{ip_equal, broadcast}
use wirestack.Checksum.{internet_checksum, sum_words, fold, complement}
use wirestack.Ethernet.{EthernetFrame, parse_ethernet_frame}
use wirestack.Ipv4.{Ipv4Packet, parse_ipv4_packet}
use wirestack.Icmp.{IcmpEcho, echo_request, echo_reply, parse_icmp_echo}
use wirestack.ArpCache.{expire, expire_entries, begin_resolution, insert, lookup}
use wirestack.Http.Chars.{is_control_byte}
use wirestack.Http.Response.{make_not_found_response, serialize_http_response, select_response}
use wirestack.HttpClient.Response.Exchange.{response_head}
use wirestack.HttpClient.Session.{HttpClientSession}
use wirestack.TcpConnection.Key.{TcpConnectionKey, TcpReceiveResult, no_result}
use wirestack.TcpConnection.Table.{half_open_count}
use wirestack.Common.{◌⊎◌}
use wirestack.Tcp.Segment.{TcpSegment}
use wirestack.TcpConnection.State.{new_connection, established}
use wirestack.EventLoop.Arp.{Frames, Host, resolve_neighbor, arp_frame, handle_arp}
use wirestack.EventLoop.Arp.Resolve.{resolution_succeeds}
use wirestack.EventLoop.Arp.Exchange.{IsHost, request_packet, reply_packet, frame_of}
use wirestack.TcpConnection.Api.{make_outgoing_data, begin_close, enqueue}
use wirestack.TcpConnection.Key.{key_equal}
use wirestack.TcpConnection.Schedule.{app_owned_bytes, pending_bytes}
use wirestack.Common.Text.{same_text, to_string, decimal_upto}
use wirestack.Http.Response.{status_line}
use wirestack.EventLoop.Send.{send_all, send_if, frame_from, packet_from, protocol_icmp}
use wirestack.EventLoop.Icmp.Ping.{ping_answered}
use wirestack.EventLoop.State.{RuntimeOptions, Runtime, passive}
use wirestack.EventLoop.Start.{idle_runtime, new_cache, new_table, start}
use wirestack.EventLoop.Ipv4.{Readings, receive_frame, learn_sender}
use wirestack.EventLoop.Round.{RoundReadings}
use wirestack.EventLoop.Run.{run, run-bounded}
use wirestack.EventLoop.HttpServer.{session_of, serve}
use wirestack.EventLoop.HttpServer.Served.{request_in_parts, served_once}
use wirestack.HttpClient.Response.{parse_http_response, reject}
use wirestack.Common.Text.{find_text, is_prefix}
use wirestack.EventLoop.HttpClient.{
  ClientStep, parsed_session, start_request, finish, client_step, receive_response,
}
use wirestack.EventLoop.HttpClient.Outcome.{client_final, opened, stepped, response_in_parts}
use wirestack.Examples.Http.{fresh_session, request, request_read}

abbrev host_a : Host
host_a = record {
  ip = record { a0 = 10; a1 = 0; a2 = 0; a3 = 1 };
  mac = record { m0 = 2; m1 = 0; m2 = 0; m3 = 0; m4 = 0; m5 = 1 };
}

abbrev host_b : Host
host_b = record {
  ip = record { a0 = 10; a1 = 0; a2 = 0; a3 = 2 };
  mac = record { m0 = 2; m1 = 0; m2 = 0; m3 = 0; m4 = 0; m5 = 2 };
}

-- A ping from the second host to the first, with two bytes of data.
abbrev echo_bytes : List ℕ
echo_bytes = 8 ∷ 0 ∷ 246 ∷ 250 ∷ 0 ∷ 1 ∷ 0 ∷ 2 ∷ 1 ∷ 2 ∷ []

abbrev packet_bytes : List ℕ
packet_bytes =
    69 ∷ 0 ∷ 0 ∷ 30 ∷ 0 ∷ 1 ∷ 0 ∷ 0 ∷ 64 ∷ 1 ∷ 102 ∷ 220 ∷ 10 ∷ 0 ∷ 0 ∷ 2 ∷ 10 ∷ 0 ∷ 0 ∷ 1 ∷ 8 ∷ 0
    ∷ 246 ∷ 250 ∷ 0 ∷ 1 ∷ 0 ∷ 2 ∷ 1 ∷ 2 ∷ []

abbrev ping_bytes : List ℕ
ping_bytes =
    2 ∷ 0 ∷ 0 ∷ 0 ∷ 0 ∷ 1 ∷ 2 ∷ 0 ∷ 0 ∷ 0 ∷ 0 ∷ 2 ∷ 8 ∷ 0 ∷ 69 ∷ 0 ∷ 0 ∷ 30 ∷ 0 ∷ 1 ∷ 0 ∷ 0 ∷ 64 ∷ 1
    ∷ 102 ∷ 220 ∷ 10 ∷ 0 ∷ 0 ∷ 2 ∷ 10 ∷ 0 ∷ 0 ∷ 1 ∷ 8 ∷ 0 ∷ 246 ∷ 250 ∷ 0 ∷ 1 ∷ 0 ∷ 2 ∷ 1 ∷ 2 ∷ []

abbrev ping_frame : EthernetFrame
ping_frame = record {
  destination = host_a.mac;
  source = host_b.mac;
  ether_type = 0x0800;
  payload = packet_bytes;
}

abbrev ping_packet : Ipv4Packet
ping_packet = record {
  dscp_ecn = 0;
  identification = 1;
  ttl = 64;
  protocol = 1;
  source = host_b.ip;
  destination = host_a.ip;
  payload = echo_bytes;
}

abbrev ping : IcmpEcho
ping = record { type = echo_request; identifier = 1; sequence = 2; payload = 1 ∷ 2 ∷ [] }

ping_read :
    (parse_ethernet_frame ping_bytes ≡ ok ping_frame)
    × (parse_ipv4_packet packet_bytes ≡ ok ping_packet)
    × (parse_icmp_echo echo_bytes ≡ ok ping)
    × (ip_equal ping_packet.destination host_a.ip ≡ true)
unfolding parse_ethernet_frame parse_ipv4_packet parse_icmp_echo internet_checksum sum_words fold
    complement join16 ip_equal
ping_read = (refl, refl, refl, refl)

abbrev readings : Readings
readings = record { asked = 1; learned = 2; received = 3; draw = some 7 }

ping_answered_example :
    (answer xs payload : List ℕ) × (receive_frame host_a 0 readings ping_bytes idle_runtime
      ≡ (answer ∷ [], learn_sender ping_packet ping_frame 2 idle_runtime))
    × (parse_ethernet_frame answer ≡ ok (frame_from host_a host_b.mac xs))
    × (parse_ipv4_packet xs ≡ ok (packet_from host_a host_b.ip protocol_icmp payload))
    × (parse_icmp_echo payload ≡ ok (record ping { type = echo_reply }))
ping_answered_example =
    ping_answered host_a 0 readings ping_bytes ping_frame ping_packet ping idle_runtime
      (omega arith, omega arith, omega arith, omega arith, omega arith, omega arith)
      (omega arith, omega arith, omega arith, omega arith) (ground arith) ping_read.0 refl
      ping_read.1 (omega arith) ping_read.3 refl ping_read.2 refl

abbrev options : RuntimeOptions
options = record {
  mode = passive;
  destination_is_hostname = false;
  remote_ip = host_b.ip;
  hostname = [];
  remote_port = 0;
  source_port = 0;
  dns_server_ip = host_b.ip;
  dns_server_port = 0;
  target = [];
}

abbrev one_round : List (RoundReadings × Option (List ℕ))
one_round =
    (
      record {
        frame = readings;
        arp_polled = 4;
        dns_driven = 5;
        dns_looked = 6;
        dialled = 7;
        connect_draw = none;
        timers = 8;
      },
      some ping_bytes,
    )
    ∷ []

run-bounded_example :
    let after = run host_a options one_round (start host_a options 9 0).1 in
    (length after.arp_cache.entries ≤ 256)
    × (length after.tcp_connections.connections ≤ 1024)
    × (half_open_count after.tcp_connections.connections ≤ 256)
run-bounded_example = run-bounded host_a options 9 0 one_round

a_IsHost : IsHost host_a
a_IsHost = record {
  mac_bytes = (omega arith, omega arith, omega arith, omega arith, omega arith, omega arith);
  ip_bytes = (omega arith, omega arith, omega arith, omega arith);
  not_zero = ground arith;
  not_broadcast = ground arith;
}

b_IsHost : IsHost host_b
b_IsHost = record {
  mac_bytes = (omega arith, omega arith, omega arith, omega arith, omega arith, omega arith);
  ip_bytes = (omega arith, omega arith, omega arith, omega arith);
  not_zero = ground arith;
  not_broadcast = ground arith;
}

resolution_succeeds_example :
    let begun = (begin_resolution host_b.ip 0 (expire 0 new_cache)).1 in
    let question = arp_frame host_a broadcast (request_packet host_a host_b) in
    let answer = arp_frame host_b host_a.mac (reply_packet host_a host_b) in
    let asking = frame_of host_a broadcast (request_packet host_a host_b) in
    let answering = frame_of host_b host_a.mac (reply_packet host_a host_b) in
    (resolve_neighbor host_a host_b.ip 0 new_cache ≡ (none, question ∷ [], begun))
    × (parse_ethernet_frame question ≡ ok asking)
    × (handle_arp host_b asking 1 2 new_cache
        ≡ (answer ∷ [], insert host_a.ip host_a.mac 2 new_cache))
    × (parse_ethernet_frame answer ≡ ok answering)
    × ((handle_arp host_a answering 3 4 begun).0 ≡ [])
    × ((lookup host_b.ip 5 (handle_arp host_a answering 3 4 begun).1).0 ≡ some host_b.mac)
unfolding expire expire_entries Map.find
resolution_succeeds_example =
    resolution_succeeds host_a host_b 0 1 2 3 4 5 new_cache new_cache a_IsHost b_IsHost
      (ground arith) refl (omega arith) (omega arith)

abbrev connection_key : TcpConnectionKey
connection_key = record {
  local_ip = host_a.ip;
  local_port = 8080;
  remote_ip = host_b.ip;
  remote_port = 50000;
}

-- The first part of a request, and what is still missing.
abbrev first_part : Text
first_part = codes "GET /x HTTP/1.0\r\nHost: a:80\r\n"

abbrev last_part : Text
last_part = codes "Connection: close\r\n\r\n"

-- An established connection, without a session.
abbrev served_runtime : Runtime
served_runtime = record idle_runtime {
  tcp_connections = record new_table {
    connections =
        (
          connection_key,
          record (new_connection established 0) { snd_wnd = 1000; snd_nxt = 1; snd_una = 1 },
        )
        ∷ [];
  };
}

abbrev one_frame : TcpSegment → Frames
one_frame segment = (0 ∷ []) ∷ []

-- The same connection, with the first part of the request in its session.
abbrev half_runtime : Runtime
half_runtime = record served_runtime {
  http_sessions = (connection_key, record { buffer = first_part; responded = false }) ∷ [];
}

request_in_parts_example :
    let table = half_runtime.tcp_connections in
    let (sent, queued) =
      make_outgoing_data connection_key
        (serialize_http_response (select_response request))
        0
        table in
    let (closed, ended) = begin_close connection_key 0 queued in
    let (frames, after) =
      serve one_frame connection_key
        (record no_result { accepted_payload = last_part })
        0
        half_runtime in
    (session_of connection_key after.http_sessions
      ≡ record { buffer = first_part ++ last_part; responded = true })
    × (frames ≡ send_all one_frame sent.segments ++ send_if one_frame closed.fin)
    × (after.tcp_connections ≡ ended)
unfolding session_of Map.find key_equal ip_equal make_outgoing_data serialize_http_response
    status_line select_response same_text make_not_found_response to_string decimal_upto enqueue
    app_owned_bytes pending_bytes
request_in_parts_example =
    request_in_parts one_frame connection_key (record no_result { accepted_payload = last_part }) 0
      half_runtime first_part [] request refl refl (cc) refl request_read (λ whole. refl)

abbrev waiting_session : HttpClientSession
waiting_session = record fresh_session { response_buffer = response_head make_not_found_response }

response_in_parts_example :
    receive_response waiting_session (record no_result { accepted_payload = codes "Not" })
    ≡ record waiting_session {
      response_buffer = response_head make_not_found_response ++ codes "Not";
    }
unfolding make_not_found_response all is_control_byte
response_in_parts_example =
    response_in_parts waiting_session (record no_result { accepted_payload = codes "Not" })
      make_not_found_response 3 refl refl refl refl refl (cc) refl (omega arith) (omega arith)
      (omega arith) refl

-- The session after the peer has closed without a response.
abbrev closed_step : ClientStep
closed_step =
    client_step one_frame connection_key (record no_result { peer_closed = true }) 0 fresh_session
      new_table

client_final_example :
    let result : TcpReceiveResult = record no_result { accepted_payload = codes "more" } in
    let after = client_step one_frame connection_key result 1 closed_step.session new_table in
    (after.frames ≡ [])
    × (after.connections ≡ new_table)
    × (after.session.close_initiated ≡ true)
    × (after.session.status_code ≡ closed_step.session.status_code)
    × (after.session.body ≡ closed_step.session.body)
unfolding client_step start_request receive_response finish parsed_session parse_http_response
    find_text is_prefix reject
client_final_example =
    client_final one_frame connection_key (record no_result { accepted_payload = codes "more" }) 1
      closed_step.session new_table
      (stepped one_frame connection_key (record no_result { peer_closed = true }) 0 fresh_session
        new_table (opened fresh_session refl))
      refl refl

served_once_example :
    let after =
      (serve one_frame connection_key
        (record no_result { peer_closed = true })
        0
        served_runtime).1 in
    ((serve one_frame connection_key (record no_result { peer_closed = true }) 0 served_runtime).0
      ≡ [])
    ⊎ (((serve one_frame connection_key
            (record no_result { accepted_payload = first_part })
            1
            after).0
          ≡ [])
        × ((serve one_frame connection_key
              (record no_result { accepted_payload = first_part })
              1
              after).1.tcp_connections
            ≡ after.tcp_connections))
served_once_example =
    served_once one_frame connection_key (record no_result { peer_closed = true })
      (record no_result { accepted_payload = first_part }) 0 1 served_runtime
      (serve one_frame connection_key (record no_result { peer_closed = true }) 0 served_runtime).1
      refl
