-- ===== src/Examples/Dns.antt =====
-- The resolver at a concrete query and its answer.
use wirestack.Common.{ℕ, ◌≡◌, refl, arith, List, [], ◌∷◌, ◌++◌, some, none, true, false, err}
use wirestack.Bytes.{join16, join32, byte_of}
use wirestack.Address.{Ipv4Address}
use wirestack.Common.Text.{tolower, same_text, all, split}
use wirestack.Dns.Hostname.{
  DnsQuery, serialize_dns_query, normalize_hostname, empty_label, normalize_labels, labels_of,
  is_normalized, encode_labels, label_error, append_label, is_ldh_char, starts_with_hyphen,
  ends_with_hyphen,
}
use wirestack.Dns.Message.{
  done, decode_name, decode_loop, decode_round, decode_tagged, decode_pointer, follow_pointer,
  append_name, read_bytes, decode_resource_record, decode_fields, decode_fixed_fields,
  checked_header,
}
use wirestack.Dns.RoundTrip.{decode_name-encode_labels, IsLabel, extend}
use wirestack.Dns.Response.{
  DnsResponseParseResult, parse_dns_response, resolved, parse_sized, read_dns_header, parse_message,
  parse_question, parse_fixed_question, read_question, judge, parse_records, read_answers,
  take_answer, is_wanted, skip_records, resolution,
}
use wirestack.Dns.Response.Safe.{IsCoherent, parse_dns_response-settles}
use wirestack.Dns.Session.{
  DnsClientSession, pending, is_pending, begin_dns_query, poll_dns_timeout, handle_dns_response,
  dns_initial_interval,
}
use wirestack.Dns.Session.Conclude.{Decides}
use wirestack.Dns.Session.Run.{Matches, handle_dns_response-Decides, unanswered_query_ends}

-- "a.b"
abbrev host : List ℕ
host = 97 ∷ 46 ∷ 98 ∷ []

abbrev query : DnsQuery
query = record { transaction_id = 7; hostname = host }

abbrev query_message : List ℕ
query_message =
    0 ∷ 7 ∷ 1 ∷ 0 ∷ 0 ∷ 1 ∷ 0 ∷ 0 ∷ 0 ∷ 0 ∷ 0 ∷ 0 ∷ 1 ∷ 97 ∷ 1 ∷ 98 ∷ 0 ∷ 0 ∷ 1 ∷ 0 ∷ 1 ∷ []

query_serialized : serialize_dns_query query ≡ some query_message
unfolding serialize_dns_query is_normalized normalize_hostname normalize_labels labels_of split
    label_error append_label all is_ldh_char tolower starts_with_hyphen ends_with_hyphen same_text
    encode_labels byte_of
query_serialized = refl

-- "A..b" has an empty label.
empty_label_refused : normalize_hostname (65 ∷ 46 ∷ 46 ∷ 98 ∷ []) ≡ err empty_label
unfolding normalize_hostname normalize_labels labels_of split label_error append_label all
    is_ldh_char tolower starts_with_hyphen ends_with_hyphen
empty_label_refused = refl

-- The answer 1.2.3.4, its name a pointer to the question's.
abbrev answer_message : List ℕ
answer_message =
    0 ∷ 7 ∷ 0x81 ∷ 0x80 ∷ 0 ∷ 1 ∷ 0 ∷ 1 ∷ 0 ∷ 0 ∷ 0 ∷ 0 ∷ 1 ∷ 97 ∷ 1 ∷ 98 ∷ 0 ∷ 0 ∷ 1 ∷ 0 ∷ 1 ∷ 0xc0
    ∷ 12 ∷ 0 ∷ 1 ∷ 0 ∷ 1 ∷ 0 ∷ 0 ∷ 0 ∷ 60 ∷ 0 ∷ 4 ∷ 1 ∷ 2 ∷ 3 ∷ 4 ∷ []

abbrev answer : Ipv4Address
answer = record { a0 = 1; a1 = 2; a2 = 3; a3 = 4 }

answer_parsed :
    parse_dns_response answer_message 7 host
    ≡ done record { outcome = resolved; address = some answer }
unfolding parse_dns_response parse_sized read_dns_header parse_message parse_question
    parse_fixed_question read_question judge parse_records read_answers take_answer is_wanted
    skip_records resolution decode_name decode_loop decode_round decode_tagged decode_pointer
    follow_pointer append_name read_bytes decode_resource_record decode_fields decode_fixed_fields
    checked_header same_text tolower join16 join32
answer_parsed = refl

decode_name-encode_labels_example :
    decode_name ((0 ∷ 7 ∷ []) ++ (encode_labels ((97 ∷ []) ∷ (98 ∷ []) ∷ []) ++ (0 ∷ 0 ∷ 1 ∷ []))) 2
    ≡ done record { name = host; bytes_in_record = 5 }
unfolding encode_labels extend IsLabel tolower
decode_name-encode_labels_example =
    decode_name-encode_labels (0 ∷ 7 ∷ []) (0 ∷ 1 ∷ []) ((97 ∷ []) ∷ (98 ∷ []) ∷ [])
      ((omega arith, omega arith, refl), ((omega arith, omega arith, refl), tt)) (omega arith)

parse_dns_response-settles_example :
    (r : DnsResponseParseResult) × (parse_dns_response answer_message 7 host ≡ done r)
    × IsCoherent r
parse_dns_response-settles_example = parse_dns_response-settles answer_message 7 host

abbrev server_ip : Ipv4Address
server_ip = record { a0 = 10; a1 = 0; a2 = 0; a3 = 1 }

abbrev idle_session : DnsClientSession
idle_session = record {
  server_ip = server_ip;
  server_port = 53;
  local_port = 53000;
  hostname = [];
  transaction_id = 0;
  query_bytes = [];
  transmit_count = 0;
  next_deadline = none;
  current_interval = dns_initial_interval;
  state = pending;
  resolved_address = none;
  failure_reason = none;
}

abbrev waiting_session : DnsClientSession
waiting_session = record idle_session {
  hostname = host;
  transaction_id = 7;
  query_bytes = query_message;
  transmit_count = 1;
  next_deadline = some 1000000000;
}

handle_dns_response-Decides_example :
    let (handled, after) = handle_dns_response waiting_session server_ip 53 53000 answer_message in
    Decides waiting_session handled after
    × (handled ≡ true → Matches waiting_session server_ip 53 53000 answer_message)
handle_dns_response-Decides_example =
    handle_dns_response-Decides waiting_session server_ip 53 53000 answer_message

unanswered_query_ends_example :
    let first = poll_dns_timeout (begin_dns_query idle_session query 0).1 1000000000 in
    let second = poll_dns_timeout first.1 3000000000 in
    let third = poll_dns_timeout second.1 7000000000 in
    (first.0.retransmit ≡ some query_message)
    × (second.0.retransmit ≡ some query_message)
    × (third.0.timed_out ≡ true)
    × (is_pending third.1.state ≡ false)
unanswered_query_ends_example =
    unanswered_query_ends idle_session query query_message 0 1000000000 3000000000 7000000000
      query_serialized (omega arith) (omega arith) (omega arith)
