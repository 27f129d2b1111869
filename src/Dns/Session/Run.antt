-- ===== src/Dns/Session/Run.antt =====
-- A session over its life: how it ends, and what is sent until then.
use wirestack.Common.{ℕ, ◌+◌, ◌*◌, ◌≤◌, ◌≡◌, refl, min, arith, List, Option, none, some, Bool}
use wirestack.Common.{true, false, ltb, leb, Bool-cases, inl, inr}
use wirestack.Bytes.{read_big_endian16}
use wirestack.Common.{◌!=◌}
use wirestack.Address.{Ipv4Address}
use wirestack.Address.Laws.{ip_equal_iff}
use wirestack.Dns.Response.Transaction.{parse_dns_response-Inconclusive}
use wirestack.Dns.Hostname.{DnsQuery, serialize_dns_query}
use wirestack.Dns.Response.{parse_dns_response}
use wirestack.Dns.Session.{
  DnsClientSession, is_pending, begin_dns_query, poll_deadline, poll_dns_timeout, is_foreign,
  handle_dns_response, dns_initial_interval, dns_max_interval, dns_max_transmissions,
}
use wirestack.Dns.Session.Conclude.{Decides, conclude_parsed-Decides, conclude_parsed-refused}

-- What a datagram must be to be accepted.
unfoldable pub Matches : DnsClientSession → Ipv4Address → ℕ → ℕ → List ℕ → Type 0
Matches session source_ip source_port destination_port payload =
    (is_pending session.state ≡ true)
    × (source_ip ≡ session.server_ip)
    × (source_port ≡ session.server_port)
    × (destination_port ≡ session.local_port)
    × (read_big_endian16 payload 0 ≡ session.transaction_id)

own-Matches :
    (s : DnsClientSession) (source_ip : Ipv4Address) (source_port destination_port : ℕ)
    (payload : List ℕ)
    → is_pending s.state ≡ true
    → is_foreign s source_ip source_port destination_port ≡ false
    → (read_big_endian16 payload 0 != s.transaction_id) ≡ false
    → Matches s source_ip source_port destination_port payload
unfolding is_foreign Matches
own-Matches s source_ip source_port destination_port payload live own same =
    ground (arith, ip_equal_iff source_ip s.server_ip)

-- A datagram that a session accepts finds it pending, comes from the server's address and port to
-- the session's port, and starts with the query's transaction identifier; it ends the session and
-- its timer. Every other datagram changes nothing. The schedule of the retransmissions is kept in
-- both cases.
pub handle_dns_response-Decides :
    (s : DnsClientSession) (source_ip : Ipv4Address) (source_port destination_port : ℕ)
    (payload : List ℕ)
    → let (handled, after) = handle_dns_response s source_ip source_port destination_port payload in
      Decides s handled after
      × (handled ≡ true → Matches s source_ip source_port destination_port payload)
unfolding handle_dns_response Decides
handle_dns_response-Decides s source_ip source_port destination_port payload =
    let parsed = parse_dns_response payload s.transaction_id s.hostname in
    let decided = conclude_parsed-Decides s parsed in
    elim (Bool-cases (is_pending s.state)) [
      | inr over ↦ ground arith
      | inl live ↦ elim (Bool-cases (is_foreign s source_ip source_port destination_port)) [
        | inl foreign ↦ rw (live, foreign) (ground arith)
        | inr own ↦
            rw (live, own)
              (
                decided,
                λ h. elim (Bool-cases (read_big_endian16 payload 0 != s.transaction_id)) [
                  | inl other ↦ absurd (
                      cc (
                        conclude_parsed-refused s parsed (
                            parse_dns_response-Inconclusive payload s.transaction_id s.hostname
                              other),
                        h,
                      ))
                  | inr same ↦
                      own-Matches s source_ip source_port destination_port payload live own same
                ],
              )
      ]
    ]

-- How many datagrams a poll hands out for sending.
abbrev pub emitted : Option (List ℕ) → ℕ
emitted none = 0
emitted (some bytes) = 1

-- A session that was begun, and then polled and handed datagrams at any times, with the number of
-- datagrams that all these calls have handed out for sending.
pub data Reach : ℕ → DnsClientSession → Type 0 where
  begun :
      (s : DnsClientSession) (query : DnsQuery) (now : ℕ) (bytes : List ℕ)
      → serialize_dns_query query ≡ some bytes
      → Reach (emitted (begin_dns_query s query now).0) (begin_dns_query s query now).1
  polled :
      (sent : ℕ) (s : DnsClientSession) (now : ℕ)
      → Reach sent s
      → Reach (sent + emitted (poll_dns_timeout s now).0.retransmit) (poll_dns_timeout s now).1
  received :
      (sent : ℕ) (s : DnsClientSession) (source_ip : Ipv4Address) (source_port destination_port : ℕ)
      (payload : List ℕ)
      → Reach sent s
      → Reach sent (handle_dns_response s source_ip source_port destination_port payload).1

unfoldable pub is_armed : Option ℕ → Bool
is_armed none = false
is_armed (some deadline) = true

-- One to three datagrams were sent, and a timer runs exactly while an answer is awaited.
unfoldable pub IsScheduled : ℕ → DnsClientSession → Type 0
IsScheduled sent s =
    (s.transmit_count ≡ sent)
    × (1 ≤ sent)
    × (sent ≤ dns_max_transmissions)
    × (s.current_interval ≤ dns_max_interval)
    × (is_armed s.next_deadline ≡ is_pending s.state)

-- A poll at or after the deadline of a session that has transmissions left.
IsWaiting : DnsClientSession → List ℕ → ℕ → ℕ → ℕ → Type 0
IsWaiting s bytes count interval deadline =
    (is_pending s.state ≡ true)
    × (s.query_bytes ≡ bytes)
    × (s.transmit_count ≡ count)
    × (s.current_interval ≡ interval)
    × (s.next_deadline ≡ some deadline)

retransmits :
    (s : DnsClientSession) (bytes : List ℕ) (count interval deadline now : ℕ)
    → IsWaiting s bytes count interval deadline
    → deadline ≤ now
    → count + 1 ≤ dns_max_transmissions
    → let longer = min (interval * 2) dns_max_interval in
      ((poll_dns_timeout s now).0.retransmit ≡ some bytes)
      × IsWaiting (poll_dns_timeout s now).1 bytes (count + 1) longer (now + longer)
unfolding poll_dns_timeout poll_deadline IsWaiting
retransmits s bytes count interval deadline now h due left =
    let (live, same, sent, wait, armed) = h in
    let late : ltb now deadline ≡ false = ground arith in
    let more : leb dns_max_transmissions s.transmit_count ≡ false = ground arith in
    rw (live, armed, late, more) (ground (arith, live, same, sent, wait))

times_out :
    (s : DnsClientSession) (bytes : List ℕ) (interval deadline now : ℕ)
    → IsWaiting s bytes dns_max_transmissions interval deadline
    → deadline ≤ now
    → ((poll_dns_timeout s now).0.timed_out ≡ true)
      × (is_pending (poll_dns_timeout s now).1.state ≡ false)
unfolding poll_dns_timeout poll_deadline IsWaiting is_pending
times_out s bytes interval deadline now h due =
    let (live, same, sent, wait, armed) = h in
    let late : ltb now deadline ≡ false = ground arith in
    let full : leb dns_max_transmissions s.transmit_count ≡ true = ground arith in
    rw (live, armed, late, full) (refl, refl)

begin-IsWaiting :
    (s : DnsClientSession) (query : DnsQuery) (bytes : List ℕ) (now : ℕ)
    → serialize_dns_query query ≡ some bytes
    → IsWaiting
        (begin_dns_query s query now).1
        bytes
        1
        dns_initial_interval
        (now + dns_initial_interval)
unfolding begin_dns_query IsWaiting is_pending
begin-IsWaiting s query bytes now sent = rw (begin_dns_query, sent) (refl, refl, refl, refl, refl)

-- A query that is never answered: polled after one second, again after two and again after four,
-- each at the earliest, it is sent twice more with the same bytes and then ends as timed out.
pub unanswered_query_ends :
    (s : DnsClientSession) (query : DnsQuery) (bytes : List ℕ) (t0 t1 t2 t3 : ℕ)
    → serialize_dns_query query ≡ some bytes
    → t0 + dns_initial_interval ≤ t1
    → t1 + 2 * dns_initial_interval ≤ t2
    → t2 + dns_max_interval ≤ t3
    → let first = poll_dns_timeout (begin_dns_query s query t0).1 t1 in
      let second = poll_dns_timeout first.1 t2 in
      let third = poll_dns_timeout second.1 t3 in
      (first.0.retransmit ≡ some bytes)
      × (second.0.retransmit ≡ some bytes)
      × (third.0.timed_out ≡ true)
      × (is_pending third.1.state ≡ false)
unanswered_query_ends s query bytes t0 t1 t2 t3 sent h1 h2 h3 =
    let s0 = (begin_dns_query s query t0).1 in
    let s1 = (poll_dns_timeout s0 t1).1 in
    let s2 = (poll_dns_timeout s1 t2).1 in
    let wait1 = dns_initial_interval in
    let wait2 = min (wait1 * 2) dns_max_interval in
    let wait3 = min (wait2 * 2) dns_max_interval in
    let (again, waiting1) =
      retransmits s0 bytes 1 wait1 (t0 + wait1) t1 (begin-IsWaiting s query bytes t0 sent) h1
        (omega arith) in
    let (last, waiting2) =
      retransmits s1 bytes 2 wait2 (t1 + wait2) t2 waiting1 (omega arith) (omega arith) in
    let (over, ended) = times_out s2 bytes wait3 (t2 + wait3) t3 waiting2 (omega arith) in
    (again, last, over, ended)
