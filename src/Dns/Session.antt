-- ===== src/Dns/Session.antt =====
-- The client session: `beginDnsQuery`, `pollDnsTimeout` and `handleDnsResponse`. Each returns its
-- result and the session after it.
pub mod Conclude
pub mod Run
use wirestack.Common.{ℕ, ◌+◌, ◌*◌, min, List, Option, none, some, Bool, true, false, not}
use wirestack.Common.{if◌then◌else◌, ltb, leb, ◌!=◌, ◌||◌}
use wirestack.Address.{Ipv4Address, ip_equal}
use wirestack.Dns.Hostname.{DnsQuery, serialize_dns_query}
use wirestack.Dns.Message.{Decoded, done, failed, fault, no_fuel}
use wirestack.Dns.Response.{
  DnsResponseOutcome, DnsResponseParseResult, wrong_transaction, wrong_question, malformed,
  truncated, resolved, no_answer, nx_domain, server_failure, refused, parse_dns_response,
}

-- Intervals are nanoseconds, like the clock.
abbrev pub dns_initial_interval : ℕ
dns_initial_interval = 1000 * 1000000

abbrev pub dns_max_interval : ℕ
dns_max_interval = 4000 * 1000000

abbrev pub dns_max_transmissions : ℕ
dns_max_transmissions = 3

pub data DnsClientState : Type 0 where
  pending session_resolved session_failed : DnsClientState

pub record DnsClientSession : Type 0 where
  pub server_ip : Ipv4Address
  pub server_port : ℕ
  pub local_port : ℕ
  pub hostname : List ℕ
  pub transaction_id : ℕ
  pub query_bytes : List ℕ
  pub transmit_count : ℕ
  pub next_deadline : Option ℕ
  pub current_interval : ℕ
  pub state : DnsClientState
  pub resolved_address : Option Ipv4Address
  pub failure_reason : Option DnsResponseOutcome

unfoldable pub is_pending : DnsClientState → Bool
is_pending pending = true
is_pending session_resolved = false
is_pending session_failed = false

unfoldable pub begin_dns_query :
    DnsClientSession → DnsQuery → ℕ → Option (List ℕ) × DnsClientSession
begin_dns_query session query now = elim (serialize_dns_query query) [
  | none ↦ (none, session)
  | some bytes ↦ (
    some bytes,
    record session {
      hostname = query.hostname;
      transaction_id = query.transaction_id;
      query_bytes = bytes;
      transmit_count = 1;
      current_interval = dns_initial_interval;
      next_deadline = some (now + dns_initial_interval);
      state = pending;
      resolved_address = none;
      failure_reason = none;
    },
  )
]

pub record DnsPollResult : Type 0 where
  pub retransmit : Option (List ℕ)
  pub timed_out : Bool

abbrev pub no_action : DnsPollResult
no_action = record { retransmit = none; timed_out = false }

-- From the test of the deadline on.
unfoldable pub poll_deadline : DnsClientSession → ℕ → ℕ → DnsPollResult × DnsClientSession
poll_deadline session now deadline =
    let interval = min (session.current_interval * 2) dns_max_interval in
    if ltb now deadline
    then (no_action, session)
    else if leb dns_max_transmissions session.transmit_count
    then (
      record { retransmit = none; timed_out = true },
      record session { state = session_failed; failure_reason = none; next_deadline = none },
    )
    else (
      record { retransmit = some session.query_bytes; timed_out = false },
      record session {
        transmit_count = session.transmit_count + 1;
        current_interval = interval;
        next_deadline = some (now + interval);
      },
    )

unfoldable pub poll_dns_timeout : DnsClientSession → ℕ → DnsPollResult × DnsClientSession
poll_dns_timeout session now =
    if not (is_pending session.state) then (no_action, session) else elim session.next_deadline [
      | none ↦ (no_action, session)
      | some deadline ↦ poll_deadline session now deadline
    ]

-- The switch over the outcome.
unfoldable pub conclude :
    DnsClientSession → DnsResponseOutcome → Option Ipv4Address → Bool × DnsClientSession
conclude session outcome address =
    let ended = record session {
      state = session_failed;
      failure_reason = some outcome;
      next_deadline = none;
    } in
    elim outcome [
      | wrong_transaction ↦ (false, session)
      | wrong_question ↦ (false, session)
      | malformed ↦ (false, session)
      | truncated ↦ (false, session)
      | resolved ↦ (
        true,
        record session {
          state = session_resolved;
          resolved_address = address;
          next_deadline = none;
        },
      )
      | no_answer ↦ (true, ended)
      | nx_domain ↦ (true, ended)
      | server_failure ↦ (true, ended)
      | refused ↦ (true, ended)
    ]

-- A parse that does not return, which does not happen, leaves the session.
abbrev pub conclude_parsed :
    DnsClientSession → Decoded DnsResponseParseResult → Bool × DnsClientSession
conclude_parsed session (done result) = conclude session result.outcome result.address
conclude_parsed session failed = (false, session)
conclude_parsed session fault = (false, session)
conclude_parsed session no_fuel = (false, session)

unfoldable pub is_foreign : DnsClientSession → Ipv4Address → ℕ → ℕ → Bool
is_foreign session source_ip source_port destination_port =
    not (ip_equal source_ip session.server_ip)
    || source_port != session.server_port
    || destination_port != session.local_port

unfoldable pub handle_dns_response :
    DnsClientSession → Ipv4Address → ℕ → ℕ → List ℕ → Bool × DnsClientSession
handle_dns_response session source_ip source_port destination_port payload =
    if not (is_pending session.state)
    then (false, session)
    else if is_foreign session source_ip source_port destination_port
    then (false, session)
    else conclude_parsed session
        (parse_dns_response payload session.transaction_id session.hostname)
