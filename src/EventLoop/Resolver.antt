-- ===== src/EventLoop/Resolver.antt =====
-- The DNS part of a round: the first query, and the retries that are due.
use wirestack.Common.{ℕ, List, [], ◌++◌, true, not}
use wirestack.Common.{if◌then◌else◌, Option, none, some}
use wirestack.Address.{MacAddress}
use wirestack.ArpCache.{lookup}
use wirestack.Dns.Hostname.{DnsQuery}
use wirestack.Dns.Session.{is_pending, begin_dns_query, poll_dns_timeout}
use wirestack.EventLoop.Arp.{Host, Frames, resolve_neighbor}
use wirestack.EventLoop.Send.{send_udp_packet}
use wirestack.EventLoop.State.{Runtime, DnsRuntimeState}

abbrev dns_packet : Host → DnsRuntimeState → MacAddress → List ℕ → Frames
dns_packet host state mac bytes =
    send_udp_packet host state.session.server_ip mac state.session.local_port
      state.session.server_port bytes

-- The first query, once the server's MAC address is known.
unfoldable pub send_query : Host → ℕ → DnsRuntimeState → MacAddress → Runtime → Frames × Runtime
send_query host now state mac runtime =
    let query : DnsQuery = record {
      transaction_id = state.transaction_id;
      hostname = state.session.hostname;
    } in
    let (bytes, session) = begin_dns_query state.session query now in
    let begun = record state { session = session; query_started = true } in
    elim bytes [
      | none ↦ ([], runtime)
      | some sent ↦ (dns_packet host begun mac sent, record runtime { dns_state = some begun })
    ]

unfoldable pub start_query : Host → ℕ → DnsRuntimeState → Runtime → Frames × Runtime
start_query host now state runtime =
    let (mac, asked, cache) = resolve_neighbor host state.session.server_ip now runtime.arp_cache in
    let resolved = record runtime { arp_cache = cache } in
    elim mac [
      | none ↦ (asked, resolved)
      | some known ↦
          let (frames, after) = send_query host now state known resolved in (asked ++ frames, after)
    ]

abbrev retry_packet : Host → DnsRuntimeState → Option MacAddress → List ℕ → Frames
retry_packet host state none bytes = []
retry_packet host state (some mac) bytes = dns_packet host state mac bytes

-- The clock is read by the poll and by the cache's `lookup`.
unfoldable pub retry_query : Host → ℕ → ℕ → DnsRuntimeState → Runtime → Frames × Runtime
retry_query host now looked state runtime =
    let (polled, session) = poll_dns_timeout state.session now in
    let after = record state { session = session } in
    let kept = record runtime { dns_state = some after } in
    let (mac, cache) = lookup session.server_ip looked runtime.arp_cache in
    elim polled.retransmit [
      | none ↦ ([], kept)
      | some bytes ↦ (retry_packet host after mac bytes, record kept { arp_cache = cache })
    ]

unfoldable pub drive_dns : Host → ℕ → ℕ → Runtime → Frames × Runtime
drive_dns host now looked runtime = elim runtime.dns_state [
  | none ↦ ([], runtime)
  | some state ↦
      if not (is_pending state.session.state)
      then ([], runtime)
      else if not state.query_started
      then start_query host now state runtime
      else retry_query host now looked state runtime
]
