-- ===== src/Dns/Session/Conclude.antt =====
-- What the outcome of the parse makes of a session.
use wirestack.Common.{◌≡◌, refl, arith, Option, none, Bool}
use wirestack.Common.{true, false}
use wirestack.Address.{Ipv4Address}
use wirestack.Dns.Response.Transaction.{Every, is_conclusive, Inconclusive}
use wirestack.Dns.Message.{Decoded, done, failed, fault, no_fuel}
use wirestack.Dns.Response.{
  DnsResponseOutcome, DnsResponseParseResult, wrong_transaction, wrong_question, malformed,
  truncated, resolved, no_answer, nx_domain, server_failure, refused,
}
use wirestack.Dns.Session.{DnsClientSession, is_pending, conclude, conclude_parsed}

-- A refused datagram changes nothing; an accepted one ends the session and its timer.
unfoldable pub Decides : DnsClientSession → Bool → DnsClientSession → Type 0
Decides session handled after =
    (handled ≡ false → after ≡ session)
    × (handled ≡ true → (is_pending after.state ≡ false) × (after.next_deadline ≡ none))
    × (after.transmit_count ≡ session.transmit_count)
    × (after.current_interval ≡ session.current_interval)

conclude-Decides :
    (s : DnsClientSession) (outcome : DnsResponseOutcome) (address : Option Ipv4Address)
    → Decides s (conclude s outcome address).0 (conclude s outcome address).1
unfolding conclude Decides is_pending
conclude-Decides s wrong_transaction a = ground arith
conclude-Decides s wrong_question a = ground arith
conclude-Decides s malformed a = ground arith
conclude-Decides s truncated a = ground arith
conclude-Decides s resolved a = ground arith
conclude-Decides s no_answer a = ground arith
conclude-Decides s nx_domain a = ground arith
conclude-Decides s server_failure a = ground arith
conclude-Decides s refused a = ground arith

pub conclude_parsed-Decides :
    (s : DnsClientSession) (d : Decoded DnsResponseParseResult)
    → Decides s (conclude_parsed s d).0 (conclude_parsed s d).1
unfolding Decides
conclude_parsed-Decides s (done r) = conclude-Decides s r.outcome r.address
conclude_parsed-Decides s failed = ground arith
conclude_parsed-Decides s fault = ground arith
conclude_parsed-Decides s no_fuel = ground arith

-- A message that is not conclusive is not accepted.
conclude-refused :
    (s : DnsClientSession) (outcome : DnsResponseOutcome) (address : Option Ipv4Address)
    → is_conclusive outcome ≡ false
    → (conclude s outcome address).0 ≡ false
unfolding conclude
conclude-refused s wrong_transaction a h = refl
conclude-refused s wrong_question a h = refl
conclude-refused s malformed a h = refl
conclude-refused s truncated a h = refl
conclude-refused s resolved a h = cc
conclude-refused s no_answer a h = cc
conclude-refused s nx_domain a h = cc
conclude-refused s server_failure a h = cc
conclude-refused s refused a h = cc

pub conclude_parsed-refused :
    (s : DnsClientSession) (d : Decoded DnsResponseParseResult)
    → Every Inconclusive d
    → (conclude_parsed s d).0 ≡ false
unfolding Every
conclude_parsed-refused s (done r) h = conclude-refused s r.outcome r.address h
conclude_parsed-refused s failed h = refl
conclude_parsed-refused s fault h = refl
conclude_parsed-refused s no_fuel h = refl
