-- ===== src/Dns/Response.antt =====
-- `parseDnsResponse`: the header, the question, and the records.
pub mod Safe
pub mod Transaction
use wirestack.Common.{
  ℕ, zero, suc, ◌+◌, ◌/◌, ◌^◌, bit_and, Bool, List, Option, none, some, length, not,
}
use wirestack.Common.{if◌then◌else◌, ltb, ◌==◌, ◌!=◌, ◌&&◌, ◌||◌, true, false}
use wirestack.Address.{Ipv4Address, read_ipv4_address}
use wirestack.Dns.Hostname.{max_dns_message_size}
use wirestack.Common.Text.{same_text}
use wirestack.Dns.Message.{
  Decoded, done, failed, fault, no_fuel, ◌>>=◌, read_bytes, read_byte, read_u16, decode_name,
  ResourceRecordHeader, decode_resource_record, dns_header_size, max_dns_record_count,
  NameDecodeResult,
}

pub data DnsResponseOutcome : Type 0 where
  resolved no_answer nx_domain server_failure refused malformed truncated : DnsResponseOutcome
  wrong_transaction wrong_question : DnsResponseOutcome

pub record DnsResponseParseResult : Type 0 where
  pub outcome : DnsResponseOutcome
  pub address : Option Ipv4Address

abbrev pub without_address : DnsResponseOutcome → DnsResponseParseResult
without_address outcome = record { outcome = outcome; address = none }

pub record DnsHeader : Type 0 where
  pub id : ℕ
  pub flags1 : ℕ
  pub flags2 : ℕ
  pub qdcount : ℕ
  pub ancount : ℕ
  pub nscount : ℕ
  pub arcount : ℕ

unfoldable pub read_dns_header : List ℕ → Decoded DnsHeader
read_dns_header bytes = do
  id ← read_u16 bytes 0
  flags1 ← read_byte bytes 2
  flags2 ← read_byte bytes 3
  qdcount ← read_u16 bytes 4
  ancount ← read_u16 bytes 6
  nscount ← read_u16 bytes 8
  arcount ← read_u16 bytes 10
  done record {
    id = id;
    flags1 = flags1;
    flags2 = flags2;
    qdcount = qdcount;
    ancount = ancount;
    nscount = nscount;
    arcount = arcount;
  }

abbrev pub is_query : DnsHeader → Bool
is_query header = bit_and header.flags1 0x80 == 0

abbrev pub is_truncated : DnsHeader → Bool
is_truncated header = bit_and header.flags1 0x02 != 0

abbrev pub opcode : DnsHeader → ℕ
opcode header = bit_and (header.flags1 / 2 ^ 3) 0x0f

abbrev pub rcode : DnsHeader → ℕ
rcode header = bit_and header.flags2 0x0f

-- The answer record that is taken: the first of type A and class IN for the host.
unfoldable pub is_wanted : List ℕ → ResourceRecordHeader → Option Ipv4Address → Bool
is_wanted expected_hostname rr (some address) = false
is_wanted expected_hostname rr none =
    rr.type == 1 && rr.rr_class == 1 && rr.rdlength == 4 && same_text rr.name expected_hostname

unfoldable pub take_answer :
    List ℕ → List ℕ → ResourceRecordHeader → Option Ipv4Address → Decoded (Option Ipv4Address)
take_answer bytes expected_hostname rr found =
    let octets = read_bytes bytes rr.rdata_offset 4 in
    if is_wanted expected_hostname rr found
    then octets >>= (λ o. done (some (read_ipv4_address o 0)))
    else done found

unfoldable pub read_answers :
    ℕ → List ℕ → List ℕ → ℕ → Option Ipv4Address → Decoded (ℕ × Option Ipv4Address)
read_answers zero bytes expected_hostname cursor found = done (cursor, found)
read_answers (suc count) bytes expected_hostname cursor found = do
  rr ← decode_resource_record bytes cursor
  found_now ← take_answer bytes expected_hostname rr found
  read_answers count bytes expected_hostname rr.next_offset found_now

unfoldable pub skip_records : ℕ → List ℕ → ℕ → Decoded ℕ
skip_records zero bytes cursor = done cursor
skip_records (suc count) bytes cursor = do
  rr ← decode_resource_record bytes cursor
  skip_records count bytes rr.next_offset

unfoldable pub resolution : Option Ipv4Address → DnsResponseParseResult
resolution none = without_address no_answer
resolution (some address) = record { outcome = resolved; address = some address }

unfoldable pub parse_records : List ℕ → List ℕ → DnsHeader → ℕ → Decoded DnsResponseParseResult
parse_records bytes expected_hostname header cursor = do
  answers ← read_answers header.ancount bytes expected_hostname cursor none
  last ← skip_records (header.nscount + header.arcount) bytes answers.0
  done (resolution answers.1)

-- The tests between the question and the records.
unfoldable pub judge :
    List ℕ → ℕ → List ℕ → DnsHeader → List ℕ → ℕ → ℕ → ℕ → Decoded DnsResponseParseResult
judge bytes expected_id expected_hostname header qname qtype qclass cursor =
    if header.id != expected_id
    then done (without_address wrong_transaction)
    else if not (same_text qname expected_hostname) || qtype != 1 || qclass != 1
    then done (without_address wrong_question)
    else if is_truncated header
    then done (without_address truncated)
    else if rcode header == 3
    then done (without_address nx_domain)
    else if rcode header == 5
    then done (without_address refused)
    else if rcode header == 2
    then done (without_address server_failure)
    else if rcode header != 0
    then failed
    else parse_records bytes expected_hostname header cursor

unfoldable pub read_question :
    List ℕ → ℕ → List ℕ → DnsHeader → List ℕ → ℕ → Decoded DnsResponseParseResult
read_question bytes expected_id expected_hostname header qname cursor = do
  qtype ← read_u16 bytes cursor
  qclass ← read_u16 bytes (cursor + 2)
  judge bytes expected_id expected_hostname header qname qtype qclass (cursor + 4)

unfoldable pub parse_fixed_question :
    List ℕ → ℕ → List ℕ → DnsHeader → List ℕ → ℕ → Decoded DnsResponseParseResult
parse_fixed_question bytes expected_id expected_hostname header qname cursor =
    if ltb (length bytes) (cursor + 4)
    then failed
    else read_question bytes expected_id expected_hostname header qname cursor

unfoldable pub parse_question : List ℕ → ℕ → List ℕ → DnsHeader → Decoded DnsResponseParseResult
parse_question bytes expected_id expected_hostname header = do
  qname ← decode_name bytes dns_header_size
  parse_fixed_question bytes expected_id expected_hostname header qname.name
      (dns_header_size + qname.bytes_in_record)

unfoldable pub parse_message : List ℕ → ℕ → List ℕ → DnsHeader → Decoded DnsResponseParseResult
parse_message bytes expected_id expected_hostname header =
    if is_query header
    then failed
    else if opcode header != 0
    then failed
    else if header.qdcount != 1
    then failed
    else if ltb max_dns_record_count (header.ancount + header.nscount + header.arcount)
    then failed
    else parse_question bytes expected_id expected_hostname header

-- `return malformed`
abbrev pub malformed_if_failed : Decoded DnsResponseParseResult → Decoded DnsResponseParseResult
malformed_if_failed (done result) = done result
malformed_if_failed failed = done (without_address malformed)
malformed_if_failed fault = fault
malformed_if_failed no_fuel = no_fuel

unfoldable pub parse_sized : List ℕ → ℕ → List ℕ → Decoded DnsResponseParseResult
parse_sized bytes expected_transaction_id expected_hostname = do
  header ← read_dns_header bytes
  parse_message bytes expected_transaction_id expected_hostname header

unfoldable pub parse_dns_response : List ℕ → ℕ → List ℕ → Decoded DnsResponseParseResult
parse_dns_response bytes expected_transaction_id expected_hostname =
    if ltb (length bytes) dns_header_size || ltb max_dns_message_size (length bytes)
    then done (without_address malformed)
    else malformed_if_failed (parse_sized bytes expected_transaction_id expected_hostname)
