-- ===== src/Dns/Response/Safe.antt =====
-- Parsing a response reads nothing outside the packet and ends.
use wirestack.Common.{ℕ, zero, suc, ◌+◌, ◌≤◌, ◌≡◌, refl, arith, List, Option, none, some, length}
use wirestack.Common.{Bool, true, false, ltb, ◌||◌, Bool-cases, inl, inr}
use wirestack.Address.{Ipv4Address}
use wirestack.Dns.Hostname.{max_dns_message_size}
use wirestack.Dns.Message.{
  Decoded, done, failed, fault, no_fuel, ◌>>=◌, read_bytes, decode_name, ResourceRecordHeader,
  decode_resource_record, decode_fields, decode_fixed_fields, checked_header, dns_header_size,
}
use wirestack.Dns.Response.{
  DnsHeader, DnsResponseParseResult, DnsResponseOutcome, resolved, without_address, malformed,
  is_wanted, take_answer, read_answers, skip_records, resolution, parse_records, judge,
  read_question, parse_fixed_question, parse_question, parse_message, parse_sized,
  parse_dns_response, read_dns_header, malformed_if_failed,
}
use wirestack.Dns.Safe.{Settles, IsDecoded, read_bytes-Settles, decode_name-Settles}

bind-Settles :
    {A B : Type 0} (P : A → Type 0) (Q : B → Type 0) (d : Decoded A) (f : A → Decoded B)
    → Settles P d
    → ((a : A) → P a → Settles Q (f a))
    → Settles Q (d >>= f)
unfolding Settles
bind-Settles P Q (done a) f h k = k a h
bind-Settles P Q failed f h k = tt
bind-Settles P Q fault f h k = absurd h
bind-Settles P Q no_fuel f h k = absurd h

-- After a read that lies within the packet.
after_read :
    {B : Type 0} (Q : B → Type 0) (packet : List ℕ) (offset n : ℕ) (f : List ℕ → Decoded B)
    → offset + n ≤ length packet
    → ((bytes : List ℕ) → Settles Q (f bytes))
    → Settles Q (read_bytes packet offset n >>= f)
after_read Q packet offset n f h k =
    bind-Settles (λ bytes. length bytes ≡ n) Q (read_bytes packet offset n) f
      (read_bytes-Settles packet offset n h) (λ bytes same. k bytes)

-- A record ends within the packet, and its data lies within it.
IsHeader : List ℕ → ResourceRecordHeader → Type 0
IsHeader packet rr =
    (rr.rdata_offset + rr.rdlength ≡ rr.next_offset) × (rr.next_offset ≤ length packet)

checked_header-Settles :
    (packet : List ℕ) (rr : ResourceRecordHeader)
    → rr.rdata_offset + rr.rdlength ≡ rr.next_offset
    → Settles (IsHeader packet) (checked_header packet rr)
unfolding checked_header Settles IsHeader
checked_header-Settles packet rr h = ground arith

decode_fixed_fields-Settles :
    (packet name : List ℕ) (cursor : ℕ)
    → cursor + 10 ≤ length packet
    → Settles (IsHeader packet) (decode_fixed_fields packet name cursor)
unfolding decode_fixed_fields read_bytes
decode_fixed_fields-Settles packet name cursor h =
    let type_inside : ltb (length packet) (cursor + 2) ≡ false = ground arith in
    let class_inside : ltb (length packet) (cursor + 2 + 2) ≡ false = ground arith in
    let ttl_inside : ltb (length packet) (cursor + 4 + 4) ≡ false = ground arith in
    let size_inside : ltb (length packet) (cursor + 8 + 2) ≡ false = ground arith in
    rw (type_inside, class_inside, ttl_inside, size_inside) (checked_header-Settles packet _ refl)

decode_resource_record-Settles :
    (packet : List ℕ) (offset : ℕ)
    → Settles (IsHeader packet) (decode_resource_record packet offset)
unfolding decode_resource_record decode_fields Settles
decode_resource_record-Settles packet offset =
    bind-Settles (IsDecoded (length packet) offset) (IsHeader packet) (decode_name packet offset)
      (λ r. decode_fields packet r.name (offset + r.bytes_in_record))
      (decode_name-Settles packet offset)
      (λ r h. elim (Bool-cases (ltb (length packet) (offset + r.bytes_in_record + 10))) [
        | inl short ↦ rw short tt
        | inr enough ↦
            rw enough (
              decode_fixed_fields-Settles packet r.name (offset + r.bytes_in_record) (ground arith))
      ])

take_answer-Settles :
    (bytes host : List ℕ) (rr : ResourceRecordHeader) (found : Option Ipv4Address)
    → IsHeader bytes rr
    → Settles (λ o. Unit) (take_answer bytes host rr found)
unfolding take_answer is_wanted read_bytes Settles IsHeader
take_answer-Settles bytes host rr none h = ground arith
take_answer-Settles bytes host rr (some a) h = tt

read_answers-Settles :
    (count : ℕ) (bytes host : List ℕ) (cursor : ℕ) (found : Option Ipv4Address)
    → Settles (λ r. Unit) (read_answers count bytes host cursor found)
unfolding read_answers Settles
read_answers-Settles zero bytes host cursor found = tt
read_answers-Settles (suc count) bytes host cursor found =
    bind-Settles (IsHeader bytes) (λ r. Unit) (decode_resource_record bytes cursor)
      (λ rr.
        take_answer bytes host rr found
        >>= (λ now. read_answers count bytes host rr.next_offset now))
      (decode_resource_record-Settles bytes cursor)
      (λ rr h.
        bind-Settles (λ o. Unit) (λ r. Unit) (take_answer bytes host rr found)
          (λ now. read_answers count bytes host rr.next_offset now)
          (take_answer-Settles bytes host rr found h)
          (λ now u. read_answers-Settles count bytes host rr.next_offset now))

skip_records-Settles :
    (count : ℕ) (bytes : List ℕ) (cursor : ℕ)
    → Settles (λ r. Unit) (skip_records count bytes cursor)
unfolding skip_records Settles
skip_records-Settles zero bytes cursor = tt
skip_records-Settles (suc count) bytes cursor =
    bind-Settles (IsHeader bytes) (λ r. Unit) (decode_resource_record bytes cursor)
      (λ rr. skip_records count bytes rr.next_offset) (decode_resource_record-Settles bytes cursor)
      (λ rr h. skip_records-Settles count bytes rr.next_offset)

-- There is an address exactly for the outcome Resolved.
unfoldable pub is_resolved : DnsResponseOutcome → Bool
is_resolved resolved = true
is_resolved outcome = false

unfoldable pub is_present : Option Ipv4Address → Bool
is_present none = false
is_present (some address) = true

unfoldable pub IsCoherent : DnsResponseParseResult → Type 0
IsCoherent result = is_resolved result.outcome ≡ is_present result.address

resolution-IsCoherent : (found : Option Ipv4Address) → IsCoherent (resolution found)
unfolding IsCoherent resolution is_resolved is_present
resolution-IsCoherent none = refl
resolution-IsCoherent (some address) = refl

parse_records-Settles :
    (bytes host : List ℕ) (header : DnsHeader) (cursor : ℕ)
    → Settles IsCoherent (parse_records bytes host header cursor)
unfolding parse_records Settles
parse_records-Settles bytes host header cursor =
    bind-Settles (λ r. Unit) IsCoherent (read_answers header.ancount bytes host cursor none)
      (λ answers.
        skip_records (header.nscount + header.arcount) bytes answers.0
        >>= (λ last. done (resolution answers.1)))
      (read_answers-Settles header.ancount bytes host cursor none)
      (λ answers u.
        bind-Settles (λ r. Unit) IsCoherent
          (skip_records (header.nscount + header.arcount) bytes answers.0)
          (λ last. done (resolution answers.1))
          (skip_records-Settles (header.nscount + header.arcount) bytes answers.0)
          (λ last v. resolution-IsCoherent answers.1))

judge-Settles :
    (bytes : List ℕ) (id : ℕ) (host : List ℕ) (header : DnsHeader) (qname : List ℕ)
    (qtype qclass cursor : ℕ)
    → Settles IsCoherent (judge bytes id host header qname qtype qclass cursor)
unfolding judge Settles IsCoherent is_resolved is_present
judge-Settles bytes id host header qname qtype qclass cursor =
    ground (arith, parse_records-Settles bytes host header cursor)

parse_fixed_question-Settles :
    (bytes : List ℕ) (id : ℕ) (host : List ℕ) (header : DnsHeader) (qname : List ℕ) (cursor : ℕ)
    → Settles IsCoherent (parse_fixed_question bytes id host header qname cursor)
unfolding parse_fixed_question read_question read_bytes Settles
parse_fixed_question-Settles bytes id host header qname cursor =
    elim (Bool-cases (ltb (length bytes) (cursor + 4))) [
      | inl short ↦ rw short tt
      | inr enough ↦
          let type_inside : ltb (length bytes) (cursor + 2) ≡ false = ground arith in
          let class_inside : ltb (length bytes) (cursor + 2 + 2) ≡ false = ground arith in
          rw (enough, type_inside, class_inside)
            (judge-Settles bytes id host header qname _ _ (cursor + 4))
    ]

parse_message-Settles :
    (bytes : List ℕ) (id : ℕ) (host : List ℕ) (header : DnsHeader)
    → Settles IsCoherent (parse_message bytes id host header)
unfolding parse_message parse_question Settles
parse_message-Settles bytes id host header =
    let question =
      bind-Settles (IsDecoded (length bytes) dns_header_size) IsCoherent
        (decode_name bytes dns_header_size)
        (λ r.
          parse_fixed_question bytes id host header r.name (dns_header_size + r.bytes_in_record))
        (decode_name-Settles bytes dns_header_size)
        (λ r h.
          parse_fixed_question-Settles bytes id host header r.name
            (dns_header_size + r.bytes_in_record)) in
    ground (arith, question)

malformed_if_failed-Settles :
    (d : Decoded DnsResponseParseResult)
    → Settles IsCoherent d
    → (r : DnsResponseParseResult) × (malformed_if_failed d ≡ done r) × IsCoherent r
unfolding Settles IsCoherent is_resolved is_present
malformed_if_failed-Settles (done r) h = (r, refl, h)
malformed_if_failed-Settles failed h = (without_address malformed, refl, refl)
malformed_if_failed-Settles fault h = absurd h
malformed_if_failed-Settles no_fuel h = absurd h

read_dns_header-Settles :
    (bytes : List ℕ) → 12 ≤ length bytes → Settles (λ h. Unit) (read_dns_header bytes)
unfolding read_dns_header read_bytes Settles
read_dns_header-Settles bytes h =
    let inside : (k : ℕ) → k ≤ 12 → ltb (length bytes) k ≡ false = λ k l. ground arith in
    rw (inside 2 (omega arith), inside 3 (omega arith), inside 4 (omega arith))
      (rw (inside 6 (omega arith), inside 8 (omega arith))
        (rw (inside 10 (omega arith), inside 12 (omega arith)) tt))

-- Whatever the datagram, parsing it as a response ends with a result: no read lies outside it and
-- no loop runs out of fuel. The result has an address exactly when its outcome is Resolved.
pub parse_dns_response-settles :
    (bytes : List ℕ) (id : ℕ) (host : List ℕ)
    → (r : DnsResponseParseResult) × (parse_dns_response bytes id host ≡ done r) × IsCoherent r
unfolding parse_dns_response parse_sized IsCoherent is_resolved is_present
parse_dns_response-settles bytes id host =
    let wrong_size =
      ltb (length bytes) dns_header_size || ltb max_dns_message_size (length bytes) in
    elim (Bool-cases wrong_size) [
      | inl wrong ↦ rw wrong (without_address malformed, refl, refl)
      | inr right ↦ rw right (
          malformed_if_failed-Settles (parse_sized bytes id host) (
            bind-Settles (λ h. Unit) IsCoherent (read_dns_header bytes)
              (parse_message bytes id host) (read_dns_header-Settles bytes (ground arith))
              (λ header u. parse_message-Settles bytes id host header)))
    ]
