-- ===== src/Dns/Response/Transaction.antt =====
-- The test of the transaction identifier in `parseDnsResponse`, by its outcome.
use wirestack.Common.{ℕ, ◌+◌, ◌≡◌, refl, List, [], ◌∷◌, Bool, true, false, take, drop, length}
use wirestack.Common.{ltb, ◌!=◌, ◌||◌, Bool-cases, inl, inr, arith, if◌then◌else◌}
use wirestack.Bytes.{read_big_endian16}
use wirestack.Dns.Hostname.{max_dns_message_size}
use wirestack.Dns.Message.{
  Decoded, done, failed, fault, no_fuel, ◌>>=◌, read_bytes, read_byte, read_u16, decode_name,
  dns_header_size, NameDecodeResult, max_dns_record_count,
}
use wirestack.Dns.Response.{
  DnsHeader, DnsResponseParseResult, DnsResponseOutcome, wrong_transaction, wrong_question,
  malformed, truncated, resolved, no_answer, nx_domain, server_failure, refused, judge,
  read_question, parse_fixed_question, parse_question, parse_message, parse_sized,
  parse_dns_response, read_dns_header, malformed_if_failed, opcode, is_query,
}

-- What a decoder returns, if it returns, has the property.
unfoldable pub Every : {A : Type 0} → (A → Type 0) → Decoded A → Type 0
Every P (done a) = P a
Every P failed = Unit {0}
Every P fault = Unit {0}
Every P no_fuel = Unit {0}

bind-Every :
    {A B : Type 0} (P : A → Type 0) (Q : B → Type 0) (d : Decoded A) (f : A → Decoded B)
    → Every P d
    → ((a : A) → P a → Every Q (f a))
    → Every Q (d >>= f)
unfolding Every
bind-Every P Q (done a) f h k = k a h
bind-Every P Q failed f h k = tt
bind-Every P Q fault f h k = tt
bind-Every P Q no_fuel f h k = tt

Always : {A : Type 0} → A → Type 0
Always a = Unit {0}

any-Every : {A : Type 0} (d : Decoded A) → Every Always d
unfolding Every Always
any-Every (done a) = tt
any-Every failed = tt
any-Every fault = tt
any-Every no_fuel = tt

-- The outcomes that answer the query, for good or ill.
abbrev pub is_conclusive : DnsResponseOutcome → Bool
is_conclusive wrong_transaction = false
is_conclusive wrong_question = false
is_conclusive malformed = false
is_conclusive truncated = false
is_conclusive resolved = true
is_conclusive no_answer = true
is_conclusive nx_domain = true
is_conclusive server_failure = true
is_conclusive refused = true

abbrev pub Inconclusive : DnsResponseParseResult → Type 0
Inconclusive result = is_conclusive result.outcome ≡ false

byte_pair :
    (bytes : List ℕ) → read_big_endian16 (take 2 (drop 0 bytes)) 0 ≡ read_big_endian16 bytes 0
byte_pair [] = refl
byte_pair (a ∷ []) = refl
byte_pair (a ∷ b ∷ rest) = refl

if-Every :
    {A : Type 0} (P : A → Type 0) (test : Bool) (x y : Decoded A)
    → Every P x
    → Every P y
    → Every P (if test then x else y)
if-Every P true x y p q = p
if-Every P false x y p q = q

read_id-Every : (bytes : List ℕ) → Every (λ i. i ≡ read_big_endian16 bytes 0) (read_u16 bytes 0)
unfolding read_bytes Every
read_id-Every bytes = elim (Bool-cases (ltb (length bytes) (0 + 2))) [
  | inl e ↦ rw e tt
  | inr e ↦ rw e (byte_pair bytes)
]

read_dns_header-Every :
    (bytes : List ℕ) → Every (λ h. h.id ≡ read_big_endian16 bytes 0) (read_dns_header bytes)
unfolding read_dns_header Every
read_dns_header-Every bytes =
    let Same : DnsHeader → Type 0 = λ h. h.id ≡ read_big_endian16 bytes 0 in
    bind-Every (λ i. i ≡ read_big_endian16 bytes 0) Same _ _ (read_id-Every bytes)
      (λ id same. bind-Every Always Same _ _ (any-Every (read_byte bytes 2)) (λ flags1 _.
        bind-Every Always Same _ _ (any-Every (read_byte bytes 3)) (λ flags2 _.
          bind-Every Always Same _ _ (any-Every (read_u16 bytes 4)) (λ qdcount _.
            bind-Every Always Same _ _ (any-Every (read_u16 bytes 6)) (λ ancount _.
              bind-Every Always Same _ _ (any-Every (read_u16 bytes 8)) (λ nscount _.
                bind-Every Always Same _ _ (any-Every (read_u16 bytes 10)) (λ arcount _. same)))))))

module _ (bytes : List ℕ) (expected : ℕ) (hostname : List ℕ) where
  judge-Inconclusive :
      (header : DnsHeader) (qname : List ℕ) (qtype qclass cursor : ℕ)
      → (header.id != expected) ≡ true
      → Every Inconclusive (judge bytes expected hostname header qname qtype qclass cursor)
  unfolding judge Every
  judge-Inconclusive header qname qtype qclass cursor other = rw other refl

  read_question-Inconclusive :
      (header : DnsHeader) (qname : List ℕ) (cursor : ℕ)
      → (header.id != expected) ≡ true
      → Every Inconclusive (read_question bytes expected hostname header qname cursor)
  unfolding read_question
  read_question-Inconclusive header qname cursor other =
      bind-Every Always Inconclusive _ _ (any-Every (read_u16 bytes cursor)) (λ qtype _.
        bind-Every Always Inconclusive _ _ (any-Every (read_u16 bytes (cursor + 2)))
          (λ qclass _. judge-Inconclusive header qname qtype qclass (cursor + 4) other))

  parse_message-Inconclusive :
      (header : DnsHeader)
      → (header.id != expected) ≡ true
      → Every Inconclusive (parse_message bytes expected hostname header)
  unfolding parse_message parse_question parse_fixed_question Every
  parse_message-Inconclusive header other =
      let Named : NameDecodeResult → Type 0 = Always in
      if-Every Inconclusive (is_query header) failed _ tt (
        if-Every Inconclusive (opcode header != 0) failed _ tt (
          if-Every Inconclusive (header.qdcount != 1) failed _ tt (
            if-Every Inconclusive
              (ltb max_dns_record_count (header.ancount + header.nscount + header.arcount)) failed _
              tt
              (bind-Every Named Inconclusive _ _ (any-Every (decode_name bytes dns_header_size))
                (λ q _.
                  if-Every Inconclusive
                    (ltb (length bytes) (dns_header_size + q.bytes_in_record + 4)) failed _ tt
                    (read_question-Inconclusive header q.name (dns_header_size + q.bytes_in_record)
                      other))))))

  parse_sized-Inconclusive :
      (read_big_endian16 bytes 0 != expected) ≡ true
      → Every Inconclusive (parse_sized bytes expected hostname)
  unfolding parse_sized
  parse_sized-Inconclusive other =
      bind-Every (λ h. h.id ≡ read_big_endian16 bytes 0) Inconclusive _ _
        (read_dns_header-Every bytes)
        (λ header same. parse_message-Inconclusive header (ground arith))

malformed_if_failed-Inconclusive :
    (d : Decoded DnsResponseParseResult)
    → Every Inconclusive d
    → Every Inconclusive (malformed_if_failed d)
unfolding Every
malformed_if_failed-Inconclusive (done r) h = h
malformed_if_failed-Inconclusive failed h = refl
malformed_if_failed-Inconclusive fault h = tt
malformed_if_failed-Inconclusive no_fuel h = tt

-- A message whose first two bytes are another identifier than the query's is not conclusive.
pub parse_dns_response-Inconclusive :
    (bytes : List ℕ) (expected : ℕ) (hostname : List ℕ)
    → (read_big_endian16 bytes 0 != expected) ≡ true
    → Every Inconclusive (parse_dns_response bytes expected hostname)
unfolding parse_dns_response Every
parse_dns_response-Inconclusive bytes expected hostname other =
    if-Every Inconclusive
      (ltb (length bytes) dns_header_size || ltb max_dns_message_size (length bytes)) _ _ refl
      (malformed_if_failed-Inconclusive (parse_sized bytes expected hostname)
        (parse_sized-Inconclusive bytes expected hostname other))
