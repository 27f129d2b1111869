-- ===== src/Dns/Message.antt =====
-- `decodeName`, `decodeResourceRecord` and `parseDnsResponse`. A read outside the packet is the
-- outcome `fault`, and `failed` is std::nullopt or a malformed response.
use wirestack.Common.{ℕ, zero, suc, ◌+◌, ◌-◌, ◌*◌, ◌^◌, bit_and, bit_or, Bool, true, false}
use wirestack.Common.{List, [], ◌∷◌, ◌++◌, map, Option, none, some, length, take, drop}
use wirestack.Common.{if◌then◌else◌, leb, ltb, ◌==◌, ◌!=◌}
use wirestack.Bytes.{read_big_endian16, read_big_endian32, byte_at}
use wirestack.Dns.Hostname.{max_dns_name_length, dot}
use wirestack.Common.Text.{tolower}

abbrev pub dns_header_size : ℕ
dns_header_size = 12

abbrev pub max_dns_record_count : ℕ
max_dns_record_count = 64

abbrev pub max_dns_pointer_hops : ℕ
max_dns_pointer_hops = 16

pub data Decoded (A : Type 0) : Type 0 where
  done : A → Decoded A
  failed fault no_fuel : Decoded A

infixl 5 ◌>>=◌
abbrev pub ◌>>=◌ : {A B : Type 0} → Decoded A → (A → Decoded B) → Decoded B
done a >>= f = f a
failed >>= f = failed
fault >>= f = fault
no_fuel >>= f = no_fuel

-- The bytes from an offset on; a fault when one of them lies outside the packet.
unfoldable pub read_bytes : List ℕ → ℕ → ℕ → Decoded (List ℕ)
read_bytes packet offset n =
    if ltb (length packet) (offset + n) then fault else done (take n (drop offset packet))

abbrev pub read_byte : List ℕ → ℕ → Decoded ℕ
read_byte packet offset = do bytes ← read_bytes packet offset 1; done (byte_at bytes 0)

abbrev pub read_u16 : List ℕ → ℕ → Decoded ℕ
read_u16 packet offset = do bytes ← read_bytes packet offset 2; done (read_big_endian16 bytes 0)

abbrev pub read_u32 : List ℕ → ℕ → Decoded ℕ
read_u32 packet offset = do bytes ← read_bytes packet offset 4; done (read_big_endian32 bytes 0)

pub record NameDecodeResult : Type 0 where
  pub name : List ℕ
  pub bytes_in_record : ℕ

-- The variables of the loop in `decodeName`.
pub record NameCursor : Type 0 where
  pub name : List ℕ
  pub cursor : ℕ
  pub record_end : Option ℕ
  pub hops : ℕ
  pub first_label : Bool

-- What one round of it does: it returns, or goes on.
pub data Round : Type 0 where
  stop : Decoded NameDecodeResult → Round
  next : NameCursor → Round

-- `if (!record_end) record_end = value;`
abbrev pub or_else : Option ℕ → ℕ → ℕ
or_else none value = value
or_else (some e) value = e

unfoldable pub follow_pointer : NameCursor → ℕ → ℕ → Round
follow_pointer s len_byte low =
    let pointer = bit_or (bit_and len_byte 0x3f * 2 ^ 8) low in
    if leb s.cursor pointer
    then stop failed
    else if ltb max_dns_pointer_hops (s.hops + 1)
    then stop failed
    else next (record s {
      cursor = pointer;
      record_end = some (or_else s.record_end (s.cursor + 2));
      hops = s.hops + 1;
    })

unfoldable pub append_name : NameCursor → List ℕ → Round
append_name s label =
    let separated = if s.first_label then s.name else s.name ++ dot ∷ [] in
    let name = separated ++ map tolower label in
    if ltb max_dns_name_length (length name)
    then stop failed
    else next (record s { name = name; cursor = s.cursor + 1 + length label; first_label = false })

abbrev pub or_stop : {A : Type 0} → Decoded A → (A → Round) → Round
or_stop (done a) f = f a
or_stop failed f = stop failed
or_stop fault f = stop fault
or_stop no_fuel f = stop no_fuel

unfoldable pub decode_pointer : List ℕ → NameCursor → ℕ → Round
decode_pointer packet s len_byte =
    if leb (length packet) (s.cursor + 1)
    then stop failed
    else or_stop (read_byte packet (s.cursor + 1)) (follow_pointer s len_byte)

unfoldable pub decode_tagged : List ℕ → ℕ → NameCursor → ℕ → Round
decode_tagged packet start_offset s len_byte =
    let ended : NameDecodeResult = record {
      name = s.name;
      bytes_in_record = or_else s.record_end (s.cursor + 1) - start_offset;
    } in
    if bit_and len_byte 0xc0 == 0xc0
    then decode_pointer packet s len_byte
    else if len_byte == 0
    then stop (done ended)
    else if bit_and len_byte 0xc0 != 0
    then stop failed
    else if ltb (length packet) (s.cursor + 1 + len_byte)
    then stop failed
    else or_stop (read_bytes packet (s.cursor + 1) len_byte) (append_name s)

unfoldable pub decode_round : List ℕ → ℕ → NameCursor → Round
decode_round packet start_offset s =
    if leb (length packet) s.cursor
    then stop failed
    else or_stop (read_byte packet s.cursor) (decode_tagged packet start_offset s)

unfoldable pub decode_loop : ℕ → List ℕ → ℕ → NameCursor → Decoded NameDecodeResult
decode_loop zero packet start_offset s = no_fuel
decode_loop (suc fuel) packet start_offset s = elim (decode_round packet start_offset s) [
  | stop result ↦ result
  | next t ↦ decode_loop fuel packet start_offset t
]

-- Each round that goes on follows one pointer more or makes the name longer.
abbrev pub decode_fuel : ℕ
decode_fuel = max_dns_pointer_hops + max_dns_name_length + 1

unfoldable pub decode_name : List ℕ → ℕ → Decoded NameDecodeResult
decode_name packet start_offset =
    decode_loop decode_fuel packet start_offset
      record { name = []; cursor = start_offset; record_end = none; hops = 0; first_label = true }

pub record ResourceRecordHeader : Type 0 where
  pub name : List ℕ
  pub type : ℕ
  pub rr_class : ℕ
  pub ttl : ℕ
  pub rdlength : ℕ
  pub rdata_offset : ℕ
  pub next_offset : ℕ

-- The test that the record's data lies within the packet.
unfoldable pub checked_header : List ℕ → ResourceRecordHeader → Decoded ResourceRecordHeader
checked_header packet header =
    if ltb (length packet) header.next_offset then failed else done header

unfoldable pub decode_fixed_fields : List ℕ → List ℕ → ℕ → Decoded ResourceRecordHeader
decode_fixed_fields packet name cursor = do
  type ← read_u16 packet cursor
  rr_class ← read_u16 packet (cursor + 2)
  ttl ← read_u32 packet (cursor + 4)
  rdlength ← read_u16 packet (cursor + 8)
  checked_header packet record {
    name = name;
    type = type;
    rr_class = rr_class;
    ttl = ttl;
    rdlength = rdlength;
    rdata_offset = cursor + 10;
    next_offset = cursor + 10 + rdlength;
  }

unfoldable pub decode_fields : List ℕ → List ℕ → ℕ → Decoded ResourceRecordHeader
decode_fields packet name cursor =
    if ltb (length packet) (cursor + 10) then failed else decode_fixed_fields packet name cursor

unfoldable pub decode_resource_record : List ℕ → ℕ → Decoded ResourceRecordHeader
decode_resource_record packet offset = do
  decoded ← decode_name packet offset
  decode_fields packet decoded.name (offset + decoded.bytes_in_record)
