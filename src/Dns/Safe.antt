-- ===== src/Dns/Safe.antt =====
-- What holds of every packet: the decoder reads nothing outside it and ends.
use wirestack.Common.{ℕ, zero, suc, ◌+◌, ◌-◌, ◌≤◌, ◌<◌, ◌≡◌, refl, arith, List, Option, none, some}
use wirestack.Common.{length, drop, length-take, length-drop, length-append, ◌++◌, map, [], ◌∷◌}
use wirestack.Common.{
  bit_and, true, false, if◌then◌else◌, ltb, leb, ◌==◌, ◌!=◌, Bool-cases, inl, inr,
}
use wirestack.Dns.Hostname.{max_dns_name_length, dot}
use wirestack.Common.Text.{tolower}
use wirestack.Dns.Message.{
  Decoded, done, failed, fault, no_fuel, read_bytes, read_byte, NameDecodeResult, NameCursor, Round,
  stop, next, or_else, or_stop, follow_pointer, append_name, decode_pointer, decode_tagged,
  decode_round, decode_loop, decode_name, max_dns_pointer_hops, decode_fuel,
}

-- The outcome is a result for which `P` holds or a refusal.
unfoldable pub Settles : {A : Type 0} → (A → Type 0) → Decoded A → Type 0
Settles P (done a) = P a
Settles P failed = Unit
Settles P fault = ⊥
Settles P no_fuel = ⊥

pub read_bytes-Settles :
    (packet : List ℕ) (offset n : ℕ)
    → offset + n ≤ length packet
    → Settles (λ bytes. length bytes ≡ n) (read_bytes packet offset n)
unfolding read_bytes Settles
read_bytes-Settles packet offset n h =
    let inside : ltb (length packet) (offset + n) ≡ false = ground arith in
    rw inside (omega (arith, length-take n (drop offset packet), length-drop offset packet))

pub read_byte-Settles :
    (packet : List ℕ) (offset : ℕ)
    → offset < length packet
    → Settles (λ b. Unit) (read_byte packet offset)
unfolding read_bytes Settles
read_byte-Settles packet offset h =
    let inside : ltb (length packet) (offset + 1) ≡ false = ground arith in rw inside tt

-- Where the record's own name ends, or will end.
EndsWithin : ℕ → ℕ → ℕ → Option ℕ → Type 0
EndsWithin size start cursor none = start ≤ cursor
EndsWithin size start cursor (some e) = (start ≤ e) × (e ≤ size)

or_else-within :
    (size start cursor value : ℕ) (o : Option ℕ)
    → EndsWithin size start cursor o
    → cursor ≤ value
    → value ≤ size
    → (start ≤ or_else o value) × (or_else o value ≤ size)
unfolding EndsWithin
or_else-within size start cursor value none h k l = (omega arith, l)
or_else-within size start cursor value (some e) h k l = h

EndsWithin-later :
    (size start cursor later : ℕ) (o : Option ℕ)
    → EndsWithin size start cursor o
    → cursor ≤ later
    → EndsWithin size start later o
unfolding EndsWithin
EndsWithin-later size start cursor later none h k = omega arith
EndsWithin-later size start cursor later (some e) h k = h

-- The loop's invariant, and what it returns.
IsOngoing : ℕ → ℕ → NameCursor → Type 0
IsOngoing size start s =
    EndsWithin size start s.cursor s.record_end
    × (length s.name ≤ max_dns_name_length)
    × (s.hops ≤ max_dns_pointer_hops)

unfoldable pub IsDecoded : ℕ → ℕ → NameDecodeResult → Type 0
IsDecoded size start r = (start + r.bytes_in_record ≤ size) × (length r.name ≤ max_dns_name_length)

-- How many rounds more can go on.
rounds_left : NameCursor → ℕ
rounds_left s = max_dns_pointer_hops - s.hops + (max_dns_name_length - length s.name)

Progresses : ℕ → ℕ → NameCursor → Round → Type 0
Progresses size start s (stop result) = Settles (IsDecoded size start) result
Progresses size start s (next t) = IsOngoing size start t × (rounds_left t < rounds_left s)

or_stop-Progresses :
    {A : Type 0} (P : A → Type 0) (size start : ℕ) (s : NameCursor) (read : Decoded A)
    (f : A → Round)
    → Settles P read
    → ((a : A) → P a → Progresses size start s (f a))
    → Progresses size start s (or_stop read f)
unfolding Progresses Settles
or_stop-Progresses P size start s (done a) f h k = k a h
or_stop-Progresses P size start s failed f h k = tt
or_stop-Progresses P size start s fault f h k = absurd h
or_stop-Progresses P size start s no_fuel f h k = absurd h

follow_pointer-Progresses :
    (size start : ℕ) (s : NameCursor) (len_byte low : ℕ)
    → IsOngoing size start s
    → s.cursor + 2 ≤ size
    → Progresses size start s (follow_pointer s len_byte low)
unfolding follow_pointer Progresses Settles IsOngoing rounds_left EndsWithin
follow_pointer-Progresses size start s len_byte low h k =
    let ends = or_else-within size start s.cursor (s.cursor + 2) s.record_end h.0 (omega arith) k in
    ground (arith, ends)

root_label-IsDecoded :
    (size start : ℕ) (s : NameCursor)
    → IsOngoing size start s
    → s.cursor < size
    → IsDecoded size start
        record { name = s.name; bytes_in_record = or_else s.record_end (s.cursor + 1) - start }
unfolding IsDecoded IsOngoing
root_label-IsDecoded size start s h k =
    let ends =
      or_else-within size start s.cursor (s.cursor + 1) s.record_end h.0 (omega arith)
        (omega arith) in
    (omega (arith, ends), h.1)

length-map : (f : ℕ → ℕ) (xs : List ℕ) → length (map f xs) ≡ length xs
length-map f [] = refl
length-map f (x ∷ xs) = omega (arith, length-map f xs)

append_name-Progresses :
    (size start : ℕ) (s : NameCursor) (label : List ℕ)
    → IsOngoing size start s
    → 1 ≤ length label
    → Progresses size start s (append_name s label)
unfolding append_name Progresses Settles IsOngoing rounds_left
append_name-Progresses size start s label h k =
    let later =
      EndsWithin-later size start s.cursor (s.cursor + 1 + length label) s.record_end h.0
        (omega arith) in
    let separated = if s.first_label then s.name else s.name ++ dot ∷ [] in
    let longer = length-append separated (map tolower label) in
    let same = length-map tolower label in
    let separator = length-append s.name (dot ∷ []) in
    let kept : length s.name ≤ length separated = ground arith in
    ground (arith, later, longer, same, kept)

decode_tagged-Progresses :
    (packet : List ℕ) (start : ℕ) (s : NameCursor) (len_byte : ℕ)
    → IsOngoing (length packet) start s
    → s.cursor < length packet
    → Progresses (length packet) start s (decode_tagged packet start s len_byte)
unfolding decode_tagged decode_pointer Progresses Settles
decode_tagged-Progresses packet start s len_byte h k =
    let size = length packet in
    elim (Bool-cases (bit_and len_byte 0xc0 == 0xc0)) [
      | inl pointer ↦ elim (Bool-cases (leb size (s.cursor + 1))) [
        | inl short ↦ rw (pointer, short) tt
        | inr enough ↦
            rw (pointer, enough)
              (or_stop-Progresses (λ b. Unit) size start s (read_byte packet (s.cursor + 1))
                (follow_pointer s len_byte) (read_byte-Settles packet (s.cursor + 1) (ground arith))
                (λ low u. follow_pointer-Progresses size start s len_byte low h (ground arith)))
      ]
      | inr plain ↦ elim (Bool-cases (len_byte == 0)) [
        | inl root ↦ rw (plain, root) (root_label-IsDecoded size start s h k)
        | inr label ↦ elim (Bool-cases (bit_and len_byte 0xc0 != 0)) [
          | inl reserved ↦ rw (plain, label, reserved) tt
          | inr length_byte ↦ elim (Bool-cases (ltb size (s.cursor + 1 + len_byte))) [
            | inl short ↦ rw (plain, label, length_byte, short) tt
            | inr enough ↦
                rw (plain, label, length_byte, enough)
                  (or_stop-Progresses (λ bytes. length bytes ≡ len_byte) size start s
                    (read_bytes packet (s.cursor + 1) len_byte) (append_name s)
                    (read_bytes-Settles packet (s.cursor + 1) len_byte (ground arith))
                    (λ bytes same. append_name-Progresses size start s bytes h (ground arith)))
          ]
        ]
      ]
    ]

decode_round-Progresses :
    (packet : List ℕ) (start : ℕ) (s : NameCursor)
    → IsOngoing (length packet) start s
    → Progresses (length packet) start s (decode_round packet start s)
unfolding decode_round Progresses Settles
decode_round-Progresses packet start s h = elim (Bool-cases (leb (length packet) s.cursor)) [
  | inl short ↦ rw short tt
  | inr enough ↦ rw enough (
      or_stop-Progresses (λ b. Unit) (length packet) start s (read_byte packet s.cursor)
        (decode_tagged packet start s) (read_byte-Settles packet s.cursor (ground arith))
        (λ b u. decode_tagged-Progresses packet start s b h (ground arith)))
]

round-Settles :
    (size start : ℕ) (s : NameCursor) (r : Round) (go_on : NameCursor → Decoded NameDecodeResult)
    → Progresses size start s r
    → ((t : NameCursor)
        → IsOngoing size start t
        → rounds_left t < rounds_left s
        → Settles (IsDecoded size start) (go_on t))
    → Settles (IsDecoded size start) (elim r [ stop result ↦ result | next t ↦ go_on t ])
unfolding Progresses
round-Settles size start s (stop result) go_on p q = p
round-Settles size start s (next t) go_on p q = q t p.0 p.1

decode_loop-Settles :
    (fuel : ℕ) (packet : List ℕ) (start : ℕ) (s : NameCursor)
    → IsOngoing (length packet) start s
    → rounds_left s < fuel
    → Settles (IsDecoded (length packet) start) (decode_loop fuel packet start s)
unfolding decode_loop
decode_loop-Settles zero packet start s h k = absurd (omega arith)
decode_loop-Settles (suc fuel) packet start s h k =
    round-Settles (length packet) start s (decode_round packet start s)
      (decode_loop fuel packet start) (decode_round-Progresses packet start s h)
      (λ t p less. decode_loop-Settles fuel packet start t p (omega arith))

-- From every offset of every packet, decoding a name ends within its fuel and reads nothing outside
-- the packet; a name that it returns has at most kMaxDnsNameLength characters, and its own encoding,
-- up to the first pointer or the root label, lies within the packet.
pub decode_name-Settles :
    (packet : List ℕ) (start : ℕ)
    → Settles (IsDecoded (length packet) start) (decode_name packet start)
unfolding decode_name IsOngoing EndsWithin rounds_left
decode_name-Settles packet start =
    decode_loop-Settles decode_fuel packet start
      record { name = []; cursor = start; record_end = none; hops = 0; first_label = true }
      (omega arith, omega arith, omega arith) (omega arith)
