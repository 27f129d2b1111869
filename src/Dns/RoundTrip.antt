-- ===== src/Dns/RoundTrip.antt =====
-- Decoding a name that a query encodes.
use wirestack.Common.{ℕ, zero, suc, ◌+◌, ◌-◌, ◌≤◌, ◌<◌, ◌≡◌, refl, ap, sym, ◌∙◌, arith, bit_and}
use wirestack.Common.{List, [], ◌∷◌, ◌++◌, map, none, Bool, true, false, length, take}
use wirestack.Common.{drop, All, drop-append_left, take-append_left, length-append, append_assoc}
use wirestack.Common.{if◌then◌else◌, leb, ltb, ◌==◌, ◌!=◌}
use wirestack.Common.Bits.{bit_and-192}
use wirestack.Dns.Hostname.{encode_labels, dot, max_dns_name_length, max_dns_label_length}
use wirestack.Common.Text.{tolower}
use wirestack.Dns.Message.{
  done, NameCursor, next, stop, read_bytes, append_name, decode_tagged, decode_round, decode_loop,
  decode_name, decode_fuel,
}

-- A label of a normalized host name.
unfoldable pub IsLabel : List ℕ → Type 0
IsLabel label =
    (1 ≤ length label) × (length label ≤ max_dns_label_length) × (map tolower label ≡ label)

-- A name with the labels after it, separated by dots.
unfoldable pub extend : Bool → List ℕ → List (List ℕ) → List ℕ
extend first name [] = name
extend first name (label ∷ labels) =
    extend false ((if first then name else name ++ dot ∷ []) ++ label) labels

length-extend :
    (first : Bool) (name : List ℕ) (labels : List (List ℕ))
    → length name ≤ length (extend first name labels)
unfolding extend
length-extend first name [] = omega arith
length-extend true name (label ∷ labels) =
    omega (arith, length-extend false (name ++ label) labels, length-append name label)
length-extend false name (label ∷ labels) = omega (
  arith,
  length-extend false ((name ++ dot ∷ []) ++ label) labels,
  length-append (name ++ dot ∷ []) label,
  length-append name (dot ∷ []),
)

-- One label at the cursor.
decode_round-label :
    (packet before after label : List ℕ) (start : ℕ) (s : NameCursor)
    → packet ≡ before ++ (length label ∷ (label ++ after))
    → s.cursor ≡ length before
    → IsLabel label
    → length (extend s.first_label s.name (label ∷ [])) ≤ max_dns_name_length
    → decode_round packet start s
      ≡ next (record s {
        name = extend s.first_label s.name (label ∷ []);
        cursor = s.cursor + 1 + length label;
        first_label = false;
      })
unfolding decode_round decode_tagged read_bytes append_name extend IsLabel
decode_round-label packet before after label start s shape at valid short =
    let size : length packet ≡ length before + 1 + length label + length after = omega (
      arith,
      ap length shape,
      length-append before (length label ∷ (label ++ after)),
      length-append label after,
    ) in
    let here : drop s.cursor packet ≡ length label ∷ (label ++ after) =
      ap (drop s.cursor) shape
      ∙ drop-append_left s.cursor before (length label ∷ (label ++ after)) at in
    let below : length before ≤ length packet = omega arith in
    let here_next : drop (s.cursor + 1) packet ≡ label ++ after =
      ap (drop (s.cursor + 1))
        (shape ∙ sym (append_assoc before (length label ∷ []) (label ++ after)))
      ∙ drop-append_left (s.cursor + 1) (before ++ length label ∷ []) (label ++ after)
          (omega (arith, length-append before (length label ∷ []))) in
    let whole : take (length label) (label ++ after) ≡ label =
      take-append_left (length label) label after refl in
    let i1 : leb (length packet) s.cursor ≡ false = ground arith in
    let i2 : ltb (length packet) (s.cursor + 1) ≡ false = ground arith in
    let i3 : (bit_and (length label) 0xc0 == 0xc0) ≡ false =
      ground (arith, bit_and-192 (length label) (omega (arith, valid.1))) in
    let i4 : (length label == 0) ≡ false = ground (arith, valid.0) in
    let i5 : (bit_and (length label) 0xc0 != 0) ≡ false =
      ground (arith, bit_and-192 (length label) (omega (arith, valid.1))) in
    let i6 : ltb (length packet) (s.cursor + 1 + length label) ≡ false = ground arith in
    let fits : ltb max_dns_name_length
          (length ((if s.first_label then s.name else s.name ++ dot ∷ []) ++ label))
        ≡ false =
      ground arith in
    rw (i1, i2, here)
      (rw (i3, i4, i5, i6) (rw (here_next) (rw (whole) (rw (valid.2) (rw (fits) refl)))))

-- The root label ends the name.
decode_round-root :
    (packet before after : List ℕ) (start : ℕ) (s : NameCursor)
    → packet ≡ before ++ (0 ∷ after)
    → s.cursor ≡ length before
    → s.record_end ≡ none
    → decode_round packet start s
      ≡ stop (done record { name = s.name; bytes_in_record = s.cursor + 1 - start })
unfolding decode_round decode_tagged read_bytes
decode_round-root packet before after start s shape at unset =
    let size : length packet ≡ length before + 1 + length after =
      omega (arith, ap length shape, length-append before (0 ∷ after)) in
    let here : drop s.cursor packet ≡ 0 ∷ after =
      ap (drop s.cursor) shape ∙ drop-append_left s.cursor before (0 ∷ after) at in
    let i1 : leb (length packet) s.cursor ≡ false = ground arith in
    let i2 : ltb (length packet) (s.cursor + 1) ≡ false = ground arith in
    rw (i1, i2, here) (rw unset refl)

-- From the cursor on, the labels and the root label.
decode_loop-labels :
    (fuel : ℕ) (packet before after : List ℕ) (start : ℕ) (labels : List (List ℕ)) (s : NameCursor)
    → packet ≡ before ++ (encode_labels labels ++ (0 ∷ after))
    → s.cursor ≡ length before
    → s.record_end ≡ none
    → All IsLabel labels
    → length (extend s.first_label s.name labels) ≤ max_dns_name_length
    → length labels < fuel
    → decode_loop fuel packet start s
      ≡ done record {
        name = extend s.first_label s.name labels;
        bytes_in_record = s.cursor + length (encode_labels labels) + 1 - start;
      }
unfolding decode_loop encode_labels extend
decode_loop-labels zero packet before after start labels s shape at unset valid short fuel =
    absurd (omega arith)
decode_loop-labels (suc n) packet before after start [] s shape at unset valid short fuel =
    rw (decode_loop, decode_round-root packet before after start s shape at unset)
      (ap (λ k. done record { name = s.name; bytes_in_record = k }) (omega arith))
decode_loop-labels (suc n) packet before after start (label ∷ labels) s shape at unset valid short
      fuel =
    let rest = encode_labels labels ++ (0 ∷ after) in
    let name = extend s.first_label s.name (label ∷ []) in
    let t : NameCursor = record s {
      name = name;
      cursor = s.cursor + 1 + length label;
      first_label = false;
    } in
    let split : packet ≡ before ++ (length label ∷ (label ++ rest)) =
      shape
      ∙ ap (λ u. before ++ (length label ∷ u))
          (append_assoc label (encode_labels labels) (0 ∷ after)) in
    let later : packet ≡ (before ++ (length label ∷ label)) ++ rest =
      split ∙ sym (append_assoc before (length label ∷ label) rest) in
    let moved : t.cursor ≡ length (before ++ (length label ∷ label)) =
      omega (arith, length-append before (length label ∷ label)) in
    let one =
      decode_round-label packet before rest label start s split at valid.0
        (omega (arith, length-extend false name labels)) in
    let more =
      decode_loop-labels n packet (before ++ (length label ∷ label)) after start labels t later
        moved unset valid.1 short (omega arith) in
    rw (decode_loop, one)
      (more
        ∙ ap (λ k. done record { name = extend false name labels; bytes_in_record = k })
            (omega (arith, length-append label (encode_labels labels))))

length-labels :
    (first : Bool) (name : List ℕ) (labels : List (List ℕ))
    → All IsLabel labels
    → length name + length labels ≤ length (extend first name labels)
unfolding extend IsLabel
length-labels first name [] h = omega arith
length-labels true name (label ∷ labels) h =
    omega (arith, length-labels false (name ++ label) labels h.1, length-append name label, h.0.0)
length-labels false name (label ∷ labels) h = omega (
  arith,
  length-labels false ((name ++ dot ∷ []) ++ label) labels h.1,
  length-append (name ++ dot ∷ []) label,
  length-append name (dot ∷ []),
  h.0.0,
)

-- Wherever in a packet they stand and whatever follows, the encoded labels of a name, each of 1
-- to 63 characters and in lower case, decode to those labels separated by dots, if that has at
-- most kMaxDnsNameLength characters; and the bytes read are the encoding with its root label.
pub decode_name-encode_labels :
    (before after : List ℕ) (labels : List (List ℕ))
    → All IsLabel labels
    → length (extend true [] labels) ≤ max_dns_name_length
    → decode_name (before ++ (encode_labels labels ++ (0 ∷ after))) (length before)
      ≡ done record {
        name = extend true [] labels;
        bytes_in_record = length (encode_labels labels) + 1;
      }
unfolding decode_name
decode_name-encode_labels before after labels valid short =
    let first : NameCursor = record {
      name = [];
      cursor = length before;
      record_end = none;
      hops = 0;
      first_label = true;
    } in
    decode_loop-labels decode_fuel (before ++ (encode_labels labels ++ (0 ∷ after))) before after
      (length before) labels first refl refl refl valid short
      (omega (arith, length-labels true [] labels valid))
    ∙ ap (λ k. done record { name = extend true [] labels; bytes_in_record = k }) (omega arith)
