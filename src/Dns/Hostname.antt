-- ===== src/Dns/Hostname.antt =====
-- `normalizeHostname` and `serializeDnsQuery`.
use wirestack.Common.{ℕ, List, [], ◌∷◌, ◌++◌, map, Option, none, some, Bool, false}
use wirestack.Common.{if◌then◌else◌, ltb, ◌==◌, not, ◌||◌, length, Result, ok, err}
use wirestack.Common.Text.{in_chars, tolower, same_text, all, split}
use wirestack.Bytes.{write_big_endian16}

abbrev pub max_dns_message_size : ℕ
max_dns_message_size = 512

abbrev pub max_dns_label_length : ℕ
max_dns_label_length = 63

abbrev pub max_dns_name_length : ℕ
max_dns_name_length = 253

pub data HostnameError : Type 0 where
  empty too_long empty_label label_too_long invalid_char : HostnameError
  leading_or_trailing_hyphen : HostnameError

abbrev pub dot : ℕ
dot = 46

abbrev pub hyphen : ℕ
hyphen = 45

unfoldable pub is_ldh_char : ℕ → Bool
is_ldh_char c = in_chars 97 122 c || in_chars 65 90 c || in_chars 48 57 c || c == hyphen

-- The labels that the loops cut off one after the other, at each `find('.', label_start)`.
unfoldable pub labels_of : List ℕ → List (List ℕ)
labels_of = split dot

-- `label.front() == '-'`, and `label.back() == '-'`
unfoldable pub starts_with_hyphen : List ℕ → Bool
starts_with_hyphen [] = false
starts_with_hyphen (c ∷ cs) = c == hyphen

unfoldable pub ends_with_hyphen : List ℕ → Bool
ends_with_hyphen [] = false
ends_with_hyphen (c ∷ []) = c == hyphen
ends_with_hyphen (c ∷ d ∷ cs) = ends_with_hyphen (d ∷ cs)

unfoldable pub label_error : List ℕ → Option HostnameError
label_error label =
    if length label == 0
    then some empty_label
    else if ltb max_dns_label_length (length label)
    then some label_too_long
    else if starts_with_hyphen label || ends_with_hyphen label
    then some leading_or_trailing_hyphen
    else if not (all is_ldh_char label)
    then some invalid_char
    else none

-- `if (!normalized.empty()) normalized += '.'`, and the label.
unfoldable pub append_label : List ℕ → List ℕ → List ℕ
append_label normalized label =
    let separated = if length normalized == 0 then normalized else normalized ++ dot ∷ [] in
    separated ++ map tolower label

unfoldable pub normalize_labels : List ℕ → List (List ℕ) → Result HostnameError (List ℕ)
normalize_labels normalized [] = ok normalized
normalize_labels normalized (label ∷ labels) = elim (label_error label) [
  | some e ↦ err e
  | none ↦ normalize_labels (append_label normalized label) labels
]

unfoldable pub normalize_hostname : List ℕ → Result HostnameError (List ℕ)
normalize_hostname hostname =
    if length hostname == 0
    then err empty
    else if ltb max_dns_name_length (length hostname)
    then err too_long
    else normalize_labels [] (labels_of hostname)

pub record DnsQuery : Type 0 where
  pub transaction_id : ℕ
  pub hostname : List ℕ

unfoldable pub encode_labels : List (List ℕ) → List ℕ
encode_labels [] = []
encode_labels (label ∷ labels) = length label ∷ label ++ encode_labels labels

unfoldable pub is_normalized : List ℕ → Bool
is_normalized hostname = elim (normalize_hostname hostname) [
  | err e ↦ false
  | ok normalized ↦ same_text normalized hostname
]

unfoldable pub serialize_dns_query : DnsQuery → Option (List ℕ)
serialize_dns_query query =
    let header =
      write_big_endian16 query.transaction_id
      ++ 1 ∷ 0 ∷ []
      ++ write_big_endian16 1
      ++ write_big_endian16 0
      ++ write_big_endian16 0
      ++ write_big_endian16 0 in
    let out =
      header
      ++ encode_labels (labels_of query.hostname)
      ++ 0 ∷ []
      ++ write_big_endian16 1
      ++ write_big_endian16 1 in
    if not (is_normalized query.hostname)
    then none
    else if ltb max_dns_message_size (length out)
    then none
    else some out
