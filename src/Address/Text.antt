-- ===== src/Address/Text.antt =====
-- The text form of IPv4 addresses: src/ipv4_address.cpp. `std::from_chars` and the formatting of
-- `std::snprintf` are written out on the digits.
use wirestack.Common.{ℕ, ◌+◌, ◌-◌, ◌*◌, List, [], ◌∷◌, ◌++◌, not, ◌&&◌, ◌||◌}
use wirestack.Common.{Option, none, some, if◌then◌else◌, ltb, ◌==◌, length, get_or}
use wirestack.Common.Text.{Text, all, is_digit, split, to_string}
use wirestack.Address.{Ipv4Address}

unfoldable pub digits_value : ℕ → Text → ℕ
digits_value value [] = value
digits_value value (c ∷ cs) = digits_value (value * 10 + (c - b'0')) cs

unfoldable pub parse_octet : Text → Option ℕ
parse_octet group =
    let value = digits_value 0 group in
    if length group == 0 || ltb 3 (length group)
    then none
    else if ltb 1 (length group) && get_or group 0 0 == b'0'
    then none
    else if not (all is_digit group)
    then none
    else if ltb 255 value
    then none
    else some value

abbrev address_of : Option ℕ → Option ℕ → Option ℕ → Option ℕ → Option Ipv4Address
address_of (some a) (some b) (some c) (some d) = some (record { a0 = a; a1 = b; a2 = c; a3 = d })
address_of (some a) (some b) (some c) none = none
address_of (some a) (some b) none d = none
address_of (some a) none c d = none
address_of none b c d = none

-- The loop over the four groups: each but the last ends with a dot, and none follows the last.
unfoldable pub parse_groups : List Text → Option Ipv4Address
parse_groups (a ∷ b ∷ c ∷ d ∷ []) =
    address_of (parse_octet a) (parse_octet b) (parse_octet c) (parse_octet d)
parse_groups groups = none

unfoldable pub parse_ipv4_address : Text → Option Ipv4Address
parse_ipv4_address text = parse_groups (split b'.' text)

unfoldable pub ip_to_string : Ipv4Address → Text
ip_to_string a =
    to_string a.a0
    ++ (b'.' ∷ (to_string a.a1 ++ (b'.' ∷ (to_string a.a2 ++ (b'.' ∷ to_string a.a3)))))
