-- ===== src/Address/Laws.antt =====
-- The comparisons of addresses decide equality and a strict order.
use wirestack.Common.{◌≡◌, ◌↔◌, true, false, arith}
use wirestack.Address.{MacAddress, Ipv4Address, mac_equal, ip_equal, ip_less}

pub mac_equal_iff : (a b : MacAddress) → (mac_equal a b ≡ true) ↔ (a ≡ b)
unfolding mac_equal
mac_equal_iff a b = ground arith

pub ip_equal_iff : (a b : Ipv4Address) → (ip_equal a b ≡ true) ↔ (a ≡ b)
unfolding ip_equal
ip_equal_iff a b = ground arith

pub ip_less_irrefl : (a : Ipv4Address) → ip_less a a ≡ false
unfolding ip_less
ip_less_irrefl a = ground arith

pub ip_less_total : (a b : Ipv4Address) → ip_less a b ≡ false → ip_less b a ≡ false → a ≡ b
unfolding ip_less
ip_less_total a b p q = ground arith
