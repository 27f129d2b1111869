-- ===== src/Address.antt =====
-- include/wirestack/{mac_address,ipv4_address}.hpp: the address classes as their byte arrays, their
-- comparisons, and the readers and writers that the packet codecs each declare for them.
pub mod Laws
pub mod Text
use wirestack.Common.{ℕ, ◌+◌, ◌<◌, List, [], ◌∷◌, Bool, ◌&&◌, ◌||◌, ltb, ◌==◌}
use wirestack.Bytes.{byte_at, IsByte}

pub record MacAddress : Type 0 where
  pub m0 : ℕ
  pub m1 : ℕ
  pub m2 : ℕ
  pub m3 : ℕ
  pub m4 : ℕ
  pub m5 : ℕ

pub record Ipv4Address : Type 0 where
  pub a0 : ℕ
  pub a1 : ℕ
  pub a2 : ℕ
  pub a3 : ℕ

-- The bytes are `std::uint8_t`.
abbrev pub IsMac : MacAddress → Type 0
IsMac m = IsByte m.m0 × IsByte m.m1 × IsByte m.m2 × IsByte m.m3 × IsByte m.m4 × IsByte m.m5

abbrev pub IsIpv4 : Ipv4Address → Type 0
IsIpv4 a = IsByte a.a0 × IsByte a.a1 × IsByte a.a2 × IsByte a.a3

-- `MacAddress{}` and `MacAddress::kBroadcast`
abbrev pub zero_mac : MacAddress
zero_mac = record { m0 = 0; m1 = 0; m2 = 0; m3 = 0; m4 = 0; m5 = 0 }

abbrev pub broadcast : MacAddress
broadcast = record { m0 = 0xff; m1 = 0xff; m2 = 0xff; m3 = 0xff; m4 = 0xff; m5 = 0xff }

-- The defaulted `operator==` of each class.
unfoldable pub mac_equal : MacAddress → MacAddress → Bool
mac_equal a b =
    a.m0 == b.m0 && a.m1 == b.m1 && a.m2 == b.m2 && a.m3 == b.m3 && a.m4 == b.m4 && a.m5 == b.m5

unfoldable pub ip_equal : Ipv4Address → Ipv4Address → Bool
ip_equal a b = a.a0 == b.a0 && a.a1 == b.a1 && a.a2 == b.a2 && a.a3 == b.a3

-- `operator<` from the defaulted `operator<=>`, on the arrays from the first byte on.
unfoldable pub ip_less : Ipv4Address → Ipv4Address → Bool
ip_less a b =
    ltb a.a0 b.a0
    || (a.a0 == b.a0
        && (ltb a.a1 b.a1 || (a.a1 == b.a1 && (ltb a.a2 b.a2 || (a.a2 == b.a2 && ltb a.a3 b.a3)))))

unfoldable pub is_broadcast : MacAddress → Bool
is_broadcast m = mac_equal m broadcast

-- The loops of `readMacAddress` and `readIpv4Address`, written out.
abbrev pub read_mac_address : List ℕ → ℕ → MacAddress
read_mac_address data_bytes offset = record {
  m0 = byte_at data_bytes offset;
  m1 = byte_at data_bytes (offset + 1);
  m2 = byte_at data_bytes (offset + 2);
  m3 = byte_at data_bytes (offset + 3);
  m4 = byte_at data_bytes (offset + 4);
  m5 = byte_at data_bytes (offset + 5);
}

abbrev pub read_ipv4_address : List ℕ → ℕ → Ipv4Address
read_ipv4_address data_bytes offset = record {
  a0 = byte_at data_bytes offset;
  a1 = byte_at data_bytes (offset + 1);
  a2 = byte_at data_bytes (offset + 2);
  a3 = byte_at data_bytes (offset + 3);
}

-- The bytes that `writeMacAddress` and `writeIpv4Address` push.
abbrev pub write_mac_address : MacAddress → List ℕ
write_mac_address m = m.m0 ∷ m.m1 ∷ m.m2 ∷ m.m3 ∷ m.m4 ∷ m.m5 ∷ []

abbrev pub write_ipv4_address : Ipv4Address → List ℕ
write_ipv4_address a = a.a0 ∷ a.a1 ∷ a.a2 ∷ a.a3 ∷ []
