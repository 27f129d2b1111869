-- ===== src/Tcp/Flags.antt =====
-- `TcpFlags`, `decodeFlags` and `encodeFlags`: the two are inverse.
use wirestack.Common.{
  ℕ, zero, suc, ◌<◌, ◌≡◌, refl, Bool, true, false, ◌&&◌, beq, bit_and, bit_or, arith,
}
use wirestack.Common.{if◌then◌else◌, ◌==◌, ◌!=◌, ==_iff, ltb, ltb→lt}

pub record TcpFlags : Type 0 where
  pub fin : Bool
  pub syn : Bool
  pub rst : Bool
  pub psh : Bool
  pub ack : Bool
  pub urg : Bool
  pub ece : Bool
  pub cwr : Bool

-- `TcpFlags{}`
abbrev pub no_flags : TcpFlags
no_flags = record {
  fin = false;
  syn = false;
  rst = false;
  psh = false;
  ack = false;
  urg = false;
  ece = false;
  cwr = false;
}

unfoldable pub decode_flags : ℕ → TcpFlags
decode_flags byte = record {
  fin = bit_and byte 0x01 != 0;
  syn = bit_and byte 0x02 != 0;
  rst = bit_and byte 0x04 != 0;
  psh = bit_and byte 0x08 != 0;
  ack = bit_and byte 0x10 != 0;
  urg = bit_and byte 0x20 != 0;
  ece = bit_and byte 0x40 != 0;
  cwr = bit_and byte 0x80 != 0;
}

-- `if (flag) byte |= mask;`
abbrev set_flag : Bool → ℕ → ℕ → ℕ
set_flag flag mask byte = if flag then bit_or byte mask else byte

unfoldable pub encode_flags : TcpFlags → ℕ
encode_flags flags =
    let b0 = set_flag flags.fin 0x01 0 in
    let b1 = set_flag flags.syn 0x02 b0 in
    let b2 = set_flag flags.rst 0x04 b1 in
    let b3 = set_flag flags.psh 0x08 b2 in
    let b4 = set_flag flags.ack 0x10 b3 in
    let b5 = set_flag flags.urg 0x20 b4 in
    let b6 = set_flag flags.ece 0x40 b5 in set_flag flags.cwr 0x80 b6

-- Tables: a test of every byte, and of every value of a flag.
all_below : ℕ → (ℕ → Bool) → Bool
all_below zero p = true
all_below (suc n) p = p n && all_below n p

all_below-holds : (n : ℕ) (p : ℕ → Bool) (x : ℕ) → all_below n p ≡ true → x < n → p x ≡ true
unfolding all_below
all_below-holds zero p x h lt = absurd (omega arith)
all_below-holds (suc n) p x h lt = ground (arith, all_below-holds n p x)

encode_table : all_below 256 (λ b. encode_flags (decode_flags b) == b) ≡ true
unfolding all_below encode_flags decode_flags
encode_table = refl

-- Encoding the decoded flag byte gives the byte back.
pub encode_flags-decode_flags : (b : ℕ) → b < 256 → encode_flags (decode_flags b) ≡ b
encode_flags-decode_flags b h = (==_iff _ b).0 (all_below-holds 256 _ b encode_table h)

every : (Bool → Bool) → Bool
every p = p false && p true

every-holds : (p : Bool → Bool) → every p ≡ true → (b : Bool) → p b ≡ true
unfolding every
every-holds p h false = ground arith
every-holds p h true = ground arith

-- The defaulted `operator==`.
unfoldable pub flags_equal : TcpFlags → TcpFlags → Bool
flags_equal f g =
    beq f.fin g.fin
    && beq f.syn g.syn
    && beq f.rst g.rst
    && beq f.psh g.psh
    && beq f.ack g.ack
    && beq f.urg g.urg
    && beq f.ece g.ece
    && beq f.cwr g.cwr

beq_eq : (a b : Bool) → beq a b ≡ true → a ≡ b
beq_eq false false h = refl
beq_eq false true h = ground arith
beq_eq true false h = ground arith
beq_eq true true h = refl

-- What a conjunction with a test of equality says.
conjuncts : (c a b : Bool) → c && beq a b ≡ true → (c ≡ true) × (a ≡ b)
conjuncts c a b h = ground (arith, beq_eq a b)

flags_equal-eq : (f g : TcpFlags) → flags_equal f g ≡ true → f ≡ g
unfolding flags_equal
flags_equal-eq f g h =
    let c0 = beq f.fin g.fin in
    let c1 = c0 && beq f.syn g.syn in
    let c2 = c1 && beq f.rst g.rst in
    let c3 = c2 && beq f.psh g.psh in
    let c4 = c3 && beq f.ack g.ack in
    let c5 = c4 && beq f.urg g.urg in
    let c6 = c5 && beq f.ece g.ece in
    let e7 = conjuncts c6 f.cwr g.cwr h in
    let e6 = conjuncts c5 f.ece g.ece e7.0 in
    let e5 = conjuncts c4 f.urg g.urg e6.0 in
    let e4 = conjuncts c3 f.ack g.ack e5.0 in
    let e3 = conjuncts c2 f.psh g.psh e4.0 in
    let e2 = conjuncts c1 f.rst g.rst e3.0 in
    let e1 = conjuncts c0 f.syn g.syn e2.0 in
    let e0 = beq_eq f.fin g.fin e1.0 in
    λ i. record {
      fin = e0 i;
      syn = e1.1 i;
      rst = e2.1 i;
      psh = e3.1 i;
      ack = e4.1 i;
      urg = e5.1 i;
      ece = e6.1 i;
      cwr = e7.1 i;
    }

abbrev flags_of : Bool → Bool → Bool → Bool → Bool → Bool → Bool → Bool → TcpFlags
flags_of a b c d e f g h = record {
  fin = a;
  syn = b;
  rst = c;
  psh = d;
  ack = e;
  urg = f;
  ece = g;
  cwr = h;
}

-- The code's round trip is the identity on these flags, through one byte.
survives : TcpFlags → Bool
survives f = flags_equal (decode_flags (encode_flags f)) f && ltb (encode_flags f) 256

abbrev all4 : (Bool → Bool → Bool → Bool → Bool) → Bool
all4 p = every (λ a. every (λ b. every (λ c. every (λ d. p a b c d))))

all4-holds :
    (p : Bool → Bool → Bool → Bool → Bool) → all4 p ≡ true → (a b c d : Bool) → p a b c d ≡ true
all4-holds p h a b c d =
    every-holds (p a b c)
      (every-holds (λ c. every (p a b c))
        (every-holds (λ b. every (λ c. every (p a b c)))
          (every-holds (λ a. every (λ b. every (λ c. every (p a b c)))) h a) b)
        c)
      d

flags_table : all4 (λ a b c d. all4 (λ e f g h. survives (flags_of a b c d e f g h))) ≡ true
unfolding every survives flags_equal encode_flags decode_flags
flags_table = refl

survives-holds : (f : TcpFlags) → survives f ≡ true
survives-holds f =
    all4-holds (λ e f' g h. survives (flags_of f.fin f.syn f.rst f.psh e f' g h))
      (all4-holds (λ a b c d. all4 (λ e f' g h. survives (flags_of a b c d e f' g h))) flags_table
        f.fin f.syn f.rst f.psh)
      f.ack f.urg f.ece f.cwr

halves : (a b : Bool) → a && b ≡ true → (a ≡ true) × (b ≡ true)
halves a b h = ground arith

-- Decoding the encoded flags gives the flags back, and they fit a byte.
pub decode_flags-encode_flags :
    (f : TcpFlags) → (decode_flags (encode_flags f) ≡ f) × (encode_flags f < 256)
unfolding survives
decode_flags-encode_flags f =
    let both = halves (flags_equal (decode_flags (encode_flags f)) f) _ (survives-holds f) in
    (flags_equal-eq (decode_flags (encode_flags f)) f both.0, ltb→lt _ 256 both.1)
