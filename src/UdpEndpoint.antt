-- ===== src/UdpEndpoint.antt =====
-- src/udp_endpoint.cpp: the table of UDP handlers by port. A handler is a function from the
-- request's bytes to the reply's.
use wirestack.Common.{ℕ, ◌≡◌, List, Bool, true, false, Option, none, some, arith, ==_iff}
use wirestack.Common.{◌==◌, if◌then◌else◌, ltb, Option-cases, inl, inr}
use wirestack.Common.Map

abbrev pub UdpHandler : Type 0
UdpHandler = List ℕ → List ℕ

abbrev pub port_equal : ℕ → ℕ → Bool
port_equal a b = a == b

-- Whether the handler was bound, and the table after it.
unfoldable pub bind : ℕ → UdpHandler → List (ℕ × UdpHandler) → Bool × List (ℕ × UdpHandler)
bind port handler handlers =
    if port == 0 then (false, handlers) else elim (Map.find port_equal port handlers) [
      | none ↦ (true, Map.emplace port_equal ltb port handler handlers)
      | some _ ↦ (false, handlers)
    ]

unfoldable pub deliver : ℕ → List ℕ → List (ℕ × UdpHandler) → Option (List ℕ)
deliver port payload handlers = elim (Map.find port_equal port handlers) [
  | none ↦ none
  | some handler ↦ some (handler payload)
]

-- A handler that was bound answers its port, no other port's answer changes, and a refused bind
-- changes nothing.
pub deliver-bind :
    (port other : ℕ) (handler : UdpHandler) (payload : List ℕ) (m : List (ℕ × UdpHandler))
    → deliver other payload (bind port handler m).1 ≡ (
        if (bind port handler m).0
        then (if port == other then some (handler payload) else deliver other payload m)
        else deliver other payload m)
unfolding bind deliver
deliver-bind port other handler payload m = elim (Option-cases (Map.find port_equal port m)) [
  | inl p ↦ ground (arith, Map.find-emplace port_equal ==_iff ltb port other handler m p)
  | inr (h, p) ↦ ground arith
]

-- A port is taken by its first handler: binding it again fails, as binding port 0 always does.
pub bind_twice :
    (port : ℕ) (first second : UdpHandler) (m : List (ℕ × UdpHandler))
    → (bind port second (bind port first m).1).0 ≡ false
unfolding bind
bind_twice port first second m = elim (Option-cases (Map.find port_equal port m)) [
  | inl p ↦ ground (arith, Map.find-emplace port_equal ==_iff ltb port port first m p)
  | inr (h, p) ↦ ground arith
]
