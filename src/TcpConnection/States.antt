-- ===== src/TcpConnection/States.antt =====
-- The state machine of a connection: the transitions between the states, and the proof that a
-- handled segment takes a connection along them.
use wirestack.Common.{ℕ, ◌≡◌, refl, ap, sym, subst, ◌∙◌, Bool, true, arith}
use wirestack.Common.{if◌then◌else◌, ◌==◌, ==_iff, not, ◌&&◌, ◌||◌}
use wirestack.TcpConnection.State.{
  TcpState, syn_sent, syn_received, established, fin_wait1, fin_wait2, close_wait, closing,
  last_ack, time_wait, state_value, same_state,
}

-- The transitions that a connection makes without being erased.
pub data Transition : TcpState → TcpState → Type 0 where
  active_open : Transition syn_sent established
  passive_open : Transition syn_received established
  close : Transition established fin_wait1
  peer_close : Transition established close_wait
  close_after_peer : Transition close_wait last_ack
  fin_acknowledged : Transition fin_wait1 fin_wait2
  simultaneous_close : Transition fin_wait1 closing
  peer_close_after : Transition fin_wait2 time_wait
  closing_acknowledged : Transition closing time_wait

-- Any number of transitions.
pub data Trace (s : TcpState) : TcpState → Type 0 where
  here : Trace s s
  next : {t u : TcpState} → Trace s t → Transition t u → Trace s u

pub Trace-trans : {s t u : TcpState} → Trace s t → Trace t u → Trace s u
Trace-trans p here = p
Trace-trans p (next q e) = next (Trace-trans p q) e

-- A state is known by its value.
of_value : ℕ → TcpState
of_value n =
    if n == 0
    then syn_sent
    else if n == 1
    then syn_received
    else if n == 2
    then established
    else if n == 3
    then fin_wait1
    else if n == 4
    then fin_wait2
    else if n == 5
    then close_wait
    else if n == 6
    then closing
    else if n == 7
    then last_ack
    else time_wait

of_value-state_value : (s : TcpState) → of_value (state_value s) ≡ s
unfolding of_value
of_value-state_value syn_sent = refl
of_value-state_value syn_received = refl
of_value-state_value established = refl
of_value-state_value fin_wait1 = refl
of_value-state_value fin_wait2 = refl
of_value-state_value close_wait = refl
of_value-state_value closing = refl
of_value-state_value last_ack = refl
of_value-state_value time_wait = refl

pub same_state-eq : (s t : TcpState) → same_state s t ≡ true → s ≡ t
same_state-eq s t h =
    sym (of_value-state_value s)
    ∙ ap of_value ((==_iff (state_value s) (state_value t)).0 h)
    ∙ of_value-state_value t

-- One transition from a state that was tested.
pub Trace-tested :
    (s : TcpState) {t u : TcpState} → same_state s t ≡ true → Transition t u → Trace s u
Trace-tested s {t} {u} h e = subst (λ x. Trace x u) (sym (same_state-eq s t h)) (next here e)

-- A connection past its handshake never returns to it.
abbrev pub past_handshake : TcpState → Bool
past_handshake s = not (same_state s syn_sent || same_state s syn_received)

Transition-past_handshake : {s t : TcpState} → Transition s t → past_handshake t ≡ true
Transition-past_handshake active_open = refl
Transition-past_handshake passive_open = refl
Transition-past_handshake close = refl
Transition-past_handshake peer_close = refl
Transition-past_handshake close_after_peer = refl
Transition-past_handshake fin_acknowledged = refl
Transition-past_handshake simultaneous_close = refl
Transition-past_handshake peer_close_after = refl
Transition-past_handshake closing_acknowledged = refl

pub Trace-past_handshake :
    {s t : TcpState} → past_handshake s ≡ true → Trace s t → past_handshake t ≡ true
Trace-past_handshake h here = h
Trace-past_handshake h (next p e) = Transition-past_handshake e

pub &&-left : (a b : Bool) → a && b ≡ true → a ≡ true
&&-left a b h = ground arith

-- A path to a state that equals another.
pub Trace-eq : {s t u : TcpState} → u ≡ t → Trace s t → Trace s u
Trace-eq {s} e p = subst (Trace s) (sym e) p
