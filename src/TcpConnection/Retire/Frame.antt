-- ===== src/TcpConnection/Retire/Frame.antt =====
-- What `retireAcknowledged` leaves alone: everything but the queue, its oldest number and the
-- retransmission timeout with its estimator.
use wirestack.Common.{◌^◌, ◌<◌, inl, inr, Bool-cases}
use wirestack.Common.{ℕ, ◌≡◌, refl, Bool, true, Option, none, some, [], ◌∷◌, arith}
use wirestack.TcpConnection.Sequence.{sequence_greater, sequence_less_or_equal}
use wirestack.TcpConnection.State.{Connection, PendingTransmission, pending_sequence_end}
use wirestack.TcpConnection.Window.{record_rtt_sample, smooth_rtt}
use wirestack.TcpConnection.Retire.{
  take_sample, mark_front, retire_acknowledged, retire_loop, sample_age,
}

-- The fields that the segment handlers read afterwards.
pub record SameReceiver (c d : Connection) : Type 0 where
  pub state : d.state ≡ c.state
  pub remote_isn : d.remote_isn ≡ c.remote_isn
  pub local_isn : d.local_isn ≡ c.local_isn
  pub rcv_nxt : d.rcv_nxt ≡ c.rcv_nxt
  pub snd_nxt : d.snd_nxt ≡ c.snd_nxt
  pub local_fin_seq : d.local_fin_seq ≡ c.local_fin_seq
  pub out_of_order : d.out_of_order ≡ c.out_of_order
  pub pending_fin_seq : d.pending_fin_seq ≡ c.pending_fin_seq
  pub unsent : d.unsent ≡ c.unsent
  pub pending_removal : d.pending_removal ≡ c.pending_removal
  pub effective_send_mss : d.effective_send_mss ≡ c.effective_send_mss
  pub window_scaling_enabled : d.window_scaling_enabled ≡ c.window_scaling_enabled
  pub peer_window_scale : d.peer_window_scale ≡ c.peer_window_scale
  pub local_window_scale : d.local_window_scale ≡ c.local_window_scale
  pub sack_permitted : d.sack_permitted ≡ c.sack_permitted
  pub close_requested : d.close_requested ≡ c.close_requested

record_rtt_sample-frame : (c : Connection) (r : ℕ) → SameReceiver c (record_rtt_sample c r)
unfolding record_rtt_sample smooth_rtt
record_rtt_sample-frame c r = ground arith

record_rtt_sample-queue :
    (c : Connection) (r : ℕ)
    → ((record_rtt_sample c r).pending ≡ c.pending) × ((record_rtt_sample c r).snd_una ≡ c.snd_una)
unfolding record_rtt_sample smooth_rtt
record_rtt_sample-queue c r = ground arith

take_sample-frame :
    (age : Option ℕ) (survives : Bool) (c : Connection)
    → SameReceiver c (take_sample age survives c)
unfolding take_sample
take_sample-frame none survives c = ground arith
take_sample-frame (some age) survives c = ground (arith, record_rtt_sample-frame c age)

pub take_sample-snd_una :
    (age : Option ℕ) (survives : Bool) (c : Connection)
    → (take_sample age survives c).snd_una ≡ c.snd_una
unfolding take_sample
take_sample-snd_una none survives c = refl
take_sample-snd_una (some age) survives c = ground (arith, record_rtt_sample-queue c age)

pub take_sample-pending_empty :
    (age : Option ℕ) (survives : Bool) (c : Connection)
    → c.pending ≡ []
    → (take_sample age survives c).pending ≡ []
unfolding take_sample mark_front
take_sample-pending_empty none survives c h = h
take_sample-pending_empty (some age) survives c h = ground (arith, record_rtt_sample-queue c age)

pub retire_acknowledged-frame :
    (c : Connection) (ack now : ℕ) → SameReceiver c (retire_acknowledged c ack now).1
unfolding retire_acknowledged
retire_acknowledged-frame c ack now =
    let retired = retire_loop ack 0 none c.pending in
    let age = sample_age now retired.sample_first_sent in
    let advanced : Connection = record c { snd_una = ack; pending = retired.pending } in
    let frame = take_sample-frame age retired.sample_survives advanced in
    elim (Bool-cases (sequence_greater ack c.snd_una)) [
      | inl newer ↦ rw newer (ground arith)
      | inr older ↦ ground arith
    ]

-- An acknowledgment of everything in a queue of one entry empties the queue.
retire_loop-one :
    (e : PendingTransmission) (ack : ℕ)
    → ack < 2 ^ 32
    → pending_sequence_end e ≡ ack
    → (retire_loop ack 0 none (e ∷ [])).pending ≡ []
unfolding retire_loop sequence_less_or_equal
retire_loop-one e ack h q = ground arith

pub retire_acknowledged-one :
    (c : Connection) (e : PendingTransmission) (ack now : ℕ)
    → ack < 2 ^ 32
    → c.pending ≡ e ∷ []
    → pending_sequence_end e ≡ ack
    → sequence_greater ack c.snd_una ≡ true
    → ((retire_acknowledged c ack now).1.pending ≡ [])
      × ((retire_acknowledged c ack now).1.snd_una ≡ ack)
unfolding retire_acknowledged
retire_acknowledged-one c e ack now h p q g =
    let retired = retire_loop ack 0 none c.pending in
    let age = sample_age now retired.sample_first_sent in
    let advanced : Connection = record c { snd_una = ack; pending = retired.pending } in
    ground (
      arith,
      retire_loop-one e ack,
      take_sample-pending_empty age retired.sample_survives advanced,
      take_sample-snd_una age retired.sample_survives advanced,
    )
