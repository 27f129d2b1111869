-- ===== src/TcpConnection/Retire.antt =====
-- `retireAcknowledged`: what an acknowledgment takes off the queue of pending transmissions.
pub mod Frame
use wirestack.Common.{ℕ, ◌+◌, ◌-◌, Bool, true, false, not, ◌&&◌, List, [], ◌∷◌, Option, none, some}
use wirestack.Common.{if◌then◌else◌, leb, length, drop}
use wirestack.Bytes.{u32}
use wirestack.TcpConnection.Sequence.{sub32, sequence_greater, sequence_less_or_equal}
use wirestack.TcpConnection.State.{Connection, PendingTransmission, pending_sequence_end}
use wirestack.TcpConnection.Window.{record_rtt_sample}

pub record TcpAckRetirementResult : Type 0 where
  pub newly_acked_sequence_space : ℕ
  pub newly_acked_data_bytes : ℕ
  pub ack_advanced : Bool
  pub rtt_sample_taken : Bool

-- The variables of the loop: `sample_first_sent`, whether `sample_entry` is the entry in front,
-- `newly_acked_data_bytes` and the queue.
pub record Retired : Type 0 where
  pub data_bytes : ℕ
  pub sample_first_sent : Option ℕ
  pub sample_survives : Bool
  pub pending : List PendingTransmission

-- Karn's rule: never retransmitted, and not sampled before.
abbrev pub eligible : PendingTransmission → Bool
eligible entry = not entry.was_retransmitted && not entry.rtt_sample_taken

abbrev pub sampled : PendingTransmission → Option ℕ → Option ℕ
sampled entry sample = if eligible entry then some entry.first_sent_at else sample

-- The suffix of an entry from the acknowledged number on.
unfoldable pub trim_entry : ℕ → PendingTransmission → PendingTransmission
trim_entry ack entry = record entry {
  payload = drop (sub32 ack entry.sequence_start) entry.payload;
  sequence_start = ack;
  retransmitted_in_recovery = false;
}

-- `while (!pending.empty())`
unfoldable pub retire_loop : ℕ → ℕ → Option ℕ → List PendingTransmission → Retired
retire_loop ack bytes sample [] = record {
  data_bytes = bytes;
  sample_first_sent = sample;
  sample_survives = false;
  pending = [];
}
retire_loop ack bytes sample (entry ∷ rest) =
    if sequence_less_or_equal (pending_sequence_end entry) ack
    then retire_loop ack (u32 (bytes + length entry.payload)) (sampled entry sample) rest
    else if sequence_greater ack entry.sequence_start
    then record {
      data_bytes = u32 (bytes + sub32 ack entry.sequence_start);
      sample_first_sent = sampled entry sample;
      sample_survives = eligible entry;
      pending = trim_entry ack entry ∷ rest;
    }
    else record {
      data_bytes = bytes;
      sample_first_sent = sample;
      sample_survives = false;
      pending = entry ∷ rest;
    }

-- `*sample_first_sent <= now`, and the sample.
unfoldable pub sample_age : ℕ → Option ℕ → Option ℕ
sample_age now none = none
sample_age now (some first_sent) = if leb first_sent now then some (now - first_sent) else none

-- `sample_entry->rtt_sample_taken = true`
unfoldable pub mark_front : Bool → List PendingTransmission → List PendingTransmission
mark_front survives [] = []
mark_front survives (entry ∷ rest) =
    (if survives then record entry { rtt_sample_taken = true } else entry) ∷ rest

unfoldable pub take_sample : Option ℕ → Bool → Connection → Connection
take_sample none survives connection = connection
take_sample (some age) survives connection =
    let sampled = record_rtt_sample connection age in
    record sampled { pending = mark_front survives sampled.pending }

abbrev is_some : Option ℕ → Bool
is_some none = false
is_some (some x) = true

unfoldable pub retire_acknowledged : Connection → ℕ → ℕ → TcpAckRetirementResult × Connection
retire_acknowledged connection ack now =
    let retired = retire_loop ack 0 none connection.pending in
    let age = sample_age now retired.sample_first_sent in
    if not (sequence_greater ack connection.snd_una)
    then (
      record {
        newly_acked_sequence_space = 0;
        newly_acked_data_bytes = 0;
        ack_advanced = false;
        rtt_sample_taken = false;
      },
      connection,
    )
    else (
      record {
        newly_acked_sequence_space = sub32 ack connection.snd_una;
        newly_acked_data_bytes = retired.data_bytes;
        ack_advanced = true;
        rtt_sample_taken = is_some age;
      },
      take_sample age retired.sample_survives
          (record connection { snd_una = ack; pending = retired.pending }),
    )
