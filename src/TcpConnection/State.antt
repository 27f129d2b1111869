-- ===== src/TcpConnection/State.antt =====
-- The state of one connection, `TcpConnectionTable::Connection`, with the records it holds.
use wirestack.Common.{ℕ, ◌+◌, Bool, true, false, Option, none, List, [], ◌==◌}
use wirestack.Common.{length, if◌then◌else◌}
use wirestack.Bytes.{u32}
use wirestack.Tcp.Flags.{TcpFlags}

pub data TcpState : Type 0 where
  syn_sent syn_received established fin_wait1 fin_wait2 close_wait closing last_ack time_wait :
      TcpState

pub record PendingTransmission : Type 0 where
  pub sequence_start : ℕ
  pub is_syn : Bool
  pub is_active_syn : Bool
  pub is_fin : Bool
  pub flags : TcpFlags
  pub payload : List ℕ
  pub first_sent_at : ℕ
  pub last_sent_at : ℕ
  pub timeout_interval : ℕ
  pub timeout_retransmit_count : ℕ
  pub was_retransmitted : Bool
  pub rtt_sample_taken : Bool
  pub sacked : Bool
  pub retransmitted_in_recovery : Bool

-- `PendingTransmission::sequenceEnd`
unfoldable pub pending_sequence_end : PendingTransmission → ℕ
pending_sequence_end entry = u32 (
    entry.sequence_start
    + length entry.payload
    + (if entry.is_syn then 1 else 0)
    + (if entry.is_fin then 1 else 0))

pub record TcpReassemblyFragment : Type 0 where
  pub sequence_start : ℕ
  pub payload : List ℕ

pub record Connection : Type 0 where
  pub state : TcpState
  pub remote_isn : ℕ
  pub remote_isn_known : Bool
  pub local_isn : ℕ
  pub rcv_nxt : ℕ
  pub snd_una : ℕ
  pub snd_nxt : ℕ
  pub pending : List PendingTransmission
  pub local_fin_seq : Option ℕ
  pub time_wait_deadline : Option ℕ
  pub pending_removal : Bool
  pub snd_wnd : ℕ
  pub snd_wl1 : ℕ
  pub snd_wl2 : ℕ
  pub out_of_order : List TcpReassemblyFragment
  pub pending_fin_seq : Option ℕ
  pub peer_mss : ℕ
  pub effective_send_mss : ℕ
  pub peer_window_scale : ℕ
  pub local_window_scale : ℕ
  pub window_scaling_enabled : Bool
  pub sack_permitted : Bool
  pub has_rtt_sample : Bool
  pub srtt : ℕ
  pub rttvar : ℕ
  pub current_rto : ℕ
  pub cwnd : ℕ
  pub ssthresh : ℕ
  pub duplicate_ack_count : ℕ
  pub in_fast_recovery : Bool
  pub recovery_point : ℕ
  pub congestion_avoidance_acked_bytes : ℕ
  pub unsent : List ℕ
  pub close_requested : Bool
  pub persist_deadline : Option ℕ
  pub persist_interval : ℕ

-- `==` on states: the enumerators' values.
abbrev pub state_value : TcpState → ℕ
state_value syn_sent = 0
state_value syn_received = 1
state_value established = 2
state_value fin_wait1 = 3
state_value fin_wait2 = 4
state_value close_wait = 5
state_value closing = 6
state_value last_ack = 7
state_value time_wait = 8

abbrev pub same_state : TcpState → TcpState → Bool
same_state s t = state_value s == state_value t

-- `Connection connection;` with the members' initializers.
abbrev pub new_connection : TcpState → ℕ → Connection
new_connection state local_isn = record {
  state = state;
  remote_isn = 0;
  remote_isn_known = true;
  local_isn = local_isn;
  rcv_nxt = 0;
  snd_una = 0;
  snd_nxt = 0;
  pending = [];
  local_fin_seq = none;
  time_wait_deadline = none;
  pending_removal = false;
  snd_wnd = 0;
  snd_wl1 = 0;
  snd_wl2 = 0;
  out_of_order = [];
  pending_fin_seq = none;
  peer_mss = 536;
  effective_send_mss = 1460;
  peer_window_scale = 0;
  local_window_scale = 0;
  window_scaling_enabled = false;
  sack_permitted = false;
  has_rtt_sample = false;
  srtt = 0;
  rttvar = 0;
  current_rto = 1000000000;
  cwnd = 0;
  ssthresh = 65535;
  duplicate_ack_count = 0;
  in_fast_recovery = false;
  recovery_point = 0;
  congestion_avoidance_acked_bytes = 0;
  unsent = [];
  close_requested = false;
  persist_deadline = none;
  persist_interval = 1000000000;
}
