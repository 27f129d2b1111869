-- ===== src/Examples/Connection.antt =====
-- A connection of the TCP connection table at concrete contents.
use wirestack.Common.{◌≡◌, refl, [], ◌∷◌, false, true, none}
use wirestack.TcpConnection.State.{Connection, established}
use wirestack.TcpConnection.Congestion.{avoidance_loop, clamp_cwnd, apply_congestion_growth}

-- Ten bytes sent and not acknowledged, across the wrap, and three received out of order.
abbrev pub ten_sent : Connection
ten_sent = record {
  state = established;
  remote_isn = 100;
  remote_isn_known = true;
  local_isn = 0xffff_0000;
  rcv_nxt = 101;
  snd_una = 0xffff_fffb;
  snd_nxt = 5;
  pending = [];
  local_fin_seq = none;
  time_wait_deadline = none;
  pending_removal = false;
  snd_wnd = 4000;
  snd_wl1 = 101;
  snd_wl2 = 0xffff_fffb;
  out_of_order = record { sequence_start = 200; payload = 1 ∷ 2 ∷ 3 ∷ [] } ∷ [];
  pending_fin_seq = none;
  peer_mss = 1460;
  effective_send_mss = 1460;
  peer_window_scale = 0;
  local_window_scale = 2;
  window_scaling_enabled = true;
  sack_permitted = false;
  has_rtt_sample = false;
  srtt = 0;
  rttvar = 0;
  current_rto = 1000000000;
  cwnd = 10;
  ssthresh = 10;
  duplicate_ack_count = 0;
  in_fast_recovery = false;
  recovery_point = 0;
  congestion_avoidance_acked_bytes = 0;
  unsent = [];
  close_requested = false;
  persist_deadline = none;
  persist_interval = 1000000000;
}

-- A full window of acknowledged bytes grows the window by one segment.
growth_test : (apply_congestion_growth ten_sent 10).cwnd ≡ 1470
unfolding apply_congestion_growth avoidance_loop clamp_cwnd
growth_test = refl
