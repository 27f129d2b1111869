-- ===== src/TcpConnection/Congestion.antt =====
-- The congestion window: `clampCwnd`, `initialCongestionWindow`, `applyCongestionGrowth` and
-- `applyTimeoutCongestionCollapse`.
use wirestack.Common.{ℕ, zero, suc, ◌+◌, ◌-◌, ◌*◌, ◌/◌, ◌^◌, ◌<◌, ◌≤◌, ◌≡◌, true, false}
use wirestack.Common.{map, min, max, arith, ltb, leb, ◌==◌, ◌&&◌, if◌then◌else◌}
use wirestack.Bytes.{u32}
use wirestack.TcpConnection.Sequence.{sub32}
use wirestack.TcpConnection.State.{Connection, PendingTransmission}

abbrev pub max_congestion_window : ℕ
max_congestion_window = 2 ^ 30

abbrev pub initial_congestion_window_floor : ℕ
initial_congestion_window_floor = 14600

unfoldable pub clamp_cwnd : ℕ → ℕ
clamp_cwnd value = min value max_congestion_window

unfoldable pub initial_congestion_window : ℕ → ℕ
initial_congestion_window smss =
    let floor_value = max (2 * smss) initial_congestion_window_floor in
    clamp_cwnd (min (10 * smss) floor_value)

-- The `while` of congestion avoidance: the window and the acknowledged bytes that are left.
unfoldable pub avoidance_loop : ℕ → ℕ → ℕ → ℕ → ℕ × ℕ
avoidance_loop zero smss cwnd acked = (cwnd, acked)
avoidance_loop (suc fuel) smss cwnd acked = elim (ltb 0 cwnd && leb cwnd acked) [
  | true ↦ avoidance_loop fuel smss (clamp_cwnd (cwnd + smss)) (acked - cwnd)
  | false ↦ (cwnd, acked)
]

-- Each round takes at least one byte, so one round more than there are bytes is enough.
unfoldable pub apply_congestion_growth : Connection → ℕ → Connection
apply_congestion_growth connection data_bytes =
    let smss = connection.effective_send_mss in
    let increase = min data_bytes smss in
    let acked = u32 (connection.congestion_avoidance_acked_bytes + data_bytes) in
    let rest = avoidance_loop (suc acked) smss connection.cwnd acked in
    if data_bytes == 0
    then connection
    else if ltb connection.cwnd connection.ssthresh
    then record connection { cwnd = clamp_cwnd (connection.cwnd + increase) }
    else record connection { cwnd = rest.0; congestion_avoidance_acked_bytes = rest.1 }

-- The loop over `connection.pending`.
abbrev forget_sack : PendingTransmission → PendingTransmission
forget_sack entry = record entry { sacked = false; retransmitted_in_recovery = false }

unfoldable pub apply_timeout_congestion_collapse : Connection → Connection
apply_timeout_congestion_collapse connection =
    let flight = sub32 connection.snd_nxt connection.snd_una in
    let smss = connection.effective_send_mss in
    record connection {
      ssthresh = clamp_cwnd (max (flight / 2) (2 * smss));
      cwnd = smss;
      duplicate_ack_count = 0;
      in_fast_recovery = false;
      congestion_avoidance_acked_bytes = 0;
      pending = map forget_sack connection.pending;
    }

-- For a 16-bit segment size the first window is ten segments up to 1460 bytes of segment size, two
-- from 7300 on, and never below the smaller of ten segments and 14600 bytes.
pub initial_congestion_window-eq :
    (smss : ℕ)
    → smss < 65536
    → (smss ≤ 1460 → initial_congestion_window smss ≡ 10 * smss)
      × (7300 ≤ smss → initial_congestion_window smss ≡ 2 * smss)
      × (min (10 * smss) 14600 ≤ initial_congestion_window smss)
unfolding initial_congestion_window clamp_cwnd
initial_congestion_window-eq smss h = ((λ le. ground arith), (λ ge. ground arith), ground arith)

-- With a fuel above the bytes the loop ends by its own test, and never shrinks the window.
pub avoidance_loop-settles :
    (fuel smss cwnd acked : ℕ)
    → acked < fuel
    → 0 < cwnd
    → cwnd ≤ max_congestion_window
    → ((avoidance_loop fuel smss cwnd acked).1 < (avoidance_loop fuel smss cwnd acked).0)
      × (cwnd ≤ (avoidance_loop fuel smss cwnd acked).0)
      × ((avoidance_loop fuel smss cwnd acked).0 ≤ max_congestion_window)
unfolding avoidance_loop clamp_cwnd
avoidance_loop-settles zero smss cwnd acked lt pos le = absurd (omega arith)
avoidance_loop-settles (suc fuel) smss cwnd acked lt pos le = ground (
  arith,
  avoidance_loop-settles fuel smss (min (cwnd + smss) max_congestion_window) (acked - cwnd),
)

-- Growth after an acknowledgment never shrinks a window of at least one byte and never takes it past
-- the maximum of 2 ^ 30, and in congestion avoidance, for at least one acknowledged data byte, leaves
-- fewer acknowledged bytes than one window.
pub apply_congestion_growth-bounds :
    (c : Connection) (data_bytes : ℕ)
    → 0 < c.cwnd
    → c.cwnd ≤ max_congestion_window
    → (c.cwnd ≤ (apply_congestion_growth c data_bytes).cwnd)
      × ((apply_congestion_growth c data_bytes).cwnd ≤ max_congestion_window)
      × (c.ssthresh ≤ c.cwnd
          → 0 < data_bytes
          → (apply_congestion_growth c data_bytes).congestion_avoidance_acked_bytes
            < (apply_congestion_growth c data_bytes).cwnd)
unfolding apply_congestion_growth clamp_cwnd
apply_congestion_growth-bounds c data_bytes pos le =
    let acked = u32 (c.congestion_avoidance_acked_bytes + data_bytes) in
    let settled =
      avoidance_loop-settles (suc acked) c.effective_send_mss c.cwnd acked (omega arith) pos le in
    (
      ground (arith, settled.1),
      ground (arith, settled.2),
      (λ av some_data. ground (arith, settled.0)),
    )
