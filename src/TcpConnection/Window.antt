-- ===== src/TcpConnection/Window.antt =====
-- The receive and send windows of a connection and its retransmission timeout:
-- `bufferedReceiveBytes`, `advertisedWindowFor`, `advertisedLogicalWindowFor`,
-- `availableSendWindow`, `availableCongestionWindow`, `decodePeerWindow`,
-- `expandLocalAdvertisedWindow`, `updateSendWindow` and `recordRttSample`.
use wirestack.Common.{
  ℕ, ◌+◌, ◌-◌, ◌*◌, ◌/◌, ◌^◌, ◌<◌, ◌≤◌, ◌≡◌, inl, inr, Bool-cases, Bool, true, Option, none, some,
  List, [], ◌∷◌, min, max, arith, length, leb, ◌==◌, ◌&&◌, ◌||◌, not, if◌then◌else◌,
}
use wirestack.Bytes.{u32}
use wirestack.Tcp.Segment.{TcpSegment}
use wirestack.TcpConnection.Sequence.{sub32, sequence_greater, sequence_less_or_equal}
use wirestack.TcpConnection.State.{Connection, TcpReassemblyFragment}

abbrev pub tcp_receive_capacity : ℕ
tcp_receive_capacity = 65535 * 2 ^ 2

-- The sum over `connection.out_of_order`.
abbrev fragment_bytes : List TcpReassemblyFragment → ℕ
fragment_bytes [] = 0
fragment_bytes (fragment ∷ rest) = length fragment.payload + fragment_bytes rest

-- One more when a FIN is retained.
abbrev fin_byte : Option ℕ → ℕ
fin_byte none = 0
fin_byte (some seq) = 1

unfoldable pub buffered_receive_bytes : Connection → ℕ
buffered_receive_bytes connection =
    fragment_bytes connection.out_of_order + fin_byte connection.pending_fin_seq

unfoldable pub advertised_window_for : Connection → Bool → ℕ
advertised_window_for connection apply_scale =
    let buffered = buffered_receive_bytes connection in
    let available =
      if leb tcp_receive_capacity buffered then 0 else tcp_receive_capacity - buffered in
    let wire =
      if apply_scale && connection.window_scaling_enabled
      then available / 2 ^ connection.local_window_scale
      else min available 65535 in
    min wire 65535

unfoldable pub expand_local_advertised_window : Connection → ℕ → ℕ
expand_local_advertised_window connection wire =
    if not connection.window_scaling_enabled
    then wire
    else u32 (wire * 2 ^ connection.local_window_scale)

unfoldable pub advertised_logical_window_for : Connection → ℕ
advertised_logical_window_for connection =
    expand_local_advertised_window connection
      (advertised_window_for connection connection.window_scaling_enabled)

unfoldable pub available_send_window : Connection → ℕ
available_send_window connection =
    let flight = sub32 connection.snd_nxt connection.snd_una in
    if leb connection.snd_wnd flight then 0 else connection.snd_wnd - flight

unfoldable pub available_congestion_window : Connection → ℕ
available_congestion_window connection =
    let flight = sub32 connection.snd_nxt connection.snd_una in
    if leb connection.cwnd flight then 0 else connection.cwnd - flight

unfoldable pub decode_peer_window : Connection → ℕ → ℕ
decode_peer_window connection raw =
    if not connection.window_scaling_enabled
    then raw
    else u32 (raw * 2 ^ connection.peer_window_scale)

unfoldable pub update_send_window : Connection → TcpSegment → Connection
update_send_window connection segment =
    let accept =
      sequence_greater segment.sequence_number connection.snd_wl1
      || segment.sequence_number == connection.snd_wl1
        && sequence_less_or_equal connection.snd_wl2 segment.acknowledgment_number in
    if not accept then connection else record connection {
      snd_wnd = decode_peer_window connection segment.window_size;
      snd_wl1 = segment.sequence_number;
      snd_wl2 = segment.acknowledgment_number;
    }

-- Durations in nanoseconds: `kRtoGranularity`, `kMinRto` and `kMaxRto`.
abbrev pub rto_granularity : ℕ
rto_granularity = 1000000

abbrev pub min_rto : ℕ
min_rto = 1000000000

abbrev pub max_rto : ℕ
max_rto = 60000000000

-- The estimator's part of `recordRttSample`; `std::abs` of a difference written out.
unfoldable pub smooth_rtt : Connection → ℕ → Connection
smooth_rtt connection r =
    let diff = connection.srtt - r + (r - connection.srtt) in
    if not connection.has_rtt_sample
    then record connection { srtt = r; rttvar = r / 2; has_rtt_sample = true }
    else record connection {
      rttvar = (connection.rttvar * 3 + diff) / 4;
      srtt = (connection.srtt * 7 + r) / 8;
    }

unfoldable pub record_rtt_sample : Connection → ℕ → Connection
record_rtt_sample connection r =
    let smoothed = smooth_rtt connection r in
    let rto = smoothed.srtt + max rto_granularity (smoothed.rttvar * 4) in
    record smoothed { current_rto = max min_rto (min rto max_rto) }

-- After any sample the timeout is between 1 s and 60 s, and not below the smoothed round trip
-- time unless that passes 60 s.
pub record_rtt_sample-bounds :
    (c : Connection) (r : ℕ)
    → (min_rto ≤ (record_rtt_sample c r).current_rto)
      × ((record_rtt_sample c r).current_rto ≤ max_rto)
      × (min (record_rtt_sample c r).srtt max_rto ≤ (record_rtt_sample c r).current_rto)
unfolding record_rtt_sample
record_rtt_sample-bounds c r = ground arith

-- Once the unacknowledged bytes are within the peer's window, sending all that may be sent takes
-- the next sequence number to the window's right edge, across the wrap.
pub available_send_window-edge :
    (c : Connection)
    → c.snd_una < 2 ^ 32
    → c.snd_nxt < 2 ^ 32
    → c.snd_wnd < 2 ^ 32
    → sub32 c.snd_nxt c.snd_una ≤ c.snd_wnd
    → u32 (c.snd_nxt + available_send_window c) ≡ u32 (c.snd_una + c.snd_wnd)
unfolding available_send_window
available_send_window-edge c hu hn hw le = ground arith

-- With the negotiated scale of two bits and a buffer within its capacity, the window the peer may
-- fill is never more than the buffer has free.
pub advertised_logical_window_for-fits :
    (c : Connection)
    → c.local_window_scale ≡ 2
    → buffered_receive_bytes c ≤ tcp_receive_capacity
    → advertised_logical_window_for c + buffered_receive_bytes c ≤ tcp_receive_capacity
unfolding advertised_logical_window_for advertised_window_for expand_local_advertised_window
advertised_logical_window_for-fits c scale le = elim (Bool-cases c.window_scaling_enabled) [
  | inl on ↦ grind (arith, scale, on)
  | inr off ↦ grind (arith, scale, off)
]
