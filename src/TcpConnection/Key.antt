-- ===== src/TcpConnection/Key.antt =====
-- `TcpConnectionKey` with its defaulted comparisons, and the segments and replies that the
-- functions on a connection start from.
use wirestack.Common.{ℕ, Bool, false, ◌&&◌, ◌||◌, ltb, ◌==◌, Option, none, List, []}
use wirestack.Address.{Ipv4Address, ip_equal, ip_less}
use wirestack.Tcp.Flags.{no_flags}
use wirestack.Tcp.Segment.{TcpSegment}

pub record TcpConnectionKey : Type 0 where
  pub local_ip : Ipv4Address
  pub local_port : ℕ
  pub remote_ip : Ipv4Address
  pub remote_port : ℕ

unfoldable pub key_equal : TcpConnectionKey → TcpConnectionKey → Bool
key_equal a b =
    ip_equal a.local_ip b.local_ip
    && a.local_port == b.local_port
    && ip_equal a.remote_ip b.remote_ip
    && a.remote_port == b.remote_port

unfoldable pub key_less : TcpConnectionKey → TcpConnectionKey → Bool
key_less a b =
    ip_less a.local_ip b.local_ip
    || (ip_equal a.local_ip b.local_ip
        && (ltb a.local_port b.local_port
            || (a.local_port == b.local_port
                && (ip_less a.remote_ip b.remote_ip
                    || (ip_equal a.remote_ip b.remote_ip && ltb a.remote_port b.remote_port)))))

-- `TcpSegment{}` with the ports of a key, from the local side.
abbrev pub segment_from : TcpConnectionKey → TcpSegment
segment_from key = record {
  source_port = key.local_port;
  destination_port = key.remote_port;
  sequence_number = 0;
  acknowledgment_number = 0;
  flags = no_flags;
  window_size = 0;
  urgent_pointer = 0;
  options = [];
  payload = [];
}

pub record TcpReceiveResult : Type 0 where
  pub reply : Option TcpSegment
  pub fast_retransmit : Option TcpSegment
  pub scheduled : List TcpSegment
  pub accepted_payload : List ℕ
  pub peer_closed : Bool
  pub connection_reset : Bool
  pub connection_closed : Bool
  pub connection_established : Bool
  pub admission_rejected : Bool

-- `TcpReceiveResult{}`
abbrev pub no_result : TcpReceiveResult
no_result = record {
  reply = none;
  fast_retransmit = none;
  scheduled = [];
  accepted_payload = [];
  peer_closed = false;
  connection_reset = false;
  connection_closed = false;
  connection_established = false;
  admission_rejected = false;
}
