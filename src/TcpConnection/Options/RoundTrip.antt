-- ===== src/TcpConnection/Options/RoundTrip.antt =====
-- What the peer's parser reads from the options of a SYN and of a SYN-ACK.
use wirestack.Common.{ℕ, ◌<◌, ◌≡◌, refl, Bool, true, false, some, none, [], arith}
use wirestack.Common.{if◌then◌else◌}
use wirestack.Bytes.{u8, byte_of, join16}
use wirestack.Tcp.Options.{done, parse_tcp_options}
use wirestack.Tcp.Options.{
  options_loop, long_option, apply_option, mss_option, window_scale_option, sack_permitted_option,
  read, read16,
}
use wirestack.TcpConnection.Options.{pad_to_word}
use wirestack.TcpConnection.State.{Connection}
use wirestack.TcpConnection.Options.{
  tcp_mss, local_window_scale_shift, syn_ack_bytes, build_syn_ack_options, build_active_syn_options,
}

-- The active SYN offers everything.
pub parse_tcp_options-build_active_syn_options :
    parse_tcp_options build_active_syn_options
    ≡ done (record {
      maximum_segment_size = some tcp_mss;
      window_scale = some local_window_scale_shift;
      sack_permitted = true;
      sack_blocks = [];
    })
unfolding parse_tcp_options build_active_syn_options options_loop long_option apply_option
    mss_option window_scale_option sack_permitted_option read read16 pad_to_word byte_of join16
parse_tcp_options-build_active_syn_options = refl

parse_tcp_options-syn_ack_bytes :
    (sack_permitted scaling : Bool) (scale : ℕ)
    → parse_tcp_options (syn_ack_bytes sack_permitted scaling scale)
      ≡ done (record {
        maximum_segment_size = some tcp_mss;
        window_scale = if scaling then some (u8 scale) else none;
        sack_permitted = sack_permitted;
        sack_blocks = [];
      })
unfolding parse_tcp_options syn_ack_bytes options_loop long_option apply_option mss_option
    window_scale_option sack_permitted_option read read16 pad_to_word byte_of join16
parse_tcp_options-syn_ack_bytes false false scale = refl
parse_tcp_options-syn_ack_bytes false true scale = refl
parse_tcp_options-syn_ack_bytes true false scale = refl
parse_tcp_options-syn_ack_bytes true true scale = refl

-- The peer reads from a SYN-ACK what the connection negotiated, its own segment size included.
pub parse_tcp_options-build_syn_ack_options :
    (c : Connection)
    → c.local_window_scale < 256
    → parse_tcp_options (build_syn_ack_options c)
      ≡ done (record {
        maximum_segment_size = some tcp_mss;
        window_scale = if c.window_scaling_enabled then some c.local_window_scale else none;
        sack_permitted = c.sack_permitted;
        sack_blocks = [];
      })
unfolding build_syn_ack_options
parse_tcp_options-build_syn_ack_options c h = ground (
  arith,
  parse_tcp_options-syn_ack_bytes c.sack_permitted c.window_scaling_enabled c.local_window_scale,
)
