-- ===== src/TcpConnection/Options.antt =====
-- The option bytes that are sent: `buildSynAckOptions`, `buildActiveSynOptions` and
-- `buildSackOptions`.
pub mod RoundTrip
use wirestack.Common.{ℕ, zero, suc, ◌+◌, ◌*◌, ◌/◌, ◌%◌, ◌^◌, Bool, List, [], ◌∷◌, ◌++◌, length}
use wirestack.Common.{if◌then◌else◌, ◌!=◌}
use wirestack.Bytes.{u8, byte_of, write_big_endian16, write_big_endian32}
use wirestack.Tcp.Options.{TcpSackBlock}
use wirestack.TcpConnection.State.{Connection}

abbrev pub tcp_mss : ℕ
tcp_mss = 1460

abbrev pub local_window_scale_shift : ℕ
local_window_scale_shift = 2

-- `while (out.size() % 4 != 0)`: at most three rounds.
unfoldable pub pad_to_word : ℕ → List ℕ → List ℕ
pad_to_word zero out = out
pad_to_word (suc fuel) out =
    let rest = pad_to_word fuel (out ++ 0 ∷ []) in if length out % 4 != 0 then rest else out

-- With SACK permitted or not, and with window scaling or not.
unfoldable pub syn_ack_bytes : Bool → Bool → ℕ → List ℕ
syn_ack_bytes sack_permitted scaling scale = pad_to_word 3 (
    2 ∷ 4 ∷ write_big_endian16 tcp_mss
    ++ ((if sack_permitted then 4 ∷ 2 ∷ [] else [])
        ++ (if scaling then 1 ∷ 3 ∷ 3 ∷ u8 scale ∷ [] else [])))

unfoldable pub build_syn_ack_options : Connection → List ℕ
build_syn_ack_options connection =
    syn_ack_bytes connection.sack_permitted connection.window_scaling_enabled
      connection.local_window_scale

unfoldable pub build_active_syn_options : List ℕ
build_active_syn_options =
    pad_to_word 3
      (2 ∷ 4 ∷ write_big_endian16 tcp_mss ++ 4 ∷ 2 ∷ 1 ∷ 3 ∷ 3 ∷ local_window_scale_shift ∷ [])

-- The loop over the blocks.
unfoldable pub block_bytes : List TcpSackBlock → List ℕ
block_bytes [] = []
block_bytes (block ∷ blocks) =
    write_big_endian32 block.left_edge
    ++ (write_big_endian32 block.right_edge ++ block_bytes blocks)

unfoldable pub build_sack_options : List TcpSackBlock → List ℕ
build_sack_options [] = []
build_sack_options (block ∷ blocks) =
    pad_to_word 3 (5 ∷ u8 (2 + 8 * length (block ∷ blocks)) ∷ block_bytes (block ∷ blocks))
