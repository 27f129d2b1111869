-- ===== src/Ethernet/RoundTrip.antt =====
-- Parsing and serializing Ethernet frames are inverse on everything that fits.
use wirestack.Common.{ℕ, ◌+◌, ◌≤◌, ◌≡◌, List, ◌∷◌, arith, ok, length}
use wirestack.Bytes.{IsBytes}
use wirestack.Bytes.Laws.{join16-byte_of, byte_of-join16}
use wirestack.Ethernet.{EthernetFrame, IsFrame, parse_ethernet_frame, serialize_ethernet_frame}
use wirestack.Ethernet.{header_size, max_ethernet_frame_length}

-- A frame of at most 65535 bytes is parsed back from its serialization.
pub parse_ethernet_frame-serialize :
    (f : EthernetFrame)
    → IsFrame f
    → header_size + length f.payload ≤ max_ethernet_frame_length
    → parse_ethernet_frame (serialize_ethernet_frame f) ≡ ok f
unfolding parse_ethernet_frame serialize_ethernet_frame
parse_ethernet_frame-serialize f v fits = ground (arith, join16-byte_of f.ether_type)

-- Every byte sequence that parses is the serialization of its frame: no byte is lost or invented.
pub serialize_ethernet_frame-parse :
    (xs : List ℕ) (f : EthernetFrame)
    → IsBytes xs
    → parse_ethernet_frame xs ≡ ok f
    → serialize_ethernet_frame f ≡ xs
unfolding parse_ethernet_frame serialize_ethernet_frame
serialize_ethernet_frame-parse
      (d0 ∷ d1 ∷ d2 ∷ d3 ∷ d4 ∷ d5 ∷ s0 ∷ s1 ∷ s2 ∷ s3 ∷ s4 ∷ s5 ∷ t0 ∷ t1 ∷ xs) f p h =
    ground (arith, byte_of-join16 t0 t1)
serialize_ethernet_frame-parse xs f p h = ground arith
