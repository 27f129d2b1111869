-- ===== src/EventLoop/Icmp/Ping.antt =====
-- An echo request for the host is answered, from the frame received to the frame sent.
use wirestack.Common.{ℕ, ◌+◌, ◌-◌, ◌≤◌, ◌≡◌, ◌≢◌, sym, ap, ◌∙◌, subst, List, [], ◌∷◌, ok, arith}
use wirestack.Common.{true, false, ◌==◌, set, length, length-take, length-drop, drop, take}
use wirestack.Common.{All-take, All-drop}
use wirestack.Bytes.{IsByte, IsBytes, byte_of, read_big_endian16}
use wirestack.Bytes.Laws.{byte_of-IsByte}
use wirestack.Address.{IsMac, IsIpv4, ip_equal, read_ipv4_address}
use wirestack.Checksum.{internet_checksum}
use wirestack.Ethernet.{EthernetFrame, parse_ethernet_frame}
use wirestack.Ipv4.{Ipv4Packet, IsPacket, parse_ipv4_packet}
use wirestack.Icmp.{
  IcmpEcho, IsEcho, echo_reply, echo_request, parse_icmp_echo, serialize_icmp_echo, make_echo_reply,
  unsummed, type_code,
}
use wirestack.Icmp.RoundTrip.{parse-IsEcho, parse_icmp_echo-serialize}
use wirestack.EventLoop.Arp.{Host, ether_type_arp}
use wirestack.EventLoop.Send.{packet_from, frame_from, protocol_icmp, ether_type_ipv4}
use wirestack.EventLoop.Send.Frame.{byte_at-IsByte, set-IsBytes, length-set, send_packet-read}
use wirestack.EventLoop.Icmp.{send_echo_reply, handle_icmp}
use wirestack.EventLoop.State.{Runtime}
use wirestack.EventLoop.Ipv4.{Readings, dispatch_packet, handle_ipv4, receive_frame, learn_sender}

-- What is read from bytes is in range.
pub parse_ethernet_frame-ranges :
    (bytes : List ℕ) (frame : EthernetFrame)
    → IsBytes bytes
    → parse_ethernet_frame bytes ≡ ok frame
    → IsMac frame.source × IsBytes frame.payload × (14 + length frame.payload ≤ 65535)
unfolding parse_ethernet_frame
parse_ethernet_frame-ranges bytes frame v h = ground (
  arith,
  byte_at-IsByte bytes 6 v,
  byte_at-IsByte bytes 7 v,
  byte_at-IsByte bytes 8 v,
  byte_at-IsByte bytes 9 v,
  byte_at-IsByte bytes 10 v,
  byte_at-IsByte bytes 11 v,
  All-drop IsByte 14 bytes v,
  length-drop 14 bytes,
)

parse_ipv4_packet-fields :
    (bytes : List ℕ) (packet : Ipv4Packet)
    → parse_ipv4_packet bytes ≡ ok packet
    → (packet.source ≡ read_ipv4_address bytes 12)
      × (packet.payload ≡ take (read_big_endian16 bytes 2 - 20) (drop 20 bytes))
      × (20 ≤ read_big_endian16 bytes 2)
      × (read_big_endian16 bytes 2 ≤ length bytes)
unfolding parse_ipv4_packet
parse_ipv4_packet-fields bytes packet h = ground arith

pub parse_ipv4_packet-ranges :
    (bytes : List ℕ) (packet : Ipv4Packet)
    → IsBytes bytes
    → parse_ipv4_packet bytes ≡ ok packet
    → IsIpv4 packet.source × IsBytes packet.payload × (20 + length packet.payload ≤ length bytes)
parse_ipv4_packet-ranges bytes packet v h =
    let (source, payload, some_header, within) = parse_ipv4_packet-fields bytes packet h in
    let size = read_big_endian16 bytes 2 - 20 in
    let byte = λ (i : ℕ). byte_at-IsByte bytes i v in
    (
      subst IsIpv4 (sym source) (byte 12, byte 13, byte 14, byte 15),
      subst IsBytes (sym payload)
          (All-take IsByte size (drop 20 bytes) (All-drop IsByte 20 bytes v)),
      omega (arith, ap length payload, length-take size (drop 20 bytes), length-drop 20 bytes),
    )

serialize_icmp_echo-ranges :
    (m : IcmpEcho)
    → IsEcho m
    → IsBytes (serialize_icmp_echo m) × (length (serialize_icmp_echo m) ≡ 8 + length m.payload)
unfolding serialize_icmp_echo unsummed
serialize_icmp_echo-ranges m v =
    let out = unsummed m in
    let checksum = internet_checksum out in
    let first = set out 2 (byte_of 1 checksum) in
    let code : IsByte (type_code m.type) = ground arith in
    let valid : IsBytes out = (code, (omega arith, search (byte_of-IsByte, v.payload_bytes))) in
    (
      set-IsBytes first 3 (byte_of 0 checksum)
          (set-IsBytes out 2 (byte_of 1 checksum) valid (byte_of-IsByte 1 checksum))
          (byte_of-IsByte 0 checksum),
      length-set first 3 (byte_of 0 checksum) ∙ length-set out 2 (byte_of 1 checksum) ∙ omega arith,
    )

-- The answer to a request within a packet.
handle_icmp-read :
    (host : Host) (packet : Ipv4Packet) (frame : EthernetFrame) (m : IcmpEcho)
    → IsMac host.mac
    → IsIpv4 host.ip
    → IsMac frame.source
    → IsIpv4 packet.source
    → IsBytes packet.payload
    → packet.protocol ≡ protocol_icmp
    → 34 + length packet.payload ≤ 65535
    → parse_icmp_echo packet.payload ≡ ok m
    → m.type ≡ echo_request
    → (answer xs payload : List ℕ) × (handle_icmp host packet frame ≡ answer ∷ [])
      × (parse_ethernet_frame answer ≡ ok (frame_from host frame.source xs))
      × (parse_ipv4_packet xs ≡ ok (packet_from host packet.source protocol_icmp payload))
      × (parse_icmp_echo payload ≡ ok (record m { type = echo_reply }))
unfolding handle_icmp send_echo_reply make_echo_reply
handle_icmp-read host packet frame m mac ip remote sender valid icmp fits read request =
    let (echo, size) = parse-IsEcho packet.payload m valid read in
    let reply : IcmpEcho = record m { type = echo_reply } in
    let in_range : IsEcho reply = record {
      identifier_fits = echo.identifier_fits;
      sequence_fits = echo.sequence_fits;
      payload_bytes = echo.payload_bytes;
    } in
    let payload = serialize_icmp_echo reply in
    let (bytes, written) = serialize_icmp_echo-ranges reply in_range in
    let answer_packet = packet_from host packet.source protocol_icmp payload in
    let packet_valid : IsPacket answer_packet = record {
      dscp_ecn_byte = omega arith;
      identification_fits = omega arith;
      ttl_byte = omega arith;
      protocol_byte = omega arith;
      source_bytes = ip;
      destination_bytes = sender;
      payload_bytes = bytes;
    } in
    let (answer, xs, sent, as_frame, as_packet) =
      send_packet-read host frame.source answer_packet mac remote packet_valid (omega arith) in
    (
      answer,
      xs,
      payload,
      rw (handle_icmp, read, request, icmp) sent,
      as_frame,
      as_packet,
      parse_icmp_echo-serialize reply in_range (omega arith),
    )

-- The dispatch of a packet that is for the host.
icmp_received :
    (host : Host) (port : ℕ) (readings : Readings) (bytes : List ℕ) (frame : EthernetFrame)
    (packet : Ipv4Packet) (runtime : Runtime) (frames : List (List ℕ))
    → parse_ethernet_frame bytes ≡ ok frame
    → frame.ether_type ≡ ether_type_ipv4
    → parse_ipv4_packet frame.payload ≡ ok packet
    → packet.ttl ≢ 0
    → ip_equal packet.destination host.ip ≡ true
    → packet.protocol ≡ protocol_icmp
    → handle_icmp host packet frame ≡ frames
    → receive_frame host port readings bytes runtime
      ≡ (frames, learn_sender packet frame readings.learned runtime)
unfolding receive_frame handle_ipv4 dispatch_packet
icmp_received host port readings bytes frame packet runtime frames framed kind packed alive ours
      icmp answered =
    let after = learn_sender packet frame readings.learned runtime in
    let live : (packet.ttl == 0) ≡ false = ground arith in
    let not_arp : (frame.ether_type == ether_type_arp) ≡ false = ground arith in
    let is_ipv4 : (frame.ether_type == ether_type_ipv4) ≡ true = ground arith in
    let is_icmp : (packet.protocol == protocol_icmp) ≡ true = ground arith in
    rw (receive_frame, framed, not_arp, is_ipv4)
      (rw (handle_ipv4, packed, live, ours)
        (rw (dispatch_packet, is_icmp) (ap (λ sent. (sent, after)) answered)))

-- A frame whose packet is for the host, with a TTL, and holds an echo request is answered by one
-- frame: from the host to the sender, in Ethernet and in IPv4, it holds an echo reply with the
-- request's identifier, sequence number and payload. The sender's address is learned, and nothing
-- else changes.
pub ping_answered :
    (host : Host) (port : ℕ) (readings : Readings) (bytes : List ℕ) (frame : EthernetFrame)
    (packet : Ipv4Packet) (m : IcmpEcho) (runtime : Runtime)
    → IsMac host.mac
    → IsIpv4 host.ip
    → IsBytes bytes
    → parse_ethernet_frame bytes ≡ ok frame
    → frame.ether_type ≡ ether_type_ipv4
    → parse_ipv4_packet frame.payload ≡ ok packet
    → packet.ttl ≢ 0
    → ip_equal packet.destination host.ip ≡ true
    → packet.protocol ≡ protocol_icmp
    → parse_icmp_echo packet.payload ≡ ok m
    → m.type ≡ echo_request
    → (answer xs payload : List ℕ) × (receive_frame host port readings bytes runtime
        ≡ (answer ∷ [], learn_sender packet frame readings.learned runtime))
      × (parse_ethernet_frame answer ≡ ok (frame_from host frame.source xs))
      × (parse_ipv4_packet xs ≡ ok (packet_from host packet.source protocol_icmp payload))
      × (parse_icmp_echo payload ≡ ok (record m { type = echo_reply }))
ping_answered host port readings bytes frame packet m runtime mac ip valid framed kind packed alive
      ours icmp read request =
    let (remote, within, frame_size) = parse_ethernet_frame-ranges bytes frame valid framed in
    let (sender, inner, packet_size) =
      parse_ipv4_packet-ranges frame.payload packet within packed in
    let (answer, xs, payload, answered, as_frame, as_packet, as_echo) =
      handle_icmp-read host packet frame m mac ip remote sender inner icmp (omega arith) read
        request in
    (
      answer,
      xs,
      payload,
      icmp_received host port readings bytes frame packet runtime (answer ∷ []) framed kind packed
          alive ours icmp answered,
      as_frame,
      as_packet,
      as_echo,
    )
