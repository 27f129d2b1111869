-- ===== src/Examples/Codecs.antt =====
-- The packet codecs at concrete packets.
use wirestack.Common.{
  ℕ, ◌+◌, ◌-◌, ◌*◌, ◌%◌, ◌≡◌, ◌≢◌, refl, List, [], ◌∷◌, ◌++◌, arith, ok, err, true,
}
use wirestack.Common.{take}
use wirestack.Bytes.{join16, read_big_endian16, byte_of}
use wirestack.Address.{write_mac_address, write_ipv4_address, MacAddress, Ipv4Address, broadcast}
use wirestack.Checksum.{sum_words, complement, internet_checksum, fold}
use wirestack.Checksum.Sum.{word_sum}
use wirestack.Checksum.Fold.{ones, fold-eq-ones}
use wirestack.Checksum.Correct.{internet_checksum-eq-ones, one_word_detected}
use wirestack.Ethernet
use wirestack.Ethernet.{EthernetFrame, parse_ethernet_frame, serialize_ethernet_frame}
use wirestack.Arp.{ArpOperation, ArpPacket}
use wirestack.Icmp.{IcmpEcho, echo_request, serialize_icmp_echo, unsummed}
use wirestack.Ipv4.{unsummed_header, Ipv4Packet, parse_ipv4_packet, serialize_ipv4_packet}
use wirestack.Ipv4.RoundTrip.{parse_ipv4_packet-serialize}
use wirestack.Ipv4.Accepts.{damaged_header_rejected}
use wirestack.Udp.{UdpDatagram, parse_udp_datagram, serialize_udp_datagram}
use wirestack.Udp.RoundTrip.{parse_udp_datagram-serialize}
use wirestack.Tcp.Flags.{no_flags}
use wirestack.Tcp.Segment.{TcpSegment, parse_tcp_segment, serialize_tcp_segment}
use wirestack.Tcp.SegmentRoundTrip.{parse_tcp_segment-serialize}
use wirestack.Tcp.Options.{
  failed, missing_length, options_loop, long_option, apply_option, mss_option, read16, read,
  parse_tcp_options,
}
use wirestack.Tcp.OptionsSafe.{Settles, IsParsed, parse_tcp_options-Settles}

abbrev mac_a : MacAddress
mac_a = record { m0 = 2; m1 = 0; m2 = 0; m3 = 0; m4 = 0; m5 = 1 }

abbrev mac_b : MacAddress
mac_b = record { m0 = 2; m1 = 0; m2 = 0; m3 = 0; m4 = 0; m5 = 2 }

abbrev ip_a : Ipv4Address
ip_a = record { a0 = 10; a1 = 0; a2 = 0; a3 = 1 }

abbrev ip_b : Ipv4Address
ip_b = record { a0 = 10; a1 = 0; a2 = 0; a3 = 2 }

abbrev frame : EthernetFrame
frame = record {
  destination = broadcast;
  source = mac_a;
  ether_type = 0x0806;
  payload = 1 ∷ 2 ∷ 3 ∷ [];
}

abbrev frame_bytes : List ℕ
frame_bytes = 255 ∷ 255 ∷ 255 ∷ 255 ∷ 255 ∷ 255 ∷ 2 ∷ 0 ∷ 0 ∷ 0 ∷ 0 ∷ 1 ∷ 8 ∷ 6 ∷ 1 ∷ 2 ∷ 3 ∷ []

short_frame : parse_ethernet_frame (take 13 frame_bytes) ≡ err Ethernet.EthernetParseError.too_short
unfolding parse_ethernet_frame
short_frame = refl

abbrev who_has_b : ArpPacket
who_has_b = record {
  operation = ArpOperation.request;
  sender_mac = mac_a;
  sender_ip = ip_a;
  target_mac = mac_b;
  target_ip = ip_b;
}

abbrev arp_bytes : List ℕ
arp_bytes =
    0 ∷ 1 ∷ 8 ∷ 0 ∷ 6 ∷ 4 ∷ 0 ∷ 1 ∷ write_mac_address mac_a
    ++ (write_ipv4_address ip_a ++ (write_mac_address mac_b ++ write_ipv4_address ip_b))

abbrev ping : IcmpEcho
ping = record {
  type = echo_request;
  identifier = 0x1234;
  sequence = 7;
  payload = 104 ∷ 105 ∷ 33 ∷ [];
}

abbrev ping_bytes : List ℕ
ping_bytes = 8 ∷ 0 ∷ 0x5c ∷ 0x5b ∷ 0x12 ∷ 0x34 ∷ 0 ∷ 7 ∷ 104 ∷ 105 ∷ 33 ∷ []

ping_on_the_wire : serialize_icmp_echo ping ≡ ping_bytes
unfolding serialize_icmp_echo unsummed byte_of internet_checksum sum_words fold complement
ping_on_the_wire = refl

abbrev packet : Ipv4Packet
packet = record {
  dscp_ecn = 0;
  identification = 5;
  ttl = 64;
  protocol = 17;
  source = ip_a;
  destination = ip_b;
  payload = 1 ∷ 2 ∷ 3 ∷ [];
}

parse_ipv4_packet-serialize_example :
    (xs : List ℕ) × (serialize_ipv4_packet packet ≡ ok xs)
    × (parse_ipv4_packet (xs ++ 0 ∷ 0 ∷ []) ≡ ok packet)
parse_ipv4_packet-serialize_example =
    parse_ipv4_packet-serialize packet (0 ∷ 0 ∷ []) (omega arith) (omega arith)

-- The header of `packet`, before and after its identification.
abbrev header_front : List ℕ
header_front = 0x45 ∷ 0 ∷ 0 ∷ 23 ∷ []

abbrev header_back : List ℕ
header_back = 0 ∷ 0 ∷ 64 ∷ 17 ∷ 0x66 ∷ 0xcf ∷ 10 ∷ 0 ∷ 0 ∷ 1 ∷ 10 ∷ 0 ∷ 0 ∷ 2 ∷ []

abbrev packet_bytes : List ℕ
packet_bytes = header_front ++ 0 ∷ 5 ∷ header_back ++ 1 ∷ 2 ∷ 3 ∷ []

packet_on_the_wire : serialize_ipv4_packet packet ≡ ok packet_bytes
unfolding serialize_ipv4_packet unsummed_header byte_of internet_checksum sum_words fold complement
packet_on_the_wire = refl

packet_parses : parse_ipv4_packet packet_bytes ≡ ok packet
unfolding parse_ipv4_packet join16 internet_checksum sum_words fold complement
packet_parses = refl

damaged_header_rejected_example :
    parse_ipv4_packet (header_front ++ 0 ∷ 6 ∷ header_back ++ 1 ∷ 2 ∷ 3 ∷ []) ≢ ok packet
damaged_header_rejected_example =
    damaged_header_rejected 2 header_front header_back (1 ∷ 2 ∷ 3 ∷ []) 0 5 0 6 packet packet refl
      refl (omega arith) (omega arith) (omega arith) (omega arith) packet_parses

abbrev datagram : UdpDatagram
datagram = record { source_port = 5000; destination_port = 9000; payload = 104 ∷ 105 ∷ [] }

parse_udp_datagram-serialize_example :
    (xs : List ℕ) × (serialize_udp_datagram datagram ip_a ip_b ≡ ok xs)
    × (read_big_endian16 xs 6 ≢ 0)
    × (parse_udp_datagram (xs ++ []) ip_a ip_b ≡ ok datagram)
parse_udp_datagram-serialize_example =
    parse_udp_datagram-serialize datagram ip_a ip_b [] (omega arith) (omega arith) (omega arith)
      (omega arith)

abbrev syn_segment : TcpSegment
syn_segment = record {
  source_port = 40000;
  destination_port = 8080;
  sequence_number = 0xffff_fff0;
  acknowledgment_number = 0;
  flags = record no_flags { syn = true };
  window_size = 65535;
  urgent_pointer = 0;
  options = 2 ∷ 4 ∷ 5 ∷ 180 ∷ [];
  payload = 7 ∷ [];
}

parse_tcp_segment-serialize_example :
    (xs : List ℕ) × (serialize_tcp_segment syn_segment ip_a ip_b ≡ ok xs)
    × (parse_tcp_segment xs ip_a ip_b ≡ ok syn_segment)
parse_tcp_segment-serialize_example =
    parse_tcp_segment-serialize syn_segment ip_a ip_b (omega arith) (omega arith) (omega arith) refl
      (omega arith) (omega arith)

parse_tcp_options-Settles_example : Settles IsParsed (parse_tcp_options (2 ∷ 4 ∷ 5 ∷ 180 ∷ 3 ∷ []))
parse_tcp_options-Settles_example =
    parse_tcp_options-Settles (2 ∷ 4 ∷ 5 ∷ 180 ∷ 3 ∷ []) (omega arith)

truncated_shift : parse_tcp_options (2 ∷ 4 ∷ 5 ∷ 180 ∷ 3 ∷ []) ≡ failed missing_length
unfolding parse_tcp_options options_loop long_option apply_option mss_option read16 read join16
truncated_shift = refl

internet_checksum-eq-ones_example :
    internet_checksum (1 ∷ 2 ∷ 3 ∷ []) ≡ 65535 - ones (word_sum (1 ∷ 2 ∷ 3 ∷ []))
internet_checksum-eq-ones_example =
    internet_checksum-eq-ones (1 ∷ 2 ∷ 3 ∷ []) (omega arith) (omega arith)

fold-eq-ones_example : fold 2 0xffff_ffff ≡ ones 0xffff_ffff
fold-eq-ones_example = fold-eq-ones 0 0xffff_ffff (omega arith)

one_word_detected_example : (0 * 256 + 5) % 65535 ≡ (0 * 256 + 5) % 65535
unfolding internet_checksum sum_words fold complement
one_word_detected_example =
    one_word_detected 2 header_front header_back refl (omega arith) (omega arith) (omega arith) 0 5
      0 5 (omega arith) (omega arith) (omega arith) (omega arith) refl refl

-- Across the wrap: 5 bytes before and 3 after sequence number 0.
