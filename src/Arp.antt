-- ===== src/Arp.antt =====
-- src/arp.cpp and include/wirestack/arp.hpp: ARP packets and the replies to them.
pub mod RoundTrip
pub mod Reply
use wirestack.Common.{ℕ, ◌+◌, ◌<◌, List, [], ◌∷◌, ◌++◌, Bool, ◌&&◌, not, Option, none, some}
use wirestack.Common.{Result, ok, err, ltb, ◌==◌, ◌!=◌, if◌then◌else◌, length}
use wirestack.Bytes.{byte_at, read_big_endian16, write_big_endian16}
use wirestack.Address.{MacAddress, Ipv4Address, IsMac, IsIpv4, zero_mac, mac_equal, ip_equal}
use wirestack.Address.{read_mac_address, read_ipv4_address, write_mac_address, write_ipv4_address}

pub data ArpOperation : Type 0 where
  request reply : ArpOperation

pub record ArpPacket : Type 0 where
  pub operation : ArpOperation
  pub sender_mac : MacAddress
  pub sender_ip : Ipv4Address
  pub target_mac : MacAddress
  pub target_ip : Ipv4Address

pub data ArpParseError : Type 0 where
  too_short unsupported_hardware_type unsupported_protocol_type : ArpParseError
  invalid_hardware_size invalid_protocol_size unsupported_operation : ArpParseError

abbrev pub packet_size : ℕ
packet_size = 28

-- `static_cast<std::uint16_t>(operation)`, and `static_cast<ArpOperation>` on the two values that
-- the parser lets through.
abbrev pub operation_code : ArpOperation → ℕ
operation_code request = 1
operation_code reply = 2

abbrev pub operation_of : ℕ → ArpOperation
operation_of code = if code == 1 then request else reply

abbrev pub is_reply : ArpOperation → Bool
is_reply request = Bool.false
is_reply reply = Bool.true

unfoldable pub parse_arp_packet : List ℕ → Result ArpParseError ArpPacket
parse_arp_packet payload =
    let raw_operation = read_big_endian16 payload 6 in
    if ltb (length payload) packet_size
    then err too_short
    else if read_big_endian16 payload 0 != 1
    then err unsupported_hardware_type
    else if read_big_endian16 payload 2 != 0x0800
    then err unsupported_protocol_type
    else if byte_at payload 4 != 6
    then err invalid_hardware_size
    else if byte_at payload 5 != 4
    then err invalid_protocol_size
    else if raw_operation != 1 && raw_operation != 2
    then err unsupported_operation
    else ok (record {
      operation = operation_of raw_operation;
      sender_mac = read_mac_address payload 8;
      sender_ip = read_ipv4_address payload 14;
      target_mac = read_mac_address payload 18;
      target_ip = read_ipv4_address payload 24;
    })

unfoldable pub serialize_arp_packet : ArpPacket → List ℕ
serialize_arp_packet packet =
    write_big_endian16 1
    ++ (write_big_endian16 0x0800
        ++ (6 ∷ 4 ∷ []
            ++ (write_big_endian16 (operation_code packet.operation)
                ++ (write_mac_address packet.sender_mac
                    ++ (write_ipv4_address packet.sender_ip
                        ++ (write_mac_address packet.target_mac
                            ++ write_ipv4_address packet.target_ip))))))

unfoldable pub make_arp_request : Ipv4Address → MacAddress → Ipv4Address → ArpPacket
make_arp_request local_ip local_mac target_ip = record {
  operation = request;
  sender_mac = local_mac;
  sender_ip = local_ip;
  target_mac = zero_mac;
  target_ip = target_ip;
}

unfoldable pub is_arp_reply_for : ArpPacket → Ipv4Address → MacAddress → Bool
is_arp_reply_for packet local_ip local_mac =
    is_reply packet.operation
    && ip_equal packet.target_ip local_ip
    && mac_equal packet.target_mac local_mac

unfoldable pub make_arp_reply : ArpPacket → Ipv4Address → MacAddress → ArpPacket
make_arp_reply request_packet local_ip local_mac = record {
  operation = reply;
  sender_mac = local_mac;
  sender_ip = local_ip;
  target_mac = request_packet.sender_mac;
  target_ip = request_packet.sender_ip;
}

unfoldable pub maybe_reply : ArpPacket → Ipv4Address → MacAddress → Option ArpPacket
maybe_reply request_packet local_ip local_mac =
    if not (ip_equal request_packet.target_ip local_ip)
    then none
    else some (make_arp_reply request_packet local_ip local_mac)
