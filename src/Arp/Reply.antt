-- ===== src/Arp/Reply.antt =====
-- The exchange of a request and its reply between two hosts.
use wirestack.Common.{◌≡◌, ◌↔◌, refl, true, some, arith}
use wirestack.Address.{MacAddress, Ipv4Address}
use wirestack.Address.Laws.{ip_equal_iff, mac_equal_iff}
use wirestack.Arp.{ArpPacket, maybe_reply, make_arp_reply, make_arp_request, is_arp_reply_for}

-- A request is answered exactly when it asks for the local address.
pub maybe_reply-some_iff :
    (r : ArpPacket) (local_ip : Ipv4Address) (local_mac : MacAddress)
    → (maybe_reply r local_ip local_mac ≡ some (make_arp_reply r local_ip local_mac))
      ↔ (r.target_ip ≡ local_ip)
unfolding maybe_reply
maybe_reply-some_iff r local_ip local_mac = ground (arith, ip_equal_iff r.target_ip local_ip)

-- Between two hosts: the owner of the requested address answers the request, the requester takes
-- the answer for its own, and reads the owner's address pair from it.
pub request_answered :
    (a_ip b_ip : Ipv4Address) (a_mac b_mac : MacAddress)
    → (r : ArpPacket) × (maybe_reply (make_arp_request a_ip a_mac b_ip) b_ip b_mac ≡ some r)
      × (is_arp_reply_for r a_ip a_mac ≡ true)
      × (r.sender_ip ≡ b_ip)
      × (r.sender_mac ≡ b_mac)
unfolding maybe_reply make_arp_request is_arp_reply_for make_arp_reply
request_answered a_ip b_ip a_mac b_mac = (
  make_arp_reply (make_arp_request a_ip a_mac b_ip) b_ip b_mac,
  ground (arith, ip_equal_iff b_ip b_ip),
  ground (arith, ip_equal_iff a_ip a_ip, mac_equal_iff a_mac a_mac),
  refl,
  refl,
)
