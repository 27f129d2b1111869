-- ===== src/ArpCache/Poll.antt =====
-- The retries of an unanswered resolution.
use wirestack.Common.{ℕ, ◌+◌, ◌≤◌, ◌<◌, ◌≡◌, arith}
use wirestack.ArpCache.{
  Entry, failed, incomplete_entry, arp_retry_interval, polled, poll_action, is_due,
}
use wirestack.ArpCache.{skip, again, give_up}

-- After `again`, nothing happens to the entry for one retry interval.
pub poll_action-spaced :
    (now later : ℕ) (e : Entry)
    → poll_action now e ≡ again
    → later < now + arp_retry_interval
    → poll_action later (polled now e) ≡ skip
unfolding poll_action polled is_due
poll_action-spaced now later e h soon = ground arith

-- A resolution that nobody answers, polled no sooner than a second apart, is sent again twice and
-- then fails: three requests in all.
pub three_requests :
    (t0 t1 t2 t3 : ℕ)
    → t0 + arp_retry_interval ≤ t1
    → t1 + arp_retry_interval ≤ t2
    → t2 + arp_retry_interval ≤ t3
    → let e0 = incomplete_entry t0 in
      let e1 = polled t1 e0 in
      let e2 = polled t2 e1 in
      (poll_action t1 e0 ≡ again)
      × (poll_action t2 e1 ≡ again)
      × (poll_action t3 e2 ≡ give_up)
      × ((polled t3 e2).state ≡ failed)
      × ((polled t3 e2).transmit_count ≡ 3)
unfolding poll_action polled is_due
three_requests t0 t1 t2 t3 a b c = ground arith
