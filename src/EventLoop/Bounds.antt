-- ===== src/EventLoop/Bounds.antt =====
-- The neighbour cache and the connection table stay within their limits, whatever is received.
use wirestack.Common.{ℕ, ◌≡◌, refl, ◌∙◌, List, [], Option, none, some, arith, Bool}
use wirestack.Common.{true, false, inl, inr, Option-cases, Result, ok, err, ◌⊎◌, not, ◌&&◌, ◌||◌}
use wirestack.Common.Map
use wirestack.Common.{if◌then◌else◌}
use wirestack.TcpConnection.Schedule.{is_empty}
use wirestack.Address.{MacAddress, Ipv4Address}
use wirestack.Ethernet.{EthernetFrame}
use wirestack.Arp.{is_reply, ArpPacket, parse_arp_packet}
use wirestack.ArpCache.{ArpCache, insert, lookup, state_of}
use wirestack.ArpCache.Bounds as Cache
use wirestack.Tcp.Segment.{TcpSegment}
use wirestack.TcpConnection.Key.{key_equal, TcpConnectionKey, TcpReceiveResult}
use wirestack.TcpConnection.Table.{TcpConnectionTable}
use wirestack.TcpConnection.Api.{make_outgoing_data}
use wirestack.TcpConnection.Limits as Table
use wirestack.Http.Request.{HttpConnectionState}
use wirestack.Http.Response.{HttpResponse, serialize_http_response}
use wirestack.HttpClient.Request.{build_http_get_request}
use wirestack.HttpClient.Session.{HttpClientSession}
use wirestack.EventLoop.Arp.{
  Host, Frames, resolve_neighbor, handle_arp_reply, handle_arp_request, handle_arp, invalid_sender,
}
use wirestack.EventLoop.Limits.{SameLimits, Step-capacity, Step-limits}
use wirestack.EventLoop.Start.{new_cache, new_table}
use wirestack.EventLoop.State.{is_active_open, Runtime}
use wirestack.EventLoop.HttpServer.{session_of, send_response, respond, serve}
use wirestack.EventLoop.HttpClient.{
  ClientStep, receive_response, enqueue_request, start_request, finish, client_step,
  handle_http_client,
}

-- What both branches of a test keep, the test keeps.
pub if_keeps :
    {A : Type 0} (P : A → Type 0) (test : Bool) (x y : A) → P x → P y → P (if test then x else y)
if_keeps P true x y p q = p
if_keeps P false x y p q = q

pub Result-cases :
    {E A : Type 0} (r : Result E A) → ((e : E) × (r ≡ err e)) ⊎ ((a : A) × (r ≡ ok a))
Result-cases (err e) = inl (e, refl)
Result-cases (ok a) = inr (a, refl)

-- The two within the limits that `main` gives them.
unfoldable pub IsCacheBounded : ArpCache → Type 0
IsCacheBounded c = Cache.IsBounded c × (c.capacity ≡ new_cache.capacity)

unfoldable pub IsTableBounded : TcpConnectionTable → Type 0
IsTableBounded t = Table.IsWithin t × SameLimits t new_table

pub cache_step : {c d : ArpCache} → Cache.Step c d → IsCacheBounded c → IsCacheBounded d
unfolding IsCacheBounded
cache_step step v =
    (Cache.Reach-IsBounded v.0 (Cache.later Cache.start step), Step-capacity step ∙ v.1)

pub table_step : {t u : TcpConnectionTable} → Table.Step t u → IsTableBounded t → IsTableBounded u
unfolding IsTableBounded SameLimits
table_step step w =
    let same = Step-limits step in
    (Table.Reach-IsWithin w.0 (Table.later Table.start step), (same.0 ∙ w.1.0, same.1 ∙ w.1.1))

pub insert-bounded :
    (ip : Ipv4Address) (mac : MacAddress) (now : ℕ) (c : ArpCache)
    → IsCacheBounded c
    → IsCacheBounded (insert ip mac now c)
insert-bounded ip mac now c = cache_step (Cache.inserts ip mac now c)

pub lookup-bounded :
    (ip : Ipv4Address) (now : ℕ) (c : ArpCache)
    → IsCacheBounded c
    → IsCacheBounded (lookup ip now c).1
lookup-bounded ip now c = cache_step (Cache.looks_up ip now c)

state_of-lookup :
    (ip : Ipv4Address) (now : ℕ) (c : ArpCache) → (state_of ip now c).1 ≡ (lookup ip now c).1
unfolding state_of lookup
state_of-lookup ip now c = ground arith

state_of-bounded :
    (ip : Ipv4Address) (now : ℕ) (c : ArpCache)
    → IsCacheBounded c
    → IsCacheBounded (state_of ip now c).1
state_of-bounded ip now c v = rw (state_of-lookup ip now c) (lookup-bounded ip now c v)

pub resolve_neighbor-bounded :
    (host : Host) (ip : Ipv4Address) (now : ℕ) (c : ArpCache)
    → IsCacheBounded c
    → IsCacheBounded (resolve_neighbor host ip now c).2
unfolding resolve_neighbor
resolve_neighbor-bounded host ip now c v =
    let looked = lookup-bounded ip now c v in
    let begun = cache_step (Cache.begins ip now (lookup ip now c).1) looked in
    elim (Option-cases (lookup ip now c).0) [
      | inl p ↦ rw (resolve_neighbor, p) begun
      | inr (mac, p) ↦ rw (resolve_neighbor, p) looked
    ]

KeepsCache : Frames × ArpCache → Type 0
KeepsCache after = IsCacheBounded after.1

handle_arp_reply-bounded :
    (host : Host) (frame : EthernetFrame) (packet : ArpPacket) (asked learned : ℕ) (c : ArpCache)
    → IsCacheBounded c
    → IsCacheBounded (handle_arp_reply host frame packet asked learned c)
unfolding handle_arp_reply
handle_arp_reply-bounded host frame packet asked learned c v =
    let after = state_of-bounded packet.sender_ip asked c v in
    ground (
      arith,
      insert-bounded packet.sender_ip packet.sender_mac learned
          (state_of packet.sender_ip asked c).1 after,
    )

handle_arp_request-bounded :
    (host : Host) (packet : ArpPacket) (learned : ℕ) (c : ArpCache)
    → IsCacheBounded c
    → IsCacheBounded (handle_arp_request host packet learned c).1
unfolding handle_arp_request
handle_arp_request-bounded host packet learned c v =
    ground (arith, insert-bounded packet.sender_ip packet.sender_mac learned c v)

pub handle_arp-bounded :
    (host : Host) (frame : EthernetFrame) (asked learned : ℕ) (c : ArpCache)
    → IsCacheBounded c
    → IsCacheBounded (handle_arp host frame asked learned c).1
unfolding handle_arp KeepsCache
handle_arp-bounded host frame asked learned c v =
    elim (Result-cases (parse_arp_packet frame.payload)) [
      | inl (e, p) ↦ rw (handle_arp, p) v
      | inr (packet, p) ↦
          rw (handle_arp, p)
            (if_keeps KeepsCache (invalid_sender frame packet) ([], c) _ v
              (if_keeps KeepsCache (is_reply packet.operation) _ _
                (handle_arp_reply-bounded host frame packet asked learned c v)
                (handle_arp_request-bounded host packet learned c v)))
    ]

-- The state of both within the limits.
pub record IsSound (runtime : Runtime) : Type 0 where
  pub neighbors : IsCacheBounded runtime.arp_cache
  pub connections : IsTableBounded runtime.tcp_connections

unfoldable pub KeepsRuntime : Frames × Runtime → Type 0
KeepsRuntime after = IsSound after.1

send_response-within :
    (reply : TcpSegment → Frames) (key : TcpConnectionKey) (response : HttpResponse) (now : ℕ)
    (t : TcpConnectionTable)
    → IsTableBounded t
    → IsTableBounded (send_response reply key response now t).1
unfolding send_response
send_response-within reply key response now t w =
    let bytes = serialize_http_response response in
    let queued = table_step (Table.send key bytes now t) w in
    let closed = table_step (Table.close key now (make_outgoing_data key bytes now t).1) queued in
    elim (Option-cases (make_outgoing_data key bytes now t).0.error) [
      | inl p ↦ rw (send_response, p) closed
      | inr (e, p) ↦ rw (send_response, p) queued
    ]

respond-IsSound :
    (reply : TcpSegment → Frames) (key : TcpConnectionKey) (session : HttpConnectionState)
    (response : Option HttpResponse) (now : ℕ) (runtime : Runtime)
    → IsSound runtime
    → IsSound (respond reply key session response now runtime).1
unfolding respond
respond-IsSound reply key session none now runtime v = record {
  neighbors = v.neighbors;
  connections = v.connections;
}
respond-IsSound reply key session (some response) now runtime v = record {
  neighbors = v.neighbors;
  connections = send_response-within reply key response now runtime.tcp_connections v.connections;
}

pub serve-IsSound :
    (reply : TcpSegment → Frames) (key : TcpConnectionKey) (result : TcpReceiveResult) (now : ℕ)
    (runtime : Runtime)
    → IsSound runtime
    → IsSound (serve reply key result now runtime).1
unfolding serve KeepsRuntime
serve-IsSound reply key result now runtime v =
    let quiet = is_empty result.accepted_payload && not result.peer_closed in
    if_keeps KeepsRuntime quiet ([], runtime) _ v
      (if_keeps KeepsRuntime (is_active_open key runtime.active_open_key) ([], runtime) _ v
        (if_keeps KeepsRuntime (session_of key runtime.http_sessions).responded _ _
          (record { neighbors = v.neighbors; connections = v.connections })
          (respond-IsSound reply key _ _ now runtime v)))

KeepsTable : ClientStep → Type 0
KeepsTable step = IsTableBounded step.connections

enqueue_request-within :
    (reply : TcpSegment → Frames) (key : TcpConnectionKey) (request : List ℕ) (now : ℕ)
    (session : HttpClientSession) (t : TcpConnectionTable)
    → IsTableBounded t
    → IsTableBounded (enqueue_request reply key request now session t).connections
unfolding enqueue_request
enqueue_request-within reply key request now session t w =
    let queued = table_step (Table.send key request now t) w in
    elim (Option-cases (make_outgoing_data key request now t).0.error) [
      | inl p ↦ rw (enqueue_request, p) queued
      | inr (e, p) ↦ rw (enqueue_request, p) queued
    ]

start_request-within :
    (reply : TcpSegment → Frames) (key : TcpConnectionKey) (result : TcpReceiveResult) (now : ℕ)
    (session : HttpClientSession) (t : TcpConnectionTable)
    → IsTableBounded t
    → IsTableBounded (start_request reply key result now session t).connections
unfolding start_request KeepsTable
start_request-within reply key result now session t w =
    let idle = not (result.connection_established && not session.request_enqueued) in
    elim (Option-cases (build_http_get_request session.host_header session.target)) [
      | inl p ↦ rw (start_request, p) (if_keeps KeepsTable idle _ _ w w)
      | inr (request, p) ↦
          rw (start_request, p)
            (if_keeps KeepsTable idle _ _ w
              (enqueue_request-within reply key request now session t w))
    ]

finish-within :
    (reply : TcpSegment → Frames) (key : TcpConnectionKey) (now : ℕ) (session : HttpClientSession)
    (t : TcpConnectionTable)
    → IsTableBounded t
    → IsTableBounded (finish reply key now session t).connections
unfolding finish KeepsTable
finish-within reply key now session t w =
    if_keeps KeepsTable
      ((session.response_complete || session.failed) && not session.close_initiated) _ _
      (table_step (Table.close key now t) w) w

pub handle_http_client-IsSound :
    (reply : TcpSegment → Frames) (key : TcpConnectionKey) (result : TcpReceiveResult) (now : ℕ)
    (runtime : Runtime)
    → IsSound runtime
    → IsSound (handle_http_client reply key result now runtime).1
unfolding handle_http_client client_step
handle_http_client-IsSound reply key result now runtime v =
    let t = runtime.tcp_connections in
    elim (Option-cases (Map.find key_equal key runtime.http_client_sessions)) [
      | inl p ↦ rw (handle_http_client, p) v
      | inr (session, p) ↦
          let started = start_request reply key result now session t in
          rw (handle_http_client, p)
            (record {
              neighbors = v.neighbors;
              connections =
                  finish-within reply key now (receive_response started.session result)
                    started.connections
                    (start_request-within reply key result now session t v.connections);
            })
    ]
