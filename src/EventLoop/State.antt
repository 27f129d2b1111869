-- ===== src/EventLoop/State.antt =====
-- The options of a run, and the variables of `main` that its loop changes.
use wirestack.Common.{ℕ, List, Option, none, some, Bool, false}
use wirestack.Common.Text.{Text}
use wirestack.Address.{Ipv4Address}
use wirestack.ArpCache.{ArpCache}
use wirestack.UdpEndpoint.{UdpHandler}
use wirestack.Dns.Session.{DnsClientSession}
use wirestack.Http.Request.{HttpConnectionState}
use wirestack.HttpClient.Session.{HttpClientSession}
use wirestack.TcpConnection.Key.{TcpConnectionKey, key_equal}
use wirestack.TcpConnection.Table.{TcpConnectionTable}

pub data RuntimeMode : Type 0 where
  passive active_open http_get : RuntimeMode

pub record RuntimeOptions : Type 0 where
  pub mode : RuntimeMode
  pub destination_is_hostname : Bool
  pub remote_ip : Ipv4Address
  pub hostname : Text
  pub remote_port : ℕ
  pub source_port : ℕ
  pub dns_server_ip : Ipv4Address
  pub dns_server_port : ℕ
  pub target : Text

pub record DnsRuntimeState : Type 0 where
  pub session : DnsClientSession
  pub transaction_id : ℕ
  pub query_started : Bool
  pub tcp_source_port : ℕ
  pub http_port : ℕ
  pub host_header : Text

abbrev pub HttpSessions : Type 0
HttpSessions = List (TcpConnectionKey × HttpConnectionState)

abbrev pub HttpClientSessions : Type 0
HttpClientSessions = List (TcpConnectionKey × HttpClientSession)

pub record Runtime : Type 0 where
  pub arp_cache : ArpCache
  pub udp_endpoints : List (ℕ × UdpHandler)
  pub tcp_connections : TcpConnectionTable
  pub http_sessions : HttpSessions
  pub http_client_sessions : HttpClientSessions
  pub active_open_started : Bool
  pub active_open_key : Option TcpConnectionKey
  pub dial_target_ip : Option Ipv4Address
  pub dns_state : Option DnsRuntimeState

-- `key == active_open_key`
abbrev pub is_active_open : TcpConnectionKey → Option TcpConnectionKey → Bool
is_active_open key none = false
is_active_open key (some active) = key_equal key active
