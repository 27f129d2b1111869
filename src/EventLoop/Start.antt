-- ===== src/EventLoop/Start.antt =====
-- The variables of `main` before its loop, and the neighbour that it resolves first.
use wirestack.Common.{ℕ, ◌*◌, [], ◌∷◌, ◌++◌, false, Option, none, some}
use wirestack.Common.{if◌then◌else◌}
use wirestack.Common.Text.{to_string}
use wirestack.Address.{Ipv4Address}
use wirestack.ArpCache.{ArpCache}
use wirestack.UdpEndpoint.{UdpHandler, bind}
use wirestack.Dns.Session.{pending, dns_initial_interval}
use wirestack.TcpConnection.Table.{TcpConnectionTable}
use wirestack.EventLoop.Arp.{Host, Frames, resolve_neighbor}
use wirestack.EventLoop.State.{
  RuntimeOptions, Runtime, DnsRuntimeState, passive, active_open, http_get,
}

-- `kArpCacheCapacity` entries for `kArpEntryLifetime`.
abbrev pub new_cache : ArpCache
new_cache = record { capacity = 256; entry_lifetime = 300 * 1_000_000_000; entries = [] }

abbrev tcp_listen_port : ℕ
tcp_listen_port = 8080

abbrev pub new_table : TcpConnectionTable
new_table = record {
  listen_port = tcp_listen_port;
  max_connections = 1024;
  max_half_open_connections = 256;
  last_isn = none;
  connections = [];
}

abbrev echo_port : ℕ
echo_port = 9000

abbrev echo : UdpHandler
echo request = request

unfoldable pub new_resolver : RuntimeOptions → ℕ → DnsRuntimeState
new_resolver options transaction_id = record {
  session = record {
    server_ip = options.dns_server_ip;
    server_port = options.dns_server_port;
    local_port = 53000;
    hostname = options.hostname;
    transaction_id = 0;
    query_bytes = [];
    transmit_count = 0;
    next_deadline = none;
    current_interval = dns_initial_interval;
    state = pending;
    resolved_address = none;
    failure_reason = none;
  };
  transaction_id = transaction_id;
  query_started = false;
  tcp_source_port = options.source_port;
  http_port = options.remote_port;
  host_header = options.hostname ++ (b':' ∷ to_string options.remote_port);
}

abbrev pub idle_runtime : Runtime
idle_runtime = record {
  arp_cache = new_cache;
  udp_endpoints = (bind echo_port echo []).1;
  tcp_connections = new_table;
  http_sessions = [];
  http_client_sessions = [];
  active_open_started = false;
  active_open_key = none;
  dial_target_ip = none;
  dns_state = none;
}

abbrev pub with_target : Host → RuntimeOptions → Runtime
with_target host options = record idle_runtime {
  dial_target_ip = some options.remote_ip;
  active_open_key = some record {
    local_ip = host.ip;
    local_port = options.source_port;
    remote_ip = options.remote_ip;
    remote_port = options.remote_port;
  };
}

-- The argument is the number that `std::random_device` returns, as 16 bits.
unfoldable pub configure : Host → RuntimeOptions → ℕ → Runtime
configure host options transaction_id = elim options.mode [
  | passive ↦ idle_runtime
  | active_open ↦ with_target host options
  | http_get ↦
      if options.destination_is_hostname
      then record idle_runtime { dns_state = some (new_resolver options transaction_id) }
      else with_target host options
]

abbrev pub initial_neighbor : Runtime → Option Ipv4Address
initial_neighbor runtime = elim runtime.dns_state [
  | some state ↦ some state.session.server_ip
  | none ↦ runtime.dial_target_ip
]

unfoldable pub start : Host → RuntimeOptions → ℕ → ℕ → Frames × Runtime
start host options transaction_id now =
    let runtime = configure host options transaction_id in
    elim (initial_neighbor runtime) [
      | none ↦ ([], runtime)
      | some ip ↦
          let (mac, frames, cache) = resolve_neighbor host ip now runtime.arp_cache in
          (frames, record runtime { arp_cache = cache })
    ]
