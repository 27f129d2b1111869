-- ===== src/TcpConnection/Table.antt =====
-- `TcpConnectionTable`: the connections by key, and `handle` and `beginConnect` on them. What the
-- ISN generator returns, when an operation calls it, is an argument of the operation.
pub mod Handshake
pub mod Reset
pub mod Moves
use wirestack.Common.{ℕ, ◌+◌, Bool, true, false, not, ◌&&◌, ◌||◌, List, [], ◌∷◌, Option, none, some}
use wirestack.Common.{if◌then◌else◌, leb, ◌==◌, ◌!=◌, length}
use wirestack.Common.Map
use wirestack.Bytes.{u32}
use wirestack.Tcp.Flags.{TcpFlags}
use wirestack.Tcp.Segment.{TcpSegment}
use wirestack.Tcp.Options.{TcpParsedOptions, TcpSackBlock}
use wirestack.TcpConnection.State.{
  Connection, PendingTransmission, TcpState, syn_sent, syn_received, time_wait, same_state,
}
use wirestack.TcpConnection.State.{new_connection}
use wirestack.TcpConnection.Key.{TcpConnectionKey, TcpReceiveResult, no_result, key_equal, key_less}
use wirestack.TcpConnection.Segments.{make_closed_port_reset, make_syn_ack, make_active_syn}
use wirestack.TcpConnection.Schedule.{is_empty, is_set, new_pending}
use wirestack.TcpConnection.Synchronized.{parsed_options, handle_synchronized}
use wirestack.TcpConnection.Handshake.{
  negotiate, handle_syn_sent, handle_time_wait, handle_syn_received,
}

abbrev pub Connections : Type 0
Connections = List (TcpConnectionKey × Connection)

pub record TcpConnectionTable : Type 0 where
  pub listen_port : ℕ
  pub max_connections : ℕ
  pub max_half_open_connections : ℕ
  pub last_isn : Option ℕ
  pub connections : Connections

pub data TcpConnectError : Type 0 where
  invalid_port duplicate_connection capacity_exhausted randomness_unavailable : TcpConnectError

pub record TcpConnectResult : Type 0 where
  pub accepted : Bool
  pub syn : Option TcpSegment
  pub error : Option TcpConnectError

abbrev pub is_half_open : Connection → Bool
is_half_open connection =
    same_state connection.state syn_sent || same_state connection.state syn_received

-- `halfOpenCount`
unfoldable pub half_open_count : Connections → ℕ
half_open_count [] = 0
half_open_count ((key, connection) ∷ rest) =
    (if is_half_open connection then 1 else 0) + half_open_count rest

abbrev pub find_connection : TcpConnectionKey → Connections → Option Connection
find_connection = Map.find key_equal

abbrev pub same_isn : Option ℕ → ℕ → Bool
same_isn none isn = false
same_isn (some last) isn = isn == last

-- `nextIsn`, on what the generator returns.
unfoldable pub next_isn : Option ℕ → TcpConnectionTable → Option ℕ × TcpConnectionTable
next_isn none table = (none, table)
next_isn (some isn) table =
    if same_isn table.last_isn isn
    then (none, table)
    else (some isn, record table { last_isn = some isn })

-- `connections_.size() >= max_connections_ || halfOpenCount() >= max_half_open_connections_`
unfoldable pub is_full : TcpConnectionTable → Bool
is_full table =
    leb table.max_connections (length table.connections)
    || leb table.max_half_open_connections (half_open_count table.connections)

unfoldable pub add_connection :
    TcpConnectionKey → Connection → TcpConnectionTable → TcpConnectionTable
add_connection key connection table = record table {
  connections = Map.emplace key_equal key_less key connection table.connections;
}

-- The entry that a SYN or SYN-ACK leaves in the queue.
abbrev pub syn_entry : Connection → TcpFlags → Bool → ℕ → PendingTransmission
syn_entry connection flags active now =
    record (new_pending connection.local_isn flags now connection) {
      is_syn = true;
      is_active_syn = active;
    }

unfoldable pub active_connection : TcpConnectionKey → ℕ → ℕ → TcpSegment × Connection
active_connection key isn now =
    let connection = record (new_connection syn_sent isn) {
      remote_isn_known = false;
      snd_una = isn;
      snd_nxt = u32 (isn + 1);
    } in
    let syn = make_active_syn key connection in
    (syn, record connection { pending = syn_entry connection syn.flags true now ∷ [] })

abbrev connect_error : TcpConnectError → TcpConnectResult
connect_error error = record { accepted = false; syn = none; error = some error }

-- The end of `beginConnect`, on the number that was drawn.
unfoldable pub open_active :
    TcpConnectionKey → ℕ → Option ℕ × TcpConnectionTable → TcpConnectResult × TcpConnectionTable
open_active key now (none, table) = (connect_error randomness_unavailable, table)
open_active key now (some isn, table) =
    let opened = active_connection key isn now in
    (
      record { accepted = true; syn = some opened.0; error = none },
      add_connection key opened.1 table,
    )

unfoldable pub begin_connect :
    TcpConnectionKey → ℕ → Option ℕ → TcpConnectionTable → TcpConnectResult × TcpConnectionTable
begin_connect key now draw table =
    if key.local_port == 0 || key.remote_port == 0
    then (connect_error invalid_port, table)
    else elim (find_connection key table.connections) [
      | some _ ↦ (connect_error duplicate_connection, table)
      | none ↦
          if is_full table
          then (connect_error capacity_exhausted, table)
          else open_active key now (next_isn draw table)
    ]

-- The connection that a SYN starts, and its SYN-ACK.
unfoldable pub passive_connection :
    TcpConnectionKey → TcpSegment → TcpParsedOptions → ℕ → ℕ → TcpSegment × Connection
passive_connection key segment parsed isn now =
    let connection =
      negotiate (record (new_connection syn_received isn) { remote_isn = segment.sequence_number })
        parsed in
    let reply = make_syn_ack key connection in
    (reply, record connection { pending = syn_entry connection reply.flags false now ∷ [] })

unfoldable pub open_passive :
    TcpConnectionKey
    → TcpSegment
    → TcpParsedOptions
    → ℕ
    → Option ℕ × TcpConnectionTable
    → TcpReceiveResult × TcpConnectionTable
open_passive key segment parsed now (none, table) = (no_result, table)
open_passive key segment parsed now (some isn, table) =
    let opened = passive_connection key segment parsed isn now in
    (record no_result { reply = some opened.0 }, add_connection key opened.1 table)

-- A SYN whose options are well formed, for a key without a connection.
unfoldable pub admit :
    TcpConnectionKey
    → TcpSegment
    → TcpParsedOptions
    → ℕ
    → Option ℕ
    → TcpConnectionTable
    → TcpReceiveResult × TcpConnectionTable
admit key segment parsed now draw table =
    if not (is_empty parsed.sack_blocks)
    then (no_result, table)
    else if is_full table
    then (record no_result { admission_rejected = true }, table)
    else open_passive key segment parsed now (next_isn draw table)

-- `it == connections_.end()`
unfoldable pub handle_unknown :
    TcpConnectionKey
    → TcpSegment
    → ℕ
    → Option ℕ
    → TcpConnectionTable
    → TcpReceiveResult × TcpConnectionTable
handle_unknown key segment now draw table =
    let reset = record no_result { reply = some (make_closed_port_reset segment) } in
    if segment.flags.rst
    then (no_result, table)
    else if key.local_port != table.listen_port
    then (reset, table)
    else if not segment.flags.syn || segment.flags.ack
    then (reset, table)
    else elim (parsed_options segment.options) [
      | none ↦ (no_result, table)
      | some parsed ↦ admit key segment parsed now draw table
    ]

-- `if (connection.pending_removal) connections_.erase(it);`
unfoldable pub keep_or_erase : TcpReceiveResult × Connection → TcpReceiveResult × Option Connection
keep_or_erase (result, connection) =
    (result, if connection.pending_removal then none else some connection)

-- The dispatch on the state of the connection.
unfoldable pub handle_connection :
    TcpConnectionKey → Connection → TcpSegment → ℕ → TcpReceiveResult × Option Connection
handle_connection key connection segment now =
    if same_state connection.state time_wait
    then keep_or_erase (handle_time_wait key connection segment now)
    else if same_state connection.state syn_sent
    then keep_or_erase (handle_syn_sent key connection segment now)
    else if same_state connection.state syn_received
    then handle_syn_received key connection segment now
    else keep_or_erase (handle_synchronized key connection segment now)

-- Write the connection back, or erase it.
unfoldable pub store_connection :
    TcpConnectionKey → Option Connection → TcpConnectionTable → TcpConnectionTable
store_connection key none table = record table {
  connections = Map.erase key_equal key table.connections;
}
store_connection key (some connection) table = record table {
  connections = Map.assign key_equal key connection table.connections;
}

unfoldable pub handle :
    TcpConnectionKey
    → TcpSegment
    → ℕ
    → Option ℕ
    → TcpConnectionTable
    → TcpReceiveResult × TcpConnectionTable
handle key segment now draw table = elim (find_connection key table.connections) [
  | none ↦ handle_unknown key segment now draw table
  | some connection ↦
      let handled = handle_connection key connection segment now in
      (handled.0, store_connection key handled.1 table)
]
