-- ===== src/TcpConnection.antt =====
-- src/tcp_connection.cpp and include/wirestack/tcp_connection.hpp: the connection state machine.
pub mod Sequence
pub mod State
pub mod Congestion
pub mod Window
pub mod Key
pub mod Options
pub mod Sack
pub mod Segments
pub mod Retire
pub mod Recovery
pub mod Schedule
pub mod Reassembly
pub mod Acknowledge
pub mod Synchronized
pub mod Handshake
pub mod Table
pub mod Api
pub mod Timers
pub mod States
pub mod Limits
pub mod Stream
