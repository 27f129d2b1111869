-- ===== src/EventLoop.antt =====
-- src/main.cpp: the handlers of incoming frames and the rounds of the main loop. Each returns the
-- frames that it hands to `tap.write`, oldest first, and the state after it; printing is left out.
pub mod Arp
pub mod Icmp
pub mod Send
pub mod State
pub mod Udp
pub mod HttpServer
pub mod HttpClient
pub mod Tcp
pub mod Ipv4
pub mod Round
pub mod Start
pub mod Limits
pub mod Bounds
pub mod Received
pub mod Run
pub mod Resolver
pub mod Dial
pub mod Due
