-- ===== src/Dns.antt =====
-- src/dns.cpp and include/wirestack/dns.hpp: host names, queries, responses and the client session.
-- A std::string is the list of its characters' codes.
pub mod Hostname
pub mod Message
pub mod Response
pub mod Safe
pub mod RoundTrip
pub mod Session
