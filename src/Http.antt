-- ===== src/Http.antt =====
-- src/http.cpp and include/wirestack/http.hpp: the HTTP/1.0 server's request parser and responses.
pub mod Chars
pub mod Lines
pub mod Request
pub mod Response
pub mod Received
