-- ===== src/HttpClient.antt =====
-- src/http_client.cpp and include/wirestack/http_client.hpp: the client's request, its response
-- parser and its session.
pub mod Request
pub mod Response
pub mod Session
