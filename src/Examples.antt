-- ===== src/Examples.antt =====
-- The properties at concrete inputs, and tests of the definitions by evaluation.
pub mod Codecs
pub mod Cache
pub mod Connection
pub mod Table
pub mod Reassembly
pub mod Dns
pub mod Http
pub mod EventLoop
