-- ===== src/Tcp.antt =====
-- src/tcp.cpp and include/wirestack/tcp.hpp: TCP segments and their options.
pub mod Flags
pub mod Segment
pub mod SegmentRoundTrip
pub mod Options
pub mod OptionsSafe
