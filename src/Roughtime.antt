-- ===== src/Roughtime.antt =====
-- Roughtime (src/roughtime_source.ts): the message format, the request, and the validity check of a
-- response. Hashing and Ed25519 are parameters; sockets and name lookup are left out.
pub mod Wire
pub mod Words
pub mod Values
pub mod RoundTrip
pub mod Merkle
pub mod Request
pub mod Exchange
pub mod Response
pub mod Valid
mod Tests
