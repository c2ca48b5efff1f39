-- ===== src/Radsec.antt =====
-- The crate radsec: RADIUS packets over a stream.
pub mod Framing
pub mod Client
pub mod Tls
pub mod Display
