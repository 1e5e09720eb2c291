-- ===== src/Message/Resolution.antt =====
-- internal/message/resolution.go: resolutions of decision messages.
pub mod Types
pub mod Codec
pub mod Decode
pub mod RoundTrip
pub mod Examples
