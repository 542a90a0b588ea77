-- ===== src/Session.antt =====
-- The typed operations of a session: pkg/a10/certificates.go
pub mod Read
pub mod Write
pub mod Footprint
unfoldable pub use Read.*
unfoldable pub use Write.*
