-- ===== src/Config.antt =====
-- The configuration: internal/config/config.go.
mod Model
mod Read
mod Load
pub mod Valid
pub mod Lists
pub mod Secrets
mod Tests
unfoldable pub use Model.*
unfoldable pub use Read.*
unfoldable pub use Load.*
