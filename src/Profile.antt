-- ===== src/Profile.antt =====
-- The profile package: internal/domain/profile.
mod Model
mod Interface
mod Payloads
mod Service
unfoldable pub use Model.*
pub use Interface.*
unfoldable pub use Payloads.*
unfoldable pub use Service.*
