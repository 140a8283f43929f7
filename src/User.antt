-- ===== src/User.antt =====
-- The user package: internal/domain/user.
mod Model
mod Interface
mod Service
unfoldable pub use Model.*
pub use Interface.*
unfoldable pub use Service.*
