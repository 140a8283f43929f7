-- ===== src/Http.antt =====
-- The HTTP layer, as far as it decides something: pkg/response/response.go,
-- internal/app/middleware and the error tables of the two handlers.
pub mod Reply
mod Query
mod Guards
pub mod Answer
pub mod ProfileHandler
pub mod UserHandler
pub mod Middleware
pub mod Effects
pub mod Cursor
pub mod Limits
pub mod Access
mod Tests
unfoldable pub use Reply.*
unfoldable pub use Query.*
unfoldable pub use Guards.*
