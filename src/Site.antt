-- ===== src/Site.antt =====
-- The whole server: internal/app/router.go with the handlers behind it, as cmd/api/main.go puts
-- them together. Matching a path with a route is gin's: a request carries the endpoint that gin
-- has found, with what it has bound of the body and the parameters.
mod Routes
mod Model
mod Dispatch
mod Serve
pub mod Passing
pub mod Seen
pub mod Effects
pub mod Isolation
pub mod Anonymous
mod Tests
unfoldable pub use Routes.*
unfoldable pub use Model.*
unfoldable pub use Dispatch.*
unfoldable pub use Serve.*
