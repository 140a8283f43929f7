-- ===== src/Db.antt =====
-- The sqlx repositories, internal/infrastructure/db, over the tables that migrations/ declares.
mod Tables
mod Assignments
mod Profiles
mod Query
mod Users
mod Repositories
pub mod Rules
pub mod RowRules
pub mod Columns
pub mod Actions
pub mod Steps
pub mod Search
pub mod Order
unfoldable pub use Tables.*
unfoldable pub use Users.*
unfoldable pub use Query.*
pub use Repositories.*
unfoldable pub use Assignments.*
unfoldable pub use Profiles.*
