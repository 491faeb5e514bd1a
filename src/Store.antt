-- ===== src/Store.antt =====
-- internal/store: what the database accepts, and the transaction.
mod Queries
mod Validation
mod ChangeChecks
mod Immutability
mod Transaction
unfoldable pub use Queries.*
unfoldable pub use ChangeChecks.*
unfoldable pub use Validation.*
unfoldable pub use Immutability.*
unfoldable pub use Transaction.*
pub mod Commits
pub mod Histories
pub mod OptionHistories
pub mod Exclusion
