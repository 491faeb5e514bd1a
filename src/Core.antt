-- ===== src/Core.antt =====
-- internal/core: the operations of the controller.
mod Common
mod Claims
mod Tasks
mod Lifecycles
mod Options
mod Blockers
mod Steps
mod Slots
mod Changes
mod Discussions
mod Promotions
mod Runs
mod Attempts
mod Completions
mod Outcomes
mod Completing
pub mod FailStop
pub mod Blocking
pub mod Rewinding
pub mod ChangeMoves
pub mod Funds
pub mod Budgets
pub mod Reservations
pub mod Leases
pub mod Promoting
pub mod Selecting
pub mod Selection
pub mod Closings
pub mod Books
pub mod Serving
pub mod Requesting
pub mod Concluding
pub mod Leaving
pub mod Vacating
pub mod Bearings
pub mod Continuing
pub mod Advancing
pub mod Progress
pub mod Settling
pub mod Completed
pub mod Refinement
unfoldable pub use Common.*
unfoldable pub use Claims.*
unfoldable pub use Tasks.*
unfoldable pub use Lifecycles.*
unfoldable pub use Options.*
unfoldable pub use Blockers.*
unfoldable pub use Steps.*
unfoldable pub use Slots.*
unfoldable pub use Changes.*
unfoldable pub use Discussions.*
unfoldable pub use Promotions.*
unfoldable pub use Runs.*
unfoldable pub use Attempts.*
unfoldable pub use Completions.*
unfoldable pub use Outcomes.*
unfoldable pub use Completing.*
