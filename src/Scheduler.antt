-- ===== src/Scheduler.antt =====
-- internal/scheduler: the recovery after a crash, and the rounds of the scheduler.
mod Reconciliation
mod Captures
mod Recovery
mod Verdicts
mod Executions
mod Promotions
mod Rounds
unfoldable pub use Reconciliation.*
unfoldable pub use Captures.*
unfoldable pub use Recovery.*
unfoldable pub use Verdicts.*
unfoldable pub use Executions.*
unfoldable pub use Promotions.*
unfoldable pub use Rounds.*
pub mod Retirement
pub mod Crashes
pub mod Exploring
pub mod Counting
pub mod Explorations
pub mod Judgements
pub mod Journals
pub mod Holding
pub mod Activities
pub mod Releasing
pub mod Swaps
