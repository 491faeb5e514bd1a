-- ===== src/Ledger.antt =====
-- internal/ledger: the wall-time accounts. The operations, and the proofs about them.
mod Transfer
mod Ancestry
mod Refresh
unfoldable pub use Transfer.*
unfoldable pub use Ancestry.*
unfoldable pub use Refresh.*
pub mod Totals
pub mod Conservation
pub mod Invariant
pub mod Bounds
pub mod Preservation
pub mod Settlement
pub mod Projection
pub mod Soundness
pub mod Gathering
pub mod Acceptance
pub mod Walks
pub mod CommonAncestor
pub mod Allocation
pub mod Frame
pub mod Funding
pub mod Purses
