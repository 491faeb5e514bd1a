-- ===== src/Worker.antt =====
-- What a worker answers with: internal/worker/protocol.go.
mod Protocol
mod Partitions
pub use Protocol.*
unfoldable pub use Partitions.*
pub mod Partitioning
