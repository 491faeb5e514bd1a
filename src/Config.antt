-- ===== src/Config.antt =====
-- internal/config: what is read as a role card and as a configuration.
mod Cards
mod Loading
unfoldable pub use Cards.*
unfoldable pub use Loading.*
pub mod Loaded
