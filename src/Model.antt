-- ===== src/Model.antt =====
-- The data of internal/model and of the configuration: enumerations, records, the state.
mod Enums
mod Names
mod Records
mod States
mod Configs
mod Equality
unfoldable pub use Enums.*
pub use Names.*
pub use Records.*
unfoldable pub use States.*
unfoldable pub use Equality.*
unfoldable pub use Configs.*
