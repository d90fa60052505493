-- ===== src/Contracts.antt =====
-- packages/marx_engels/contracts: the frozen vocabularies and models.
mod Enums
mod Models
unfoldable pub use Enums.*
unfoldable pub use Models.*
