-- ===== src/Prelude.antt =====
-- The names that the other modules share: the libraries', passed on, and those of the children.
mod Tests
mod Lists
pub mod Dict
pub mod Int
pub mod Result
pub mod Text
pub mod Store
unfoldable pub use Tests.*
unfoldable pub use Lists.*
