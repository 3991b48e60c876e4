-- ===== src/Store.antt =====
-- The database: its tables, and the statements and error handling of the code that uses it.
mod Tables
mod Monad
mod Preserve
unfoldable pub use Tables.*
unfoldable pub use Monad.*
pub use Preserve.*
