-- ===== src/Prelude.antt =====
-- The names that the other modules share: the libraries', Boolean tests, results with an error, and
-- Go's maps and sets.
mod Tests
mod Errors
mod Maps
mod Sets
pub use Tests.*
pub use Errors.*
unfoldable pub use Maps.*
unfoldable pub use Sets.*
