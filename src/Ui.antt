-- ===== src/Ui.antt =====
-- internal/ui: texts on the terminal. A text here is a list of code points, so that
-- `utf8.RuneCountInString` is its length.
mod Ansi
mod Links
unfoldable pub use Ansi.*
unfoldable pub use Links.*
pub mod Width
pub mod Sequences
pub mod Table
pub mod Note
pub mod Progress
pub mod Log
pub mod Theme
pub mod Status
pub mod Banner
pub mod Lines
