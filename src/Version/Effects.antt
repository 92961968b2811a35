-- ===== src/Version/Effects.antt =====
-- What the transactions on published versions write, table by table.
mod Published
mod Pending
mod Acknowledged
mod Decided
pub use Published.*
pub use Pending.*
pub use Acknowledged.*
pub use Decided.*
