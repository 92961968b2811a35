-- ===== src/Assignment/Effects.antt =====
-- What the transactions of the assignment service write, table by table.
mod Offered
mod Decided
mod Closed
pub use Offered.*
pub use Decided.*
pub use Closed.*
