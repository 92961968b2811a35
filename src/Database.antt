-- ===== src/Database.antt =====
-- The SQLite database of database/db.py: tables, the rows of the schema, and write transactions.
mod Table
pub mod Schema
pub mod Write
unfoldable pub use Table.*
pub use Schema.*
