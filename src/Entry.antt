-- ===== src/Entry.antt =====
-- services/tour_service.py and its queries: the entries that a guide keeps in the calendar, and
-- the guards that leave the operator's protected entries alone.
pub mod Rows
pub mod Edit
pub mod Draft
pub mod Protects
pub mod Calls
pub mod Spared
pub mod Created
pub mod View
pub mod Copy
pub mod Conflicts
pub mod Judged
