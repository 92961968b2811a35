-- ===== src/Assignment.antt =====
-- services/guide_operator_assignment_service.py: an operator offers an assignment to a guide, who
-- accepts or declines it; an accepted one stands in the guide's calendar as a protected projection
-- until the operator cancels it; an open offer may be withdrawn or expire.
pub mod Intake
pub mod Package
pub mod Store
pub mod Offer
pub mod Decide
pub mod Cancel
pub mod Transition
pub mod Allowance
pub mod Effects
pub mod Projection
pub mod Protected
pub mod Matched
pub mod Booking
pub mod Turned
pub mod Ledger
pub mod Lifecycle
