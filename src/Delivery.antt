-- ===== src/Delivery.antt =====
-- services/guide_operator_outbound_delivery.py: the events of the outbox are sent to the operator.
-- A worker claims one row under a lease, sends it, and writes what became of it.
pub mod Codes
pub mod Queue
pub mod Response
pub mod Claim
pub mod Leased
pub mod Outcome
pub mod Settled
