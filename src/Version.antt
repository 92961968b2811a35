-- ===== src/Version.antt =====
-- services/guide_operator_assignment_service.py, published versions: the operator publishes a new
-- version of an accepted assignment's working package. An ordinary one takes effect at once and
-- waits to be read; a critical one waits for the guide's decision.
pub mod Store
pub mod Snapshot
pub mod Occupancy
pub mod Intake
pub mod Projection
pub mod Ordinary
pub mod Critical
pub mod Decision
pub mod Acknowledge
pub mod Effects
pub mod Occupied
pub mod Blocked
