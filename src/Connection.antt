-- ===== src/Connection.antt =====
-- services/guide_operator_connection_service.py: the consent of a guide to work with an operator
-- company. An invitation arrives, the guide confirms or declines it, the operator disconnects it;
-- a confirmed connection is the gate for offers.
pub mod Intake
pub mod Invite
pub mod Disconnect
pub mod Decide
pub mod Gate
pub mod Lifecycle
pub mod Turned
pub mod Effects
pub mod Admission
pub mod Ledger
pub mod Replay
