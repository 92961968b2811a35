-- ===== src/Workflow/History.antt =====
-- What a call of either service does to one row: it follows its states, and is never lost.
use guide_os.Prelude.{text_eq}
use guide_os.Platform.{Platform}
use guide_os.Database.{Db, find}
use guide_os.Connection.Intake.{connection_key}
use guide_os.Connection.Lifecycle as ConnectionLifecycle
use guide_os.Assignment.Lifecycle as AssignmentLifecycle
use guide_os.Assignment.Store.{assignment_key}
use guide_os.Workflow.{
  Call, invitation, disconnect, connection_decision, offer, assignment_decision, cancellation,
  transition, perform,
}
use guide_os.Workflow.Frame

abbrev pub Continues : Db → Db → Type 0
Continues db db' = ConnectionLifecycle.Continues db db' × AssignmentLifecycle.Continues db db'

KeepsAssignments-Continues :
    (db db' : Db) → Frame.KeepsAssignments db db' → AssignmentLifecycle.Continues db db'
KeepsAssignments-Continues db db' keeps k =
    rw keeps.assignments (AssignmentLifecycle.Evolves-refl (find assignment_key k db.assignments))

KeepsConnections-Continues :
    (db db' : Db) → Frame.KeepsConnections db db' → ConnectionLifecycle.Continues db db'
KeepsConnections-Continues db db' keeps k =
    rw keeps.connections (ConnectionLifecycle.Evolves-refl (find connection_key k db.connections))

pub perform-Continues :
    (env : Platform) (call : Call) (before db : Db) → Continues db (perform env call before db)
perform-Continues env (invitation event) before db = (
  ConnectionLifecycle.receive_connection_invitation-Continues env before db event,
  KeepsAssignments-Continues db _
      (Frame.receive_connection_invitation-KeepsAssignments env before db event),
)
perform-Continues env (disconnect event) before db = (
  ConnectionLifecycle.receive_connection_disconnect-Continues env before db event,
  KeepsAssignments-Continues db _
      (Frame.receive_connection_disconnect-KeepsAssignments env before db event),
)
perform-Continues env (connection_decision guide connection decision event decided_at) before db = (
  ConnectionLifecycle.decide_connection-Continues env before db guide connection decision event
      decided_at,
  KeepsAssignments-Continues db _ (
      Frame.decide_connection-KeepsAssignments env before db guide connection decision event
        decided_at),
)
perform-Continues env (offer event) before db = (
  KeepsConnections-Continues db _
      (Frame.receive_assignment_offer-KeepsConnections env before db event),
  AssignmentLifecycle.receive_assignment_offer-Continues env before db event,
)
perform-Continues env (assignment_decision guide assignment decision event decided_at) before db = (
  KeepsConnections-Continues db _ (
      Frame.decide_assignment-KeepsConnections env before db guide assignment decision event
        decided_at),
  AssignmentLifecycle.decide_assignment-Continues env before db guide assignment decision event
      decided_at,
)
perform-Continues env (cancellation event) before db = (
  KeepsConnections-Continues db _
      (Frame.apply_assignment_cancellation-KeepsConnections env before db event),
  AssignmentLifecycle.apply_assignment_cancellation-Continues env before db event,
)
perform-Continues env (transition event) before db = (
  KeepsConnections-Continues db _
      (Frame.apply_assignment_lifecycle_transition-KeepsConnections env before db event),
  AssignmentLifecycle.apply_assignment_lifecycle_transition-Continues env before db event,
)
