-- ===== src/Workflow.antt =====
-- The two services over one database: the calls that change its tables, and sequences of them as
-- the HTTP routes, the bot and the Mini App interleave them. Each call has its own clock and
-- contention, and its first reads may have seen a state other than the one its transaction locks.
pub mod Frame
pub mod Sponsor
pub mod Disjoint
pub mod Sound
pub mod History
pub mod Amend
pub mod Revision
pub mod Numbering
pub mod Numbered
pub mod Journey
pub mod Stalled
pub mod Moves
pub mod Matched
pub mod Persists
pub mod Quiet
pub mod Diary
use guide_os.Prelude.{String, Option, List, [], ◌∷◌}
use guide_os.Platform.{Platform}
use guide_os.Database.{Db, ConnectionDecisionType, AssignmentDecisionType}
use guide_os.Connection.Intake.{ConnectionInvitationIntake, ConnectionDisconnectIntake}
use guide_os.Connection.Invite.{receive_connection_invitation}
use guide_os.Connection.Disconnect.{receive_connection_disconnect}
use guide_os.Connection.Decide.{decide_connection}
use guide_os.Assignment.Intake.{
  AssignmentOfferIntake, AssignmentCancellationIntake, AssignmentLifecycleIntake,
}
use guide_os.Assignment.Offer.{receive_assignment_offer}
use guide_os.Assignment.Decide.{decide_assignment}
use guide_os.Assignment.Cancel.{apply_assignment_cancellation}
use guide_os.Assignment.Transition.{apply_assignment_lifecycle_transition}

pub data Call : Type 0 where
  invitation : ConnectionInvitationIntake → Call
  disconnect : ConnectionDisconnectIntake → Call
  connection_decision :
      (guide_os_id connection_id : String) → ConnectionDecisionType → String → Option String → Call
  offer : AssignmentOfferIntake → Call
  assignment_decision :
      (guide_os_id assignment_id : String) → AssignmentDecisionType → String → Option String → Call
  cancellation : AssignmentCancellationIntake → Call
  transition : AssignmentLifecycleIntake → Call

-- The database after one call, whatever it answers.
abbrev pub perform : Platform → Call → Db → Db → Db
perform env (invitation event) before db = (receive_connection_invitation env event before db).1
perform env (disconnect event) before db = (receive_connection_disconnect env event before db).1
perform env (connection_decision guide connection decision event decided_at) before db =
    (decide_connection env guide connection decision event decided_at before db).1
perform env (offer event) before db = (receive_assignment_offer env event before db).1
perform env (assignment_decision guide assignment decision event decided_at) before db =
    (decide_assignment env guide assignment decision event decided_at before db).1
perform env (cancellation event) before db = (apply_assignment_cancellation env event before db).1
perform env (transition event) before db =
    (apply_assignment_lifecycle_transition env event before db).1

-- Calls in the order of their transactions, each with what it read first.
unfoldable pub run : List (Platform × Call × Db) → Db → Db
run [] db = db
run ((env, call, before) ∷ calls) db = run calls (perform env call before db)
