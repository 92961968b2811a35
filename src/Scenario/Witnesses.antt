-- ===== src/Scenario/Witnesses.antt =====
-- The theorems of the workflow and of the two services at the exchange of the scenario.
use guide_os.Prelude.{arith, text_eq, number_eq, ◌≡◌, ◌↔◌, refl, none, []}
use guide_os.Database.{offered, ConnectionDecisionType, find, accept, decline}
use guide_os.Calendar.{calendar_conflicts}
use guide_os.Calendar.Free.{IsFree, calendar_conflicts-nil_iff}
use guide_os.Connection.Decide.{decide_connection}
use guide_os.Connection.Disconnect.{receive_connection_disconnect}
use guide_os.Connection.Ledger as ConnectionLedger
use guide_os.Connection.Lifecycle as ConnectionLifecycle
use guide_os.Assignment.Offer.{receive_assignment_offer}
use guide_os.Assignment.Decide.{decide_assignment}
use guide_os.Assignment.Cancel.{apply_assignment_cancellation}
use guide_os.Assignment.Transition.{apply_assignment_lifecycle_transition}
use guide_os.Assignment.Ledger as AssignmentLedger
use guide_os.Assignment.Lifecycle as AssignmentLifecycle
use guide_os.Assignment.Matched.{IsMatched}
use guide_os.Assignment.Turned as AssignmentTurned
use guide_os.Connection.Turned as ConnectionTurned
use guide_os.Workflow.{Call, run}
use guide_os.Workflow.Sound.{IsSound, perform-IsSound, run-IsSound}
use guide_os.Workflow.Disjoint.{IsDisjoint, decide_assignment-IsDisjoint}
use guide_os.Workflow.Sponsor.{AreSponsoredIn, receive_assignment_offer-AreSponsored}
use guide_os.Scenario.{
  guide, platform, start, invitation_event, disconnect_event, offer_event, cancellation_event,
  withdrawal_event, invited_db, confirmed_db, offered_db, accepted_db, exchange,
}

pub start-IsSound : IsSound start
unfolding find
start-IsSound = record {
  agreed = record {
    connections = record { agrees = λ k. tt; reported = λ k. tt };
    assignments = record { agrees = λ k. tt; reported = λ k. tt };
    projected = record { rows = λ k. tt; numbered = λ t above. refl };
    sponsored = λ k. tt;
  };
  disjoint = tt;
}

run-IsSound_example : IsSound (run exchange start)
run-IsSound_example = run-IsSound exchange start start-IsSound

pub start-IsMatched : IsMatched start
unfolding find
start-IsMatched = record {
  projected = start-IsSound.agreed.projected;
  backed = λ id t found protected. absurd (ground arith);
}

-- The states of the exchange are sound, each from the one before.
invited_db-IsSound : IsSound invited_db
invited_db-IsSound =
    perform-IsSound platform (Call.invitation invitation_event) start start start-IsSound

confirmed_db-IsSound : IsSound confirmed_db
confirmed_db-IsSound =
    perform-IsSound platform
      (Call.connection_decision guide "connection-1" ConnectionDecisionType.confirm "confirm-1"
        none)
      invited_db invited_db invited_db-IsSound

offered_db-IsSound : IsSound offered_db
offered_db-IsSound =
    perform-IsSound platform (Call.offer offer_event) confirmed_db confirmed_db confirmed_db-IsSound

accepted_db-IsSound : IsSound accepted_db
accepted_db-IsSound =
    perform-IsSound platform (Call.assignment_decision guide "assignment-1" accept "accept-1" none)
      offered_db offered_db offered_db-IsSound

decide_connection-IsLedger_example :
    ConnectionLedger.IsLedger
      (decide_connection platform guide "connection-1" ConnectionDecisionType.confirm "confirm-1"
        none invited_db invited_db).1
decide_connection-IsLedger_example =
    ConnectionLedger.decide_connection-IsLedger platform invited_db invited_db
      invited_db-IsSound.agreed.connections guide "connection-1" ConnectionDecisionType.confirm
      "confirm-1" none

receive_connection_disconnect-IsLedger_example :
    ConnectionLedger.IsLedger
      (receive_connection_disconnect platform disconnect_event confirmed_db confirmed_db).1
receive_connection_disconnect-IsLedger_example =
    ConnectionLedger.receive_connection_disconnect-IsLedger platform confirmed_db confirmed_db
      confirmed_db-IsSound.agreed.connections disconnect_event

decide_connection-OnlyTurns_example :
    ConnectionTurned.OnlyTurns ConnectionDecisionType.confirm "connection-1" invited_db
      (decide_connection platform guide "connection-1" ConnectionDecisionType.confirm "confirm-1"
        none invited_db invited_db).1
decide_connection-OnlyTurns_example =
    ConnectionTurned.decide_connection-OnlyTurns platform invited_db invited_db guide "connection-1"
      ConnectionDecisionType.confirm "confirm-1" none

decide_assignment-IsLedger_example :
    AssignmentLedger.IsLedger
      (decide_assignment platform guide "assignment-1" decline "decline-1" none offered_db
        offered_db).1
decide_assignment-IsLedger_example =
    AssignmentLedger.decide_assignment-IsLedger platform offered_db offered_db
      offered_db-IsSound.agreed.assignments guide "assignment-1" decline "decline-1" none

apply_assignment_cancellation-IsLedger_example :
    AssignmentLedger.IsLedger
      (apply_assignment_cancellation platform cancellation_event accepted_db accepted_db).1
apply_assignment_cancellation-IsLedger_example =
    AssignmentLedger.apply_assignment_cancellation-IsLedger platform accepted_db accepted_db
      accepted_db-IsSound.agreed.assignments cancellation_event

decide_assignment-OnlyTurns_example :
    AssignmentTurned.OnlyTurns offered
      (AssignmentTurned.Decides accept)
      "assignment-1"
      offered_db
      (decide_assignment platform guide "assignment-1" accept "accept-1" none offered_db
        offered_db).1
decide_assignment-OnlyTurns_example =
    AssignmentTurned.decide_assignment-OnlyTurns platform offered_db offered_db guide "assignment-1"
      accept "accept-1" none

apply_assignment_lifecycle_transition-OnlyTurns_example :
    AssignmentTurned.OnlyTurns offered
      (AssignmentTurned.Announces withdrawal_event)
      "assignment-1"
      offered_db
      (apply_assignment_lifecycle_transition platform withdrawal_event offered_db offered_db).1
apply_assignment_lifecycle_transition-OnlyTurns_example =
    AssignmentTurned.apply_assignment_lifecycle_transition-OnlyTurns platform offered_db offered_db
      withdrawal_event

decide_assignment-IsDisjoint_example :
    IsDisjoint
      (decide_assignment platform guide "assignment-1" accept "accept-1" none offered_db
        offered_db).1.tours
decide_assignment-IsDisjoint_example =
    decide_assignment-IsDisjoint platform offered_db offered_db offered_db-IsSound.disjoint guide
      "assignment-1" accept "accept-1" none

receive_assignment_offer-AreSponsored_example :
    AreSponsoredIn (receive_assignment_offer platform offer_event confirmed_db confirmed_db).1
receive_assignment_offer-AreSponsored_example =
    receive_assignment_offer-AreSponsored platform confirmed_db confirmed_db
      confirmed_db-IsSound.agreed.sponsored offer_event

calendar_conflicts-nil_iff_example :
    (calendar_conflicts 7 103 104 none accepted_db.tours ≡ []) ↔ IsFree 7 103 104 accepted_db.tours
calendar_conflicts-nil_iff_example = calendar_conflicts-nil_iff 7 103 104 accepted_db.tours
