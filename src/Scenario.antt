-- ===== src/Scenario.antt =====
-- One guide and one operator: a platform, a database before their first exchange, and the events
-- of an assignment from the invitation to its cancellation.
mod Witnesses
mod Evaluated
mod Deliveries
mod Versions
mod Stalls
mod Diaries
use guide_os.Prelude.{
  ℕ, String, ◌==◌, text_eq, Option, none, some, List, [], ◌∷◌, if◌then◌else◌, false,
}
use guide_os.Json.{Json, text, object, array, nil, cons, field, end, get}
use guide_os.Platform.{Platform}
use guide_os.Database.{Db, ConnectionDecisionType, AssignmentDecisionType}
use guide_os.Connection.Intake.{ConnectionInvitationIntake, ConnectionDisconnectIntake}
use guide_os.Assignment.Intake.{
  AssignmentOfferIntake, AssignmentCancellationIntake, AssignmentLifecycleIntake,
}
use guide_os.Workflow.{Call, perform}

abbrev pub guide : String
guide = "0f8fad5b-d9cb-469f-a165-70867728950e"

-- A digest that tells payloads with different company names apart.
abbrev digest_of : Json → String
digest_of (text name) = name
digest_of _ = "digest"

abbrev digest : Json → String
digest (object payload) = digest_of (get "company_name" payload)
digest _ = "digest"

-- The clock stands at 5, and no writer is in the way; an invitation that names no other time
-- expires at 10.
abbrev pub platform : Platform
platform = record {
  canonical_hash = digest;
  dumps = λ payload. "rendered";
  loads = λ rendered. some (object end);
  dumps_unsorted = λ payload. "rendered";
  instant = λ stamp. some 10;
  parse_date = λ stamp. if stamp == "2026-08-01" then some 100 else some 102;
  str_of = λ value. "value";
  date_text = λ day. "2026-08-01";
  utc_now = "2026-07-01T00:00:00Z";
  checked_at = 5;
  locked_at = 5;
  busy = λ attempt. false;
}

abbrev pub start : Db
start = record {
  users = record { user_id = 7; guide_os_id = guide } ∷ [];
  connections = [];
  connection_inbox = [];
  connection_decisions = [];
  assignments = [];
  versions = [];
  decisions = [];
  offer_inbox = [];
  cancellation_inbox = [];
  lifecycle_inbox = [];
  version_inbox = [];
  version_acknowledgements = [];
  critical_decisions = [];
  outbox = [];
  outbox_sequence = 0;
  notifications = [];
  tours = [];
  tour_sequence = 0;
  projection_release = [];
  metadata_update = [];
  occupancy_update = [];
}

abbrev pub invitation_event : ConnectionInvitationIntake
invitation_event = record {
  event_id = "invite-1";
  connection_id = "connection-1";
  company_id = "company-1";
  company_name = "Silk Road Tours";
  guide_os_id = guide;
  invitation_expires_at = "2026-07-10T00:00:00Z";
  invited_at = "2026-07-01T00:00:00Z";
}

abbrev pub disconnect_event : ConnectionDisconnectIntake
disconnect_event = record {
  event_id = "disconnect-1";
  connection_id = "connection-1";
  company_id = "company-1";
  company_name = "Silk Road Tours";
  guide_os_id = guide;
  disconnected_at = "2026-09-01T00:00:00Z";
}

abbrev pub offer_event : AssignmentOfferIntake
offer_event = record {
  event_id = "offer-1";
  assignment_id = "assignment-1";
  guide_os_id = guide;
  company_id = "company-1";
  company_name = "Silk Road Tours";
  guide_connection_id = "connection-1";
  role = "guide";
  start_date = "2026-08-01";
  end_date = "2026-08-03";
  working_package = object (field "tour" (text "Samarkand") end);
  version_number = 1;
  response_deadline = none;
  operator_message = none;
  offered_at = none;
}

abbrev pub cancellation_event : AssignmentCancellationIntake
cancellation_event = record {
  event_id = "cancel-1";
  assignment_id = "assignment-1";
  guide_os_id = guide;
  version_number = 1;
  cancelled_at = "2026-07-20T00:00:00Z";
}

abbrev pub withdrawal_event : AssignmentLifecycleIntake
withdrawal_event = record {
  event_id = "withdraw-1";
  event_type = "assignment.withdrawn.v1";
  assignment_id = "assignment-1";
  guide_os_id = guide;
  transitioned_at = "2026-07-20T00:00:00Z";
}

-- The states of the exchange, each call having read the state that it locks.
abbrev pub after : Call → Db → Db
after call db = perform platform call db db

abbrev pub invited_db : Db
invited_db = after (Call.invitation invitation_event) start

abbrev pub confirmed_db : Db
confirmed_db =
    after
      (Call.connection_decision guide "connection-1" ConnectionDecisionType.confirm "confirm-1"
        none)
      invited_db

abbrev pub offered_db : Db
offered_db = after (Call.offer offer_event) confirmed_db

abbrev pub accepted_db : Db
accepted_db =
    after
      (Call.assignment_decision guide "assignment-1" AssignmentDecisionType.accept "accept-1" none)
      offered_db

abbrev pub cancelled_db : Db
cancelled_db = after (Call.cancellation cancellation_event) accepted_db

abbrev pub withdrawn_db : Db
withdrawn_db = after (Call.transition withdrawal_event) offered_db

abbrev pub exchange : List (Platform × Call × Db)
exchange =
    (platform, Call.invitation invitation_event, start)
    ∷ (
      platform,
      Call.connection_decision guide "connection-1" ConnectionDecisionType.confirm "confirm-1" none,
      invited_db,
    )
    ∷ (platform, Call.offer offer_event, confirmed_db)
    ∷ (
      platform,
      Call.assignment_decision guide "assignment-1" AssignmentDecisionType.accept "accept-1" none,
      offered_db,
    )
    ∷ (platform, Call.cancellation cancellation_event, accepted_db)
    ∷ (platform, Call.disconnect disconnect_event, cancelled_db)
    ∷ []
