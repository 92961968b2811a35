-- ===== src/Scenario/Versions.antt =====
-- Published versions of the accepted assignment of the scenario: a critical one is taken in and
-- confirmed, or rejected, and another follows.
use guide_os.Prelude.{String, text_eq, number_eq, ◌≡◌, refl, none, some, List, [], ◌∷◌, false}
use guide_os.Prelude.Text.{strip}
use guide_os.Json.{Json, Fields, text, object, array, nil, cons, fields, dict, get}
use guide_os.Errors.{ok}
use guide_os.Platform.{Platform}
use guide_os.Identity.{validate_guide_os_id, is_canonical_guide_os_id}
use guide_os.Validation.{require_nonempty, require_iso_datetime, require_iso_date}
use guide_os.Database.{Db, find, ConnectionDecisionType, AssignmentDecisionType}
use guide_os.Version.Intake.{AssignmentVersionPublishedIntake, normalize_critical_version}
use guide_os.Version.Snapshot.{
  validate_working_package_snapshot, working_package_day_map, validate_critical_change_summary,
}
use guide_os.Version.Occupied.{SameDays, apply_ordinary_assignment_version-keeps_days}
use guide_os.Version.Ordinary.{apply_ordinary_assignment_version}
use guide_os.Workflow.{Call}
use guide_os.Workflow.Journey.{Step, proceed, journey, IsConsistent, journey-IsConsistent}
use guide_os.Database.{modify, accepted, confirm_critical, reject_critical}
use guide_os.Database.Write.{run_write_with_retry, submit}
use guide_os.Calendar.{calendar_conflicts, days_in_range, get_tours_in_range, get_conflicting_dates}
use guide_os.Assignment.Decide.{
  decide_assignment, decision_plan, decision_operation, insert_projection, record_decision,
  count_projections,
}
use guide_os.Assignment.Package.{projection_labels, day_locations_json_from_package}
use guide_os.Outbox.{insert_outbox}
use guide_os.Notification.{insert_guide_operator_guide_notification}
use guide_os.Connection.Intake.{normalize_invitation, invitation_payload, is_expired}
use guide_os.Connection.Invite.{
  receive_connection_invitation, invitation_request, invitation_plan, invitation_operation,
  insert_connection, insert_connection_inbox,
}
use guide_os.Connection.Gate.{by_status, require_confirmed_connection_for_offer}
use guide_os.Connection.Decide.{
  decide_connection, decision_plan as connection_plan, decision_operation as connection_operation,
  write_decision, insert_connection_decision,
}
use guide_os.Assignment.Intake.{normalize_offer, offer_payload}
use guide_os.Assignment.Store.{
  find_version, held_elsewhere, insert_assignment, insert_decision, insert_offer_inbox,
  insert_version,
}
use guide_os.Assignment.Offer.{receive_assignment_offer, offer_request, offer_plan, offer_operation}
use guide_os.Version.Snapshot.{load_working_package_json}
use guide_os.Version.Intake.{version_payload}
use guide_os.Version.Projection.{update_projection}
use guide_os.Version.Store.{insert_version_inbox, find_critical_decision, insert_critical_decision}
use guide_os.Version.Critical.{
  critical_request, critical_plan, check_change, write_critical, critical_operation,
  intake_critical_assignment_version,
}
use guide_os.Version.Decision.{
  AssignmentCriticalVersionDecisionResult, pending_package, proposed_days, reject_pending,
  activate_pending, write_critical_decision, critical_decision_operation, critical_decision_plan,
  critical_decision_request, decide_critical_assignment_version, critical_proposed_occupancy,
}
use guide_os.Workflow.Moves.{Moves, decide_critical_assignment_version-Moves}
use guide_os.Scenario.{
  guide, platform, start, invitation_event, offer_event, cancellation_event, invited_db,
  confirmed_db, offered_db, accepted_db,
}
use guide_os.Workflow.Matched.{journey-IsMatched}
use guide_os.Workflow.Persists.{Persists, journey-Persists}
use guide_os.Assignment.Matched.{IsMatched}
use guide_os.Scenario.Witnesses.{start-IsSound, start-IsMatched}

abbrev pub package_of : String → Fields
package_of role = fields (
    (
      "assignment",
      dict (
          ("id", text "assignment-1")
          ∷ ("guide_os_id", text guide)
          ∷ ("role", text role)
          ∷ ("start_date", text "2026-08-01")
          ∷ ("end_date", text "2026-08-03")
          ∷ []),
    )
    ∷ ("days", array nil)
    ∷ [])

-- Stored packages are those of a guide; their digest is that of the role.
abbrev role_of : Json → String
role_of (object assignment) = elim (get "role" assignment) [ text role ↦ role | _ ↦ "none" ]
role_of _ = "none"

abbrev digest_of_role : Json → String
digest_of_role (object payload) = role_of (get "assignment" payload)
digest_of_role _ = "none"

abbrev pub publisher : Platform
publisher = record platform {
  loads = λ rendered. some (object (package_of "guide"));
  canonical_hash = digest_of_role;
}

abbrev pub critical_event : AssignmentVersionPublishedIntake
critical_event = record {
  event_id = "version-2";
  assignment_id = "assignment-1";
  guide_os_id = guide;
  version_number = 2;
  previous_active_version_number = 1;
  severity = "critical";
  working_package = object (package_of "driver");
  change_summary =
      array
        (cons (dict (("code", text "role_changed") ∷ ("path", text "assignment.role") ∷ [])) nil);
  published_at = "2026-07-05T00:00:00Z";
}

abbrev pub ordinary_event : AssignmentVersionPublishedIntake
ordinary_event = record critical_event {
  event_id = "version-3";
  severity = "ordinary";
  working_package = object (package_of "guide");
}

abbrev pub pending_db : Db
pending_db = proceed publisher (Step.critical_version critical_event) accepted_db accepted_db

abbrev confirmation : Step
confirmation = Step.critical_decision guide "assignment-1" 2 "confirm_critical" "decide-2" none

abbrev rejection : Step
rejection = Step.critical_decision guide "assignment-1" 2 "reject_critical" "decide-2" none

abbrev moved_db : Db
moved_db = proceed publisher confirmation pending_db pending_db

abbrev pub rejected_db : Db
rejected_db = proceed publisher rejection pending_db pending_db

abbrev voyage : List (Platform × Step × Db)
voyage =
    (platform, Step.call (Call.invitation invitation_event), start)
    ∷ (
      platform,
      Step.call (
          Call.connection_decision guide "connection-1" ConnectionDecisionType.confirm "confirm-1"
            none),
      start,
    )
    ∷ (platform, Step.call (Call.offer offer_event), start)
    ∷ (
      platform,
      Step.call (
          Call.assignment_decision guide "assignment-1" AssignmentDecisionType.accept "accept-1"
            none),
      start,
    )
    ∷ (publisher, Step.critical_version critical_event, accepted_db)
    ∷ (publisher, confirmation, pending_db)
    ∷ (publisher, Step.ordinary_version ordinary_event, moved_db)
    ∷ (publisher, Step.acknowledgement guide "assignment-1" 3 "read-3" none, moved_db)
    ∷ (platform, Step.call (Call.cancellation cancellation_event), start)
    ∷ []

pub start-IsConsistent : IsConsistent start
unfolding find find_version
start-IsConsistent = record { agreed = start-IsSound.agreed; versioned = λ k m. refl }

journey-IsConsistent_example : IsConsistent (journey voyage start)
journey-IsConsistent_example = journey-IsConsistent voyage start start-IsConsistent

apply_ordinary_assignment_version-keeps_days_example :
    SameDays moved_db
      (apply_ordinary_assignment_version publisher ordinary_event moved_db moved_db).1
apply_ordinary_assignment_version-keeps_days_example =
    apply_ordinary_assignment_version-keeps_days publisher ordinary_event moved_db moved_db

-- The states of the scenario, each from the one before.
accepted_steps : List (Platform × Step × Db)
accepted_steps =
    (platform, Step.call (Call.invitation invitation_event), start)
    ∷ (
      platform,
      Step.call (
          Call.connection_decision guide "connection-1" ConnectionDecisionType.confirm "confirm-1"
            none),
      invited_db,
    )
    ∷ (platform, Step.call (Call.offer offer_event), confirmed_db)
    ∷ (
      platform,
      Step.call (
          Call.assignment_decision guide "assignment-1" AssignmentDecisionType.accept "accept-1"
            none),
      offered_db,
    )
    ∷ (publisher, Step.critical_version critical_event, accepted_db)
    ∷ []

pub pending_db-IsConsistent : IsConsistent pending_db
unfolding journey accepted_steps
pending_db-IsConsistent = journey-IsConsistent accepted_steps start start-IsConsistent

abbrev confirmed_answer : AssignmentCriticalVersionDecisionResult
confirmed_answer = record {
  assignment_id = "assignment-1";
  guide_os_id = guide;
  status = accepted;
  decision = confirm_critical;
  version_number = 2;
  decision_event_id = "decide-2";
  pending_critical_version_number = none;
  active_version_number = 2;
  projection_tour_id = some 1;
  replayed = false;
}

abbrev pub rejected_answer : AssignmentCriticalVersionDecisionResult
rejected_answer = record confirmed_answer { decision = reject_critical; active_version_number = 1 }

confirmation_runs :
    decide_critical_assignment_version publisher guide "assignment-1" 2 "confirm_critical"
      "decide-2" none pending_db pending_db
    ≡ (ok confirmed_answer, moved_db)
unfolding decide_assignment submit validate_guide_os_id is_canonical_guide_os_id strip
    require_nonempty decision_plan find receive_assignment_offer offer_request normalize_offer
    require_iso_date offer_plan decide_connection connection_plan receive_connection_invitation
    invitation_request normalize_invitation count_projections decision_operation insert_projection
    record_decision offer_payload offer_operation day_locations_json_from_package projection_labels
    find_version held_elsewhere insert_assignment insert_decision insert_offer_inbox insert_version
    calendar_conflicts days_in_range get_conflicting_dates get_tours_in_range connection_operation
    insert_connection_decision write_decision by_status require_confirmed_connection_for_offer
    invitation_payload is_expired insert_connection insert_connection_inbox invitation_operation
    invitation_plan modify run_write_with_retry get insert_guide_operator_guide_notification
    insert_outbox require_iso_datetime load_working_package_json validate_working_package_snapshot
    working_package_day_map validate_critical_change_summary normalize_critical_version
    version_payload critical_request critical_plan check_change write_critical critical_operation
    intake_critical_assignment_version insert_version_inbox find_critical_decision
    insert_critical_decision pending_package proposed_days reject_pending activate_pending
    write_critical_decision critical_decision_operation critical_decision_plan
    critical_decision_request decide_critical_assignment_version critical_proposed_occupancy
    update_projection
confirmation_runs = refl

decide_critical_assignment_version-Moves_example :
    Moves pending_db pending_db moved_db confirmed_answer
decide_critical_assignment_version-Moves_example =
    decide_critical_assignment_version-Moves publisher guide "assignment-1" 2 "confirm_critical"
      "decide-2" none pending_db pending_db moved_db confirmed_answer confirmation_runs refl refl
      pending_db-IsConsistent.agreed.projected

journey-IsMatched_example : IsMatched (journey voyage start)
journey-IsMatched_example = journey-IsMatched voyage start start-IsMatched

journey-Persists_example : Persists start (journey voyage start)
journey-Persists_example = journey-Persists voyage start
