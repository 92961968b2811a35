-- ===== src/Scenario/Stalls.antt =====
-- Versions that are published after the rejection of a critical one.
use guide_os.Prelude.{text_eq, number_eq, ◌≡◌, ◌≢◌, refl, none, some, true, false}
use guide_os.Prelude.Text.{strip}
use guide_os.Json.{get}
use guide_os.Errors.{ok}
use guide_os.Identity.{validate_guide_os_id, is_canonical_guide_os_id}
use guide_os.Validation.{require_nonempty, require_iso_datetime, require_iso_date}
use guide_os.Database.{find}
use guide_os.Version.Intake.{
  AssignmentVersionPublishedIntake, PublishedVersion, normalize_critical_version,
  normalize_ordinary_version,
}
use guide_os.Version.Snapshot.{
  validate_working_package_snapshot, working_package_day_map, validate_critical_change_summary,
}
use guide_os.Version.Ordinary.{ordinary_answer, apply_ordinary_assignment_version}
use guide_os.Database.{modify, accepted}
use guide_os.Database.Write.{run_write_with_retry, submit}
use guide_os.Calendar.{calendar_conflicts, days_in_range, get_tours_in_range, get_conflicting_dates}
use guide_os.Assignment.Decide.{
  decide_assignment, decision_plan, decision_operation, insert_projection, record_decision,
  count_projections,
}
use guide_os.Assignment.Package.{projection_labels, day_locations_json_from_package}
use guide_os.Outbox.{insert_outbox}
use guide_os.Notification.{insert_guide_operator_guide_notification}
use guide_os.Connection.Intake.{normalize_invitation, invitation_payload, is_expired}
use guide_os.Connection.Invite.{
  receive_connection_invitation, invitation_request, invitation_plan, invitation_operation,
  insert_connection, insert_connection_inbox,
}
use guide_os.Connection.Gate.{by_status, require_confirmed_connection_for_offer}
use guide_os.Connection.Decide.{
  decide_connection, decision_plan as connection_plan, decision_operation as connection_operation,
  write_decision, insert_connection_decision,
}
use guide_os.Assignment.Intake.{normalize_offer, offer_payload}
use guide_os.Assignment.Store.{
  find_version, held_elsewhere, insert_assignment, insert_decision, insert_offer_inbox,
  insert_version,
}
use guide_os.Assignment.Offer.{receive_assignment_offer, offer_request, offer_plan, offer_operation}
use guide_os.Version.Snapshot.{load_working_package_json}
use guide_os.Version.Intake.{version_payload}
use guide_os.Version.Projection.{update_projection}
use guide_os.Version.Store.{
  version_inbox_key, insert_version_inbox, find_critical_decision, insert_critical_decision,
}
use guide_os.Version.Critical.{
  AssignmentCriticalVersionIntakeResult, critical_request, critical_plan, check_change,
  write_critical, critical_operation, intake_critical_assignment_version,
}
use guide_os.Version.Decision.{
  pending_package, proposed_days, reject_pending, activate_pending, write_critical_decision,
  critical_decision_operation, critical_decision_plan, critical_decision_request,
  decide_critical_assignment_version, critical_proposed_occupancy,
}
use guide_os.Workflow.Stalled.{rejection_stalls_ordinary, rejection_stalls_critical}
use guide_os.Scenario.{guide}
use guide_os.Scenario.Versions.{
  package_of, publisher, critical_event, ordinary_event, pending_db, rejected_db, rejected_answer,
  pending_db-IsConsistent,
}

rejection_runs :
    (decide_critical_assignment_version publisher guide "assignment-1" 2 "reject_critical"
        "decide-2" none pending_db pending_db
      ≡ (ok rejected_answer, rejected_db))
    × (find version_inbox_key "version-3" pending_db.version_inbox ≡ none)
    × (find version_inbox_key "version-3" rejected_db.version_inbox ≡ none)
unfolding decide_assignment submit validate_guide_os_id is_canonical_guide_os_id strip
    require_nonempty decision_plan find receive_assignment_offer offer_request normalize_offer
    require_iso_date offer_plan decide_connection connection_plan receive_connection_invitation
    invitation_request normalize_invitation count_projections decision_operation insert_projection
    record_decision offer_payload offer_operation day_locations_json_from_package projection_labels
    find_version held_elsewhere insert_assignment insert_decision insert_offer_inbox insert_version
    calendar_conflicts days_in_range get_conflicting_dates get_tours_in_range connection_operation
    insert_connection_decision write_decision by_status require_confirmed_connection_for_offer
    invitation_payload is_expired insert_connection insert_connection_inbox invitation_operation
    invitation_plan modify run_write_with_retry get insert_guide_operator_guide_notification
    insert_outbox require_iso_datetime load_working_package_json validate_working_package_snapshot
    working_package_day_map validate_critical_change_summary normalize_critical_version
    version_payload critical_request critical_plan check_change write_critical critical_operation
    intake_critical_assignment_version insert_version_inbox find_critical_decision
    insert_critical_decision pending_package proposed_days reject_pending activate_pending
    write_critical_decision critical_decision_operation critical_decision_plan
    critical_decision_request decide_critical_assignment_version critical_proposed_occupancy
    update_projection
rejection_runs = (refl, refl, refl)

-- What the normalisers make of the two later events.
abbrev later_ordinary : PublishedVersion
later_ordinary = record {
  event_id = "version-3";
  assignment_id = "assignment-1";
  guide_os_id = guide;
  version_number = 2;
  previous_active = 1;
  severity = "ordinary";
  working_package = package_of "guide";
  change_summary = critical_event.change_summary;
  published_at = "2026-07-05T00:00:00Z";
}

abbrev later_critical : PublishedVersion
later_critical = record later_ordinary { severity = "critical" }

abbrev later_critical_event : AssignmentVersionPublishedIntake
later_critical_event = record ordinary_event { severity = "critical" }

ordinary_normal : normalize_ordinary_version publisher ordinary_event ≡ ok later_ordinary
unfolding normalize_ordinary_version require_nonempty require_iso_datetime require_iso_date strip
    validate_guide_os_id is_canonical_guide_os_id validate_working_package_snapshot
    working_package_day_map get
ordinary_normal = refl

critical_normal : normalize_critical_version publisher later_critical_event ≡ ok later_critical
unfolding normalize_critical_version require_nonempty require_iso_datetime require_iso_date strip
    validate_guide_os_id is_canonical_guide_os_id validate_working_package_snapshot
    working_package_day_map get validate_critical_change_summary
critical_normal = refl

rejection_stalls_ordinary_example :
    apply_ordinary_assignment_version publisher ordinary_event rejected_db rejected_db
    ≢ (ok (ordinary_answer later_ordinary accepted true (some 1) false), rejected_db)
rejection_stalls_ordinary_example =
    rejection_stalls_ordinary publisher guide "assignment-1" 2 "reject_critical" "decide-2" none
      pending_db pending_db rejected_db rejected_answer rejection_runs.0 refl refl
      pending_db-IsConsistent.versioned publisher ordinary_event later_ordinary rejected_db refl
      rejection_runs.1 rejection_runs.2 ordinary_normal
      (ordinary_answer later_ordinary accepted true (some 1) false) rejected_db

abbrev intake_answer : AssignmentCriticalVersionIntakeResult
intake_answer = record {
  assignment_id = "assignment-1";
  guide_os_id = guide;
  status = accepted;
  version_number = 2;
  previous_active_version_number = 1;
  pending_critical_version_number = some 2;
  active_version_number = 1;
  source_event_id = "version-3";
  unread = false;
  projection_tour_id = some 1;
  replayed = false;
}

rejection_stalls_critical_example :
    intake_critical_assignment_version publisher later_critical_event rejected_db rejected_db
    ≢ (ok intake_answer, rejected_db)
rejection_stalls_critical_example =
    rejection_stalls_critical publisher guide "assignment-1" 2 "reject_critical" "decide-2" none
      pending_db pending_db rejected_db rejected_answer rejection_runs.0 refl refl
      pending_db-IsConsistent.versioned publisher later_critical_event later_critical rejected_db
      refl rejection_runs.1 rejection_runs.2 critical_normal intake_answer rejected_db
