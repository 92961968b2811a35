-- ===== src/Scenario/Evaluated.antt =====
-- The theorems whose hypotheses a run of the scenario fulfils.
use guide_os.Prelude.{
  text_eq, number_eq, ◌≡◌, refl, ◌↔◌, ◌≢◌, arith, eq_iff, none, some, false, number_eq,
}
use guide_os.Prelude.Text.{strip}
use guide_os.Errors.{ok}
use guide_os.Connection.Replay.{receive_connection_invitation_twice}
use guide_os.Connection.Admission.{gate_iff}
use guide_os.Identity.{validate_guide_os_id, is_canonical_guide_os_id}
use guide_os.Validation.{require_nonempty, require_iso_datetime, require_iso_date}
use guide_os.Database.{Connection, ConnectionStatus, confirmed, find, modify, accept, accepted}
use guide_os.Database.Write.{run_write_with_retry, submit}
use guide_os.Calendar.{calendar_conflicts, days_in_range, get_tours_in_range, get_conflicting_dates}
use guide_os.Assignment.Decide.{
  AssignmentDecisionResult, decide_assignment, decision_plan, decision_operation, insert_projection,
  record_decision, count_projections,
}
use guide_os.Assignment.Package.{projection_labels, day_locations_json_from_package}
use guide_os.Json.{get}
use guide_os.Outbox.{insert_outbox}
use guide_os.Notification.{insert_guide_operator_guide_notification}
use guide_os.Connection.Intake.{
  connection_key, normalize_invitation, invitation_payload, is_expired,
}
use guide_os.Connection.Invite.{
  receive_connection_invitation, invitation_request, invitation_plan, invitation_operation,
  insert_connection, insert_connection_inbox,
}
use guide_os.Connection.Gate.{by_status, require_confirmed_connection_for_offer}
use guide_os.Connection.Decide.{
  decide_connection, decision_plan as connection_plan, decision_operation as connection_operation,
  write_decision, insert_connection_decision,
}
use guide_os.Assignment.Intake.{normalize_offer, offer_payload}
use guide_os.Assignment.Store.{
  find_version, held_elsewhere, insert_assignment, insert_decision, insert_offer_inbox,
  insert_version,
}
use guide_os.Assignment.Offer.{receive_assignment_offer, offer_request, offer_plan, offer_operation}
use guide_os.Assignment.Booking.{Books, decide_assignment-Books}
use guide_os.Scenario.{
  guide, platform, start, invitation_event, invited_db, confirmed_db, offered_db, accepted_db,
}

abbrev acceptance : AssignmentDecisionResult
acceptance = record {
  assignment_id = "assignment-1";
  guide_os_id = guide;
  status = accepted;
  decision = accept;
  decision_event_id = "accept-1";
  projection_tour_id = some 1;
  replayed = false;
}

acceptance_runs :
    decide_assignment platform guide "assignment-1" accept "accept-1" none offered_db offered_db
    ≡ (ok acceptance, accepted_db)
unfolding decide_assignment submit validate_guide_os_id is_canonical_guide_os_id strip
    require_nonempty decision_plan find receive_assignment_offer offer_request normalize_offer
    require_iso_date offer_plan decide_connection connection_plan receive_connection_invitation
    invitation_request normalize_invitation count_projections decision_operation insert_projection
    record_decision offer_payload offer_operation day_locations_json_from_package projection_labels
    find_version held_elsewhere insert_assignment insert_decision insert_offer_inbox insert_version
    calendar_conflicts days_in_range get_conflicting_dates get_tours_in_range connection_operation
    insert_connection_decision write_decision by_status require_confirmed_connection_for_offer
    invitation_payload is_expired insert_connection insert_connection_inbox invitation_operation
    invitation_plan modify run_write_with_retry get insert_guide_operator_guide_notification
    insert_outbox require_iso_datetime
acceptance_runs = refl

decide_assignment-Books_example :
    Books guide "assignment-1" offered_db offered_db accepted_db acceptance
decide_assignment-Books_example =
    decide_assignment-Books platform guide "assignment-1" accept "accept-1" none offered_db
      offered_db accepted_db acceptance acceptance_runs refl refl

abbrev invitation_row : Connection
invitation_row = record {
  connection_id = "connection-1";
  guide_os_id = guide;
  company_id = "company-1";
  company_name = "Silk Road Tours";
  status = ConnectionStatus.invited;
  invitation_expires_at = "2026-07-10T00:00:00Z";
  invited_at = "2026-07-01T00:00:00Z";
  decided_at = none;
  disconnected_at = none;
  invite_event_id = "invite-1";
  disconnect_event_id = none;
  created_at = "2026-07-01T00:00:00Z";
  updated_at = "2026-07-01T00:00:00Z";
}

invitation_runs :
    receive_connection_invitation platform invitation_event start start
    ≡ (ok invitation_row, invited_db)
unfolding decide_assignment submit validate_guide_os_id is_canonical_guide_os_id strip
    require_nonempty decision_plan find receive_assignment_offer offer_request normalize_offer
    require_iso_date offer_plan decide_connection connection_plan receive_connection_invitation
    invitation_request normalize_invitation count_projections decision_operation insert_projection
    record_decision offer_payload offer_operation day_locations_json_from_package projection_labels
    find_version held_elsewhere insert_assignment insert_decision insert_offer_inbox insert_version
    calendar_conflicts days_in_range get_conflicting_dates get_tours_in_range connection_operation
    insert_connection_decision write_decision by_status require_confirmed_connection_for_offer
    invitation_payload is_expired insert_connection insert_connection_inbox invitation_operation
    invitation_plan modify run_write_with_retry get insert_guide_operator_guide_notification
    insert_outbox require_iso_datetime
invitation_runs = refl

receive_connection_invitation_twice_example :
    receive_connection_invitation platform invitation_event invited_db invited_db
    ≡ (ok invitation_row, invited_db)
receive_connection_invitation_twice_example =
    receive_connection_invitation_twice platform invitation_event start invited_db invitation_row
      invitation_runs

guide_valid : validate_guide_os_id guide ≡ ok guide
unfolding validate_guide_os_id is_canonical_guide_os_id strip
guide_valid = refl

id_nonblank : strip "connection-1" ≢ ""
unfolding strip
id_nonblank h = absurd (ground (arith, eq_iff "connection-1" ""))

company_nonblank : strip "company-1" ≢ ""
unfolding strip
company_nonblank h = absurd (ground (arith, eq_iff "company-1" ""))

-- The row once the guide has confirmed.
abbrev confirmed_row : Connection
confirmed_row = record invitation_row {
  status = confirmed;
  decided_at = some "2026-07-01T00:00:00Z";
}

gate_iff_example :
    (require_confirmed_connection_for_offer platform "connection-1" guide "company-1" none
        confirmed_db
      ≡ ok confirmed_row)
    ↔ ((find connection_key (strip "connection-1") confirmed_db.connections ≡ some confirmed_row)
        × (confirmed_row.guide_os_id ≡ guide)
        × (confirmed_row.company_id ≡ strip "company-1")
        × (confirmed_row.status ≡ confirmed))
gate_iff_example =
    gate_iff platform "connection-1" guide "company-1" none confirmed_db confirmed_row guide_valid
      id_nonblank company_nonblank
