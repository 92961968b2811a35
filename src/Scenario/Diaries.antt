-- ===== src/Scenario/Diaries.antt =====
-- The guide of the scenario keeps a diary beside the exchange with the operator.
use guide_os.Prelude.{
  String, Option, ℕ, text_eq, number_eq, ◌≡◌, refl, none, some, List, [], ◌∷◌, false, ◌==◌,
  if◌then◌else◌,
}
use guide_os.Prelude.Text.{strip, text_before}
use guide_os.Errors.{ok}
use guide_os.Platform.{Platform}
use guide_os.Database.{Db, find, guide_operator}
use guide_os.Database.Write.{run_write_with_retry}
use guide_os.Database.{ConnectionDecisionType, AssignmentDecisionType, mini_app, Tour}
use guide_os.Assignment.Store.{tour_key}
use guide_os.Identity.{validate_guide_os_id, is_canonical_guide_os_id}
use guide_os.Validation.{require_nonempty, require_iso_datetime, require_iso_date}
use guide_os.Database.Write.{submit}
use guide_os.Database.{modify}
use guide_os.Calendar.{calendar_conflicts, days_in_range, get_tours_in_range, get_conflicting_dates}
use guide_os.Assignment.Decide.{
  decide_assignment, decision_plan, decision_operation, insert_projection, record_decision,
  count_projections,
}
use guide_os.Assignment.Package.{projection_labels, day_locations_json_from_package}
use guide_os.Json.{get, text}
use guide_os.Outbox.{insert_outbox}
use guide_os.Notification.{insert_guide_operator_guide_notification}
use guide_os.Connection.Intake.{normalize_invitation, invitation_payload, is_expired}
use guide_os.Connection.Invite.{
  receive_connection_invitation, invitation_request, invitation_plan, invitation_operation,
  insert_connection, insert_connection_inbox,
}
use guide_os.Connection.Gate.{by_status, require_confirmed_connection_for_offer}
use guide_os.Connection.Decide.{
  decide_connection, decision_plan as connection_plan, decision_operation as connection_operation,
  write_decision, insert_connection_decision,
}
use guide_os.Assignment.Intake.{normalize_offer, offer_payload}
use guide_os.Assignment.Store.{
  find_version, held_elsewhere, insert_assignment, insert_decision, insert_offer_inbox,
  insert_version,
}
use guide_os.Assignment.Offer.{receive_assignment_offer, offer_request, offer_plan, offer_operation}
use guide_os.Entry.Rows.{create_tour, get_tour_by_id}
use guide_os.Prelude.{ℤ}
use guide_os.Entry.Draft.{TourEntryDraft, draft_request, drafted, create_tour_entry, validate_times}
use guide_os.Entry.Calls.{EntryCall}
use guide_os.Entry.View.{row_to_entry_dict, list_entries, collapse_rows_to_entries, sort_by}
use guide_os.Entry.Conflicts.{check_entry_conflicts, scan_days, scan_day, excluded_group, warn}
use guide_os.Entry.Judged.{IsJudged, check_entry_conflicts-IsJudged}
use guide_os.Entry.Created.{IsProper, Stores, create_tour_entry-Stores}
use guide_os.Workflow.{Call}
use guide_os.Workflow.Journey.{Step}
use guide_os.Workflow.Diary.{
  Activity, live, diary_only, IsGuarded, live-IsGuarded, diary_only-Protects,
}
use guide_os.Scenario.{
  guide, platform, start, invitation_event, offer_event, invited_db, confirmed_db, offered_db,
  accepted_db,
}
use guide_os.Scenario.Versions.{start-IsConsistent}

abbrev excursion : TourEntryDraft
excursion = record {
  title = " Registan ";
  company = "Own";
  location = "Samarkand";
  start_date = 90;
  end_date = 91;
  start_time = some "09:00";
  end_time = some "12:30";
  status = "reserved";
  payment = "unpaid";
  income = 100;
  note = "";
  source = mini_app;
  entry_type = "tour";
}

start-IsGuarded : IsGuarded start
start-IsGuarded = record {
  consistent = start-IsConsistent;
  quiet = record { metadata = refl; occupancy = refl; release = refl };
}

abbrev acceptance : List (Platform × Activity × Db)
acceptance =
    (platform, Activity.service (Step.call (Call.invitation invitation_event)), start)
    ∷ (
      platform,
      Activity.service (
          Step.call (
            Call.connection_decision guide "connection-1" ConnectionDecisionType.confirm "confirm-1"
              none)),
      invited_db,
    )
    ∷ (platform, Activity.service (Step.call (Call.offer offer_event)), confirmed_db)
    ∷ (
      platform,
      Activity.service (
          Step.call (
            Call.assignment_decision guide "assignment-1" AssignmentDecisionType.accept "accept-1"
              none)),
      offered_db,
    )
    ∷ []

-- The guide creates an entry, edits and copies the operator's one, edits her own, and deletes both.
abbrev attempts : List (Platform × (ℕ × EntryCall) × Db)
attempts =
    (platform, (7, EntryCall.create "group-1" excursion), accepted_db)
    ∷ (platform, (7, EntryCall.update 1 excursion), start)
    ∷ (platform, (7, EntryCall.company 1 "Mine"), accepted_db)
    ∷ (platform, (7, EntryCall.income 2 (ℤ.pos 50)), accepted_db)
    ∷ (platform, (7, EntryCall.copy (λ n. "1") "group-2" 1 95 96), accepted_db)
    ∷ (platform, (7, EntryCall.day_locations 1 (text "Bukhara")), start)
    ∷ (platform, (7, EntryCall.delete 1), accepted_db)
    ∷ (platform, (7, EntryCall.delete 2), accepted_db)
    ∷ []

live-IsGuarded_example : IsGuarded (
    live
      ((platform, Activity.diary 7 (EntryCall.create "group-1" excursion), start) ∷ acceptance)
      start)
live-IsGuarded_example =
    live-IsGuarded
      ((platform, Activity.diary 7 (EntryCall.create "group-1" excursion), start) ∷ acceptance)
      start start-IsGuarded

accepted_db-IsGuarded : IsGuarded accepted_db
unfolding live
accepted_db-IsGuarded = live-IsGuarded acceptance start start-IsGuarded

excursion_created :
    create_tour_entry platform 7 "group-1" excursion start
    ≡ (ok 1, record start { tours = drafted 7 "group-1" excursion 1 ∷ []; tour_sequence = 1 })
unfolding create_tour_entry draft_request validate_times text_before strip run_write_with_retry
    create_tour
excursion_created = refl

abbrev protected_entry : Tour
protected_entry = record {
  id = 1;
  user_id = 7;
  company = "Silk Road Tours";
  city = "—";
  start_date = 100;
  end_date = 102;
  status = "confirmed";
  income = none;
  payment_status = "unpaid";
  note = some "go_assignment:assignment-1";
  entry_type = "tour";
  tour_group_id = some "assignment-1";
  title = some "Silk Road Tours";
  start_time = none;
  end_time = none;
  source = guide_operator;
  day_locations_json = none;
}

booked : find tour_key 1 accepted_db.tours ≡ some protected_entry
unfolding decide_assignment submit validate_guide_os_id is_canonical_guide_os_id strip
    require_nonempty decision_plan find receive_assignment_offer offer_request normalize_offer
    require_iso_date offer_plan decide_connection connection_plan receive_connection_invitation
    invitation_request normalize_invitation count_projections decision_operation insert_projection
    record_decision offer_payload offer_operation day_locations_json_from_package projection_labels
    find_version held_elsewhere insert_assignment insert_decision insert_offer_inbox insert_version
    calendar_conflicts days_in_range get_conflicting_dates get_tours_in_range connection_operation
    insert_connection_decision write_decision by_status require_confirmed_connection_for_offer
    invitation_payload is_expired insert_connection insert_connection_inbox invitation_operation
    invitation_plan modify run_write_with_retry get insert_guide_operator_guide_notification
    insert_outbox require_iso_datetime
booked = refl

diary_only-Protects_example :
    find tour_key 1 (diary_only attempts accepted_db).tours ≡ some protected_entry
diary_only-Protects_example =
    diary_only-Protects attempts accepted_db accepted_db-IsGuarded 1 protected_entry booked refl

abbrev with_excursion : Db
with_excursion = record start { tours = drafted 7 "group-1" excursion 1 ∷ []; tour_sequence = 1 }

create_tour_entry-Stores_example :
    IsProper excursion
    × ((t : Tour) × (get_tour_by_id 7 1 with_excursion ≡ some t) × Stores 7 1 excursion t)
    × ((user other : ℕ)
        → (other == 1) ≡ false
        → get_tour_by_id user other with_excursion ≡ get_tour_by_id user other start)
create_tour_entry-Stores_example =
    create_tour_entry-Stores platform 7 "group-1" excursion start with_excursion 1 excursion_created

-- Beside the morning excursion and an entry that is being changed, an afternoon is only warned of.
abbrev afternoon : TourEntryDraft
afternoon = record excursion { start_time = some "13:00"; end_time = some "15:00" }

abbrev busy_db : Db
busy_db = record start {
  tours = drafted 7 "group-1" excursion 1 ∷ drafted 7 "group-2" afternoon 2 ∷ [];
  tour_sequence = 2;
}

abbrev numeral : ℕ → String
numeral n = if n == 1 then "1" else "2"

abbrev number_of : String → Option ℕ
number_of s = if s == "2" then some 2 else none

afternoon_warned :
    check_entry_conflicts numeral number_of 7 afternoon (some "2") busy_db
    ≡ ok (warn 90 (row_to_entry_dict numeral (drafted 7 "group-1" excursion 1)))
unfolding check_entry_conflicts scan_days scan_day list_entries collapse_rows_to_entries sort_by
    get_tours_in_range days_in_range get_tour_by_id find strip text_before
afternoon_warned = refl

check_entry_conflicts-IsJudged_example :
    (group : Option String) × (excluded_group numeral number_of 7 (some "2") busy_db ≡ ok group)
    × IsJudged afternoon
        (some "2")
        group
        (list_entries numeral 7 90 91 busy_db)
        (days_in_range 90 91)
        false
        (warn 90 (row_to_entry_dict numeral (drafted 7 "group-1" excursion 1)))
check_entry_conflicts-IsJudged_example =
    check_entry_conflicts-IsJudged numeral number_of 7 afternoon (some "2") busy_db
      (warn 90 (row_to_entry_dict numeral (drafted 7 "group-1" excursion 1))) afternoon_warned
