-- ===== src/Version/Critical.antt =====
-- `intake_critical_assignment_version`: a critical version is kept as pending, and changes neither
-- the active version nor the calendar.
use guide_os.Prelude.{
  ℕ, suc, Bool, true, false, String, ◌==◌, text_eq, number_eq, not, ◌&&◌, Option, none, some, [],
  ◌∷◌, is_some, if◌then◌else◌,
}
use guide_os.Json.{Json, Fields, nil, text, number, array, object, dict}
use guide_os.Errors.{
  Result, ok, err, ◌>>=◌, ◌>>◌, raise_if, or_raise, not_actionable, validation_error, Detail,
  idempotency_conflict,
}
use guide_os.Platform.{Platform}
use guide_os.Database.{
  Db, Assignment, AssignmentStatus, AssignmentVersion, accepted, critical,
  critical_confirmation_required, find, modify,
}
use guide_os.Database.Write.{Operation, Plan, answer, write, hashed, submit}
use guide_os.Notification.{insert_guide_operator_guide_notification}
use guide_os.Outbox.{insert_outbox}
use guide_os.Assignment.Store.{
  assignment_key, is_accepted, assignment_of, get_assignment_for_guide, find_version,
  insert_version,
}
use guide_os.Assignment.Decide.{same_tour}
use guide_os.Version.Snapshot.{load_working_package_json}
use guide_os.Version.Intake.{
  AssignmentVersionPublishedIntake, PublishedVersion, version_payload, normalize_critical_version,
}
use guide_os.Version.Projection.{version_entry, version_row}
use guide_os.Version.Store.{version_inbox_key, insert_version_inbox}

pub record AssignmentCriticalVersionIntakeResult : Type 0 where
  pub assignment_id : String
  pub guide_os_id : String
  pub status : AssignmentStatus
  pub version_number : ℕ
  pub previous_active_version_number : ℕ
  pub pending_critical_version_number : Option ℕ
  pub active_version_number : ℕ
  pub source_event_id : String
  pub unread : Bool
  pub projection_tour_id : Option ℕ
  pub replayed : Bool

-- The answer, from the row as it stands after the call.
abbrev pub critical_answer :
    PublishedVersion
    → AssignmentStatus
    → Option ℕ
    → Assignment
    → Bool
    → AssignmentCriticalVersionIntakeResult
critical_answer n status pending a replayed = record {
  assignment_id = n.assignment_id;
  guide_os_id = n.guide_os_id;
  status = status;
  version_number = n.version_number;
  previous_active_version_number = n.previous_active;
  pending_critical_version_number = pending;
  active_version_number = a.active_version_number;
  source_event_id = n.event_id;
  unread = a.active_version_unread;
  projection_tour_id = a.projection_tour_id;
  replayed = replayed;
}

abbrev is_source : String → Option String → Bool
is_source event none = false
is_source event (some e) = e == event

abbrev comes_from : String → Option AssignmentVersion → Bool
comes_from event none = false
comes_from event (some v) = is_source event v.source_event_id

-- The answer to a repeated event, once its snapshot is there.
abbrev pub replayed_critical :
    PublishedVersion → Assignment → Db → Result AssignmentCriticalVersionIntakeResult
replayed_critical n stored db = do
  raise_if (not (comes_from n.event_id (find_version n.assignment_id n.version_number db.versions)))
      (validation_error Detail.plain)
  ok (critical_answer n stored.status stored.pending_critical_version_number stored true)

-- `_assert_critical_version_intake_chain`
abbrev pub assert_critical_version_intake_chain : Assignment → ℕ → ℕ → Result (Unit {0})
assert_critical_version_intake_chain a version_number previous_active = do
  raise_if (not (is_accepted a.status)) (not_actionable Detail.plain)
  raise_if (is_some a.pending_critical_version_number) idempotency_conflict
  raise_if (not (previous_active == a.active_version_number)) idempotency_conflict
  raise_if (not (version_number == suc a.active_version_number)) idempotency_conflict

-- `not change_summary`
abbrev no_changes : Json → Bool
no_changes (array nil) = true
no_changes _ = false

-- UPDATE … WHERE guide_os_id = ? AND status = 'accepted' AND active_version_number = ?
-- AND pending_critical_version_number IS NULL
abbrev pub mark_pending : PublishedVersion → String → Assignment → Assignment
mark_pending n received_at a =
    if (a.guide_os_id == n.guide_os_id)
      && is_accepted a.status
      && (a.active_version_number == n.previous_active)
      && not (is_some a.pending_critical_version_number)
    then record a {
      pending_critical_version_number = some n.version_number;
      updated_at = received_at;
    }
    else a

abbrev same_flag : Bool → Bool → Bool
same_flag true b = b
same_flag false b = not b

-- The row after the update is the locked one but for the pending version.
abbrev pub only_pending : ℕ → Assignment → Assignment → Bool
only_pending version_number locked updated =
    is_accepted updated.status
    && (updated.active_version_number == locked.active_version_number)
    && same_flag updated.active_version_unread locked.active_version_unread
    && same_tour updated.pending_critical_version_number (some version_number)
    && same_tour updated.projection_tour_id locked.projection_tour_id
    && (updated.start_date == locked.start_date)
    && (updated.end_date == locked.end_date)
    && (updated.role == locked.role)

abbrev pub received_payload : PublishedVersion → String → Json
received_payload n received_at = dict (
    ("assignment_id", text n.assignment_id)
    ∷ ("guide_os_id", text n.guide_os_id)
    ∷ ("version_number", number n.version_number)
    ∷ ("previous_active_version_number", number n.previous_active)
    ∷ ("severity", text "critical")
    ∷ ("source_event_id", text n.event_id)
    ∷ ("published_at", text n.published_at)
    ∷ ("received_at", text received_at)
    ∷ [])

module _ (env : Platform) where
  -- `_assert_critical_version_not_noop`
  abbrev pub assert_critical_version_not_noop : Fields → Fields → Json → Result (Unit {0})
  assert_critical_version_not_noop previous next change_summary = do
    raise_if (no_changes change_summary) (validation_error Detail.plain)
    raise_if (env.canonical_hash (object previous) == env.canonical_hash (object next))
        (validation_error Detail.plain)

  -- The previous active snapshot, from which the next one must differ.
  unfoldable pub check_change : PublishedVersion → Db → Result (Unit {0})
  check_change n db = do
    previous ←
        or_raise (find_version n.assignment_id n.previous_active db.versions)
          (validation_error Detail.plain)
    previous_package ← load_working_package_json env previous.working_package_json
    assert_critical_version_not_noop previous_package n.working_package n.change_summary

  unfoldable pub critical_plan :
      PublishedVersion
      → String
      → Db
      → Result (Plan PublishedVersion AssignmentCriticalVersionIntakeResult)
  critical_plan n payload_hash db = elim (find version_inbox_key n.event_id db.version_inbox) [
    | some inbox ↦ do
      raise_if (not (inbox.payload_hash == payload_hash)) idempotency_conflict
      stored ← get_assignment_for_guide n.guide_os_id n.assignment_id db
      answered ← replayed_critical n stored db
      ok (answer answered)
    | none ↦ do
      a ← get_assignment_for_guide n.guide_os_id n.assignment_id db
      assert_critical_version_intake_chain a n.version_number n.previous_active
      check_change n db
      ok (write n)
  ]

  -- The writes, once the locked row has passed the checks.
  unfoldable pub write_critical :
      String → PublishedVersion → Assignment → Operation AssignmentCriticalVersionIntakeResult
  write_critical payload_hash n locked db = do
    with_inbox ← insert_version_inbox (version_entry payload_hash n env.utc_now) db
    with_version ← insert_version (version_row env critical n) with_inbox
    let changed = record with_version {
      assignments =
          modify assignment_key n.assignment_id (mark_pending n env.utc_now)
            with_version.assignments;
    }
    updated ←
        or_raise (assignment_of n.guide_os_id n.assignment_id changed) (not_actionable Detail.plain)
    raise_if (not (only_pending n.version_number locked updated)) (not_actionable Detail.plain)
    sent ←
        insert_outbox n.event_id "assignment.version.received.ack.v1" "guide_assignment"
          n.assignment_id n.guide_os_id (env.dumps (received_payload n env.utc_now)) env.utc_now
          changed
    notified ←
        insert_guide_operator_guide_notification n.event_id n.guide_os_id
          critical_confirmation_required locked.company_name env.utc_now none (some n.assignment_id)
          (some n.version_number) sent
    ok (critical_answer n accepted (some n.version_number) locked false, notified)

  unfoldable pub critical_operation :
      String → PublishedVersion → Operation AssignmentCriticalVersionIntakeResult
  critical_operation payload_hash n db = elim (find version_inbox_key n.event_id db.version_inbox) [
    | some inbox ↦ do
      raise_if (not (inbox.payload_hash == payload_hash)) idempotency_conflict
      locked ← get_assignment_for_guide n.guide_os_id n.assignment_id db
      answered ← replayed_critical n locked db
      ok (answered, db)
    | none ↦ do
      locked ← get_assignment_for_guide n.guide_os_id n.assignment_id db
      assert_critical_version_intake_chain locked n.version_number n.previous_active
      elim (find_version n.assignment_id n.version_number db.versions) [
        | some version ↦ err idempotency_conflict
        | none ↦ do check_change n db; write_critical payload_hash n locked db
      ]
  ]

  unfoldable pub critical_request :
      AssignmentVersionPublishedIntake
      → Db
      → Result (Plan (String × PublishedVersion) AssignmentCriticalVersionIntakeResult)
  critical_request event before = do
    n ← normalize_critical_version env event
    decided ← critical_plan n (env.canonical_hash (version_payload n)) before
    ok (hashed (env.canonical_hash (version_payload n)) decided)

  abbrev pub critical_write :
      String × PublishedVersion → Operation AssignmentCriticalVersionIntakeResult
  critical_write (payload_hash, n) = critical_operation payload_hash n

  unfoldable pub intake_critical_assignment_version :
      AssignmentVersionPublishedIntake → Db → Db → Result AssignmentCriticalVersionIntakeResult × Db
  intake_critical_assignment_version event before db =
      submit env.busy (critical_request event before) critical_write db
