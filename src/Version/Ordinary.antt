-- ===== src/Version/Ordinary.antt =====
-- `apply_ordinary_assignment_version`.
use guide_os.Prelude.{
  ℕ, suc, Bool, true, false, String, ◌==◌, text_eq, number_eq, not, ◌&&◌, Option, none, some, List,
  [], ◌∷◌, if◌then◌else◌,
}
use guide_os.Json.{Json, text, number, dict}
use guide_os.Errors.{
  Result, ok, err, ◌>>=◌, ◌>>◌, raise_if, or_raise, not_actionable, validation_error, Detail,
  idempotency_conflict,
}
use guide_os.Platform.{Platform}
use guide_os.Database.{
  Db, Assignment, AssignmentStatus, accepted, ordinary, ordinary_version_change, find, modify,
}
use guide_os.Database.Write.{Operation, Plan, answer, write, hashed, submit}
use guide_os.Notification.{insert_guide_operator_guide_notification}
use guide_os.Outbox.{insert_outbox}
use guide_os.Assignment.Package.{projection_labels, day_locations_json_from_package}
use guide_os.Assignment.Store.{
  assignment_key, is_accepted, assignment_of, get_assignment_for_guide, find_version,
  insert_version,
}
use guide_os.Version.Snapshot.{load_working_package_json}
use guide_os.Version.Occupancy.{ordinary_occupancy_violations}
use guide_os.Version.Intake.{
  AssignmentVersionPublishedIntake, PublishedVersion, version_payload, normalize_ordinary_version,
}
use guide_os.Version.Projection.{Labels, version_entry, version_row, relabel_projection}
use guide_os.Version.Store.{version_inbox_key, insert_version_inbox}

pub record AssignmentOrdinaryVersionResult : Type 0 where
  pub assignment_id : String
  pub guide_os_id : String
  pub status : AssignmentStatus
  pub version_number : ℕ
  pub previous_active_version_number : ℕ
  pub source_event_id : String
  pub unread : Bool
  pub projection_tour_id : Option ℕ
  pub replayed : Bool

abbrev pub ordinary_answer :
    PublishedVersion → AssignmentStatus → Bool → Option ℕ → Bool → AssignmentOrdinaryVersionResult
ordinary_answer n status unread tour replayed = record {
  assignment_id = n.assignment_id;
  guide_os_id = n.guide_os_id;
  status = status;
  version_number = n.version_number;
  previous_active_version_number = n.previous_active;
  source_event_id = n.event_id;
  unread = unread;
  projection_tour_id = tour;
  replayed = replayed;
}

-- The answer to a repeated event, once the stored row has the version active.
abbrev pub replayed_ordinary :
    PublishedVersion → Assignment → Result AssignmentOrdinaryVersionResult
replayed_ordinary n stored = do
  raise_if (not (stored.active_version_number == n.version_number)) (validation_error Detail.plain)
  ok (ordinary_answer n stored.status stored.active_version_unread stored.projection_tour_id true)

-- `_assert_ordinary_version_chain`
abbrev pub assert_ordinary_version_chain : Assignment → ℕ → ℕ → Result (Unit {0})
assert_ordinary_version_chain a version_number previous_active = do
  raise_if (not (is_accepted a.status)) (not_actionable Detail.plain)
  raise_if (not (previous_active == a.active_version_number)) idempotency_conflict
  raise_if (not (version_number == suc a.active_version_number)) idempotency_conflict

-- `if occupancy_codes: raise …`
abbrev pub raise_codes : List String → Result (Unit {0})
raise_codes [] = ok tt
raise_codes (code ∷ more) = raise_if true (validation_error (Detail.codes (code ∷ more)))

-- UPDATE … WHERE guide_os_id = ? AND status = 'accepted' AND active_version_number = ?
abbrev pub activate_ordinary : PublishedVersion → String → Assignment → Assignment
activate_ordinary n received_at a =
    if (a.guide_os_id == n.guide_os_id)
      && is_accepted a.status
      && (a.active_version_number == n.previous_active)
    then record a {
      active_version_number = n.version_number;
      active_version_unread = true;
      updated_at = received_at;
    }
    else a

abbrev pub applied_payload : PublishedVersion → String → Json
applied_payload n applied_at = dict (
    ("assignment_id", text n.assignment_id)
    ∷ ("guide_os_id", text n.guide_os_id)
    ∷ ("version_number", number n.version_number)
    ∷ ("previous_active_version_number", number n.previous_active)
    ∷ ("severity", text "ordinary")
    ∷ ("source_event_id", text n.event_id)
    ∷ ("published_at", text n.published_at)
    ∷ ("applied_at", text applied_at)
    ∷ [])

module _ (env : Platform) where
  -- The previous active snapshot, against which the next one may not change what is occupied.
  unfoldable pub check_occupancy : PublishedVersion → Assignment → Db → Result (Unit {0})
  check_occupancy n a db = do
    previous ←
        or_raise (find_version n.assignment_id n.previous_active db.versions)
          (validation_error Detail.plain)
    previous_package ← load_working_package_json env previous.working_package_json
    codes ← ordinary_occupancy_violations env a previous_package n.working_package
    raise_codes codes

  abbrev pub labels_of : Assignment → PublishedVersion → Labels
  labels_of locked n = record {
    title = (projection_labels locked.company_name n.working_package).0;
    city = (projection_labels locked.company_name n.working_package).1;
    day_locations_json = day_locations_json_from_package env n.working_package;
  }

  unfoldable pub ordinary_plan :
      PublishedVersion
      → String
      → Db
      → Result (Plan PublishedVersion AssignmentOrdinaryVersionResult)
  ordinary_plan n payload_hash db = elim (find version_inbox_key n.event_id db.version_inbox) [
    | some inbox ↦ do
      raise_if (not (inbox.payload_hash == payload_hash)) idempotency_conflict
      stored ← get_assignment_for_guide n.guide_os_id n.assignment_id db
      answered ← replayed_ordinary n stored
      ok (answer answered)
    | none ↦ do
      a ← get_assignment_for_guide n.guide_os_id n.assignment_id db
      assert_ordinary_version_chain a n.version_number n.previous_active
      check_occupancy n a db
      ok (write n)
  ]

  -- The writes, once the locked row has passed the checks.
  unfoldable pub write_ordinary :
      String → PublishedVersion → Assignment → ℕ → Operation AssignmentOrdinaryVersionResult
  write_ordinary payload_hash n locked tour db = do
    with_inbox ← insert_version_inbox (version_entry payload_hash n env.utc_now) db
    with_version ← insert_version (version_row env ordinary n) with_inbox
    let changed = record with_version {
      assignments =
          modify assignment_key n.assignment_id (activate_ordinary n env.utc_now)
            with_version.assignments;
    }
    updated ←
        or_raise (assignment_of n.guide_os_id n.assignment_id changed) (not_actionable Detail.plain)
    raise_if
        (not (is_accepted updated.status && (updated.active_version_number == n.version_number)))
        (not_actionable Detail.plain)
    relabelled ← relabel_projection (labels_of locked n) tour locked changed
    sent ←
        insert_outbox n.event_id "assignment.version.applied.ack.v1" "guide_assignment"
          n.assignment_id n.guide_os_id (env.dumps (applied_payload n env.utc_now)) env.utc_now
          relabelled
    notified ←
        insert_guide_operator_guide_notification n.event_id n.guide_os_id ordinary_version_change
          locked.company_name env.utc_now none (some n.assignment_id) (some n.version_number) sent
    ok (ordinary_answer n accepted true (some tour) false, notified)

  unfoldable pub ordinary_operation :
      String → PublishedVersion → Operation AssignmentOrdinaryVersionResult
  ordinary_operation payload_hash n db = elim (find version_inbox_key n.event_id db.version_inbox) [
    | some inbox ↦ do
      raise_if (not (inbox.payload_hash == payload_hash)) idempotency_conflict
      locked ←
          or_raise (assignment_of n.guide_os_id n.assignment_id db) (validation_error Detail.plain)
      answered ← replayed_ordinary n locked
      ok (answered, db)
    | none ↦ do
      locked ← get_assignment_for_guide n.guide_os_id n.assignment_id db
      assert_ordinary_version_chain locked n.version_number n.previous_active
      elim (find_version n.assignment_id n.version_number db.versions) [
        | some version ↦ err idempotency_conflict
        | none ↦ do
          check_occupancy n locked db
          tour ← or_raise locked.projection_tour_id (validation_error Detail.plain)
          write_ordinary payload_hash n locked tour db
      ]
  ]

  unfoldable pub ordinary_request :
      AssignmentVersionPublishedIntake
      → Db
      → Result (Plan (String × PublishedVersion) AssignmentOrdinaryVersionResult)
  ordinary_request event before = do
    n ← normalize_ordinary_version env event
    decided ← ordinary_plan n (env.canonical_hash (version_payload n)) before
    ok (hashed (env.canonical_hash (version_payload n)) decided)

  abbrev pub ordinary_write : String × PublishedVersion → Operation AssignmentOrdinaryVersionResult
  ordinary_write (payload_hash, n) = ordinary_operation payload_hash n

  unfoldable pub apply_ordinary_assignment_version :
      AssignmentVersionPublishedIntake → Db → Db → Result AssignmentOrdinaryVersionResult × Db
  apply_ordinary_assignment_version event before db =
      submit env.busy (ordinary_request event before) ordinary_write db
