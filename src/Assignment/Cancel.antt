-- ===== src/Assignment/Cancel.antt =====
-- `apply_assignment_cancellation`.
use guide_os.Prelude.{
  ℕ, Bool, true, false, String, ◌==◌, text_eq, number_eq, not, ◌&&◌, ◌||◌, Option, none, some, List,
  [], ◌∷◌, is_some, or_else, if◌then◌else◌,
}
use guide_os.Json.{Json, text, number, dict}
use guide_os.Errors.{
  Result, ok, ◌>>=◌, ◌>>◌, raise_if, or_raise, not_actionable, validation_error, Detail,
  idempotency_conflict, integrity_error,
}
use guide_os.Platform.{Platform}
use guide_os.Database.{
  Db, Assignment, AssignmentStatus, cancelled, CancellationInbox, assignment_cancellation, find,
  modify, remove,
}
use guide_os.Database.Write.{Operation, Plan, answer, write, hashed, submit}
use guide_os.Notification.{insert_guide_operator_guide_notification}
use guide_os.Outbox.{insert_outbox}
use guide_os.Assignment.Intake.{
  AssignmentCancellationIntake, cancellation_payload, normalize_cancellation,
}
use guide_os.Assignment.Store.{
  assignment_key, cancellation_inbox_key, tour_key, is_accepted, is_cancelled, assignment_of,
  get_assignment_for_guide, insert_cancellation_inbox, holds_tour, holds_cancellation,
  held_elsewhere,
}
use guide_os.Assignment.Decide.{is_guide_operator}

pub record AssignmentCancellationResult : Type 0 where
  pub assignment_id : String
  pub guide_os_id : String
  pub status : AssignmentStatus
  pub version_number : ℕ
  pub cancelled_at : String
  pub cancellation_event_id : String
  pub projection_released : Bool
  pub replayed : Bool

-- The answer to a repeated event, from the stored row.
abbrev pub replayed_cancellation :
    AssignmentCancellationIntake → Assignment → AssignmentCancellationResult
replayed_cancellation n stored = record {
  assignment_id = n.assignment_id;
  guide_os_id = n.guide_os_id;
  status = cancelled;
  version_number = stored.active_version_number;
  cancelled_at = or_else stored.cancelled_at n.cancelled_at;
  cancellation_event_id = or_else stored.cancellation_event_id n.event_id;
  projection_released = not (is_some stored.projection_tour_id);
  replayed = true;
}

abbrev pub applied_cancellation : AssignmentCancellationIntake → AssignmentCancellationResult
applied_cancellation n = record {
  assignment_id = n.assignment_id;
  guide_os_id = n.guide_os_id;
  status = cancelled;
  version_number = n.version_number;
  cancelled_at = n.cancelled_at;
  cancellation_event_id = n.event_id;
  projection_released = true;
  replayed = false;
}

-- The checks on the row, which are made before the transaction and again inside it.
abbrev pub check_row : AssignmentCancellationIntake → Assignment → Result (Unit {0})
check_row n a = do
  raise_if (not (a.active_version_number == n.version_number)) idempotency_conflict
  raise_if (not (is_accepted a.status)) (not_actionable Detail.plain)

abbrev pub cancellation_entry : String → AssignmentCancellationIntake → String → CancellationInbox
cancellation_entry payload_hash n received_at = record {
  event_id = n.event_id;
  assignment_id = n.assignment_id;
  guide_os_id = n.guide_os_id;
  version_number = n.version_number;
  payload_hash = payload_hash;
  received_at = received_at;
}

-- UPDATE … WHERE guide_os_id = ? AND status = 'accepted'
abbrev pub cancel_row : AssignmentCancellationIntake → String → Assignment → Assignment
cancel_row n received_at a =
    if (a.guide_os_id == n.guide_os_id) && is_accepted a.status
    then record a {
      status = cancelled;
      projection_tour_id = none;
      cancelled_at = some n.cancelled_at;
      cancellation_event_id = some n.event_id;
      pending_critical_version_number = none;
      updated_at = received_at;
    }
    else a

abbrev pub acknowledgement : AssignmentCancellationIntake → Json
acknowledgement n = dict (
    ("assignment_id", text n.assignment_id)
    ∷ ("guide_os_id", text n.guide_os_id)
    ∷ ("version_number", number n.version_number)
    ∷ ("cancelled_at", text n.cancelled_at)
    ∷ ("source_event_id", text n.event_id)
    ∷ [])

abbrev pub contains : ℕ → List ℕ → Bool
contains id [] = false
contains id (x ∷ xs) = (x == id) || contains id xs

-- DELETE … WHERE tour_id = ?, of the allowance of one entry.
abbrev pub disallow : ℕ → List ℕ → List ℕ
disallow id [] = []
disallow id (x ∷ xs) = let rest = disallow id xs in if x == id then rest else x ∷ rest

-- Some assignment still refers to the tour, so the foreign key refuses its deletion.
unfoldable pub referenced : ℕ → List Assignment → Bool
referenced id [] = false
referenced id (a ∷ rows) = holds_tour id a || referenced id rows

-- INSERT INTO go_operator_projection_release, DELETE FROM tours WHERE id = ? AND source = ?, for
-- which the trigger asks for the release row and no row deleted is `rowcount != 1`, and DELETE of
-- the release row.
unfoldable pub release_projection : Option ℕ → Db → Result Db
release_projection none db = ok db
release_projection (some id) db = do
  raise_if (contains id db.projection_release) integrity_error
  let opened = record db { projection_release = id ∷ db.projection_release }
  tour ← or_raise (find tour_key id opened.tours) (validation_error Detail.plain)
  raise_if (not (is_guide_operator tour.source)) (validation_error Detail.plain)
  raise_if (not (contains id opened.projection_release)) integrity_error
  raise_if (referenced id opened.assignments) integrity_error
  let deleted = record opened { tours = remove tour_key id opened.tours }
  ok (record deleted { projection_release = disallow id deleted.projection_release })

module _ (env : Platform) where
  unfoldable pub cancellation_plan :
      AssignmentCancellationIntake
      → String
      → Db
      → Result (Plan AssignmentCancellationIntake AssignmentCancellationResult)
  cancellation_plan n payload_hash db =
      elim (find cancellation_inbox_key n.event_id db.cancellation_inbox) [
        | some inbox ↦ do
          raise_if (not (inbox.payload_hash == payload_hash)) idempotency_conflict
          stored ← get_assignment_for_guide n.guide_os_id n.assignment_id db
          raise_if (not (is_cancelled stored.status)) (validation_error Detail.plain)
          ok (answer (replayed_cancellation n stored))
        | none ↦ do
          a ← get_assignment_for_guide n.guide_os_id n.assignment_id db
          check_row n a
          ok (write n)
      ]

  -- The writes, once the locked row has passed the checks.
  unfoldable pub write_cancellation :
      String → AssignmentCancellationIntake → Assignment → Operation AssignmentCancellationResult
  write_cancellation payload_hash n locked db = do
    with_inbox ← insert_cancellation_inbox (cancellation_entry payload_hash n env.utc_now) db
    raise_if (held_elsewhere (holds_cancellation n.event_id) n.assignment_id with_inbox.assignments)
        integrity_error
    let changed = record with_inbox {
      assignments =
          modify assignment_key n.assignment_id (cancel_row n env.utc_now) with_inbox.assignments;
    }
    updated ←
        or_raise (assignment_of n.guide_os_id n.assignment_id changed) (not_actionable Detail.plain)
    raise_if (not (is_cancelled updated.status)) (not_actionable Detail.plain)
    released ← release_projection locked.projection_tour_id changed
    sent ←
        insert_outbox n.event_id "assignment.cancellation.ack.v1" "guide_assignment" n.assignment_id
          n.guide_os_id (env.dumps (acknowledgement n)) env.utc_now released
    notified ←
        insert_guide_operator_guide_notification n.event_id n.guide_os_id assignment_cancellation
          locked.company_name env.utc_now none (some n.assignment_id) (some n.version_number) sent
    ok (applied_cancellation n, notified)

  unfoldable pub cancellation_operation :
      String → AssignmentCancellationIntake → Operation AssignmentCancellationResult
  cancellation_operation payload_hash n db =
      elim (find cancellation_inbox_key n.event_id db.cancellation_inbox) [
        | some inbox ↦ do
          raise_if (not (inbox.payload_hash == payload_hash)) idempotency_conflict
          locked ←
              or_raise (assignment_of n.guide_os_id n.assignment_id db)
                (validation_error Detail.plain)
          raise_if (not (is_cancelled locked.status)) (validation_error Detail.plain)
          ok (replayed_cancellation n locked, db)
        | none ↦ do
          locked ← get_assignment_for_guide n.guide_os_id n.assignment_id db
          check_row n locked
          write_cancellation payload_hash n locked db
      ]

  unfoldable pub cancellation_request :
      AssignmentCancellationIntake
      → Db
      → Result (Plan (String × AssignmentCancellationIntake) AssignmentCancellationResult)
  cancellation_request event before = do
    n ← normalize_cancellation env event
    decided ← cancellation_plan n (env.canonical_hash (cancellation_payload n)) before
    ok (hashed (env.canonical_hash (cancellation_payload n)) decided)

  abbrev pub cancellation_write :
      String × AssignmentCancellationIntake → Operation AssignmentCancellationResult
  cancellation_write (payload_hash, n) = cancellation_operation payload_hash n

  unfoldable pub apply_assignment_cancellation :
      AssignmentCancellationIntake → Db → Db → Result AssignmentCancellationResult × Db
  apply_assignment_cancellation event before db =
      submit env.busy (cancellation_request event before) cancellation_write db
