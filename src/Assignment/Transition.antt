-- ===== src/Assignment/Transition.antt =====
-- `apply_assignment_lifecycle_transition`: an open offer is withdrawn or expires.
use guide_os.Prelude.{
  Bool, true, false, String, ◌==◌, text_eq, not, ◌&&◌, none, some, is_some, if◌then◌else◌,
}
use guide_os.Errors.{
  Result, ok, ◌>>=◌, ◌>>◌, raise_if, or_raise, not_actionable, validation_error, Detail,
  idempotency_conflict,
}
use guide_os.Platform.{Platform}
use guide_os.Database.{
  Db, Assignment, AssignmentStatus, withdrawn, expired, LifecycleEventType, withdrawn_v1,
  expired_v1, LifecycleInbox, find, modify,
}
use guide_os.Database.Write.{Operation, Plan, answer, write, hashed, submit}
use guide_os.Assignment.Intake.{
  AssignmentLifecycleIntake, NormalizedTransition, target_status, transition_payload,
  normalize_assignment_lifecycle,
}
use guide_os.Assignment.Store.{
  assignment_key, lifecycle_inbox_key, is_offered, assignment_of, get_assignment_for_guide,
  insert_lifecycle_inbox,
}

pub record AssignmentLifecycleResult : Type 0 where
  pub assignment_id : String
  pub guide_os_id : String
  pub status : AssignmentStatus
  pub event_type : LifecycleEventType
  pub replayed : Bool

abbrev pub transition_answer : NormalizedTransition → Bool → AssignmentLifecycleResult
transition_answer n replayed = record {
  assignment_id = n.assignment_id;
  guide_os_id = n.guide_os_id;
  status = target_status n.event_type;
  event_type = n.event_type;
  replayed = replayed;
}

-- `stored["status"] == target_status`
abbrev pub has_reached : AssignmentStatus → LifecycleEventType → Bool
has_reached withdrawn withdrawn_v1 = true
has_reached expired expired_v1 = true
has_reached _ _ = false

-- The checks on the row, which are made before the transaction and again inside it.
abbrev pub check_open : Assignment → Result (Unit {0})
check_open a = do
  raise_if (not (is_offered a.status)) (not_actionable Detail.plain)
  raise_if (is_some a.projection_tour_id) idempotency_conflict

abbrev pub transition_entry : String → NormalizedTransition → String → LifecycleInbox
transition_entry payload_hash n received_at = record {
  event_id = n.event_id;
  event_type = n.event_type;
  assignment_id = n.assignment_id;
  guide_os_id = n.guide_os_id;
  payload_hash = payload_hash;
  received_at = received_at;
}

-- The condition of the UPDATE on the row with the event's id; on the row that was just read and
-- checked it holds, so `rowcount` is 1.
abbrev pub is_closable : NormalizedTransition → Assignment → Bool
is_closable n a =
    (a.guide_os_id == n.guide_os_id) && is_offered a.status && not (is_some a.projection_tour_id)

abbrev pub close_offer : NormalizedTransition → Assignment → Assignment
close_offer n a =
    if is_closable n a
    then record a { status = target_status n.event_type; updated_at = n.transitioned_at }
    else a

module _ (env : Platform) where
  unfoldable pub transition_plan :
      NormalizedTransition
      → String
      → Db
      → Result (Plan NormalizedTransition AssignmentLifecycleResult)
  transition_plan n payload_hash db =
      elim (find lifecycle_inbox_key n.event_id db.lifecycle_inbox) [
        | some inbox ↦ do
          raise_if (not (inbox.payload_hash == payload_hash)) idempotency_conflict
          stored ← get_assignment_for_guide n.guide_os_id n.assignment_id db
          raise_if (not (has_reached stored.status n.event_type)) (validation_error Detail.plain)
          ok (answer (transition_answer n true))
        | none ↦ do
          a ← get_assignment_for_guide n.guide_os_id n.assignment_id db
          check_open a
          ok (write n)
      ]

  unfoldable pub transition_operation :
      String → NormalizedTransition → Operation AssignmentLifecycleResult
  transition_operation payload_hash n db =
      elim (find lifecycle_inbox_key n.event_id db.lifecycle_inbox) [
        | some inbox ↦ do
          raise_if (not (inbox.payload_hash == payload_hash)) idempotency_conflict
          locked ←
              or_raise (assignment_of n.guide_os_id n.assignment_id db)
                (validation_error Detail.plain)
          raise_if (not (has_reached locked.status n.event_type)) (validation_error Detail.plain)
          ok (transition_answer n true, db)
        | none ↦ do
          locked ← get_assignment_for_guide n.guide_os_id n.assignment_id db
          check_open locked
          with_inbox ← insert_lifecycle_inbox (transition_entry payload_hash n env.utc_now) db
          raise_if (not (is_closable n locked)) (not_actionable Detail.plain)
          ok (
            transition_answer n false,
            record with_inbox {
              assignments =
                  modify assignment_key n.assignment_id (close_offer n) with_inbox.assignments;
            },
          )
      ]

  unfoldable pub transition_request :
      AssignmentLifecycleIntake
      → Db
      → Result (Plan (String × NormalizedTransition) AssignmentLifecycleResult)
  transition_request event before = do
    n ← normalize_assignment_lifecycle env event
    decided ← transition_plan n (env.canonical_hash (transition_payload n)) before
    ok (hashed (env.canonical_hash (transition_payload n)) decided)

  abbrev pub transition_write : String × NormalizedTransition → Operation AssignmentLifecycleResult
  transition_write (payload_hash, n) = transition_operation payload_hash n

  unfoldable pub apply_assignment_lifecycle_transition :
      AssignmentLifecycleIntake → Db → Db → Result AssignmentLifecycleResult × Db
  apply_assignment_lifecycle_transition event before db =
      submit env.busy (transition_request event before) transition_write db
