-- ===== src/Version/Decision.antt =====
-- `decide_critical_assignment_version`: the guide confirms or rejects the pending version.
mod Rows
unfoldable pub use Rows.*
use guide_os.Prelude.{
  ℕ, Bool, true, false, String, ◌==◌, text_eq, number_eq, not, Option, none, some, if◌then◌else◌,
}
use guide_os.Json.{Fields}
use guide_os.Errors.{
  Result, ok, err, ◌>>=◌, ◌>>◌, raise_if, or_raise, not_found, not_actionable, validation_error,
  Detail, idempotency_conflict, calendar_conflict,
}
use guide_os.Platform.{Platform}
use guide_os.Identity.{validate_guide_os_id}
use guide_os.Validation.{require_nonempty, require_iso_datetime}
use guide_os.Database.{
  Db, Assignment, accepted, AssignmentVersion, Severity, critical, CriticalDecisionType,
  confirm_critical, reject_critical, CriticalVersionDecision, find, modify,
}
use guide_os.Database.Write.{Operation, Plan, answer, write, submit}
use guide_os.Calendar.{calendar_conflicts}
use guide_os.Outbox.{insert_outbox}
use guide_os.Connection.Invite.{guide_key}
use guide_os.Assignment.Package.{projection_labels, day_locations_json_from_package}
use guide_os.Assignment.Store.{
  assignment_key, tour_key, is_accepted, assignment_of, get_assignment_for_guide, find_version,
}
use guide_os.Assignment.Decide.{same_tour, has_conflicts}
use guide_os.Version.Snapshot.{load_working_package_json}
use guide_os.Version.Intake.{require_int}
use guide_os.Version.Projection.{occupancy, Labels, reschedule, update_projection}
use guide_os.Version.Store.{critical_event_key, find_critical_decision, insert_critical_decision}

abbrev is_critical : Severity → Bool
is_critical critical = true
is_critical _ = false

abbrev critical_snapshot : Option AssignmentVersion → Result AssignmentVersion
critical_snapshot none = err (validation_error Detail.plain)
critical_snapshot (some v) =
    if is_critical v.severity then ok v else err (validation_error Detail.plain)

module _ (env : Platform) where
  -- `decided_at or _utc_now()`, checked when it was given
  abbrev pub decided_at_value : Option String → Result String
  decided_at_value none = ok env.utc_now
  decided_at_value (some s) = require_iso_datetime env s

  -- The pending snapshot and what it asks for.
  unfoldable pub pending_package : String → String → ℕ → Db → Result (Fields × ProposedOccupancy)
  pending_package identity assignment_id version_number db = do
    version ← critical_snapshot (find_version assignment_id version_number db.versions)
    loaded ← load_working_package_json env version.working_package_json
    proposed ← critical_proposed_occupancy env loaded assignment_id identity
    ok (loaded, proposed)

  -- The days that a confirmation books, which no other entry of the guide may cover.
  unfoldable pub proposed_days : ℕ → ProposedOccupancy → ℕ → Db → Result (ℕ × ℕ)
  proposed_days user_id proposed tour db = do
    start_date ← proposed_day env proposed.start_date
    end_date ← proposed_day env proposed.end_date
    raise_if (has_conflicts (calendar_conflicts user_id start_date end_date (some tour) db.tours))
        (calendar_conflict (calendar_conflicts user_id start_date end_date (some tour) db.tours))
    ok (start_date, end_date)

  abbrev check_days : CriticalDecisionType → ℕ → ProposedOccupancy → ℕ → Db → Result (Unit {0})
  check_days reject_critical user_id proposed tour db = ok tt
  check_days confirm_critical user_id proposed tour db =
      proposed_days user_id proposed tour db >>= λ _. ok tt

  -- UPDATE of the row on a rejection.
  unfoldable pub reject_pending : CriticalDecisionWrite → Assignment → Db → Result (ℕ × Db)
  reject_pending w locked db = do
    let changed = record db {
      assignments = modify assignment_key w.assignment_id (clear_pending w) db.assignments;
    }
    updated ←
        or_raise (assignment_of w.identity w.assignment_id changed) (not_actionable Detail.plain)
    raise_if (not (only_cleared locked updated)) (not_actionable Detail.plain)
    ok (locked.active_version_number, changed)

  abbrev pub critical_labels : Assignment → Fields → Labels
  critical_labels locked working_package = record {
    title = (projection_labels locked.company_name working_package).0;
    city = (projection_labels locked.company_name working_package).1;
    day_locations_json = day_locations_json_from_package env working_package;
  }

  -- UPDATE of the entry and of the row on a confirmation.
  unfoldable pub activate_pending :
      CriticalDecisionWrite → Assignment → ℕ → Fields → String → ℕ × ℕ → Db → Result (ℕ × Db)
  activate_pending w locked tour working_package role (start_date, end_date) db = do
    moved ←
        update_projection occupancy tour
          (reschedule (critical_labels locked working_package) start_date end_date) db
    projection ← or_raise (find tour_key tour moved.tours) (validation_error Detail.plain)
    raise_if (not (is_projection_of w.assignment_id start_date end_date projection))
        (validation_error Detail.plain)
    let changed = record moved {
      assignments =
          modify assignment_key w.assignment_id
            (activate_critical w role start_date end_date locked.active_version_number)
            moved.assignments;
    }
    updated ←
        or_raise (assignment_of w.identity w.assignment_id changed) (not_actionable Detail.plain)
    raise_if (not (is_activated w role start_date end_date locked updated))
        (not_actionable Detail.plain)
    ok (w.version_number, changed)

  -- The reads and writes, once the locked row has the version pending.
  unfoldable pub write_critical_decision :
      CriticalDecisionWrite → Assignment → Operation AssignmentCriticalVersionDecisionResult
  write_critical_decision w locked db = do
    (working_package, proposed) ← pending_package w.identity w.assignment_id w.version_number db
    tour ← or_raise locked.projection_tour_id (validation_error Detail.plain)
    (active, changed) ← elim w.decision [
      | reject_critical ↦ do
        decided ← insert_critical_decision (critical_decision_row w) db
        reject_pending w locked decided
      | confirm_critical ↦ do
        days ← proposed_days w.user_id proposed tour db
        decided ← insert_critical_decision (critical_decision_row w) db
        activate_pending w locked tour working_package proposed.role days decided
    ]
    sent ←
        insert_outbox w.decision_event_id "assignment.critical_version.decided.v1"
          "guide_assignment" w.assignment_id w.identity (env.dumps (decided_payload w tour active))
          w.decided_at changed
    ok (decided_answer w tour active accepted, sent)

  unfoldable pub critical_decision_operation :
      CriticalDecisionWrite → Operation AssignmentCriticalVersionDecisionResult
  critical_decision_operation w db = do
    locked ← get_assignment_for_guide w.identity w.assignment_id db
    raise_if (not (is_accepted locked.status)) (not_actionable Detail.plain)
    elim (find critical_event_key w.decision_event_id db.critical_decisions) [
      | some existing ↦ do
        check_replay w.identity w.assignment_id w.version_number w.decision existing
        ok (
          replayed_decision w.identity w.assignment_id w.version_number w.decision
              w.decision_event_id locked,
          db,
        )
      | none ↦
          elim (find_critical_decision w.assignment_id w.version_number db.critical_decisions) [
            | some prior ↦
                if same_critical prior.decision_type w.decision
                then ok (
                  replayed_decision w.identity w.assignment_id w.version_number w.decision
                      prior.decision_event_id locked,
                  db,
                )
                else err idempotency_conflict
            | none ↦ do
              raise_if
                  (not (same_tour locked.pending_critical_version_number (some w.version_number)))
                  idempotency_conflict
              write_critical_decision w locked db
          ]
    ]

  -- The reads before the transaction, on normalised identifiers.
  unfoldable pub critical_decision_plan :
      (identity assignment_id : String)
      → ℕ
      → CriticalDecisionType
      → String
      → String
      → Db
      → Result (Plan CriticalDecisionWrite AssignmentCriticalVersionDecisionResult)
  critical_decision_plan identity assignment_id version_number decision event decided_at db =
      elim (find critical_event_key event db.critical_decisions) [
        | some existing ↦ do
          check_replay identity assignment_id version_number decision existing
          a ← get_assignment_for_guide identity assignment_id db
          ok (answer (replayed_decision identity assignment_id version_number decision event a))
        | none ↦ elim (find_critical_decision assignment_id version_number db.critical_decisions) [
          | some prior ↦ do
            raise_if (not (prior.guide_os_id == identity)) not_found
            raise_if (not (same_critical prior.decision_type decision)) idempotency_conflict
            a ← get_assignment_for_guide identity assignment_id db
            ok (
                answer (
                  replayed_decision identity assignment_id version_number decision
                    prior.decision_event_id a))
          | none ↦ do
            a ← get_assignment_for_guide identity assignment_id db
            raise_if (not (is_accepted a.status)) (not_actionable Detail.plain)
            raise_if (not (same_tour a.pending_critical_version_number (some version_number)))
                idempotency_conflict
            (working_package, proposed) ← pending_package identity assignment_id version_number db
            user ←
                or_raise (find guide_key identity db.users)
                  (validation_error Detail.integration_unavailable)
            tour ← or_raise a.projection_tour_id (validation_error Detail.plain)
            check_days decision user.user_id proposed tour db
            ok (
                write (record {
                  assignment_id = assignment_id;
                  identity = identity;
                  version_number = version_number;
                  decision = decision;
                  decision_event_id = event;
                  decided_at = decided_at;
                  user_id = user.user_id;
                }))
        ]
      ]

  unfoldable pub critical_decision_request :
      (guide_os_id assignment_id : String)
      → ℕ
      → String
      → String
      → Option String
      → Db
      → Result (Plan CriticalDecisionWrite AssignmentCriticalVersionDecisionResult)
  critical_decision_request guide_os_id assignment_id version_number decision decision_event_id
        decided_at before =
      do
        identity ← validate_guide_os_id guide_os_id
        assignment ← require_nonempty assignment_id
        event ← require_nonempty decision_event_id
        number ← require_int version_number 2
        decided ← critical_decision_of decision
        stamp ← decided_at_value decided_at
        critical_decision_plan identity assignment number decided event stamp before

  unfoldable pub decide_critical_assignment_version :
      (guide_os_id assignment_id : String)
      → ℕ
      → String
      → String
      → Option String
      → Db
      → Db
      → Result AssignmentCriticalVersionDecisionResult × Db
  decide_critical_assignment_version guide_os_id assignment_id version_number decision
        decision_event_id decided_at before db =
      submit env.busy
        (critical_decision_request guide_os_id assignment_id version_number decision
          decision_event_id decided_at before)
        critical_decision_operation db
