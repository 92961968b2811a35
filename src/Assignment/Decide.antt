-- ===== src/Assignment/Decide.antt =====
-- `_decide_assignment`, behind `accept_assignment` and `decline_assignment`.
mod Rows
unfoldable pub use Rows.*
use Prim.Native.String.{◌++◌}
use guide_os.Prelude.{
  ℕ, suc, ◌+◌, Bool, true, false, String, ◌==◌, text_eq, number_eq, not, ◌&&◌, Option, none, some,
  List, [], ◌∷◌, eqb, if◌then◌else◌,
}
use guide_os.Json.{Json, Fields, text, number, object, optional_number, dict}
use guide_os.Errors.{
  Result, ok, err, ◌>>=◌, ◌>>◌, raise_if, or_raise, not_found, not_actionable, validation_error,
  calendar_conflict, value_error, Detail, idempotency_conflict, integrity_error,
}
use guide_os.Platform.{Platform}
use guide_os.Identity.{validate_guide_os_id}
use guide_os.Validation.{require_nonempty}
use guide_os.Database.{
  Db, Assignment, AssignmentStatus, accepted, declined, AssignmentDecision, AssignmentDecisionType,
  accept, decline, Tour, Source, guide_operator, find, modify,
}
use guide_os.Database.Write.{Operation, Plan, answer, write, submit}
use guide_os.Calendar.{calendar_conflicts}
use guide_os.Outbox.{insert_outbox}
use guide_os.Connection.Invite.{guide_key}
use guide_os.Assignment.Package.{projection_labels, day_locations_json_from_package}
use guide_os.Assignment.Store.{
  assignment_key, decided_assignment_key, decision_event_key, is_offered, assignment_of,
  get_assignment_for_guide, find_version, insert_decision, holds_tour, held_elsewhere,
}

module _ (env : Platform) where
  -- `decided_at or _utc_now()`: an empty text counts as none.
  abbrev pub or_now : Option String → String
  or_now none = env.utc_now
  or_now (some s) = if s == "" then env.utc_now else s

  -- The calendar entry of an accepted assignment.
  abbrev pub projection : AssignmentDecisionWrite → Assignment → ℕ → Tour
  projection w locked id = record {
    id = id;
    user_id = w.user_id;
    company = locked.company_name;
    city = w.city;
    start_date = locked.start_date;
    end_date = locked.end_date;
    status = "confirmed";
    income = none;
    payment_status = "unpaid";
    note = some (projection_note w.assignment_id);
    entry_type = "tour";
    tour_group_id = some w.assignment_id;
    title = some w.title;
    start_time = none;
    end_time = none;
    source = guide_operator;
    day_locations_json = day_locations_json_from_package env w.working_package;
  }

  -- The part of the transaction that only an acceptance runs.
  unfoldable pub insert_projection :
      AssignmentDecisionWrite → Assignment → Db → Result (Option ℕ × Db)
  insert_projection w locked db = do
    raise_if
        (has_conflicts
          (calendar_conflicts w.user_id locked.start_date locked.end_date none db.tours))
        (calendar_conflict
          (calendar_conflicts w.user_id locked.start_date locked.end_date none db.tours))
    let with_tour = record db {
      tours = projection w locked (db.tour_sequence + 1) ∷ db.tours;
      tour_sequence = db.tour_sequence + 1;
    }
    raise_if (not (eqb (count_projections (projection_note w.assignment_id) with_tour.tours) 1))
        (validation_error Detail.plain)
    ok (some (db.tour_sequence + 1), with_tour)

  -- The writes that both decisions make.
  unfoldable pub record_decision :
      AssignmentDecisionWrite → Option ℕ → Operation AssignmentDecisionResult
  record_decision w tour db = do
    with_decision ← insert_decision (decision_row w) db
    raise_if (tour_held w tour with_decision) integrity_error
    let changed = record with_decision {
      assignments =
          modify assignment_key w.assignment_id (apply_decision w tour) with_decision.assignments;
    }
    updated ←
        or_raise (assignment_of w.identity w.assignment_id changed) (not_actionable Detail.plain)
    raise_if (not (has_decided updated.status w.decision)) (not_actionable Detail.plain)
    raise_if (is_accept w.decision && not (same_tour updated.projection_tour_id tour))
        (validation_error Detail.plain)
    sent ←
        insert_outbox w.decision_event_id "assignment.decision.v1" "guide_assignment"
          w.assignment_id w.identity (env.dumps (decision_payload w tour)) w.decided_at changed
    ok (
      decision_answer w.assignment_id w.identity (decided_status w.decision) w.decision
          w.decision_event_id tour false,
      sent,
    )

  unfoldable pub decision_operation : AssignmentDecisionWrite → Operation AssignmentDecisionResult
  decision_operation w db = do
    locked ← get_assignment_for_guide w.identity w.assignment_id db
    if not (is_offered locked.status)
        then elim (find decided_assignment_key w.assignment_id db.decisions) [
          | some prior ↦
              if same_decision prior.decision_type w.decision
              then ok (
                decision_answer w.assignment_id w.identity locked.status w.decision
                    prior.decision_event_id locked.projection_tour_id true,
                db,
              )
              else err (not_actionable Detail.plain)
          | none ↦ err (not_actionable Detail.plain)
        ]
        else elim (find decision_event_key w.decision_event_id db.decisions) [
          | some event ↦
              if not (event.assignment_id == w.assignment_id)
              then err idempotency_conflict
              else ok (
                decision_answer w.assignment_id w.identity locked.status event.decision_type
                    w.decision_event_id locked.projection_tour_id true,
                db,
              )
          | none ↦
              if is_accept w.decision
              then (do
                projected ← insert_projection w locked db
                record_decision w projected.0 projected.1)
              else record_decision w none db
        ]

  -- The reads before the transaction, on normalised identifiers.
  unfoldable pub decision_plan :
      (identity assignment_id : String)
      → AssignmentDecisionType
      → String
      → Option String
      → Db
      → Result (Plan AssignmentDecisionWrite AssignmentDecisionResult)
  unfolding as_object
  decision_plan identity assignment_id decision decision_event_id decided_at db =
      elim (find decided_assignment_key assignment_id db.decisions) [
        | some existing ↦ do
          raise_if (not (existing.guide_os_id == identity)) not_found
          if not (existing.decision_event_id == decision_event_id)
              then (if same_decision existing.decision_type decision
                  then (do
                    a ← get_assignment_for_guide identity assignment_id db
                    ok (
                        answer (
                          decision_answer assignment_id identity a.status existing.decision_type
                            existing.decision_event_id a.projection_tour_id true)))
                  else err idempotency_conflict)
              else (do
                raise_if (not (same_decision existing.decision_type decision)) idempotency_conflict
                a ← get_assignment_for_guide identity assignment_id db
                ok (
                    answer (
                      decision_answer assignment_id identity a.status decision decision_event_id
                        a.projection_tour_id true)))
        | none ↦ do
          a ← get_assignment_for_guide identity assignment_id db
          raise_if (not (is_offered a.status)) (not_actionable Detail.plain)
          user ←
              or_raise (find guide_key identity db.users)
                (validation_error Detail.integration_unavailable)
          version ←
              or_raise (find_version assignment_id 1 db.versions) (validation_error Detail.plain)
          raise_if
              (is_accept decision
                && has_conflicts
                    (calendar_conflicts user.user_id a.start_date a.end_date none db.tours))
              (calendar_conflict
                (calendar_conflicts user.user_id a.start_date a.end_date none db.tours))
          loaded ← or_raise (env.loads version.working_package_json) value_error
          working_package ← as_object loaded
          let labels = projection_labels a.company_name working_package
          ok (
              write (record {
                assignment_id = assignment_id;
                identity = identity;
                decision = decision;
                decision_event_id = decision_event_id;
                decided_at = or_now decided_at;
                user_id = user.user_id;
                working_package = working_package;
                title = labels.0;
                city = labels.1;
              }))
      ]

  unfoldable pub decide_assignment :
      (guide_os_id assignment_id : String)
      → AssignmentDecisionType
      → String
      → Option String
      → Db
      → Db
      → Result AssignmentDecisionResult × Db
  decide_assignment guide_os_id assignment_id decision decision_event_id decided_at before db =
      let plan : Result (Plan AssignmentDecisionWrite AssignmentDecisionResult) = (do
        identity ← validate_guide_os_id guide_os_id
        assignment ← require_nonempty assignment_id
        event ← require_nonempty decision_event_id
        decision_plan identity assignment decision event decided_at before) in
      submit env.busy plan decision_operation db
