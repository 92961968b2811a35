-- ===== src/Version/Acknowledge.antt =====
-- `acknowledge_ordinary_version`: the guide has read the active ordinary version.
use guide_os.Prelude.{
  ℕ, Bool, true, false, String, ◌==◌, text_eq, number_eq, not, ◌&&◌, Option, none, some, [], ◌∷◌,
  if◌then◌else◌,
}
use guide_os.Json.{Json, text, number, dict}
use guide_os.Errors.{
  Result, ok, ◌>>=◌, ◌>>◌, raise_if, or_raise, not_found, not_actionable, Detail,
  idempotency_conflict,
}
use guide_os.Platform.{Platform}
use guide_os.Identity.{validate_guide_os_id}
use guide_os.Validation.{require_nonempty}
use guide_os.Database.{Db, Assignment, Severity, ordinary, VersionAcknowledgement, find, modify}
use guide_os.Database.Write.{Operation, Plan, answer, write, submit}
use guide_os.Outbox.{insert_outbox}
use guide_os.Assignment.Store.{
  assignment_key, is_accepted, assignment_of, get_assignment_for_guide, find_version,
}
use guide_os.Assignment.Decide.{or_now}
use guide_os.Version.Intake.{require_int}
use guide_os.Version.Store.{acknowledgement_key, find_acknowledgement, insert_acknowledgement}

pub record AssignmentVersionAcknowledgeResult : Type 0 where
  pub assignment_id : String
  pub guide_os_id : String
  pub version_number : ℕ
  pub decision_event_id : String
  pub unread : Bool
  pub replayed : Bool

-- What the checks hand to the transaction.
pub record AcknowledgeWrite : Type 0 where
  pub assignment_id : String
  pub identity : String
  pub version_number : ℕ
  pub decision_event_id : String
  pub acknowledged_at : String

abbrev pub acknowledge_answer :
    (identity assignment_id : String) → ℕ → String → Bool → AssignmentVersionAcknowledgeResult
acknowledge_answer identity assignment_id version_number event replayed = record {
  assignment_id = assignment_id;
  guide_os_id = identity;
  version_number = version_number;
  decision_event_id = event;
  unread = false;
  replayed = replayed;
}

-- The checks on a row that the event id has already written.
abbrev pub same_acknowledgement :
    (identity assignment_id : String) → ℕ → VersionAcknowledgement → Result (Unit {0})
same_acknowledgement identity assignment_id version_number existing = do
  raise_if (not (existing.guide_os_id == identity)) not_found
  raise_if (not (existing.assignment_id == assignment_id)) idempotency_conflict
  raise_if (not (existing.version_number == version_number)) idempotency_conflict

abbrev is_ordinary : Severity → Bool
is_ordinary ordinary = true
is_ordinary _ = false

-- The checks on the row and on its version. The transaction makes that on the version after that
-- on the unread mark, the reads before it the other way round.
abbrev pub check_active : ℕ → Assignment → Result (Unit {0})
check_active version_number a = do
  raise_if (not (is_accepted a.status)) (not_actionable Detail.plain)
  raise_if (not (a.active_version_number == version_number)) idempotency_conflict

abbrev pub check_unread : Assignment → Result (Unit {0})
check_unread a = raise_if (not a.active_version_unread) (not_actionable Detail.plain)

abbrev pub check_ordinary : String → ℕ → Db → Result (Unit {0})
check_ordinary assignment_id version_number db = do
  version ← or_raise (find_version assignment_id version_number db.versions) not_found
  raise_if (not (is_ordinary version.severity)) (not_actionable Detail.plain)

abbrev pub acknowledgement_row : AcknowledgeWrite → String → VersionAcknowledgement
acknowledgement_row w received_at = record {
  decision_event_id = w.decision_event_id;
  assignment_id = w.assignment_id;
  guide_os_id = w.identity;
  version_number = w.version_number;
  acknowledged_at = w.acknowledged_at;
  created_at = received_at;
}

-- UPDATE … WHERE guide_os_id = ? AND status = 'accepted' AND active_version_number = ?
-- AND active_version_unread = 1
abbrev pub mark_read : AcknowledgeWrite → String → Assignment → Assignment
mark_read w received_at a =
    if (a.guide_os_id == w.identity)
      && is_accepted a.status
      && (a.active_version_number == w.version_number)
      && a.active_version_unread
    then record a { active_version_unread = false; updated_at = received_at }
    else a

abbrev pub acknowledged_payload : AcknowledgeWrite → Json
acknowledged_payload w = dict (
    ("assignment_id", text w.assignment_id)
    ∷ ("guide_os_id", text w.identity)
    ∷ ("version_number", number w.version_number)
    ∷ ("acknowledged_at", text w.acknowledged_at)
    ∷ ("decision_event_id", text w.decision_event_id)
    ∷ [])

module _ (env : Platform) where
  -- The writes, once the locked row has passed the checks.
  unfoldable pub write_acknowledgement :
      AcknowledgeWrite → Operation AssignmentVersionAcknowledgeResult
  write_acknowledgement w db = do
    recorded ← insert_acknowledgement (acknowledgement_row w env.utc_now) db
    let changed = record recorded {
      assignments =
          modify assignment_key w.assignment_id (mark_read w env.utc_now) recorded.assignments;
    }
    updated ←
        or_raise (assignment_of w.identity w.assignment_id changed) (not_actionable Detail.plain)
    raise_if updated.active_version_unread (not_actionable Detail.plain)
    sent ←
        insert_outbox w.decision_event_id "assignment.version.acknowledged.v1" "guide_assignment"
          w.assignment_id w.identity (env.dumps (acknowledged_payload w)) env.utc_now changed
    ok (
      acknowledge_answer w.identity w.assignment_id w.version_number w.decision_event_id false,
      sent,
    )

  unfoldable pub acknowledge_operation :
      AcknowledgeWrite → Operation AssignmentVersionAcknowledgeResult
  acknowledge_operation w db =
      elim (find acknowledgement_key w.decision_event_id db.version_acknowledgements) [
        | some existing ↦ do
          same_acknowledgement w.identity w.assignment_id w.version_number existing
          ok (
            acknowledge_answer w.identity w.assignment_id w.version_number w.decision_event_id true,
            db,
          )
        | none ↦
            elim (find_acknowledgement w.assignment_id w.version_number
              db.version_acknowledgements) [
                | some prior ↦ do
                  raise_if (not (prior.guide_os_id == w.identity)) not_found
                  ok (
                    acknowledge_answer w.identity w.assignment_id w.version_number
                        prior.decision_event_id true,
                    db,
                  )
                | none ↦ do
                  locked ← get_assignment_for_guide w.identity w.assignment_id db
                  check_active w.version_number locked
                  check_unread locked
                  check_ordinary w.assignment_id w.version_number db
                  write_acknowledgement w db
              ]
      ]

  -- The reads before the transaction, on normalised identifiers.
  unfoldable pub acknowledge_plan :
      (identity assignment_id : String)
      → ℕ
      → String
      → Option String
      → Db
      → Result (Plan AcknowledgeWrite AssignmentVersionAcknowledgeResult)
  acknowledge_plan identity assignment_id version_number event acknowledged_at db =
      elim (find acknowledgement_key event db.version_acknowledgements) [
        | some existing ↦ do
          same_acknowledgement identity assignment_id version_number existing
          ok (answer (acknowledge_answer identity assignment_id version_number event true))
        | none ↦
            elim (find_acknowledgement assignment_id version_number db.version_acknowledgements) [
              | some prior ↦ do
                raise_if (not (prior.guide_os_id == identity)) not_found
                ok (
                    answer (
                      acknowledge_answer identity assignment_id version_number
                        prior.decision_event_id true))
              | none ↦ do
                a ← get_assignment_for_guide identity assignment_id db
                check_active version_number a
                check_ordinary assignment_id version_number db
                check_unread a
                ok (
                    write (record {
                      assignment_id = assignment_id;
                      identity = identity;
                      version_number = version_number;
                      decision_event_id = event;
                      acknowledged_at = or_now env acknowledged_at;
                    }))
            ]
      ]

  unfoldable pub acknowledge_ordinary_version :
      (guide_os_id assignment_id : String)
      → ℕ
      → String
      → Option String
      → Db
      → Db
      → Result AssignmentVersionAcknowledgeResult × Db
  acknowledge_ordinary_version guide_os_id assignment_id version_number decision_event_id
        acknowledged_at before db =
      let plan : Result (Plan AcknowledgeWrite AssignmentVersionAcknowledgeResult) = (do
        identity ← validate_guide_os_id guide_os_id
        assignment ← require_nonempty assignment_id
        event ← require_nonempty decision_event_id
        numbered ← require_int version_number 1
        acknowledge_plan identity assignment numbered event acknowledged_at before) in
      submit env.busy plan acknowledge_operation db
