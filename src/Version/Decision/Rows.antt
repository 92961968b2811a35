-- ===== src/Version/Decision/Rows.antt =====
-- `decide_critical_assignment_version`: what it answers and what it writes into rows.
use guide_os.Prelude.{
  ℕ, Bool, true, false, String, ◌==◌, text_eq, number_eq, not, ◌&&◌, Option, none, some, [], ◌∷◌,
  is_some, if◌then◌else◌,
}
use guide_os.Prelude.Text.{strip}
use guide_os.Json.{Json, Fields, text, number, dict, get}
use guide_os.Errors.{
  Result, ok, err, ◌>>=◌, ◌>>◌, raise_if, not_found, validation_error, Detail, idempotency_conflict,
  value_error, or_raise,
}
use guide_os.Platform.{Platform}
use guide_os.Database.{
  Assignment, AssignmentStatus, CriticalDecisionType, confirm_critical, reject_critical,
  CriticalVersionDecision, Tour,
}
use guide_os.Assignment.Store.{is_accepted}
use guide_os.Assignment.Decide.{same_tour, is_guide_operator, has_note, projection_note}
use guide_os.Version.Snapshot.{as_mapping, text_or_empty, validate_working_package_snapshot}

pub record AssignmentCriticalVersionDecisionResult : Type 0 where
  pub assignment_id : String
  pub guide_os_id : String
  pub status : AssignmentStatus
  pub decision : CriticalDecisionType
  pub version_number : ℕ
  pub decision_event_id : String
  pub pending_critical_version_number : Option ℕ
  pub active_version_number : ℕ
  pub projection_tour_id : Option ℕ
  pub replayed : Bool

-- What the checks hand to the transaction.
pub record CriticalDecisionWrite : Type 0 where
  pub assignment_id : String
  pub identity : String
  pub version_number : ℕ
  pub decision : CriticalDecisionType
  pub decision_event_id : String
  pub decided_at : String
  pub user_id : ℕ

-- `decision not in {"confirm_critical", "reject_critical"}`
abbrev pub critical_decision_of : String → Result CriticalDecisionType
critical_decision_of decision =
    if decision == "confirm_critical"
    then ok confirm_critical
    else if decision == "reject_critical"
    then ok reject_critical
    else err (validation_error Detail.plain)

abbrev pub critical_word : CriticalDecisionType → String
critical_word confirm_critical = "confirm_critical"
critical_word reject_critical = "reject_critical"

abbrev pub same_critical : CriticalDecisionType → CriticalDecisionType → Bool
same_critical confirm_critical confirm_critical = true
same_critical reject_critical reject_critical = true
same_critical _ _ = false

-- The answer to a repeated decision, from the row as it is now.
abbrev pub replayed_decision :
    (identity assignment_id : String) (version_number : ℕ) (decision : CriticalDecisionType)
    (decision_event_id : String)
    → Assignment
    → AssignmentCriticalVersionDecisionResult
replayed_decision identity assignment_id version_number decision decision_event_id a = record {
  assignment_id = assignment_id;
  guide_os_id = identity;
  status = a.status;
  decision = decision;
  version_number = version_number;
  decision_event_id = decision_event_id;
  pending_critical_version_number = a.pending_critical_version_number;
  active_version_number = a.active_version_number;
  projection_tour_id = a.projection_tour_id;
  replayed = true;
}

-- The checks of `_replay_critical_version_decision`.
abbrev pub check_replay :
    (identity assignment_id : String)
    → ℕ
    → CriticalDecisionType
    → CriticalVersionDecision
    → Result (Unit {0})
check_replay identity assignment_id version_number decision existing = do
  raise_if (not (existing.guide_os_id == identity)) not_found
  raise_if (not (existing.assignment_id == assignment_id)) idempotency_conflict
  raise_if (not (existing.version_number == version_number)) idempotency_conflict
  raise_if (not (same_critical existing.decision_type decision)) idempotency_conflict

-- What a pending package asks for: its dates stay the texts that the operator sent.
pub record ProposedOccupancy : Type 0 where
  pub role : String
  pub start_date : String
  pub end_date : String

module _ (env : Platform) where
  -- `_critical_proposed_occupancy`
  unfoldable pub critical_proposed_occupancy : Fields → String → String → Result ProposedOccupancy
  critical_proposed_occupancy working_package assignment_id guide_os_id = do
    validated ← validate_working_package_snapshot env working_package assignment_id guide_os_id
    let assignment = as_mapping (get "assignment" validated)
    ok (record {
      role = strip (text_or_empty (get "role" assignment));
      start_date = text_or_empty (get "start_date" assignment);
      end_date = text_or_empty (get "end_date" assignment);
    })

  -- `datetime.strptime` in `days_in_range`: the validated text may still have whitespace around
  -- it, on which `strptime` raises ValueError.
  abbrev pub proposed_day : String → Result ℕ
  proposed_day date = or_raise (env.parse_date date) value_error

abbrev pub critical_decision_row : CriticalDecisionWrite → CriticalVersionDecision
critical_decision_row w = record {
  decision_event_id = w.decision_event_id;
  assignment_id = w.assignment_id;
  guide_os_id = w.identity;
  version_number = w.version_number;
  decision_type = w.decision;
  decided_at = w.decided_at;
  created_at = w.decided_at;
}

-- WHERE guide_os_id = ? AND status = 'accepted' AND pending_critical_version_number = ?
abbrev pub awaits : CriticalDecisionWrite → Assignment → Bool
awaits w a =
    (a.guide_os_id == w.identity)
    && is_accepted a.status
    && same_tour a.pending_critical_version_number (some w.version_number)

abbrev pub clear_pending : CriticalDecisionWrite → Assignment → Assignment
clear_pending w a =
    if awaits w a
    then record a { pending_critical_version_number = none; updated_at = w.decided_at }
    else a

-- … AND active_version_number = ?
abbrev pub activate_critical : CriticalDecisionWrite → String → ℕ → ℕ → ℕ → Assignment → Assignment
activate_critical w role start_date end_date active_before a =
    if awaits w a && (a.active_version_number == active_before)
    then record a {
      active_version_number = w.version_number;
      role = role;
      start_date = start_date;
      end_date = end_date;
      pending_critical_version_number = none;
      active_version_unread = false;
      updated_at = w.decided_at;
    }
    else a

-- The row after a rejection is the locked one without its pending version.
abbrev pub only_cleared : Assignment → Assignment → Bool
only_cleared locked updated =
    is_accepted updated.status
    && (updated.active_version_number == locked.active_version_number)
    && not (is_some updated.pending_critical_version_number)
    && same_tour updated.projection_tour_id locked.projection_tour_id
    && (updated.start_date == locked.start_date)
    && (updated.end_date == locked.end_date)
    && (updated.role == locked.role)

abbrev pub is_activated : CriticalDecisionWrite → String → ℕ → ℕ → Assignment → Assignment → Bool
is_activated w role start_date end_date locked updated =
    is_accepted updated.status
    && (updated.active_version_number == w.version_number)
    && not (is_some updated.pending_critical_version_number)
    && same_tour updated.projection_tour_id locked.projection_tour_id
    && (updated.start_date == start_date)
    && (updated.end_date == end_date)
    && (updated.role == role)
    && not updated.active_version_unread

abbrev in_group : String → Option String → Bool
in_group id none = false
in_group id (some group) = group == id

-- The entry after a confirmation is still the projection of the assignment.
abbrev pub is_projection_of : String → ℕ → ℕ → Tour → Bool
is_projection_of assignment_id start_date end_date t =
    (t.start_date == start_date)
    && (t.end_date == end_date)
    && is_guide_operator t.source
    && has_note t.note (projection_note assignment_id)
    && in_group assignment_id t.tour_group_id
    && not (is_some t.income)

abbrev pub decided_payload : CriticalDecisionWrite → ℕ → ℕ → Json
decided_payload w tour active = dict (
    ("assignment_id", text w.assignment_id)
    ∷ ("guide_os_id", text w.identity)
    ∷ ("decision", text (critical_word w.decision))
    ∷ ("version_number", number w.version_number)
    ∷ ("decided_at", text w.decided_at)
    ∷ ("projection_tour_id", number tour)
    ∷ ("active_version_number", number active)
    ∷ [])

abbrev pub decided_answer :
    CriticalDecisionWrite → ℕ → ℕ → AssignmentStatus → AssignmentCriticalVersionDecisionResult
decided_answer w tour active status = record {
  assignment_id = w.assignment_id;
  guide_os_id = w.identity;
  status = status;
  decision = w.decision;
  version_number = w.version_number;
  decision_event_id = w.decision_event_id;
  pending_critical_version_number = none;
  active_version_number = active;
  projection_tour_id = some tour;
  replayed = false;
}
