-- ===== src/Assignment/Decide/Rows.antt =====
-- `_decide_assignment`: what it answers, writes into rows and puts on the outbox.
use Prim.Native.String.{◌++◌}
use guide_os.Prelude.{
  ℕ, suc, Bool, true, false, String, ◌==◌, text_eq, number_eq, ◌&&◌, Option, none, some, List, [],
  ◌∷◌, if◌then◌else◌,
}
use guide_os.Json.{Json, Fields, text, number, object, optional_number, dict}
use guide_os.Errors.{Result, ok, err, value_error}
use guide_os.Database.{
  Db, Assignment, AssignmentStatus, accepted, declined, AssignmentDecision, AssignmentDecisionType,
  accept, decline, Tour, Source, guide_operator,
}
use guide_os.Assignment.Store.{is_offered, holds_tour, held_elsewhere}

pub record AssignmentDecisionResult : Type 0 where
  pub assignment_id : String
  pub guide_os_id : String
  pub status : AssignmentStatus
  pub decision : AssignmentDecisionType
  pub decision_event_id : String
  pub projection_tour_id : Option ℕ
  pub replayed : Bool

-- What the checks hand to the transaction.
pub record AssignmentDecisionWrite : Type 0 where
  pub assignment_id : String
  pub identity : String
  pub decision : AssignmentDecisionType
  pub decision_event_id : String
  pub decided_at : String
  pub user_id : ℕ
  pub working_package : Fields
  pub title : String
  pub city : String

abbrev pub same_decision : AssignmentDecisionType → AssignmentDecisionType → Bool
same_decision accept accept = true
same_decision decline decline = true
same_decision _ _ = false

abbrev pub is_accept : AssignmentDecisionType → Bool
is_accept accept = true
is_accept decline = false

-- `"accepted" if decision == "accept" else "declined"`
abbrev pub decided_status : AssignmentDecisionType → AssignmentStatus
decided_status accept = accepted
decided_status decline = declined

-- `updated["status"] == status`, for one of the two decided states
abbrev pub has_decided : AssignmentStatus → AssignmentDecisionType → Bool
has_decided accepted accept = true
has_decided declined decline = true
has_decided _ _ = false

abbrev pub decision_word : AssignmentDecisionType → String
decision_word accept = "accept"
decision_word decline = "decline"

abbrev pub projection_note : String → String
projection_note assignment_id = "go_assignment:" ++ assignment_id

abbrev pub is_guide_operator : Source → Bool
is_guide_operator guide_operator = true
is_guide_operator _ = false

abbrev pub has_note : Option String → String → Bool
has_note none note = false
has_note (some n) note = n == note

-- SELECT COUNT(*) FROM tours WHERE source = 'guide_operator' AND note = ?
unfoldable pub count_projections : String → List Tour → ℕ
count_projections note [] = 0
count_projections note (t ∷ tours) =
    let rest = count_projections note tours in
    if is_guide_operator t.source && has_note t.note note then suc rest else rest

-- `updated["projection_tour_id"] == projection_tour_id`
abbrev pub same_tour : Option ℕ → Option ℕ → Bool
same_tour none none = true
same_tour (some a) (some b) = a == b
same_tour _ _ = false

-- UPDATE … WHERE guide_os_id = ? AND status = 'offered'
abbrev pub apply_decision : AssignmentDecisionWrite → Option ℕ → Assignment → Assignment
apply_decision w projection_tour_id a =
    if (a.guide_os_id == w.identity) && is_offered a.status
    then record a {
      status = decided_status w.decision;
      projection_tour_id = projection_tour_id;
      decided_at = some w.decided_at;
      updated_at = w.decided_at;
    }
    else a

abbrev pub decision_payload : AssignmentDecisionWrite → Option ℕ → Json
decision_payload w projection_tour_id = dict (
    ("assignment_id", text w.assignment_id)
    ∷ ("guide_os_id", text w.identity)
    ∷ ("decision", text (decision_word w.decision))
    ∷ ("version_number", number 1)
    ∷ ("decided_at", text w.decided_at)
    ∷ ("projection_tour_id", optional_number projection_tour_id)
    ∷ [])

abbrev pub decision_row : AssignmentDecisionWrite → AssignmentDecision
decision_row w = record {
  decision_event_id = w.decision_event_id;
  assignment_id = w.assignment_id;
  guide_os_id = w.identity;
  decision_type = w.decision;
  version_number = 1;
  decided_at = w.decided_at;
  created_at = w.decided_at;
}

abbrev pub decision_answer :
    String
    → String
    → AssignmentStatus
    → AssignmentDecisionType
    → String
    → Option ℕ
    → Bool
    → AssignmentDecisionResult
decision_answer assignment_id identity status decision decision_event_id tour replayed = record {
  assignment_id = assignment_id;
  guide_os_id = identity;
  status = status;
  decision = decision;
  decision_event_id = decision_event_id;
  projection_tour_id = tour;
  replayed = replayed;
}

-- `if conflicts:`
abbrev pub has_conflicts : List ℕ → Bool
has_conflicts [] = false
has_conflicts (d ∷ dates) = true

-- UNIQUE(projection_tour_id), for the value that the update writes
abbrev pub tour_held : AssignmentDecisionWrite → Option ℕ → Db → Bool
tour_held w none db = false
tour_held w (some t) db = held_elsewhere (holds_tour t) w.assignment_id db.assignments

-- `working_package` must be an object to have a `get`.
unfoldable pub as_object : Json → Result Fields
as_object (object fields) = ok fields
as_object _ = err value_error
