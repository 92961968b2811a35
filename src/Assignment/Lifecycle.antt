-- ===== src/Assignment/Lifecycle.antt =====
-- The life of an assignment under every call of the service: the states that it may pass through,
-- and what it keeps.
use mathlib.Core.Option
use guide_os.Prelude.{
  ℕ, String, eq_iff, ◌==◌, text_eq, ◌≡◌, refl, ◌∙◌, inl, inr, Option, none, some, List, ◌∷◌, arith,
  Bool-cases, or_else, ◌+◌,
}
use guide_os.Platform.{Platform}
use guide_os.Database.{
  Db, Assignment, AssignmentStatus, AssignmentDecisionType, offered, accepted, declined, cancelled,
  withdrawn, expired, find, modify, find-cons, find-modify,
}
use guide_os.Database.Write.{submit_rule}
use guide_os.Assignment.Intake.{
  AssignmentOfferIntake, AssignmentCancellationIntake, AssignmentLifecycleIntake,
  NormalizedTransition,
}
use guide_os.Assignment.Store.{assignment_key}
use guide_os.Assignment.Offer.{offered_row, offer_write, receive_assignment_offer}
use guide_os.Assignment.Decide.{
  AssignmentDecisionWrite, AssignmentDecisionResult, apply_decision, decision_operation,
  decide_assignment,
}
use guide_os.Assignment.Cancel.{cancel_row, cancellation_write, apply_assignment_cancellation}
use guide_os.Assignment.Transition.{
  close_offer, transition_write, apply_assignment_lifecycle_transition,
}
use guide_os.Assignment.Effects.{
  Outcome, offer_effect, decision_effect, cancellation_effect, transition_effect,
}

-- The states that may follow a state, at once or later: an offer may go anywhere, an accepted
-- assignment may be cancelled, and every other state is final.
abbrev pub Leads : AssignmentStatus → AssignmentStatus → Type 0
Leads offered _ = Unit
Leads accepted accepted = Unit
Leads accepted cancelled = Unit
Leads declined declined = Unit
Leads cancelled cancelled = Unit
Leads withdrawn withdrawn = Unit
Leads expired expired = Unit
Leads _ _ = ⊥

-- One row later: the same offer, in a state that may follow.
pub record Follows (a b : Assignment) : Type 0 where
  pub leads : Leads a.status b.status
  pub guide : b.guide_os_id ≡ a.guide_os_id
  pub company : b.company_id ≡ a.company_id
  pub connection : b.guide_connection_id ≡ a.guide_connection_id
  pub starts : b.start_date ≡ a.start_date
  pub ends : b.end_date ≡ a.end_date

-- The row of one id before and after: it may appear, never vanishes, and follows its states.
abbrev pub Evolves : Option Assignment → Option Assignment → Type 0
Evolves none b = Unit
Evolves (some a) none = ⊥
Evolves (some a) (some b) = Follows a b

pub Leads-refl : (s : AssignmentStatus) → Leads s s
Leads-refl offered = tt
Leads-refl accepted = tt
Leads-refl declined = tt
Leads-refl cancelled = tt
Leads-refl withdrawn = tt
Leads-refl expired = tt

pub Leads-trans : (r s t : AssignmentStatus) → Leads r s → Leads s t → Leads r t
Leads-trans offered s t a b = tt
Leads-trans accepted accepted t a b = b
Leads-trans accepted cancelled cancelled a b = tt
Leads-trans declined declined t a b = b
Leads-trans cancelled cancelled t a b = b
Leads-trans withdrawn withdrawn t a b = b
Leads-trans expired expired t a b = b
Leads-trans r s t a b = ground arith

pub Evolves-refl : (a : Option Assignment) → Evolves a a
Evolves-refl none = tt
Evolves-refl (some a) = record {
  leads = Leads-refl a.status;
  guide = refl;
  company = refl;
  connection = refl;
  starts = refl;
  ends = refl;
}

pub Evolves-trans : (a b c : Option Assignment) → Evolves a b → Evolves b c → Evolves a c
Evolves-trans none b c h k = tt
Evolves-trans (some a) (some b) (some c) h k = record {
  leads = Leads-trans a.status b.status c.status h.leads k.leads;
  guide = k.guide ∙ h.guide;
  company = k.company ∙ h.company;
  connection = k.connection ∙ h.connection;
  starts = k.starts ∙ h.starts;
  ends = k.ends ∙ h.ends;
}
Evolves-trans (some a) (some b) none h k = k
Evolves-trans (some a) none c h k = absurd h

-- The rows of two states, id by id.
abbrev pub Continues : Db → Db → Type 0
Continues db db' =
    (k : String)
    → Evolves (find assignment_key k db.assignments) (find assignment_key k db'.assignments)

cons-Evolves :
    (a : Assignment) (rows : List Assignment) (k : String)
    → find assignment_key a.assignment_id rows ≡ none
    → Evolves (find assignment_key k rows) (find assignment_key k (a ∷ rows))
cons-Evolves a rows k free = elim (Bool-cases (a.assignment_id == k)) [
  | inl hit ↦ rw (find-cons, hit) (rw (← (eq_iff a.assignment_id k).0 hit) (rw free tt))
  | inr miss ↦ rw (find-cons, miss) (Evolves-refl (find assignment_key k rows))
]

Option_map-Evolves :
    (f : Assignment → Assignment) (a : Option Assignment)
    → ((r : Assignment) → Follows r (f r))
    → Evolves a (Option.map f a)
Option_map-Evolves f none h = tt
Option_map-Evolves f (some a) h = h a

modify-Evolves :
    (id : String) (f : Assignment → Assignment) (rows : List Assignment) (k : String)
    → ((r : Assignment) → assignment_key (f r) ≡ assignment_key r)
    → ((r : Assignment) → Follows r (f r))
    → Evolves (find assignment_key k rows) (find assignment_key k (modify assignment_key id f rows))
modify-Evolves id f rows k same h = elim (Bool-cases (id == k)) [
  | inl hit ↦
      rw (find-modify assignment_key id k f rows same, hit)
        (Option_map-Evolves f (find assignment_key k rows) h)
  | inr miss ↦
      rw (find-modify assignment_key id k f rows same, miss)
        (Evolves-refl (find assignment_key k rows))
]

pub apply_decision-Follows :
    (w : AssignmentDecisionWrite) (t : Option ℕ) (r : Assignment) → Follows r (apply_decision w t r)
apply_decision-Follows w t r = ground arith

pub cancel_row-Follows :
    (n : AssignmentCancellationIntake) (at : String) (r : Assignment)
    → Follows r (cancel_row n at r)
cancel_row-Follows n at r = ground arith

pub close_offer-Follows : (n : NormalizedTransition) (r : Assignment) → Follows r (close_offer n r)
close_offer-Follows n r = ground arith

outcome-Continues :
    (env : Platform) (w : AssignmentDecisionWrite) (db db' : Db) (a : AssignmentDecisionResult)
    → Outcome env w db db' a
    → Continues db db'
outcome-Continues env w db db' a (Outcome.replay same again) k =
    rw same (Evolves-refl (find assignment_key k db.assignments))
outcome-Continues env w db db' a (Outcome.acceptance row accepts o free single d) k = rw d.frame (
    modify-Evolves w.assignment_id (apply_decision w (some (db.tour_sequence + 1))) db.assignments k
      (λ r. ground arith) (apply_decision-Follows w (some (db.tour_sequence + 1))))
outcome-Continues env w db db' a (Outcome.refusal row declines o d) k = rw d.frame (
    modify-Evolves w.assignment_id (apply_decision w none) db.assignments k (λ r. ground arith)
      (apply_decision-Follows w none))

module _ (env : Platform) (before db : Db) where
  same_rows : Continues db db
  same_rows k = Evolves-refl (find assignment_key k db.assignments)

  -- `receive_assignment_offer` leaves every stored assignment as it was, or adds a row under an id
  -- that had none.
  pub receive_assignment_offer-Continues :
      (event : AssignmentOfferIntake)
      → Continues db (receive_assignment_offer env event before db).1
  unfolding receive_assignment_offer
  receive_assignment_offer-Continues event =
      submit_rule (offer_write env) (Continues db) env.busy _ db same_rows
        (λ (h, n) a db' planned e. elim (offer_effect env h n db db' a e) [
          | inl same ↦ rw same same_rows
          | inr (w, _) ↦ λ k. rw w.frame (
              cons-Evolves (offered_row n (or_else n.offered_at env.utc_now)) db.assignments k
                w.fresh)
        ])

  -- `decide_assignment` takes every stored assignment to a state that may follow its own, and
  -- keeps its guide, its company, its connection and its dates.
  pub decide_assignment-Continues :
      (guide_os_id assignment_id : String) (decision : AssignmentDecisionType)
      (decision_event_id : String) (decided_at : Option String)
      → Continues db
          (decide_assignment env guide_os_id assignment_id decision decision_event_id decided_at
            before db).1
  unfolding decide_assignment
  decide_assignment-Continues guide_os_id assignment_id decision decision_event_id decided_at =
      submit_rule (decision_operation env) (Continues db) env.busy _ db same_rows
        (λ w a db' planned e. outcome-Continues env w db db' a (decision_effect env w db db' a e))

  pub apply_assignment_cancellation-Continues :
      (event : AssignmentCancellationIntake)
      → Continues db (apply_assignment_cancellation env event before db).1
  unfolding apply_assignment_cancellation
  apply_assignment_cancellation-Continues event =
      submit_rule (cancellation_write env) (Continues db) env.busy _ db same_rows
        (λ (h, n) a db' planned e. elim (cancellation_effect env h n db db' a e) [
          | inl same ↦ rw same same_rows
          | inr (row, w) ↦ λ k. rw w.frame (
              modify-Evolves n.assignment_id (cancel_row n env.utc_now) db.assignments k
                (λ r. ground arith) (cancel_row-Follows n env.utc_now))
        ])

  -- `apply_assignment_lifecycle_transition` takes every stored assignment to a state that may
  -- follow its own, and keeps its guide, its company, its connection and its dates.
  pub apply_assignment_lifecycle_transition-Continues :
      (event : AssignmentLifecycleIntake)
      → Continues db (apply_assignment_lifecycle_transition env event before db).1
  unfolding apply_assignment_lifecycle_transition
  apply_assignment_lifecycle_transition-Continues event =
      submit_rule (transition_write env) (Continues db) env.busy _ db same_rows
        (λ (h, n) a db' planned e. elim (transition_effect env h n db db' a e) [
          | inl same ↦ rw same same_rows
          | inr (row, w) ↦ λ k. rw w.frame (
              modify-Evolves n.assignment_id (close_offer n) db.assignments k (λ r. ground arith)
                (close_offer-Follows n))
        ])
