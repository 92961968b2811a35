-- ===== src/Assignment/Ledger.antt =====
-- Three tables that must tell one story: the assignments, the guide's decisions about them, and
-- the events that report those decisions to the operator.
use guide_os.Prelude.{
  ℕ, ◌+◌, String, eq_iff, ◌==◌, text_eq, ◌≡◌, refl, ◌∙◌, inl, inr, Option, none, some, List, ◌∷◌,
  arith, Bool-cases, or_else,
}
use guide_os.Platform.{Platform}
use guide_os.Database.{
  Db, Assignment, AssignmentStatus, AssignmentDecision, AssignmentDecisionType, Outbox, offered,
  accepted, declined, cancelled, withdrawn, expired, accept, decline, find, find-cons, find-modify,
}
use guide_os.Database.Write.{submit_rule}
use guide_os.Outbox.{outbox_event_key}
use guide_os.Outbox.Sent.{Sent, Sent-cons}
use guide_os.Assignment.Intake.{
  AssignmentOfferIntake, AssignmentCancellationIntake, AssignmentLifecycleIntake, NormalizedOffer,
  NormalizedTransition,
}
use guide_os.Assignment.Store.{assignment_key, decided_assignment_key}
use guide_os.Assignment.Offer.{offered_row, offer_write, receive_assignment_offer}
use guide_os.Assignment.Decide.{
  AssignmentDecisionWrite, AssignmentDecisionResult, apply_decision, decision_row,
  decision_operation, decide_assignment,
}
use guide_os.Assignment.Cancel.{cancel_row, cancellation_write, apply_assignment_cancellation}
use guide_os.Assignment.Transition.{
  close_offer, transition_write, apply_assignment_lifecycle_transition,
}
use guide_os.Assignment.Effects.{
  Offers, Outcome, IsOpen, Decides, Cancels, Closes, projected, offer_effect, decision_effect,
  cancellation_effect, transition_effect,
}

-- The decision that a state rests on.
abbrev pub Agrees : AssignmentStatus → Option AssignmentDecisionType → Type 0
Agrees offered none = Unit
Agrees withdrawn none = Unit
Agrees expired none = Unit
Agrees accepted (some accept) = Unit
Agrees cancelled (some accept) = Unit
Agrees declined (some decline) = Unit
Agrees _ _ = ⊥

abbrev pub decision_of : Option AssignmentDecision → Option AssignmentDecisionType
decision_of none = none
decision_of (some d) = some d.decision_type

-- An assignment and the decision on record for its id.
abbrev pub Matches : Option Assignment → Option AssignmentDecision → Type 0
Matches none none = Unit
Matches none (some d) = ⊥
Matches (some a) d = Agrees a.status (decision_of d)

-- The event that reports a decision is in the outbox, addressed by the assignment's id.
abbrev pub IsReported : String → Option AssignmentDecision → List Outbox → Type 0
IsReported k none outbox = Unit
IsReported k (some d) outbox = Sent d.decision_event_id "assignment.decision.v1" k outbox

pub record IsLedger (db : Db) : Type 0 where
  pub agrees :
      (k : String)
      → Matches (find assignment_key k db.assignments) (find decided_assignment_key k db.decisions)
  pub reported : (k : String) → IsReported k (find decided_assignment_key k db.decisions) db.outbox

IsReported-cons :
    (o : Outbox) (k : String) (d : Option AssignmentDecision) (outbox : List Outbox)
    → find outbox_event_key o.event_id outbox ≡ none
    → IsReported k d outbox
    → IsReported k d (o ∷ outbox)
IsReported-cons o k none outbox free h = tt
IsReported-cons o k (some d) outbox free h =
    Sent-cons o d.decision_event_id "assignment.decision.v1" k outbox free h

decision-IsReported :
    (w : AssignmentDecisionWrite) (o : Outbox) (k : String) (decisions : List AssignmentDecision)
    (outbox : List Outbox)
    → o.event_id ≡ w.decision_event_id
    → o.aggregate_id ≡ w.assignment_id
    → o.event_type ≡ "assignment.decision.v1"
    → find outbox_event_key w.decision_event_id outbox ≡ none
    → IsReported k (find decided_assignment_key k decisions) outbox
    → IsReported k (find decided_assignment_key k (decision_row w ∷ decisions)) (o ∷ outbox)
decision-IsReported w o k decisions outbox event addressed typed free h =
    elim (Bool-cases (w.assignment_id == k)) [
      | inl hit ↦
          rw (find-cons, hit)
            (
              o,
              rw (find-cons, (eq_iff o.event_id w.decision_event_id).1 event) refl,
              addressed ∙ (eq_iff w.assignment_id k).0 hit,
              typed,
            )
      | inr miss ↦
          rw (find-cons, miss)
            (IsReported-cons o k (find decided_assignment_key k decisions) outbox (rw event free) h)
    ]

offer-IsLedger :
    (env : Platform) (h : String) (n : NormalizedOffer) (db db' : Db)
    → Offers env h n db db'
    → IsLedger db
    → IsLedger db'
offer-IsLedger env h n db db' w led = record {
  agrees = λ k. rw w.frame (
      ground (
        arith,
        find-cons assignment_key k (offered_row n (or_else n.offered_at env.utc_now))
            db.assignments,
        eq_iff n.assignment_id k,
        led.agrees k,
        w.fresh,
      ));
  reported = λ k. rw w.frame (led.reported k);
}

transition-IsLedger :
    (env : Platform) (h : String) (n : NormalizedTransition) (row : Assignment) (db db' : Db)
    → Closes env h n row db db'
    → IsLedger db
    → IsLedger db'
transition-IsLedger env h n row db db' w led = record {
  agrees = λ k. rw w.frame (
      ground (
        arith,
        find-modify assignment_key n.assignment_id k (close_offer n) db.assignments
            (λ r. ground arith),
        eq_iff n.assignment_id k,
        led.agrees k,
        w.found,
        w.was_offered,
      ));
  reported = λ k. rw w.frame (led.reported k);
}

cancellation-IsLedger :
    (env : Platform) (h : String) (n : AssignmentCancellationIntake) (row : Assignment)
    (db db' : Db)
    → Cancels env h n row db db'
    → IsLedger db
    → IsLedger db'
cancellation-IsLedger env h n row db db' w led = record {
  agrees = λ k. rw w.frame (
      ground (
        arith,
        find-modify assignment_key n.assignment_id k (cancel_row n env.utc_now) db.assignments
            (λ r. ground arith),
        eq_iff n.assignment_id k,
        led.agrees k,
        w.found,
        w.was_accepted,
      ));
  reported = λ k. rw w.frame (
      IsReported-cons _ k (find decided_assignment_key k db.decisions) db.outbox w.unsent
        (led.reported k));
}

-- Both decisions, the database with the calendar entry or without it.
decision-IsLedger :
    (env : Platform) (w : AssignmentDecisionWrite) (t : Option ℕ) (row : Assignment) (db db' : Db)
    → IsOpen w row db
    → Decides env w t db db'
    → IsLedger db
    → IsLedger db'
decision-IsLedger env w t row db db' o d led = record {
  agrees = λ k. rw d.frame (
      ground (
        arith,
        find-modify assignment_key w.assignment_id k (apply_decision w t) db.assignments
            (λ r. ground arith),
        find-cons decided_assignment_key k (decision_row w) db.decisions,
        eq_iff w.assignment_id k,
        eq_iff row.guide_os_id w.identity,
        led.agrees k,
        o.found,
        o.guide,
        o.was_offered,
      ));
  reported = λ k.
      rw d.frame
        (decision-IsReported w _ k db.decisions db.outbox refl refl refl d.unsent (led.reported k));
}

outcome-IsLedger :
    (env : Platform) (w : AssignmentDecisionWrite) (db db' : Db) (a : AssignmentDecisionResult)
    → Outcome env w db db' a
    → IsLedger db
    → IsLedger db'
outcome-IsLedger env w db db' a (Outcome.replay same again) led = rw same led
outcome-IsLedger env w db db' a (Outcome.acceptance row accepts o free single d) led =
    decision-IsLedger env w (some (db.tour_sequence + 1)) row (projected env w row db) db'
      (record { found = o.found; guide = o.guide; was_offered = o.was_offered }) d
      (record { agrees = led.agrees; reported = led.reported })
outcome-IsLedger env w db db' a (Outcome.refusal row declines o d) led =
    decision-IsLedger env w none row db db' o d led

module _ (env : Platform) (before db : Db) (led : IsLedger db) where
  -- If every assignment's state rests on the decision on record for it, and every decision on
  -- record is reported in the outbox, then so it is after `receive_assignment_offer`.
  pub receive_assignment_offer-IsLedger :
      (event : AssignmentOfferIntake) → IsLedger (receive_assignment_offer env event before db).1
  unfolding receive_assignment_offer
  receive_assignment_offer-IsLedger event =
      submit_rule (offer_write env) IsLedger env.busy _ db led (λ (h, n) a db' planned e.
        elim (offer_effect env h n db db' a e) [
          | inl same ↦ rw same led
          | inr (w, _) ↦ offer-IsLedger env h n db db' w led
        ])

  -- If every assignment's state rests on the decision on record for it, and every decision on
  -- record is reported in the outbox, then so it is after `decide_assignment`: the state, the
  -- decision and the event are written together or not at all.
  pub decide_assignment-IsLedger :
      (guide_os_id assignment_id : String) (decision : AssignmentDecisionType)
      (decision_event_id : String) (decided_at : Option String)
      → IsLedger
          (decide_assignment env guide_os_id assignment_id decision decision_event_id decided_at
            before db).1
  unfolding decide_assignment
  decide_assignment-IsLedger guide_os_id assignment_id decision decision_event_id decided_at =
      submit_rule (decision_operation env) IsLedger env.busy _ db led (λ w a db' planned e.
        outcome-IsLedger env w db db' a (decision_effect env w db db' a e) led)

  -- If every assignment's state rests on the decision on record for it, and every decision on
  -- record is reported in the outbox, then so it is after `apply_assignment_cancellation`.
  pub apply_assignment_cancellation-IsLedger :
      (event : AssignmentCancellationIntake)
      → IsLedger (apply_assignment_cancellation env event before db).1
  unfolding apply_assignment_cancellation
  apply_assignment_cancellation-IsLedger event =
      submit_rule (cancellation_write env) IsLedger env.busy _ db led (λ (h, n) a db' planned e.
        elim (cancellation_effect env h n db db' a e) [
          | inl same ↦ rw same led
          | inr (row, w) ↦ cancellation-IsLedger env h n row db db' w led
        ])

  -- If every assignment's state rests on the decision on record for it, and every decision on
  -- record is reported in the outbox, then so it is after `apply_assignment_lifecycle_transition`.
  pub apply_assignment_lifecycle_transition-IsLedger :
      (event : AssignmentLifecycleIntake)
      → IsLedger (apply_assignment_lifecycle_transition env event before db).1
  unfolding apply_assignment_lifecycle_transition
  apply_assignment_lifecycle_transition-IsLedger event =
      submit_rule (transition_write env) IsLedger env.busy _ db led (λ (h, n) a db' planned e.
        elim (transition_effect env h n db db' a e) [
          | inl same ↦ rw same led
          | inr (row, w) ↦ transition-IsLedger env h n row db db' w led
        ])
