-- ===== src/Assignment/Protected.antt =====
-- Every call of the assignment service keeps the calendar and the assignments in agreement.
use guide_os.Prelude.{String, Option, inl, inr}
use guide_os.Platform.{Platform}
use guide_os.Database.{Db, AssignmentDecisionType}
use guide_os.Database.Write.{submit_rule}
use guide_os.Assignment.Intake.{
  AssignmentOfferIntake, AssignmentCancellationIntake, AssignmentLifecycleIntake,
}
use guide_os.Assignment.Offer.{offer_write, receive_assignment_offer}
use guide_os.Assignment.Decide.{
  AssignmentDecisionWrite, AssignmentDecisionResult, decision_operation, decide_assignment,
}
use guide_os.Assignment.Cancel.{cancellation_write, apply_assignment_cancellation}
use guide_os.Assignment.Transition.{transition_write, apply_assignment_lifecycle_transition}
use guide_os.Assignment.Effects.{
  Outcome, offer_effect, decision_effect, cancellation_effect, transition_effect,
}
use guide_os.Assignment.Projection.{
  IsProjected, offer-IsProjected, transition-IsProjected, acceptance-IsProjected,
  refusal-IsProjected, cancellation-IsProjected,
}

outcome-IsProjected :
    (env : Platform) (w : AssignmentDecisionWrite) (db db' : Db) (a : AssignmentDecisionResult)
    → Outcome env w db db' a
    → IsProjected db
    → IsProjected db'
outcome-IsProjected env w db db' a (Outcome.replay same again) p = rw same p
outcome-IsProjected env w db db' a (Outcome.acceptance row accepts o free single d) p =
    acceptance-IsProjected env w row db db' accepts o d p
outcome-IsProjected env w db db' a (Outcome.refusal row declines o d) p =
    refusal-IsProjected env w row db db' declines o d p

module _ (env : Platform) (before db : Db) (p : IsProjected db) where
  -- If every accepted assignment is linked to its protected entry and no other is linked, so it is
  -- after `receive_assignment_offer`, whatever the call answers and whatever it had read.
  pub receive_assignment_offer-IsProjected :
      (event : AssignmentOfferIntake) → IsProjected (receive_assignment_offer env event before db).1
  unfolding receive_assignment_offer
  receive_assignment_offer-IsProjected event =
      submit_rule (offer_write env) IsProjected env.busy _ db p (λ (h, n) a db' planned e.
        elim (offer_effect env h n db db' a e) [
          | inl same ↦ rw same p
          | inr (w, _) ↦ offer-IsProjected env h n db db' w p
        ])

  -- If every accepted assignment is linked to its protected entry and no other is linked, so it is
  -- after `decide_assignment`.
  pub decide_assignment-IsProjected :
      (guide_os_id assignment_id : String) (decision : AssignmentDecisionType)
      (decision_event_id : String) (decided_at : Option String)
      → IsProjected
          (decide_assignment env guide_os_id assignment_id decision decision_event_id decided_at
            before db).1
  unfolding decide_assignment
  decide_assignment-IsProjected guide_os_id assignment_id decision decision_event_id decided_at =
      submit_rule (decision_operation env) IsProjected env.busy _ db p (λ w a db' planned e.
        outcome-IsProjected env w db db' a (decision_effect env w db db' a e) p)

  -- If every accepted assignment is linked to its protected entry and no other is linked, so it is
  -- after `apply_assignment_cancellation`.
  pub apply_assignment_cancellation-IsProjected :
      (event : AssignmentCancellationIntake)
      → IsProjected (apply_assignment_cancellation env event before db).1
  unfolding apply_assignment_cancellation
  apply_assignment_cancellation-IsProjected event =
      submit_rule (cancellation_write env) IsProjected env.busy _ db p (λ (h, n) a db' planned e.
        elim (cancellation_effect env h n db db' a e) [
          | inl same ↦ rw same p
          | inr (row, w) ↦ cancellation-IsProjected env h n row db db' w p
        ])

  -- If every accepted assignment is linked to its protected entry and no other is linked, so it is
  -- after `apply_assignment_lifecycle_transition`.
  pub apply_assignment_lifecycle_transition-IsProjected :
      (event : AssignmentLifecycleIntake)
      → IsProjected (apply_assignment_lifecycle_transition env event before db).1
  unfolding apply_assignment_lifecycle_transition
  apply_assignment_lifecycle_transition-IsProjected event =
      submit_rule (transition_write env) IsProjected env.busy _ db p (λ (h, n) a db' planned e.
        elim (transition_effect env h n db db' a e) [
          | inl same ↦ rw same p
          | inr (row, w) ↦ transition-IsProjected env h n row db db' w p
        ])
