-- ===== src/Workflow/Journey.antt =====
-- The whole life of an assignment: the calls of both services and those on published versions, in
-- any order, each with its own clock, contention and first reads.
use guide_os.Prelude.{ℕ, String, text_eq, number_eq, refl, inl, inr, Option, List, [], ◌∷◌}
use guide_os.Platform.{Platform}
use guide_os.Database.{Db}
use guide_os.Database.Write.{submit_rule}
use guide_os.Assignment.Offer.{offer_write, receive_assignment_offer}
use guide_os.Assignment.Decide.{decision_operation, decide_assignment}
use guide_os.Assignment.Cancel.{cancellation_write, apply_assignment_cancellation}
use guide_os.Assignment.Transition.{transition_write, apply_assignment_lifecycle_transition}
use guide_os.Assignment.Effects.{
  offer_effect, decision_effect, cancellation_effect, transition_effect,
}
use guide_os.Version.Intake.{AssignmentVersionPublishedIntake}
use guide_os.Version.Ordinary.{ordinary_write, apply_ordinary_assignment_version}
use guide_os.Version.Critical.{critical_write, intake_critical_assignment_version}
use guide_os.Version.Decision.{
  CriticalDecisionWrite, AssignmentCriticalVersionDecisionResult, critical_decision_operation,
  decide_critical_assignment_version,
}
use guide_os.Version.Acknowledge.{acknowledge_operation, acknowledge_ordinary_version}
use guide_os.Version.Effects.{
  CriticalOutcome, ordinary_effect, critical_effect, critical_decision_effect, acknowledge_effect,
}
use guide_os.Workflow.{
  Call, invitation, disconnect, connection_decision, offer, assignment_decision, cancellation,
  transition, perform,
}
use guide_os.Workflow.Frame
use guide_os.Workflow.Frame.{KeepsAssignments}
use guide_os.Workflow.Sound.{IsAgreed, perform-IsAgreed}
use guide_os.Workflow.Amend.{amended-IsAgreed, amended-IsProjected}
use guide_os.Workflow.Revision.{
  Publishes-Amends, Pends-Amends, Acknowledges-Amends, Rejects-Amends, Confirms-Amends,
  Publishes-IsProjected, Confirms-IsProjected,
}
use guide_os.Workflow.Numbering.{IsVersioned}
use guide_os.Workflow.Numbered as Numbered

-- A call of either service, or one on a published version.
pub data Step : Type 0 where
  call : Call → Step
  ordinary_version : AssignmentVersionPublishedIntake → Step
  critical_version : AssignmentVersionPublishedIntake → Step
  critical_decision :
      (guide_os_id assignment_id : String) → ℕ → String → String → Option String → Step
  acknowledgement : (guide_os_id assignment_id : String) → ℕ → String → Option String → Step

-- The database after one step, whatever it answers.
abbrev pub proceed : Platform → Step → Db → Db → Db
proceed env (call c) before db = perform env c before db
proceed env (ordinary_version event) before db =
    (apply_ordinary_assignment_version env event before db).1
proceed env (critical_version event) before db =
    (intake_critical_assignment_version env event before db).1
proceed env (critical_decision guide assignment version decision event decided_at) before db =
    (decide_critical_assignment_version env guide assignment version decision event decided_at
      before db).1
proceed env (acknowledgement guide assignment version event acknowledged_at) before db =
    (acknowledge_ordinary_version env guide assignment version event acknowledged_at before db).1

unfoldable pub journey : List (Platform × Step × Db) → Db → Db
journey [] db = db
journey ((env, step, before) ∷ steps) db = journey steps (proceed env step before db)

-- The tables agree, and the versions are numbered without gaps.
pub record IsConsistent (db : Db) : Type 0 where
  pub agreed : IsAgreed db
  pub versioned : IsVersioned db

module _ (env : Platform) (before db : Db) (c : IsConsistent db) where
  pub apply_ordinary_assignment_version-IsConsistent :
      (event : AssignmentVersionPublishedIntake)
      → IsConsistent (apply_ordinary_assignment_version env event before db).1
  unfolding apply_ordinary_assignment_version
  apply_ordinary_assignment_version-IsConsistent event =
      submit_rule (ordinary_write env) IsConsistent env.busy _ db c (λ (h, n) a db' planned e.
        elim (ordinary_effect env h n db db' a e) [
          | inl same ↦ rw same c
          | inr (row, tour, w) ↦ record {
            agreed =
                amended-IsAgreed _ _ _ db db' (Publishes-Amends env h n row tour db db' w)
                  (Publishes-IsProjected env h n row tour db db' w) c.agreed;
            versioned = Numbered.Publishes-IsVersioned env h n row tour db db' w c.versioned;
          }
        ])

  pub intake_critical_assignment_version-IsConsistent :
      (event : AssignmentVersionPublishedIntake)
      → IsConsistent (intake_critical_assignment_version env event before db).1
  unfolding intake_critical_assignment_version
  intake_critical_assignment_version-IsConsistent event =
      submit_rule (critical_write env) IsConsistent env.busy _ db c (λ (h, n) a db' planned e.
        elim (critical_effect env h n db db' a e) [
          | inl same ↦ rw same c
          | inr (row, w) ↦ record {
            agreed =
                amended-IsAgreed _ _ _ db db' (Pends-Amends env h n row db db' w)
                  (amended-IsProjected _ _ _ db db' (Pends-Amends env h n row db db' w)
                    (rw w.frame refl) refl refl)
                  c.agreed;
            versioned = Numbered.Pends-IsVersioned env h n row db db' w c.versioned;
          }
        ])

  pub acknowledge_ordinary_version-IsConsistent :
      (guide_os_id assignment_id : String) (version_number : ℕ) (decision_event_id : String)
      (acknowledged_at : Option String)
      → IsConsistent
          (acknowledge_ordinary_version env guide_os_id assignment_id version_number
            decision_event_id acknowledged_at before db).1
  unfolding acknowledge_ordinary_version
  acknowledge_ordinary_version-IsConsistent guide_os_id assignment_id version_number
        decision_event_id acknowledged_at =
      submit_rule (acknowledge_operation env) IsConsistent env.busy _ db c (λ w a db' planned e.
        elim (acknowledge_effect env w db db' a e) [
          | inl same ↦ rw same c
          | inr (row, version, d) ↦ record {
            agreed =
                amended-IsAgreed _ _ _ db db' (Acknowledges-Amends env w row version db db' d)
                  (amended-IsProjected _ _ _ db db' (Acknowledges-Amends env w row version db db' d)
                    (rw d.frame refl) refl refl)
                  c.agreed;
            versioned = Numbered.Acknowledges-IsVersioned env w row version db db' d c.versioned;
          }
        ])

critical_outcome-IsConsistent :
    (env : Platform) (w : CriticalDecisionWrite) (db db' : Db)
    (a : AssignmentCriticalVersionDecisionResult)
    → CriticalOutcome env w db db' a
    → IsConsistent db
    → IsConsistent db'
critical_outcome-IsConsistent env w db db' a o c = record {
  agreed = agreed o;
  versioned = Numbered.critical_outcome-IsVersioned env w db db' a o c.versioned;
}
  where
    agreed : CriticalOutcome env w db db' a → IsAgreed db'
    agreed (CriticalOutcome.replay same again) = rw same c.agreed
    agreed (CriticalOutcome.rejection row tour rejects d answered) =
        amended-IsAgreed _ _ _ db db' (Rejects-Amends env w row tour db db' d)
          (amended-IsProjected _ _ _ db db' (Rejects-Amends env w row tour db db' d)
            (rw d.frame refl) refl refl)
          c.agreed
    agreed
          (CriticalOutcome.confirmation row tour working_package proposed start_date end_date
            confirms d answered) =
        amended-IsAgreed _ _ _ db db'
          (Confirms-Amends env w row tour working_package proposed start_date end_date db db' d)
          (Confirms-IsProjected env w row tour working_package proposed start_date end_date db db'
            d)
          c.agreed

-- The connection service leaves assignments and versions alone.
KeepsAssignments-IsVersioned :
    (db db' : Db) → KeepsAssignments db db' → IsVersioned db → IsVersioned db'
KeepsAssignments-IsVersioned db db' keeps v = rw (keeps.assignments, keeps.versions) v

perform-IsVersioned :
    (env : Platform) (c : Call) (before db : Db)
    → IsVersioned db
    → IsVersioned (perform env c before db)
unfolding receive_assignment_offer decide_assignment apply_assignment_cancellation
    apply_assignment_lifecycle_transition
perform-IsVersioned env (invitation event) before db v =
    KeepsAssignments-IsVersioned db _
      (Frame.receive_connection_invitation-KeepsAssignments env before db event) v
perform-IsVersioned env (disconnect event) before db v =
    KeepsAssignments-IsVersioned db _
      (Frame.receive_connection_disconnect-KeepsAssignments env before db event) v
perform-IsVersioned env (connection_decision guide connection decision event decided_at) before db
      v =
    KeepsAssignments-IsVersioned db _
      (Frame.decide_connection-KeepsAssignments env before db guide connection decision event
        decided_at)
      v
perform-IsVersioned env (offer event) before db v =
    submit_rule (offer_write env) IsVersioned env.busy _ db v (λ (h, n) a db' planned e.
      elim (offer_effect env h n db db' a e) [
        | inl same ↦ rw same v
        | inr (w, _) ↦ Numbered.Offers-IsVersioned env h n db db' w v
      ])
perform-IsVersioned env (assignment_decision guide assignment decision event decided_at) before db
      v =
    submit_rule (decision_operation env) IsVersioned env.busy _ db v (λ w a db' planned e.
      Numbered.outcome-IsVersioned env w db db' a (decision_effect env w db db' a e) v)
perform-IsVersioned env (cancellation event) before db v =
    submit_rule (cancellation_write env) IsVersioned env.busy _ db v (λ (h, n) a db' planned e.
      elim (cancellation_effect env h n db db' a e) [
        | inl same ↦ rw same v
        | inr (row, w) ↦ Numbered.Cancels-IsVersioned env h n row db db' w v
      ])
perform-IsVersioned env (transition event) before db v =
    submit_rule (transition_write env) IsVersioned env.busy _ db v (λ (h, n) a db' planned e.
      elim (transition_effect env h n db db' a e) [
        | inl same ↦ rw same v
        | inr (row, w) ↦ Numbered.Closes-IsVersioned env h n row db db' w v
      ])

module _ (env : Platform) (before db : Db) (c : IsConsistent db) where
  pub decide_critical_assignment_version-IsConsistent :
      (guide_os_id assignment_id : String) (version_number : ℕ)
      (decision decision_event_id : String) (decided_at : Option String)
      → IsConsistent
          (decide_critical_assignment_version env guide_os_id assignment_id version_number decision
            decision_event_id decided_at before db).1
  unfolding decide_critical_assignment_version
  decide_critical_assignment_version-IsConsistent guide_os_id assignment_id version_number decision
        decision_event_id decided_at =
      submit_rule (critical_decision_operation env) IsConsistent env.busy _ db c
        (λ w a db' planned e.
          critical_outcome-IsConsistent env w db db' a (critical_decision_effect env w db db' a e)
            c)

pub proceed-IsConsistent :
    (env : Platform) (step : Step) (before db : Db)
    → IsConsistent db
    → IsConsistent (proceed env step before db)
proceed-IsConsistent env (call k) before db c = record {
  agreed = perform-IsAgreed env k before db c.agreed;
  versioned = perform-IsVersioned env k before db c.versioned;
}
proceed-IsConsistent env (ordinary_version event) before db c =
    apply_ordinary_assignment_version-IsConsistent env before db c event
proceed-IsConsistent env (critical_version event) before db c =
    intake_critical_assignment_version-IsConsistent env before db c event
proceed-IsConsistent env (critical_decision guide assignment version decision event decided_at)
      before db c =
    decide_critical_assignment_version-IsConsistent env before db c guide assignment version
      decision event decided_at
proceed-IsConsistent env (acknowledgement guide assignment version event acknowledged_at) before db
      c =
    acknowledge_ordinary_version-IsConsistent env before db c guide assignment version event
      acknowledged_at

-- From tables that agree and versions that are numbered without gaps, any sequence of calls of
-- both services and on published versions, with any clocks, contention and stale first reads,
-- leads to such tables again: a critical acceptance moves the row and its calendar entry together,
-- and a pending version is always the stored critical one that comes next.
pub journey-IsConsistent :
    (steps : List (Platform × Step × Db)) (db : Db)
    → IsConsistent db
    → IsConsistent (journey steps db)
unfolding journey
journey-IsConsistent [] db c = c
journey-IsConsistent ((env, step, before) ∷ steps) db c =
    journey-IsConsistent steps (proceed env step before db)
      (proceed-IsConsistent env step before db c)
