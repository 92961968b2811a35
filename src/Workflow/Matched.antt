-- ===== src/Workflow/Matched.antt =====
-- The accepted assignments and the protected entries match through sequences of calls.
use guide_os.Prelude.{
  ℕ, String, ◌==◌, eq_iff, text_eq, number_eq, ◌≡◌, refl, ◌∙◌, inl, inr, some, arith, Bool-cases,
  Option-cases, List, [], ◌∷◌,
}
use guide_os.Platform.{Platform}
use guide_os.Database.{Db, Assignment, Tour, guide_operator, find, modify, find-modify}
use guide_os.Database.Write.{submit_rule}
use guide_os.Assignment.Store.{tour_key}
use guide_os.Version.Ordinary.{ordinary_write, apply_ordinary_assignment_version, labels_of}
use guide_os.Version.Critical.{critical_write, intake_critical_assignment_version}
use guide_os.Version.Projection.{relabel, reschedule}
use guide_os.Version.Decision.{
  CriticalDecisionWrite, AssignmentCriticalVersionDecisionResult, critical_decision_operation,
  decide_critical_assignment_version, critical_labels,
}
use guide_os.Version.Acknowledge.{acknowledge_operation, acknowledge_ordinary_version}
use guide_os.Version.Effects.{
  CriticalOutcome, ordinary_effect, critical_effect, critical_decision_effect, acknowledge_effect,
}
use guide_os.Assignment.Projection.{IsProjected}
use guide_os.Assignment.Matched.{
  Backs, IsMatched, receive_assignment_offer-IsMatched, decide_assignment-IsMatched,
  apply_assignment_cancellation-IsMatched, apply_assignment_lifecycle_transition-IsMatched,
}
use guide_os.Workflow.{
  Call, invitation, disconnect, connection_decision, offer, assignment_decision, cancellation,
  transition, perform,
}
use guide_os.Workflow.Frame
use guide_os.Workflow.Frame.{KeepsAssignments}
use guide_os.Workflow.Amend.{Amends, amended-IsProjected}
use guide_os.Workflow.Revision.{
  Publishes-Amends, Pends-Amends, Acknowledges-Amends, Rejects-Amends, Confirms-Amends,
  Publishes-IsProjected, Confirms-IsProjected,
}
use guide_os.Workflow.Journey.{
  Step, call, ordinary_version, critical_version, critical_decision, acknowledgement, proceed,
  journey,
}

KeepsAssignments-IsMatched : (db db' : Db) → KeepsAssignments db db' → IsMatched db → IsMatched db'
KeepsAssignments-IsMatched db db' keeps m = record {
  projected = record {
    rows = rw (keeps.assignments, keeps.tours) m.projected.rows;
    numbered = rw (keeps.tours, keeps.tour_sequence) m.projected.numbered;
  };
  backed = rw (keeps.assignments, keeps.tours) m.backed;
}

pub perform-IsMatched :
    (env : Platform) (call : Call) (before db : Db)
    → IsMatched db
    → IsMatched (perform env call before db)
perform-IsMatched env (invitation event) before db m =
    KeepsAssignments-IsMatched db _
      (Frame.receive_connection_invitation-KeepsAssignments env before db event) m
perform-IsMatched env (disconnect event) before db m =
    KeepsAssignments-IsMatched db _
      (Frame.receive_connection_disconnect-KeepsAssignments env before db event) m
perform-IsMatched env (connection_decision guide connection decision event decided_at) before db m =
    KeepsAssignments-IsMatched db _
      (Frame.decide_connection-KeepsAssignments env before db guide connection decision event
        decided_at)
      m
perform-IsMatched env (offer event) before db m =
    receive_assignment_offer-IsMatched env before db m event
perform-IsMatched env (assignment_decision guide assignment decision event decided_at) before db m =
    decide_assignment-IsMatched env before db m guide assignment decision event decided_at
perform-IsMatched env (cancellation event) before db m =
    apply_assignment_cancellation-IsMatched env before db m event
perform-IsMatched env (transition event) before db m =
    apply_assignment_lifecycle_transition-IsMatched env before db m event

module _ (id : String) (row row' : Assignment) (db db' : Db) (m : Amends id row row' db db') where
  -- An amended row stays accepted and linked.
  amended-Backs : (t : ℕ) → Backs t db.assignments → Backs t db'.assignments
  amended-Backs t b = elim (Bool-cases (id == b.key)) [
    | inl hit ↦ record {
      key = b.key;
      row = row';
      found = rw (m.rows b.key, hit) refl;
      is_accepted = m.status ∙ m.was_accepted;
      linked = m.link ∙ ground (arith, hit, eq_iff id b.key, m.found, b.found, b.linked);
    }
    | inr miss ↦ record {
      key = b.key;
      row = b.row;
      found = rw (m.rows b.key, miss) b.found;
      is_accepted = b.is_accepted;
      linked = b.linked;
    }
  ]

  amended-IsMatched :
      (IsProjected db → IsProjected db')
      → ((t : ℕ) (entry : Tour)
          → find tour_key t db'.tours ≡ some entry
          → entry.source ≡ guide_operator
          → (old : Tour) × (find tour_key t db.tours ≡ some old) × (old.source ≡ guide_operator))
      → IsMatched db
      → IsMatched db'
  amended-IsMatched projects kept g = record {
    projected = projects g.projected;
    backed = λ t entry found protected.
        let (old, before, was) = kept t entry found protected in
        amended-Backs t (g.backed t old before was);
  }

  -- The calendar is as it was.
  quiet-IsMatched :
      db'.tours ≡ db.tours
      → row'.start_date ≡ row.start_date
      → row'.end_date ≡ row.end_date
      → IsMatched db
      → IsMatched db'
  quiet-IsMatched tours starts ends =
      amended-IsMatched (amended-IsProjected id row row' db db' m tours starts ends)
        (λ t entry found protected. (entry, rw tours at found, protected))

-- An UPDATE of an entry that keeps its source makes no entry protected.
modified_from :
    (k : ℕ) (g : Tour → Tour) (tours : List Tour)
    → ((r : Tour) → tour_key (g r) ≡ tour_key r)
    → ((r : Tour) → (g r).source ≡ r.source)
    → (t : ℕ) (entry : Tour) → find tour_key t (modify tour_key k g tours) ≡ some entry
    → entry.source ≡ guide_operator
    → (old : Tour) × (find tour_key t tours ≡ some old) × (old.source ≡ guide_operator)
modified_from k g tours same source t entry found protected =
    elim (Option-cases (find tour_key t tours)) [
      | inl absent ↦ absurd (ground (arith, found, absent, find-modify tour_key k t g tours same))
      | inr (old, there) ↦ (
        old,
        there,
        ground (arith, found, there, find-modify tour_key k t g tours same, source old, protected),
      )
    ]

critical_outcome-IsMatched :
    (env : Platform) (w : CriticalDecisionWrite) (db db' : Db)
    (a : AssignmentCriticalVersionDecisionResult)
    → CriticalOutcome env w db db' a
    → IsMatched db
    → IsMatched db'
critical_outcome-IsMatched env w db db' a (CriticalOutcome.replay same again) m = rw same m
critical_outcome-IsMatched env w db db' a (CriticalOutcome.rejection row tour rejects d answered)
      m =
    quiet-IsMatched _ _ _ db db' (Rejects-Amends env w row tour db db' d) (rw d.frame refl) refl
      refl m
critical_outcome-IsMatched env w db db' a
      (CriticalOutcome.confirmation row tour working_package proposed start_date end_date confirms d
        answered)
      m =
    amended-IsMatched _ _ _ db db'
      (Confirms-Amends env w row tour working_package proposed start_date end_date db db' d)
      (Confirms-IsProjected env w row tour working_package proposed start_date end_date db db' d)
      (rw d.frame (
        modified_from tour
          (reschedule (critical_labels env row working_package) start_date end_date) db.tours
          (λ r. refl) (λ r. refl)))
      m

pub proceed-IsMatched :
    (env : Platform) (step : Step) (before db : Db)
    → IsMatched db
    → IsMatched (proceed env step before db)
unfolding apply_ordinary_assignment_version intake_critical_assignment_version
    decide_critical_assignment_version acknowledge_ordinary_version
proceed-IsMatched env (call k) before db m = perform-IsMatched env k before db m
proceed-IsMatched env (ordinary_version event) before db m =
    submit_rule (ordinary_write env) IsMatched env.busy _ db m (λ (h, n) a db' planned e.
      elim (ordinary_effect env h n db db' a e) [
        | inl same ↦ rw same m
        | inr (row, tour, w) ↦
            amended-IsMatched _ _ _ db db' (Publishes-Amends env h n row tour db db' w)
              (Publishes-IsProjected env h n row tour db db' w)
              (rw w.frame (
                modified_from tour (relabel (labels_of env row n)) db.tours (λ r. refl)
                  (λ r. refl)))
              m
      ])
proceed-IsMatched env (critical_version event) before db m =
    submit_rule (critical_write env) IsMatched env.busy _ db m (λ (h, n) a db' planned e.
      elim (critical_effect env h n db db' a e) [
        | inl same ↦ rw same m
        | inr (row, w) ↦
            quiet-IsMatched _ _ _ db db' (Pends-Amends env h n row db db' w) (rw w.frame refl) refl
              refl m
      ])
proceed-IsMatched env (critical_decision guide assignment version decision event decided_at) before
      db m =
    submit_rule (critical_decision_operation env) IsMatched env.busy _ db m (λ w a db' planned e.
      critical_outcome-IsMatched env w db db' a (critical_decision_effect env w db db' a e) m)
proceed-IsMatched env (acknowledgement guide assignment version event acknowledged_at) before db m =
    submit_rule (acknowledge_operation env) IsMatched env.busy _ db m (λ w a db' planned e.
      elim (acknowledge_effect env w db db' a e) [
        | inl same ↦ rw same m
        | inr (row, version, d) ↦
            quiet-IsMatched _ _ _ db db' (Acknowledges-Amends env w row version db db' d)
              (rw d.frame refl) refl refl m
      ])

-- If every accepted assignment has its protected entry, over its own dates, and there is no other
-- protected entry and no other link to one, then so it is after any sequence of calls of both
-- services and on published versions, with any clocks, contention and stale first reads.
pub journey-IsMatched :
    (steps : List (Platform × Step × Db)) (db : Db) → IsMatched db → IsMatched (journey steps db)
unfolding journey
journey-IsMatched [] db m = m
journey-IsMatched ((env, step, before) ∷ steps) db m =
    journey-IsMatched steps (proceed env step before db) (proceed-IsMatched env step before db m)
