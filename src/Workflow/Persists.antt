-- ===== src/Workflow/Persists.antt =====
-- What a sequence of calls, those on published versions included, does to one row.
use guide_os.Prelude.{
  String, ◌==◌, eq_iff, text_eq, number_eq, ◌≡◌, refl, ◌∙◌, inl, inr, Option, none, some,
  Bool-cases, List, [], ◌∷◌,
}
use guide_os.Platform.{Platform}
use guide_os.Database.{Db, Assignment, find}
use guide_os.Database.Write.{submit_rule}
use guide_os.Connection.Intake.{connection_key}
use guide_os.Connection.Lifecycle as ConnectionLifecycle
use guide_os.Assignment.Store.{assignment_key}
use guide_os.Assignment.Lifecycle as AssignmentLifecycle
use guide_os.Assignment.Lifecycle.{Leads, Leads-refl, Leads-trans}
use guide_os.Version.Ordinary.{ordinary_write, apply_ordinary_assignment_version}
use guide_os.Version.Critical.{critical_write, intake_critical_assignment_version}
use guide_os.Version.Decision.{
  CriticalDecisionWrite, AssignmentCriticalVersionDecisionResult, critical_decision_operation,
  decide_critical_assignment_version,
}
use guide_os.Version.Acknowledge.{acknowledge_operation, acknowledge_ordinary_version}
use guide_os.Version.Effects.{
  CriticalOutcome, ordinary_effect, critical_effect, critical_decision_effect, acknowledge_effect,
}
use guide_os.Workflow.Amend.{Amends}
use guide_os.Workflow.Revision.{
  Publishes-Amends, Pends-Amends, Acknowledges-Amends, Rejects-Amends, Confirms-Amends,
}
use guide_os.Workflow.History.{perform-Continues}
use guide_os.Workflow.Journey.{
  Step, call, ordinary_version, critical_version, critical_decision, acknowledgement, proceed,
  journey,
}

-- The row of one id before and after: it never vanishes, keeps whom it binds, and moves only to a
-- state that may follow its own.
abbrev pub Stays : Option Assignment → Option Assignment → Type 0
Stays none b = Unit
Stays (some a) none = ⊥
Stays (some a) (some b) =
    Leads a.status b.status
    × (b.guide_os_id ≡ a.guide_os_id)
    × (b.company_id ≡ a.company_id)
    × (b.guide_connection_id ≡ a.guide_connection_id)

-- So it is for every assignment, and for every connection.
pub record Persists (db db' : Db) : Type 0 where
  pub assignments :
      (k : String)
      → Stays (find assignment_key k db.assignments) (find assignment_key k db'.assignments)
  pub connections : ConnectionLifecycle.Continues db db'

Stays-refl : (a : Option Assignment) → Stays a a
Stays-refl none = tt
Stays-refl (some a) = (Leads-refl a.status, refl, refl, refl)

Stays-trans : (a b c : Option Assignment) → Stays a b → Stays b c → Stays a c
Stays-trans none b c h k = tt
Stays-trans (some a) (some b) (some c) (leads, g, o, n) (leads', g', o', n') =
    (Leads-trans a.status b.status c.status leads leads', g' ∙ g, o' ∙ o, n' ∙ n)
Stays-trans (some a) (some b) none h k = k
Stays-trans (some a) none c h k = absurd h

Evolves-Stays : (a b : Option Assignment) → AssignmentLifecycle.Evolves a b → Stays a b
Evolves-Stays none b h = tt
Evolves-Stays (some a) none h = h
Evolves-Stays (some a) (some b) h = (h.leads, h.guide, h.company, h.connection)

Persists-refl : (db : Db) → Persists db db
Persists-refl db = record {
  assignments = λ k. Stays-refl (find assignment_key k db.assignments);
  connections = λ k. ConnectionLifecycle.Evolves-refl (find connection_key k db.connections);
}

amended-Persists :
    (id : String) (row row' : Assignment) (db db' : Db)
    → Amends id row row' db db'
    → Persists db db'
amended-Persists id row row' db db' m = record {
  assignments = λ k. rw (m.rows k) (elim (Bool-cases (id == k)) [
    | inl hit ↦ rw hit (
        rw (← (eq_iff id k).0 hit)
          (rw m.found (rw m.status (Leads-refl row.status, m.guide, m.company, m.connection))))
    | inr miss ↦ rw miss (Stays-refl (find assignment_key k db.assignments))
  ]);
  connections = λ k.
      rw m.connections (ConnectionLifecycle.Evolves-refl (find connection_key k db.connections));
}

critical_outcome-Persists :
    (env : Platform) (w : CriticalDecisionWrite) (db db' : Db)
    (a : AssignmentCriticalVersionDecisionResult)
    → CriticalOutcome env w db db' a
    → Persists db db'
critical_outcome-Persists env w db db' a (CriticalOutcome.replay same again) =
    rw same (Persists-refl db)
critical_outcome-Persists env w db db' a (CriticalOutcome.rejection row tour rejects d answered) =
    amended-Persists _ _ _ db db' (Rejects-Amends env w row tour db db' d)
critical_outcome-Persists env w db db' a
      (CriticalOutcome.confirmation row tour working_package proposed start_date end_date confirms d
        answered) =
    amended-Persists _ _ _ db db'
      (Confirms-Amends env w row tour working_package proposed start_date end_date db db' d)

proceed-Persists :
    (env : Platform) (step : Step) (before db : Db) → Persists db (proceed env step before db)
unfolding apply_ordinary_assignment_version intake_critical_assignment_version
    decide_critical_assignment_version acknowledge_ordinary_version
proceed-Persists env (call c) before db =
    let both = perform-Continues env c before db in
    record { assignments = λ k. Evolves-Stays _ _ (both.1 k); connections = both.0 }
proceed-Persists env (ordinary_version event) before db =
    submit_rule (ordinary_write env) (Persists db) env.busy _ db (Persists-refl db)
      (λ (h, n) a db' planned e. elim (ordinary_effect env h n db db' a e) [
        | inl same ↦ rw same (Persists-refl db)
        | inr (row, tour, w) ↦
            amended-Persists _ _ _ db db' (Publishes-Amends env h n row tour db db' w)
      ])
proceed-Persists env (critical_version event) before db =
    submit_rule (critical_write env) (Persists db) env.busy _ db (Persists-refl db)
      (λ (h, n) a db' planned e. elim (critical_effect env h n db db' a e) [
        | inl same ↦ rw same (Persists-refl db)
        | inr (row, w) ↦ amended-Persists _ _ _ db db' (Pends-Amends env h n row db db' w)
      ])
proceed-Persists env (critical_decision guide assignment version decision event decided_at) before
      db =
    submit_rule (critical_decision_operation env) (Persists db) env.busy _ db (Persists-refl db)
      (λ w a db' planned e.
        critical_outcome-Persists env w db db' a (critical_decision_effect env w db db' a e))
proceed-Persists env (acknowledgement guide assignment version event acknowledged_at) before db =
    submit_rule (acknowledge_operation env) (Persists db) env.busy _ db (Persists-refl db)
      (λ w a db' planned e. elim (acknowledge_effect env w db db' a e) [
        | inl same ↦ rw same (Persists-refl db)
        | inr (row, version, d) ↦
            amended-Persists _ _ _ db db' (Acknowledges-Amends env w row version db db' d)
      ])

-- Over any sequence of calls of both services and on published versions no connection and no
-- assignment vanishes, each keeps whom it binds, and each moves only to states that may follow its
-- own: declined, disconnected, cancelled, withdrawn and expired are final, confirmed leads only to
-- disconnected, accepted only to cancelled.
pub journey-Persists :
    (steps : List (Platform × Step × Db)) (db : Db) → Persists db (journey steps db)
unfolding journey
journey-Persists [] db = Persists-refl db
journey-Persists ((env, step, before) ∷ steps) db =
    let mid : Db = proceed env step before db in
    let end : Db = journey steps mid in
    let first : Persists db mid = proceed-Persists env step before db in
    let rest : Persists mid end = journey-Persists steps mid in
    record {
      assignments = λ k.
          Stays-trans (find assignment_key k db.assignments) (find assignment_key k mid.assignments)
            (find assignment_key k end.assignments) (first.assignments k) (rest.assignments k);
      connections = λ k.
          ConnectionLifecycle.Evolves-trans (find connection_key k db.connections)
            (find connection_key k mid.connections) (find connection_key k end.connections)
            (first.connections k) (rest.connections k);
    }
