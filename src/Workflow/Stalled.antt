-- ===== src/Workflow/Stalled.antt =====
-- After the guide has rejected a critical version, no later version of the assignment is taken in.
use guide_os.Prelude.{
  ℕ, String, eq_iff, text_eq, number_eq, true, false, ◌≡◌, ◌≢◌, subst, inl, inr, Option, none, some,
  arith,
}
use guide_os.Errors.{ok, bind-eq-ok}
use guide_os.Platform.{Platform}
use guide_os.Identity.{validate_guide_os_id}
use guide_os.Validation.{require_nonempty}
use guide_os.Database.{Db, Assignment, CriticalDecisionType, reject_critical, find}
use guide_os.Database.Write.{answer, submit_ok}
use guide_os.Version.Intake.{
  AssignmentVersionPublishedIntake, PublishedVersion, require_int, normalize_ordinary_version,
  normalize_critical_version,
}
use guide_os.Version.Store.{version_inbox_key}
use guide_os.Version.Ordinary.{AssignmentOrdinaryVersionResult, apply_ordinary_assignment_version}
use guide_os.Version.Critical.{
  AssignmentCriticalVersionIntakeResult, intake_critical_assignment_version,
}
use guide_os.Version.Decision.{
  CriticalDecisionWrite, AssignmentCriticalVersionDecisionResult, critical_decision_plan,
  critical_decision_operation, critical_decision_of, decided_at_value, critical_decision_request,
  decide_critical_assignment_version,
}
use guide_os.Version.Effects.{CriticalOutcome, Rejects, critical_decision_effect}
use guide_os.Version.Blocked.{IsBlocked, ordinary_version_blocked, critical_version_blocked}
use guide_os.Workflow.Revision.{rejected_row, Rejects-Amends}
use guide_os.Workflow.Numbering.{IsVersioned, IsNumbered, IsNext, NumberedAt}

-- An answer before the transaction is one to a repeated decision.
plan_replays :
    (env : Platform) (identity assignment_id : String) (version_number : ℕ)
    (decision : CriticalDecisionType) (event decided_at : String) (db : Db)
    (a : AssignmentCriticalVersionDecisionResult)
    → critical_decision_plan env identity assignment_id version_number decision event decided_at db
      ≡ ok (answer a)
    → a.replayed ≡ true
unfolding critical_decision_plan
plan_replays env identity assignment_id version_number decision event decided_at db a h =
    ground arith

-- A new answer comes from the transaction.
pub not_at_once :
    (env : Platform) (guide_os_id assignment_id : String) (version_number : ℕ)
    (decision decision_event_id : String) (decided_at : Option String) (before : Db)
    (a : AssignmentCriticalVersionDecisionResult)
    → a.replayed ≡ false
    → critical_decision_request env guide_os_id assignment_id version_number decision
        decision_event_id decided_at before
      ≢ ok (answer a)
unfolding critical_decision_request
not_at_once env guide_os_id assignment_id version_number decision decision_event_id decided_at
      before a new at_once =
    let (identity, _, e1) = bind-eq-ok (validate_guide_os_id guide_os_id) _ at_once in
    let (assignment, _, e2) = bind-eq-ok (require_nonempty assignment_id) _ e1 in
    let (event, _, e3) = bind-eq-ok (require_nonempty decision_event_id) _ e2 in
    let (number, _, e4) = bind-eq-ok (require_int version_number 2) _ e3 in
    let (decided, _, e5) = bind-eq-ok (critical_decision_of decision) _ e4 in
    let (stamp, _, e6) = bind-eq-ok (decided_at_value env decided_at) _ e5 in
    let again : a.replayed ≡ true =
      plan_replays env identity assignment number decided event stamp before a e6 in
    ground (arith, new, again)

decided_newly :
    (env : Platform) (guide_os_id assignment_id : String) (version_number : ℕ)
    (decision decision_event_id : String) (decided_at : Option String) (before db db' : Db)
    (a : AssignmentCriticalVersionDecisionResult)
    → decide_critical_assignment_version env guide_os_id assignment_id version_number decision
        decision_event_id decided_at before db
      ≡ (ok a, db')
    → a.replayed ≡ false
    → (w : CriticalDecisionWrite) × (critical_decision_operation env w db ≡ ok (a, db'))
unfolding decide_critical_assignment_version
decided_newly env guide_os_id assignment_id version_number decision decision_event_id decided_at
      before db db' a h new =
    elim (submit_ok (critical_decision_operation env) env.busy _ db db' a h) [
      | inl (at_once, same) ↦ absurd (
          not_at_once env guide_os_id assignment_id version_number decision decision_event_id
            decided_at before a new at_once)
      | inr (w, plan, ran) ↦ (w, ran)
    ]

rejected-IsBlocked :
    (env : Platform) (w : CriticalDecisionWrite) (row : Assignment) (tour : ℕ) (db db' : Db)
    (event_id : String)
    → Rejects env w row tour db db'
    → IsVersioned db
    → find version_inbox_key event_id db.version_inbox ≡ none
    → IsBlocked event_id w.assignment_id (rejected_row w row) db'
rejected-IsBlocked env w row tour db db' event_id d v unseen =
    let numbered : IsNumbered w.assignment_id row db.versions =
      subst (λ a. NumberedAt w.assignment_id a db.versions) d.awaited.found (v w.assignment_id) in
    let (status, next, (snapshot, stored, severity)) : IsNext w.assignment_id row
        (some w.version_number) db.versions =
      subst (λ p. IsNext w.assignment_id row p db.versions) d.awaited.pending numbered.pending in
    record {
      found = ground (
        arith,
        (Rejects-Amends env w row tour db db' d).rows w.assignment_id,
        eq_iff w.assignment_id w.assignment_id,
      );
      snapshot = snapshot;
      stored = rw d.frame (rw (← next) stored);
      unseen = rw d.frame unseen;
    }

outcome-IsBlocked :
    (env : Platform) (w : CriticalDecisionWrite) (db db' : Db)
    (a : AssignmentCriticalVersionDecisionResult) (event_id : String)
    → CriticalOutcome env w db db' a
    → a.replayed ≡ false
    → a.decision ≡ reject_critical
    → IsVersioned db
    → find version_inbox_key event_id db.version_inbox ≡ none
    → (row : Assignment) × IsBlocked event_id a.assignment_id row db'
outcome-IsBlocked env w db db' a event_id (CriticalOutcome.replay same again) new rejects v unseen =
    absurd (ground (arith, new, again))
outcome-IsBlocked env w db db' a event_id (CriticalOutcome.rejection row tour rejected d answered)
      new rejects v unseen =
    (rejected_row w row, rw answered (rejected-IsBlocked env w row tour db db' event_id d v unseen))
outcome-IsBlocked env w db db' a event_id
      (CriticalOutcome.confirmation row tour working_package proposed start_date end_date confirms d
        answered)
      new rejects v unseen =
    absurd (ground (arith, answered, confirms, rejects))

module _ (env : Platform) (guide_os_id assignment_id : String) (version_number : ℕ)
    (decision decision_event_id : String) (decided_at : Option String) (before db db' : Db)
    (a : AssignmentCriticalVersionDecisionResult)
    (h : decide_critical_assignment_version env guide_os_id assignment_id version_number decision
        decision_event_id decided_at before db
      ≡ (ok a, db'))
    (new : a.replayed ≡ false) (rejects : a.decision ≡ reject_critical) (v : IsVersioned db)
    (later : Platform) (event : AssignmentVersionPublishedIntake) (n : PublishedVersion) (read : Db)
    (addressed : n.assignment_id ≡ a.assignment_id)
    (unseen : find version_inbox_key n.event_id db.version_inbox ≡ none)
    (unread : find version_inbox_key n.event_id read.version_inbox ≡ none) where
  stalls : (row : Assignment) × IsBlocked n.event_id n.assignment_id row db'
  stalls =
      let (w, ran) =
        decided_newly env guide_os_id assignment_id version_number decision decision_event_id
          decided_at before db db' a h new in
      rw addressed (
        outcome-IsBlocked env w db db' a n.event_id (critical_decision_effect env w db db' a ran)
          new rejects v unseen)

  -- In the state that a new rejection of a critical version leaves, an ordinary version of the
  -- same assignment is refused, whatever its number, when its event id is new to the inbox: the
  -- rejected version keeps the only number that is allowed.
  pub rejection_stalls_ordinary :
      normalize_ordinary_version later event ≡ ok n
      → (r : AssignmentOrdinaryVersionResult) (after : Db)
      → apply_ordinary_assignment_version later event read db' ≢ (ok r, after)
  rejection_stalls_ordinary normal r after =
      ordinary_version_blocked later event n stalls.0 read db' stalls.1 unread normal r after

  -- In the state that a new rejection of a critical version leaves, another critical version of
  -- the same assignment is refused, whatever its number, when its event id is new to the inbox.
  pub rejection_stalls_critical :
      normalize_critical_version later event ≡ ok n
      → (r : AssignmentCriticalVersionIntakeResult) (after : Db)
      → intake_critical_assignment_version later event read db' ≢ (ok r, after)
  rejection_stalls_critical normal r after =
      critical_version_blocked later event n stalls.0 read db' stalls.1 unread normal r after
