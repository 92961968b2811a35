-- ===== src/Workflow/Moves.antt =====
-- What a newly confirmed critical version has done to the row and to the calendar.
use guide_os.Prelude.{
  ℕ, String, eq_iff, eqb_iff, text_eq, number_eq, false, ◌≡◌, ◌≢◌, refl, inl, inr, Option, none,
  some, arith, Option-cases,
}
use guide_os.Errors.{ok, bind-eq-ok}
use guide_os.Platform.{Platform}
use guide_os.Json.{Fields}
use guide_os.Identity.{validate_guide_os_id}
use guide_os.Validation.{require_nonempty}
use guide_os.Database.{
  Db, Assignment, accepted, Tour, User, CriticalDecisionType, confirm_critical, find, find-modify,
}
use guide_os.Database.Write.{write, submit_ok}
use guide_os.Calendar.Free.{IsFree}
use guide_os.Calendar.Spared.{without, calendar_conflicts-spared_iff}
use guide_os.Connection.Invite.{guide_key}
use guide_os.Assignment.Store.{assignment_key, tour_key}
use guide_os.Assignment.Projection.{IsProjected, Shows, accepted-Shows}
use guide_os.Version.Intake.{require_int}
use guide_os.Version.Projection.{reschedule}
use guide_os.Version.Decision.{
  CriticalDecisionWrite, AssignmentCriticalVersionDecisionResult, ProposedOccupancy, decided_answer,
  critical_decision_plan, critical_decision_operation, critical_decision_of, decided_at_value,
  critical_labels, critical_decision_request, decide_critical_assignment_version,
}
use guide_os.Version.Effects.{CriticalOutcome, Confirms, critical_decision_effect}
use guide_os.Workflow.Revision.{confirmed_row, Confirms-Amends}
use guide_os.Workflow.Stalled.{not_at_once}

-- The pending version is active, and the row and its protected entry stand on new days, which no
-- other entry of the guide covered in the locked calendar.
pub record Moves (before db db' : Db) (a : AssignmentCriticalVersionDecisionResult) : Type 0 where
  pub row : Assignment
  pub row' : Assignment
  pub tour : ℕ
  pub entry : Tour
  pub entry' : Tour
  pub user : User
  pub guide : find guide_key a.guide_os_id before.users ≡ some user
  pub found : find assignment_key a.assignment_id db.assignments ≡ some row
  pub linked : row.projection_tour_id ≡ some tour
  pub awaited : row.pending_critical_version_number ≡ some a.version_number
  pub present : find tour_key tour db.tours ≡ some entry
  pub free : IsFree user.user_id entry'.start_date entry'.end_date (without tour db.tours)
  pub found' : find assignment_key a.assignment_id db'.assignments ≡ some row'
  pub linked' : row'.projection_tour_id ≡ some tour
  pub active : row'.active_version_number ≡ a.version_number
  pub settled : row'.pending_critical_version_number ≡ none
  pub present' : find tour_key tour db'.tours ≡ some entry'
  pub starts : row'.start_date ≡ entry'.start_date
  pub ends : row'.end_date ≡ entry'.end_date
  pub owner : entry'.user_id ≡ entry.user_id

module _ (env : Platform) (identity assignment_id : String) (version_number : ℕ)
    (decision : CriticalDecisionType) (event decided_at : String) (before : Db)
    (w : CriticalDecisionWrite)
    (h : critical_decision_plan env identity assignment_id version_number decision event decided_at
        before
      ≡ ok (write w)) where
  planned_values :
      (user : User)
      → find guide_key identity before.users ≡ some user
      → (w.identity ≡ identity) × (user.user_id ≡ w.user_id)
  unfolding critical_decision_plan
  planned_values user known = ground arith

  planned_known : find guide_key identity before.users ≢ none
  unfolding critical_decision_plan
  planned_known unknown = ground arith

  -- The user whose days are checked is the one found for the guide's id.
  planned_user :
      (user : User) × (find guide_key w.identity before.users ≡ some user)
      × (user.user_id ≡ w.user_id)
  planned_user = elim (Option-cases (find guide_key identity before.users)) [
    | inl unknown ↦ absurd (planned_known unknown)
    | inr (user, known) ↦
        let (same, number) = planned_values user known in (user, rw same known, number)
  ]

-- The same, of the whole call.
decided_user :
    (env : Platform) (guide_os_id assignment_id : String) (version_number : ℕ)
    (decision decision_event_id : String) (decided_at : Option String) (before db db' : Db)
    (a : AssignmentCriticalVersionDecisionResult)
    → decide_critical_assignment_version env guide_os_id assignment_id version_number decision
        decision_event_id decided_at before db
      ≡ (ok a, db')
    → a.replayed ≡ false
    → (w : CriticalDecisionWrite) × (critical_decision_operation env w db ≡ ok (a, db'))
      × ((user : User) × (find guide_key w.identity before.users ≡ some user)
          × (user.user_id ≡ w.user_id))
unfolding decide_critical_assignment_version critical_decision_request
decided_user env guide_os_id assignment_id version_number decision decision_event_id decided_at
      before db db' a h new =
    elim (submit_ok (critical_decision_operation env) env.busy _ db db' a h) [
      | inl (at_once, same) ↦ absurd (
          not_at_once env guide_os_id assignment_id version_number decision decision_event_id
            decided_at before a new at_once)
      | inr (w, plan, ran) ↦
          let (identity, _, e1) = bind-eq-ok (validate_guide_os_id guide_os_id) _ plan in
          let (assignment, _, e2) = bind-eq-ok (require_nonempty assignment_id) _ e1 in
          let (event, _, e3) = bind-eq-ok (require_nonempty decision_event_id) _ e2 in
          let (number, _, e4) = bind-eq-ok (require_int version_number 2) _ e3 in
          let (decided, _, e5) = bind-eq-ok (critical_decision_of decision) _ e4 in
          let (stamp, _, e6) = bind-eq-ok (decided_at_value env decided_at) _ e5 in
          (w, ran, planned_user env identity assignment number decided event stamp before w e6)
    ]

Confirms-Moves :
    (env : Platform) (w : CriticalDecisionWrite) (row : Assignment) (tour : ℕ)
    (working_package : Fields) (proposed : ProposedOccupancy) (start_date end_date : ℕ)
    (before db db' : Db) (a : AssignmentCriticalVersionDecisionResult) (user : User)
    → find guide_key w.identity before.users ≡ some user
    → user.user_id ≡ w.user_id
    → IsProjected db
    → Confirms env w row tour working_package proposed start_date end_date db db'
    → a ≡ decided_answer w tour w.version_number accepted
    → Moves before db db' a
Confirms-Moves env w row tour working_package proposed start_date end_date before db db' a user
      known number p d answered =
    let s : Shows w.assignment_id row db.tours =
      accepted-Shows w.assignment_id row db d.awaited.was_accepted d.awaited.found p in
    rw answered (record {
      row = row;
      row' = confirmed_row w proposed.role start_date end_date row;
      tour = tour;
      entry = s.tour;
      entry' = reschedule (critical_labels env row working_package) start_date end_date s.tour;
      user = user;
      guide = known;
      found = d.awaited.found;
      linked = d.linked;
      awaited = d.awaited.pending;
      present = ground (arith, s.linked, s.present, d.linked);
      free =
          rw number
            ((calendar_conflicts-spared_iff tour w.user_id start_date end_date db.tours).0 d.free);
      found' = ground (
        arith,
        (Confirms-Amends env w row tour working_package proposed start_date end_date db db' d).rows
            w.assignment_id,
        eq_iff w.assignment_id w.assignment_id,
      );
      linked' = d.linked;
      active = refl;
      settled = refl;
      present' = rw d.frame (
          ground (
            arith,
            find-modify tour_key tour tour
                (reschedule (critical_labels env row working_package) start_date end_date) db.tours
                (λ t. refl),
            eqb_iff tour tour,
            s.linked,
            s.present,
            d.linked,
          ));
      starts = refl;
      ends = refl;
      owner = refl;
    })

outcome-Moves :
    (env : Platform) (w : CriticalDecisionWrite) (before db db' : Db)
    (a : AssignmentCriticalVersionDecisionResult) (user : User)
    → find guide_key w.identity before.users ≡ some user
    → user.user_id ≡ w.user_id
    → IsProjected db
    → CriticalOutcome env w db db' a
    → a.replayed ≡ false
    → a.decision ≡ confirm_critical
    → Moves before db db' a
outcome-Moves env w before db db' a user known number p (CriticalOutcome.replay same again) new
      confirms =
    absurd (ground (arith, new, again))
outcome-Moves env w before db db' a user known number p
      (CriticalOutcome.rejection row tour rejected d answered) new confirms =
    absurd (ground (arith, answered, confirms, rejected))
outcome-Moves env w before db db' a user known number p
      (CriticalOutcome.confirmation row tour working_package proposed start_date end_date confirmed
        d answered)
      new confirms =
    Confirms-Moves env w row tour working_package proposed start_date end_date before db db' a user
      known number p d answered

-- A new confirmation of a critical version, in a database where the accepted assignments have
-- their protected entries, makes that version the active one with nothing pending, and moves the
-- entry and the row to the same days; the guide had no other entry on them when the calendar was
-- locked, whatever the first reads had seen of it.
pub decide_critical_assignment_version-Moves :
    (env : Platform) (guide_os_id assignment_id : String) (version_number : ℕ)
    (decision decision_event_id : String) (decided_at : Option String) (before db db' : Db)
    (a : AssignmentCriticalVersionDecisionResult)
    → decide_critical_assignment_version env guide_os_id assignment_id version_number decision
        decision_event_id decided_at before db
      ≡ (ok a, db')
    → a.replayed ≡ false
    → a.decision ≡ confirm_critical
    → IsProjected db
    → Moves before db db' a
decide_critical_assignment_version-Moves env guide_os_id assignment_id version_number decision
      decision_event_id decided_at before db db' a h new confirms p =
    let (w, ran, (user, known, number)) =
      decided_user env guide_os_id assignment_id version_number decision decision_event_id
        decided_at before db db' a h new in
    outcome-Moves env w before db db' a user known number p
      (critical_decision_effect env w db db' a ran) new confirms
