-- ===== src/Version/Blocked.antt =====
-- When no further version can be published: while one with the next number is stored, be it
-- pending or rejected.
use guide_os.Prelude.{
  suc, String, eqb_iff, text_eq, number_eq, ◌≡◌, ◌≢◌, inl, inr, none, some, arith,
}
use guide_os.Errors.{ok}
use guide_os.Platform.{Platform}
use guide_os.Database.{Db, Assignment, AssignmentVersion, find}
use guide_os.Database.Write.{answer, write, submit_ok}
use guide_os.Assignment.Store.{assignment_key, find_version}
use guide_os.Version.Intake.{
  AssignmentVersionPublishedIntake, PublishedVersion, normalize_ordinary_version,
  normalize_critical_version,
}
use guide_os.Version.Store.{version_inbox_key}
use guide_os.Version.Ordinary.{
  AssignmentOrdinaryVersionResult, ordinary_plan, ordinary_operation, ordinary_request,
  ordinary_write, apply_ordinary_assignment_version,
}
use guide_os.Version.Critical.{
  AssignmentCriticalVersionIntakeResult, critical_plan, critical_operation, critical_request,
  critical_write, intake_critical_assignment_version,
}

-- The snapshot with the number after the active one is stored, and the event is a new one.
pub record IsBlocked (event_id assignment_id : String) (row : Assignment) (db : Db) : Type 0 where
  pub found : find assignment_key assignment_id db.assignments ≡ some row
  pub snapshot : AssignmentVersion
  pub stored :
      find_version assignment_id (suc row.active_version_number) db.versions ≡ some snapshot
  pub unseen : find version_inbox_key event_id db.version_inbox ≡ none

module _ (env : Platform) (h : String) (n : PublishedVersion) (row : Assignment) (db : Db)
    (b : IsBlocked n.event_id n.assignment_id row db) where
  ordinary_blocked :
      (a : AssignmentOrdinaryVersionResult) (db' : Db) → ordinary_operation env h n db ≢ ok (a, db')
  unfolding ordinary_operation
  ordinary_blocked a db' e = ground (
    arith,
    b.found,
    b.stored,
    b.unseen,
    eqb_iff n.previous_active row.active_version_number,
    eqb_iff n.version_number (suc row.active_version_number),
  )

  critical_blocked :
      (a : AssignmentCriticalVersionIntakeResult) (db' : Db)
      → critical_operation env h n db ≢ ok (a, db')
  unfolding critical_operation
  critical_blocked a db' e = ground (
    arith,
    b.found,
    b.stored,
    b.unseen,
    eqb_iff n.previous_active row.active_version_number,
    eqb_iff n.version_number (suc row.active_version_number),
  )

ordinary_request-planned :
    (env : Platform) (event : AssignmentVersionPublishedIntake) (n : PublishedVersion) (before : Db)
    → normalize_ordinary_version env event ≡ ok n
    → find version_inbox_key n.event_id before.version_inbox ≡ none
    → ((a : AssignmentOrdinaryVersionResult) → ordinary_request env event before ≢ ok (answer a))
      × ((p : String × PublishedVersion)
          → ordinary_request env event before ≡ ok (write p)
          → p.1 ≡ n)
unfolding ordinary_request ordinary_plan
ordinary_request-planned env event n before normal unseen =
    (λ a e. ground arith, λ p e. ground arith)

critical_request-planned :
    (env : Platform) (event : AssignmentVersionPublishedIntake) (n : PublishedVersion) (before : Db)
    → normalize_critical_version env event ≡ ok n
    → find version_inbox_key n.event_id before.version_inbox ≡ none
    → ((a : AssignmentCriticalVersionIntakeResult)
        → critical_request env event before ≢ ok (answer a))
      × ((p : String × PublishedVersion)
          → critical_request env event before ≡ ok (write p)
          → p.1 ≡ n)
unfolding critical_request critical_plan
critical_request-planned env event n before normal unseen =
    (λ a e. ground arith, λ p e. ground arith)

module _ (env : Platform) (event : AssignmentVersionPublishedIntake) (n : PublishedVersion)
    (row : Assignment) (before db : Db) (b : IsBlocked n.event_id n.assignment_id row db)
    (unseen : find version_inbox_key n.event_id before.version_inbox ≡ none) where
  -- While a version with the number after the active one is stored, and an event is new to the
  -- inbox, no call of `apply_ordinary_assignment_version` on it answers.
  pub ordinary_version_blocked :
      normalize_ordinary_version env event ≡ ok n
      → (a : AssignmentOrdinaryVersionResult) (db' : Db)
      → apply_ordinary_assignment_version env event before db ≢ (ok a, db')
  unfolding apply_ordinary_assignment_version
  ordinary_version_blocked normal a db' e =
      let (unanswered, planned) = ordinary_request-planned env event n before normal unseen in
      elim (submit_ok (ordinary_write env) env.busy (ordinary_request env event before) db db' a
        e) [
          | inl (at_once, same) ↦ absurd (unanswered a at_once)
          | inr ((h, m), plan, ran) ↦
              absurd (ordinary_blocked env h n row db b a db' (rw (← planned (h, m) plan) ran))
        ]

  pub critical_version_blocked :
      normalize_critical_version env event ≡ ok n
      → (a : AssignmentCriticalVersionIntakeResult) (db' : Db)
      → intake_critical_assignment_version env event before db ≢ (ok a, db')
  unfolding intake_critical_assignment_version
  critical_version_blocked normal a db' e =
      let (unanswered, planned) = critical_request-planned env event n before normal unseen in
      elim (submit_ok (critical_write env) env.busy (critical_request env event before) db db' a
        e) [
          | inl (at_once, same) ↦ absurd (unanswered a at_once)
          | inr ((h, m), plan, ran) ↦
              absurd (critical_blocked env h n row db b a db' (rw (← planned (h, m) plan) ran))
        ]
