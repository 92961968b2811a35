-- ===== src/Version/Effects/Decided.antt =====
-- What the transaction of `decide_critical_assignment_version` writes.
use guide_os.Prelude.{
  ◌+◌, String, eq_iff, eqb_iff, text_eq, number_eq, ◌≡◌, refl, ◌⊎◌, inl, inr, none, some, true, [],
  ◌∷◌, arith, Option-cases, ℕ,
}
use guide_os.Json.{Fields}
use guide_os.Errors.{ok, Result-cases, bind-eq-ok}
use guide_os.Platform.{Platform}
use guide_os.Database.{
  Db, Assignment, accepted, CriticalDecisionType, confirm_critical, reject_critical, find, modify,
}
use guide_os.Calendar.{calendar_conflicts}
use guide_os.Outbox.{outbox_row, outbox_event_key, insert_outbox}
use guide_os.Assignment.Store.{assignment_key, tour_key}
use guide_os.Version.Store.{find_critical_decision, insert_critical_decision}
use guide_os.Version.Projection.{occupancy, reschedule, update_projection}
use guide_os.Version.Effects.Published.{update_projection_frame}
use guide_os.Version.Decision.{
  CriticalDecisionWrite, AssignmentCriticalVersionDecisionResult, ProposedOccupancy,
  critical_decision_row, decided_answer, clear_pending, activate_critical, decided_payload,
  proposed_day, pending_package, proposed_days, critical_labels, reject_pending, activate_pending,
  write_critical_decision, critical_decision_operation,
}

-- The row that a decision on a critical version meets.
pub record Awaits (w : CriticalDecisionWrite) (row : Assignment) (db : Db) : Type 0 where
  pub found : find assignment_key w.assignment_id db.assignments ≡ some row
  pub guide : row.guide_os_id ≡ w.identity
  pub was_accepted : row.status ≡ accepted
  pub pending : row.pending_critical_version_number ≡ some w.version_number
  pub undecided :
      find_critical_decision w.assignment_id w.version_number db.critical_decisions ≡ none

module _ (env : Platform) where
  -- The database once the decision is recorded and reported.
  abbrev pub reported : CriticalDecisionWrite → ℕ → ℕ → Db → Db
  reported w tour active db = record db {
    critical_decisions = critical_decision_row w ∷ db.critical_decisions;
    outbox =
        outbox_row (db.outbox_sequence + 1) w.decision_event_id
          "assignment.critical_version.decided.v1" "guide_assignment" w.assignment_id w.identity
          (env.dumps (decided_payload w tour active)) w.decided_at
        ∷ db.outbox;
    outbox_sequence = db.outbox_sequence + 1;
  }

  -- The pending version has been rejected: the row no longer waits, and nothing else changes.
  pub record Rejects (w : CriticalDecisionWrite) (row : Assignment) (tour : ℕ) (db db' : Db)
      : Type 0 where
    pub awaited : Awaits w row db
    pub linked : row.projection_tour_id ≡ some tour
    pub unsent : find outbox_event_key w.decision_event_id db.outbox ≡ none
    pub frame :
        db'
        ≡ reported w tour row.active_version_number (record db {
          assignments = modify assignment_key w.assignment_id (clear_pending w) db.assignments;
        })

  -- The pending version has been confirmed: on free days the calendar entry moves to the proposed
  -- ones, and the row with it.
  pub record Confirms (w : CriticalDecisionWrite) (row : Assignment) (tour : ℕ)
      (working_package : Fields) (proposed : ProposedOccupancy) (start_date end_date : ℕ)
      (db db' : Db) : Type 0 where
    pub awaited : Awaits w row db
    pub linked : row.projection_tour_id ≡ some tour
    pub snapshot :
        pending_package env w.identity w.assignment_id w.version_number db
        ≡ ok (working_package, proposed)
    pub starts : proposed_day env proposed.start_date ≡ ok start_date
    pub ends : proposed_day env proposed.end_date ≡ ok end_date
    pub free : calendar_conflicts w.user_id start_date end_date (some tour) db.tours ≡ []
    pub unsent : find outbox_event_key w.decision_event_id db.outbox ≡ none
    pub frame :
        db'
        ≡ reported w tour w.version_number (record db {
          tours =
              modify tour_key tour
                (reschedule (critical_labels env row working_package) start_date end_date)
                db.tours;
          assignments =
              modify assignment_key w.assignment_id
                (activate_critical w proposed.role start_date end_date row.active_version_number)
                db.assignments;
        })

  reject_pending_frame :
      (w : CriticalDecisionWrite) (row : Assignment) (db db' : Db) (active : ℕ)
      → reject_pending env w row db ≡ ok (active, db')
      → (active ≡ row.active_version_number)
        × (db' ≡ record db {
          assignments = modify assignment_key w.assignment_id (clear_pending w) db.assignments;
        })
  unfolding reject_pending
  reject_pending_frame w row db db' active h = ground arith

  activate_pending_frame :
      (w : CriticalDecisionWrite) (row : Assignment) (tour : ℕ) (working_package : Fields)
      (role : String) (start_date end_date : ℕ) (db db' : Db) (active : ℕ)
      → activate_pending env w row tour working_package role (start_date, end_date) db
        ≡ ok (active, db')
      → (active ≡ w.version_number)
        × (db' ≡ record db {
          tours =
              modify tour_key tour
                (reschedule (critical_labels env row working_package) start_date end_date)
                db.tours;
          assignments =
              modify assignment_key w.assignment_id
                (activate_critical w role start_date end_date row.active_version_number)
                db.assignments;
        })
  unfolding activate_pending
  activate_pending_frame w row tour working_package role start_date end_date db db' active h =
      let change = reschedule (critical_labels env row working_package) start_date end_date in
      let (moved, ran, rest) = bind-eq-ok (update_projection occupancy tour change db) _ h in
      ground (arith, update_projection_frame occupancy tour change db moved)

  proposed_days_free :
      (user tour start_date end_date : ℕ) (proposed : ProposedOccupancy) (db : Db)
      → proposed_days env user proposed tour db ≡ ok (start_date, end_date)
      → (proposed_day env proposed.start_date ≡ ok start_date)
        × (proposed_day env proposed.end_date ≡ ok end_date)
        × (calendar_conflicts user start_date end_date (some tour) db.tours ≡ [])
  unfolding proposed_days
  proposed_days_free user tour start_date end_date proposed db h = ground arith

  decision_branches :
      (w : CriticalDecisionWrite) (row : Assignment) (db db' : Db)
      (a : AssignmentCriticalVersionDecisionResult)
      → find assignment_key w.assignment_id db.assignments ≡ some row
      → critical_decision_operation env w db ≡ ok (a, db')
      → ((db' ≡ db) × (a.replayed ≡ true))
        ⊎ (Awaits w row db × (write_critical_decision env w row db ≡ ok (a, db')))
  unfolding critical_decision_operation
  decision_branches w row db db' a found h =
      elim (Option-cases row.pending_critical_version_number) [
        | inl idle ↦ inl (ground (arith, eq_iff row.guide_os_id w.identity))
        | inr (p, pending) ↦
            ground (arith, eq_iff row.guide_os_id w.identity, eqb_iff p w.version_number)
      ]

  -- The state in which a decision changes the row.
  abbrev decided : CriticalDecisionWrite → Db → Db
  decided w db = record db { critical_decisions = critical_decision_row w ∷ db.critical_decisions }

  module _ (w : CriticalDecisionWrite) (row : Assignment) (tour : ℕ) (db db' : Db)
      (a : AssignmentCriticalVersionDecisionResult) (awaited : Awaits w row db)
      (linked : row.projection_tour_id ≡ some tour)
      (h : write_critical_decision env w row db ≡ ok (a, db')) where
    rejection_effect :
        (working_package : Fields) (proposed : ProposedOccupancy) (active : ℕ) (mid : Db)
        → w.decision ≡ reject_critical
        → pending_package env w.identity w.assignment_id w.version_number db
          ≡ ok (working_package, proposed)
        → reject_pending env w row (decided w db) ≡ ok (active, mid)
        → Rejects w row tour db db' × (a ≡ decided_answer w tour row.active_version_number accepted)
    unfolding write_critical_decision insert_critical_decision insert_outbox
    rejection_effect working_package proposed active mid rejects snapshot ran =
        ground (arith, reject_pending_frame w row (decided w db) mid active)

    confirmation_effect :
        (working_package : Fields) (proposed : ProposedOccupancy) (start_date end_date active : ℕ)
        (mid : Db)
        → w.decision ≡ confirm_critical
        → pending_package env w.identity w.assignment_id w.version_number db
          ≡ ok (working_package, proposed)
        → proposed_days env w.user_id proposed tour db ≡ ok (start_date, end_date)
        → activate_pending env w row tour working_package proposed.role
            (start_date, end_date)
            (decided w db)
          ≡ ok (active, mid)
        → Confirms w row tour working_package proposed start_date end_date db db'
          × (a ≡ decided_answer w tour w.version_number accepted)
    unfolding write_critical_decision insert_critical_decision insert_outbox
    confirmation_effect working_package proposed start_date end_date active mid confirms snapshot
          days ran =
        ground (
          arith,
          activate_pending_frame w row tour working_package proposed.role start_date end_date
              (decided w db) mid active,
          proposed_days_free w.user_id tour start_date end_date proposed db,
        )

  -- What a decision on a critical version has done: nothing, for a repeated one; or the one or the
  -- other on the pending version.
  pub data CriticalOutcome (w : CriticalDecisionWrite) (db db' : Db)
      (a : AssignmentCriticalVersionDecisionResult) : Type 0 where
    replay : db' ≡ db → a.replayed ≡ true → CriticalOutcome w db db' a
    rejection :
        (row : Assignment) (tour : ℕ)
        → w.decision ≡ reject_critical
        → Rejects w row tour db db'
        → a ≡ decided_answer w tour row.active_version_number accepted
        → CriticalOutcome w db db' a
    confirmation :
        (row : Assignment) (tour : ℕ) (working_package : Fields) (proposed : ProposedOccupancy)
        (start_date end_date : ℕ)
        → w.decision ≡ confirm_critical
        → Confirms w row tour working_package proposed start_date end_date db db'
        → a ≡ decided_answer w tour w.version_number accepted
        → CriticalOutcome w db db' a

  module _ (w : CriticalDecisionWrite) (row : Assignment) (tour : ℕ) (db db' : Db)
      (a : AssignmentCriticalVersionDecisionResult) (awaited : Awaits w row db)
      (linked : row.projection_tour_id ≡ some tour) (working_package : Fields)
      (proposed : ProposedOccupancy)
      (snapshot : pending_package env w.identity w.assignment_id w.version_number db
        ≡ ok (working_package, proposed))
      (h : write_critical_decision env w row db ≡ ok (a, db')) where
    rejection_outcome : w.decision ≡ reject_critical → CriticalOutcome w db db' a
    unfolding write_critical_decision insert_critical_decision
    rejection_outcome rejects = elim (Result-cases (reject_pending env w row (decided w db))) [
      | inl ((active, mid), ran) ↦
          let (done, answered) =
            rejection_effect w row tour db db' a awaited linked h working_package proposed active
              mid rejects snapshot ran in
          CriticalOutcome.rejection row tour rejects done answered
      | inr (x, failed) ↦ absurd (ground arith)
    ]

    confirmation_outcome : w.decision ≡ confirm_critical → CriticalOutcome w db db' a
    unfolding write_critical_decision insert_critical_decision
    confirmation_outcome confirms =
        elim (Result-cases (proposed_days env w.user_id proposed tour db)) [
          | inl ((start_date, end_date), days) ↦
              elim (Result-cases (
                activate_pending env w row tour working_package proposed.role (start_date, end_date)
                  (decided w db))) [
                    | inl ((active, mid), ran) ↦
                        let (done, answered) =
                          confirmation_effect w row tour db db' a awaited linked h working_package
                            proposed start_date end_date active mid confirms snapshot days ran in
                        CriticalOutcome.confirmation row tour working_package proposed start_date
                          end_date confirms done answered
                    | inr (x, failed) ↦ absurd (ground arith)
                  ]
          | inr (x, failed) ↦ absurd (ground arith)
        ]

    decided_outcome : (d : CriticalDecisionType) → w.decision ≡ d → CriticalOutcome w db db' a
    decided_outcome reject_critical e = rejection_outcome e
    decided_outcome confirm_critical e = confirmation_outcome e

  write_outcome :
      (w : CriticalDecisionWrite) (row : Assignment) (db db' : Db)
      (a : AssignmentCriticalVersionDecisionResult)
      → Awaits w row db
      → write_critical_decision env w row db ≡ ok (a, db')
      → CriticalOutcome w db db' a
  unfolding write_critical_decision
  write_outcome w row db db' a awaited h =
      elim (Result-cases (pending_package env w.identity w.assignment_id w.version_number db)) [
        | inl ((working_package, proposed), snapshot) ↦ elim (Option-cases row.projection_tour_id) [
          | inl unlinked ↦ absurd (ground arith)
          | inr (tour, linked) ↦
              decided_outcome w row tour db db' a awaited linked working_package proposed snapshot h
                w.decision refl
        ]
        | inr (x, failed) ↦ absurd (ground arith)
      ]

  pub critical_decision_effect :
      (w : CriticalDecisionWrite) (db db' : Db) (a : AssignmentCriticalVersionDecisionResult)
      → critical_decision_operation env w db ≡ ok (a, db')
      → CriticalOutcome w db db' a
  unfolding critical_decision_operation
  critical_decision_effect w db db' a h =
      elim (Option-cases (find assignment_key w.assignment_id db.assignments)) [
        | inl absent ↦ absurd (ground arith)
        | inr (row, found) ↦ elim (decision_branches w row db db' a found h) [
          | inl (same, again) ↦ CriticalOutcome.replay same again
          | inr (awaited, ran) ↦ write_outcome w row db db' a awaited ran
        ]
      ]
