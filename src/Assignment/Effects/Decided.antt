-- ===== src/Assignment/Effects/Decided.antt =====
-- What the transaction of `_decide_assignment` writes.
use mathlib.Core.Path.{subst₂}
use guide_os.Prelude.{
  ◌+◌, eq_iff, text_eq, number_eq, true, ◌≡◌, ◌⊎◌, inl, inr, Option, none, some, [], ◌∷◌, arith,
  Option-cases, ℕ,
}
use guide_os.Errors.{ok, ◌>>=◌, bind-eq-ok}
use guide_os.Platform.{Platform}
use guide_os.Database.{Db, Assignment, offered, find, modify, accept, decline}
use guide_os.Outbox.{outbox_row, outbox_event_key, insert_outbox}
use guide_os.Calendar.{calendar_conflicts}
use guide_os.Assignment.Store.{assignment_key, decided_assignment_key, insert_decision}
use guide_os.Assignment.Decide.{
  AssignmentDecisionWrite, AssignmentDecisionResult, apply_decision, decision_row, decision_payload,
  projection, projection_note, count_projections, insert_projection, record_decision,
  decision_operation,
}

-- An open offer has been decided, and the operator is told.
pub record Decides (env : Platform) (w : AssignmentDecisionWrite) (tour : Option ℕ) (db db' : Db)
    : Type 0 where
  pub undecided : find decided_assignment_key w.assignment_id db.decisions ≡ none
  pub unsent : find outbox_event_key w.decision_event_id db.outbox ≡ none
  pub frame : db' ≡ record db {
    assignments = modify assignment_key w.assignment_id (apply_decision w tour) db.assignments;
    decisions = decision_row w ∷ db.decisions;
    outbox =
        outbox_row
          (db.outbox_sequence + 1)
          w.decision_event_id
          "assignment.decision.v1"
          "guide_assignment"
          w.assignment_id
          w.identity
          (env.dumps (decision_payload w tour))
          w.decided_at
        ∷ db.outbox;
    outbox_sequence = db.outbox_sequence + 1;
  }

-- The open row that a decision meets.
pub record IsOpen (w : AssignmentDecisionWrite) (row : Assignment) (db : Db) : Type 0 where
  pub found : find assignment_key w.assignment_id db.assignments ≡ some row
  pub guide : row.guide_os_id ≡ w.identity
  pub was_offered : row.status ≡ offered

module _ (env : Platform) where
  -- The database with the new calendar entry of an acceptance.
  abbrev pub projected : AssignmentDecisionWrite → Assignment → Db → Db
  projected w row db = record db {
    tours = projection env w row (db.tour_sequence + 1) ∷ db.tours;
    tour_sequence = db.tour_sequence + 1;
  }

  -- What a decision has done: nothing, for a repeated one; an acceptance on free days; a refusal.
  pub data Outcome (w : AssignmentDecisionWrite) (db db' : Db) (a : AssignmentDecisionResult)
      : Type 0 where
    replay : db' ≡ db → a.replayed ≡ true → Outcome w db db' a
    acceptance :
        (row : Assignment)
        → w.decision ≡ accept
        → IsOpen w row db
        → calendar_conflicts w.user_id row.start_date row.end_date none db.tours ≡ []
        → count_projections (projection_note w.assignment_id) (projected w row db).tours ≡ 1
        → Decides env w (some (db.tour_sequence + 1)) (projected w row db) db'
        → Outcome w db db' a
    refusal :
        (row : Assignment)
        → w.decision ≡ decline
        → IsOpen w row db
        → Decides env w none db db'
        → Outcome w db db' a

  record_decision_effect :
      (w : AssignmentDecisionWrite) (tour : Option ℕ) (db db' : Db) (a : AssignmentDecisionResult)
      → record_decision env w tour db ≡ ok (a, db')
      → Decides env w tour db db'
  unfolding record_decision insert_decision insert_outbox
  record_decision_effect w tour db db' a h = ground arith

  insert_projection_effect :
      (w : AssignmentDecisionWrite) (row : Assignment) (db db' : Db) (tour : Option ℕ)
      → insert_projection env w row db ≡ ok (tour, db')
      → (calendar_conflicts w.user_id row.start_date row.end_date none db.tours ≡ [])
        × (count_projections (projection_note w.assignment_id) (projected w row db).tours ≡ 1)
        × (tour ≡ some (db.tour_sequence + 1))
        × (db' ≡ projected w row db)
  unfolding insert_projection
  insert_projection_effect w row db db' tour h = ground arith

  decision_branches :
      (w : AssignmentDecisionWrite) (row : Assignment) (db db' : Db) (a : AssignmentDecisionResult)
      → find assignment_key w.assignment_id db.assignments ≡ some row
      → decision_operation env w db ≡ ok (a, db')
      → ((db' ≡ db) × (a.replayed ≡ true))
        ⊎ (IsOpen w row db
            × (((w.decision ≡ accept)
                  × ((insert_projection env w row db >>= λ p. record_decision env w p.0 p.1)
                      ≡ ok (a, db')))
                ⊎ ((w.decision ≡ decline) × (record_decision env w none db ≡ ok (a, db')))))
  unfolding decision_operation
  decision_branches w row db db' a found h = ground (arith, eq_iff row.guide_os_id w.identity)

  acceptance_effect :
      (w : AssignmentDecisionWrite) (row : Assignment) (db db' : Db) (a : AssignmentDecisionResult)
      → w.decision ≡ accept
      → IsOpen w row db
      → (p : Option ℕ × Db) → insert_projection env w row db ≡ ok p
      → record_decision env w p.0 p.1 ≡ ok (a, db')
      → Outcome w db db' a
  acceptance_effect w row db db' a accepts open_row p projects records =
      let (free, single, numbered, mid) = insert_projection_effect w row db p.1 p.0 projects in
      Outcome.acceptance row accepts open_row free single (
        subst₂ (λ t m. Decides env w t m db') numbered mid
          (record_decision_effect w p.0 p.1 db' a records))

  pub decision_effect :
      (w : AssignmentDecisionWrite) (db db' : Db) (a : AssignmentDecisionResult)
      → decision_operation env w db ≡ ok (a, db')
      → Outcome w db db' a
  unfolding decision_operation
  decision_effect w db db' a h =
      elim (Option-cases (find assignment_key w.assignment_id db.assignments)) [
        | inl absent ↦ absurd (ground arith)
        | inr (row, found) ↦ elim (decision_branches w row db db' a found h) [
          | inl (same, again) ↦ Outcome.replay same again
          | inr (open_row, inl (accepts, ran)) ↦
              let (p, projects, records) =
                bind-eq-ok (insert_projection env w row db) (λ p. record_decision env w p.0 p.1)
                  ran in
              acceptance_effect w row db db' a accepts open_row p projects records
          | inr (open_row, inr (declines, ran)) ↦
              Outcome.refusal row declines open_row (record_decision_effect w none db db' a ran)
        ]
      ]
