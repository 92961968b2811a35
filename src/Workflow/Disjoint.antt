-- ===== src/Workflow/Disjoint.antt =====
-- No guide is booked twice on a day: the calendar entries of one user never share a day.
use guide_os.Prelude.{
  ℕ, String, inl, inr, Option, none, some, List, [], ◌∷◌, Bool-cases, ◌==◌, number_eq,
}
use guide_os.Platform.{Platform}
use guide_os.Database.{Db, Tour, AssignmentDecisionType, remove}
use guide_os.Database.Write.{submit_rule}
use guide_os.Calendar.Free.{IsFreeDay, IsFree, calendar_conflicts-nil_iff}
use guide_os.Assignment.Intake.{
  AssignmentOfferIntake, AssignmentCancellationIntake, AssignmentLifecycleIntake,
}
use guide_os.Assignment.Store.{tour_key}
use guide_os.Assignment.Offer.{offer_write, receive_assignment_offer}
use guide_os.Assignment.Decide.{
  AssignmentDecisionWrite, AssignmentDecisionResult, decision_operation, decide_assignment,
}
use guide_os.Assignment.Cancel.{cancellation_write, apply_assignment_cancellation}
use guide_os.Assignment.Transition.{transition_write, apply_assignment_lifecycle_transition}
use guide_os.Assignment.Effects.{
  Outcome, released_tours, offer_effect, decision_effect, cancellation_effect, transition_effect,
}

-- The days of each entry are free in the entries that are older than it.
abbrev pub IsDisjoint : List Tour → Type 0
IsDisjoint [] = Unit
IsDisjoint (t ∷ tours) = IsFree t.user_id t.start_date t.end_date tours × IsDisjoint tours

IsFreeDay-remove :
    (user_id day id : ℕ) (tours : List Tour)
    → IsFreeDay user_id day tours
    → IsFreeDay user_id day (remove tour_key id tours)
unfolding remove
IsFreeDay-remove user_id day id [] h = tt
IsFreeDay-remove user_id day id (t ∷ tours) (now, later) = elim (Bool-cases (t.id == id)) [
  | inl hit ↦ rw hit (IsFreeDay-remove user_id day id tours later)
  | inr miss ↦ rw miss (now, IsFreeDay-remove user_id day id tours later)
]

remove-IsDisjoint :
    (id : ℕ) (tours : List Tour) → IsDisjoint tours → IsDisjoint (remove tour_key id tours)
unfolding remove
remove-IsDisjoint id [] h = tt
remove-IsDisjoint id (t ∷ tours) (free, rest) = elim (Bool-cases (t.id == id)) [
  | inl hit ↦ rw hit (remove-IsDisjoint id tours rest)
  | inr miss ↦ rw miss (
    λ day a b. IsFreeDay-remove t.user_id day id tours (free day a b),
    remove-IsDisjoint id tours rest,
  )
]

released_tours-IsDisjoint :
    (id : Option ℕ) (tours : List Tour) → IsDisjoint tours → IsDisjoint (released_tours id tours)
released_tours-IsDisjoint none tours h = h
released_tours-IsDisjoint (some id) tours h = remove-IsDisjoint id tours h

outcome-IsDisjoint :
    (env : Platform) (w : AssignmentDecisionWrite) (db db' : Db) (a : AssignmentDecisionResult)
    → Outcome env w db db' a
    → IsDisjoint db.tours
    → IsDisjoint db'.tours
outcome-IsDisjoint env w db db' a (Outcome.replay same again) h = rw same h
outcome-IsDisjoint env w db db' a (Outcome.acceptance row accepts o free single d) h =
    rw d.frame
      ((calendar_conflicts-nil_iff w.user_id row.start_date row.end_date db.tours).0 free, h)
outcome-IsDisjoint env w db db' a (Outcome.refusal row declines o d) h = rw d.frame h

abbrev IsDisjointIn : Db → Type 0
IsDisjointIn db = IsDisjoint db.tours

module _ (env : Platform) (before db : Db) (h : IsDisjoint db.tours) where
  pub receive_assignment_offer-IsDisjoint :
      (event : AssignmentOfferIntake)
      → IsDisjoint (receive_assignment_offer env event before db).1.tours
  unfolding receive_assignment_offer
  receive_assignment_offer-IsDisjoint event =
      submit_rule (offer_write env) IsDisjointIn env.busy _ db h (λ (hash, n) a db' planned e.
        elim (offer_effect env hash n db db' a e) [
          | inl same ↦ rw same h
          | inr (w, _) ↦ rw w.frame h
        ])

  -- If no two calendar entries of a user share a day, then so it is after `decide_assignment`: an
  -- acceptance books the guide only on days that the locked database shows free.
  pub decide_assignment-IsDisjoint :
      (guide_os_id assignment_id : String) (decision : AssignmentDecisionType)
      (decision_event_id : String) (decided_at : Option String)
      → IsDisjoint
          (decide_assignment env guide_os_id assignment_id decision decision_event_id decided_at
            before db).1.tours
  unfolding decide_assignment
  decide_assignment-IsDisjoint guide_os_id assignment_id decision decision_event_id decided_at =
      submit_rule (decision_operation env) IsDisjointIn env.busy _ db h (λ w a db' planned e.
        outcome-IsDisjoint env w db db' a (decision_effect env w db db' a e) h)

  pub apply_assignment_cancellation-IsDisjoint :
      (event : AssignmentCancellationIntake)
      → IsDisjoint (apply_assignment_cancellation env event before db).1.tours
  unfolding apply_assignment_cancellation
  apply_assignment_cancellation-IsDisjoint event =
      submit_rule (cancellation_write env) IsDisjointIn env.busy _ db h
        (λ (hash, n) a db' planned e. elim (cancellation_effect env hash n db db' a e) [
          | inl same ↦ rw same h
          | inr (row, w) ↦ rw w.frame (released_tours-IsDisjoint row.projection_tour_id db.tours h)
        ])

  pub apply_assignment_lifecycle_transition-IsDisjoint :
      (event : AssignmentLifecycleIntake)
      → IsDisjoint (apply_assignment_lifecycle_transition env event before db).1.tours
  unfolding apply_assignment_lifecycle_transition
  apply_assignment_lifecycle_transition-IsDisjoint event =
      submit_rule (transition_write env) IsDisjointIn env.busy _ db h (λ (hash, n) a db' planned e.
        elim (transition_effect env hash n db db' a e) [
          | inl same ↦ rw same h
          | inr (row, w) ↦ rw w.frame h
        ])
