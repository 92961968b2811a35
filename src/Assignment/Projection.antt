-- ===== src/Assignment/Projection.antt =====
-- The calendar and the assignments agree: an accepted assignment, and no other, has one protected
-- calendar entry, over its own dates.
use guide_os.Prelude.{
  ℕ, ◌+◌, ◌<◌, String, eq_iff, eqb_iff, ◌==◌, text_eq, number_eq, ◌≡◌, refl, subst, inl, inr,
  Option, none, some, List, ◌∷◌, arith, Bool-cases, or_else, false,
}
use guide_os.Platform.{Platform}
use guide_os.Database.{
  Db, Assignment, AssignmentStatus, Tour, offered, accepted, accept, decline, guide_operator, find,
  modify, find-cons, find-modify, find-remove,
}
use guide_os.Assignment.Intake.{NormalizedOffer, AssignmentCancellationIntake, NormalizedTransition}
use guide_os.Assignment.Store.{assignment_key, tour_key}
use guide_os.Assignment.Decide.{AssignmentDecisionWrite, apply_decision, projection}
use guide_os.Assignment.Cancel.{cancel_row}
use guide_os.Assignment.Transition.{close_offer}
use guide_os.Assignment.Offer.{offered_row}
use guide_os.Assignment.Effects.{
  Offers, IsOpen, Decides, projected, Cancels, Closes, released_tours,
}

-- The calendar entry of an accepted assignment.
pub record Shows (k : String) (a : Assignment) (tours : List Tour) : Type 0 where
  pub id : ℕ
  pub tour : Tour
  pub linked : a.projection_tour_id ≡ some id
  pub present : find tour_key id tours ≡ some tour
  pub protected : tour.source ≡ guide_operator
  pub owner : tour.tour_group_id ≡ some k
  pub starts : tour.start_date ≡ a.start_date
  pub ends : tour.end_date ≡ a.end_date

abbrev pub ByStatus : String → Assignment → AssignmentStatus → List Tour → Type 0
ByStatus k a accepted tours = Shows k a tours
ByStatus k a _ tours = a.projection_tour_id ≡ none

abbrev pub Projected : String → Option Assignment → List Tour → Type 0
Projected k none tours = Unit
Projected k (some a) tours = ByStatus k a a.status tours

pub record IsProjected (db : Db) : Type 0 where
  pub rows : (k : String) → Projected k (find assignment_key k db.assignments) db.tours
  pub numbered : (t : ℕ) → db.tour_sequence < t → find tour_key t db.tours ≡ none

-- A change of the row with one id, and what it leaves of the others.
Projected-modify :
    (id k : String) (f : Assignment → Assignment) (row : Assignment) (rows : List Assignment)
    (tours : List Tour)
    → ((r : Assignment) → assignment_key (f r) ≡ assignment_key r)
    → find assignment_key id rows ≡ some row
    → (id ≡ k → Projected k (some (f row)) tours)
    → ((id == k) ≡ false → Projected k (find assignment_key k rows) tours)
    → Projected k (find assignment_key k (modify assignment_key id f rows)) tours
Projected-modify id k f row rows tours same found hit miss = elim (Bool-cases (id == k)) [
  | inl e ↦
      let here : id ≡ k = (eq_iff id k).0 e in
      let at_k : find assignment_key k rows ≡ some row =
        subst (λ j. find assignment_key j rows ≡ some row) here found in
      rw (find-modify assignment_key id k f rows same, e) (rw at_k (hit here))
  | inr e ↦ rw (find-modify assignment_key id k f rows same, e) (miss e)
]

-- What keeps the protected entries of an assignment keeps its agreement with the calendar.
pub Projected-tours :
    (k : String) (a : Option Assignment) (tours tours' : List Tour)
    → ((id : ℕ) (t : Tour)
        → find tour_key id tours ≡ some t
        → t.tour_group_id ≡ some k
        → t.source ≡ guide_operator
        → find tour_key id tours' ≡ some t)
    → Projected k a tours
    → Projected k a tours'
Projected-tours k none tours tours' keep h = tt
Projected-tours k (some a) tours tours' keep h = by_status a.status h
  where
    by_status : (s : AssignmentStatus) → ByStatus k a s tours → ByStatus k a s tours'
    by_status accepted h = record {
      id = h.id;
      tour = h.tour;
      linked = h.linked;
      present = keep h.id h.tour h.present h.owner h.protected;
      protected = h.protected;
      owner = h.owner;
      starts = h.starts;
      ends = h.ends;
    }
    by_status _ h = h

pub offer-IsProjected :
    (env : Platform) (hash : String) (n : NormalizedOffer) (db db' : Db)
    → Offers env hash n db db'
    → IsProjected db
    → IsProjected db'
offer-IsProjected env hash n db db' w p = record {
  rows = λ k. rw w.frame (
      ground (
        arith,
        find-cons assignment_key k (offered_row n (or_else n.offered_at env.utc_now))
            db.assignments,
        p.rows k,
      ));
  numbered = rw w.frame p.numbered;
}

pub transition-IsProjected :
    (env : Platform) (hash : String) (n : NormalizedTransition) (row : Assignment) (db db' : Db)
    → Closes env hash n row db db'
    → IsProjected db
    → IsProjected db'
transition-IsProjected env hash n row db db' w p = record {
  rows = λ k. rw w.frame (
      Projected-modify n.assignment_id k (close_offer n) row db.assignments db.tours
        (λ r. ground arith) w.found
        (λ here.
          ground
            (arith, w.unprojected, eq_iff row.guide_os_id n.guide_os_id, w.guide, w.was_offered))
        (λ other. p.rows k));
  numbered = rw w.frame p.numbered;
}

-- The number of a new entry is taken by none.
fresh_entry :
    (db : Db) (p : IsProjected db) (new : Tour) (id : ℕ) (t : Tour)
    → new.id ≡ db.tour_sequence + 1
    → find tour_key id db.tours ≡ some t
    → find tour_key id (new ∷ db.tours) ≡ some t
fresh_entry db p new id t numbered found = elim (Bool-cases (new.id == id)) [
  | inl e ↦ absurd (ground (arith, p.numbered id (ground (arith, eqb_iff new.id id)), found))
  | inr e ↦ rw (find-cons, e) found
]

-- The row of an acceptance.
abbrev accepted_row : AssignmentDecisionWrite → ℕ → Assignment → Assignment
accepted_row w t row = record row {
  status = accepted;
  projection_tour_id = some t;
  decided_at = some w.decided_at;
  updated_at = w.decided_at;
}

apply_decision-accept :
    (w : AssignmentDecisionWrite) (t : ℕ) (row : Assignment)
    → w.decision ≡ accept
    → row.guide_os_id ≡ w.identity
    → row.status ≡ offered
    → apply_decision w (some t) row ≡ accepted_row w t row
apply_decision-accept w t row accepts guide was_offered =
    ground (arith, eq_iff row.guide_os_id w.identity)

projection-Shows :
    (env : Platform) (w : AssignmentDecisionWrite) (row : Assignment) (t : ℕ) (tours : List Tour)
    → Shows w.assignment_id (accepted_row w t row) (projection env w row t ∷ tours)
projection-Shows env w row t tours = record {
  id = t;
  tour = projection env w row t;
  linked = refl;
  present = ground (arith, find-cons tour_key t (projection env w row t) tours, eqb_iff t t);
  protected = refl;
  owner = refl;
  starts = refl;
  ends = refl;
}

pub acceptance-IsProjected :
    (env : Platform) (w : AssignmentDecisionWrite) (row : Assignment) (db db' : Db)
    → w.decision ≡ accept
    → IsOpen w row db
    → Decides env w (some (db.tour_sequence + 1)) (projected env w row db) db'
    → IsProjected db
    → IsProjected db'
acceptance-IsProjected env w row db db' accepts o d p = record {
  rows = λ k. rw d.frame (
      Projected-modify w.assignment_id k (apply_decision w (some (db.tour_sequence + 1))) row
        db.assignments (projection env w row (db.tour_sequence + 1) ∷ db.tours) (λ r. ground arith)
        o.found
        (λ here.
          rw (apply_decision-accept w (db.tour_sequence + 1) row accepts o.guide o.was_offered)
            (rw (← here) (projection-Shows env w row (db.tour_sequence + 1) db.tours)))
        (λ other.
          Projected-tours k (find assignment_key k db.assignments) db.tours _
            (λ id t found own protected.
              fresh_entry db p (projection env w row (db.tour_sequence + 1)) id t refl found)
            (p.rows k)));
  numbered = rw d.frame (λ t above. ground (
    arith,
    find-cons tour_key t (projection env w row (db.tour_sequence + 1)) db.tours,
    eqb_iff (db.tour_sequence + 1) t,
    p.numbered t,
  ));
}

pub refusal-IsProjected :
    (env : Platform) (w : AssignmentDecisionWrite) (row : Assignment) (db db' : Db)
    → w.decision ≡ decline
    → IsOpen w row db
    → Decides env w none db db'
    → IsProjected db
    → IsProjected db'
refusal-IsProjected env w row db db' declines o d p = record {
  rows = λ k. rw d.frame (
      Projected-modify w.assignment_id k (apply_decision w none) row db.assignments db.tours
        (λ r. ground arith) o.found
        (λ here.
          ground (arith, eq_iff row.guide_os_id w.identity, o.guide, o.was_offered, declines))
        (λ other. p.rows k));
  numbered = rw d.frame p.numbered;
}

-- An accepted row has its entry.
pub accepted-Shows :
    (id : String) (row : Assignment) (db : Db)
    → row.status ≡ accepted
    → find assignment_key id db.assignments ≡ some row
    → IsProjected db
    → Shows id row db.tours
accepted-Shows id row db is_accepted found p =
    let at : Projected id (some row) db.tours =
      subst (λ a. Projected id a db.tours) found (p.rows id) in
    subst (λ s. ByStatus id row s db.tours) is_accepted at

-- The entry of another assignment is another entry.
other_entry :
    (k id : String) (row : Assignment) (db : Db)
    → Shows id row db.tours
    → (id == k) ≡ false
    → (t : ℕ) (tour : Tour) → find tour_key t db.tours ≡ some tour
    → tour.tour_group_id ≡ some k
    → find tour_key t (released_tours row.projection_tour_id db.tours) ≡ some tour
other_entry k id row db s other t tour found own = rw s.linked (
    ground (
      arith,
      find-remove tour_key s.id t db.tours,
      eqb_iff s.id t,
      eq_iff id k,
      s.present,
      s.owner,
    ))

released_none :
    (released : Option ℕ) (t : ℕ) (tours : List Tour)
    → find tour_key t tours ≡ none
    → find tour_key t (released_tours released tours) ≡ none
released_none none t tours h = h
released_none (some r) t tours h = ground (arith, find-remove tour_key r t tours)

pub cancellation-IsProjected :
    (env : Platform) (hash : String) (n : AssignmentCancellationIntake) (row : Assignment)
    (db db' : Db)
    → Cancels env hash n row db db'
    → IsProjected db
    → IsProjected db'
cancellation-IsProjected env hash n row db db' w p = record {
  rows = λ k. rw w.frame (
      Projected-modify n.assignment_id k (cancel_row n env.utc_now) row db.assignments
        (released_tours row.projection_tour_id db.tours) (λ r. ground arith) w.found
        (λ here. ground (arith, eq_iff row.guide_os_id n.guide_os_id, w.guide, w.was_accepted))
        (λ other.
          Projected-tours k (find assignment_key k db.assignments) db.tours _
            (λ id t found own protected.
              other_entry k n.assignment_id row db
                (accepted-Shows n.assignment_id row db w.was_accepted w.found p) other id t found
                own)
            (p.rows k)));
  numbered =
      rw w.frame (λ t above. released_none row.projection_tour_id t db.tours (p.numbered t above));
}
