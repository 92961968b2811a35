-- ===== src/Assignment/Matched.antt =====
-- The other direction of the agreement with the calendar: every protected entry is that of an
-- accepted assignment.
use guide_os.Prelude.{
  ℕ, ◌+◌, String, eq_iff, eq_refl, eqb_iff, ◌==◌, text_eq, number_eq, ◌≡◌, refl, inl, inr, Option,
  none, some, arith, Bool-cases, false, or_else, List,
}
use guide_os.Platform.{Platform}
use guide_os.Database.{
  Db, Assignment, Tour, AssignmentDecisionType, accepted, offered, guide_operator, find, modify,
  find-cons, find-modify, find-remove,
}
use guide_os.Database.Write.{submit_rule}
use guide_os.Assignment.Intake.{
  AssignmentOfferIntake, AssignmentCancellationIntake, AssignmentLifecycleIntake, NormalizedOffer,
  NormalizedTransition,
}
use guide_os.Assignment.Store.{assignment_key, tour_key}
use guide_os.Assignment.Offer.{offered_row, offer_write, receive_assignment_offer}
use guide_os.Assignment.Decide.{
  AssignmentDecisionWrite, AssignmentDecisionResult, apply_decision, projection, decision_operation,
  decide_assignment,
}
use guide_os.Assignment.Cancel.{cancel_row, cancellation_write, apply_assignment_cancellation}
use guide_os.Assignment.Transition.{
  close_offer, transition_write, apply_assignment_lifecycle_transition,
}
use guide_os.Assignment.Effects.{
  Outcome, Offers, Cancels, Closes, offer_effect, decision_effect, cancellation_effect,
  transition_effect,
}
use guide_os.Assignment.Projection.{IsProjected, Shows, accepted-Shows}
use guide_os.Assignment.Protected as Protected

-- The accepted assignment that a calendar entry is linked to.
pub record Backs (id : ℕ) (rows : List Assignment) : Type 0 where
  pub key : String
  pub row : Assignment
  pub found : find assignment_key key rows ≡ some row
  pub is_accepted : row.status ≡ accepted
  pub linked : row.projection_tour_id ≡ some id

-- Every protected entry has its assignment.
abbrev pub AreBacked : List Tour → List Assignment → Type 0
AreBacked tours rows =
    (id : ℕ) (t : Tour)
    → find tour_key id tours ≡ some t
    → t.source ≡ guide_operator
    → Backs id rows

-- Every accepted assignment has its protected entry, over its own dates; no other assignment is
-- linked to one; and there is no other protected entry.
pub record IsMatched (db : Db) : Type 0 where
  pub projected : IsProjected db
  pub backed : AreBacked db.tours db.assignments

-- An UPDATE of a row that is not linked to the entry, or that stays accepted and linked.
modify-Backs :
    (id : ℕ) (k : String) (f : Assignment → Assignment) (rows : List Assignment)
    → ((r : Assignment) → assignment_key (f r) ≡ assignment_key r)
    → (b : Backs id rows) → (k ≡ b.key → (f b.row).status ≡ accepted)
    → (k ≡ b.key → (f b.row).projection_tour_id ≡ some id)
    → Backs id (modify assignment_key k f rows)
modify-Backs id k f rows same b stays links = elim (Bool-cases (k == b.key)) [
  | inl hit ↦
      let here : k ≡ b.key = (eq_iff k b.key).0 hit in
      record {
        key = b.key;
        row = f b.row;
        found = rw (find-modify assignment_key k b.key f rows same, hit) (rw b.found refl);
        is_accepted = stays here;
        linked = links here;
      }
  | inr miss ↦ record {
    key = b.key;
    row = b.row;
    found = rw (find-modify assignment_key k b.key f rows same, miss) b.found;
    is_accepted = b.is_accepted;
    linked = b.linked;
  }
]

-- An UPDATE that only an offered row feels.
offered-Backs :
    (id : ℕ) (k : String) (f : Assignment → Assignment) (row : Assignment) (rows : List Assignment)
    → ((r : Assignment) → assignment_key (f r) ≡ assignment_key r)
    → find assignment_key k rows ≡ some row
    → row.status ≡ offered
    → Backs id rows
    → Backs id (modify assignment_key k f rows)
offered-Backs id k f row rows same found was b =
    modify-Backs id k f rows same b
      (λ here. absurd (ground (arith, here, found, b.found, was, b.is_accepted)))
      (λ here. absurd (ground (arith, here, found, b.found, was, b.is_accepted)))

offer-AreBacked :
    (env : Platform) (hash : String) (n : NormalizedOffer) (db db' : Db)
    → Offers env hash n db db'
    → AreBacked db.tours db.assignments
    → AreBacked db'.tours db'.assignments
offer-AreBacked env hash n db db' w backed = rw w.frame (λ id t found protected.
    let b = backed id t found protected in
    record {
      key = b.key;
      row = b.row;
      found = ground (
        arith,
        w.fresh,
        b.found,
        find-cons assignment_key b.key (offered_row n (or_else n.offered_at env.utc_now))
            db.assignments,
        eq_iff n.assignment_id b.key,
      );
      is_accepted = b.is_accepted;
      linked = b.linked;
    })

outcome-AreBacked :
    (env : Platform) (w : AssignmentDecisionWrite) (db db' : Db) (a : AssignmentDecisionResult)
    → Outcome env w db db' a
    → AreBacked db.tours db.assignments
    → AreBacked db'.tours db'.assignments
outcome-AreBacked env w db db' a (Outcome.replay same again) backed = rw same backed
outcome-AreBacked env w db db' a (Outcome.refusal row declines o d) backed =
    rw d.frame (λ id t found protected.
      offered-Backs id w.assignment_id (apply_decision w none) row db.assignments
        (λ r. ground arith) o.found o.was_offered (backed id t found protected))
outcome-AreBacked env w db db' a (Outcome.acceptance row accepts o free single d) backed =
    let new = db.tour_sequence + 1 in
    let f = apply_decision w (some new) in
    rw d.frame (λ id t found protected. elim (Bool-cases (new == id)) [
      | inl hit ↦ record {
        key = w.assignment_id;
        row = f row;
        found =
            rw
              (
                find-modify assignment_key w.assignment_id w.assignment_id f db.assignments
                    (λ r. ground arith),
                eq_refl,
              )
              (rw o.found refl);
        is_accepted =
            ground (arith, o.guide, o.was_offered, accepts, eq_iff row.guide_os_id w.identity);
        linked = ground (
          arith,
          hit,
          o.guide,
          o.was_offered,
          accepts,
          eq_iff row.guide_os_id w.identity,
          eqb_iff new id,
        );
      }
      | inr miss ↦
          offered-Backs id w.assignment_id f row db.assignments (λ r. ground arith) o.found
            o.was_offered
            (backed id t
              (ground
                (arith, found, miss, find-cons tour_key id (projection env w row new) db.tours))
              protected)
    ])

transition-AreBacked :
    (env : Platform) (hash : String) (n : NormalizedTransition) (row : Assignment) (db db' : Db)
    → Closes env hash n row db db'
    → AreBacked db.tours db.assignments
    → AreBacked db'.tours db'.assignments
transition-AreBacked env hash n row db db' w backed = rw w.frame (λ id t found protected.
    offered-Backs id n.assignment_id (close_offer n) row db.assignments (λ r. ground arith) w.found
      w.was_offered (backed id t found protected))

-- The entry that goes is the one that the cancelled row was linked to.
cancellation-AreBacked :
    (env : Platform) (hash : String) (n : AssignmentCancellationIntake) (row : Assignment)
    (db db' : Db)
    → Cancels env hash n row db db'
    → IsMatched db
    → AreBacked db'.tours db'.assignments
cancellation-AreBacked env hash n row db db' w m =
    let s : Shows n.assignment_id row db.tours =
      accepted-Shows n.assignment_id row db w.was_accepted w.found m.projected in
    rw w.frame (
      rw s.linked (λ id t found protected.
        let kept : find tour_key id db.tours ≡ some t =
          ground (arith, found, find-remove tour_key s.id id db.tours) in
        let other : (s.id == id) ≡ false =
          ground (arith, found, find-remove tour_key s.id id db.tours) in
        let b = m.backed id t kept protected in
        modify-Backs id n.assignment_id (cancel_row n env.utc_now) db.assignments
          (λ r. ground arith) b
          (λ here.
            absurd
              (ground (arith, here, w.found, b.found, b.linked, s.linked, other, eqb_iff s.id id)))
          (λ here.
            absurd (
              ground (arith, here, w.found, b.found, b.linked, s.linked, other, eqb_iff s.id id)))))

module _ (env : Platform) (before db : Db) (m : IsMatched db) where
  -- If the accepted assignments and the protected entries match one to one, they do after
  -- `receive_assignment_offer`, whatever the call answers.
  pub receive_assignment_offer-IsMatched :
      (event : AssignmentOfferIntake) → IsMatched (receive_assignment_offer env event before db).1
  unfolding receive_assignment_offer
  receive_assignment_offer-IsMatched event = record {
    projected = Protected.receive_assignment_offer-IsProjected env before db m.projected event;
    backed =
        submit_rule (offer_write env) (λ s. AreBacked s.tours s.assignments) env.busy _ db m.backed
          (λ (h, n) a db' planned e. elim (offer_effect env h n db db' a e) [
            | inl same ↦ rw same m.backed
            | inr (w, _) ↦ offer-AreBacked env h n db db' w m.backed
          ]);
  }

  pub decide_assignment-IsMatched :
      (guide_os_id assignment_id : String) (decision : AssignmentDecisionType)
      (decision_event_id : String) (decided_at : Option String)
      → IsMatched
          (decide_assignment env guide_os_id assignment_id decision decision_event_id decided_at
            before db).1
  unfolding decide_assignment
  decide_assignment-IsMatched guide_os_id assignment_id decision decision_event_id decided_at =
      record {
        projected =
            Protected.decide_assignment-IsProjected env before db m.projected guide_os_id
              assignment_id decision decision_event_id decided_at;
        backed =
            submit_rule (decision_operation env) (λ s. AreBacked s.tours s.assignments) env.busy _
              db m.backed
              (λ w a db' planned e.
                outcome-AreBacked env w db db' a (decision_effect env w db db' a e) m.backed);
      }

  pub apply_assignment_cancellation-IsMatched :
      (event : AssignmentCancellationIntake)
      → IsMatched (apply_assignment_cancellation env event before db).1
  unfolding apply_assignment_cancellation
  apply_assignment_cancellation-IsMatched event = record {
    projected = Protected.apply_assignment_cancellation-IsProjected env before db m.projected event;
    backed =
        submit_rule (cancellation_write env) (λ s. AreBacked s.tours s.assignments) env.busy _ db
          m.backed
          (λ (h, n) a db' planned e. elim (cancellation_effect env h n db db' a e) [
            | inl same ↦ rw same m.backed
            | inr (row, w) ↦ cancellation-AreBacked env h n row db db' w m
          ]);
  }

  pub apply_assignment_lifecycle_transition-IsMatched :
      (event : AssignmentLifecycleIntake)
      → IsMatched (apply_assignment_lifecycle_transition env event before db).1
  unfolding apply_assignment_lifecycle_transition
  apply_assignment_lifecycle_transition-IsMatched event = record {
    projected =
        Protected.apply_assignment_lifecycle_transition-IsProjected env before db m.projected event;
    backed =
        submit_rule (transition_write env) (λ s. AreBacked s.tours s.assignments) env.busy _ db
          m.backed
          (λ (h, n) a db' planned e. elim (transition_effect env h n db db' a e) [
            | inl same ↦ rw same m.backed
            | inr (row, w) ↦ transition-AreBacked env h n row db db' w m.backed
          ]);
  }
