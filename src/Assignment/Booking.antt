-- ===== src/Assignment/Booking.antt =====
-- What an answer of `decide_assignment` promises about the guide's calendar.
use guide_os.Prelude.{
  ◌+◌, String, text_eq, ◌≡◌, refl, inl, inr, Option, none, some, ◌∷◌, arith, true, false, ◌≢◌,
  Option-cases, subst, eq_iff, number_eq,
}
use guide_os.Errors.{ok, ◌>>=◌, bind-eq-ok}
use guide_os.Identity.{validate_guide_os_id}
use guide_os.Validation.{require_nonempty}
use guide_os.Platform.{Platform}
use guide_os.Database.{
  Db, Assignment, Tour, AssignmentDecisionType, User, accept, offered, accepted, guide_operator,
  find, find-modify,
}
use guide_os.Database.Write.{answer, write, submit_ok}
use guide_os.Calendar.Free.{IsFree, calendar_conflicts-nil_iff}
use guide_os.Connection.Invite.{guide_key}
use guide_os.Assignment.Decide.{
  AssignmentDecisionWrite, AssignmentDecisionResult, projection, decision_plan, decision_operation,
  record_decision, apply_decision, decide_assignment,
}
use guide_os.Assignment.Store.{assignment_key}
use guide_os.Assignment.Effects.{Outcome, decision_effect}

-- A fresh acceptance: the offer was open, the guide's days were free, the calendar has got exactly
-- one entry more, over those days, and the row is accepted and linked to it.
pub record Books (guide_os_id assignment_id : String) (before db db' : Db)
    (a : AssignmentDecisionResult) : Type 0 where
  pub identity : String
  pub identified : validate_guide_os_id guide_os_id ≡ ok identity
  pub assignment : String
  pub named : require_nonempty assignment_id ≡ ok assignment
  pub user : User
  pub known : find guide_key identity before.users ≡ some user
  pub row : Assignment
  pub found : find assignment_key assignment db.assignments ≡ some row
  pub guide : row.guide_os_id ≡ identity
  pub was_offered : row.status ≡ offered
  pub free : IsFree user.user_id row.start_date row.end_date db.tours
  pub entry : Tour
  pub booked : db'.tours ≡ entry ∷ db.tours
  pub owner : entry.user_id ≡ user.user_id
  pub starts : entry.start_date ≡ row.start_date
  pub ends : entry.end_date ≡ row.end_date
  pub protected : entry.source ≡ guide_operator
  pub row' : Assignment
  pub found' : find assignment_key assignment db'.assignments ≡ some row'
  pub accepted' : row'.status ≡ accepted
  pub linked' : row'.projection_tour_id ≡ some entry.id
  pub answered : a.assignment_id ≡ assignment

module _ (env : Platform) (identity assignment_id : String) (decision : AssignmentDecisionType)
    (event : String) (decided_at : Option String) (before : Db) (w : AssignmentDecisionWrite) where
  planned :
      (user : User)
      → find guide_key identity before.users ≡ some user
      → decision_plan env identity assignment_id decision event decided_at before ≡ ok (write w)
      → (w.identity ≡ identity)
        × (w.user_id ≡ user.user_id)
        × (w.decision ≡ decision)
        × (w.assignment_id ≡ assignment_id)
  unfolding decision_plan
  planned user known h = ground arith

  unplanned :
      find guide_key identity before.users ≡ none
      → decision_plan env identity assignment_id decision event decided_at before ≢ ok (write w)
  unfolding decision_plan
  unplanned unknown h = ground arith

  -- What a write was planned from.
  planned_from :
      decision_plan env identity assignment_id decision event decided_at before ≡ ok (write w)
      → (w.decision ≡ decision)
        × (w.identity ≡ identity)
        × (w.assignment_id ≡ assignment_id)
        × ((user : User) × (find guide_key identity before.users ≡ some user)
            × (w.user_id ≡ user.user_id))
  planned_from h = elim (Option-cases (find guide_key identity before.users)) [
    | inl unknown ↦ absurd (unplanned unknown h)
    | inr (user, known) ↦
        let (same, owned, asked, about) = planned user known h in
        (asked, same, about, (user, known, owned))
  ]

-- An answer that needs no write repeats a decision.
planned_replay :
    (env : Platform) (identity assignment_id : String) (decision : AssignmentDecisionType)
    (event : String) (decided_at : Option String) (before : Db) (a : AssignmentDecisionResult)
    → decision_plan env identity assignment_id decision event decided_at before ≡ ok (answer a)
    → a.replayed ≡ true
unfolding decision_plan
planned_replay env identity assignment_id decision event decided_at before a h = ground arith

-- A write for this guide, this assignment and this decision.
pub record IsAsked (before : Db) (guide_os_id assignment_id : String)
    (asked : AssignmentDecisionType) (w : AssignmentDecisionWrite) : Type 0 where
  pub decision : w.decision ≡ asked
  pub identified : validate_guide_os_id guide_os_id ≡ ok w.identity
  pub named : require_nonempty assignment_id ≡ ok w.assignment_id
  pub user : User
  pub known : find guide_key w.identity before.users ≡ some user
  pub owned : w.user_id ≡ user.user_id

-- The answer is about the assignment of the write.
decision_answered :
    (env : Platform) (w : AssignmentDecisionWrite) (db db' : Db) (a : AssignmentDecisionResult)
    → decision_operation env w db ≡ ok (a, db')
    → a.assignment_id ≡ w.assignment_id
unfolding decision_operation record_decision
decision_answered env w db db' a h = ground arith

module _ (env : Platform) (guide_os_id assignment_id : String) (decision : AssignmentDecisionType)
    (event : String) (decided_at : Option String) (before db db' : Db)
    (a : AssignmentDecisionResult) where
  pub request_planned :
      (w : AssignmentDecisionWrite)
      → (validate_guide_os_id guide_os_id >>= λ identity.
          require_nonempty assignment_id >>= λ assignment.
          require_nonempty event >>= λ decision_event.
          decision_plan env identity assignment decision decision_event decided_at before)
        ≡ ok (write w)
      → IsAsked before guide_os_id assignment_id decision w
  request_planned w h =
      let (identity, identified, h1) = bind-eq-ok (validate_guide_os_id guide_os_id) _ h in
      let (assignment, named, h2) = bind-eq-ok (require_nonempty assignment_id) _ h1 in
      let (decision_event, _, h3) = bind-eq-ok (require_nonempty event) _ h2 in
      let (asked, same, about, (user, known, owned)) =
        planned_from env identity assignment decision decision_event decided_at before w h3 in
      record {
        decision = asked;
        identified = rw same identified;
        named = rw about named;
        user = user;
        known = rw same known;
        owned = owned;
      }

  -- What a transaction that answers afresh has done.
  outcome-Books :
      (w : AssignmentDecisionWrite)
      → IsAsked before guide_os_id assignment_id accept w
      → a.assignment_id ≡ w.assignment_id
      → a.replayed ≡ false
      → Outcome env w db db' a
      → Books guide_os_id assignment_id before db db' a
  outcome-Books w i named fresh (Outcome.replay same again) = absurd (ground arith)
  outcome-Books w i named fresh (Outcome.refusal row declines o d) =
      absurd (ground (arith, i.decision))
  outcome-Books w i named fresh (Outcome.acceptance row asked o free single d) =
      let t = db.tour_sequence + 1 in
      record {
        identity = w.identity;
        identified = i.identified;
        assignment = w.assignment_id;
        named = i.named;
        user = i.user;
        known = i.known;
        row = row;
        found = o.found;
        guide = o.guide;
        was_offered = o.was_offered;
        free =
            rw (← i.owned)
              ((calendar_conflicts-nil_iff w.user_id row.start_date row.end_date db.tours).0 free);
        entry = projection env w row t;
        booked = rw d.frame refl;
        owner = i.owned;
        starts = refl;
        ends = refl;
        protected = refl;
        row' = apply_decision w (some t) row;
        found' = rw d.frame (
            ground (
              arith,
              o.found,
              find-modify assignment_key w.assignment_id w.assignment_id (apply_decision w (some t))
                  db.assignments (λ r. ground arith),
              eq_iff w.assignment_id w.assignment_id,
            ));
        accepted' =
            ground (arith, o.guide, o.was_offered, asked, eq_iff row.guide_os_id w.identity);
        linked' = ground (arith, o.guide, o.was_offered, asked, eq_iff row.guide_os_id w.identity);
        answered = named;
      }

  request_replay :
      (validate_guide_os_id guide_os_id >>= λ identity.
      require_nonempty assignment_id >>= λ assignment. require_nonempty event >>= λ decision_event.
      decision_plan env identity assignment decision decision_event decided_at before)
        ≡ ok (answer a)
      → a.replayed ≡ true
  request_replay h =
      let (identity, _, h1) = bind-eq-ok (validate_guide_os_id guide_os_id) _ h in
      let (assignment, _, h2) = bind-eq-ok (require_nonempty assignment_id) _ h1 in
      let (decision_event, _, h3) = bind-eq-ok (require_nonempty event) _ h2 in
      planned_replay env identity assignment decision decision_event decided_at before a h3

  -- When `decide_assignment` answers an acceptance that is not a repetition, the assignment of the
  -- call was the guide's open offer, every one of its days was free of the guide's entries in the
  -- locked database, the calendar has got one protected entry of the guide over these days, and the
  -- assignment is accepted and linked to that entry; the answer names the assignment.
  pub decide_assignment-Books :
      decide_assignment env guide_os_id assignment_id decision event decided_at before db
        ≡ (ok a, db')
      → decision ≡ accept
      → a.replayed ≡ false
      → Books guide_os_id assignment_id before db db' a
  unfolding decide_assignment
  decide_assignment-Books h accepts fresh =
      elim (submit_ok (decision_operation env) env.busy _ db db' a h) [
        | inl (answered, same) ↦ absurd (ground (arith, request_replay answered))
        | inr (w, planned_write, ran) ↦
            outcome-Books w
              (subst (λ d. IsAsked before guide_os_id assignment_id d w) accepts
                (request_planned w planned_write))
              (decision_answered env w db db' a ran) fresh (decision_effect env w db db' a ran)
      ]
