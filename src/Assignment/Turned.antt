-- ===== src/Assignment/Turned.antt =====
-- What a call of the assignment service turns a stored assignment into.
use guide_os.Prelude.{
  String, eq_iff, ◌==◌, text_eq, number_eq, ◌≡◌, refl, ◌⊎◌, inl, inr, Option, none, some, arith,
  Bool-cases, ◌+◌, eq_refl, sym, ◌∙◌,
}
use guide_os.Errors.{ok, ◌>>=◌, bind-eq-ok}
use guide_os.Validation.{require_nonempty, require_iso_datetime}
use guide_os.Identity.{validate_guide_os_id}
use guide_os.Platform.{Platform}
use guide_os.Database.{
  Db, Assignment, AssignmentStatus, AssignmentDecisionType, LifecycleEventType, accept, decline,
  offered, accepted, declined, withdrawn, expired, find, modify, find-modify,
}
use guide_os.Database.Write.{write, submit_rule}
use guide_os.Assignment.Intake.{
  AssignmentLifecycleIntake, NormalizedTransition, normalize_assignment_lifecycle, event_type_of,
  target_status,
}
use guide_os.Assignment.Store.{assignment_key}
use guide_os.Assignment.Decide.{
  AssignmentDecisionWrite, AssignmentDecisionResult, apply_decision, decision_operation,
  decide_assignment,
}
use guide_os.Assignment.Transition.{
  close_offer, transition_plan, transition_request, transition_write,
  apply_assignment_lifecycle_transition,
}
use guide_os.Assignment.Booking.{request_planned}
use guide_os.Assignment.Effects.{Outcome, decision_effect, transition_effect}

-- A row in one state, and the same offer in one of the others.
pub record Turns (from : AssignmentStatus) (To : AssignmentStatus → Type 0) (a b : Assignment)
    : Type 0 where
  pub was : a.status ≡ from
  pub now : To b.status
  pub guide : b.guide_os_id ≡ a.guide_os_id
  pub company : b.company_id ≡ a.company_id
  pub connection : b.guide_connection_id ≡ a.guide_connection_id
  pub starts : b.start_date ≡ a.start_date
  pub ends : b.end_date ≡ a.end_date
  pub version : b.active_version_number ≡ a.active_version_number

-- Both rows are there.
abbrev pub Turned :
    AssignmentStatus → (AssignmentStatus → Type 0) → Option Assignment → Option Assignment → Type 0
Turned from To (some a) (some b) = Turns from To a b
Turned from To _ _ = ⊥

-- Every row is as it was, but for that of the assignment that the call names, which may have
-- turned from the one state to one of the others.
abbrev pub OnlyTurns : AssignmentStatus → (AssignmentStatus → Type 0) → String → Db → Db → Type 0
OnlyTurns from To assignment_id db db' =
    (k : String)
    → (find assignment_key k db'.assignments ≡ find assignment_key k db.assignments)
      ⊎ ((require_nonempty assignment_id ≡ ok k)
          × Turned from To (find assignment_key k db.assignments)
              (find assignment_key k db'.assignments))

-- The state that the guide asks for.
abbrev pub Decides : AssignmentDecisionType → AssignmentStatus → Type 0
Decides accept to = to ≡ accepted
Decides decline to = to ≡ declined

-- The state that the operator's event announces.
abbrev pub Announces : AssignmentLifecycleIntake → AssignmentStatus → Type 0
Announces event to =
    ((require_nonempty event.event_type ≡ ok "assignment.withdrawn.v1") × (to ≡ withdrawn))
    ⊎ ((require_nonempty event.event_type ≡ ok "assignment.expired.v1") × (to ≡ expired))

modify-OnlyTurns :
    (from : AssignmentStatus) (To : AssignmentStatus → Type 0) (assignment_id id : String)
    (f : Assignment → Assignment) (row : Assignment) (db db' : Db)
    → ((r : Assignment) → assignment_key (f r) ≡ assignment_key r)
    → require_nonempty assignment_id ≡ ok id
    → find assignment_key id db.assignments ≡ some row
    → Turns from To row (f row)
    → db'.assignments ≡ modify assignment_key id f db.assignments
    → OnlyTurns from To assignment_id db db'
modify-OnlyTurns from To assignment_id id f row db db' same named found turns rows k =
    elim (Bool-cases (id == k)) [
      | inl hit ↦ rw (← (eq_iff id k).0 hit) (
          inr (
            named,
            rw (rows, find-modify assignment_key id id f db.assignments same, eq_refl)
                (rw found turns),
          ))
      | inr miss ↦ inl (rw (rows, find-modify assignment_key id k f db.assignments same, miss) refl)
    ]

module _ (env : Platform) (before db : Db) where
  outcome-OnlyTurns :
      (assignment_id : String) (decision : AssignmentDecisionType) (w : AssignmentDecisionWrite)
      (db' : Db) (a : AssignmentDecisionResult)
      → require_nonempty assignment_id ≡ ok w.assignment_id
      → w.decision ≡ decision
      → Outcome env w db db' a
      → OnlyTurns offered (Decides decision) assignment_id db db'
  outcome-OnlyTurns assignment_id decision w db' a named asked (Outcome.replay same again) =
      rw same (λ k. inl refl)
  outcome-OnlyTurns assignment_id decision w db' a named asked
        (Outcome.acceptance row accepts o free single d) =
      let f = apply_decision w (some (db.tour_sequence + 1)) in
      let turns : Turns offered (Decides accept) row (f row) =
        ground (arith, accepts, o.guide, o.was_offered, eq_iff row.guide_os_id w.identity) in
      rw (← (sym accepts ∙ asked)) (
        modify-OnlyTurns offered (Decides accept) assignment_id w.assignment_id f row db db'
          (λ r. ground arith) named o.found turns (rw d.frame refl))
  outcome-OnlyTurns assignment_id decision w db' a named asked (Outcome.refusal row declines o d) =
      let f = apply_decision w none in
      let turns : Turns offered (Decides decline) row (f row) =
        ground (arith, declines, o.guide, o.was_offered, eq_iff row.guide_os_id w.identity) in
      rw (← (sym declines ∙ asked)) (
        modify-OnlyTurns offered (Decides decline) assignment_id w.assignment_id f row db db'
          (λ r. ground arith) named o.found turns (rw d.frame refl))

  -- After `decide_assignment`, whatever it answers, every stored assignment is as it was, but for
  -- the one that the call names: that one may have turned from an open offer to accepted, for an
  -- acceptance, or to declined, for a refusal, and keeps its guide, its company, its connection,
  -- its dates and its active version.
  pub decide_assignment-OnlyTurns :
      (guide_os_id assignment_id : String) (decision : AssignmentDecisionType)
      (decision_event_id : String) (decided_at : Option String)
      → OnlyTurns offered
          (Decides decision)
          assignment_id
          db
          (decide_assignment env guide_os_id assignment_id decision decision_event_id decided_at
            before db).1
  unfolding decide_assignment
  decide_assignment-OnlyTurns guide_os_id assignment_id decision decision_event_id decided_at =
      submit_rule (decision_operation env) (OnlyTurns offered (Decides decision) assignment_id db)
        env.busy _ db (λ k. inl refl)
        (λ w a db' planned e.
          let asked =
            request_planned env guide_os_id assignment_id decision decision_event_id decided_at
              before db db' a w planned in
          outcome-OnlyTurns assignment_id decision w db' a asked.named asked.decision
            (decision_effect env w db db' a e))

  transition_planned :
      (event : AssignmentLifecycleIntake) (h : String) (n : NormalizedTransition)
      → transition_request env event before ≡ ok (write (h, n))
      → normalize_assignment_lifecycle env event ≡ ok n
  unfolding transition_request transition_plan
  transition_planned event h n planned = ground arith

  type_announced :
      (s : String) (t : LifecycleEventType)
      → event_type_of s ≡ ok t
      → ((s ≡ "assignment.withdrawn.v1") × (target_status t ≡ withdrawn))
        ⊎ ((s ≡ "assignment.expired.v1") × (target_status t ≡ expired))
  unfolding event_type_of
  type_announced s t h =
      ground (arith, eq_iff s "assignment.withdrawn.v1", eq_iff s "assignment.expired.v1")

  rest_announced :
      (event : AssignmentLifecycleIntake) (n : NormalizedTransition) (t : LifecycleEventType)
      → (require_nonempty event.event_id >>= λ event_id.
          require_nonempty event.assignment_id >>= λ assignment_id.
          validate_guide_os_id event.guide_os_id >>= λ guide_os_id.
          require_iso_datetime env event.transitioned_at >>= λ transitioned_at. ok (record {
            event_id = event_id;
            event_type = t;
            assignment_id = assignment_id;
            guide_os_id = guide_os_id;
            transitioned_at = transitioned_at;
          }))
        ≡ ok n
      → (require_nonempty event.assignment_id ≡ ok n.assignment_id) × (t ≡ n.event_type)
  rest_announced event n t h = ground arith

  announced :
      (event : AssignmentLifecycleIntake) (n : NormalizedTransition)
      → normalize_assignment_lifecycle env event ≡ ok n
      → (require_nonempty event.assignment_id ≡ ok n.assignment_id)
        × Announces event (target_status n.event_type)
  unfolding normalize_assignment_lifecycle
  announced event n normal =
      let (s, given, h) = bind-eq-ok (require_nonempty event.event_type) _ normal in
      let (t, typed, k) = bind-eq-ok (event_type_of s) _ h in
      let (named, same) = rest_announced event n t k in
      (
        named,
        elim (type_announced s t typed) [
          | inl (word, to) ↦ inl (rw (← word) given, rw (← same) to)
          | inr (word, to) ↦ inr (rw (← word) given, rw (← same) to)
        ],
      )

  -- After `apply_assignment_lifecycle_transition`, whatever it answers, every stored assignment is
  -- as it was, but for the one that the event names: that one may have turned from an open offer to
  -- the state that the event announces, withdrawn or expired, and keeps its guide, its company, its
  -- connection, its dates and its active version.
  pub apply_assignment_lifecycle_transition-OnlyTurns :
      (event : AssignmentLifecycleIntake)
      → OnlyTurns offered
          (Announces event)
          event.assignment_id
          db
          (apply_assignment_lifecycle_transition env event before db).1
  unfolding apply_assignment_lifecycle_transition
  apply_assignment_lifecycle_transition-OnlyTurns event =
      submit_rule (transition_write env)
        (OnlyTurns offered (Announces event) event.assignment_id db) env.busy _ db (λ k. inl refl)
        (λ (h, n) a db' planned e. elim (transition_effect env h n db db' a e) [
          | inl same ↦ rw same (λ k. inl refl)
          | inr (row, c) ↦
              let (named, to) = announced event n (transition_planned event h n planned) in
              let turned : close_offer n row ≡ record row {
                status = target_status n.event_type;
                updated_at = n.transitioned_at;
              } =
                ground (
                  arith,
                  c.guide,
                  c.was_offered,
                  c.unprojected,
                  eq_iff row.guide_os_id n.guide_os_id,
                ) in
              let turns : Turns offered (Announces event) row (close_offer n row) =
                rw turned (record {
                  was = c.was_offered;
                  now = to;
                  guide = refl;
                  company = refl;
                  connection = refl;
                  starts = refl;
                  ends = refl;
                  version = refl;
                }) in
              modify-OnlyTurns offered (Announces event) event.assignment_id n.assignment_id
                (close_offer n) row db db' (λ r. ground arith) named c.found turns (rw c.frame refl)
        ])
