-- ===== src/Connection/Turned.antt =====
-- What a decision of the guide turns a stored connection into.
use guide_os.Prelude.{
  String, eq_iff, eq_refl, ◌==◌, text_eq, ◌≡◌, refl, ◌⊎◌, inl, inr, Option, some, arith, Bool-cases,
}
use guide_os.Errors.{ok, bind-eq-ok, ◌>>=◌}
use guide_os.Validation.{require_nonempty}
use guide_os.Identity.{validate_guide_os_id}
use guide_os.Platform.{Platform}
use guide_os.Database.{
  Db, Connection, ConnectionStatus, ConnectionDecisionType, confirm, decline, invited, confirmed,
  declined, find, modify, find-modify,
}
use guide_os.Database.Write.{write, submit_rule}
use guide_os.Connection.Intake.{connection_key}
use guide_os.Connection.Decide.{
  ConnectionDecisionWrite, apply_decision, decision_plan, decision_operation, decide_connection,
}
use guide_os.Connection.Effects.{decision_effect}

-- The state that the guide asks for.
abbrev pub Decided : ConnectionDecisionType → ConnectionStatus → Type 0
Decided confirm to = to ≡ confirmed
Decided decline to = to ≡ declined

-- An invitation, and the same connection once it is decided.
pub record Turns (decision : ConnectionDecisionType) (c d : Connection) : Type 0 where
  pub was : c.status ≡ invited
  pub now : Decided decision d.status
  pub guide : d.guide_os_id ≡ c.guide_os_id
  pub company : d.company_id ≡ c.company_id
  pub name : d.company_name ≡ c.company_name
  pub expires : d.invitation_expires_at ≡ c.invitation_expires_at

-- Both rows are there.
abbrev pub Turned : ConnectionDecisionType → Option Connection → Option Connection → Type 0
Turned decision (some c) (some d) = Turns decision c d
Turned decision _ _ = ⊥

-- Every row is as it was, but for that of the connection that the call names, which may have been
-- decided.
abbrev pub OnlyTurns : ConnectionDecisionType → String → Db → Db → Type 0
OnlyTurns decision connection_id db db' =
    (k : String)
    → (find connection_key k db'.connections ≡ find connection_key k db.connections)
      ⊎ ((require_nonempty connection_id ≡ ok k)
          × Turned decision (find connection_key k db.connections)
              (find connection_key k db'.connections))

modify-OnlyTurns :
    (decision : ConnectionDecisionType) (connection_id id : String) (f : Connection → Connection)
    (row : Connection) (db db' : Db)
    → ((r : Connection) → connection_key (f r) ≡ connection_key r)
    → require_nonempty connection_id ≡ ok id
    → find connection_key id db.connections ≡ some row
    → Turns decision row (f row)
    → db'.connections ≡ modify connection_key id f db.connections
    → OnlyTurns decision connection_id db db'
modify-OnlyTurns decision connection_id id f row db db' same named found turns rows k =
    elim (Bool-cases (id == k)) [
      | inl hit ↦ rw (← (eq_iff id k).0 hit) (
          inr (
            named,
            rw (rows, find-modify connection_key id id f db.connections same, eq_refl)
                (rw found turns),
          ))
      | inr miss ↦ inl (rw (rows, find-modify connection_key id k f db.connections same, miss) refl)
    ]

module _ (env : Platform) (before db : Db) where
  planned :
      (identity connection_id : String) (decision : ConnectionDecisionType) (event : String)
      (decided_at : Option String) (w : ConnectionDecisionWrite)
      → decision_plan env identity connection_id decision event decided_at before ≡ ok (write w)
      → (w.connection_id ≡ connection_id) × (w.decision ≡ decision)
  unfolding decision_plan
  planned identity connection_id decision event decided_at w h = ground arith

  request_planned :
      (guide_os_id connection_id : String) (decision : ConnectionDecisionType) (event : String)
      (decided_at : Option String) (w : ConnectionDecisionWrite)
      → (validate_guide_os_id guide_os_id >>= λ identity.
          require_nonempty connection_id >>= λ connection.
          require_nonempty event >>= λ decision_event.
          decision_plan env identity connection decision decision_event decided_at before)
        ≡ ok (write w)
      → (require_nonempty connection_id ≡ ok w.connection_id) × (w.decision ≡ decision)
  request_planned guide_os_id connection_id decision event decided_at w h =
      let (identity, _, h1) = bind-eq-ok (validate_guide_os_id guide_os_id) _ h in
      let (connection, named, h2) = bind-eq-ok (require_nonempty connection_id) _ h1 in
      let (decision_event, _, h3) = bind-eq-ok (require_nonempty event) _ h2 in
      let (about, asked) = planned identity connection decision decision_event decided_at w h3 in
      (rw about named, asked)

  -- After `decide_connection`, whatever it answers, every stored connection is as it was, but for
  -- the one that the call names: that one may have turned from an invitation to confirmed, for a
  -- confirmation, or to declined, for a refusal, and keeps its guide, its company and its expiry.
  pub decide_connection-OnlyTurns :
      (guide_os_id connection_id : String) (decision : ConnectionDecisionType)
      (decision_event_id : String) (decided_at : Option String)
      → OnlyTurns decision connection_id db
          (decide_connection env guide_os_id connection_id decision decision_event_id decided_at
            before db).1
  unfolding decide_connection
  decide_connection-OnlyTurns guide_os_id connection_id decision decision_event_id decided_at =
      submit_rule (decision_operation env) (OnlyTurns decision connection_id db) env.busy _ db
        (λ k. inl refl)
        (λ w a db' plans e. elim (decision_effect env w db db' a e) [
          | inl (same, _) ↦ rw same (λ k. inl refl)
          | inr (row, d, _) ↦
              let (named, asked) =
                request_planned guide_os_id connection_id decision decision_event_id decided_at w
                  plans in
              let turns : Turns w.decision row (apply_decision w row) =
                ground (arith, d.guide, d.was_invited, eq_iff row.guide_os_id w.identity) in
              rw (← asked) (
                modify-OnlyTurns w.decision connection_id w.connection_id (apply_decision w) row db
                  db' (λ r. ground arith) named d.found turns (rw d.frame refl))
        ])
