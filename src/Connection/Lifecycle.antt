-- ===== src/Connection/Lifecycle.antt =====
-- The life of a connection under every call of the service: the states that it may pass through,
-- and the identity that it keeps.
use mathlib.Core.Option
use guide_os.Prelude.{
  String, eq_iff, ◌==◌, text_eq, ◌≡◌, refl, ◌∙◌, inl, inr, Option, none, some, List, ◌∷◌, arith,
  Bool-cases,
}
use guide_os.Errors.{ok}
use guide_os.Platform.{Platform}
use guide_os.Database.{
  Db, Connection, ConnectionStatus, ConnectionDecisionType, invited, confirmed, declined,
  disconnected, find, modify, find-cons, find-modify,
}
use guide_os.Database.Write.{submit_rule}
use guide_os.Connection.Intake.{
  ConnectionInvitationIntake, ConnectionDisconnectIntake, connection_key,
}
use guide_os.Connection.Invite.{
  invitation_operation, invitation_write, receive_connection_invitation,
}
use guide_os.Connection.Disconnect.{
  end_connection, disconnect_operation, disconnect_write, receive_connection_disconnect,
}
use guide_os.Connection.Decide.{
  ConnectionDecisionWrite, ConnectionDecisionResult, apply_decision, decision_operation,
  decide_connection,
}
use guide_os.Connection.Effects.{invited_row, invitation_effect, disconnect_effect, decision_effect}

-- The states that may follow a state, at once or later.
abbrev pub Leads : ConnectionStatus → ConnectionStatus → Type 0
Leads invited _ = Unit
Leads confirmed confirmed = Unit
Leads confirmed disconnected = Unit
Leads declined declined = Unit
Leads disconnected disconnected = Unit
Leads _ _ = ⊥

-- One row later: the same connection, in a state that may follow.
pub record Follows (c d : Connection) : Type 0 where
  pub leads : Leads c.status d.status
  pub guide : d.guide_os_id ≡ c.guide_os_id
  pub company : d.company_id ≡ c.company_id
  pub name : d.company_name ≡ c.company_name

-- The row of one id before and after: it may appear, never vanishes, and follows its states.
abbrev pub Evolves : Option Connection → Option Connection → Type 0
Evolves none d = Unit
Evolves (some c) none = ⊥
Evolves (some c) (some d) = Follows c d

Leads-refl : (s : ConnectionStatus) → Leads s s
Leads-refl invited = tt
Leads-refl confirmed = tt
Leads-refl declined = tt
Leads-refl disconnected = tt

Leads-trans : (r s t : ConnectionStatus) → Leads r s → Leads s t → Leads r t
Leads-trans invited s t a b = tt
Leads-trans confirmed confirmed t a b = b
Leads-trans confirmed disconnected disconnected a b = tt
Leads-trans declined declined t a b = b
Leads-trans disconnected disconnected t a b = b
Leads-trans r s t a b = ground arith

pub Evolves-refl : (c : Option Connection) → Evolves c c
Evolves-refl none = tt
Evolves-refl (some c) = record {
  leads = Leads-refl c.status;
  guide = refl;
  company = refl;
  name = refl;
}

pub Evolves-trans : (a b c : Option Connection) → Evolves a b → Evolves b c → Evolves a c
Evolves-trans none b c h k = tt
Evolves-trans (some a) (some b) (some c) h k = record {
  leads = Leads-trans a.status b.status c.status h.leads k.leads;
  guide = k.guide ∙ h.guide;
  company = k.company ∙ h.company;
  name = k.name ∙ h.name;
}
Evolves-trans (some a) (some b) none h k = k
Evolves-trans (some a) none c h k = absurd h

-- The rows of two states, id by id.
abbrev pub Continues : Db → Db → Type 0
Continues db db' =
    (k : String)
    → Evolves (find connection_key k db.connections) (find connection_key k db'.connections)

-- Inserting a row, or changing one to a row that follows it, continues the table.
cons-Evolves :
    (c : Connection) (rows : List Connection) (k : String)
    → find connection_key c.connection_id rows ≡ none
    → Evolves (find connection_key k rows) (find connection_key k (c ∷ rows))
cons-Evolves c rows k free = elim (Bool-cases (c.connection_id == k)) [
  | inl hit ↦ rw (find-cons, hit) (rw (← (eq_iff c.connection_id k).0 hit) (rw free tt))
  | inr miss ↦ rw (find-cons, miss) (Evolves-refl (find connection_key k rows))
]

Option_map-Evolves :
    (f : Connection → Connection) (c : Option Connection)
    → ((r : Connection) → Follows r (f r))
    → Evolves c (Option.map f c)
Option_map-Evolves f none h = tt
Option_map-Evolves f (some c) h = h c

modify-Evolves :
    (id : String) (f : Connection → Connection) (rows : List Connection) (k : String)
    → ((r : Connection) → connection_key (f r) ≡ connection_key r)
    → ((r : Connection) → Follows r (f r))
    → Evolves (find connection_key k rows) (find connection_key k (modify connection_key id f rows))
modify-Evolves id f rows k same h = elim (Bool-cases (id == k)) [
  | inl hit ↦
      rw (find-modify connection_key id k f rows same, hit)
        (Option_map-Evolves f (find connection_key k rows) h)
  | inr miss ↦
      rw (find-modify connection_key id k f rows same, miss)
        (Evolves-refl (find connection_key k rows))
]

apply_decision-Follows :
    (w : ConnectionDecisionWrite) (r : Connection) → Follows r (apply_decision w r)
apply_decision-Follows w r = ground arith

end_connection-Follows :
    (n : ConnectionDisconnectIntake) (r : Connection) → Follows r (end_connection n r)
end_connection-Follows n r = ground arith

-- A transaction that leaves the rows alone, adds a fresh row or changes one to a row that follows.
invitation-Continues :
    (env : Platform) (h : String) (n : ConnectionInvitationIntake) (db db' : Db)
    (a : Option Connection)
    → invitation_operation env h n db ≡ ok (a, db')
    → Continues db db'
invitation-Continues env h n db db' a e k = elim (invitation_effect env h n db db' a e) [
  | inl same ↦ rw same (Evolves-refl (find connection_key k db.connections))
  | inr (w, _) ↦ rw w.frame (cons-Evolves (invited_row n) db.connections k w.fresh)
]

disconnect-Continues :
    (env : Platform) (h : String) (n : ConnectionDisconnectIntake) (db db' : Db)
    (a : Option Connection)
    → disconnect_operation env h n db ≡ ok (a, db')
    → Continues db db'
disconnect-Continues env h n db db' a e k = elim (disconnect_effect env h n db db' a e) [
  | inl same ↦ rw same (Evolves-refl (find connection_key k db.connections))
  | inr (row, w) ↦ rw w.frame (
      modify-Evolves n.connection_id (end_connection n) db.connections k (λ r. ground arith)
        (end_connection-Follows n))
]

decision-Continues :
    (env : Platform) (w : ConnectionDecisionWrite) (db db' : Db) (a : ConnectionDecisionResult)
    → decision_operation env w db ≡ ok (a, db')
    → Continues db db'
decision-Continues env w db db' a e k = elim (decision_effect env w db db' a e) [
  | inl (same, _) ↦ rw same (Evolves-refl (find connection_key k db.connections))
  | inr (row, d, _) ↦ rw d.frame (
      modify-Evolves w.connection_id (apply_decision w) db.connections k (λ r. ground arith)
        (apply_decision-Follows w))
]

module _ (env : Platform) (before db : Db) where
  -- `receive_connection_invitation` takes every stored connection to a state that may follow its own,
  -- and keeps its guide and its company.
  pub receive_connection_invitation-Continues :
      (event : ConnectionInvitationIntake)
      → Continues db (receive_connection_invitation env event before db).1
  unfolding receive_connection_invitation
  receive_connection_invitation-Continues event =
      submit_rule (invitation_write env) (Continues db) env.busy _ db
        (λ k. Evolves-refl (find connection_key k db.connections))
        (λ (h, n) a db' planned e. invitation-Continues env h n db db' a e)

  pub receive_connection_disconnect-Continues :
      (event : ConnectionDisconnectIntake)
      → Continues db (receive_connection_disconnect env event before db).1
  unfolding receive_connection_disconnect
  receive_connection_disconnect-Continues event =
      submit_rule (disconnect_write env) (Continues db) env.busy _ db
        (λ k. Evolves-refl (find connection_key k db.connections))
        (λ (h, n) a db' planned e. disconnect-Continues env h n db db' a e)

  -- `decide_connection` takes every stored connection to a state that may follow its own,
  -- and keeps its guide and its company.
  pub decide_connection-Continues :
      (guide_os_id connection_id : String) (decision : ConnectionDecisionType)
      (decision_event_id : String) (decided_at : Option String)
      → Continues db
          (decide_connection env guide_os_id connection_id decision decision_event_id decided_at
            before db).1
  unfolding decide_connection
  decide_connection-Continues guide_os_id connection_id decision decision_event_id decided_at =
      submit_rule (decision_operation env) (Continues db) env.busy _ db
        (λ k. Evolves-refl (find connection_key k db.connections))
        (λ w a db' planned e. decision-Continues env w db db' a e)
