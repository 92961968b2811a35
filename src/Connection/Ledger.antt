-- ===== src/Connection/Ledger.antt =====
-- Three tables that must tell one story: the connections, the guide's decisions about them, and
-- the events that report those decisions to the operator.
use guide_os.Prelude.{
  String, eq_iff, ◌==◌, text_eq, ◌≡◌, refl, ◌∙◌, inl, inr, Option, none, some, List, ◌∷◌, arith,
  Bool-cases,
}
use guide_os.Platform.{Platform}
use guide_os.Database.{
  Db, Connection, ConnectionStatus, ConnectionDecision, ConnectionDecisionType, Outbox, invited,
  confirmed, declined, disconnected, confirm, decline, find, find-cons, find-modify,
}
use guide_os.Database.Write.{submit_rule}
use guide_os.Outbox.{outbox_event_key}
use guide_os.Outbox.Sent.{Sent, Sent-cons}
use guide_os.Connection.Intake.{
  ConnectionInvitationIntake, ConnectionDisconnectIntake, connection_key, decided_connection_key,
}
use guide_os.Connection.Invite.{invitation_write, receive_connection_invitation}
use guide_os.Connection.Disconnect.{end_connection, disconnect_write, receive_connection_disconnect}
use guide_os.Connection.Decide.{
  ConnectionDecisionWrite, apply_decision, decision_operation, decide_connection,
}
use guide_os.Connection.Effects.{
  Invites, Disconnects, Decides, invited_row, decision_row, invitation_effect, disconnect_effect,
  decision_effect,
}

-- The decision that a state rests on.
abbrev pub Agrees : ConnectionStatus → Option ConnectionDecisionType → Type 0
Agrees invited none = Unit
Agrees confirmed (some confirm) = Unit
Agrees disconnected (some confirm) = Unit
Agrees declined (some decline) = Unit
Agrees _ _ = ⊥

abbrev pub decision_of : Option ConnectionDecision → Option ConnectionDecisionType
decision_of none = none
decision_of (some d) = some d.decision_type

-- A connection and the decision on record for its id.
abbrev pub Matches : Option Connection → Option ConnectionDecision → Type 0
Matches none none = Unit
Matches none (some d) = ⊥
Matches (some c) d = Agrees c.status (decision_of d)

-- The event that reports a decision is in the outbox, addressed by the connection's id.
abbrev pub IsReported : String → Option ConnectionDecision → List Outbox → Type 0
IsReported k none outbox = Unit
IsReported k (some d) outbox = Sent d.decision_event_id "guide_connection.decided.v1" k outbox

pub record IsLedger (db : Db) : Type 0 where
  pub agrees :
      (k : String)
      → Matches
          (find connection_key k db.connections)
          (find decided_connection_key k db.connection_decisions)
  pub reported :
      (k : String) → IsReported k (find decided_connection_key k db.connection_decisions) db.outbox

-- A new event hides none that is in the outbox.
IsReported-cons :
    (o : Outbox) (k : String) (d : Option ConnectionDecision) (outbox : List Outbox)
    → find outbox_event_key o.event_id outbox ≡ none
    → IsReported k d outbox
    → IsReported k d (o ∷ outbox)
IsReported-cons o k none outbox free h = tt
IsReported-cons o k (some d) outbox free h =
    Sent-cons o d.decision_event_id "guide_connection.decided.v1" k outbox free h

decision-IsReported :
    (w : ConnectionDecisionWrite) (o : Outbox) (k : String) (decisions : List ConnectionDecision)
    (outbox : List Outbox)
    → o.event_id ≡ w.decision_event_id
    → o.aggregate_id ≡ w.connection_id
    → o.event_type ≡ "guide_connection.decided.v1"
    → find outbox_event_key w.decision_event_id outbox ≡ none
    → IsReported k (find decided_connection_key k decisions) outbox
    → IsReported k (find decided_connection_key k (decision_row w ∷ decisions)) (o ∷ outbox)
decision-IsReported w o k decisions outbox event addressed typed free h =
    elim (Bool-cases (w.connection_id == k)) [
      | inl hit ↦
          rw (find-cons, hit)
            (
              o,
              rw (find-cons, (eq_iff o.event_id w.decision_event_id).1 event) refl,
              addressed ∙ (eq_iff w.connection_id k).0 hit,
              typed,
            )
      | inr miss ↦
          rw (find-cons, miss)
            (IsReported-cons o k (find decided_connection_key k decisions) outbox (rw event free) h)
    ]

invitation-IsLedger :
    (h : String) (n : ConnectionInvitationIntake) (db db' : Db)
    → Invites h n db db'
    → IsLedger db
    → IsLedger db'
invitation-IsLedger h n db db' w led = record {
  agrees = λ k. rw w.frame (
      ground (
        arith,
        find-cons connection_key k (invited_row n) db.connections,
        eq_iff n.connection_id k,
        led.agrees k,
        w.fresh,
      ));
  reported = λ k. rw w.frame (led.reported k);
}

disconnect-IsLedger :
    (h : String) (n : ConnectionDisconnectIntake) (row : Connection) (db db' : Db)
    → Disconnects h n row db db'
    → IsLedger db
    → IsLedger db'
disconnect-IsLedger h n row db db' w led = record {
  agrees = λ k. rw w.frame (
      ground (
        arith,
        find-modify connection_key n.connection_id k (end_connection n) db.connections
            (λ r. ground arith),
        eq_iff n.connection_id k,
        led.agrees k,
        w.found,
      ));
  reported = λ k. rw w.frame (led.reported k);
}

decision-IsLedger :
    (env : Platform) (w : ConnectionDecisionWrite) (row : Connection) (db db' : Db)
    → Decides env w row db db'
    → IsLedger db
    → IsLedger db'
decision-IsLedger env w row db db' d led = record {
  agrees = λ k. rw d.frame (
      ground (
        arith,
        find-modify connection_key w.connection_id k (apply_decision w) db.connections
            (λ r. ground arith),
        find-cons decided_connection_key k (decision_row w) db.connection_decisions,
        eq_iff w.connection_id k,
        eq_iff row.guide_os_id w.identity,
        led.agrees k,
        d.found,
      ));
  reported = λ k. rw d.frame (
      decision-IsReported w _ k db.connection_decisions db.outbox refl refl refl d.unsent
        (led.reported k));
}

module _ (env : Platform) (before db : Db) (led : IsLedger db) where
  -- If every connection's state rests on the decision on record for it, and every decision on
  -- record is reported in the outbox, then so it is after `receive_connection_invitation`.
  pub receive_connection_invitation-IsLedger :
      (event : ConnectionInvitationIntake)
      → IsLedger (receive_connection_invitation env event before db).1
  unfolding receive_connection_invitation
  receive_connection_invitation-IsLedger event =
      submit_rule (invitation_write env) IsLedger env.busy _ db led (λ (h, n) a db' planned e.
        elim (invitation_effect env h n db db' a e) [
          | inl same ↦ rw same led
          | inr (w, _) ↦ invitation-IsLedger h n db db' w led
        ])

  -- If every connection's state rests on the decision on record for it, and every decision on
  -- record is reported in the outbox, then so it is after `receive_connection_disconnect`.
  pub receive_connection_disconnect-IsLedger :
      (event : ConnectionDisconnectIntake)
      → IsLedger (receive_connection_disconnect env event before db).1
  unfolding receive_connection_disconnect
  receive_connection_disconnect-IsLedger event =
      submit_rule (disconnect_write env) IsLedger env.busy _ db led (λ (h, n) a db' planned e.
        elim (disconnect_effect env h n db db' a e) [
          | inl same ↦ rw same led
          | inr (row, w) ↦ disconnect-IsLedger h n row db db' w led
        ])

  -- If every connection's state rests on the decision on record for it, and every decision on
  -- record is reported in the outbox, then so it is after `decide_connection`: the state, the
  -- decision and the event are written together or not at all.
  pub decide_connection-IsLedger :
      (guide_os_id connection_id : String) (decision : ConnectionDecisionType)
      (decision_event_id : String) (decided_at : Option String)
      → IsLedger
          (decide_connection env guide_os_id connection_id decision decision_event_id decided_at
            before db).1
  unfolding decide_connection
  decide_connection-IsLedger guide_os_id connection_id decision decision_event_id decided_at =
      submit_rule (decision_operation env) IsLedger env.busy _ db led (λ w a db' planned e.
        elim (decision_effect env w db db' a e) [
          | inl (same, _) ↦ rw same led
          | inr (row, d, _) ↦ decision-IsLedger env w row db db' d led
        ])
