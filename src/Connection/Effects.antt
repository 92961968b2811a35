-- ===== src/Connection/Effects.antt =====
-- What the transactions of the connection service write, table by table.
use guide_os.Prelude.{
  ◌+◌, eq_iff, String, text_eq, true, false, ◌≡◌, ◌⊎◌, inl, inr, Option, none, some, ◌∷◌, arith,
  Option-cases,
}
use guide_os.Errors.{ok}
use guide_os.Platform.{Platform}
use guide_os.Database.{
  Db, Connection, ConnectionInbox, ConnectionDecision, invited, invited_v1, connection_invitation,
  confirmed, disconnected_v1, connection_disconnection, find, modify, find-cons,
}
use guide_os.Notification.{insert_notification_frame}
use guide_os.Connection.Intake.{ConnectionInvitationIntake, connection_key}
use guide_os.Outbox.{outbox_row, outbox_event_key, insert_outbox}
use guide_os.Connection.Intake.{ConnectionDisconnectIntake, decided_connection_key, is_expired}
use guide_os.Connection.Disconnect.{end_connection, disconnect_operation}
use guide_os.Connection.Decide.{
  ConnectionDecisionWrite, ConnectionDecisionResult, apply_decision, decision_payload,
  insert_connection_decision, write_decision, decision_operation,
}
use guide_os.Connection.Invite.{insert_connection, insert_connection_inbox, invitation_operation}

-- The row of a new invitation.
abbrev pub invited_row : ConnectionInvitationIntake → Connection
invited_row n = record {
  connection_id = n.connection_id;
  guide_os_id = n.guide_os_id;
  company_id = n.company_id;
  company_name = n.company_name;
  status = invited;
  invitation_expires_at = n.invitation_expires_at;
  invited_at = n.invited_at;
  decided_at = none;
  disconnected_at = none;
  invite_event_id = n.event_id;
  disconnect_event_id = none;
  created_at = n.invited_at;
  updated_at = n.invited_at;
}

-- The inbox entry that makes the event recognisable.
abbrev pub invited_entry : String → ConnectionInvitationIntake → ConnectionInbox
invited_entry payload_hash n = record {
  event_id = n.event_id;
  connection_id = n.connection_id;
  guide_os_id = n.guide_os_id;
  event_type = invited_v1;
  payload_hash = payload_hash;
  received_at = n.invited_at;
}

pub record Invites (payload_hash : String) (n : ConnectionInvitationIntake) (db db' : Db)
    : Type 0 where
  pub fresh : find connection_key n.connection_id db.connections ≡ none
  pub frame : db' ≡ record db {
    connections = invited_row n ∷ db.connections;
    connection_inbox = invited_entry payload_hash n ∷ db.connection_inbox;
    notifications = db'.notifications;
  }

module _ (env : Platform) where
  pub invitation_effect :
      (payload_hash : String) (n : ConnectionInvitationIntake) (db db' : Db) (a : Option Connection)
      → invitation_operation env payload_hash n db ≡ ok (a, db')
      → (db' ≡ db) ⊎ (Invites payload_hash n db db' × (a ≡ some (invited_row n)))
  unfolding invitation_operation insert_connection insert_connection_inbox
  invitation_effect payload_hash n db db' a h = ground (
    arith,
    eq_iff n.connection_id n.connection_id,
    find-cons connection_key n.connection_id (invited_row n) db.connections,
    insert_notification_frame n.event_id n.guide_os_id connection_invitation n.company_name
        n.invited_at (some n.connection_id) none none
        (record db {
          connections = invited_row n ∷ db.connections;
          connection_inbox = invited_entry payload_hash n ∷ db.connection_inbox;
        })
        db',
  )

abbrev pub disconnected_entry : String → ConnectionDisconnectIntake → ConnectionInbox
disconnected_entry payload_hash n = record {
  event_id = n.event_id;
  connection_id = n.connection_id;
  guide_os_id = n.guide_os_id;
  event_type = disconnected_v1;
  payload_hash = payload_hash;
  received_at = n.disconnected_at;
}

-- The confirmed row of the event's guide has ended.
pub record Disconnects (payload_hash : String) (n : ConnectionDisconnectIntake) (row : Connection)
    (db db' : Db) : Type 0 where
  pub found : find connection_key n.connection_id db.connections ≡ some row
  pub guide : row.guide_os_id ≡ n.guide_os_id
  pub was_confirmed : row.status ≡ confirmed
  pub frame : db' ≡ record db {
    connections = modify connection_key n.connection_id (end_connection n) db.connections;
    connection_inbox = disconnected_entry payload_hash n ∷ db.connection_inbox;
    notifications = db'.notifications;
  }

module _ (env : Platform) (payload_hash : String) (n : ConnectionDisconnectIntake) where
  disconnect_row :
      (row : Connection) (db db' : Db) (a : Option Connection)
      → find connection_key n.connection_id db.connections ≡ some row
      → disconnect_operation env payload_hash n db ≡ ok (a, db')
      → (db' ≡ db) ⊎ Disconnects payload_hash n row db db'
  unfolding disconnect_operation insert_connection_inbox
  disconnect_row row db db' a found h = ground (
    arith,
    eq_iff row.guide_os_id n.guide_os_id,
    insert_notification_frame n.event_id n.guide_os_id connection_disconnection n.company_name
        n.disconnected_at (some n.connection_id) none none
        (record db {
          connections = modify connection_key n.connection_id (end_connection n) db.connections;
          connection_inbox = disconnected_entry payload_hash n ∷ db.connection_inbox;
        })
        db',
  )

  pub disconnect_effect :
      (db db' : Db) (a : Option Connection)
      → disconnect_operation env payload_hash n db ≡ ok (a, db')
      → (db' ≡ db) ⊎ ((row : Connection) × Disconnects payload_hash n row db db')
  unfolding disconnect_operation
  disconnect_effect db db' a h =
      elim (Option-cases (find connection_key n.connection_id db.connections)) [
        | inl absent ↦ inl (ground arith)
        | inr (row, found) ↦ elim (disconnect_row row db db' a found h) [
          | inl same ↦ inl same
          | inr done ↦ inr (row, done)
        ]
      ]

-- The decision row, and what else a decision writes.
abbrev pub decision_row : ConnectionDecisionWrite → ConnectionDecision
decision_row w = record {
  decision_event_id = w.decision_event_id;
  connection_id = w.connection_id;
  guide_os_id = w.identity;
  decision_type = w.decision;
  decided_at = w.decided_at;
  created_at = w.decided_at;
}

-- The row that was open and in time has been decided, and the operator is told.
pub record Decides (env : Platform) (w : ConnectionDecisionWrite) (row : Connection) (db db' : Db)
    : Type 0 where
  pub found : find connection_key w.connection_id db.connections ≡ some row
  pub guide : row.guide_os_id ≡ w.identity
  pub was_invited : row.status ≡ invited
  pub in_time : is_expired env row (ok env.locked_at) ≡ ok false
  pub undecided : find decided_connection_key w.connection_id db.connection_decisions ≡ none
  pub unsent : find outbox_event_key w.decision_event_id db.outbox ≡ none
  pub frame : db' ≡ record db {
    connections = modify connection_key w.connection_id (apply_decision w) db.connections;
    connection_decisions = decision_row w ∷ db.connection_decisions;
    outbox =
        outbox_row
          (db.outbox_sequence + 1)
          w.decision_event_id
          "guide_connection.decided.v1"
          "guide_connection"
          w.connection_id
          w.identity
          (env.dumps (decision_payload w row))
          w.decided_at
        ∷ db.outbox;
    outbox_sequence = db.outbox_sequence + 1;
  }

module _ (env : Platform) (w : ConnectionDecisionWrite) where
  write_decision_effect :
      (row : Connection) (db db' : Db) (a : ConnectionDecisionResult)
      → find connection_key w.connection_id db.connections ≡ some row
      → row.guide_os_id ≡ w.identity
      → row.status ≡ invited
      → is_expired env row (ok env.locked_at) ≡ ok false
      → write_decision env w row db ≡ ok (a, db')
      → Decides env w row db db' × (a.replayed ≡ false)
  unfolding write_decision insert_connection_decision insert_outbox
  write_decision_effect row db db' a found guide open_ in_time h = ground arith

  decision_row_effect :
      (row : Connection) (db db' : Db) (a : ConnectionDecisionResult)
      → find connection_key w.connection_id db.connections ≡ some row
      → decision_operation env w db ≡ ok (a, db')
      → ((db' ≡ db) × (a.replayed ≡ true)) ⊎ (Decides env w row db db' × (a.replayed ≡ false))
  unfolding decision_operation
  decision_row_effect row db db' a found h =
      ground (arith, eq_iff row.guide_os_id w.identity, write_decision_effect row db db' a)

  pub decision_effect :
      (db db' : Db) (a : ConnectionDecisionResult)
      → decision_operation env w db ≡ ok (a, db')
      → ((db' ≡ db) × (a.replayed ≡ true))
        ⊎ ((row : Connection) × Decides env w row db db' × (a.replayed ≡ false))
  unfolding decision_operation
  decision_effect db db' a h =
      elim (Option-cases (find connection_key w.connection_id db.connections)) [
        | inl absent ↦ absurd (ground arith)
        | inr (row, found) ↦ elim (decision_row_effect row db db' a found h) [
          | inl same ↦ inl same
          | inr (done, fresh) ↦ inr (row, done, fresh)
        ]
      ]
