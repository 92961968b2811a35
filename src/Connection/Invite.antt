-- ===== src/Connection/Invite.antt =====
-- `receive_connection_invitation`.
use guide_os.Prelude.{
  String, ◌==◌, text_eq, not, ◌||◌, Option, none, some, ◌∷◌, is_some, if◌then◌else◌,
}
use guide_os.Errors.{
  Result, ok, err, ◌>>=◌, ◌>>◌, raise_if, or_raise, validation_error, Detail, idempotency_conflict,
  integrity_error,
}
use guide_os.Platform.{Platform}
use guide_os.Database.{
  Db, User, Connection, ConnectionInbox, invited, invited_v1, connection_invitation, find, taken,
}
use guide_os.Database.Write.{Operation, Plan, answer, write, hashed, submit}
use guide_os.Notification.{insert_guide_operator_guide_notification}
use guide_os.Connection.Intake.{
  ConnectionInvitationIntake, connection_key, invite_event_key, inbox_key, invitation_payload,
  normalize_invitation,
}

abbrev pub guide_key : User → String
guide_key u = u.guide_os_id

-- INSERT INTO guide_operator_connections
unfoldable pub insert_connection : Connection → Db → Result Db
insert_connection c db = do
  raise_if
      (taken connection_key c.connection_id db.connections
        || taken invite_event_key c.invite_event_id db.connections)
      integrity_error
  ok (record db { connections = c ∷ db.connections })

-- INSERT INTO guide_operator_connection_inbox
unfoldable pub insert_connection_inbox : ConnectionInbox → Db → Result Db
insert_connection_inbox r db = do
  raise_if (taken inbox_key r.event_id db.connection_inbox) integrity_error
  ok (record db { connection_inbox = r ∷ db.connection_inbox })

-- `if result is None: raise ConnectionValidationError`, after the transaction
abbrev pub answer_row : Result (Option Connection) × Db → Result Connection × Db
answer_row (result, db) = (result >>= (λ row. or_raise row (validation_error Detail.plain)), db)

module _ (env : Platform) where
  -- The reads before the transaction.
  unfoldable pub invitation_plan :
      ConnectionInvitationIntake
      → String
      → Db
      → Result (Plan ConnectionInvitationIntake (Option Connection))
  invitation_plan n payload_hash db = elim (find inbox_key n.event_id db.connection_inbox) [
    | some inbox ↦ do
      raise_if (not (inbox.payload_hash == payload_hash)) idempotency_conflict
      stored ←
          or_raise (find connection_key n.connection_id db.connections)
            (validation_error Detail.plain)
      ok (answer (some stored))
    | none ↦ elim (find connection_key n.connection_id db.connections) [
      | some existing ↦ elim (find inbox_key existing.invite_event_id db.connection_inbox) [
        | some prior ↦
            if prior.payload_hash == payload_hash
            then ok (answer (some existing))
            else err idempotency_conflict
        | none ↦ err idempotency_conflict
      ]
      | none ↦ do
        raise_if (not (is_some (find guide_key n.guide_os_id db.users)))
            (validation_error Detail.integration_unavailable)
        ok (write n)
    ]
  ]

  -- The transaction; `none` is an inbox entry without its connection.
  unfoldable pub invitation_operation :
      String → ConnectionInvitationIntake → Operation (Option Connection)
  invitation_operation payload_hash n db = elim (find inbox_key n.event_id db.connection_inbox) [
    | some inbox ↦ do
      raise_if (not (inbox.payload_hash == payload_hash)) idempotency_conflict
      ok (find connection_key n.connection_id db.connections, db)
    | none ↦ do
      raise_if (is_some (find connection_key n.connection_id db.connections)) idempotency_conflict
      with_connection ←
          insert_connection
            (record {
              connection_id = n.connection_id;
              guide_os_id = n.guide_os_id;
              company_id = n.company_id;
              company_name = n.company_name;
              status = invited;
              invitation_expires_at = n.invitation_expires_at;
              invited_at = n.invited_at;
              decided_at = none;
              disconnected_at = none;
              invite_event_id = n.event_id;
              disconnect_event_id = none;
              created_at = n.invited_at;
              updated_at = n.invited_at;
            })
            db
      with_inbox ←
          insert_connection_inbox
            (record {
              event_id = n.event_id;
              connection_id = n.connection_id;
              guide_os_id = n.guide_os_id;
              event_type = invited_v1;
              payload_hash = payload_hash;
              received_at = n.invited_at;
            })
            with_connection
      notified ←
          insert_guide_operator_guide_notification n.event_id n.guide_os_id connection_invitation
            n.company_name n.invited_at (some n.connection_id) none none with_inbox
      ok (find connection_key n.connection_id notified.connections, notified)
  ]

  -- Everything before the transaction, with the digest of the normalised event.
  unfoldable pub invitation_request :
      ConnectionInvitationIntake
      → Db
      → Result (Plan (String × ConnectionInvitationIntake) (Option Connection))
  invitation_request event before = do
    n ← normalize_invitation env event
    decided ← invitation_plan n (env.canonical_hash (invitation_payload n)) before
    ok (hashed (env.canonical_hash (invitation_payload n)) decided)

  abbrev pub invitation_write : String × ConnectionInvitationIntake → Operation (Option Connection)
  invitation_write (payload_hash, n) = invitation_operation payload_hash n

  -- The whole call: its reads saw `before`, its transaction runs on `db`.
  unfoldable pub receive_connection_invitation :
      ConnectionInvitationIntake → Db → Db → Result Connection × Db
  receive_connection_invitation event before db =
      answer_row (submit env.busy (invitation_request event before) invitation_write db)
