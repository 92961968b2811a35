-- ===== src/Connection/Disconnect.antt =====
-- `receive_connection_disconnect`: a confirmed connection ends for good.
use guide_os.Prelude.{
  String, ◌==◌, text_eq, Bool, false, not, ◌||◌, ◌&&◌, Option, none, some, List, [], ◌∷◌,
  if◌then◌else◌,
}
use guide_os.Errors.{
  Result, ok, err, ◌>>=◌, ◌>>◌, raise_if, or_raise, validation_error, not_found, not_actionable,
  Detail, idempotency_conflict, integrity_error,
}
use guide_os.Platform.{Platform}
use guide_os.Database.{
  Db, Connection, disconnected, disconnected_v1, connection_disconnection, find, modify,
}
use guide_os.Database.Write.{Operation, Plan, answer, write, hashed, submit}
use guide_os.Notification.{insert_guide_operator_guide_notification}
use guide_os.Connection.Intake.{
  ConnectionDisconnectIntake, connection_key, inbox_key, disconnect_payload, normalize_disconnect,
  is_confirmed, is_disconnected, of_guide,
}
use guide_os.Connection.Invite.{answer_row, insert_connection_inbox}

-- `row["disconnect_event_id"] == event_id`
abbrev pub has_event : Option String → String → Bool
has_event none event_id = false
has_event (some e) event_id = e == event_id

-- Another row violates UNIQUE(disconnect_event_id).
event_used : String → String → List Connection → Bool
event_used connection_id event_id [] = false
event_used connection_id event_id (c ∷ rows) =
    (not (c.connection_id == connection_id) && has_event c.disconnect_event_id event_id)
    || event_used connection_id event_id rows

abbrev pub mismatched : ConnectionDisconnectIntake → Connection → Bool
mismatched n c = not (c.company_id == n.company_id) || not (c.company_name == n.company_name)

-- `dict(row) if row else None` of the connection named by the event
abbrev pub end_connection : ConnectionDisconnectIntake → Connection → Connection
end_connection n c =
    if (c.guide_os_id == n.guide_os_id) && is_confirmed c.status
    then record c {
      status = disconnected;
      disconnected_at = some n.disconnected_at;
      disconnect_event_id = some n.event_id;
      updated_at = n.disconnected_at;
    }
    else c

-- The checks on the stored row, which are made before the transaction and again inside it:
-- `some row` is the answer to a repeated event, `none` goes on to write.
abbrev pub check_row : ConnectionDisconnectIntake → Connection → Result (Option Connection)
check_row n c = do
  raise_if (mismatched n c) idempotency_conflict
  if is_disconnected c.status
      then (if has_event c.disconnect_event_id n.event_id
          then ok (some c)
          else err idempotency_conflict)
      else (if is_confirmed c.status then ok none else err (not_actionable Detail.plain))

module _ (env : Platform) where
  unfoldable pub disconnect_plan :
      ConnectionDisconnectIntake
      → String
      → Db
      → Result (Plan ConnectionDisconnectIntake (Option Connection))
  disconnect_plan n payload_hash db = elim (find inbox_key n.event_id db.connection_inbox) [
    | some inbox ↦ do
      raise_if (not (inbox.payload_hash == payload_hash)) idempotency_conflict
      stored ←
          or_raise (find connection_key n.connection_id db.connections)
            (validation_error Detail.plain)
      ok (answer (some stored))
    | none ↦ do
      connection ←
          or_raise (of_guide n.guide_os_id (find connection_key n.connection_id db.connections))
            not_found
      checked ← check_row n connection
      ok (elim checked [ some c ↦ answer (some c) | none ↦ write n ])
  ]

  unfoldable pub disconnect_operation :
      String → ConnectionDisconnectIntake → Operation (Option Connection)
  unfolding event_used
  disconnect_operation payload_hash n db = elim (find inbox_key n.event_id db.connection_inbox) [
    | some inbox ↦ do
      raise_if (not (inbox.payload_hash == payload_hash)) idempotency_conflict
      ok (find connection_key n.connection_id db.connections, db)
    | none ↦ do
      locked ←
          or_raise (of_guide n.guide_os_id (find connection_key n.connection_id db.connections))
            not_found
      checked ← check_row n locked
      elim checked [
        | some c ↦ ok (some c, db)
        | none ↦ do
          raise_if (event_used n.connection_id n.event_id db.connections) integrity_error
          let ended = record db {
            connections = modify connection_key n.connection_id (end_connection n) db.connections;
          }
          updated ←
              or_raise (find connection_key n.connection_id ended.connections)
                (not_actionable Detail.plain)
          raise_if (not (is_disconnected updated.status)) (not_actionable Detail.plain)
          with_inbox ←
              insert_connection_inbox
                (record {
                  event_id = n.event_id;
                  connection_id = n.connection_id;
                  guide_os_id = n.guide_os_id;
                  event_type = disconnected_v1;
                  payload_hash = payload_hash;
                  received_at = n.disconnected_at;
                })
                ended
          notified ←
              insert_guide_operator_guide_notification n.event_id n.guide_os_id
                connection_disconnection n.company_name n.disconnected_at (some n.connection_id)
                none none with_inbox
          ok (some updated, notified)
      ]
  ]

  unfoldable pub disconnect_request :
      ConnectionDisconnectIntake
      → Db
      → Result (Plan (String × ConnectionDisconnectIntake) (Option Connection))
  disconnect_request event before = do
    n ← normalize_disconnect env event
    decided ← disconnect_plan n (env.canonical_hash (disconnect_payload n)) before
    ok (hashed (env.canonical_hash (disconnect_payload n)) decided)

  abbrev pub disconnect_write : String × ConnectionDisconnectIntake → Operation (Option Connection)
  disconnect_write (payload_hash, n) = disconnect_operation payload_hash n

  unfoldable pub receive_connection_disconnect :
      ConnectionDisconnectIntake → Db → Db → Result Connection × Db
  receive_connection_disconnect event before db =
      answer_row (submit env.busy (disconnect_request event before) disconnect_write db)
