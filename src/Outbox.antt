-- ===== src/Outbox.antt =====
-- INSERT INTO guide_operator_outbox: an event for the operator, written with the change that it
-- reports.
pub mod Sent
use guide_os.Prelude.{ℕ, ◌+◌, String, text_eq, none, ◌∷◌}
use guide_os.Errors.{Result, ok, ◌>>◌, raise_if, integrity_error}
use guide_os.Database.{Db, Outbox, taken}

abbrev pub outbox_event_key : Outbox → String
outbox_event_key o = o.event_id

-- A row that no delivery has tried yet.
abbrev pub outbox_row :
    ℕ
    → (event_id event_type aggregate_type aggregate_id guide_os_id payload_json created_at : String)
    → Outbox
outbox_row id event_id event_type aggregate_type aggregate_id guide_os_id payload_json created_at =
    record {
      id = id;
      event_id = event_id;
      event_type = event_type;
      aggregate_type = aggregate_type;
      aggregate_id = aggregate_id;
      guide_os_id = guide_os_id;
      payload_json = payload_json;
      created_at = created_at;
      delivered_at = none;
      attempt_count = 0;
      next_attempt_at = none;
      last_error_code = none;
    }

-- `AUTOINCREMENT` gives the next id; `UNIQUE(event_id)` may refuse the row.
unfoldable pub insert_outbox :
    (event_id event_type aggregate_type aggregate_id guide_os_id payload_json created_at : String)
    → Db
    → Result Db
insert_outbox event_id event_type aggregate_type aggregate_id guide_os_id payload_json created_at
      db =
    do
      raise_if (taken outbox_event_key event_id db.outbox) integrity_error
      ok (record db {
        outbox =
            outbox_row (db.outbox_sequence + 1) event_id event_type aggregate_type aggregate_id
              guide_os_id payload_json created_at
            ∷ db.outbox;
        outbox_sequence = db.outbox_sequence + 1;
      })
