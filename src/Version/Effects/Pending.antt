-- ===== src/Version/Effects/Pending.antt =====
-- What the transaction of `intake_critical_assignment_version` writes.
use guide_os.Prelude.{
  ◌+◌, suc, String, eq_iff, eqb_iff, text_eq, number_eq, ◌≡◌, ◌⊎◌, inl, inr, none, some, ◌∷◌, arith,
  Option-cases,
}
use guide_os.Errors.{ok}
use guide_os.Platform.{Platform}
use guide_os.Database.{
  Db, Assignment, accepted, critical, critical_confirmation_required, find, modify,
}
use guide_os.Notification.{insert_notification_frame}
use guide_os.Outbox.{outbox_row, outbox_event_key, insert_outbox}
use guide_os.Assignment.Store.{assignment_key, find_version, insert_version}
use guide_os.Version.Intake.{PublishedVersion}
use guide_os.Version.Store.{insert_version_inbox}
use guide_os.Version.Projection.{version_entry, version_row}
use guide_os.Version.Critical.{
  AssignmentCriticalVersionIntakeResult, mark_pending, received_payload, write_critical,
  critical_operation,
}

-- A critical version waits for the guide: its snapshot is stored, the row names it as pending, and
-- the operator is told. The calendar is as it was.
pub record Pends (env : Platform) (payload_hash : String) (n : PublishedVersion) (row : Assignment)
    (db db' : Db) : Type 0 where
  pub found : find assignment_key n.assignment_id db.assignments ≡ some row
  pub guide : row.guide_os_id ≡ n.guide_os_id
  pub was_accepted : row.status ≡ accepted
  pub idle : row.pending_critical_version_number ≡ none
  pub previous : row.active_version_number ≡ n.previous_active
  pub next : n.version_number ≡ suc row.active_version_number
  pub fresh : find_version n.assignment_id n.version_number db.versions ≡ none
  pub unsent : find outbox_event_key n.event_id db.outbox ≡ none
  pub frame : db' ≡ record db {
    version_inbox = version_entry payload_hash n env.utc_now ∷ db.version_inbox;
    versions = version_row env critical n ∷ db.versions;
    assignments = modify assignment_key n.assignment_id (mark_pending n env.utc_now) db.assignments;
    outbox =
        outbox_row
          (db.outbox_sequence + 1)
          n.event_id
          "assignment.version.received.ack.v1"
          "guide_assignment"
          n.assignment_id
          n.guide_os_id
          (env.dumps (received_payload n env.utc_now))
          env.utc_now
        ∷ db.outbox;
    outbox_sequence = db.outbox_sequence + 1;
    notifications = db'.notifications;
  }

module _ (env : Platform) (payload_hash : String) (n : PublishedVersion) where
  critical_branches :
      (row : Assignment) (db db' : Db) (a : AssignmentCriticalVersionIntakeResult)
      → find assignment_key n.assignment_id db.assignments ≡ some row
      → critical_operation env payload_hash n db ≡ ok (a, db')
      → (db' ≡ db)
        ⊎ ((row.guide_os_id ≡ n.guide_os_id)
            × (row.status ≡ accepted)
            × (row.pending_critical_version_number ≡ none)
            × (row.active_version_number ≡ n.previous_active)
            × (n.version_number ≡ suc row.active_version_number)
            × (find_version n.assignment_id n.version_number db.versions ≡ none)
            × (write_critical env payload_hash n row db ≡ ok (a, db')))
  unfolding critical_operation
  critical_branches row db db' a found h = ground (
    arith,
    eq_iff row.guide_os_id n.guide_os_id,
    eqb_iff n.previous_active row.active_version_number,
    eqb_iff n.version_number (suc row.active_version_number),
  )

  write_critical_effect :
      (row : Assignment) (db db' : Db) (a : AssignmentCriticalVersionIntakeResult)
      → find assignment_key n.assignment_id db.assignments ≡ some row
      → row.guide_os_id ≡ n.guide_os_id
      → row.status ≡ accepted
      → row.pending_critical_version_number ≡ none
      → row.active_version_number ≡ n.previous_active
      → n.version_number ≡ suc row.active_version_number
      → find_version n.assignment_id n.version_number db.versions ≡ none
      → write_critical env payload_hash n row db ≡ ok (a, db')
      → Pends env payload_hash n row db db'
  unfolding write_critical insert_version_inbox insert_version insert_outbox
  write_critical_effect row db db' a found guide status idle previous next fresh h = ground (
    arith,
    insert_notification_frame n.event_id n.guide_os_id critical_confirmation_required
        row.company_name env.utc_now none (some n.assignment_id) (some n.version_number)
        (record db {
          version_inbox = version_entry payload_hash n env.utc_now ∷ db.version_inbox;
          versions = version_row env critical n ∷ db.versions;
          assignments =
              modify assignment_key n.assignment_id (mark_pending n env.utc_now) db.assignments;
          outbox =
              outbox_row (db.outbox_sequence + 1) n.event_id "assignment.version.received.ack.v1"
                "guide_assignment" n.assignment_id n.guide_os_id
                (env.dumps (received_payload n env.utc_now)) env.utc_now
              ∷ db.outbox;
          outbox_sequence = db.outbox_sequence + 1;
        })
        db',
  )

  pub critical_effect :
      (db db' : Db) (a : AssignmentCriticalVersionIntakeResult)
      → critical_operation env payload_hash n db ≡ ok (a, db')
      → (db' ≡ db) ⊎ ((row : Assignment) × Pends env payload_hash n row db db')
  unfolding critical_operation
  critical_effect db db' a h =
      elim (Option-cases (find assignment_key n.assignment_id db.assignments)) [
        | inl absent ↦ absurd (ground arith)
        | inr (row, found) ↦ elim (critical_branches row db db' a found h) [
          | inl same ↦ inl same
          | inr (guide, status, idle, previous, next, fresh, ran) ↦ inr (
            row,
            write_critical_effect row db db' a found guide status idle previous next fresh ran,
          )
        ]
      ]
