-- ===== src/Version/Effects/Published.antt =====
-- What the transaction of `apply_ordinary_assignment_version` writes.
use guide_os.Prelude.{
  ◌+◌, suc, String, eq_iff, eqb_iff, text_eq, number_eq, ◌≡◌, ◌≢◌, ◌⊎◌, inl, inr, none, some, ◌∷◌,
  arith, Option-cases, ℕ,
}
use guide_os.Errors.{Error, ok, err, Result-cases, bind-eq-ok}
use guide_os.Platform.{Platform}
use guide_os.Database.{
  Tour, Db, Assignment, accepted, ordinary, ordinary_version_change, find, modify,
}
use guide_os.Notification.{insert_notification_frame}
use guide_os.Outbox.{outbox_row, outbox_event_key, insert_outbox}
use guide_os.Assignment.Store.{assignment_key, tour_key, find_version, insert_version}
use guide_os.Assignment.Allowance.{disallow_allowed}
use guide_os.Version.Intake.{PublishedVersion}
use guide_os.Version.Store.{insert_version_inbox}
use guide_os.Version.Projection.{
  Allowlist, metadata, occupancy, Labels, version_entry, version_row, relabel, update_projection,
  relabel_projection,
}
use guide_os.Version.Ordinary.{
  AssignmentOrdinaryVersionResult, activate_ordinary, applied_payload, labels_of, write_ordinary,
  ordinary_operation,
}

-- An ordinary version has taken effect: its snapshot is stored, the row has it active and unread,
-- the calendar entry shows it, and the operator is told.
pub record Publishes (env : Platform) (payload_hash : String) (n : PublishedVersion)
    (row : Assignment) (tour : ℕ) (db db' : Db) : Type 0 where
  pub found : find assignment_key n.assignment_id db.assignments ≡ some row
  pub guide : row.guide_os_id ≡ n.guide_os_id
  pub was_accepted : row.status ≡ accepted
  pub previous : row.active_version_number ≡ n.previous_active
  pub next : n.version_number ≡ suc row.active_version_number
  pub fresh : find_version n.assignment_id n.version_number db.versions ≡ none
  pub linked : row.projection_tour_id ≡ some tour
  pub unsent : find outbox_event_key n.event_id db.outbox ≡ none
  pub frame : db' ≡ record db {
    version_inbox = version_entry payload_hash n env.utc_now ∷ db.version_inbox;
    versions = version_row env ordinary n ∷ db.versions;
    assignments =
        modify assignment_key n.assignment_id (activate_ordinary n env.utc_now) db.assignments;
    tours = modify tour_key tour (relabel (labels_of env row n)) db.tours;
    outbox =
        outbox_row
          (db.outbox_sequence + 1)
          n.event_id
          "assignment.version.applied.ack.v1"
          "guide_assignment"
          n.assignment_id
          n.guide_os_id
          (env.dumps (applied_payload n env.utc_now))
          env.utc_now
        ∷ db.outbox;
    outbox_sequence = db.outbox_sequence + 1;
    notifications = db'.notifications;
  }

pub update_projection_frame :
    (list : Allowlist) (id : ℕ) (change : Tour → Tour) (db db' : Db)
    → update_projection list id change db ≡ ok db'
    → db' ≡ record db { tours = modify tour_key id change db.tours }
unfolding update_projection
update_projection_frame metadata id change db db' h =
    ground (arith, disallow_allowed id db.metadata_update)
update_projection_frame occupancy id change db db' h =
    ground (arith, disallow_allowed id db.occupancy_update)

relabel_projection_frame :
    (labels : Labels) (id : ℕ) (locked : Assignment) (db db' : Db)
    → relabel_projection labels id locked db ≡ ok db'
    → db' ≡ record db { tours = modify tour_key id (relabel labels) db.tours }
unfolding relabel_projection
relabel_projection_frame labels id locked db db' h =
    let (changed, ran, rest) = bind-eq-ok (update_projection metadata id (relabel labels) db) _ h in
    ground (arith, update_projection_frame metadata id (relabel labels) db changed)

module _ (env : Platform) (payload_hash : String) (n : PublishedVersion) where
  -- The state in which an ordinary version changes the calendar entry.
  abbrev activated : Db → Db
  activated db = record db {
    version_inbox = version_entry payload_hash n env.utc_now ∷ db.version_inbox;
    versions = version_row env ordinary n ∷ db.versions;
    assignments =
        modify assignment_key n.assignment_id (activate_ordinary n env.utc_now) db.assignments;
  }

  ordinary_unlinked :
      (row : Assignment) (db db' : Db) (a : AssignmentOrdinaryVersionResult)
      → find assignment_key n.assignment_id db.assignments ≡ some row
      → row.projection_tour_id ≡ none
      → ordinary_operation env payload_hash n db ≡ ok (a, db')
      → db' ≡ db
  unfolding ordinary_operation
  ordinary_unlinked row db db' a found unlinked h = ground arith

  ordinary_linked :
      (row : Assignment) (tour : ℕ) (db db' : Db) (a : AssignmentOrdinaryVersionResult)
      → find assignment_key n.assignment_id db.assignments ≡ some row
      → row.projection_tour_id ≡ some tour
      → ordinary_operation env payload_hash n db ≡ ok (a, db')
      → (db' ≡ db)
        ⊎ ((row.guide_os_id ≡ n.guide_os_id)
            × (row.status ≡ accepted)
            × (row.active_version_number ≡ n.previous_active)
            × (n.version_number ≡ suc row.active_version_number)
            × (find_version n.assignment_id n.version_number db.versions ≡ none)
            × (write_ordinary env payload_hash n row tour db ≡ ok (a, db')))
  unfolding ordinary_operation
  ordinary_linked row tour db db' a found linked h = ground (
    arith,
    eq_iff row.guide_os_id n.guide_os_id,
    eqb_iff n.previous_active row.active_version_number,
    eqb_iff n.version_number (suc row.active_version_number),
  )

  write_ordinary_effect :
      (row : Assignment) (tour : ℕ) (db db' relabelled : Db) (a : AssignmentOrdinaryVersionResult)
      → find assignment_key n.assignment_id db.assignments ≡ some row
      → row.guide_os_id ≡ n.guide_os_id
      → row.status ≡ accepted
      → row.active_version_number ≡ n.previous_active
      → n.version_number ≡ suc row.active_version_number
      → find_version n.assignment_id n.version_number db.versions ≡ none
      → row.projection_tour_id ≡ some tour
      → write_ordinary env payload_hash n row tour db ≡ ok (a, db')
      → relabel_projection (labels_of env row n) tour row (activated db) ≡ ok relabelled
      → Publishes env payload_hash n row tour db db'
  unfolding write_ordinary insert_version_inbox insert_version insert_outbox
  write_ordinary_effect row tour db db' relabelled a found guide status previous next fresh linked h
        r =
      ground (
        arith,
        relabel_projection_frame (labels_of env row n) tour row (activated db) relabelled,
        insert_notification_frame n.event_id n.guide_os_id ordinary_version_change row.company_name
            env.utc_now none (some n.assignment_id) (some n.version_number)
            (record relabelled {
              outbox =
                  outbox_row (relabelled.outbox_sequence + 1) n.event_id
                    "assignment.version.applied.ack.v1" "guide_assignment" n.assignment_id
                    n.guide_os_id (env.dumps (applied_payload n env.utc_now)) env.utc_now
                  ∷ relabelled.outbox;
              outbox_sequence = relabelled.outbox_sequence + 1;
            })
            db',
      )

  write_ordinary_relabels :
      (row : Assignment) (tour : ℕ) (db : Db) (x : Error)
      → relabel_projection (labels_of env row n) tour row (activated db) ≡ err x
      → (a : AssignmentOrdinaryVersionResult) (db' : Db)
      → write_ordinary env payload_hash n row tour db ≢ ok (a, db')
  unfolding write_ordinary insert_version_inbox insert_version
  write_ordinary_relabels row tour db x r a db' h = ground arith

  pub ordinary_effect :
      (db db' : Db) (a : AssignmentOrdinaryVersionResult)
      → ordinary_operation env payload_hash n db ≡ ok (a, db')
      → (db' ≡ db)
        ⊎ ((row : Assignment) × (tour : ℕ) × Publishes env payload_hash n row tour db db')
  unfolding ordinary_operation
  ordinary_effect db db' a h =
      elim (Option-cases (find assignment_key n.assignment_id db.assignments)) [
        | inl absent ↦ absurd (ground arith)
        | inr (row, found) ↦ elim (Option-cases row.projection_tour_id) [
          | inl unlinked ↦ inl (ordinary_unlinked row db db' a found unlinked h)
          | inr (tour, linked) ↦ elim (ordinary_linked row tour db db' a found linked h) [
            | inl same ↦ inl same
            | inr (guide, status, previous, next, fresh, ran) ↦
                elim (Result-cases
                  (relabel_projection (labels_of env row n) tour row (activated db))) [
                    | inl (relabelled, r) ↦ inr (
                      row,
                      tour,
                      write_ordinary_effect row tour db db' relabelled a found guide status previous
                          next fresh linked ran r,
                    )
                    | inr (x, r) ↦ absurd (write_ordinary_relabels row tour db x r a db' ran)
                  ]
          ]
        ]
      ]
