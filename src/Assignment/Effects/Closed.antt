-- ===== src/Assignment/Effects/Closed.antt =====
-- What the transactions of `apply_assignment_cancellation` and
-- `apply_assignment_lifecycle_transition` write.
use guide_os.Prelude.{
  ◌+◌, String, eq_iff, text_eq, number_eq, ◌≡◌, ◌≢◌, ◌⊎◌, inl, inr, Option, none, some, List, ◌∷◌,
  arith, Option-cases, ℕ,
}
use guide_os.Errors.{Error, ok, err, Result-cases}
use guide_os.Platform.{Platform}
use guide_os.Database.{
  Db, Assignment, Tour, offered, accepted, assignment_cancellation, find, modify, remove,
}
use guide_os.Notification.{insert_notification_frame}
use guide_os.Outbox.{outbox_row, outbox_event_key, insert_outbox}
use guide_os.Assignment.Intake.{AssignmentCancellationIntake, NormalizedTransition}
use guide_os.Assignment.Store.{
  assignment_key, tour_key, insert_cancellation_inbox, insert_lifecycle_inbox,
}
use guide_os.Assignment.Allowance.{disallow_allowed}
use guide_os.Assignment.Cancel.{
  AssignmentCancellationResult, cancel_row, cancellation_entry, acknowledgement, release_projection,
  write_cancellation, cancellation_operation,
}
use guide_os.Assignment.Transition.{
  AssignmentLifecycleResult, close_offer, transition_entry, transition_operation,
}

-- The tours once the projection of a row is gone.
abbrev pub released_tours : Option ℕ → List Tour → List Tour
released_tours none tours = tours
released_tours (some t) tours = remove tour_key t tours

-- An accepted assignment has been cancelled, its projection released, and the operator is told.
pub record Cancels (env : Platform) (payload_hash : String) (n : AssignmentCancellationIntake)
    (row : Assignment) (db db' : Db) : Type 0 where
  pub found : find assignment_key n.assignment_id db.assignments ≡ some row
  pub guide : row.guide_os_id ≡ n.guide_os_id
  pub was_accepted : row.status ≡ accepted
  pub version : row.active_version_number ≡ n.version_number
  pub unsent : find outbox_event_key n.event_id db.outbox ≡ none
  pub frame : db' ≡ record db {
    cancellation_inbox = cancellation_entry payload_hash n env.utc_now ∷ db.cancellation_inbox;
    assignments = modify assignment_key n.assignment_id (cancel_row n env.utc_now) db.assignments;
    tours = released_tours row.projection_tour_id db.tours;
    outbox =
        outbox_row
          (db.outbox_sequence + 1)
          n.event_id
          "assignment.cancellation.ack.v1"
          "guide_assignment"
          n.assignment_id
          n.guide_os_id
          (env.dumps (acknowledgement n))
          env.utc_now
        ∷ db.outbox;
    outbox_sequence = db.outbox_sequence + 1;
    notifications = db'.notifications;
  }

-- An open offer has been withdrawn or has expired.
pub record Closes (env : Platform) (payload_hash : String) (n : NormalizedTransition)
    (row : Assignment) (db db' : Db) : Type 0 where
  pub found : find assignment_key n.assignment_id db.assignments ≡ some row
  pub guide : row.guide_os_id ≡ n.guide_os_id
  pub was_offered : row.status ≡ offered
  pub unprojected : row.projection_tour_id ≡ none
  pub frame : db' ≡ record db {
    lifecycle_inbox = transition_entry payload_hash n env.utc_now ∷ db.lifecycle_inbox;
    assignments = modify assignment_key n.assignment_id (close_offer n) db.assignments;
  }

module _ (env : Platform) (payload_hash : String) where
  release_projection_frame :
      (tour : Option ℕ) (db db' : Db)
      → release_projection tour db ≡ ok db'
      → db' ≡ record db { tours = released_tours tour db.tours }
  unfolding release_projection
  release_projection_frame none db db' h = ground arith
  release_projection_frame (some t) db db' h =
      ground (arith, disallow_allowed t db.projection_release)

  cancellation_branches :
      (n : AssignmentCancellationIntake) (row : Assignment) (db db' : Db)
      (a : AssignmentCancellationResult)
      → find assignment_key n.assignment_id db.assignments ≡ some row
      → cancellation_operation env payload_hash n db ≡ ok (a, db')
      → (db' ≡ db)
        ⊎ ((row.guide_os_id ≡ n.guide_os_id)
            × (row.status ≡ accepted)
            × (row.active_version_number ≡ n.version_number)
            × (write_cancellation env payload_hash n row db ≡ ok (a, db')))
  unfolding cancellation_operation
  cancellation_branches n row db db' a found h =
      ground (arith, eq_iff row.guide_os_id n.guide_os_id)

  -- The state in which a cancellation releases the projection.
  abbrev marked : AssignmentCancellationIntake → Db → Db
  marked n db = record db {
    cancellation_inbox = cancellation_entry payload_hash n env.utc_now ∷ db.cancellation_inbox;
    assignments = modify assignment_key n.assignment_id (cancel_row n env.utc_now) db.assignments;
  }

  write_cancellation_effect :
      (n : AssignmentCancellationIntake) (row : Assignment) (db db' released : Db)
      (a : AssignmentCancellationResult)
      → find assignment_key n.assignment_id db.assignments ≡ some row
      → row.guide_os_id ≡ n.guide_os_id
      → row.status ≡ accepted
      → row.active_version_number ≡ n.version_number
      → write_cancellation env payload_hash n row db ≡ ok (a, db')
      → release_projection row.projection_tour_id (marked n db) ≡ ok released
      → Cancels env payload_hash n row db db'
  unfolding write_cancellation insert_cancellation_inbox insert_outbox
  write_cancellation_effect n row db db' released a found guide open_row version h r = ground (
    arith,
    release_projection_frame row.projection_tour_id (marked n db) released,
    insert_notification_frame n.event_id n.guide_os_id assignment_cancellation row.company_name
        env.utc_now none (some n.assignment_id) (some n.version_number)
        (record released {
          outbox =
              outbox_row (released.outbox_sequence + 1) n.event_id "assignment.cancellation.ack.v1"
                "guide_assignment" n.assignment_id n.guide_os_id (env.dumps (acknowledgement n))
                env.utc_now
              ∷ released.outbox;
          outbox_sequence = released.outbox_sequence + 1;
        })
        db',
  )

  write_cancellation_releases :
      (n : AssignmentCancellationIntake) (row : Assignment) (db : Db) (x : Error)
      → release_projection row.projection_tour_id (marked n db) ≡ err x
      → (a : AssignmentCancellationResult) (db' : Db)
      → write_cancellation env payload_hash n row db ≢ ok (a, db')
  unfolding write_cancellation insert_cancellation_inbox
  write_cancellation_releases n row db x r a db' h = ground arith

  pub cancellation_effect :
      (n : AssignmentCancellationIntake) (db db' : Db) (a : AssignmentCancellationResult)
      → cancellation_operation env payload_hash n db ≡ ok (a, db')
      → (db' ≡ db) ⊎ ((row : Assignment) × Cancels env payload_hash n row db db')
  unfolding cancellation_operation
  cancellation_effect n db db' a h =
      elim (Option-cases (find assignment_key n.assignment_id db.assignments)) [
        | inl absent ↦ absurd (ground arith)
        | inr (row, found) ↦ elim (cancellation_branches n row db db' a found h) [
          | inl same ↦ inl same
          | inr (guide, accepted_row, version, ran) ↦
              elim (Result-cases (release_projection row.projection_tour_id (marked n db))) [
                | inl (released, r) ↦ inr (
                  row,
                  write_cancellation_effect n row db db' released a found guide accepted_row version
                      ran r,
                )
                | inr (x, r) ↦ absurd (write_cancellation_releases n row db x r a db' ran)
              ]
        ]
      ]

  transition_row :
      (n : NormalizedTransition) (row : Assignment) (db db' : Db) (a : AssignmentLifecycleResult)
      → find assignment_key n.assignment_id db.assignments ≡ some row
      → transition_operation env payload_hash n db ≡ ok (a, db')
      → (db' ≡ db) ⊎ Closes env payload_hash n row db db'
  unfolding transition_operation insert_lifecycle_inbox
  transition_row n row db db' a found h = ground (arith, eq_iff row.guide_os_id n.guide_os_id)

  pub transition_effect :
      (n : NormalizedTransition) (db db' : Db) (a : AssignmentLifecycleResult)
      → transition_operation env payload_hash n db ≡ ok (a, db')
      → (db' ≡ db) ⊎ ((row : Assignment) × Closes env payload_hash n row db db')
  unfolding transition_operation insert_lifecycle_inbox
  transition_effect n db db' a h =
      elim (Option-cases (find assignment_key n.assignment_id db.assignments)) [
        | inl absent ↦ absurd (ground arith)
        | inr (row, found) ↦ elim (transition_row n row db db' a found h) [
          | inl same ↦ inl same
          | inr done ↦ inr (row, done)
        ]
      ]
