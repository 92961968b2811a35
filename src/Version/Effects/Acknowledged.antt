-- ===== src/Version/Effects/Acknowledged.antt =====
-- What the transaction of `acknowledge_ordinary_version` writes.
use guide_os.Prelude.{
  ◌+◌, eq_iff, eqb_iff, text_eq, number_eq, ◌≡◌, ◌⊎◌, inl, inr, none, some, true, ◌∷◌, arith,
  Option-cases,
}
use guide_os.Errors.{ok}
use guide_os.Platform.{Platform}
use guide_os.Database.{Db, Assignment, AssignmentVersion, accepted, ordinary, find, modify}
use guide_os.Outbox.{outbox_row, outbox_event_key, insert_outbox}
use guide_os.Assignment.Store.{assignment_key, find_version}
use guide_os.Version.Store.{find_acknowledgement, insert_acknowledgement}
use guide_os.Version.Acknowledge.{
  AcknowledgeWrite, AssignmentVersionAcknowledgeResult, acknowledgement_row, mark_read,
  acknowledged_payload, write_acknowledgement, acknowledge_operation,
}

-- The guide has read the active ordinary version, and the operator is told.
pub record Acknowledges (env : Platform) (w : AcknowledgeWrite) (row : Assignment)
    (version : AssignmentVersion) (db db' : Db) : Type 0 where
  pub found : find assignment_key w.assignment_id db.assignments ≡ some row
  pub guide : row.guide_os_id ≡ w.identity
  pub was_accepted : row.status ≡ accepted
  pub active : row.active_version_number ≡ w.version_number
  pub unread : row.active_version_unread ≡ true
  pub snapshot : find_version w.assignment_id w.version_number db.versions ≡ some version
  pub was_ordinary : version.severity ≡ ordinary
  pub unread_before :
      find_acknowledgement w.assignment_id w.version_number db.version_acknowledgements ≡ none
  pub unsent : find outbox_event_key w.decision_event_id db.outbox ≡ none
  pub frame : db' ≡ record db {
    version_acknowledgements = acknowledgement_row w env.utc_now ∷ db.version_acknowledgements;
    assignments = modify assignment_key w.assignment_id (mark_read w env.utc_now) db.assignments;
    outbox =
        outbox_row
          (db.outbox_sequence + 1)
          w.decision_event_id
          "assignment.version.acknowledged.v1"
          "guide_assignment"
          w.assignment_id
          w.identity
          (env.dumps (acknowledged_payload w))
          env.utc_now
        ∷ db.outbox;
    outbox_sequence = db.outbox_sequence + 1;
  }

module _ (env : Platform) (w : AcknowledgeWrite) where
  acknowledge_row :
      (row : Assignment) (version : AssignmentVersion) (db db' : Db)
      (a : AssignmentVersionAcknowledgeResult)
      → find assignment_key w.assignment_id db.assignments ≡ some row
      → find_version w.assignment_id w.version_number db.versions ≡ some version
      → acknowledge_operation env w db ≡ ok (a, db')
      → (db' ≡ db) ⊎ Acknowledges env w row version db db'
  unfolding acknowledge_operation write_acknowledgement insert_acknowledgement insert_outbox
  acknowledge_row row version db db' a found snapshot h =
      ground (
        arith,
        eq_iff row.guide_os_id w.identity,
        eqb_iff row.active_version_number w.version_number,
      )

  acknowledge_absent :
      (db db' : Db) (a : AssignmentVersionAcknowledgeResult)
      → acknowledge_operation env w db ≡ ok (a, db')
      → (find assignment_key w.assignment_id db.assignments ≡ none)
        ⊎ (find_version w.assignment_id w.version_number db.versions ≡ none)
      → db' ≡ db
  unfolding acknowledge_operation
  acknowledge_absent db db' a h (inl absent) = ground arith
  acknowledge_absent db db' a h (inr absent) = ground arith

  pub acknowledge_effect :
      (db db' : Db) (a : AssignmentVersionAcknowledgeResult)
      → acknowledge_operation env w db ≡ ok (a, db')
      → (db' ≡ db)
        ⊎ ((row : Assignment) × (version : AssignmentVersion) × Acknowledges env w row version db
              db')
  acknowledge_effect db db' a h =
      elim (Option-cases (find assignment_key w.assignment_id db.assignments)) [
        | inl absent ↦ inl (acknowledge_absent db db' a h (inl absent))
        | inr (row, found) ↦
            elim (Option-cases (find_version w.assignment_id w.version_number db.versions)) [
              | inl absent ↦ inl (acknowledge_absent db db' a h (inr absent))
              | inr (version, snapshot) ↦
                  elim (acknowledge_row row version db db' a found snapshot h) [
                    | inl same ↦ inl same
                    | inr done ↦ inr (row, version, done)
                  ]
            ]
      ]
