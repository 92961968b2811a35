-- ===== src/Assignment/Effects/Offered.antt =====
-- What the transaction of `receive_assignment_offer` writes.
use guide_os.Prelude.{
  String, eq_refl, text_eq, number_eq, true, ◌≡◌, ◌⊎◌, Option, none, some, ◌∷◌, arith, or_else,
}
use guide_os.Errors.{ok}
use guide_os.Platform.{Platform}
use guide_os.Database.{Db, Assignment, assignment_offer, find, find-cons}
use guide_os.Notification.{insert_notification_frame}
use guide_os.Connection.Intake.{connection_key}
use guide_os.Assignment.Intake.{NormalizedOffer}
use guide_os.Assignment.Store.{
  assignment_key, insert_assignment, insert_version, insert_offer_inbox,
}
use guide_os.Assignment.Offer.{
  offered_row, offer_entry, offer_version, is_open_connection, offer_operation,
}

-- A fresh offer under a connection that is still confirmed.
pub record Offers (env : Platform) (payload_hash : String) (n : NormalizedOffer) (db db' : Db)
    : Type 0 where
  pub fresh : find assignment_key n.assignment_id db.assignments ≡ none
  pub gate : is_open_connection n (find connection_key n.guide_connection_id db.connections) ≡ true
  pub frame : db' ≡ record db {
    assignments = offered_row n (or_else n.offered_at env.utc_now) ∷ db.assignments;
    versions = offer_version env n (or_else n.offered_at env.utc_now) ∷ db.versions;
    offer_inbox = offer_entry payload_hash n (or_else n.offered_at env.utc_now) ∷ db.offer_inbox;
    notifications = db'.notifications;
  }

module _ (env : Platform) where
  pub offer_effect :
      (payload_hash : String) (n : NormalizedOffer) (db db' : Db) (a : Option Assignment)
      → offer_operation env payload_hash n db ≡ ok (a, db')
      → (db' ≡ db)
        ⊎ (Offers env payload_hash n db db'
            × (a ≡ some (offered_row n (or_else n.offered_at env.utc_now))))
  unfolding offer_operation insert_assignment insert_version insert_offer_inbox
  offer_effect payload_hash n db db' a h = ground (
    arith,
    eq_refl n.assignment_id,
    find-cons assignment_key n.assignment_id (offered_row n (or_else n.offered_at env.utc_now))
        db.assignments,
    insert_notification_frame n.event_id n.guide_os_id assignment_offer n.company_name
        (or_else n.offered_at env.utc_now) none (some n.assignment_id) (some 1)
        (record db {
          assignments = offered_row n (or_else n.offered_at env.utc_now) ∷ db.assignments;
          versions = offer_version env n (or_else n.offered_at env.utc_now) ∷ db.versions;
          offer_inbox =
              offer_entry payload_hash n (or_else n.offered_at env.utc_now) ∷ db.offer_inbox;
        })
        db',
  )
