-- ===== src/Assignment/Offer.antt =====
-- `receive_assignment_offer`.
use guide_os.Prelude.{
  Bool, ◌&&◌, String, ◌==◌, text_eq, not, Option, none, some, false, is_some, or_else,
  if◌then◌else◌,
}
use guide_os.Errors.{
  Result, ok, err, ◌>>=◌, ◌>>◌, raise_if, or_raise, validation_error, Detail, idempotency_conflict,
}
use guide_os.Platform.{Platform}
use guide_os.Database.{
  Db, Assignment, AssignmentVersion, OfferInbox, Connection, offered, initial, assignment_offer,
  find,
}
use guide_os.Database.Write.{Operation, Plan, answer, write, hashed, submit}
use guide_os.Notification.{insert_guide_operator_guide_notification}
use guide_os.Connection.Intake.{connection_key, is_confirmed}
use guide_os.Connection.Invite.{guide_key}
use guide_os.Connection.Gate.{require_confirmed_connection_for_offer}
use guide_os.Assignment.Intake.{
  AssignmentOfferIntake, NormalizedOffer, offer_payload, normalize_offer,
}
use guide_os.Assignment.Store.{
  assignment_key, offer_inbox_key, insert_assignment, insert_version, insert_offer_inbox,
}

-- The row of a new offer.
abbrev pub offered_row : NormalizedOffer → String → Assignment
offered_row n offered_at = record {
  assignment_id = n.assignment_id;
  guide_os_id = n.guide_os_id;
  company_id = n.company_id;
  company_name = n.company_name;
  guide_connection_id = n.guide_connection_id;
  role = n.role;
  start_date = n.start_date;
  end_date = n.end_date;
  response_deadline = n.response_deadline;
  operator_message = n.operator_message;
  status = offered;
  active_version_number = 1;
  projection_tour_id = none;
  offer_event_id = n.event_id;
  offered_at = offered_at;
  decided_at = none;
  cancelled_at = none;
  cancellation_event_id = none;
  created_at = offered_at;
  updated_at = offered_at;
  active_version_unread = false;
  pending_critical_version_number = none;
}

abbrev pub offer_entry : String → NormalizedOffer → String → OfferInbox
offer_entry payload_hash n offered_at = record {
  event_id = n.event_id;
  assignment_id = n.assignment_id;
  guide_os_id = n.guide_os_id;
  payload_hash = payload_hash;
  received_at = offered_at;
}

-- `if result is None: raise AssignmentValidationError`, after the transaction
abbrev pub answer_row : Result (Option Assignment) × Db → Result Assignment × Db
answer_row (result, db) = (result >>= (λ row. or_raise row (validation_error Detail.plain)), db)

-- The connection that the transaction reads again.
abbrev pub is_open_connection : NormalizedOffer → Option Connection → Bool
is_open_connection n none = false
is_open_connection n (some c) =
    (c.guide_os_id == n.guide_os_id) && (c.company_id == n.company_id) && is_confirmed c.status

module _ (env : Platform) where
  abbrev pub offer_version : NormalizedOffer → String → AssignmentVersion
  offer_version n offered_at = record {
    assignment_id = n.assignment_id;
    version_number = 1;
    severity = initial;
    working_package_json = env.dumps n.working_package;
    published_at = offered_at;
    change_summary_json = none;
    source_event_id = none;
  }

  -- The reads before the transaction.
  unfoldable pub offer_plan :
      NormalizedOffer → String → Db → Result (Plan NormalizedOffer (Option Assignment))
  offer_plan n payload_hash db = elim (find offer_inbox_key n.event_id db.offer_inbox) [
    | some inbox ↦ do
      raise_if (not (inbox.payload_hash == payload_hash)) idempotency_conflict
      stored ←
          or_raise (find assignment_key n.assignment_id db.assignments)
            (validation_error Detail.plain)
      ok (answer (some stored))
    | none ↦ elim (find assignment_key n.assignment_id db.assignments) [
      | some existing ↦ elim (find offer_inbox_key existing.offer_event_id db.offer_inbox) [
        | some prior ↦
            if prior.payload_hash == payload_hash
            then ok (answer (some existing))
            else err idempotency_conflict
        | none ↦ err idempotency_conflict
      ]
      | none ↦ do
        raise_if (not (is_some (find guide_key n.guide_os_id db.users)))
            (validation_error Detail.integration_unavailable)
        gate ←
            require_confirmed_connection_for_offer env n.guide_connection_id n.guide_os_id
              n.company_id n.offered_at db
        ok (write n)
    ]
  ]

  unfoldable pub offer_operation : String → NormalizedOffer → Operation (Option Assignment)
  offer_operation payload_hash n db =
      let offered_at = or_else n.offered_at env.utc_now in
      elim (find offer_inbox_key n.event_id db.offer_inbox) [
        | some inbox ↦ do
          raise_if (not (inbox.payload_hash == payload_hash)) idempotency_conflict
          ok (find assignment_key n.assignment_id db.assignments, db)
        | none ↦ do
          raise_if (is_some (find assignment_key n.assignment_id db.assignments))
              idempotency_conflict
          raise_if
              (not
                (is_open_connection n (find connection_key n.guide_connection_id db.connections)))
              (validation_error Detail.connection_not_confirmed)
          with_assignment ← insert_assignment (offered_row n offered_at) db
          with_version ← insert_version (offer_version n offered_at) with_assignment
          with_inbox ← insert_offer_inbox (offer_entry payload_hash n offered_at) with_version
          notified ←
              insert_guide_operator_guide_notification n.event_id n.guide_os_id assignment_offer
                n.company_name offered_at none (some n.assignment_id) (some 1) with_inbox
          ok (find assignment_key n.assignment_id notified.assignments, notified)
      ]

  -- Everything before the transaction, with the digest of the normalised offer.
  unfoldable pub offer_request :
      AssignmentOfferIntake → Db → Result (Plan (String × NormalizedOffer) (Option Assignment))
  offer_request event before = do
    n ← normalize_offer env event
    decided ← offer_plan n (env.canonical_hash (offer_payload env n)) before
    ok (hashed (env.canonical_hash (offer_payload env n)) decided)

  abbrev pub offer_write : String × NormalizedOffer → Operation (Option Assignment)
  offer_write (payload_hash, n) = offer_operation payload_hash n

  -- The whole call: its reads saw `before`, its transaction runs on `db`.
  unfoldable pub receive_assignment_offer : AssignmentOfferIntake → Db → Db → Result Assignment × Db
  receive_assignment_offer event before db =
      answer_row (submit env.busy (offer_request event before) offer_write db)
