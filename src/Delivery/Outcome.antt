-- ===== src/Delivery/Outcome.antt =====
-- What becomes of a claimed event: when it counts as delivered, when it is tried again, and that
-- neither a late worker nor a later claim touches one that is done.
use guide_os.Prelude.{
  ℕ, Bool, true, false, String, text_eq, number_eq, eq_iff, eqb_iff, eq_refl, ◌↔◌, ◌≡◌, ◌≢◌, refl,
  ap, ◌⊎◌, inl, inr, Option, none, some, arith, is_some, if◌then◌else◌,
}
use guide_os.Json.{Json, text, boolean, Fields, get}
use guide_os.Errors.{ok}
use guide_os.Database.{Db, Outbox, find, find-modify}
use guide_os.Database.Write.{Operation, run_ok, run_write_once}
use guide_os.Delivery.Queue.{
  DeliveryOutcome, delivered, outbox_id_key, lease_row, finish_operation,
  claim_guide_operator_outbox_for_delivery, finish_guide_operator_outbox_delivery,
}
use guide_os.Delivery.Response.{
  SignedHttpResult, Verdict, verdict, is_text, is_known_status, agrees, read_acknowledgement,
  read_status, read_response,
}
use guide_os.Delivery.Claim.{claim_effect, is_final, final_eligible}

finish_idle :
    (outbox_id attempt_count : ℕ) (outcome : DeliveryOutcome) (now : ℕ) (next_attempt_at : Option ℕ)
    (last_error_code : Option String) (delivered_at : Option ℕ) (db : Db) (row : Outbox)
    → find outbox_id_key outbox_id db.outbox ≡ some row
    → (row.attempt_count ≢ attempt_count) ⊎ (is_some row.delivered_at ≡ true)
    → finish_operation outbox_id attempt_count outcome now next_attempt_at last_error_code
        delivered_at db
      ≡ ok (none, db)
unfolding finish_operation
finish_idle outbox_id attempt_count outcome now next_attempt_at last_error_code delivered_at db row
      found (inl other) =
    ground (arith, eqb_iff row.attempt_count attempt_count)
finish_idle outbox_id attempt_count outcome now next_attempt_at last_error_code delivered_at db row
      found (inr done) =
    ground arith

-- A worker whose claim has been superseded, or whose event was delivered meanwhile, writes nothing.
pub finish_stale :
    (busy : ℕ → Bool) (outbox_id attempt_count : ℕ) (outcome : DeliveryOutcome) (now : ℕ)
    (next_attempt_at : Option ℕ) (last_error_code : Option String) (delivered_at : Option ℕ)
    (db : Db) (row : Outbox)
    → find outbox_id_key outbox_id db.outbox ≡ some row
    → (row.attempt_count ≢ attempt_count) ⊎ (is_some row.delivered_at ≡ true)
    → (finish_guide_operator_outbox_delivery busy outbox_id attempt_count outcome now
        next_attempt_at last_error_code delivered_at db).1
      ≡ db
unfolding finish_guide_operator_outbox_delivery
finish_stale busy outbox_id attempt_count outcome now next_attempt_at last_error_code delivered_at
      db row found stale =
    let body : Operation (Option Outbox) =
      finish_operation outbox_id attempt_count outcome now next_attempt_at last_error_code
        delivered_at in
    elim (run_write_once busy body db) [
      | inl locked ↦ rw locked refl
      | inr ran ↦
          rw
            (
              ran,
              finish_idle outbox_id attempt_count outcome now next_attempt_at last_error_code
                  delivered_at db row found stale,
            )
            refl
    ]

-- An event that is delivered or has failed for good is left as it is by every claim that answers.
pub claim_keeps_final :
    (busy : ℕ → Bool) (now lease_until : ℕ) (asked : Option String) (db db' : Db)
    (a : Option Outbox) (o : Outbox)
    → claim_guide_operator_outbox_for_delivery busy now lease_until asked db ≡ (ok a, db')
    → find outbox_id_key o.id db.outbox ≡ some o
    → is_final o ≡ true
    → find outbox_id_key o.id db'.outbox ≡ some o
unfolding claim_guide_operator_outbox_for_delivery
claim_keeps_final busy now lease_until asked db db' a o h found done =
    elim (claim_effect now lease_until asked db db' a (run_ok busy _ db db' a h)) [
      | inl (nothing, same) ↦ rw same found
      | inr (claimed, is_claimed, c) ↦ rw c.frame (
          ground (
            arith,
            find-modify outbox_id_key c.row.id o.id (lease_row now lease_until asked) db.outbox
                (λ r. ground arith),
            eqb_iff c.row.id o.id,
            final_eligible now asked o done,
          ))
    ]

-- A response that acknowledges the event: status 200, the event's own id and type, and a status
-- that agrees with the flag `replayed`.
pub record Acknowledges (event_id event_type : String) (response : SignedHttpResult)
    (replayed : Bool) : Type 0 where
  pub transport : response.transport_error ≡ none
  pub accepted : response.status_code ≡ some 200
  pub body : Fields
  pub present : response.data_object ≡ some body
  pub id : get "eventId" body ≡ text event_id
  pub type : get "eventType" body ≡ text event_type
  pub status : get "status" body ≡ text (if replayed then "replayed" else "applied")
  pub flag : get "replayed" body ≡ boolean replayed

is_text-eq : (s : String) (j : Json) → is_text s j ≡ true → j ≡ text s
is_text-eq s (text t) h = ap text ((eq_iff t s).0 h)
is_text-eq s j h = ground arith

status_agrees :
    (flag status : Json)
    → is_known_status status ≡ ok true
    → agrees flag status ≡ true
    → (status ≡ text (if is_text "replayed" status then "replayed" else "applied"))
      × (flag ≡ boolean (is_text "replayed" status))
status_agrees (boolean true) (text s) known same =
    ground (arith, eq_iff s "replayed", eq_iff s "applied")
status_agrees (boolean false) (text s) known same =
    ground (arith, eq_iff s "replayed", eq_iff s "applied")
status_agrees flag status known same = ground arith

read_acknowledgement-Acknowledges :
    (event_id event_type : String) (body : Fields) (v : Verdict)
    → read_acknowledgement event_id event_type body ≡ ok v
    → v.outcome ≡ delivered
    → (get "eventId" body ≡ text event_id)
      × (get "eventType" body ≡ text event_type)
      × (get "status" body ≡ text (if v.replayed then "replayed" else "applied"))
      × (get "replayed" body ≡ boolean v.replayed)
unfolding read_acknowledgement
read_acknowledgement-Acknowledges event_id event_type body v h done = ground (
  arith,
  is_text-eq event_id (get "eventId" body),
  is_text-eq event_type (get "eventType" body),
  status_agrees (get "replayed" body) (get "status" body),
)

read_status-delivered :
    (event_id event_type : String) (status : Option ℕ) (data_object : Option Fields) (v : Verdict)
    → read_status event_id event_type status data_object ≡ ok v
    → v.outcome ≡ delivered
    → (status ≡ some 200)
      × ((body : Fields) × (data_object ≡ some body)
          × (read_acknowledgement event_id event_type body ≡ ok v))
unfolding read_status
read_status-delivered event_id event_type none data_object v h done = absurd (ground arith)
read_status-delivered event_id event_type (some status) none v h done = absurd (ground arith)
read_status-delivered event_id event_type (some status) (some body) v h done =
    let both : (status ≡ 200) × (read_acknowledgement event_id event_type body ≡ ok v) =
      ground arith in
    (ap some both.0, (body, refl, both.1))

read_status-Acknowledges :
    (event_id event_type : String) (response : SignedHttpResult) (v : Verdict)
    → response.transport_error ≡ none
    → read_status event_id event_type response.status_code response.data_object ≡ ok v
    → v.outcome ≡ delivered
    → Acknowledges event_id event_type response v.replayed
read_status-Acknowledges event_id event_type response v quiet h done =
    let (accepted, (body, present, acknowledged)) =
      read_status-delivered event_id event_type response.status_code response.data_object v h
        done in
    let (id, type, status, flag) =
      read_acknowledgement-Acknowledges event_id event_type body v acknowledged done in
    record {
      transport = quiet;
      accepted = accepted;
      body = body;
      present = present;
      id = id;
      type = type;
      status = status;
      flag = flag;
    }

-- A transport error is no delivery, and without one the status decides.
read_response-quiet :
    (event_id event_type : String) (response : SignedHttpResult) (v : Verdict)
    → read_response event_id event_type response ≡ ok v
    → v.outcome ≡ delivered
    → (response.transport_error ≡ none)
      × (read_status event_id event_type response.status_code response.data_object ≡ ok v)
unfolding read_response
read_response-quiet event_id event_type response v h done = ground arith

Acknowledges-read_response :
    (event_id event_type : String) (response : SignedHttpResult) (replayed : Bool)
    → Acknowledges event_id event_type response replayed
    → read_response event_id event_type response ≡ ok (verdict delivered none replayed)
unfolding read_response read_status read_acknowledgement
Acknowledges-read_response event_id event_type response true a = ground (
  arith,
  eq_refl event_id,
  eq_refl event_type,
  a.transport,
  a.accepted,
  a.present,
  a.id,
  a.type,
  a.status,
  a.flag,
)
Acknowledges-read_response event_id event_type response false a = ground (
  arith,
  eq_refl event_id,
  eq_refl event_type,
  a.transport,
  a.accepted,
  a.present,
  a.id,
  a.type,
  a.status,
  a.flag,
)

-- A response counts as a delivery exactly when it acknowledges the event: no transport error,
-- status 200, the event's own id and type, and a status that agrees with the flag `replayed`.
pub read_response-delivered_iff :
    (event_id event_type : String) (response : SignedHttpResult) (replayed : Bool)
    → (read_response event_id event_type response ≡ ok (verdict delivered none replayed))
      ↔ Acknowledges event_id event_type response replayed
read_response-delivered_iff event_id event_type response replayed = (
  λ h.
      let (quiet, ran) =
        read_response-quiet event_id event_type response (verdict delivered none replayed) h refl in
      read_status-Acknowledges event_id event_type response (verdict delivered none replayed) quiet
        ran refl,
  Acknowledges-read_response event_id event_type response replayed,
)
