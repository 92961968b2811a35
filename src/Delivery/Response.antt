-- ===== src/Delivery/Response.antt =====
-- `retry_delay`, `_apply_http_result` and `_finish`.
use guide_os.Prelude.{
  ℤ, pos, negsuc, ℕ, ◌+◌, ◌-◌, ◌*◌, ◌^◌, Bool, true, false, String, ◌==◌, text_eq, number_eq, not,
  ◌&&◌, ◌||◌, Option, none, some, leb, ltb, if◌then◌else◌,
}
use guide_os.Json.{Json, text, boolean, array, object, Fields, get}
use guide_os.Errors.{Result, ok, err, ◌>>=◌, ◌>>◌, raise_if, type_error, overflow_error}
use guide_os.Database.{Db, Outbox}
use guide_os.Delivery.Codes.{base_retry_delay, max_retry_delay, max_timedelta}
use guide_os.Delivery.Queue.{
  DeliveryOutcome, delivered, retrying, failed, finish_guide_operator_outbox_delivery,
}

-- `data_object` is the field `data`.
pub record SignedHttpResult : Type 0 where
  pub status_code : Option ℕ
  pub data_object : Option Fields
  pub transport_error : Option String

-- What the caller reports, and what `_finish` is told: an outcome, an error code, and whether the
-- operator had the event already.
pub record Verdict : Type 0 where
  pub outcome : DeliveryOutcome
  pub error_code : Option String
  pub replayed : Bool

pub record OutboundDeliveryResult : Type 0 where
  pub event_id : String
  pub event_type : String
  pub outcome : DeliveryOutcome
  pub error_code : Option String
  pub replayed : Bool
  pub attempt_count : ℕ

abbrev pub capped : ℕ → ℕ
capped delay = if ltb max_retry_delay delay then max_retry_delay else delay

-- A finite floating-point number is an integer in steps of 2^-1074; `spread` is what Python's
-- arithmetic makes of `timedelta(seconds=delay.total_seconds() * RETRY_JITTER_FRACTION * unit)`, in
-- microseconds, of a delay and a unit that are not negative.
pub record Jitter : Type 0 where
  pub jitter_unit : ℤ
  pub spread : ℕ → ℕ → ℕ

-- `min(max(jitter_unit, 0.0), 1.0)`
abbrev pub clamped : ℤ → ℕ
clamped (negsuc n) = 0
clamped (pos n) = if ltb (2 ^ 1074) n then 2 ^ 1074 else n

-- The first product is the one that may be too large for a timedelta.
unfoldable pub retry_delay : Jitter → ℕ → Result ℕ
retry_delay jitter attempt_count = do
  raise_if (ltb max_timedelta (base_retry_delay * 2 ^ (attempt_count - 1))) overflow_error
  let delay = capped (base_retry_delay * 2 ^ (attempt_count - 1))
  let jittered = delay + jitter.spread delay (clamped jitter.jitter_unit)
  ok (if ltb jittered max_retry_delay then jittered else max_retry_delay)

abbrev pub verdict : DeliveryOutcome → Option String → Bool → Verdict
verdict outcome error_code replayed = record {
  outcome = outcome;
  error_code = error_code;
  replayed = replayed;
}

abbrev pub is_text : String → Json → Bool
is_text s (text t) = t == s
is_text s _ = false

-- `ack_status in {"applied", "replayed"}`: a list or a dict is not hashable.
abbrev pub is_known_status : Json → Result Bool
is_known_status (text s) = ok ((s == "applied") || (s == "replayed"))
is_known_status (array items) = err type_error
is_known_status (object fields) = err type_error
is_known_status _ = ok false

-- `isinstance(ack_replayed, bool) and ack_replayed == (ack_status == "replayed")`
abbrev pub agrees : Json → Json → Bool
agrees (boolean true) status = is_text "replayed" status
agrees (boolean false) status = not (is_text "replayed" status)
agrees _ status = false

abbrev pub contract_failure : Verdict
contract_failure = verdict failed (some "contract") false

-- The body of a response with status 200: does it acknowledge this event?
unfoldable pub read_acknowledgement : String → String → Fields → Result Verdict
read_acknowledgement event_id event_type acknowledgement =
    if not (is_text event_id (get "eventId" acknowledgement))
      || not (is_text event_type (get "eventType" acknowledgement))
    then ok contract_failure
    else (is_known_status (get "status" acknowledgement) >>= λ known. ok (
        if known && agrees (get "replayed" acknowledgement) (get "status" acknowledgement)
        then verdict delivered none (is_text "replayed" (get "status" acknowledgement))
        else contract_failure))

abbrev pub is_server_error : ℕ → Bool
is_server_error status = (status == 429) || leb 500 status

unfoldable pub read_status : String → String → Option ℕ → Option Fields → Result Verdict
read_status event_id event_type none data_object = ok contract_failure
read_status event_id event_type (some status) data_object =
    if (status == 401) || (status == 403)
    then ok (verdict failed (some "authentication") false)
    else if (status == 400) || (status == 422)
    then ok contract_failure
    else if status == 404
    then ok (verdict failed (some "not_found") false)
    else if status == 409
    then ok (verdict failed (some "conflict") false)
    else if is_server_error status
    then ok (verdict retrying (some "unavailable") false)
    else if not (status == 200)
    then ok contract_failure
    else elim data_object [
      | none ↦ ok contract_failure
      | some fields ↦ read_acknowledgement event_id event_type fields
    ]

-- What `_apply_http_result` tells `_finish`.
unfoldable pub read_response : String → String → SignedHttpResult → Result Verdict
read_response event_id event_type response = elim response.transport_error [
  | none ↦ read_status event_id event_type response.status_code response.data_object
  | some code ↦
      if code == "authentication"
      then ok (verdict failed (some "authentication") false)
      else ok (verdict retrying (some code) false)
]

-- The time that `_finish` writes, by outcome.
abbrev pub next_attempt : Jitter → DeliveryOutcome → ℕ → ℕ → Result (Option ℕ)
next_attempt jitter delivered attempt_count now = ok none
next_attempt jitter retrying attempt_count now =
    retry_delay jitter attempt_count >>= λ delay. ok (some (now + delay))
next_attempt jitter failed attempt_count now = ok (some now)

abbrev pub delivered_time : DeliveryOutcome → ℕ → Option ℕ
delivered_time delivered now = some now
delivered_time _ now = none

-- The result of the call, whose write may have met a lock.
abbrev pub after_finish :
    OutboundDeliveryResult → Result (Option Outbox) × Db → Result OutboundDeliveryResult × Db
after_finish answer (result, db) = (result >>= (λ row. ok answer), db)

module _ (busy : ℕ → Bool) (jitter : Jitter) (now : ℕ) (row : Outbox) where
  -- The write, once the time of the next attempt is known.
  abbrev pub finish_at : Verdict → Result (Option ℕ) → Db → Result OutboundDeliveryResult × Db
  finish_at v (err e) db = (err e, db)
  finish_at v (ok next) db =
      after_finish
        (record {
          event_id = row.event_id;
          event_type = row.event_type;
          outcome = v.outcome;
          error_code = v.error_code;
          replayed = v.replayed;
          attempt_count = row.attempt_count;
        })
        (finish_guide_operator_outbox_delivery busy row.id row.attempt_count v.outcome now next
          v.error_code (delivered_time v.outcome now) db)

  unfoldable pub finish : Verdict → Db → Result OutboundDeliveryResult × Db
  finish v db = finish_at v (next_attempt jitter v.outcome row.attempt_count now) db

  abbrev pub finish_verdict : Result Verdict → Db → Result OutboundDeliveryResult × Db
  finish_verdict (err e) db = (err e, db)
  finish_verdict (ok v) db = finish v db

  -- `_apply_http_result`, for the row that was claimed.
  unfoldable pub apply_http_result : SignedHttpResult → Db → Result OutboundDeliveryResult × Db
  apply_http_result response db =
      finish_verdict (read_response row.event_id row.event_type response) db
