-- ===== src/Delivery/Settled.antt =====
-- What the answer to a delivery leaves in the outbox.
use guide_os.Prelude.{
  ℕ, ◌+◌, Bool, true, false, String, text_eq, number_eq, eqb_iff, ◌≡◌, ◌≢◌, refl, ◌∙◌, ◌⊎◌, inl,
  inr, Option, none, some, arith,
}
use mathlib.Core.Path.{ap₂}
use guide_os.Errors.{Result, ok, err, Result-cases}
use guide_os.Database.{Db, Outbox, find, find-modify}
use guide_os.Database.Write.{Operation, run_ok, run_write_with_retry}
use guide_os.Delivery.Queue.{
  DeliveryOutcome, delivered, retrying, failed, outbox_id_key, may_retry, settle_row, finish_row,
  finish_operation, finish_guide_operator_outbox_delivery,
}
use guide_os.Delivery.Response.{
  SignedHttpResult, Verdict, Jitter, OutboundDeliveryResult, retry_delay, read_acknowledgement,
  read_status, read_response, next_attempt, delivered_time, after_finish, finish_at, finish,
  apply_http_result,
}
use guide_os.Delivery.Claim.{is_final}

-- The codes that stand with a failure.
read_response-failed :
    (event_id event_type : String) (response : SignedHttpResult) (v : Verdict)
    → read_response event_id event_type response ≡ ok v
    → v.outcome ≡ failed
    → (v.error_code ≡ some "authentication")
      ⊎ (v.error_code ≡ some "contract")
      ⊎ (v.error_code ≡ some "not_found")
      ⊎ (v.error_code ≡ some "conflict")
unfolding read_response read_status read_acknowledgement
read_response-failed event_id event_type response v h bad = ground arith

read_response-may_retry :
    (event_id event_type : String) (response : SignedHttpResult) (v : Verdict)
    → read_response event_id event_type response ≡ ok v
    → v.outcome ≡ failed
    → may_retry v.error_code ≡ false
read_response-may_retry event_id event_type response v h bad =
    elim (read_response-failed event_id event_type response v h bad) [
      | inl code ↦ rw code refl
      | inr (inl code) ↦ rw code refl
      | inr (inr (inl code)) ↦ rw code refl
      | inr (inr (inr code)) ↦ rw code refl
    ]

finish_operation-find :
    (row : Outbox) (outcome : DeliveryOutcome) (now : ℕ) (next : Option ℕ) (code : Option String)
    (time : Option ℕ) (db db' : Db) (a : Option Outbox)
    → find outbox_id_key row.id db.outbox ≡ some row
    → row.delivered_at ≡ none
    → finish_operation row.id row.attempt_count outcome now next code time db ≡ ok (a, db')
    → find outbox_id_key row.id db'.outbox ≡ some (settle_row outcome now next code time row)
unfolding finish_operation
finish_operation-find row outcome now next code time db db' a found open_ h = ground (
  arith,
  find-modify outbox_id_key row.id row.id (finish_row outcome row.attempt_count now next code time)
      db.outbox (λ r. ground arith),
  eqb_iff row.id row.id,
  eqb_iff row.attempt_count row.attempt_count,
)

-- The row as the verdict on a response leaves it.
abbrev pub settled : Option ℕ → ℕ → Verdict → Outbox → Outbox
settled next now v row =
    settle_row v.outcome now next v.error_code (delivered_time v.outcome now) row

settled-is_final :
    (next : Option ℕ) (now : ℕ) (v : Verdict) (row : Outbox)
    → v.outcome ≢ retrying
    → (v.outcome ≡ failed → may_retry v.error_code ≡ false)
    → is_final (settled next now v row) ≡ true
settled-is_final next now v row done permanent = elim (outcome-cases v.outcome) [
  | inl e ↦ rw e refl
  | inr (inl e) ↦ absurd (done e)
  | inr (inr e) ↦ ground (arith, permanent e)
]
  where
    outcome-cases : (o : DeliveryOutcome) → (o ≡ delivered) ⊎ (o ≡ retrying) ⊎ (o ≡ failed)
    outcome-cases delivered = inl refl
    outcome-cases retrying = inr (inl refl)
    outcome-cases failed = inr (inr refl)

-- A write behind a call that answers has answered.
after_finish_ok :
    (answer a : OutboundDeliveryResult) (r : Result (Option Outbox)) (s db' : Db)
    → after_finish answer (r, s) ≡ (ok a, db')
    → (a ≡ answer) × (s ≡ db') × ((written : Option Outbox) × (r ≡ ok written))
after_finish_ok answer a (ok written) s db' h =
    let both : (a ≡ answer) × (s ≡ db') = ground arith in (both.0, both.1, (written, refl))
after_finish_ok answer a (err e) s db' h = absurd (ground arith)

module _ (busy : ℕ → Bool) (jitter : Jitter) (now : ℕ) (row : Outbox) (db db' : Db)
    (a : OutboundDeliveryResult) (found : find outbox_id_key row.id db.outbox ≡ some row)
    (undelivered : row.delivered_at ≡ none) where
  finish_settles :
      (v : Verdict)
      → (r : Result (Option ℕ)) → finish_at busy jitter now row v r db ≡ (ok a, db')
      → (a.outcome ≡ v.outcome)
        × (a.error_code ≡ v.error_code)
        × ((next : Option ℕ) × (r ≡ ok next)
            × (find outbox_id_key row.id db'.outbox ≡ some (settled next now v row)))
  unfolding finish_guide_operator_outbox_delivery
  finish_settles v (err e) h = absurd (ground arith)
  finish_settles v (ok next) h =
      let body : Operation (Option Outbox) =
        finish_operation row.id row.attempt_count v.outcome now next v.error_code
          (delivered_time v.outcome now) in
      let s : Result (Option Outbox) × Db = run_write_with_retry busy body db in
      let (answered, same, (written, ran)) = after_finish_ok _ a s.0 s.1 db' h in
      (
        rw answered refl,
        rw answered refl,
        (
          next,
          refl,
          finish_operation-find row v.outcome now next v.error_code (delivered_time v.outcome now)
              db db' written found undelivered
              (run_ok busy body db db' written (ap₂ (λ x y. (x, y)) ran same)),
        ),
      )

  settles :
      (response : SignedHttpResult)
      → apply_http_result busy jitter now row response db ≡ (ok a, db')
      → (v : Verdict) × (read_response row.event_id row.event_type response ≡ ok v)
        × (a.outcome ≡ v.outcome)
        × (a.error_code ≡ v.error_code)
        × ((next : Option ℕ) × (next_attempt jitter v.outcome row.attempt_count now ≡ ok next)
            × (find outbox_id_key row.id db'.outbox ≡ some (settled next now v row)))
  unfolding apply_http_result finish
  settles response h = elim (Result-cases (read_response row.event_id row.event_type response)) [
    | inl (v, r) ↦
        let due = next_attempt jitter v.outcome row.attempt_count now in
        let (same, code, written) = finish_settles v due (rw r at h) in (v, r, same, code, written)
    | inr (e, r) ↦ absurd (ground (arith, r))
  ]

  -- When the row is as it was claimed and undelivered, and the answer to the delivery is not
  -- "retrying", the row is afterwards one that no delivery may touch again.
  pub apply_http_result-is_final :
      (response : SignedHttpResult)
      → apply_http_result busy jitter now row response db ≡ (ok a, db')
      → a.outcome ≢ retrying
      → (o : Outbox) × (find outbox_id_key row.id db'.outbox ≡ some o) × (is_final o ≡ true)
  apply_http_result-is_final response h done =
      let (v, r, same, code, (next, due, written)) = settles response h in
      (
        settled next now v row,
        written,
        settled-is_final next now v row (λ e. done (same ∙ e))
            (read_response-may_retry row.event_id row.event_type response v r),
      )

  -- When the row is as it was claimed and undelivered, and the answer is "retrying", the retry
  -- delay of its attempt could be calculated, and the row keeps its place, with the error code and
  -- the time at which the retry is due, that delay from now.
  pub apply_http_result_retries :
      (response : SignedHttpResult)
      → apply_http_result busy jitter now row response db ≡ (ok a, db')
      → a.outcome ≡ retrying
      → (delay : ℕ) × (retry_delay jitter row.attempt_count ≡ ok delay)
        × (find outbox_id_key row.id db'.outbox
            ≡ some (record row {
              last_error_code = a.error_code;
              next_attempt_at = some (now + delay);
            }))
  apply_http_result_retries response h again =
      let (v, r, same, code, (next, due, written)) = settles response h in
      elim (Result-cases (retry_delay jitter row.attempt_count)) [
        | inl (delay, calculated) ↦
            (delay, calculated, ground (arith, written, same, code, due, calculated, again))
        | inr (e, calculated) ↦ absurd (ground (arith, same, due, calculated, again))
      ]
