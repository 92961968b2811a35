-- ===== src/Scenario/Deliveries.antt =====
-- The theorems on deliveries at an outbox with two events.
use guide_os.Prelude.{
  pos, ℕ, ◌+◌, Bool, true, false, String, text_eq, number_eq, ◌≡◌, ◌≢◌, ◌↔◌, refl, inl, none, some,
  List, [], ◌∷◌, arith,
}
use guide_os.Json.{Fields, text, boolean, field, end, get}
use guide_os.Errors.{ok}
use guide_os.Database.{Db, Outbox, find, modify}
use guide_os.Database.Write.{run_write_with_retry}
use guide_os.Delivery.Queue.{
  delivered, retrying, failed, outbox_id_key, is_eligible, next_candidate, claim_operation,
  finish_operation, claim_guide_operator_outbox_for_delivery, finish_guide_operator_outbox_delivery,
}
use guide_os.Delivery.Response.{
  SignedHttpResult, Jitter, OutboundDeliveryResult, verdict, retry_delay, read_acknowledgement,
  read_status, read_response, finish, apply_http_result,
}
use guide_os.Delivery.Claim.{is_final}
use guide_os.Delivery.Leased.{QueueCall, serve_all, claim_excludes}
use guide_os.Delivery.Outcome.{
  Acknowledges, finish_stale, claim_keeps_final, read_response-delivered_iff,
}
use guide_os.Delivery.Settled.{apply_http_result-is_final, apply_http_result_retries}
use guide_os.Scenario.{guide, start}

abbrev free : ℕ → Bool
free attempt = false

-- No jitter.
abbrev still : Jitter
still = record { jitter_unit = pos 0; spread = λ delay unit. 0 }

abbrev event : ℕ → String → String → Outbox
event id event_id created_at = record {
  id = id;
  event_id = event_id;
  event_type = "assignment.decision.v1";
  aggregate_type = "guide_assignment";
  aggregate_id = "assignment-1";
  guide_os_id = guide;
  payload_json = "rendered";
  created_at = created_at;
  delivered_at = none;
  attempt_count = 0;
  next_attempt_at = none;
  last_error_code = none;
}

abbrev older : Outbox
older = event 1 "event-1" "2026-07-01T00:00:00Z"

abbrev newer : Outbox
newer = event 2 "event-2" "2026-07-02T00:00:00Z"

abbrev leased : Outbox → ℕ → Outbox
leased o until = record o { attempt_count = 1; next_attempt_at = some until }

abbrev queue : List Outbox → Db
queue rows = record start { outbox = rows; outbox_sequence = 2 }

-- The newer event stands in front; the older one is claimed first, under a lease of 30 seconds.
older_claimed :
    claim_guide_operator_outbox_for_delivery free 100 30000100 none (queue (newer ∷ older ∷ []))
    ≡ (ok (some (leased older 30000100)), queue (newer ∷ leased older 30000100 ∷ []))
unfolding claim_guide_operator_outbox_for_delivery claim_operation next_candidate is_eligible find
    modify run_write_with_retry
older_claimed = refl

-- Another worker claims the newer event, fails, and may retry it before the first lease ends.
abbrev meanwhile : List QueueCall
meanwhile =
    QueueCall.claim free 200 30000200 none
    ∷ QueueCall.finish free 2 1 retrying 300 (some 15000300) (some "unavailable") none
    ∷ []

abbrev retried : Outbox
retried = record newer {
  attempt_count = 2;
  next_attempt_at = some 50000000;
  last_error_code = some "unavailable";
}

newer_claimed_again :
    claim_guide_operator_outbox_for_delivery free 20000000 50000000 none
      (serve_all meanwhile (queue (newer ∷ leased older 30000100 ∷ [])))
    ≡ (ok (some retried), queue (retried ∷ leased older 30000100 ∷ []))
unfolding claim_guide_operator_outbox_for_delivery claim_operation next_candidate is_eligible find
    modify run_write_with_retry serve_all finish_guide_operator_outbox_delivery finish_operation
newer_claimed_again = refl

claim_excludes_example : retried.id ≢ older.id
claim_excludes_example =
    claim_excludes free free 100 30000100 20000000 50000000 none none (queue (newer ∷ older ∷ []))
      (queue (newer ∷ leased older 30000100 ∷ [])) (queue (retried ∷ leased older 30000100 ∷ []))
      (leased older 30000100) retried meanwhile older_claimed
      (omega arith, (inl (λ e. absurd (omega arith)), tt)) (omega arith) newer_claimed_again

-- The older event has been delivered.
abbrev done : Outbox
done = record older { attempt_count = 1; delivered_at = some 90 }

newer_claimed_alone :
    claim_guide_operator_outbox_for_delivery free 200 30000200 none (queue (newer ∷ done ∷ []))
    ≡ (ok (some (leased newer 30000200)), queue (leased newer 30000200 ∷ done ∷ []))
unfolding claim_guide_operator_outbox_for_delivery claim_operation next_candidate is_eligible find
    modify run_write_with_retry
newer_claimed_alone = refl

done_found : find outbox_id_key 1 (queue (newer ∷ done ∷ [])).outbox ≡ some done
unfolding find
done_found = refl

claim_keeps_final_example :
    find outbox_id_key 1 (queue (leased newer 30000200 ∷ done ∷ [])).outbox ≡ some done
claim_keeps_final_example =
    claim_keeps_final free 200 30000200 none (queue (newer ∷ done ∷ []))
      (queue (leased newer 30000200 ∷ done ∷ [])) (some (leased newer 30000200)) done
      newer_claimed_alone done_found refl

-- A worker that was slow comes back with the outcome of its first attempt, after another attempt.
abbrev retaken : Outbox
retaken = record older { attempt_count = 2; next_attempt_at = some 60000100 }

retaken_found : find outbox_id_key 1 (queue (retaken ∷ [])).outbox ≡ some retaken
unfolding find
retaken_found = refl

finish_stale_example :
    (finish_guide_operator_outbox_delivery free 1 1 failed 45000000
      (some 45000000)
      (some "contract")
      none
      (queue (retaken ∷ []))).1
    ≡ queue (retaken ∷ [])
finish_stale_example =
    finish_stale free 1 1 failed 45000000 (some 45000000) (some "contract") none
      (queue (retaken ∷ [])) retaken retaken_found (inl (λ e. absurd (omega arith)))

abbrev acknowledgement : Fields
acknowledgement = field "eventId" (text "event-1") (
    field "eventType" (text "assignment.decision.v1")
      (field "status" (text "replayed") (field "replayed" (boolean true) end)))

abbrev acknowledged : SignedHttpResult
acknowledged = record {
  status_code = some 200;
  data_object = some acknowledgement;
  transport_error = none;
}

read_response-delivered_iff_example :
    (read_response "event-1" "assignment.decision.v1" acknowledged
      ≡ ok (verdict delivered none true))
    ↔ Acknowledges "event-1" "assignment.decision.v1" acknowledged true
read_response-delivered_iff_example =
    read_response-delivered_iff "event-1" "assignment.decision.v1" acknowledged true

abbrev sent : Outbox
sent = leased older 30000100

abbrev delivery : OutboundDeliveryResult
delivery = record {
  event_id = "event-1";
  event_type = "assignment.decision.v1";
  outcome = delivered;
  error_code = none;
  replayed = true;
  attempt_count = 1;
}

sent_found : find outbox_id_key 1 (queue (sent ∷ [])).outbox ≡ some sent
unfolding find
sent_found = refl

abbrev arrived : Outbox
arrived = record sent { delivered_at = some 100; next_attempt_at = none }

acknowledged_runs :
    apply_http_result free still 100 sent acknowledged (queue (sent ∷ []))
    ≡ (ok delivery, queue (arrived ∷ []))
unfolding apply_http_result read_response read_status read_acknowledgement get finish
    finish_guide_operator_outbox_delivery finish_operation find modify run_write_with_retry
acknowledged_runs = refl

not_retrying : delivered ≢ retrying
not_retrying e = absurd (ground arith)

apply_http_result-is_final_example :
    (o : Outbox) × (find outbox_id_key 1 (queue (arrived ∷ [])).outbox ≡ some o)
    × (is_final o ≡ true)
apply_http_result-is_final_example =
    apply_http_result-is_final free still 100 sent (queue (sent ∷ [])) (queue (arrived ∷ []))
      delivery sent_found refl acknowledged acknowledged_runs not_retrying

abbrev unavailable : SignedHttpResult
unavailable = record { status_code = some 503; data_object = none; transport_error = none }

abbrev refusal : OutboundDeliveryResult
refusal = record delivery { outcome = retrying; error_code = some "unavailable"; replayed = false }

abbrev waiting : Outbox
waiting = record sent { last_error_code = some "unavailable"; next_attempt_at = some 15000100 }

unavailable_runs :
    apply_http_result free still 100 sent unavailable (queue (sent ∷ []))
    ≡ (ok refusal, queue (waiting ∷ []))
unfolding apply_http_result read_response read_status retry_delay finish
    finish_guide_operator_outbox_delivery finish_operation find modify run_write_with_retry
unavailable_runs = refl

apply_http_result_retries_example :
    (delay : ℕ) × (retry_delay still 1 ≡ ok delay)
    × (find outbox_id_key 1 (queue (waiting ∷ [])).outbox
        ≡ some (record sent {
          last_error_code = some "unavailable";
          next_attempt_at = some (100 + delay);
        }))
apply_http_result_retries_example =
    apply_http_result_retries free still 100 sent (queue (sent ∷ [])) (queue (waiting ∷ [])) refusal
      sent_found refl unavailable unavailable_runs refl
