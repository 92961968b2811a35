-- ===== src/Delivery/Codes.antt =====
-- The event types, error codes and durations of services/guide_operator_outbound_delivery.py;
-- durations are in microseconds.
use guide_os.Prelude.{ℕ, ◌*◌, ◌-◌, Bool, false, String, ◌==◌, text_eq, ◌||◌, List, [], ◌∷◌}

-- `value in values`
abbrev pub member : String → List String → Bool
member value [] = false
member value (v ∷ values) = (v == value) || member value values

abbrev pub deliverable_event_types : List String
deliverable_event_types =
    "guide_connection.decided.v1" ∷ "assignment.decision.v1" ∷ "assignment.cancellation.ack.v1"
    ∷ "assignment.version.applied.ack.v1" ∷ "assignment.version.received.ack.v1"
    ∷ "assignment.critical_version.decided.v1" ∷ "assignment.version.acknowledged.v1" ∷ []

abbrev pub permanent_error_codes : List String
permanent_error_codes =
    "authentication" ∷ "contract" ∷ "validation" ∷ "unsupported" ∷ "identifier_mismatch"
    ∷ "not_found" ∷ "conflict" ∷ "retry_exhausted" ∷ []

abbrev pub second : ℕ
second = 1000000

abbrev pub claim_lease : ℕ
claim_lease = 30 * second

abbrev pub max_retry_delay : ℕ
max_retry_delay = 900 * second

-- timedelta.max
abbrev pub max_timedelta : ℕ
max_timedelta = 86400000000000 * second - 1

abbrev pub base_retry_delay : ℕ
base_retry_delay = 15 * second
