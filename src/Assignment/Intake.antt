-- ===== src/Assignment/Intake.antt =====
-- The events that the operator sends about an assignment, their normalisation and the payloads
-- whose digests make a repeated event recognisable.
use guide_os.Prelude.{
  ℕ, Bool, true, false, String, ◌==◌, text_eq, not, Option, none, some, [], ◌∷◌, ltb, eqb,
  if◌then◌else◌,
}
use guide_os.Prelude.Text.{strip}
use guide_os.Json.{Json, number, text, object, end, optional_text, dict}
use guide_os.Errors.{Result, ok, err, ◌>>=◌, ◌>>◌, raise_if, validation_error, Detail}
use guide_os.Platform.{Platform}
use guide_os.Identity.{validate_guide_os_id}
use guide_os.Validation.{require_nonempty, require_iso_datetime, require_iso_date}
use guide_os.Database.{
  AssignmentStatus, withdrawn, expired, LifecycleEventType, withdrawn_v1, expired_v1,
}

pub record AssignmentOfferIntake : Type 0 where
  pub event_id : String
  pub assignment_id : String
  pub guide_os_id : String
  pub company_id : String
  pub company_name : String
  pub guide_connection_id : String
  pub role : String
  pub start_date : String
  pub end_date : String
  pub working_package : Json
  pub version_number : ℕ
  pub response_deadline : Option String
  pub operator_message : Option String
  pub offered_at : Option String

-- The dict that `_normalize_offer` returns.
pub record NormalizedOffer : Type 0 where
  pub event_id : String
  pub assignment_id : String
  pub guide_os_id : String
  pub company_id : String
  pub company_name : String
  pub guide_connection_id : String
  pub role : String
  pub start_date : ℕ
  pub end_date : ℕ
  pub response_deadline : Option String
  pub operator_message : Option String
  pub working_package : Json
  pub offered_at : Option String

pub record AssignmentCancellationIntake : Type 0 where
  pub event_id : String
  pub assignment_id : String
  pub guide_os_id : String
  pub version_number : ℕ
  pub cancelled_at : String

pub record AssignmentLifecycleIntake : Type 0 where
  pub event_id : String
  pub event_type : String
  pub assignment_id : String
  pub guide_os_id : String
  pub transitioned_at : String

pub record NormalizedTransition : Type 0 where
  pub event_id : String
  pub event_type : LifecycleEventType
  pub assignment_id : String
  pub guide_os_id : String
  pub transitioned_at : String

-- `statuses[event_type]`
abbrev pub target_status : LifecycleEventType → AssignmentStatus
target_status withdrawn_v1 = withdrawn
target_status expired_v1 = expired

abbrev pub target_word : LifecycleEventType → String
target_word withdrawn_v1 = "withdrawn"
target_word expired_v1 = "expired"

abbrev pub type_word : LifecycleEventType → String
type_word withdrawn_v1 = "assignment.withdrawn.v1"
type_word expired_v1 = "assignment.expired.v1"

-- `not isinstance(offer.working_package, dict) or not offer.working_package`
is_no_package : Json → Bool
is_no_package (object end) = true
is_no_package (object fields) = false
is_no_package _ = true

optional_nonempty : Option String → Result (Option String)
optional_nonempty none = ok none
optional_nonempty (some s) = do stripped ← require_nonempty s; ok (some stripped)

-- `operator_message.strip() or None`
optional_message : Option String → Option String
optional_message none = none
optional_message (some s) = if strip s == "" then none else some (strip s)

-- `statuses.get(event_type)`
unfoldable pub event_type_of : String → Result LifecycleEventType
event_type_of s =
    if s == "assignment.withdrawn.v1"
    then ok withdrawn_v1
    else if s == "assignment.expired.v1"
    then ok expired_v1
    else err (validation_error Detail.plain)

unfoldable pub cancellation_payload : AssignmentCancellationIntake → Json
cancellation_payload n = dict (
    ("event_id", text n.event_id)
    ∷ ("assignment_id", text n.assignment_id)
    ∷ ("guide_os_id", text n.guide_os_id)
    ∷ ("version_number", number n.version_number)
    ∷ ("cancelled_at", text n.cancelled_at)
    ∷ [])

unfoldable pub transition_payload : NormalizedTransition → Json
transition_payload n = dict (
    ("event_id", text n.event_id)
    ∷ ("event_type", text (type_word n.event_type))
    ∷ ("assignment_id", text n.assignment_id)
    ∷ ("guide_os_id", text n.guide_os_id)
    ∷ ("transitioned_at", text n.transitioned_at)
    ∷ ("status", text (target_word n.event_type))
    ∷ [])

-- `not isinstance(version_number, int)` cannot happen to a ℕ, and a negative number takes the same
-- branch as 0.
unfoldable pub normalize_cancellation :
    Platform → AssignmentCancellationIntake → Result AssignmentCancellationIntake
normalize_cancellation env event = do
  event_id ← require_nonempty event.event_id
  assignment_id ← require_nonempty event.assignment_id
  guide_os_id ← validate_guide_os_id event.guide_os_id
  raise_if (ltb event.version_number 1) (validation_error Detail.plain)
  cancelled_at ← require_iso_datetime env event.cancelled_at
  ok (record {
    event_id = event_id;
    assignment_id = assignment_id;
    guide_os_id = guide_os_id;
    version_number = event.version_number;
    cancelled_at = cancelled_at;
  })

unfoldable pub normalize_assignment_lifecycle :
    Platform → AssignmentLifecycleIntake → Result NormalizedTransition
unfolding event_type_of
normalize_assignment_lifecycle env event = do
  type_text ← require_nonempty event.event_type
  event_type ← event_type_of type_text
  event_id ← require_nonempty event.event_id
  assignment_id ← require_nonempty event.assignment_id
  guide_os_id ← validate_guide_os_id event.guide_os_id
  transitioned_at ← require_iso_datetime env event.transitioned_at
  ok (record {
    event_id = event_id;
    event_type = event_type;
    assignment_id = assignment_id;
    guide_os_id = guide_os_id;
    transitioned_at = transitioned_at;
  })

module _ (env : Platform) where
  unfoldable pub offer_payload : NormalizedOffer → Json
  offer_payload n = dict (
      ("event_id", text n.event_id)
      ∷ ("assignment_id", text n.assignment_id)
      ∷ ("guide_os_id", text n.guide_os_id)
      ∷ ("company_id", text n.company_id)
      ∷ ("company_name", text n.company_name)
      ∷ ("guide_connection_id", text n.guide_connection_id)
      ∷ ("role", text n.role)
      ∷ ("start_date", text (env.date_text n.start_date))
      ∷ ("end_date", text (env.date_text n.end_date))
      ∷ ("response_deadline", optional_text n.response_deadline)
      ∷ ("operator_message", optional_text n.operator_message)
      ∷ ("version_number", number 1)
      ∷ ("working_package", n.working_package)
      ∷ ("offered_at", optional_text n.offered_at)
      ∷ [])

  optional_datetime : Option String → Result (Option String)
  optional_datetime none = ok none
  optional_datetime (some s) = do stamp ← require_iso_datetime env s; ok (some stamp)

  unfoldable pub normalize_offer : AssignmentOfferIntake → Result NormalizedOffer
  unfolding is_no_package optional_nonempty optional_message optional_datetime
  normalize_offer offer = do
    event_id ← require_nonempty offer.event_id
    assignment_id ← require_nonempty offer.assignment_id
    guide_os_id ← validate_guide_os_id offer.guide_os_id
    company_id ← require_nonempty offer.company_id
    company_name ← require_nonempty offer.company_name
    guide_connection_id ← require_nonempty offer.guide_connection_id
    role ← require_nonempty offer.role
    start_date ← require_iso_date env offer.start_date
    end_date ← require_iso_date env offer.end_date
    raise_if (ltb end_date start_date) (validation_error Detail.plain)
    raise_if (not (eqb offer.version_number 1)) (validation_error Detail.plain)
    raise_if (is_no_package offer.working_package) (validation_error Detail.plain)
    response_deadline ← optional_nonempty offer.response_deadline
    offered_at ← optional_datetime offer.offered_at
    ok (record {
      event_id = event_id;
      assignment_id = assignment_id;
      guide_os_id = guide_os_id;
      company_id = company_id;
      company_name = company_name;
      guide_connection_id = guide_connection_id;
      role = role;
      start_date = start_date;
      end_date = end_date;
      response_deadline = response_deadline;
      operator_message = optional_message offer.operator_message;
      working_package = offer.working_package;
      offered_at = offered_at;
    })
