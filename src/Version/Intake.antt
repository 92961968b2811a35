-- ===== src/Version/Intake.antt =====
-- The event `assignment.version.published.v1`, its normalisation for ordinary and for critical
-- versions, and the payload whose digest makes a repeated event recognisable.
use guide_os.Prelude.{ℕ, String, ◌==◌, text_eq, not, [], ◌∷◌, ltb, if◌then◌else◌}
use guide_os.Json.{Json, Fields, number, text, array, object, dict}
use guide_os.Errors.{Result, ok, err, ◌>>=◌, ◌>>◌, raise_if, validation_error, Detail}
use guide_os.Platform.{Platform}
use guide_os.Identity.{validate_guide_os_id}
use guide_os.Validation.{require_nonempty, require_iso_datetime}
use guide_os.Version.Snapshot.{
  require_object, validate_working_package_snapshot, validate_critical_change_summary,
}

pub record AssignmentVersionPublishedIntake : Type 0 where
  pub event_id : String
  pub assignment_id : String
  pub guide_os_id : String
  pub version_number : ℕ
  pub previous_active_version_number : ℕ
  pub severity : String
  pub working_package : Json
  pub change_summary : Json
  pub published_at : String

-- The dict that the normalisers return.
pub record PublishedVersion : Type 0 where
  pub event_id : String
  pub assignment_id : String
  pub guide_os_id : String
  pub version_number : ℕ
  pub previous_active : ℕ
  pub severity : String
  pub working_package : Fields
  pub change_summary : Json
  pub published_at : String

unfoldable pub version_payload : PublishedVersion → Json
version_payload n = dict (
    ("event_id", text n.event_id)
    ∷ ("assignment_id", text n.assignment_id)
    ∷ ("guide_os_id", text n.guide_os_id)
    ∷ ("version_number", number n.version_number)
    ∷ ("previous_active_version_number", number n.previous_active)
    ∷ ("severity", text n.severity)
    ∷ ("working_package", object n.working_package)
    ∷ ("change_summary", n.change_summary)
    ∷ ("published_at", text n.published_at)
    ∷ [])

-- `_require_int`: a ℕ is an integer, and a negative number takes the same branch as 0.
abbrev pub require_int : ℕ → ℕ → Result ℕ
require_int value minimum =
    if ltb value minimum then err (validation_error Detail.plain) else ok value

abbrev require_list : Json → Result Json
require_list (array items) = ok (array items)
require_list _ = err (validation_error Detail.plain)

module _ (env : Platform) where
  unfoldable pub normalize_ordinary_version :
      AssignmentVersionPublishedIntake → Result PublishedVersion
  normalize_ordinary_version event = do
    event_id ← require_nonempty event.event_id
    assignment_id ← require_nonempty event.assignment_id
    guide_os_id ← validate_guide_os_id event.guide_os_id
    version_number ← require_int event.version_number 2
    previous_active ← require_int event.previous_active_version_number 1
    raise_if (not (event.severity == "ordinary")) (validation_error Detail.plain)
    given ← require_object event.working_package
    change_summary ← require_list event.change_summary
    published_at ← require_iso_datetime env event.published_at
    working_package ← validate_working_package_snapshot env given assignment_id guide_os_id
    ok (record {
      event_id = event_id;
      assignment_id = assignment_id;
      guide_os_id = guide_os_id;
      version_number = version_number;
      previous_active = previous_active;
      severity = "ordinary";
      working_package = working_package;
      change_summary = change_summary;
      published_at = published_at;
    })

  unfoldable pub normalize_critical_version :
      AssignmentVersionPublishedIntake → Result PublishedVersion
  normalize_critical_version event = do
    event_id ← require_nonempty event.event_id
    assignment_id ← require_nonempty event.assignment_id
    guide_os_id ← validate_guide_os_id event.guide_os_id
    version_number ← require_int event.version_number 2
    previous_active ← require_int event.previous_active_version_number 1
    raise_if (not (event.severity == "critical")) (validation_error Detail.plain)
    given ← require_object event.working_package
    published_at ← require_iso_datetime env event.published_at
    working_package ← validate_working_package_snapshot env given assignment_id guide_os_id
    changes ← validate_critical_change_summary event.change_summary
    ok (record {
      event_id = event_id;
      assignment_id = assignment_id;
      guide_os_id = guide_os_id;
      version_number = version_number;
      previous_active = previous_active;
      severity = "critical";
      working_package = working_package;
      change_summary = array changes;
      published_at = published_at;
    })
