-- ===== src/Version/Snapshot.antt =====
-- The checks on a working package: `_validate_working_package_snapshot`,
-- `_working_package_day_map`, `_day_events`, `_as_mapping`, `_load_working_package_json` and
-- `_validate_critical_change_summary`.
use guide_os.Prelude.{
  ℕ, Bool, true, false, String, ◌==◌, text_eq, not, ◌||◌, List, [], ◌∷◌, ltb, eqb,
}
use guide_os.Prelude.Text.{strip}
use guide_os.Json.{Json, null, text, array, object, Items, nil, cons, Fields, end, field, get}
use guide_os.Errors.{
  Result, ok, err, ◌>>=◌, ◌>>◌, raise_if, or_raise, validation_error, type_error, Detail,
}
use guide_os.Platform.{Platform}
use guide_os.Identity.{validate_guide_os_id}
use guide_os.Validation.{require_nonempty, require_iso_date}

-- A day of a package with its date.
pub record Day : Type 0 where
  pub date : ℕ
  pub raw : Fields

-- `value if isinstance(value, str) else ""`
abbrev pub text_or_empty : Json → String
text_or_empty (text s) = s
text_or_empty _ = ""

-- A nonempty dict, or AssignmentValidationError.
abbrev pub require_object : Json → Result Fields
require_object (object (field k v rest)) = ok (field k v rest)
require_object _ = err (validation_error Detail.plain)

-- `_as_mapping`
abbrev pub as_mapping : Json → Fields
as_mapping (object fields) = fields
as_mapping _ = end

-- `date in mapped`
abbrev pub has_day : ℕ → List Day → Bool
has_day date [] = false
has_day date (d ∷ days) = eqb d.date date || has_day date days

-- The text of a date, or AssignmentValidationError.
abbrev require_text : Json → Result String
require_text (text s) = ok s
require_text _ = err (validation_error Detail.plain)

as_day : Json → Result Fields
as_day (object fields) = ok fields
as_day _ = err (validation_error Detail.plain)

collect_events : Items → Result (List Fields)
collect_events nil = ok []
collect_events (cons (object event) items) = do rest ← collect_events items; ok (event ∷ rest)
collect_events (cons _ items) = err (validation_error Detail.plain)

day_events_of : Json → Result (List Fields)
unfolding collect_events
day_events_of null = ok []
day_events_of (array items) = collect_events items
day_events_of _ = err (validation_error Detail.plain)

-- `_day_events`
unfoldable pub day_events : Fields → Result (List Fields)
unfolding day_events_of
day_events day = day_events_of (get "events" day)

-- `severity is not None and severity not in {…}`: a list or a dict cannot be looked up in a set.
check_change_severity : Json → Result (Unit {0})
check_change_severity null = ok tt
check_change_severity (text s) =
    raise_if (not ((s == "critical") || (s == "ordinary") || (s == "uncertain")))
      (validation_error Detail.plain)
check_change_severity (array items) = err type_error
check_change_severity (object fields) = err type_error
check_change_severity _ = err (validation_error Detail.plain)

-- `not isinstance(value, str) or not value.strip()`
abbrev is_blank : Json → Bool
is_blank (text s) = strip s == ""
is_blank _ = true

check_changes : Items → Result (Unit {0})
unfolding check_change_severity
check_changes nil = ok tt
check_changes (cons item items) = do
  change ← require_object item
  raise_if (is_blank (get "code" change)) (validation_error Detail.plain)
  raise_if (is_blank (get "path" change)) (validation_error Detail.plain)
  check_change_severity (get "severity" change)
  check_changes items

-- `_validate_critical_change_summary`, which returns the list that it was given.
unfoldable pub validate_critical_change_summary : Json → Result Items
unfolding check_changes
validate_critical_change_summary (array (cons item items)) = do
  check_changes (cons item items)
  ok (cons item items)
validate_critical_change_summary _ = err (validation_error Detail.plain)

module _ (env : Platform) where
  -- `_load_working_package_json`
  unfoldable pub load_working_package_json : String → Result Fields
  load_working_package_json raw = do
    loaded ← or_raise (env.loads raw) (validation_error Detail.plain)
    require_object loaded

  map_days : Items → List Day → Result (List Day)
  unfolding as_day
  map_days nil mapped = ok mapped
  map_days (cons item items) mapped = do
    raw ← as_day item
    raw_date ← require_text (get "date" raw)
    date ← require_iso_date env raw_date
    raise_if (has_day date mapped) (validation_error Detail.plain)
    map_days items (record { date = date; raw = raw } ∷ mapped)

  day_map_of : Json → Result (List Day)
  unfolding map_days
  day_map_of (array items) = map_days items []
  day_map_of _ = err (validation_error Detail.plain)

  -- `_working_package_day_map`, the dict as its entries, latest first.
  unfoldable pub working_package_day_map : Fields → Result (List Day)
  unfolding day_map_of
  working_package_day_map snapshot = day_map_of (get "days" snapshot)

  -- `_validate_working_package_snapshot`, which returns the package that it was given.
  unfoldable pub validate_working_package_snapshot : Fields → String → String → Result Fields
  validate_working_package_snapshot snapshot assignment_id guide_os_id = do
    assignment ← require_object (get "assignment" snapshot)
    package_assignment_id ← require_nonempty (text_or_empty (get "id" assignment))
    raise_if (not (package_assignment_id == assignment_id)) (validation_error Detail.plain)
    raise_if (is_blank (get "guide_os_id" assignment)) (validation_error Detail.plain)
    identity ← validate_guide_os_id (text_or_empty (get "guide_os_id" assignment))
    raise_if (not (identity == guide_os_id)) (validation_error Detail.plain)
    _ ← require_nonempty (text_or_empty (get "role" assignment))
    start_date ← require_iso_date env (text_or_empty (get "start_date" assignment))
    end_date ← require_iso_date env (text_or_empty (get "end_date" assignment))
    raise_if (ltb end_date start_date) (validation_error Detail.plain)
    _ ← working_package_day_map snapshot
    ok snapshot
