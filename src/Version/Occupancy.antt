-- ===== src/Version/Occupancy.antt =====
-- `_ordinary_occupancy_violations` and `_occupancy_envelope`: what an ordinary version may not
-- change of the days that an assignment occupies.
use guide_os.Prelude.{
  ℕ, zero, Bool, true, false, String, ◌==◌, text_eq, not, ◌&&◌, Option, none, some, List, [], ◌∷◌,
  ◌++◌, ltb, eqb, if◌then◌else◌,
}
use guide_os.Prelude.Text.{text_before}
use guide_os.Json.{Json, null, boolean, number, text, array, object, nil, Fields, end, get}
use guide_os.Errors.{Result, ok, ◌>>=◌}
use guide_os.Platform.{Platform}
use guide_os.Database.{Assignment}
use guide_os.Version.Snapshot.{Day, as_mapping, has_day, day_events, working_package_day_map}

-- Python's truth of a value.
abbrev truthy : Json → Bool
truthy null = false
truthy (boolean b) = b
truthy (number zero) = false
truthy (number n) = true
truthy (text s) = not (s == "")
truthy (array nil) = false
truthy (object end) = false
truthy _ = true

-- `min(texts) if texts else None`
earliest : List String → Option String
earliest [] = none
earliest (s ∷ texts) = elim (earliest texts) [
  | none ↦ some s
  | some t ↦ some (if text_before t s then t else s)
]

-- `max(texts) if texts else None`
latest : List String → Option String
latest [] = none
latest (s ∷ texts) = elim (latest texts) [
  | none ↦ some s
  | some t ↦ some (if text_before s t then t else s)
]

abbrev same_optional : Option String → Option String → Bool
same_optional none none = true
same_optional (some s) (some t) = s == t
same_optional _ _ = false

-- The two texts of a comparison whose right-hand side is a checked field of the next package.
abbrev same_text : Json → Json → Bool
same_text (text s) (text t) = s == t
same_text _ _ = false

-- The dates of both dicts, in order.
insert_date : ℕ → List ℕ → List ℕ
insert_date date [] = date ∷ []
insert_date date (d ∷ dates) =
    let rest = insert_date date dates in if ltb date d then date ∷ d ∷ dates else d ∷ rest

shared_dates : List Day → List Day → List ℕ
unfolding insert_date
shared_dates [] days = []
shared_dates (d ∷ others) days =
    let rest = shared_dates others days in
    if has_day d.date days then insert_date d.date rest else rest

-- `mapped[date]` of a date that is a key
day_at : ℕ → List Day → Fields
day_at date [] = end
day_at date (d ∷ days) = if eqb d.date date then d.raw else day_at date days

all_in : List Day → List Day → Bool
all_in [] days = true
all_in (d ∷ others) days = has_day d.date days && all_in others days

module _ (env : Platform) where
  -- `str(value)`
  abbrev str : Json → String
  str (text s) = s
  str value = env.str_of value

  -- `[str(event[key]) for event in events if event.get(key)]`
  times_of : String → List Fields → List String
  times_of key [] = []
  times_of key (event ∷ events) =
      let rest = times_of key events in
      if truthy (get key event) then str (get key event) ∷ rest else rest

  abbrev or_latest : Option String → Option String → Option String
  or_latest (some t) _ = some t
  or_latest none other = other

  -- `_occupancy_envelope`
  unfoldable pub occupancy_envelope : List Fields → Option String × Option String
  unfolding times_of earliest latest
  occupancy_envelope events = (
    earliest (times_of "start_time" events),
    or_latest (latest (times_of "end_time" events)) (latest (times_of "start_time" events)),
  )

  abbrev same_envelope : List Fields → List Fields → Bool
  same_envelope previous next =
      same_optional (occupancy_envelope previous).0 (occupancy_envelope next).0
      && same_optional (occupancy_envelope previous).1 (occupancy_envelope next).1

  -- The loop over the shared days, which stops at the first that differs.
  envelope_codes : List Day → List Day → List ℕ → Result (List String)
  unfolding day_at
  envelope_codes previous next [] = ok []
  envelope_codes previous next (date ∷ dates) = do
    before_events ← day_events (day_at date previous)
    after_events ← day_events (day_at date next)
    if same_envelope before_events after_events
        then envelope_codes previous next dates
        else ok ("occupancy_envelope" ∷ [])

  abbrev code_if : Bool → String → List String
  code_if true name = name ∷ []
  code_if false name = []

  unfoldable pub ordinary_occupancy_violations : Assignment → Fields → Fields → Result (List String)
  unfolding envelope_codes shared_dates all_in
  ordinary_occupancy_violations a previous_package next_package = do
    let previous = as_mapping (get "assignment" previous_package)
    let next = as_mapping (get "assignment" next_package)
    let keeps_role : Bool =
        same_text (text a.role) (get "role" next)
        && same_text (get "role" previous) (get "role" next)
    let keeps_dates : Bool =
        same_text (text (env.date_text a.start_date)) (get "start_date" next)
        && same_text (text (env.date_text a.end_date)) (get "end_date" next)
        && same_text (get "start_date" previous) (get "start_date" next)
        && same_text (get "end_date" previous) (get "end_date" next)
    previous_days ← working_package_day_map env previous_package
    next_days ← working_package_day_map env next_package
    envelope ← envelope_codes previous_days next_days (shared_dates previous_days next_days)
    ok (
        code_if (not keeps_role) "assignment_role"
        ++ code_if (not keeps_dates) "assignment_dates"
        ++ code_if (not (all_in previous_days next_days && all_in next_days previous_days))
            "day_set"
        ++ envelope)
