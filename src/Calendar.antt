-- ===== src/Calendar.antt =====
-- The guide's calendar as the assignment service reads it: `get_conflicting_dates` and
-- `days_in_range` of services/tour_service.py, and `_calendar_conflicts` of
-- services/guide_operator_assignment_service.py.
pub mod Free
pub mod Kept
pub mod Spared
use guide_os.Prelude.{
  ℕ, zero, suc, ◌+◌, ◌-◌, Bool, false, String, ◌==◌, text_eq, number_eq, ◌&&◌, ◌||◌, Option, none,
  some, List, [], ◌∷◌, ltb, leb, eqb, if◌then◌else◌,
}
use guide_os.Database.{Tour}

-- `n` days from `day` on: the loop `while current <= end`, which counts its rounds before.
days_from : ℕ → ℕ → List ℕ
days_from day zero = []
days_from day (suc n) = day ∷ days_from (day + 1) n

unfoldable pub days_in_range : ℕ → ℕ → List ℕ
unfolding days_from
days_in_range start end = days_from start (end + 1 - start)

-- A set of dates, kept as `sorted(set)` returns it.
add_date : ℕ → List ℕ → List ℕ
add_date d [] = d ∷ []
add_date d (x ∷ xs) = if ltb d x then d ∷ x ∷ xs else if eqb d x then x ∷ xs else x ∷ add_date d xs

-- `conflict_dates.update(dates)`
update_dates : List ℕ → List ℕ → List ℕ
unfolding add_date
update_dates set [] = set
update_dates set (d ∷ dates) = update_dates (add_date d set) dates

-- SELECT * FROM tours WHERE user_id = ? AND start_date <= ? AND end_date >= ?
unfoldable pub get_tours_in_range : ℕ → ℕ → ℕ → List Tour → List Tour
get_tours_in_range user_id range_start range_end [] = []
get_tours_in_range user_id range_start range_end (t ∷ tours) =
    let rest = get_tours_in_range user_id range_start range_end tours in
    if (t.user_id == user_id) && leb t.start_date range_end && leb range_start t.end_date
    then t ∷ rest
    else rest

abbrev excluded : Option ℕ → Option String → Tour → Bool
excluded id group t = is_id id t || is_group group t
  where
    is_id : Option ℕ → Tour → Bool
    is_id none t = false
    is_id (some i) t = t.id == i

    in_group : String → Option String → Bool
    in_group g none = false
    in_group g (some h) = h == g

    is_group : Option String → Tour → Bool
    is_group none t = false
    is_group (some g) t = in_group g t.tour_group_id

abbrev pub max_date : ℕ → ℕ → ℕ
max_date a b = if ltb a b then b else a

abbrev pub min_date : ℕ → ℕ → ℕ
min_date a b = if ltb b a then b else a

-- The days that a row shares with the requested interval, added row by row.
conflicts_of_rows : ℕ → ℕ → Option ℕ → Option String → List ℕ → List Tour → List ℕ
unfolding update_dates days_in_range
conflicts_of_rows start end id group dates [] = dates
conflicts_of_rows start end id group dates (t ∷ rows) =
    conflicts_of_rows start end id group
      (if excluded id group t
        then dates
        else update_dates dates
            (days_in_range (max_date start t.start_date) (min_date end t.end_date)))
      rows

-- One interval of `get_conflicting_dates`; the services here always ask about a single date.
unfoldable pub get_conflicting_dates : ℕ → ℕ → ℕ → Option ℕ → Option String → List Tour → List ℕ
unfolding conflicts_of_rows
get_conflicting_dates user_id start end id group tours =
    conflicts_of_rows start end id group [] (get_tours_in_range user_id start end tours)

-- for day in days: conflict_dates.update(get_conflicting_dates(user_id, day, …))
conflicts_of_days : ℕ → Option ℕ → List Tour → List ℕ → List ℕ → List ℕ
unfolding update_dates
conflicts_of_days user_id id tours dates [] = dates
conflicts_of_days user_id id tours dates (day ∷ days) =
    conflicts_of_days user_id id tours
      (update_dates dates (get_conflicting_dates user_id day day id none tours)) days

unfoldable pub calendar_conflicts : ℕ → ℕ → ℕ → Option ℕ → List Tour → List ℕ
unfolding conflicts_of_days
calendar_conflicts user_id start_date end_date exclude_tour_id tours =
    conflicts_of_days user_id exclude_tour_id tours [] (days_in_range start_date end_date)
