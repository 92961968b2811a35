-- ===== src/Entry/View.antt =====
-- `list_entries`, `get_entry`, `collapse_rows_to_entries`, `_merge_group_rows` and
-- `row_to_entry_dict`, in the keys that the check of conflicts and the copy of an entry read.
use guide_os.Prelude.{
  or_else, ℕ, Bool, false, true, String, ◌==◌, text_eq, not, ◌&&◌, ◌||◌, Option, none, some, List,
  [], ◌∷◌, ◌++◌, map, ltb, eqb, if◌then◌else◌,
}
use guide_os.Prelude.Text.{text_before}
use guide_os.Database.{Db, Tour}
use guide_os.Assignment.Decide.{is_guide_operator}
use guide_os.Entry.Rows.{get_tour_by_id, by_group}
use guide_os.Calendar.{get_tours_in_range, min_date, max_date}

pub record Entry : Type 0 where
  pub id : String
  pub entry_type : String
  pub title : String
  pub start_date : ℕ
  pub end_date : ℕ
  pub start_time : Option String
  pub end_time : Option String
  pub status : String
  pub payment : Option String
  pub income : Option ℕ
  pub company : String
  pub location : String
  pub note : Option String
  pub group_id : Option String

-- `text or other`
abbrev pub or_text : Option String → String → String
or_text none other = other
or_text (some text) other = if text == "" then other else text

-- The truth value of a text that may be None.
abbrev pub is_given : Option String → Bool
is_given none = false
is_given (some text) = not (text == "")

-- `sorted`, by a test that one value comes before another.
insert_by : {A : Type 0} → (A → A → Bool) → A → List A → List A
insert_by before a [] = a ∷ []
insert_by before a (b ∷ rest) =
    let later = insert_by before a rest in if before b a then b ∷ later else a ∷ b ∷ rest

unfoldable pub sort_by : {A : Type 0} → (A → A → Bool) → List A → List A
unfolding insert_by
sort_by before [] = []
sort_by before (a ∷ rest) = insert_by before a (sort_by before rest)

-- `groups.setdefault(group_id, []).append(row)`
append_row : String → Tour → List (String × List Tour) → List (String × List Tour)
append_row group t [] = (group, t ∷ []) ∷ []
append_row group t ((g, rows) ∷ groups) =
    let later = append_row group t groups in
    if g == group then (g, rows ++ (t ∷ [])) ∷ groups else (g, rows) ∷ later

-- The groups in the order of their first rows, and the rows without one.
partition_rows :
    List Tour → List (String × List Tour) → List Tour → List (String × List Tour) × List Tour
unfolding append_row
partition_rows [] groups singles = (groups, singles)
partition_rows (t ∷ rows) groups singles = elim (is_given t.tour_group_id) [
  | true ↦ partition_rows rows (append_row (or_text t.tour_group_id "") t groups) singles
  | false ↦ partition_rows rows groups (singles ++ (t ∷ []))
]

module _ (str : ℕ → String) where
  abbrev pub row_to_entry_dict : Tour → Entry
  row_to_entry_dict t = record {
    id = str t.id;
    entry_type = t.entry_type;
    title = if t.entry_type == "day_off" then "Выходной" else or_text t.title t.company;
    start_date = t.start_date;
    end_date = t.end_date;
    start_time = t.start_time;
    end_time = t.end_time;
    status = t.status;
    payment = if is_guide_operator t.source then none else some t.payment_status;
    income = if is_guide_operator t.source then none else some (or_else t.income 0);
    company = t.company;
    location = t.city;
    note = t.note;
    group_id = t.tour_group_id;
  }

  abbrev row_before : Tour → Tour → Bool
  row_before a b = ltb a.start_date b.start_date || (eqb a.start_date b.start_date && ltb a.id b.id)

  abbrev entry_before : Entry → Entry → Bool
  entry_before a b =
      ltb a.start_date b.start_date || (eqb a.start_date b.start_date && text_before a.id b.id)

  first_start : ℕ → List Tour → ℕ
  first_start day [] = day
  first_start day (t ∷ rows) = first_start (min_date day t.start_date) rows

  last_end : ℕ → List Tour → ℕ
  last_end day [] = day
  last_end day (t ∷ rows) = last_end (max_date day t.end_date) rows

  -- The first row, over the days from the first start to the last end.
  merge_ordered : List Tour → List Entry
  unfolding first_start last_end
  merge_ordered [] = []
  merge_ordered (t ∷ rows) =
      row_to_entry_dict (record t {
        start_date = first_start t.start_date rows;
        end_date = last_end t.end_date rows;
      })
      ∷ []

  merge_group_rows : List Tour → List Entry
  unfolding merge_ordered sort_by
  merge_group_rows rows = merge_ordered (sort_by row_before rows)

  merge_groups : List (String × List Tour) → List Entry
  unfolding merge_group_rows
  merge_groups [] = []
  merge_groups ((g, rows) ∷ groups) = merge_group_rows rows ++ merge_groups groups

  abbrev collapsed : List (String × List Tour) × List Tour → List Entry
  unfolding merge_groups
  collapsed (groups, singles) = merge_groups groups ++ map row_to_entry_dict singles

  unfoldable pub collapse_rows_to_entries : List Tour → List Entry
  unfolding collapsed partition_rows sort_by
  collapse_rows_to_entries rows = sort_by entry_before (collapsed (partition_rows rows [] []))

  unfoldable pub list_entries : ℕ → ℕ → ℕ → Db → List Entry
  unfolding collapse_rows_to_entries
  list_entries user_id from_date to_date db =
      collapse_rows_to_entries (get_tours_in_range user_id from_date to_date db.tours)

  -- SELECT … FROM tours WHERE user_id = ? AND tour_group_id = ?
  get_tours_by_group_id : ℕ → String → List Tour → List Tour
  get_tours_by_group_id user_id group [] = []
  get_tours_by_group_id user_id group (t ∷ tours) =
      let rest = get_tours_by_group_id user_id group tours in
      if by_group user_id group t then t ∷ rest else rest

  abbrev first_of : List Entry → Option Entry
  first_of [] = none
  first_of (ex ∷ entries) = some ex

  entry_of : ℕ → Option Tour → Db → Option Entry
  unfolding collapse_rows_to_entries get_tours_by_group_id
  entry_of user_id none db = none
  entry_of user_id (some t) db =
      if is_given t.tour_group_id
      then first_of (
          collapse_rows_to_entries
            (get_tours_by_group_id user_id (or_text t.tour_group_id "") db.tours))
      else some (row_to_entry_dict t)

  unfoldable pub get_entry : ℕ → ℕ → Db → Option Entry
  unfolding entry_of
  get_entry user_id entry_id db = entry_of user_id (get_tour_by_id user_id entry_id db) db
