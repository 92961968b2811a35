-- ===== src/Entry/Conflicts.antt =====
-- `check_entry_conflicts`, `_is_full_day_entry`, `_date_in_entry` and `_times_overlap`.
-- The dates of a draft are days, so that neither is missing; the text of a reason is its parts.
use guide_os.Prelude.{
  ℕ, Bool, false, true, String, ◌==◌, text_eq, not, ◌&&◌, ◌||◌, Option, none, some, List, [], ◌∷◌,
  leb, if◌then◌else◌,
}
use guide_os.Prelude.Text.{text_before}
use guide_os.Errors.{Result, ok, err, value_error, ◌>>=◌}
use guide_os.Database.{Db, Tour}
use guide_os.Calendar.{days_in_range}
use guide_os.Entry.Rows.{get_tour_by_id}
use guide_os.Entry.Draft.{TourEntryDraft}
use guide_os.Entry.View.{Entry, or_text, is_given, list_entries}

pub data Reason : Type 0 where
  day_off_marked : Reason
  times_meet : (title : String) → (span : Option (String × String)) → Reason

pub data ConflictResult : Type 0 where
  clear : ConflictResult
  warn : (date : ℕ) → (existing : Entry) → ConflictResult
  block : (date : ℕ) → (existing : Entry) → Reason → ConflictResult

abbrev pub is_full_day_entry : String → Option String → Option String → Bool
is_full_day_entry entry_type start_time end_time =
    (entry_type == "day_off") || not (is_given start_time) || not (is_given end_time)

abbrev pub date_in_entry : ℕ → Entry → Bool
date_in_entry date ex = leb ex.start_date date && leb date ex.end_date

abbrev pub times_overlap : (a_start a_end b_start b_end : String) → Bool → Bool → Bool
times_overlap a_start a_end b_start b_end a_full b_full =
    a_full || b_full || (text_before a_start b_end && text_before b_start a_end)

-- The entry itself, or another row of its group.
abbrev pub is_excluded : Option String → Option String → Entry → Bool
is_excluded exclude_id exclude_group_id ex =
    has_id exclude_id || (is_given exclude_group_id && has_group exclude_group_id ex.group_id)
  where
    has_id : Option String → Bool
    has_id none = false
    has_id (some id) = ex.id == id

    has_group : Option String → Option String → Bool
    has_group (some g) (some h) = h == g
    has_group _ _ = false

abbrev pub overlaps : TourEntryDraft → Entry → Bool
overlaps d ex =
    times_overlap (or_text d.start_time "00:00") (or_text d.end_time "24:00")
      (or_text ex.start_time "00:00") (or_text ex.end_time "24:00")
      (is_full_day_entry d.entry_type d.start_time d.end_time)
      (is_full_day_entry ex.entry_type ex.start_time ex.end_time)

abbrev pub reason_for : Entry → Reason
reason_for ex =
    if ex.entry_type == "day_off"
    then day_off_marked
    else times_meet (if ex.title == "" then ex.company else ex.title) (
        if is_full_day_entry ex.entry_type ex.start_time ex.end_time
        then none
        else some (or_text ex.start_time "", or_text ex.end_time ""))

-- What the loops carry on: the first warning, or the answer that ends them.
pub data Scan : Type 0 where
  going : Option (ℕ × Entry) → Scan
  ended : ConflictResult → Scan

abbrev pub first_warning : Option (ℕ × Entry) → ℕ → Entry → Option (ℕ × Entry)
first_warning none date ex = some (date, ex)
first_warning (some w) date ex = some w

abbrev pub answer_of : Option (ℕ × Entry) → ConflictResult
answer_of none = clear
answer_of (some (date, ex)) = warn date ex

-- The entry is not left out, and stands on the day.
abbrev pub is_met : Option String → Option String → ℕ → Entry → Bool
is_met exclude_id exclude_group_id date ex =
    not (is_excluded exclude_id exclude_group_id ex) && date_in_entry date ex

-- A day off, or a time that the draft needs too.
abbrev pub is_barred : TourEntryDraft → Entry → Bool
is_barred d ex = (ex.entry_type == "day_off") || overlaps d ex

module _ (d : TourEntryDraft) (exclude_id exclude_group_id : Option String) where
  unfoldable pub scan_day : ℕ → List Entry → Option (ℕ × Entry) → Scan
  scan_day date [] warning = going warning
  scan_day date (ex ∷ entries) warning = elim (is_met exclude_id exclude_group_id date ex) [
    | false ↦ scan_day date entries warning
    | true ↦ elim (is_barred d ex) [
      | true ↦ ended (block date ex (reason_for ex))
      | false ↦ scan_day date entries (first_warning warning date ex)
    ]
  ]

  unfoldable pub scan_days : List Entry → List ℕ → Option (ℕ × Entry) → ConflictResult
  scan_days entries [] warning = answer_of warning
  scan_days entries (date ∷ dates) warning = elim (scan_day date entries warning) [
    | ended answer ↦ answer
    | going later ↦ scan_days entries dates later
  ]

abbrev group_of : Option Tour → Option String
group_of none = none
group_of (some t) = t.tour_group_id

-- `str` of a number and `int` of a text, where none is ValueError, are those of Python.
module _ (str : ℕ → String) (int : String → Option ℕ) where
  abbrev pub excluded_group : ℕ → Option String → Db → Result (Option String)
  excluded_group user_id none db = ok none
  excluded_group user_id (some id) db = elim (int id) [
    | none ↦ err value_error
    | some tour_id ↦ ok (group_of (get_tour_by_id user_id tour_id db))
  ]

  unfoldable pub check_entry_conflicts :
      ℕ → TourEntryDraft → Option String → Db → Result ConflictResult
  check_entry_conflicts user_id d exclude_id db = do
    exclude_group_id ← excluded_group user_id exclude_id db
    ok (
        scan_days d exclude_id exclude_group_id
          (list_entries str user_id d.start_date d.end_date db)
          (days_in_range d.start_date d.end_date) none)
