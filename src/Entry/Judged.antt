-- ===== src/Entry/Judged.antt =====
-- What `check_entry_conflicts` looks for, without its loops.
use guide_os.Prelude.{
  ℕ, Bool, false, true, String, text_eq, not, ◌&&◌, ◌||◌, ◌≡◌, refl, Option, none, some, is_some,
  List, [], ◌∷◌, arith, subst,
}
use guide_os.Errors.{Result, ok, err}
use guide_os.Database.{Db}
use guide_os.Calendar.{days_in_range}
use guide_os.Entry.Draft.{TourEntryDraft}
use guide_os.Entry.View.{Entry, list_entries}
use guide_os.Entry.Conflicts.{
  ConflictResult, clear, block, Scan, going, ended, first_warning, is_met, is_barred, scan_day,
  scan_days, excluded_group, check_entry_conflicts,
}

abbrev pub is_blocked : ConflictResult → Bool
is_blocked (block date ex reason) = true
is_blocked _ = false

abbrev pub is_clear : ConflictResult → Bool
is_clear clear = true
is_clear _ = false

-- Some value of the list passes the test.
unfoldable pub any_of : {A : Type 0} → (A → Bool) → List A → Bool
any_of test [] = false
any_of test (a ∷ rest) = test a || any_of test rest

-- Some entry that is not left out stands on the day.
abbrev pub meets_on : Option String → Option String → List Entry → ℕ → Bool
meets_on exclude_id exclude_group_id entries date =
    any_of (is_met exclude_id exclude_group_id date) entries

-- And is a day off, or takes place at a time of the draft.
abbrev pub barred_on : TourEntryDraft → Option String → Option String → List Entry → ℕ → Bool
barred_on d exclude_id exclude_group_id entries date =
    any_of (λ ex. is_met exclude_id exclude_group_id date ex && is_barred d ex) entries

-- The draft is blocked exactly when an entry bars it on one of the dates, and clear exactly when no
-- entry has been met before or stands on one of them.
abbrev pub IsJudged :
    TourEntryDraft
    → Option String
    → Option String
    → List Entry
    → List ℕ
    → Bool
    → ConflictResult
    → Type 0
IsJudged d exclude_id exclude_group_id entries dates seen answer =
    (is_blocked answer ≡ any_of (barred_on d exclude_id exclude_group_id entries) dates)
    × (is_clear answer ≡ not (seen || any_of (meets_on exclude_id exclude_group_id entries) dates))

module _ (d : TourEntryDraft) (exclude_id exclude_group_id : Option String) where
  barred-meets :
      (entries : List Entry) (date : ℕ)
      → barred_on d exclude_id exclude_group_id entries date ≡ true
      → meets_on exclude_id exclude_group_id entries date ≡ true
  unfolding any_of
  barred-meets [] date h = ground arith
  barred-meets (ex ∷ entries) date h = ground (arith, barred-meets entries date)

  scan_day-ended :
      (date : ℕ) (entries : List Entry) (warning : Option (ℕ × Entry)) (answer : ConflictResult)
      → scan_day d exclude_id exclude_group_id date entries warning ≡ ended answer
      → (barred_on d exclude_id exclude_group_id entries date ≡ true)
        × (is_blocked answer ≡ true)
        × (is_clear answer ≡ false)
  unfolding scan_day any_of
  scan_day-ended date [] warning answer h = ground arith
  scan_day-ended date (ex ∷ entries) warning answer h = ground (
    arith,
    scan_day-ended date entries warning answer,
    scan_day-ended date entries (first_warning warning date ex) answer,
  )

  scan_day-going :
      (date : ℕ) (entries : List Entry) (warning later : Option (ℕ × Entry))
      → scan_day d exclude_id exclude_group_id date entries warning ≡ going later
      → (barred_on d exclude_id exclude_group_id entries date ≡ false)
        × (is_some later ≡ (is_some warning || meets_on exclude_id exclude_group_id entries date))
  unfolding scan_day any_of
  scan_day-going date [] warning later h = ground arith
  scan_day-going date (ex ∷ entries) warning later h = ground (
    arith,
    scan_day-going date entries warning later,
    scan_day-going date entries (first_warning warning date ex) later,
  )

  scan_days-IsJudged :
      (entries : List Entry) (dates : List ℕ) (warning : Option (ℕ × Entry))
      → IsJudged d exclude_id exclude_group_id entries dates
          (is_some warning)
          (scan_days d exclude_id exclude_group_id entries dates warning)
  unfolding scan_days any_of
  scan_days-IsJudged entries [] none = (refl, refl)
  scan_days-IsJudged entries [] (some w) = (refl, refl)
  scan_days-IsJudged entries (date ∷ dates) warning =
      scanned (scan_day d exclude_id exclude_group_id date entries warning) refl
        (scan_days-IsJudged entries dates)
    where
      scanned :
          (s : Scan)
          → scan_day d exclude_id exclude_group_id date entries warning ≡ s
          → ((later : Option (ℕ × Entry))
              → IsJudged d exclude_id exclude_group_id entries dates
                  (is_some later)
                  (scan_days d exclude_id exclude_group_id entries dates later))
          → IsJudged d exclude_id exclude_group_id entries
              (date ∷ dates)
              (is_some warning)
              (scan_days d exclude_id exclude_group_id entries (date ∷ dates) warning)
      scanned (ended answer) e rest =
          let (barred, blocked, unclear) = scan_day-ended date entries warning answer e in
          ground (arith, e, barred, blocked, unclear, barred-meets entries date)
      scanned (going later) e rest =
          let (barred, met) = scan_day-going date entries warning later e in
          ground (arith, e, barred, met, rest later)

-- An answer on a draft blocks it exactly when, on some day of the draft, some entry in the list of
-- the guide's entries that is not left out is a day off or takes place at a time of the draft; and
-- is clear exactly when no entry that is not left out stands on any of these days at all.
pub check_entry_conflicts-IsJudged :
    (str : ℕ → String) (int : String → Option ℕ) (user_id : ℕ) (d : TourEntryDraft)
    (exclude_id : Option String) (db : Db) (answer : ConflictResult)
    → check_entry_conflicts str int user_id d exclude_id db ≡ ok answer
    → (group : Option String) × (excluded_group str int user_id exclude_id db ≡ ok group)
      × IsJudged d exclude_id group
          (list_entries str user_id d.start_date d.end_date db)
          (days_in_range d.start_date d.end_date)
          false
          answer
unfolding check_entry_conflicts
check_entry_conflicts-IsJudged str int user_id d exclude_id db answer h =
    looked_up (excluded_group str int user_id exclude_id db) refl
  where
    looked_up :
        (r : Result (Option String))
        → excluded_group str int user_id exclude_id db ≡ r
        → (group : Option String) × (excluded_group str int user_id exclude_id db ≡ ok group)
          × IsJudged d exclude_id group
              (list_entries str user_id d.start_date d.end_date db)
              (days_in_range d.start_date d.end_date)
              false
              answer
    looked_up (err x) e = absurd (ground (arith, e))
    looked_up (ok group) e =
        let entries = list_entries str user_id d.start_date d.end_date db in
        let dates = days_in_range d.start_date d.end_date in
        let same : scan_days d exclude_id group entries dates none ≡ answer = ground (arith, e) in
        let judged : IsJudged d exclude_id group entries dates false answer =
          subst (IsJudged d exclude_id group entries dates false) same
            (scan_days-IsJudged d exclude_id group entries dates none) in
        (group, e, judged)
