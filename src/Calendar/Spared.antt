-- ===== src/Calendar/Spared.antt =====
-- The entry that a question about booked days leaves out: the answer is that of the calendar
-- without it.
use guide_os.Prelude.{
  ℕ, ◌==◌, number_eq, ◌≡◌, refl, ◌↔◌, inl, inr, none, some, List, [], ◌∷◌, arith, Bool-cases,
}
use guide_os.Database.{Tour, remove}
use guide_os.Calendar.{
  days_in_range, get_tours_in_range, conflicts_of_rows, get_conflicting_dates, conflicts_of_days,
  calendar_conflicts, update_dates, max_date, min_date,
}
use guide_os.Calendar.Free.{IsFree, calendar_conflicts-nil_iff}

module _ (id : ℕ) where
  abbrev pub without : List Tour → List Tour
  without tours = remove (λ (t : Tour). t.id) id tours

  in_range-without :
      (user first last : ℕ) (tours : List Tour)
      → get_tours_in_range user first last (without tours)
        ≡ without (get_tours_in_range user first last tours)
  unfolding get_tours_in_range remove
  in_range-without user first last [] = refl
  in_range-without user first last (t ∷ tours) =
      ground (arith, in_range-without user first last tours)

  conflicts_of_rows-without :
      (first last : ℕ) (dates : List ℕ) (rows : List Tour)
      → conflicts_of_rows first last (some id) none dates rows
        ≡ conflicts_of_rows first last none none dates (without rows)
  unfolding conflicts_of_rows remove
  conflicts_of_rows-without first last dates [] = refl
  conflicts_of_rows-without first last dates (t ∷ rows) = elim (Bool-cases (t.id == id)) [
    | inl hit ↦ rw hit (conflicts_of_rows-without first last dates rows)
    | inr miss ↦
        rw (miss, conflicts_of_rows)
          (conflicts_of_rows-without first last
            (update_dates dates
              (days_in_range (max_date first t.start_date) (min_date last t.end_date)))
            rows)
  ]

  get_conflicting_dates-without :
      (user first last : ℕ) (tours : List Tour)
      → get_conflicting_dates user first last (some id) none tours
        ≡ get_conflicting_dates user first last none none (without tours)
  unfolding get_conflicting_dates
  get_conflicting_dates-without user first last tours =
      rw (in_range-without user first last tours)
        (conflicts_of_rows-without first last [] (get_tours_in_range user first last tours))

  conflicts_of_days-without :
      (user : ℕ) (tours : List Tour) (dates days : List ℕ)
      → conflicts_of_days user (some id) tours dates days
        ≡ conflicts_of_days user none (without tours) dates days
  unfolding conflicts_of_days
  conflicts_of_days-without user tours dates [] = refl
  conflicts_of_days-without user tours dates (day ∷ days) =
      rw (get_conflicting_dates-without user day day tours) (
        conflicts_of_days-without user tours
          (update_dates dates (get_conflicting_dates user day day none none (without tours))) days)

  calendar_conflicts-without :
      (user first last : ℕ) (tours : List Tour)
      → calendar_conflicts user first last (some id) tours
        ≡ calendar_conflicts user first last none (without tours)
  unfolding calendar_conflicts
  calendar_conflicts-without user first last tours =
      conflicts_of_days-without user tours [] (days_in_range first last)

  -- No conflict beside an entry means that every other entry leaves the days free.
  pub calendar_conflicts-spared_iff :
      (user first last : ℕ) (tours : List Tour)
      → (calendar_conflicts user first last (some id) tours ≡ [])
        ↔ IsFree user first last (without tours)
  calendar_conflicts-spared_iff user first last tours =
      rw (calendar_conflicts-without user first last tours)
        (calendar_conflicts-nil_iff user first last (without tours))
