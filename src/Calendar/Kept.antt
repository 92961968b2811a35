-- ===== src/Calendar/Kept.antt =====
-- A change of an entry that keeps its owner and its days leaves every answer of the calendar.
use guide_os.Prelude.{
  ℕ, String, ◌==◌, number_eq, ◌≡◌, refl, inl, inr, Option, none, some, List, [], ◌∷◌, arith,
  Bool-cases, if◌then◌else◌,
}
use guide_os.Database.{Tour, modify}
use guide_os.Calendar.{
  days_in_range, get_tours_in_range, conflicts_of_rows, get_conflicting_dates, conflicts_of_days,
  calendar_conflicts, excluded, update_dates, max_date, min_date,
}

module _ (id : ℕ) (g : Tour → Tour) (numbers : (t : Tour) → (g t).id ≡ t.id)
    (owner : (t : Tour) → (g t).user_id ≡ t.user_id)
    (starts : (t : Tour) → (g t).start_date ≡ t.start_date)
    (ends : (t : Tour) → (g t).end_date ≡ t.end_date)
    (group : (t : Tour) → (g t).tour_group_id ≡ t.tour_group_id) where
  abbrev changed : List Tour → List Tour
  changed tours = modify (λ (t : Tour). t.id) id g tours

  in_range-changed :
      (user first last : ℕ) (tours : List Tour)
      → get_tours_in_range user first last (changed tours)
        ≡ changed (get_tours_in_range user first last tours)
  unfolding get_tours_in_range modify
  in_range-changed user first last [] = refl
  in_range-changed user first last (t ∷ tours) =
      ground (arith, in_range-changed user first last tours, owner t, starts t, ends t)

  excluded-changed :
      (tour : Option ℕ) (in_group : Option String) (t : Tour)
      → excluded tour in_group (g t) ≡ excluded tour in_group t
  excluded-changed none none t = refl
  excluded-changed none (some s) t = rw (group t) refl
  excluded-changed (some n) none t = rw (numbers t) refl
  excluded-changed (some n) (some s) t = rw (numbers t, group t) refl

  conflicts_of_rows-changed :
      (first last : ℕ) (tour : Option ℕ) (in_group : Option String) (dates : List ℕ)
      (rows : List Tour)
      → conflicts_of_rows first last tour in_group dates (changed rows)
        ≡ conflicts_of_rows first last tour in_group dates rows
  unfolding conflicts_of_rows modify
  conflicts_of_rows-changed first last tour in_group dates [] = refl
  conflicts_of_rows-changed first last tour in_group dates (t ∷ rows) =
      let next : List ℕ =
        if excluded tour in_group t
        then dates
        else update_dates dates
            (days_in_range (max_date first t.start_date) (min_date last t.end_date)) in
      elim (Bool-cases (t.id == id)) [
        | inl hit ↦
            rw (hit, excluded-changed tour in_group t, starts t, ends t)
              (conflicts_of_rows-changed first last tour in_group next rows)
        | inr miss ↦ rw miss (conflicts_of_rows-changed first last tour in_group next rows)
      ]

  get_conflicting_dates-changed :
      (user first last : ℕ) (tour : Option ℕ) (in_group : Option String) (tours : List Tour)
      → get_conflicting_dates user first last tour in_group (changed tours)
        ≡ get_conflicting_dates user first last tour in_group tours
  unfolding get_conflicting_dates
  get_conflicting_dates-changed user first last tour in_group tours =
      rw (in_range-changed user first last tours) (
        conflicts_of_rows-changed first last tour in_group []
          (get_tours_in_range user first last tours))

  conflicts_of_days-changed :
      (user : ℕ) (tour : Option ℕ) (tours : List Tour) (dates days : List ℕ)
      → conflicts_of_days user tour (changed tours) dates days
        ≡ conflicts_of_days user tour tours dates days
  unfolding conflicts_of_days
  conflicts_of_days-changed user tour tours dates [] = refl
  conflicts_of_days-changed user tour tours dates (day ∷ days) =
      rw (get_conflicting_dates-changed user day day tour none tours) (
        conflicts_of_days-changed user tour tours
          (update_dates dates (get_conflicting_dates user day day tour none tours)) days)

  pub calendar_conflicts-changed :
      (user first last : ℕ) (tour : Option ℕ) (tours : List Tour)
      → calendar_conflicts user first last tour (changed tours)
        ≡ calendar_conflicts user first last tour tours
  unfolding calendar_conflicts
  calendar_conflicts-changed user first last tour tours =
      conflicts_of_days-changed user tour tours [] (days_in_range first last)
