-- ===== src/Calendar/Free.antt =====
-- What an empty list of conflicts means for the guide's days.
use guide_os.Prelude.{
  ℕ, zero, suc, ◌+◌, ◌-◌, ◌≤◌, ◌<◌, ◌≡◌, ◌≢◌, refl, ◌⊎◌, inl, inr, none, List, [], ◌∷◌, arith, Bool,
  true, false, ◌==◌, number_eq, ◌&&◌, leb, Bool-cases, ◌↔◌,
}
use native.Mathlib.Decide.{dec_le}
use guide_os.Database.{Tour}
use guide_os.Calendar.{
  add_date, update_dates, days_from, days_in_range, get_tours_in_range, conflicts_of_rows,
  get_conflicting_dates, conflicts_of_days, calendar_conflicts, max_date, min_date,
}

-- No tour of the user covers the day.
abbrev pub IsFreeDay : ℕ → ℕ → List Tour → Type 0
IsFreeDay user_id day [] = Unit
IsFreeDay user_id day (t ∷ tours) =
    (t.user_id ≡ user_id → (t.end_date < day) ⊎ (day < t.start_date)) × IsFreeDay user_id day tours

-- Nor any day from `first` to `last`.
abbrev pub IsFree : ℕ → ℕ → ℕ → List Tour → Type 0
IsFree user_id first last tours = (day : ℕ) → first ≤ day → day ≤ last → IsFreeDay user_id day tours

add_date-ne-nil : (d : ℕ) (xs : List ℕ) → add_date d xs ≢ []
unfolding add_date
add_date-ne-nil d [] h = ground arith
add_date-ne-nil d (x ∷ xs) h = ground arith

update_dates-nil : (set dates : List ℕ) → update_dates set dates ≡ [] → (set ≡ []) × (dates ≡ [])
unfolding update_dates
update_dates-nil set [] h = (h, refl)
update_dates-nil set (d ∷ dates) h =
    absurd (add_date-ne-nil d set (update_dates-nil (add_date d set) dates h).0)

days_in_range-ne-nil : (first last : ℕ) → first ≤ last → days_in_range first last ≢ []
unfolding days_in_range
days_in_range-ne-nil first last h e = days_from-ne-nil (last + 1 - first) (omega arith) e
  where
    days_from-ne-nil : (n : ℕ) → 0 < n → days_from first n ≢ []
    days_from-ne-nil zero p e = absurd (omega arith)
    days_from-ne-nil (suc n) p e = ground arith

-- One day: no date is found exactly when no row covers the day.
covers : ℕ → ℕ → Tour → Bool
covers u d t = (t.user_id == u) && leb t.start_date d && leb d t.end_date

covers-free :
    (u d : ℕ) (t : Tour)
    → covers u d t ≡ false
    → t.user_id ≡ u
    → (t.end_date < d) ⊎ (d < t.start_date)
unfolding covers
covers-free u d t h e = ground arith

covered-ne-nil :
    (u d : ℕ) (dates : List ℕ) (t : Tour)
    → covers u d t ≡ true
    → update_dates dates (days_in_range (max_date d t.start_date) (min_date d t.end_date)) ≢ []
unfolding covers
covered-ne-nil u d dates t h e =
    days_in_range-ne-nil (max_date d t.start_date) (min_date d t.end_date) (ground arith)
      (update_dates-nil dates (days_in_range (max_date d t.start_date) (min_date d t.end_date)) e).1

in_range-hit :
    (u d : ℕ) (t : Tour) (tours : List Tour)
    → covers u d t ≡ true
    → get_tours_in_range u d d (t ∷ tours) ≡ t ∷ get_tours_in_range u d d tours
unfolding covers get_tours_in_range
in_range-hit u d t tours h = ground arith

in_range-miss :
    (u d : ℕ) (t : Tour) (tours : List Tour)
    → covers u d t ≡ false
    → get_tours_in_range u d d (t ∷ tours) ≡ get_tours_in_range u d d tours
unfolding covers get_tours_in_range
in_range-miss u d t tours h = ground arith

rows-nil :
    (u d : ℕ) (tours : List Tour) (dates : List ℕ)
    → conflicts_of_rows d d none none dates (get_tours_in_range u d d tours) ≡ []
    → (dates ≡ []) × IsFreeDay u d tours
unfolding conflicts_of_rows
rows-nil u d [] dates h = (unfold get_tours_in_range in h, tt)
rows-nil u d (t ∷ tours) dates h = elim (Bool-cases (covers u d t)) [
  | inl hit ↦ absurd (
      covered-ne-nil u d dates t hit
        (rows-nil u d tours
          (update_dates dates (days_in_range (max_date d t.start_date) (min_date d t.end_date)))
          (rw (in_range-hit u d t tours hit) at h)).0)
  | inr miss ↦
      let (empty, rest) = rows-nil u d tours dates (rw (in_range-miss u d t tours miss) at h) in
      (empty, (covers-free u d t miss, rest))
]

rows-free :
    (u d : ℕ) (dates : List ℕ) (tours : List Tour)
    → IsFreeDay u d tours
    → conflicts_of_rows d d none none dates (get_tours_in_range u d d tours) ≡ dates
unfolding conflicts_of_rows get_tours_in_range
rows-free u d dates [] h = refl
rows-free u d dates (t ∷ tours) h = ground (arith, rows-free u d dates tours h.1, h.0)

days-nil :
    (u : ℕ) (tours : List Tour) (n : ℕ) (dates : List ℕ) (first : ℕ)
    → conflicts_of_days u none tours dates (days_from first n) ≡ []
    → (dates ≡ []) × ((day : ℕ) → first ≤ day → day < first + n → IsFreeDay u day tours)
unfolding conflicts_of_days days_from get_conflicting_dates
days-nil u tours zero dates first h = (h, λ day a b. absurd (omega arith))
days-nil u tours (suc n) dates first h =
    let (both, later) =
      days-nil u tours n (update_dates dates (get_conflicting_dates u first first none none tours))
        (first + 1) h in
    let (empty, none_today) =
      update_dates-nil dates (get_conflicting_dates u first first none none tours) both in
    (
      empty,
      λ day a b. elim (dec_le day first) [
        | yes at_first ↦
            rw (let e : day ≡ first = omega arith in e) (rows-nil u first tours [] none_today).1
        | no after ↦ later day (omega arith) (omega arith)
      ],
    )

days-free :
    (u : ℕ) (tours : List Tour) (n : ℕ) (dates : List ℕ) (first : ℕ)
    → ((day : ℕ) → first ≤ day → day < first + n → IsFreeDay u day tours)
    → conflicts_of_days u none tours dates (days_from first n) ≡ dates
unfolding conflicts_of_days days_from get_conflicting_dates update_dates
days-free u tours zero dates first h = refl
days-free u tours (suc n) dates first h =
    rw (rows-free u first [] tours (h first (omega arith) (omega arith)), conflicts_of_days)
      (days-free u tours n dates (first + 1) (λ day a b. h day (omega arith) (omega arith)))

-- The list of conflicts is empty exactly when every day of the range is free.
pub calendar_conflicts-nil_iff :
    (u first last : ℕ) (tours : List Tour)
    → (calendar_conflicts u first last none tours ≡ []) ↔ IsFree u first last tours
unfolding calendar_conflicts days_in_range
calendar_conflicts-nil_iff u first last tours = (
  λ h day a b. (days-nil u tours (last + 1 - first) [] first h).1 day a (omega arith),
  λ h. days-free u tours (last + 1 - first) [] first (λ day a b. h day a (omega arith)),
)
