-- ===== src/Entry/Edit.antt =====
-- `edit_tour_company`, `edit_tour_city`, `edit_tour_income`, `edit_tour_note`, `edit_tour_status`,
-- `edit_tour_payment_status` and `delete_tour`.
use guide_os.Prelude.{
  ℤ, pos, negsuc, ℕ, Bool, false, String, ◌==◌, text_eq, not, ◌||◌, Option, none, some,
  if◌then◌else◌,
}
use guide_os.Prelude.Text.{strip}
use guide_os.Errors.{Result, ok}
use guide_os.Platform.{Platform}
use guide_os.Database.{Db, Tour}
use guide_os.Database.Write.{run_write_with_retry}
use guide_os.Assignment.Decide.{is_guide_operator}
use guide_os.Entry.Rows.{get_tour_by_id, update_tours, delete_tours, by_id, by_group}

-- `is_operator_managed_tour`
abbrev pub is_operator_managed_tour : Tour → Bool
is_operator_managed_tour t = is_guide_operator t.source

-- The rows that an edit of one entry reaches: those of its group, when it has one.
abbrev pub rows_of : ℕ → ℕ → Option String → Tour → Bool
rows_of user_id tour_id none = by_id user_id tour_id
rows_of user_id tour_id (some group) =
    if group == "" then by_id user_id tour_id else by_group user_id group

-- `note.strip() or None`
abbrev pub note_or_none : String → Option String
note_or_none note = if strip note == "" then none else some (strip note)

-- `if not tour or is_operator_managed_tour(tour): return False`
abbrev pub unless_managed : Option Tour → (Tour → Result Bool × Db) → Db → Result Bool × Db
unless_managed none write db = (ok false, db)
unless_managed (some t) write db = if is_operator_managed_tour t then (ok false, db) else write t

module _ (env : Platform) (user_id tour_id : ℕ) where
  -- The entry is looked up, a protected one is refused, and its rows are updated.
  unfoldable pub edit_tour : (Tour → Tour) → Db → Db → Result Bool × Db
  edit_tour change before db =
      unless_managed (get_tour_by_id user_id tour_id before)
        (λ t.
          run_write_with_retry env.busy
            (update_tours (rows_of user_id tour_id t.tour_group_id) change) db)
        db

  unfoldable pub edit_tour_company : String → Db → Db → Result Bool × Db
  edit_tour_company company before db =
      if strip company == ""
      then (ok false, db)
      else edit_tour (λ t. record t { company = strip company }) before db

  unfoldable pub edit_tour_city : String → Db → Db → Result Bool × Db
  edit_tour_city city before db =
      if strip city == ""
      then (ok false, db)
      else edit_tour (λ t. record t { city = strip city }) before db

  unfoldable pub edit_tour_income : ℤ → Db → Db → Result Bool × Db
  edit_tour_income (negsuc n) before db = (ok false, db)
  edit_tour_income (pos income) before db =
      edit_tour (λ t. record t { income = some income }) before db

  unfoldable pub edit_tour_note : String → Db → Db → Result Bool × Db
  edit_tour_note note before db = edit_tour (λ t. record t { note = note_or_none note }) before db

  unfoldable pub edit_tour_status : String → Db → Db → Result Bool × Db
  edit_tour_status status before db =
      if not ((status == "reserved") || (status == "confirmed"))
      then (ok false, db)
      else edit_tour (λ t. record t { status = status }) before db

  unfoldable pub edit_tour_payment_status : String → Db → Db → Result Bool × Db
  edit_tour_payment_status payment_status before db =
      if not ((payment_status == "paid") || (payment_status == "unpaid"))
      then (ok false, db)
      else edit_tour (λ t. record t { payment_status = payment_status }) before db

  unfoldable pub delete_tour : Db → Db → Result Bool × Db
  delete_tour before db =
      unless_managed (get_tour_by_id user_id tour_id before)
        (λ t.
          run_write_with_retry env.busy (delete_tours (rows_of user_id tour_id t.tour_group_id)) db)
        db
