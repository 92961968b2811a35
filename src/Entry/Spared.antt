-- ===== src/Entry/Spared.antt =====
-- No call of the guide changes or removes a protected entry, or reaches past the calendar.
use guide_os.Prelude.{
  Bool-cases, inl, inr, text_eq, ℕ, Bool, true, false, String, refl, Option, none, some, ◌≡◌, ◌==◌,
  ◌||◌, not, text_eq, if◌then◌else◌,
}
use guide_os.Errors.{Result, ok, err}
use guide_os.Platform.{Platform}
use guide_os.Database.{Db, Tour}
use guide_os.Prelude.Text.{strip}
use guide_os.Entry.Rows.{get_tour_by_id, update_tours, delete_tours, create_tour}
use guide_os.Entry.Edit.{
  is_operator_managed_tour, unless_managed, rows_of, edit_tour, edit_tour_company, edit_tour_city,
  edit_tour_income, edit_tour_note, edit_tour_status, edit_tour_payment_status, delete_tour,
}
use guide_os.Prelude.{pos, negsuc}
use guide_os.Entry.Draft.{
  TourEntryDraft, draft_request, drafted, create_tour_entry, create_day_off_entry, redraft_request,
  redrafted, update_tour_entry, when_valid,
}
use guide_os.Entry.View.{Entry, get_entry}
use guide_os.Entry.Copy.{update_day_locations, copied, answered, copy_of, copy_tour_entry}
use guide_os.Entry.Protects.{IsQuiet}
use guide_os.Entry.Calls.{
  EntryCall, create, create_day_off, update, company, city, income, note, status, payment_status,
  delete, day_locations, copy, keep_diary, Spares, IsNumbered, Spares-refl, run-Spares,
  update_tours-Spares, delete_tours-Spares, create_tour-Spares,
}

module _ (env : Platform) (user_id : ℕ) (before db : Db) (quiet : IsQuiet db)
    (free : IsNumbered db) where
  -- An early return leaves everything.
  guarded-Spares :
      (refused : Bool) (answer : Result Bool) (rest : Result Bool × Db)
      → Spares db rest.1
      → Spares db (if refused then (answer, db) else rest).1
  guarded-Spares true answer rest s = Spares-refl db quiet free
  guarded-Spares false answer rest s = s

  unless_managed-Spares :
      (found : Option Tour) (write : Tour → Result Bool × Db)
      → ((t : Tour) → Spares db (write t).1)
      → Spares db (unless_managed found write db).1
  unless_managed-Spares none write s = Spares-refl db quiet free
  unless_managed-Spares (some t) write s =
      guarded-Spares (is_operator_managed_tour t) (ok false) (write t) (s t)

  when_valid-Spares :
      {A : Type 0} (r : Result (Unit {0})) (write : Result A × Db)
      → Spares db write.1
      → Spares db (when_valid r write db).1
  when_valid-Spares (err e) write s = Spares-refl db quiet free
  when_valid-Spares (ok _) write s = s

  edit_tour-Spares :
      (tour_id : ℕ) (change : Tour → Tour)
      → ((t : Tour) → (change t).id ≡ t.id)
      → Spares db (edit_tour env user_id tour_id change before db).1
  unfolding edit_tour
  edit_tour-Spares tour_id change same =
      unless_managed-Spares (get_tour_by_id user_id tour_id before) _ (λ t.
        run-Spares db quiet free env.busy
          (update_tours (rows_of user_id tour_id t.tour_group_id) change)
          (λ a db' h.
            update_tours-Spares db quiet free (rows_of user_id tour_id t.tour_group_id) change a db'
              same h))

  create_tour_entry-Spares :
      (group : String) (d : TourEntryDraft) → Spares db (create_tour_entry env user_id group d db).1
  unfolding create_tour_entry
  create_tour_entry-Spares group d = when_valid-Spares (draft_request d) _ (
      run-Spares db quiet free env.busy (create_tour (drafted user_id group d)) (λ a db' h.
        create_tour-Spares db quiet free (drafted user_id group d) a db' (λ id. refl) h))

  update_tour_entry-Spares :
      (tour_id : ℕ) (d : TourEntryDraft)
      → Spares db (update_tour_entry env user_id tour_id d before db).1
  unfolding update_tour_entry
  update_tour_entry-Spares tour_id d =
      unless_managed-Spares (get_tour_by_id user_id tour_id before) _ (λ t.
        when_valid-Spares (redraft_request d) _ (
          run-Spares db quiet free env.busy
            (update_tours (rows_of user_id tour_id t.tour_group_id) (redrafted d))
            (λ a db' h.
              update_tours-Spares db quiet free (rows_of user_id tour_id t.tour_group_id)
                (redrafted d) a db' (λ row. refl) h)))

  copy_of-Spares :
      (str : ℕ → String) (group : String) (new_start new_end : ℕ) (found : Option Entry)
      → Spares db (copy_of env str user_id group new_start new_end found db).1
  copy_of-Spares str group new_start new_end none = Spares-refl db quiet free
  copy_of-Spares str group new_start new_end (some ex) =
      elim (Bool-cases (ex.entry_type == "day_off")) [
        | inl day_off ↦ rw day_off (Spares-refl db quiet free)
        | inr tour ↦ rw tour (
            answered-Spares (create_tour_entry env user_id group (copied ex new_start new_end) db)
              (create_tour_entry-Spares group (copied ex new_start new_end)))
      ]
    where
      answered-Spares : (r : Result ℕ × Db) → Spares db r.1 → Spares db (answered r).1
      answered-Spares (ok id, s) h = h
      answered-Spares (err e, s) h = h

  pub keep_diary-Spares : (c : EntryCall) → Spares db (keep_diary env user_id c before db)
  unfolding create_day_off_entry edit_tour_company edit_tour_city edit_tour_income edit_tour_note
      edit_tour_status edit_tour_payment_status delete_tour update_day_locations copy_tour_entry
  keep_diary-Spares (create group d) = create_tour_entry-Spares group d
  keep_diary-Spares (create_day_off group start_date end_date) = create_tour_entry-Spares group _
  keep_diary-Spares (update t d) = update_tour_entry-Spares t d
  keep_diary-Spares (company t s) =
      guarded-Spares (strip s == "") (ok false) _ (edit_tour-Spares t _ (λ row. refl))
  keep_diary-Spares (city t s) =
      guarded-Spares (strip s == "") (ok false) _ (edit_tour-Spares t _ (λ row. refl))
  keep_diary-Spares (income t (negsuc n)) = Spares-refl db quiet free
  keep_diary-Spares (income t (pos n)) = edit_tour-Spares t _ (λ row. refl)
  keep_diary-Spares (note t s) = edit_tour-Spares t _ (λ row. refl)
  keep_diary-Spares (status t s) =
      guarded-Spares (not ((s == "reserved") || (s == "confirmed"))) (ok false) _
        (edit_tour-Spares t _ (λ row. refl))
  keep_diary-Spares (payment_status t s) =
      guarded-Spares (not ((s == "paid") || (s == "unpaid"))) (ok false) _
        (edit_tour-Spares t _ (λ row. refl))
  keep_diary-Spares (delete t) = unless_managed-Spares (get_tour_by_id user_id t before) _ (λ row.
      run-Spares db quiet free env.busy (delete_tours (rows_of user_id t row.tour_group_id))
        (λ a db' h.
          delete_tours-Spares db quiet free (rows_of user_id t row.tour_group_id) a db' h))
  keep_diary-Spares (day_locations t locations) = edit_tour-Spares t _ (λ row. refl)
  keep_diary-Spares (copy str group t new_start new_end) =
      copy_of-Spares str group new_start new_end (get_entry str user_id t before)
