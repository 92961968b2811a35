-- ===== src/Entry/Copy.antt =====
-- `copy_tour_entry` and `update_day_locations`, which answer the entry that they have made or
-- changed; the models answer its number, or whether it was there. The identity of an entry is its
-- number.
use guide_os.Prelude.{ℕ, Bool, String, ◌==◌, text_eq, Option, none, some, or_else, if◌then◌else◌}
use guide_os.Json.{Json}
use guide_os.Errors.{Result, ok, err}
use guide_os.Platform.{Platform}
use guide_os.Database.{Db, mini_app}
use guide_os.Entry.Edit.{edit_tour}
use guide_os.Entry.View.{Entry, or_text, get_entry}
use guide_os.Entry.Draft.{TourEntryDraft, create_tour_entry}

-- `json.dumps(locations, ensure_ascii=False)` into the rows of the entry
unfoldable pub update_day_locations :
    Platform → (user_id tour_id : ℕ) → Json → Db → Db → Result Bool × Db
update_day_locations env user_id tour_id locations before db =
    edit_tour env user_id tour_id
      (λ t. record t { day_locations_json = some (env.dumps_unsorted locations) }) before db

abbrev pub copied : Entry → (new_start new_end : ℕ) → TourEntryDraft
copied ex new_start new_end = record {
  title = ex.title;
  company = ex.company;
  location = ex.location;
  start_date = new_start;
  end_date = new_end;
  start_time = ex.start_time;
  end_time = ex.end_time;
  status = if ex.status == "" then "reserved" else ex.status;
  payment = or_text ex.payment "unpaid";
  income = or_else ex.income 0;
  note = or_text ex.note "";
  source = mini_app;
  entry_type = "tour";
}

-- A created number, as an option.
abbrev pub answered : Result ℕ × Db → Result (Option ℕ) × Db
answered (ok id, db) = (ok (some id), db)
answered (err e, db) = (err e, db)

module _ (env : Platform) (str : ℕ → String) (user_id : ℕ) where
  abbrev pub copy_of : String → (new_start new_end : ℕ) → Option Entry → Db → Result (Option ℕ) × Db
  copy_of group new_start new_end none db = (ok none, db)
  copy_of group new_start new_end (some ex) db =
      if ex.entry_type == "day_off"
      then (ok none, db)
      else answered (create_tour_entry env user_id group (copied ex new_start new_end) db)

  unfoldable pub copy_tour_entry :
      String → ℕ → (new_start new_end : ℕ) → Db → Db → Result (Option ℕ) × Db
  copy_tour_entry group tour_id new_start new_end before db =
      copy_of group new_start new_end (get_entry str user_id tour_id before) db
