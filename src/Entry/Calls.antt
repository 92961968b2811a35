-- ===== src/Entry/Calls.antt =====
-- The guide's own calls on the calendar, each on a database without allowances: what every call
-- leaves of the entries.
use guide_os.Prelude.{
  ℕ, ◌+◌, ◌<◌, Bool, false, String, text_eq, number_eq, eqb_iff, ◌≡◌, refl, inl, inr, none, List,
  ◌∷◌, arith, not,
}
use guide_os.Errors.{Result, ok, err}
use guide_os.Platform.{Platform}
use guide_os.Database.{Db, Tour, find, find-cons}
use guide_os.Database.Write.{Operation, run_write_with_retry, run_write_once, settle}
use guide_os.Assignment.Store.{tour_key}
use guide_os.Entry.Rows.{
  update_tours, delete_tours, create_tour, any_row, change_rows, drop_rows, may_update, may_delete,
}
use guide_os.Entry.Edit.{
  edit_tour_company, edit_tour_city, edit_tour_income, edit_tour_note, edit_tour_status,
  edit_tour_payment_status, delete_tour,
}
use guide_os.Prelude.{ℤ}
use guide_os.Entry.Draft.{
  TourEntryDraft, create_tour_entry, create_day_off_entry, update_tour_entry,
}
use guide_os.Json.{Json}
use guide_os.Entry.Copy.{update_day_locations, copy_tour_entry}
use guide_os.Entry.Protects.{
  IsQuiet, Protects, change_rows-Protects, drop_rows-Protects, change_rows-AddsNone,
  drop_rows-AddsNone,
}

pub data EntryCall : Type 0 where
  create : String → TourEntryDraft → EntryCall
  create_day_off : String → (start_date end_date : ℕ) → EntryCall
  update : ℕ → TourEntryDraft → EntryCall
  company : ℕ → String → EntryCall
  city : ℕ → String → EntryCall
  income : ℕ → ℤ → EntryCall
  note : ℕ → String → EntryCall
  status : ℕ → String → EntryCall
  payment_status : ℕ → String → EntryCall
  delete : ℕ → EntryCall
  day_locations : ℕ → Json → EntryCall
  copy : (ℕ → String) → String → ℕ → (new_start new_end : ℕ) → EntryCall

-- The database after one call of the guide `user_id`, whatever it answers.
abbrev pub keep_diary : Platform → ℕ → EntryCall → Db → Db → Db
keep_diary env user_id (create group d) before db = (create_tour_entry env user_id group d db).1
keep_diary env user_id (create_day_off group start_date end_date) before db =
    (create_day_off_entry env user_id group start_date end_date db).1
keep_diary env user_id (update t d) before db = (update_tour_entry env user_id t d before db).1
keep_diary env user_id (company t s) before db = (edit_tour_company env user_id t s before db).1
keep_diary env user_id (city t s) before db = (edit_tour_city env user_id t s before db).1
keep_diary env user_id (income t n) before db = (edit_tour_income env user_id t n before db).1
keep_diary env user_id (note t s) before db = (edit_tour_note env user_id t s before db).1
keep_diary env user_id (status t s) before db = (edit_tour_status env user_id t s before db).1
keep_diary env user_id (payment_status t s) before db =
    (edit_tour_payment_status env user_id t s before db).1
keep_diary env user_id (delete t) before db = (delete_tour env user_id t before db).1
keep_diary env user_id (day_locations t locations) before db =
    (update_day_locations env user_id t locations before db).1
keep_diary env user_id (copy str group t new_start new_end) before db =
    (copy_tour_entry env str user_id group t new_start new_end before db).1

-- Only the entries and their counter may differ; no protected entry changes or goes; and every
-- number above the counter is still free.
pub record Spares (db db' : Db) : Type 0 where
  pub tours : List Tour
  pub sequence : ℕ
  pub frame : db' ≡ record db { tours = tours; tour_sequence = sequence }
  pub protects : Protects db.tours tours
  pub numbered : (t : ℕ) → sequence < t → find tour_key t tours ≡ none

-- Numbers above the counter are free.
abbrev pub IsNumbered : Db → Type 0
IsNumbered db = (t : ℕ) → db.tour_sequence < t → find tour_key t db.tours ≡ none

module _ (db : Db) (quiet : IsQuiet db) (free : IsNumbered db) where
  pub Spares-refl : Spares db db
  Spares-refl = record {
    tours = db.tours;
    sequence = db.tour_sequence;
    frame = refl;
    protects = λ id t found protected. found;
    numbered = free;
  }

  -- What a transaction body does, its write does or does not at all.
  pub run-Spares :
      {A : Type 0} (busy : ℕ → Bool) (operation : Operation A)
      → ((a : A) (db' : Db) → operation db ≡ ok (a, db') → Spares db db')
      → Spares db (run_write_with_retry busy operation db).1
  run-Spares busy operation step = elim (run_write_once busy operation db) [
    | inl locked ↦ rw locked Spares-refl
    | inr ran ↦ rw ran (settled (operation db) refl)
  ]
    where
      settled : (r : Result (_ × Db)) → operation db ≡ r → Spares db (settle db r).1
      settled (ok (a, db')) e = step a db' e
      settled (err x) e = Spares-refl

  pub update_tours-Spares :
      (matches : Tour → Bool) (change : Tour → Tour) (a : Bool) (db' : Db)
      → ((t : Tour) → (change t).id ≡ t.id)
      → update_tours matches change db ≡ ok (a, db')
      → Spares db db'
  unfolding update_tours
  update_tours-Spares matches change a db' same h =
      let refused = any_row matches (λ t. not (may_update db t (change t))) db.tours in
      let passed : refused ≡ false = ground arith in
      let wrote : db' ≡ record db { tours = change_rows matches change db.tours } = ground arith in
      record {
        tours = change_rows matches change db.tours;
        sequence = db.tour_sequence;
        frame = wrote;
        protects = change_rows-Protects matches db quiet change db.tours same passed;
        numbered = λ t above. change_rows-AddsNone matches change db.tours same t (free t above);
      }

  pub delete_tours-Spares :
      (matches : Tour → Bool) (a : Bool) (db' : Db)
      → delete_tours matches db ≡ ok (a, db')
      → Spares db db'
  unfolding delete_tours
  delete_tours-Spares matches a db' h =
      let refused = any_row matches (λ t. not (may_delete db t)) db.tours in
      let passed : refused ≡ false = ground arith in
      let wrote : db' ≡ record db { tours = drop_rows matches db.tours } = ground arith in
      record {
        tours = drop_rows matches db.tours;
        sequence = db.tour_sequence;
        frame = wrote;
        protects = drop_rows-Protects matches db quiet db.tours passed;
        numbered = λ t above. drop_rows-AddsNone matches db.tours t (free t above);
      }

  pub create_tour-Spares :
      (row : ℕ → Tour) (a : ℕ) (db' : Db)
      → ((id : ℕ) → (row id).id ≡ id)
      → create_tour row db ≡ ok (a, db')
      → Spares db db'
  unfolding create_tour
  create_tour-Spares row a db' same h =
      let new = db.tour_sequence + 1 in
      let wrote : db' ≡ record db { tours = row new ∷ db.tours; tour_sequence = new } =
        ground arith in
      record {
        tours = row new ∷ db.tours;
        sequence = new;
        frame = wrote;
        protects = λ id t found protected. ground (
          arith,
          found,
          free id,
          same new,
          eqb_iff (row new).id id,
          find-cons tour_key id (row new) db.tours,
        );
        numbered = λ t above. ground (
          arith,
          above,
          free t,
          same new,
          eqb_iff (row new).id t,
          find-cons tour_key t (row new) db.tours,
        );
      }
