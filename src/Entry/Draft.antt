-- ===== src/Entry/Draft.antt =====
-- `TourEntryDraft`, `_validate_times`, `create_tour_entry`, `create_day_off_entry` and
-- `update_tour_entry`, without the view of the row that they answer: a creation answers the number
-- of the new entry, an update whether the entry was there to be updated.
-- The dates of a draft are ordinals, as in the table; its income has no sign.
use guide_os.Prelude.{
  ℕ, Bool, ltb, String, ◌==◌, text_eq, not, ◌&&◌, Option, none, some, if◌then◌else◌,
}
use guide_os.Prelude.Text.{strip, text_before}
use guide_os.Errors.{Result, ok, err, ◌>>◌, raise_if, value_error}
use guide_os.Platform.{Platform}
use guide_os.Database.{Db, Tour, Source, mini_app}
use guide_os.Database.Write.{run_write_with_retry}
use guide_os.Entry.Rows.{get_tour_by_id, update_tours, create_tour}
use guide_os.Entry.Edit.{unless_managed, rows_of, note_or_none}

pub record TourEntryDraft : Type 0 where
  pub title : String
  pub company : String
  pub location : String
  pub start_date : ℕ
  pub end_date : ℕ
  pub start_time : Option String
  pub end_time : Option String
  pub status : String
  pub payment : String
  pub income : ℕ
  pub note : String
  pub source : Source
  pub entry_type : String

-- Both times or neither, the first before the second.
unfoldable pub validate_times : Option String → Option String → Result (Unit {0})
validate_times none none = ok tt
validate_times (some start_time) (some end_time) =
    raise_if (not (text_before start_time end_time)) value_error
validate_times _ _ = err value_error

abbrev is_tour : TourEntryDraft → Bool
is_tour d = d.entry_type == "tour"

-- The columns of the new row; `group` is `str(uuid4())`.
abbrev pub drafted : ℕ → String → TourEntryDraft → ℕ → Tour
drafted user_id group d id = record {
  id = id;
  user_id = user_id;
  company = if is_tour d then strip d.company else "У меня выходной";
  city = if is_tour d then strip d.location else "—";
  start_date = d.start_date;
  end_date = d.end_date;
  status = if is_tour d then d.status else "confirmed";
  income = some d.income;
  payment_status = d.payment;
  note = note_or_none d.note;
  entry_type = d.entry_type;
  tour_group_id = some group;
  title = some (if is_tour d then strip d.title else "Выходной");
  start_time = d.start_time;
  end_time = d.end_time;
  source = d.source;
  day_locations_json = none;
}

unfoldable pub draft_request : TourEntryDraft → Result (Unit {0})
draft_request d = do
  validate_times d.start_time d.end_time
  raise_if (is_tour d && (strip d.title == "")) value_error
  raise_if (ltb d.end_date d.start_date) value_error

-- A request that raises writes nothing.
abbrev pub when_valid : {A : Type 0} → Result (Unit {0}) → Result A × Db → Db → Result A × Db
when_valid (err e) write db = (err e, db)
when_valid (ok _) write db = write

unfoldable pub create_tour_entry : Platform → ℕ → String → TourEntryDraft → Db → Result ℕ × Db
create_tour_entry env user_id group d db =
    when_valid (draft_request d)
      (run_write_with_retry env.busy (create_tour (drafted user_id group d)) db) db

abbrev pub day_off : ℕ → ℕ → TourEntryDraft
day_off start_date end_date = record {
  title = "Выходной";
  company = "У меня выходной";
  location = "—";
  start_date = start_date;
  end_date = end_date;
  start_time = none;
  end_time = none;
  status = "confirmed";
  payment = "unpaid";
  income = 0;
  note = "";
  source = mini_app;
  entry_type = "day_off";
}

unfoldable pub create_day_off_entry : Platform → ℕ → String → ℕ → ℕ → Db → Result ℕ × Db
create_day_off_entry env user_id group start_date end_date db =
    create_tour_entry env user_id group (day_off start_date end_date) db

-- A column of `update_tour_extended` whose new value is None keeps the old one.
abbrev pub or_kept : Option String → Option String → Option String
or_kept (some value) old = some value
or_kept none old = old

abbrev pub redrafted : TourEntryDraft → Tour → Tour
redrafted d t = record t {
  title = some (strip d.title);
  company = strip d.company;
  city = strip d.location;
  start_date = d.start_date;
  end_date = d.end_date;
  status = d.status;
  income = some d.income;
  payment_status = d.payment;
  note = or_kept (note_or_none d.note) t.note;
  start_time = or_kept d.start_time t.start_time;
  end_time = or_kept d.end_time t.end_time;
  source = d.source;
}

unfoldable pub redraft_request : TourEntryDraft → Result (Unit {0})
redraft_request d = do
  validate_times d.start_time d.end_time
  raise_if (ltb d.end_date d.start_date) value_error

-- The entry is looked up, a protected one is refused, the draft is checked, and the rows of the
-- entry are updated.
unfoldable pub update_tour_entry :
    Platform → (user_id tour_id : ℕ) → TourEntryDraft → Db → Db → Result Bool × Db
update_tour_entry env user_id tour_id d before db =
    unless_managed (get_tour_by_id user_id tour_id before)
      (λ t.
        when_valid (redraft_request d)
          (run_write_with_retry env.busy
            (update_tours (rows_of user_id tour_id t.tour_group_id) (redrafted d)) db)
          db)
      db
