-- ===== src/Entry/Created.antt =====
-- What a guide who creates an entry reads back.
use guide_os.Prelude.{
  Option, none, eq_iff, refl, ◌≤◌, ◌≢◌, ◌⊎◌, inl, inr, true, ℕ, ◌+◌, String, ◌==◌, text_eq,
  number_eq, eqb_iff, ◌≡◌, some, arith, false, ◌∷◌,
}
use guide_os.Prelude.Text.{strip, text_before}
use guide_os.Errors.{Result, ok, err}
use guide_os.Platform.{Platform}
use guide_os.Database.{Db, find-cons, Tour}
use guide_os.Database.Write.{run_ok}
use guide_os.Assignment.Store.{tour_key}
use guide_os.Entry.Rows.{get_tour_by_id, create_tour}
use guide_os.Entry.Draft.{
  TourEntryDraft, draft_request, drafted, create_tour_entry, when_valid, validate_times,
}

valid_writes :
    (r : Result (Unit {0})) (write : Result ℕ × Db) (db db' : Db) (id : ℕ)
    → when_valid r write db ≡ (ok id, db')
    → write ≡ (ok id, db')
valid_writes (err e) write db db' id h = ground arith
valid_writes (ok _) write db db' id h = h

valid_request :
    (r : Result (Unit {0})) (write : Result ℕ × Db) (db db' : Db) (id : ℕ)
    → when_valid r write db ≡ (ok id, db')
    → r ≡ ok tt
valid_request (err e) write db db' id h = ground arith
valid_request (ok _) write db db' id h = refl

-- Both times or neither, the first before the second; the last day not before the first; and a
-- title, for a tour.
pub record IsProper (d : TourEntryDraft) : Type 0 where
  pub times :
      ((d.start_time ≡ none) × (d.end_time ≡ none))
      ⊎ ((start_time : String) × (end_time : String) × (d.start_time ≡ some start_time)
          × (d.end_time ≡ some end_time)
          × (text_before start_time end_time ≡ true))
  pub days : d.start_date ≤ d.end_date
  pub titled : d.entry_type ≡ "tour" → strip d.title ≢ ""

-- The columns of the stored row, by the kind of the entry.
pub record Stores (user_id id : ℕ) (d : TourEntryDraft) (t : Tour) : Type 0 where
  pub number : t.id ≡ id
  pub owner : t.user_id ≡ user_id
  pub starts : t.start_date ≡ d.start_date
  pub ends : t.end_date ≡ d.end_date
  pub start_time : t.start_time ≡ d.start_time
  pub end_time : t.end_time ≡ d.end_time
  pub income : t.income ≡ some d.income
  pub payment : t.payment_status ≡ d.payment
  pub kind : t.entry_type ≡ d.entry_type
  pub source : t.source ≡ d.source
  pub tour :
      d.entry_type ≡ "tour"
      → (t.title ≡ some (strip d.title))
        × (t.company ≡ strip d.company)
        × (t.city ≡ strip d.location)
        × (t.status ≡ d.status)
  pub day_off : d.entry_type ≢ "tour" → (t.city ≡ "—") × (t.status ≡ "confirmed")
  pub no_note : strip d.note ≡ "" → t.note ≡ none
  pub note : strip d.note ≢ "" → t.note ≡ some (strip d.note)

proper_times :
    (s e : Option String)
    → validate_times s e ≡ ok tt
    → ((s ≡ none) × (e ≡ none))
      ⊎ ((start_time : String) × (end_time : String) × (s ≡ some start_time)
          × (e ≡ some end_time)
          × (text_before start_time end_time ≡ true))
unfolding validate_times
proper_times none none k = inl (refl, refl)
proper_times (some a) (some b) k = inr (a, b, refl, refl, ground arith)
proper_times none (some b) k = absurd (ground arith)
proper_times (some a) none k = absurd (ground arith)

proper : (d : TourEntryDraft) → draft_request d ≡ ok tt → IsProper d
unfolding draft_request
proper d h = record {
  times = proper_times d.start_time d.end_time (ground arith);
  days = ground arith;
  titled = λ tour blank. ground (arith, eq_iff d.entry_type "tour", eq_iff (strip d.title) "");
}

stored :
    (user_id : ℕ) (group : String) (d : TourEntryDraft) (id : ℕ)
    → Stores user_id id d (drafted user_id group d id)
stored user_id group d id = record {
  number = refl;
  owner = refl;
  starts = refl;
  ends = refl;
  start_time = refl;
  end_time = refl;
  income = refl;
  payment = refl;
  kind = refl;
  source = refl;
  tour = λ e. ground (arith, eq_iff d.entry_type "tour");
  day_off = λ e. ground (arith, eq_iff d.entry_type "tour");
  no_note = λ e. ground (arith, eq_iff (strip d.note) "");
  note = λ e. ground (arith, eq_iff (strip d.note) "");
}

-- A creation that answers a number was asked for by a proper draft, and `get_tour_by_id` finds
-- under that number, for the user, a row that stores the draft; what it finds under every other
-- number is as it was.
pub create_tour_entry-Stores :
    (env : Platform) (user_id : ℕ) (group : String) (d : TourEntryDraft) (db db' : Db) (id : ℕ)
    → create_tour_entry env user_id group d db ≡ (ok id, db')
    → IsProper d
      × ((t : Tour) × (get_tour_by_id user_id id db' ≡ some t) × Stores user_id id d t)
      × ((user other : ℕ)
          → (other == id) ≡ false
          → get_tour_by_id user other db' ≡ get_tour_by_id user other db)
unfolding create_tour_entry create_tour get_tour_by_id
create_tour_entry-Stores env user_id group d db db' id h =
    let new = drafted user_id group d in
    let ran : create_tour new db ≡ ok (id, db') =
      run_ok env.busy (create_tour new) db db' id (valid_writes (draft_request d) _ db db' id h) in
    let number : db.tour_sequence + 1 ≡ id = ground arith in
    let tours : db'.tours ≡ new id ∷ db.tours = ground arith in
    (
      proper d (valid_request (draft_request d) _ db db' id h),
      (
        new id,
        ground (
          arith,
          tours,
          eqb_iff id id,
          eqb_iff user_id user_id,
          find-cons tour_key id (new id) db.tours,
        ),
        stored user_id group d id,
      ),
      λ user other distinct. ground (
        arith,
        tours,
        distinct,
        eqb_iff id other,
        eqb_iff other id,
        find-cons tour_key other (new id) db.tours,
      ),
    )
