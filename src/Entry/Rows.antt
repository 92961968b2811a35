-- ===== src/Entry/Rows.antt =====
-- The queries on the table `tours` that the guide's own edits run, with the triggers
-- `trg_tours_operator_managed_no_update` and `trg_tours_operator_managed_no_delete`.
use guide_os.Prelude.{
  ℕ, ◌+◌, Bool, true, false, String, ◌==◌, text_eq, number_eq, not, ◌&&◌, ◌||◌, Option, none, some,
  List, [], ◌∷◌, if◌then◌else◌,
}
use guide_os.Errors.{ok, ◌>>◌, raise_if, integrity_error}
use guide_os.Database.{Db, Tour, Source, guide_os_bot, mini_app, guide_operator, find}
use guide_os.Database.Write.{Operation}
use guide_os.Assignment.Store.{tour_key}
use guide_os.Assignment.Decide.{is_guide_operator, same_tour}
use guide_os.Assignment.Cancel.{contains, referenced}

abbrev of_user : ℕ → Option Tour → Option Tour
of_user user none = none
of_user user (some t) = if t.user_id == user then some t else none

-- SELECT … FROM tours WHERE id = ? AND user_id = ?
unfoldable pub get_tour_by_id : ℕ → ℕ → Db → Option Tour
get_tour_by_id user_id tour_id db = of_user user_id (find tour_key tour_id db.tours)

abbrev pub same_text_column : Option String → Option String → Bool
same_text_column none none = true
same_text_column (some s) (some t) = s == t
same_text_column _ _ = false

abbrev same_source : Source → Source → Bool
same_source guide_os_bot guide_os_bot = true
same_source mini_app mini_app = true
same_source guide_operator guide_operator = true
same_source _ _ = false

-- The columns that both allowlists of the update trigger protect.
abbrev same_identity : Tour → Tour → Bool
same_identity old new =
    (new.user_id == old.user_id)
    && (new.status == old.status)
    && (new.entry_type == old.entry_type)
    && same_source new.source old.source
    && same_tour new.income old.income
    && (new.payment_status == old.payment_status)
    && same_text_column new.note old.note
    && same_text_column new.tour_group_id old.tour_group_id
    && same_text_column new.start_time old.start_time
    && same_text_column new.end_time old.end_time

abbrev same_dates : Tour → Tour → Bool
same_dates old new = (new.start_date == old.start_date) && (new.end_date == old.end_date)

-- The trigger lets the update of a row pass.
abbrev pub may_update : Db → Tour → Tour → Bool
may_update db old new =
    not (is_guide_operator old.source)
    || (contains old.id db.metadata_update && same_dates old new && same_identity old new)
    || (contains old.id db.occupancy_update && same_identity old new)

-- The trigger and the foreign key of the assignments let the deletion of a row pass.
abbrev pub may_delete : Db → Tour → Bool
may_delete db old =
    (not (is_guide_operator old.source) || contains old.id db.projection_release)
    && not (referenced old.id db.assignments)

module _ (matches : Tour → Bool) where
  unfoldable pub any_row : (Tour → Bool) → List Tour → Bool
  any_row test [] = false
  any_row test (t ∷ tours) = (matches t && test t) || any_row test tours

  unfoldable pub change_rows : (Tour → Tour) → List Tour → List Tour
  change_rows change [] = []
  change_rows change (t ∷ tours) = (if matches t then change t else t) ∷ change_rows change tours

  unfoldable pub drop_rows : List Tour → List Tour
  drop_rows [] = []
  drop_rows (t ∷ tours) = let rest = drop_rows tours in if matches t then rest else t ∷ rest

  abbrev always : Tour → Bool
  always t = true

  -- UPDATE tours SET … WHERE …; `cursor.rowcount > 0`
  unfoldable pub update_tours : (Tour → Tour) → Operation Bool
  update_tours change db = do
    raise_if (any_row (λ t. not (may_update db t (change t))) db.tours) integrity_error
    ok (any_row always db.tours, record db { tours = change_rows change db.tours })

  -- DELETE FROM tours WHERE …; `cursor.rowcount > 0`
  unfoldable pub delete_tours : Operation Bool
  delete_tours db = do
    raise_if (any_row (λ t. not (may_delete db t)) db.tours) integrity_error
    ok (any_row always db.tours, record db { tours = drop_rows db.tours })

-- INSERT INTO tours; `cursor.lastrowid`
unfoldable pub create_tour : (ℕ → Tour) → Operation ℕ
create_tour row db = ok (
  db.tour_sequence + 1,
  record db { tours = row (db.tour_sequence + 1) ∷ db.tours; tour_sequence = db.tour_sequence + 1 },
)

-- WHERE id = ? AND user_id = ?
abbrev pub by_id : ℕ → ℕ → Tour → Bool
by_id user_id tour_id t = (t.id == tour_id) && (t.user_id == user_id)

-- WHERE tour_group_id = ? AND user_id = ?
abbrev pub by_group : ℕ → String → Tour → Bool
by_group user_id group t = same_text_column t.tour_group_id (some group) && (t.user_id == user_id)
