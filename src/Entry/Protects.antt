-- ===== src/Entry/Protects.antt =====
-- The triggers leave every protected entry as it is under the guide's own edits.
use guide_os.Prelude.{
  ℕ, Bool, false, number_eq, text_eq, not, ◌≡◌, inl, inr, none, some, List, [], ◌∷◌, arith,
  Bool-cases, ◌&&◌, if◌then◌else◌,
}
use guide_os.Database.{Db, Tour, guide_operator, find, find-cons}
use guide_os.Assignment.Store.{tour_key}
use guide_os.Entry.Rows.{any_row, change_rows, drop_rows, may_update, may_delete}

-- No transaction has left an allowance behind for the triggers.
pub record IsQuiet (db : Db) : Type 0 where
  pub metadata : db.metadata_update ≡ []
  pub occupancy : db.occupancy_update ≡ []
  pub release : db.projection_release ≡ []

-- Every protected entry is still there, as it was.
abbrev pub Protects : List Tour → List Tour → Type 0
Protects tours tours' =
    (id : ℕ) (t : Tour)
    → find tour_key id tours ≡ some t
    → t.source ≡ guide_operator
    → find tour_key id tours' ≡ some t

-- And no number is used that was not.
abbrev pub AddsNone : List Tour → List Tour → Type 0
AddsNone tours tours' = (id : ℕ) → find tour_key id tours ≡ none → find tour_key id tours' ≡ none

any_row-cons :
    (matches test : Tour → Bool) (t : Tour) (tours : List Tour)
    → any_row matches test (t ∷ tours) ≡ false
    → ((matches t && test t) ≡ false) × (any_row matches test tours ≡ false)
unfolding any_row
any_row-cons matches test t tours h = ground arith

module _ (matches : Tour → Bool) (db : Db) (quiet : IsQuiet db) where
  -- Without an allowance no protected row may change or go.
  frozen : (old new : Tour) → old.source ≡ guide_operator → may_update db old new ≡ false
  frozen old new protected = ground (arith, quiet.metadata, quiet.occupancy)

  kept : (old : Tour) → old.source ≡ guide_operator → may_delete db old ≡ false
  kept old protected = ground (arith, quiet.release)

  pub change_rows-Protects :
      (change : Tour → Tour) (tours : List Tour)
      → ((t : Tour) → (change t).id ≡ t.id)
      → any_row matches (λ t. not (may_update db t (change t))) tours ≡ false
      → Protects tours (change_rows matches change tours)
  unfolding change_rows
  change_rows-Protects change [] same passed id t found protected = found
  change_rows-Protects change (r ∷ tours) same passed id t found protected =
      let (head, tail) =
        any_row-cons matches (λ t. not (may_update db t (change t))) r tours passed in
      let rest : find tour_key id tours ≡ some t
          → find tour_key id (change_rows matches change tours) ≡ some t =
        λ e. change_rows-Protects change tours same tail id t e protected in
      elim (Bool-cases (matches r)) [
        | inl hit ↦ rw hit (
            ground (
              arith,
              hit,
              head,
              rest,
              frozen r (change r),
              same r,
              find-cons tour_key id r tours,
              find-cons tour_key id (change r) (change_rows matches change tours),
            ))
        | inr miss ↦ rw miss (
            ground (
              arith,
              rest,
              find-cons tour_key id r tours,
              find-cons tour_key id r (change_rows matches change tours),
            ))
      ]

  pub drop_rows-Protects :
      (tours : List Tour)
      → any_row matches (λ t. not (may_delete db t)) tours ≡ false
      → Protects tours (drop_rows matches tours)
  unfolding drop_rows
  drop_rows-Protects [] passed id t found protected = found
  drop_rows-Protects (r ∷ tours) passed id t found protected =
      let (head, tail) = any_row-cons matches (λ t. not (may_delete db t)) r tours passed in
      let rest : find tour_key id tours ≡ some t
          → find tour_key id (drop_rows matches tours) ≡ some t =
        λ e. drop_rows-Protects tours tail id t e protected in
      elim (Bool-cases (matches r)) [
        | inl hit ↦ rw hit (ground (arith, hit, head, rest, kept r, find-cons tour_key id r tours))
        | inr miss ↦ rw miss (
            ground (
              arith,
              rest,
              find-cons tour_key id r tours,
              find-cons tour_key id r (drop_rows matches tours),
            ))
      ]

pub change_rows-AddsNone :
    (matches : Tour → Bool) (change : Tour → Tour) (tours : List Tour)
    → ((t : Tour) → (change t).id ≡ t.id)
    → AddsNone tours (change_rows matches change tours)
unfolding change_rows
change_rows-AddsNone matches change [] same id absent = absent
change_rows-AddsNone matches change (r ∷ tours) same id absent = ground (
  arith,
  change_rows-AddsNone matches change tours same id,
  same r,
  find-cons tour_key id r tours,
  find-cons tour_key id (if matches r then change r else r) (change_rows matches change tours),
)

pub drop_rows-AddsNone :
    (matches : Tour → Bool) (tours : List Tour) → AddsNone tours (drop_rows matches tours)
unfolding drop_rows
drop_rows-AddsNone matches [] id absent = absent
drop_rows-AddsNone matches (r ∷ tours) id absent = ground (
  arith,
  drop_rows-AddsNone matches tours id,
  find-cons tour_key id r tours,
  find-cons tour_key id r (drop_rows matches tours),
)
