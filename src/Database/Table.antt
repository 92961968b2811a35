-- ===== src/Database/Table.antt =====
-- A table whose rows are found by a column that the schema declares UNIQUE or PRIMARY KEY.
-- New rows stand in front; a query whose answer depends on the order sorts by itself.
use guide_os.Prelude.{
  Bool, Eq, ◌==◌, ◌≡◌, refl, Option, none, some, List, [], ◌∷◌, arith, is_some, if◌then◌else◌,
}
use mathlib.Core.Option

module _ {Row K : Type 0} ⦃e : Eq K⦄ (key : Row → K) where
  -- SELECT * FROM table WHERE key = ? LIMIT 1
  unfoldable pub find : K → List Row → Option Row
  find k [] = none
  find k (r ∷ rows) = if key r == k then some r else find k rows

  -- UPDATE table SET … WHERE key = ?
  unfoldable pub modify : K → (Row → Row) → List Row → List Row
  modify k f [] = []
  modify k f (r ∷ rows) = (if key r == k then f r else r) ∷ modify k f rows

  -- DELETE FROM table WHERE key = ?
  unfoldable pub remove : K → List Row → List Row
  remove k [] = []
  remove k (r ∷ rows) = let rest = remove k rows in if key r == k then rest else r ∷ rest

  -- Whether an INSERT with this key violates the constraint.
  abbrev pub taken : K → List Row → Bool
  taken k rows = is_some (find k rows)

  pub find-modify :
      (k j : K) (f : Row → Row) (rows : List Row)
      → ((r : Row) → key (f r) ≡ key r)
      → find j (modify k f rows) ≡ (if k == j then Option.map f (find j rows) else find j rows)
  unfolding find modify
  find-modify k j f [] same = ground arith
  find-modify k j f (r ∷ rows) same = ground (
    arith,
    same r,
    find-modify k j f rows same,
    e.beq_iff (key r) k,
    e.beq_iff (key r) j,
    e.beq_iff k j,
  )

  -- A row that is found has the key that it was looked up by.
  pub find_key : (k : K) (rows : List Row) {r : Row} → find k rows ≡ some r → key r ≡ k
  unfolding find
  find_key k [] h = ground arith
  find_key k (r ∷ rows) {r = r'} h = ground (arith, e.beq_iff (key r) k, find_key k rows {r = r'})

  pub find-cons :
      (j : K) (r : Row) (rows : List Row)
      → find j (r ∷ rows) ≡ (if key r == j then some r else find j rows)
  unfolding find
  find-cons j r rows = refl

  pub find-remove :
      (k j : K) (rows : List Row) → find j (remove k rows) ≡ (if k == j then none else find j rows)
  unfolding find remove
  find-remove k j [] = ground arith
  find-remove k j (r ∷ rows) =
      ground (arith, find-remove k j rows, e.beq_iff (key r) k, e.beq_iff (key r) j, e.beq_iff k j)
