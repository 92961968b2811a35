-- ===== src/Assignment/Allowance.antt =====
-- What is left of an allowlist of the triggers once an allowance is inserted and deleted.
use guide_os.Prelude.{ℕ, false, arith, ◌≡◌, refl, eqb_iff, List, [], ◌∷◌}
use guide_os.Assignment.Cancel.{contains, disallow}

disallow_fresh : (id : ℕ) (xs : List ℕ) → contains id xs ≡ false → disallow id xs ≡ xs
disallow_fresh id [] h = refl
disallow_fresh id (x ∷ xs) h = ground (arith, disallow_fresh id xs)

pub disallow_allowed : (id : ℕ) (xs : List ℕ) → contains id xs ≡ false → disallow id (id ∷ xs) ≡ xs
disallow_allowed id xs h = ground (arith, disallow_fresh id xs, eqb_iff id id)
