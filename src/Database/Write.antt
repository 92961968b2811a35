-- ===== src/Database/Write.antt =====
-- `run_write_with_retry` of database/db.py: a transaction that is rolled back when it raises, and
-- retried while another writer holds the lock.
use guide_os.Prelude.{
  arith, ℕ, zero, suc, ◌+◌, Bool, true, false, String, ◌≡◌, refl, sym, ap, ◌∙◌, ◌⊎◌, inl, inr,
  Bool-cases,
}
use guide_os.Errors.{Result, ok, err, database_locked}
use guide_os.Database.Schema.{Db}

-- A transaction body: it reads and writes the open connection, and may raise.
abbrev pub Operation : Type 0 → Type 0
Operation A = Db → Result (A × Db)

abbrev pub retry_attempts : ℕ
retry_attempts = 3

-- COMMIT, or the rollback that closing the connection makes.
abbrev pub settle : {A : Type 0} → Db → Result (A × Db) → Result A × Db
settle db (ok (a, db')) = (ok a, db')
settle db (err e) = (err e, db)

-- The attempts that are left, the next one first; `busy n` says that attempt n meets a lock.
attempts : {A : Type 0} → ℕ → ℕ → (ℕ → Bool) → Operation A → Db → Result A × Db
attempts zero n busy operation db = (err database_locked, db)
attempts (suc left) n busy operation db = elim (busy n) [
  | true ↦ attempts left (n + 1) busy operation db
  | false ↦ settle db (operation db)
]

unfoldable pub run_write_with_retry : {A : Type 0} → (ℕ → Bool) → Operation A → Db → Result A × Db
unfolding attempts
run_write_with_retry busy operation db = attempts retry_attempts 1 busy operation db

attempts_once :
    {A : Type 0} (left n : ℕ) (busy : ℕ → Bool) (operation : Operation A) (db : Db)
    → (attempts left n busy operation db ≡ (err database_locked, db))
      ⊎ (attempts left n busy operation db ≡ settle db (operation db))
unfolding attempts
attempts_once zero n busy operation db = inl refl
attempts_once (suc left) n busy operation db = elim (Bool-cases (busy n)) [
  | inl locked ↦ rw (locked, attempts) (attempts_once left (n + 1) busy operation db)
  | inr free ↦ inr (rw (free, attempts))
]

-- Whatever the contention, a write leaves the database as one run of the body leaves it, or
-- reports the lock and changes nothing.
pub run_write_once :
    {A : Type 0} (busy : ℕ → Bool) (operation : Operation A) (db : Db)
    → (run_write_with_retry busy operation db ≡ (err database_locked, db))
      ⊎ (run_write_with_retry busy operation db ≡ settle db (operation db))
unfolding run_write_with_retry
run_write_once busy operation db = attempts_once retry_attempts 1 busy operation db

-- What a service call decides from its first reads: an answer, or the values to write.
pub data Plan (P A : Type 0) : Type 0 where
  answer : A → Plan P A
  write : P → Plan P A

-- The digest of the payload, beside the values to write.
abbrev pub hashed : {P A : Type 0} → String → Plan P A → Plan (String × P) A
hashed payload_hash (answer a) = answer a
hashed payload_hash (write p) = write (payload_hash, p)

-- A service call: checks and reads that may raise or answer at once, then one write transaction.
-- The reads saw an earlier state of the database; `db` is the state that the transaction locks.
unfoldable pub submit :
    {P A : Type 0} → (ℕ → Bool) → Result (Plan P A) → (P → Operation A) → Db → Result A × Db
submit busy (err e) body db = (err e, db)
submit busy (ok (answer a)) body db = (ok a, db)
submit busy (ok (write p)) body db = run_write_with_retry busy (body p) db

module _ {P A : Type 0} (body : P → Operation A) (R : Db → Type 0) where
  settle_rule :
      (p : P) (db : Db)
      → R db
      → ((a : A) (db' : Db) → body p db ≡ ok (a, db') → R db')
      → (r : Result (A × Db)) → body p db ≡ r
      → R (settle db r).1
  settle_rule p db same step (ok (a, db')) e = step a db' e
  settle_rule p db same step (err x) e = same

  -- What holds of the locked state and of every state that the body returns holds after the call.
  pub submit_rule :
      (busy : ℕ → Bool) (plan : Result (Plan P A)) (db : Db)
      → R db
      → ((p : P) (a : A) (db' : Db) → plan ≡ ok (write p) → body p db ≡ ok (a, db') → R db')
      → R (submit busy plan body db).1
  unfolding submit
  submit_rule busy (err e) db same step = same
  submit_rule busy (ok (answer a)) db same step = same
  submit_rule busy (ok (write p)) db same step = elim (run_write_once busy (body p) db) [
    | inl locked ↦ rw locked same
    | inr ran ↦ rw ran (settle_rule p db same (λ a db' e. step p a db' refl e) (body p db) refl)
  ]

module _ {P A : Type 0} (body : P → Operation A) where
  settle_cases :
      (p : P) (db db' : Db) (r : Result A) (outcome : Result (A × Db))
      → body p db ≡ outcome
      → settle db outcome ≡ (r, db')
      → (db' ≡ db) ⊎ ((a : A) × (body p db ≡ ok (a, db')) × (r ≡ ok a))
  settle_cases p db db' r (ok (a, s)) e h = inr (
    a,
    e ∙ ap (λ (t : Db). ok (a, t)) (ap (λ (x : Result A × Db). x.1) h),
    sym (ap (λ (x : Result A × Db). x.0) h),
  )
  settle_cases p db db' r (err x) e h = inl (sym (ap (λ (x : Result A × Db). x.1) h))

  -- A call that changes the database planned to write, and answers what its transaction returned.
  pub submit_cases :
      (busy : ℕ → Bool) (plan : Result (Plan P A)) (db db' : Db) (r : Result A)
      → submit busy plan body db ≡ (r, db')
      → (db' ≡ db)
        ⊎ ((p : P) × (a : A) × (plan ≡ ok (write p)) × (body p db ≡ ok (a, db')) × (r ≡ ok a))
  unfolding submit
  submit_cases busy (err e) db db' r h = inl (sym (ap (λ (x : Result A × Db). x.1) h))
  submit_cases busy (ok (answer a)) db db' r h = inl (sym (ap (λ (x : Result A × Db). x.1) h))
  submit_cases busy (ok (write p)) db db' r h = elim (run_write_once busy (body p) db) [
    | inl locked ↦ inl (sym (ap (λ (x : Result A × Db). x.1) (sym locked ∙ h)))
    | inr ran ↦ elim (settle_cases p db db' r (body p db) refl (sym ran ∙ h)) [
      | inl same ↦ inl same
      | inr (a, e, answered) ↦ inr (p, a, refl, e, answered)
    ]
  ]

  settle_ok :
      (p : P) (db db' : Db) (a : A) (outcome : Result (A × Db))
      → settle db outcome ≡ (ok a, db')
      → outcome ≡ ok (a, db')
  settle_ok p db db' a (ok (b, s)) h = ground arith
  settle_ok p db db' a (err x) h = ground arith

  -- A call that answers has planned that answer and written nothing, or has committed the write
  -- that returned it.
  pub submit_ok :
      (busy : ℕ → Bool) (plan : Result (Plan P A)) (db db' : Db) (a : A)
      → submit busy plan body db ≡ (ok a, db')
      → ((plan ≡ ok (answer a)) × (db' ≡ db))
        ⊎ ((p : P) × (plan ≡ ok (write p)) × (body p db ≡ ok (a, db')))
  unfolding submit
  submit_ok busy (err e) db db' a h = ground arith
  submit_ok busy (ok (answer b)) db db' a h = ground arith
  submit_ok busy (ok (write p)) db db' a h = elim (run_write_once busy (body p) db) [
    | inl locked ↦ absurd (ground arith)
    | inr ran ↦ inr (p, refl, settle_ok p db db' a (body p db) (sym ran ∙ h))
  ]

-- A write that answers has committed what its body returned.
pub run_ok :
    {A : Type 0} (busy : ℕ → Bool) (operation : Operation A) (db db' : Db) (a : A)
    → run_write_with_retry busy operation db ≡ (ok a, db')
    → operation db ≡ ok (a, db')
run_ok busy operation db db' a h = elim (run_write_once busy operation db) [
  | inl locked ↦ absurd (ground arith)
  | inr ran ↦ settle_ok {P = Unit {0}} (λ u. operation) tt db db' a (operation db) (sym ran ∙ h)
]

-- What holds before a write, and of every state that its body returns, holds after it.
pub run_rule :
    {A : Type 0} (R : Db → Type 0) (busy : ℕ → Bool) (operation : Operation A) (db : Db)
    → R db
    → ((a : A) (db' : Db) → operation db ≡ ok (a, db') → R db')
    → R (run_write_with_retry busy operation db).1
run_rule {A = A} R busy operation db same step = elim (run_write_once busy operation db) [
  | inl locked ↦ rw locked same
  | inr ran ↦ rw ran (settled (operation db) refl)
]
  where
    settled : (r : Result (A × Db)) → operation db ≡ r → R (settle db r).1
    settled (ok (a, db')) e = step a db' e
    settled (err x) e = same
