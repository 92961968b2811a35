-- ===== src/Delivery/Claim.antt =====
-- The lease: who may claim a row, and what a claim or a late answer leaves alone.
use guide_os.Prelude.{
  ℕ, ◌+◌, ◌<◌, Bool, true, false, String, text_eq, number_eq, eqb_iff, not, ◌||◌, ◌≡◌, refl, subst,
  sym, ◌⊎◌, inl, inr, Option, none, some, arith, Bool-cases, Option-cases, is_some,
}
use guide_os.Errors.{ok}
use guide_os.Database.{Db, Outbox, find, modify, find-modify, find_key}
use guide_os.Delivery.Queue.{
  outbox_id_key, may_retry, is_eligible, next_candidate, lease_row, matches, claim_operation,
}

-- A claimed row, and the database with it.
pub record Claims (now lease_until : ℕ) (asked : Option String) (db db' : Db) (claimed : Outbox)
    : Type 0 where
  pub row : Outbox
  pub found : find outbox_id_key row.id db.outbox ≡ some row
  pub eligible : is_eligible now asked row ≡ true
  pub leased :
      claimed
      ≡ record row { attempt_count = row.attempt_count + 1; next_attempt_at = some lease_until }
  pub frame : db' ≡ record db {
    outbox = modify outbox_id_key row.id (lease_row now lease_until asked) db.outbox;
  }

-- An event that no delivery may touch any more: delivered, or failed for good.
abbrev pub is_final : Outbox → Bool
is_final o = is_some o.delivered_at || not (may_retry o.last_error_code)

pub final_eligible :
    (now : ℕ) (asked : Option String) (o : Outbox)
    → is_final o ≡ true
    → is_eligible now asked o ≡ false
unfolding is_eligible
final_eligible now asked o h = ground arith

pub some-inj : {a b : Outbox} → some a ≡ some b → a ≡ b
some-inj h = ground arith

-- The row under a lease.
abbrev pub leased_row : ℕ → Outbox → Outbox
leased_row lease_until o = record o {
  attempt_count = o.attempt_count + 1;
  next_attempt_at = some lease_until;
}

module _ (now lease_until : ℕ) (asked : Option String) (db db' : Db) (a : Option Outbox) where
  claim_miss :
      (candidate : Outbox)
      → next_candidate now asked db.outbox ≡ some candidate
      → matches (is_eligible now asked) (find outbox_id_key candidate.id db.outbox) ≡ false
      → claim_operation now lease_until asked db ≡ ok (a, db')
      → (a ≡ none) × (db' ≡ db)
  unfolding claim_operation
  claim_miss candidate picked miss h = ground arith

  claim_hit :
      (candidate row : Outbox)
      → next_candidate now asked db.outbox ≡ some candidate
      → find outbox_id_key candidate.id db.outbox ≡ some row
      → is_eligible now asked row ≡ true
      → claim_operation now lease_until asked db ≡ ok (a, db')
      → (a ≡ some (leased_row lease_until row))
        × (db' ≡ record db {
          outbox = modify outbox_id_key candidate.id (lease_row now lease_until asked) db.outbox;
        })
  unfolding claim_operation
  claim_hit candidate row picked found hit h = ground (
    arith,
    find-modify outbox_id_key candidate.id candidate.id (lease_row now lease_until asked) db.outbox
        (λ r. ground arith),
    eqb_iff candidate.id candidate.id,
  )

  claim_none :
      next_candidate now asked db.outbox ≡ none
      → claim_operation now lease_until asked db ≡ ok (a, db')
      → (a ≡ none) × (db' ≡ db)
  unfolding claim_operation
  claim_none empty h = ground arith

  claim_found :
      (candidate row : Outbox)
      → next_candidate now asked db.outbox ≡ some candidate
      → find outbox_id_key candidate.id db.outbox ≡ some row
      → is_eligible now asked row ≡ true
      → claim_operation now lease_until asked db ≡ ok (a, db')
      → (claimed : Outbox) × (a ≡ some claimed) × Claims now lease_until asked db db' claimed
  claim_found candidate row picked found hit h =
      let key : row.id ≡ candidate.id = find_key outbox_id_key candidate.id db.outbox found in
      let (answered, written) = claim_hit candidate row picked found hit h in
      (
        leased_row lease_until row,
        answered,
        record {
          row = row;
          found = subst (λ i. find outbox_id_key i db.outbox ≡ some row) (sym key) found;
          eligible = hit;
          leased = refl;
          frame =
              subst
                (λ i. db' ≡ record db {
                  outbox = modify outbox_id_key i (lease_row now lease_until asked) db.outbox;
                })
                (sym key) written;
        },
      )

  -- A claim hands out nothing and writes nothing, or it hands out an eligible row under the lease.
  pub claim_effect :
      claim_operation now lease_until asked db ≡ ok (a, db')
      → ((a ≡ none) × (db' ≡ db))
        ⊎ ((claimed : Outbox) × (a ≡ some claimed) × Claims now lease_until asked db db' claimed)
  claim_effect h = elim (Option-cases (next_candidate now asked db.outbox)) [
    | inl empty ↦ inl (claim_none empty h)
    | inr (candidate, picked) ↦ elim (Option-cases (find outbox_id_key candidate.id db.outbox)) [
      | inl absent ↦ inl (claim_miss candidate picked (rw absent refl) h)
      | inr (row, found) ↦ elim (Bool-cases (is_eligible now asked row)) [
        | inl hit ↦ inr (claim_found candidate row picked found hit h)
        | inr miss ↦ inl (claim_miss candidate picked (rw (found, miss) refl) h)
      ]
    ]
  ]

-- The claimed row is the one that the table has under its id.
pub claimed_found :
    (now lease_until : ℕ) (asked : Option String) (db db' : Db) (claimed : Outbox)
    → Claims now lease_until asked db db' claimed
    → find outbox_id_key claimed.id db'.outbox ≡ some claimed
claimed_found now lease_until asked db db' claimed c =
    rw (c.frame, c.leased)
      (ground (
        arith,
        c.found,
        c.eligible,
        find-modify outbox_id_key c.row.id c.row.id (lease_row now lease_until asked) db.outbox
            (λ r. ground arith),
        eqb_iff c.row.id c.row.id,
      ))

pub not_due :
    (now : ℕ) (asked : Option String) (o : Outbox) (t : ℕ)
    → o.next_attempt_at ≡ some t
    → now < t
    → is_eligible now asked o ≡ false
unfolding is_eligible
not_due now asked o t at early = ground arith
