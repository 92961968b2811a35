-- ===== src/Delivery/Leased.antt =====
-- A lease among the calls of other workers.
use guide_os.Prelude.{
  ℕ, ◌<◌, Bool, false, String, ◌==◌, text_eq, number_eq, eqb_iff, ◌≡◌, ◌≢◌, subst, sym, ap, ◌∙◌,
  ◌⊎◌, inl, inr, Option, some, List, [], ◌∷◌, arith, Bool-cases,
}
use guide_os.Errors.{ok}
use guide_os.Database.{Db, Outbox, find, modify, find-modify}
use guide_os.Database.Write.{run_ok, run_rule}
use guide_os.Delivery.Queue.{
  DeliveryOutcome, outbox_id_key, lease_row, claim_operation, finish_row, finish_operation,
  claim_guide_operator_outbox_for_delivery, finish_guide_operator_outbox_delivery,
}
use guide_os.Delivery.Claim.{Claims, claim_effect, claimed_found, not_due, some-inj}

-- A claim, or the writing of an outcome, by any worker.
pub data QueueCall : Type 0 where
  claim : (ℕ → Bool) → (now lease_until : ℕ) → Option String → QueueCall
  finish :
      (ℕ → Bool)
      → (outbox_id attempt_count : ℕ) → DeliveryOutcome
      → ℕ
      → Option ℕ
      → Option String
      → Option ℕ
      → QueueCall

abbrev pub serve : QueueCall → Db → Db
serve (claim busy now lease_until asked) db =
    (claim_guide_operator_outbox_for_delivery busy now lease_until asked db).1
serve (finish busy outbox_id attempt_count outcome now next_attempt_at last_error_code delivered_at)
      db =
    (finish_guide_operator_outbox_delivery busy outbox_id attempt_count outcome now next_attempt_at
      last_error_code delivered_at db).1

unfoldable pub serve_all : List QueueCall → Db → Db
serve_all [] db = db
serve_all (c ∷ calls) db = serve_all calls (serve c db)

-- A claim before the lease ends, or the outcome of another attempt.
abbrev pub IsElsewhere : ℕ → Outbox → QueueCall → Type 0
IsElsewhere until held (claim busy now lease_until asked) = now < until
IsElsewhere until held
      (finish busy outbox_id attempt_count outcome now next_attempt_at last_error_code
        delivered_at) =
    (outbox_id ≢ held.id) ⊎ (attempt_count ≢ held.attempt_count)

abbrev pub AreElsewhere : ℕ → Outbox → List QueueCall → Type 0
AreElsewhere until held [] = Unit
AreElsewhere until held (c ∷ calls) = IsElsewhere until held c × AreElsewhere until held calls

-- The row stands in the table as it was handed out.
abbrev IsHeld : Outbox → Db → Type 0
IsHeld held db = find outbox_id_key held.id db.outbox ≡ some held

module _ (until : ℕ) (held : Outbox) (lease : held.next_attempt_at ≡ some until) where
  other_claimed :
      (now lease_until : ℕ) (asked : Option String) (db db' : Db) (claimed : Outbox)
      → now < until
      → IsHeld held db
      → Claims now lease_until asked db db' claimed
      → (c : Outbox) × (c.id ≡ claimed.id)
        × ((c.id == held.id) ≡ false)
        × (db' ≡ record db {
          outbox = modify outbox_id_key c.id (lease_row now lease_until asked) db.outbox;
        })
  other_claimed now lease_until asked db db' claimed early here c = (
    c.row,
    sym (ap (λ (o : Outbox). o.id) c.leased),
    elim (Bool-cases (c.row.id == held.id)) [
      | inl hit ↦
          let ids : c.row.id ≡ held.id = (eqb_iff c.row.id held.id).0 hit in
          let same : some c.row ≡ some held =
            sym c.found ∙ ap (λ i. find outbox_id_key i db.outbox) ids ∙ here in
          absurd (ground (arith, same, c.eligible, not_due now asked held until lease early))
      | inr miss ↦ miss
    ],
    c.frame,
  )

  claim-IsHeld :
      (now lease_until : ℕ) (asked : Option String) (db db' : Db) (a : Option Outbox)
      → now < until
      → IsHeld held db
      → claim_operation now lease_until asked db ≡ ok (a, db')
      → IsHeld held db'
  claim-IsHeld now lease_until asked db db' a early here e =
      elim (claim_effect now lease_until asked db db' a e) [
        | inl (nothing, same) ↦ rw same here
        | inr (claimed, is_some, c) ↦
            let (row, _, other, frame) =
              other_claimed now lease_until asked db db' claimed early here c in
            rw frame (
              rw
                (
                  find-modify outbox_id_key row.id held.id (lease_row now lease_until asked)
                      db.outbox (λ r. ground arith),
                  other,
                )
                here)
      ]

  finish-IsHeld :
      (outbox_id attempt_count : ℕ) (outcome : DeliveryOutcome) (now : ℕ)
      (next_attempt_at : Option ℕ) (last_error_code : Option String) (delivered_at : Option ℕ)
      (db db' : Db) (a : Option Outbox)
      → (outbox_id ≢ held.id) ⊎ (attempt_count ≢ held.attempt_count)
      → IsHeld held db
      → finish_operation outbox_id attempt_count outcome now next_attempt_at last_error_code
          delivered_at db
        ≡ ok (a, db')
      → IsHeld held db'
  unfolding finish_operation
  finish-IsHeld outbox_id attempt_count outcome now next_attempt_at last_error_code delivered_at db
        db' a other here e =
      ground (
        arith,
        here,
        eqb_iff outbox_id held.id,
        eqb_iff held.attempt_count attempt_count,
        find-modify outbox_id_key outbox_id held.id
            (finish_row outcome attempt_count now next_attempt_at last_error_code delivered_at)
            db.outbox (λ r. ground arith),
      )

  serve-IsHeld :
      (c : QueueCall) (db : Db)
      → IsElsewhere until held c
      → IsHeld held db
      → IsHeld held (serve c db)
  unfolding claim_guide_operator_outbox_for_delivery finish_guide_operator_outbox_delivery
  serve-IsHeld (claim busy now lease_until asked) db early here =
      run_rule (IsHeld held) busy (claim_operation now lease_until asked) db here
        (λ a db' e. claim-IsHeld now lease_until asked db db' a early here e)
  serve-IsHeld
        (finish busy outbox_id attempt_count outcome now next_attempt_at last_error_code
          delivered_at)
        db other here =
      run_rule (IsHeld held) busy
        (finish_operation outbox_id attempt_count outcome now next_attempt_at last_error_code
          delivered_at)
        db here
        (λ a db' e.
          finish-IsHeld outbox_id attempt_count outcome now next_attempt_at last_error_code
            delivered_at db db' a other here e)

  serve_all-IsHeld :
      (calls : List QueueCall) (db : Db)
      → AreElsewhere until held calls
      → IsHeld held db
      → IsHeld held (serve_all calls db)
  unfolding serve_all
  serve_all-IsHeld [] db elsewhere here = here
  serve_all-IsHeld (c ∷ calls) db (first, rest) here =
      serve_all-IsHeld calls (serve c db) rest (serve-IsHeld c db first here)

-- Once a claim has handed a row out, no later claim by any worker hands it out again before the
-- lease ends, whatever other claims before the end of the lease and outcomes of other attempts were
-- written between the two.
pub claim_excludes :
    (busy busy' : ℕ → Bool) (now lease_until now' lease_until' : ℕ) (asked asked' : Option String)
    (db db' db'' : Db) (first second : Outbox) (calls : List QueueCall)
    → claim_guide_operator_outbox_for_delivery busy now lease_until asked db
      ≡ (ok (some first), db')
    → AreElsewhere lease_until first calls
    → now' < lease_until
    → claim_guide_operator_outbox_for_delivery busy' now' lease_until' asked' (serve_all calls db')
      ≡ (ok (some second), db'')
    → second.id ≢ first.id
unfolding claim_guide_operator_outbox_for_delivery
claim_excludes busy busy' now lease_until now' lease_until' asked asked' db db' db'' first second
      calls h elsewhere early k =
    elim (claim_effect now lease_until asked db db' (some first)
      (run_ok busy _ db db' (some first) h)) [
        | inl (nothing, _) ↦ absurd (ground arith)
        | inr (claimed, is_first, c0) ↦
            let c : Claims now lease_until asked db db' first =
              subst (λ o. Claims now lease_until asked db db' o) (some-inj (sym is_first)) c0 in
            let lease : first.next_attempt_at ≡ some lease_until = ground (arith, c.leased) in
            let mid : Db = serve_all calls db' in
            let here : IsHeld first mid =
              serve_all-IsHeld lease_until first lease calls db' elsewhere
                (claimed_found now lease_until asked db db' first c) in
            elim (claim_effect now' lease_until' asked' mid db'' (some second)
              (run_ok busy' _ mid db'' (some second) k)) [
                | inl (nothing, _) ↦ absurd (ground arith)
                | inr (again, is_second, d) ↦
                    let (row, ids, other, _) =
                      other_claimed lease_until first lease now' lease_until' asked' mid db'' again
                        early here d in
                    λ same.
                      absurd (ground (arith, is_second, ids, other, same, eqb_iff row.id first.id))
              ]
      ]
