-- ===== src/Delivery/Queue.antt =====
-- `claim_guide_operator_outbox_for_delivery` and `finish_guide_operator_outbox_delivery` of
-- database/queries.py.
use Prim.Native.String.{compare}
use Prim.Native.Nat.{Ordering}
use guide_os.Prelude.{
  ℕ, ◌+◌, Bool, true, false, String, ◌==◌, text_eq, number_eq, not, ◌&&◌, Option, none, some, List,
  [], ◌∷◌, leb, ltb, is_some, or_else, if◌then◌else◌,
}
use guide_os.Errors.{Result, ok}
use guide_os.Database.{Db, Outbox, find, modify}
use guide_os.Database.Write.{Operation, run_write_with_retry}
use guide_os.Delivery.Codes.{member, deliverable_event_types, permanent_error_codes}

pub data DeliveryOutcome : Type 0 where
  delivered retrying failed : DeliveryOutcome

abbrev pub outbox_id_key : Outbox → ℕ
outbox_id_key o = o.id

-- next_attempt_at IS NULL OR next_attempt_at <= now
abbrev pub is_due : ℕ → Option ℕ → Bool
is_due now none = true
is_due now (some t) = leb t now

-- last_error_code IS NULL OR last_error_code NOT IN (…)
abbrev pub may_retry : Option String → Bool
may_retry none = true
may_retry (some code) = not (member code permanent_error_codes)

-- event_id = ?, where one is asked for
abbrev pub is_asked : Option String → String → Bool
is_asked none event_id = true
is_asked (some asked) event_id = event_id == asked

-- The WHERE clause that the SELECT and the UPDATE share.
unfoldable pub is_eligible : ℕ → Option String → Outbox → Bool
is_eligible now asked o =
    not (is_some o.delivered_at)
    && member o.event_type deliverable_event_types
    && is_due now o.next_attempt_at
    && may_retry o.last_error_code
    && is_asked asked o.event_id

-- ORDER BY created_at ASC, id ASC
abbrev pub precedes : Outbox → Outbox → Bool
precedes a b = elim (compare a.created_at b.created_at) [
  | Ordering.lt ↦ true
  | Ordering.eq ↦ ltb a.id b.id
  | Ordering.gt ↦ false
]

-- LIMIT 1, among the eligible rows
unfoldable pub next_candidate : ℕ → Option String → List Outbox → Option Outbox
next_candidate now asked [] = none
next_candidate now asked (o ∷ rows) =
    let rest = next_candidate now asked rows in
    if is_eligible now asked o
    then elim rest [ none ↦ some o | some best ↦ if precedes best o then some best else some o ]
    else rest

abbrev pub lease_row : ℕ → ℕ → Option String → Outbox → Outbox
lease_row now lease_until asked o =
    if is_eligible now asked o
    then record o { attempt_count = o.attempt_count + 1; next_attempt_at = some lease_until }
    else o

-- `cursor.rowcount`, of an UPDATE by the primary key
abbrev pub matches : (Outbox → Bool) → Option Outbox → Bool
matches condition none = false
matches condition (some o) = condition o

unfoldable pub claim_operation : ℕ → ℕ → Option String → Operation (Option Outbox)
claim_operation now lease_until asked db = elim (next_candidate now asked db.outbox) [
  | none ↦ ok (none, db)
  | some candidate ↦
      if matches (is_eligible now asked) (find outbox_id_key candidate.id db.outbox)
      then (let claimed = record db {
        outbox = modify outbox_id_key candidate.id (lease_row now lease_until asked) db.outbox;
      } in
          ok (find outbox_id_key candidate.id claimed.outbox, claimed))
      else ok (none, db)
]

unfoldable pub claim_guide_operator_outbox_for_delivery :
    (ℕ → Bool) → ℕ → ℕ → Option String → Db → Result (Option Outbox) × Db
claim_guide_operator_outbox_for_delivery busy now lease_until asked db =
    run_write_with_retry busy (claim_operation now lease_until asked) db

-- attempt_count = ? AND delivered_at IS NULL
abbrev pub is_current : ℕ → Outbox → Bool
is_current attempt_count o = (o.attempt_count == attempt_count) && not (is_some o.delivered_at)

-- The two UPDATEs, by outcome.
abbrev pub settle_row : DeliveryOutcome → ℕ → Option ℕ → Option String → Option ℕ → Outbox → Outbox
settle_row delivered now next_attempt_at last_error_code delivered_at o = record o {
  delivered_at = some (or_else delivered_at now);
  last_error_code = none;
  next_attempt_at = none;
}
settle_row _ now next_attempt_at last_error_code delivered_at o = record o {
  last_error_code = last_error_code;
  next_attempt_at = some (or_else next_attempt_at now);
}

abbrev pub finish_row :
    DeliveryOutcome → ℕ → ℕ → Option ℕ → Option String → Option ℕ → Outbox → Outbox
finish_row outcome attempt_count now next_attempt_at last_error_code delivered_at o =
    if is_current attempt_count o
    then settle_row outcome now next_attempt_at last_error_code delivered_at o
    else o

unfoldable pub finish_operation :
    (outbox_id attempt_count : ℕ)
    → DeliveryOutcome
    → ℕ
    → Option ℕ
    → Option String
    → Option ℕ
    → Operation (Option Outbox)
finish_operation outbox_id attempt_count outcome now next_attempt_at last_error_code delivered_at
      db =
    let finished = record db {
      outbox =
          modify outbox_id_key outbox_id
            (finish_row outcome attempt_count now next_attempt_at last_error_code delivered_at)
            db.outbox;
    } in
    if matches (is_current attempt_count) (find outbox_id_key outbox_id db.outbox)
    then ok (find outbox_id_key outbox_id finished.outbox, finished)
    else ok (none, db)

unfoldable pub finish_guide_operator_outbox_delivery :
    (ℕ → Bool)
    → (outbox_id attempt_count : ℕ) → DeliveryOutcome
    → ℕ
    → Option ℕ
    → Option String
    → Option ℕ
    → Db
    → Result (Option Outbox) × Db
finish_guide_operator_outbox_delivery busy outbox_id attempt_count outcome now next_attempt_at
      last_error_code delivered_at db =
    run_write_with_retry busy
      (finish_operation outbox_id attempt_count outcome now next_attempt_at last_error_code
        delivered_at)
      db
