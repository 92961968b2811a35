-- ===== src/Connection/Decide.antt =====
-- `_decide_connection`, behind `confirm_connection` and `decline_connection`.
use guide_os.Prelude.{
  String, ◌==◌, text_eq, Bool, true, false, not, ◌||◌, ◌&&◌, Option, none, some, [], ◌∷◌,
  if◌then◌else◌,
}
use guide_os.Json.{Json, text, dict}
use guide_os.Errors.{
  Result, ok, err, ◌>>=◌, ◌>>◌, raise_if, or_raise, not_found, not_actionable, Detail,
  idempotency_conflict, integrity_error,
}
use guide_os.Platform.{Platform}
use guide_os.Identity.{validate_guide_os_id}
use guide_os.Validation.{require_nonempty, require_iso_datetime}
use guide_os.Database.{
  Db, Connection, ConnectionDecision, ConnectionStatus, confirmed, declined, ConnectionDecisionType,
  confirm, decline, find, modify, taken,
}
use guide_os.Database.Write.{Operation, Plan, answer, write, submit}
use guide_os.Outbox.{insert_outbox}
use guide_os.Connection.Intake.{
  connection_key, decided_connection_key, decision_event_key, is_invited, of_guide, is_expired,
}

pub record ConnectionDecisionResult : Type 0 where
  pub connection_id : String
  pub guide_os_id : String
  pub status : ConnectionStatus
  pub decision : ConnectionDecisionType
  pub decision_event_id : String
  pub replayed : Bool

-- What the checks hand to the transaction.
pub record ConnectionDecisionWrite : Type 0 where
  pub connection_id : String
  pub identity : String
  pub decision : ConnectionDecisionType
  pub decision_event_id : String
  pub decided_at : String

abbrev pub same_decision : ConnectionDecisionType → ConnectionDecisionType → Bool
same_decision confirm confirm = true
same_decision decline decline = true
same_decision _ _ = false

-- `"confirmed" if decision == "confirm" else "declined"`
abbrev pub decided_status : ConnectionDecisionType → ConnectionStatus
decided_status confirm = confirmed
decided_status decline = declined

-- `updated["status"] == status`, for one of the two decided states
abbrev pub has_decided : ConnectionStatus → ConnectionDecisionType → Bool
has_decided confirmed confirm = true
has_decided declined decline = true
has_decided _ _ = false

abbrev pub decision_word : ConnectionDecisionType → String
decision_word confirm = "confirm"
decision_word decline = "decline"

-- INSERT INTO guide_operator_connection_decisions, with its two unique columns.
unfoldable pub insert_connection_decision : ConnectionDecision → Db → Result Db
insert_connection_decision d db = do
  raise_if
      (taken decision_event_key d.decision_event_id db.connection_decisions
        || taken decided_connection_key d.connection_id db.connection_decisions)
      integrity_error
  ok (record db { connection_decisions = d ∷ db.connection_decisions })

-- UPDATE … WHERE guide_os_id = ? AND status = 'invited'
abbrev pub apply_decision : ConnectionDecisionWrite → Connection → Connection
apply_decision w c =
    if (c.guide_os_id == w.identity) && is_invited c.status
    then record c {
      status = decided_status w.decision;
      decided_at = some w.decided_at;
      updated_at = w.decided_at;
    }
    else c

abbrev pub decision_payload : ConnectionDecisionWrite → Connection → Json
decision_payload w c = dict (
    ("connection_id", text w.connection_id)
    ∷ ("guide_os_id", text w.identity)
    ∷ ("company_id", text c.company_id)
    ∷ ("company_name", text c.company_name)
    ∷ ("decision", text (decision_word w.decision))
    ∷ ("decided_at", text w.decided_at)
    ∷ [])

abbrev pub decision_answer :
    String
    → String
    → ConnectionStatus
    → ConnectionDecisionType
    → String
    → Bool
    → ConnectionDecisionResult
decision_answer connection_id identity status decision decision_event_id replayed = record {
  connection_id = connection_id;
  guide_os_id = identity;
  status = status;
  decision = decision;
  decision_event_id = decision_event_id;
  replayed = replayed;
}

module _ (env : Platform) where
  -- The reads before the transaction, on normalised identifiers.
  unfoldable pub decision_plan :
      (identity connection_id : String)
      → ConnectionDecisionType
      → String
      → Option String
      → Db
      → Result (Plan ConnectionDecisionWrite ConnectionDecisionResult)
  decision_plan identity connection_id decision decision_event_id decided_at db =
      elim (find decided_connection_key connection_id db.connection_decisions) [
        | some existing ↦ do
          raise_if (not (existing.guide_os_id == identity)) not_found
          if not (existing.decision_event_id == decision_event_id)
              then (if same_decision existing.decision_type decision
                  then (do
                    c ←
                        or_raise
                          (of_guide identity (find connection_key connection_id db.connections))
                          not_found
                    ok (
                        answer (
                          decision_answer connection_id identity c.status existing.decision_type
                            existing.decision_event_id true)))
                  else err (not_actionable Detail.plain))
              else (do
                raise_if (not (same_decision existing.decision_type decision)) idempotency_conflict
                c ←
                    or_raise (of_guide identity (find connection_key connection_id db.connections))
                      not_found
                ok (
                    answer (
                      decision_answer connection_id identity c.status decision decision_event_id
                        true)))
        | none ↦ do
          c ←
              or_raise (of_guide identity (find connection_key connection_id db.connections))
                not_found
          raise_if (not (is_invited c.status)) (not_actionable Detail.plain)
          expired ← is_expired env c (ok env.checked_at)
          raise_if expired (not_actionable Detail.connection_expired)
          decided_at_value ← elim decided_at [
            | none ↦ ok env.utc_now
            | some stamp ↦ require_iso_datetime env stamp
          ]
          ok (
              write (record {
                connection_id = connection_id;
                identity = identity;
                decision = decision;
                decision_event_id = decision_event_id;
                decided_at = decided_at_value;
              }))
      ]

  -- The writes, once the locked row is known to be open.
  unfoldable pub write_decision :
      ConnectionDecisionWrite → Connection → Operation ConnectionDecisionResult
  write_decision w locked db = do
    with_decision ←
        insert_connection_decision
          (record {
            decision_event_id = w.decision_event_id;
            connection_id = w.connection_id;
            guide_os_id = w.identity;
            decision_type = w.decision;
            decided_at = w.decided_at;
            created_at = w.decided_at;
          })
          db
    let changed = record with_decision {
      connections =
          modify connection_key w.connection_id (apply_decision w) with_decision.connections;
    }
    updated ←
        or_raise (of_guide w.identity (find connection_key w.connection_id changed.connections))
          (not_actionable Detail.plain)
    raise_if (not (has_decided updated.status w.decision)) (not_actionable Detail.plain)
    sent ←
        insert_outbox w.decision_event_id "guide_connection.decided.v1" "guide_connection"
          w.connection_id w.identity (env.dumps (decision_payload w locked)) w.decided_at changed
    ok (
      decision_answer w.connection_id w.identity (decided_status w.decision) w.decision
          w.decision_event_id false,
      sent,
    )

  unfoldable pub decision_operation : ConnectionDecisionWrite → Operation ConnectionDecisionResult
  decision_operation w db = do
    locked ←
        or_raise (of_guide w.identity (find connection_key w.connection_id db.connections))
          not_found
    if not (is_invited locked.status)
        then elim (find decided_connection_key w.connection_id db.connection_decisions) [
          | some prior ↦
              if same_decision prior.decision_type w.decision
              then ok (
                decision_answer w.connection_id w.identity locked.status w.decision
                    prior.decision_event_id true,
                db,
              )
              else err (not_actionable Detail.plain)
          | none ↦ err (not_actionable Detail.plain)
        ]
        else (do
          expired ← is_expired env locked (ok env.locked_at)
          raise_if expired (not_actionable Detail.connection_expired)
          elim (find decision_event_key w.decision_event_id db.connection_decisions) [
            | some event ↦
                if not (event.connection_id == w.connection_id)
                then err idempotency_conflict
                else ok (
                  decision_answer w.connection_id w.identity locked.status event.decision_type
                      w.decision_event_id true,
                  db,
                )
            | none ↦ write_decision w locked db
          ])

  unfoldable pub decide_connection :
      (guide_os_id connection_id : String)
      → ConnectionDecisionType
      → String
      → Option String
      → Db
      → Db
      → Result ConnectionDecisionResult × Db
  decide_connection guide_os_id connection_id decision decision_event_id decided_at before db =
      let plan : Result (Plan ConnectionDecisionWrite ConnectionDecisionResult) = (do
        identity ← validate_guide_os_id guide_os_id
        connection ← require_nonempty connection_id
        event ← require_nonempty decision_event_id
        decision_plan identity connection decision event decided_at before) in
      submit env.busy plan decision_operation db
