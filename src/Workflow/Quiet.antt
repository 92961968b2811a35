-- ===== src/Workflow/Quiet.antt =====
-- No call of the services leaves an allowance behind for the triggers.
use guide_os.Prelude.{text_eq, inl, inr}
use guide_os.Platform.{Platform}
use guide_os.Database.{Db}
use guide_os.Database.Write.{submit_rule}
use guide_os.Connection.Invite.{receive_connection_invitation, invitation_write}
use guide_os.Connection.Disconnect.{receive_connection_disconnect, disconnect_write}
use guide_os.Connection.Decide.{decision_operation as connection_operation, decide_connection}
use guide_os.Connection.Effects.{
  invitation_effect, disconnect_effect, decision_effect as connection_effect,
}
use guide_os.Assignment.Offer.{receive_assignment_offer, offer_write}
use guide_os.Assignment.Decide.{
  AssignmentDecisionWrite, AssignmentDecisionResult, decision_operation as assignment_operation,
  decide_assignment,
}
use guide_os.Assignment.Cancel.{apply_assignment_cancellation, cancellation_write}
use guide_os.Assignment.Transition.{apply_assignment_lifecycle_transition, transition_write}
use guide_os.Assignment.Effects.{
  Outcome, offer_effect, decision_effect as assignment_effect, cancellation_effect,
  transition_effect,
}
use guide_os.Version.Ordinary.{ordinary_write, apply_ordinary_assignment_version}
use guide_os.Version.Critical.{critical_write, intake_critical_assignment_version}
use guide_os.Version.Decision.{
  CriticalDecisionWrite, AssignmentCriticalVersionDecisionResult, critical_decision_operation,
  decide_critical_assignment_version,
}
use guide_os.Version.Acknowledge.{acknowledge_operation, acknowledge_ordinary_version}
use guide_os.Version.Effects.{
  CriticalOutcome, ordinary_effect, critical_effect, critical_decision_effect, acknowledge_effect,
}
use guide_os.Workflow.{
  Call, invitation, disconnect, connection_decision, offer, assignment_decision, cancellation,
  transition, perform,
}
use guide_os.Workflow.Journey.{
  Step, call, ordinary_version, critical_version, critical_decision, acknowledgement, proceed,
}
use guide_os.Entry.Protects.{IsQuiet}

outcome-IsQuiet :
    (env : Platform) (w : AssignmentDecisionWrite) (db db' : Db) (a : AssignmentDecisionResult)
    → Outcome env w db db' a
    → IsQuiet db
    → IsQuiet db'
outcome-IsQuiet env w db db' a (Outcome.replay same again) q = rw same q
outcome-IsQuiet env w db db' a (Outcome.acceptance row accepts o free single d) q =
    rw d.frame (record { metadata = q.metadata; occupancy = q.occupancy; release = q.release })
outcome-IsQuiet env w db db' a (Outcome.refusal row declines o d) q =
    rw d.frame (record { metadata = q.metadata; occupancy = q.occupancy; release = q.release })

critical_outcome-IsQuiet :
    (env : Platform) (w : CriticalDecisionWrite) (db db' : Db)
    (a : AssignmentCriticalVersionDecisionResult)
    → CriticalOutcome env w db db' a
    → IsQuiet db
    → IsQuiet db'
critical_outcome-IsQuiet env w db db' a (CriticalOutcome.replay same again) q = rw same q
critical_outcome-IsQuiet env w db db' a (CriticalOutcome.rejection row tour rejects d answered) q =
    rw d.frame (record { metadata = q.metadata; occupancy = q.occupancy; release = q.release })
critical_outcome-IsQuiet env w db db' a
      (CriticalOutcome.confirmation row tour working_package proposed start_date end_date confirms d
        answered)
      q =
    rw d.frame (record { metadata = q.metadata; occupancy = q.occupancy; release = q.release })

perform-IsQuiet :
    (env : Platform) (c : Call) (before db : Db) → IsQuiet db → IsQuiet (perform env c before db)
unfolding receive_connection_invitation receive_connection_disconnect decide_connection
    receive_assignment_offer decide_assignment apply_assignment_cancellation
    apply_assignment_lifecycle_transition
perform-IsQuiet env (invitation event) before db q =
    submit_rule (invitation_write env) IsQuiet env.busy _ db q (λ (h, n) a db' planned e.
      elim (invitation_effect env h n db db' a e) [
        | inl same ↦ rw same q
        | inr (w, _) ↦
            rw w.frame
              (record { metadata = q.metadata; occupancy = q.occupancy; release = q.release })
      ])
perform-IsQuiet env (disconnect event) before db q =
    submit_rule (disconnect_write env) IsQuiet env.busy _ db q (λ (h, n) a db' planned e.
      elim (disconnect_effect env h n db db' a e) [
        | inl same ↦ rw same q
        | inr (row, w) ↦
            rw w.frame
              (record { metadata = q.metadata; occupancy = q.occupancy; release = q.release })
      ])
perform-IsQuiet env (connection_decision guide connection decision event decided_at) before db q =
    submit_rule (connection_operation env) IsQuiet env.busy _ db q (λ w a db' planned e.
      elim (connection_effect env w db db' a e) [
        | inl (same, _) ↦ rw same q
        | inr (row, d, _) ↦
            rw d.frame
              (record { metadata = q.metadata; occupancy = q.occupancy; release = q.release })
      ])
perform-IsQuiet env (offer event) before db q =
    submit_rule (offer_write env) IsQuiet env.busy _ db q (λ (h, n) a db' planned e.
      elim (offer_effect env h n db db' a e) [
        | inl same ↦ rw same q
        | inr (w, _) ↦
            rw w.frame
              (record { metadata = q.metadata; occupancy = q.occupancy; release = q.release })
      ])
perform-IsQuiet env (assignment_decision guide assignment decision event decided_at) before db q =
    submit_rule (assignment_operation env) IsQuiet env.busy _ db q
      (λ w a db' planned e. outcome-IsQuiet env w db db' a (assignment_effect env w db db' a e) q)
perform-IsQuiet env (cancellation event) before db q =
    submit_rule (cancellation_write env) IsQuiet env.busy _ db q (λ (h, n) a db' planned e.
      elim (cancellation_effect env h n db db' a e) [
        | inl same ↦ rw same q
        | inr (row, w) ↦
            rw w.frame
              (record { metadata = q.metadata; occupancy = q.occupancy; release = q.release })
      ])
perform-IsQuiet env (transition event) before db q =
    submit_rule (transition_write env) IsQuiet env.busy _ db q (λ (h, n) a db' planned e.
      elim (transition_effect env h n db db' a e) [
        | inl same ↦ rw same q
        | inr (row, w) ↦
            rw w.frame
              (record { metadata = q.metadata; occupancy = q.occupancy; release = q.release })
      ])

pub proceed-IsQuiet :
    (env : Platform) (step : Step) (before db : Db)
    → IsQuiet db
    → IsQuiet (proceed env step before db)
unfolding apply_ordinary_assignment_version intake_critical_assignment_version
    decide_critical_assignment_version acknowledge_ordinary_version
proceed-IsQuiet env (call k) before db q = perform-IsQuiet env k before db q
proceed-IsQuiet env (ordinary_version event) before db q =
    submit_rule (ordinary_write env) IsQuiet env.busy _ db q (λ (h, n) a db' planned e.
      elim (ordinary_effect env h n db db' a e) [
        | inl same ↦ rw same q
        | inr (row, tour, w) ↦
            rw w.frame
              (record { metadata = q.metadata; occupancy = q.occupancy; release = q.release })
      ])
proceed-IsQuiet env (critical_version event) before db q =
    submit_rule (critical_write env) IsQuiet env.busy _ db q (λ (h, n) a db' planned e.
      elim (critical_effect env h n db db' a e) [
        | inl same ↦ rw same q
        | inr (row, w) ↦
            rw w.frame
              (record { metadata = q.metadata; occupancy = q.occupancy; release = q.release })
      ])
proceed-IsQuiet env (critical_decision guide assignment version decision event decided_at) before db
      q =
    submit_rule (critical_decision_operation env) IsQuiet env.busy _ db q (λ w a db' planned e.
      critical_outcome-IsQuiet env w db db' a (critical_decision_effect env w db db' a e) q)
proceed-IsQuiet env (acknowledgement guide assignment version event acknowledged_at) before db q =
    submit_rule (acknowledge_operation env) IsQuiet env.busy _ db q (λ w a db' planned e.
      elim (acknowledge_effect env w db db' a e) [
        | inl same ↦ rw same q
        | inr (row, version, d) ↦
            rw d.frame
              (record { metadata = q.metadata; occupancy = q.occupancy; release = q.release })
      ])
