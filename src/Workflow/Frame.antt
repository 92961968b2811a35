-- ===== src/Workflow/Frame.antt =====
-- What each call leaves alone: the connection service never touches an assignment or the calendar,
-- the assignment service never touches a connection, and no call removes an event from the outbox.
use guide_os.Prelude.{String, text_eq, ◌≡◌, refl, inl, inr, List, ◌∷◌, none, Option}
use guide_os.Platform.{Platform}
use guide_os.Database.{Db, ConnectionDecisionType, AssignmentDecisionType, Outbox, find}
use guide_os.Database.Write.{submit_rule}
use guide_os.Outbox.{outbox_event_key}
use guide_os.Outbox.Sent.{Sent, Sent-cons}
use guide_os.Connection.Intake.{ConnectionInvitationIntake, ConnectionDisconnectIntake}
use guide_os.Connection.Invite.{receive_connection_invitation, invitation_write}
use guide_os.Connection.Disconnect.{receive_connection_disconnect, disconnect_write}
use guide_os.Connection.Decide.{decision_operation as connection_operation, decide_connection}
use guide_os.Connection.Effects.{
  invitation_effect, disconnect_effect, decision_effect as connection_effect,
}
use guide_os.Assignment.Intake.{
  AssignmentOfferIntake, AssignmentCancellationIntake, AssignmentLifecycleIntake,
}
use guide_os.Assignment.Offer.{receive_assignment_offer, offer_write}
use guide_os.Assignment.Decide.{
  AssignmentDecisionWrite, AssignmentDecisionResult, decision_operation as assignment_operation,
  decide_assignment,
}
use guide_os.Assignment.Cancel.{apply_assignment_cancellation, cancellation_write}
use guide_os.Assignment.Transition.{apply_assignment_lifecycle_transition, transition_write}
use guide_os.Assignment.Effects.{
  Outcome, offer_effect, decision_effect as assignment_effect, cancellation_effect,
  transition_effect,
}

-- Every event of the outbox is still there.
abbrev pub Extends : List Outbox → List Outbox → Type 0
Extends outbox outbox' =
    (event_id event_type aggregate_id : String)
    → Sent event_id event_type aggregate_id outbox
    → Sent event_id event_type aggregate_id outbox'

pub record KeepsAssignments (db db' : Db) : Type 0 where
  pub assignments : db'.assignments ≡ db.assignments
  pub decisions : db'.decisions ≡ db.decisions
  pub versions : db'.versions ≡ db.versions
  pub tours : db'.tours ≡ db.tours
  pub tour_sequence : db'.tour_sequence ≡ db.tour_sequence
  pub outbox : Extends db.outbox db'.outbox

pub record KeepsConnections (db db' : Db) : Type 0 where
  pub connections : db'.connections ≡ db.connections
  pub decisions : db'.connection_decisions ≡ db.connection_decisions
  pub outbox : Extends db.outbox db'.outbox

pub Extends-cons :
    (o : Outbox) (outbox : List Outbox)
    → find outbox_event_key o.event_id outbox ≡ none
    → Extends outbox (o ∷ outbox)
Extends-cons o outbox free event_id event_type aggregate_id h =
    Sent-cons o event_id event_type aggregate_id outbox free h

KeepsAssignments-refl : (db : Db) → KeepsAssignments db db
KeepsAssignments-refl db = record {
  assignments = refl;
  decisions = refl;
  versions = refl;
  tours = refl;
  tour_sequence = refl;
  outbox = λ e t g h. h;
}

KeepsConnections-refl : (db : Db) → KeepsConnections db db
KeepsConnections-refl db = record { connections = refl; decisions = refl; outbox = λ e t g h. h }

outcome-KeepsConnections :
    (env : Platform) (w : AssignmentDecisionWrite) (db db' : Db) (a : AssignmentDecisionResult)
    → Outcome env w db db' a
    → KeepsConnections db db'
outcome-KeepsConnections env w db db' a (Outcome.replay same again) =
    rw same (KeepsConnections-refl db)
outcome-KeepsConnections env w db db' a (Outcome.acceptance row accepts o free single d) =
    rw d.frame
      (record { connections = refl; decisions = refl; outbox = Extends-cons _ db.outbox d.unsent })
outcome-KeepsConnections env w db db' a (Outcome.refusal row declines o d) =
    rw d.frame
      (record { connections = refl; decisions = refl; outbox = Extends-cons _ db.outbox d.unsent })

module _ (env : Platform) (before db : Db) where
  pub receive_connection_invitation-KeepsAssignments :
      (event : ConnectionInvitationIntake)
      → KeepsAssignments db (receive_connection_invitation env event before db).1
  unfolding receive_connection_invitation
  receive_connection_invitation-KeepsAssignments event =
      submit_rule (invitation_write env) (KeepsAssignments db) env.busy _ db
        (KeepsAssignments-refl db)
        (λ (h, n) a db' planned e. elim (invitation_effect env h n db db' a e) [
          | inl same ↦ rw same (KeepsAssignments-refl db)
          | inr (w, _) ↦ rw w.frame (record {
            assignments = refl;
            decisions = refl;
            versions = refl;
            tours = refl;
            tour_sequence = refl;
            outbox = λ e t g h. h;
          })
        ])

  pub receive_connection_disconnect-KeepsAssignments :
      (event : ConnectionDisconnectIntake)
      → KeepsAssignments db (receive_connection_disconnect env event before db).1
  unfolding receive_connection_disconnect
  receive_connection_disconnect-KeepsAssignments event =
      submit_rule (disconnect_write env) (KeepsAssignments db) env.busy _ db
        (KeepsAssignments-refl db)
        (λ (h, n) a db' planned e. elim (disconnect_effect env h n db db' a e) [
          | inl same ↦ rw same (KeepsAssignments-refl db)
          | inr (row, w) ↦ rw w.frame (record {
            assignments = refl;
            decisions = refl;
            versions = refl;
            tours = refl;
            tour_sequence = refl;
            outbox = λ e t g h. h;
          })
        ])

  pub decide_connection-KeepsAssignments :
      (guide_os_id connection_id : String) (decision : ConnectionDecisionType)
      (decision_event_id : String) (decided_at : Option String)
      → KeepsAssignments db
          (decide_connection env guide_os_id connection_id decision decision_event_id decided_at
            before db).1
  unfolding decide_connection
  decide_connection-KeepsAssignments guide_os_id connection_id decision decision_event_id
        decided_at =
      submit_rule (connection_operation env) (KeepsAssignments db) env.busy _ db
        (KeepsAssignments-refl db)
        (λ w a db' planned e. elim (connection_effect env w db db' a e) [
          | inl (same, _) ↦ rw same (KeepsAssignments-refl db)
          | inr (row, d, _) ↦ rw d.frame (record {
            assignments = refl;
            decisions = refl;
            versions = refl;
            tours = refl;
            tour_sequence = refl;
            outbox = Extends-cons _ db.outbox d.unsent;
          })
        ])

  pub receive_assignment_offer-KeepsConnections :
      (event : AssignmentOfferIntake)
      → KeepsConnections db (receive_assignment_offer env event before db).1
  unfolding receive_assignment_offer
  receive_assignment_offer-KeepsConnections event =
      submit_rule (offer_write env) (KeepsConnections db) env.busy _ db (KeepsConnections-refl db)
        (λ (h, n) a db' planned e. elim (offer_effect env h n db db' a e) [
          | inl same ↦ rw same (KeepsConnections-refl db)
          | inr (w, _) ↦
              rw w.frame (record { connections = refl; decisions = refl; outbox = λ e t g h. h })
        ])

  pub decide_assignment-KeepsConnections :
      (guide_os_id assignment_id : String) (decision : AssignmentDecisionType)
      (decision_event_id : String) (decided_at : Option String)
      → KeepsConnections db
          (decide_assignment env guide_os_id assignment_id decision decision_event_id decided_at
            before db).1
  unfolding decide_assignment
  decide_assignment-KeepsConnections guide_os_id assignment_id decision decision_event_id
        decided_at =
      submit_rule (assignment_operation env) (KeepsConnections db) env.busy _ db
        (KeepsConnections-refl db)
        (λ w a db' planned e.
          outcome-KeepsConnections env w db db' a (assignment_effect env w db db' a e))

  pub apply_assignment_cancellation-KeepsConnections :
      (event : AssignmentCancellationIntake)
      → KeepsConnections db (apply_assignment_cancellation env event before db).1
  unfolding apply_assignment_cancellation
  apply_assignment_cancellation-KeepsConnections event =
      submit_rule (cancellation_write env) (KeepsConnections db) env.busy _ db
        (KeepsConnections-refl db)
        (λ (h, n) a db' planned e. elim (cancellation_effect env h n db db' a e) [
          | inl same ↦ rw same (KeepsConnections-refl db)
          | inr (row, w) ↦ rw w.frame (record {
            connections = refl;
            decisions = refl;
            outbox = Extends-cons _ db.outbox w.unsent;
          })
        ])

  pub apply_assignment_lifecycle_transition-KeepsConnections :
      (event : AssignmentLifecycleIntake)
      → KeepsConnections db (apply_assignment_lifecycle_transition env event before db).1
  unfolding apply_assignment_lifecycle_transition
  apply_assignment_lifecycle_transition-KeepsConnections event =
      submit_rule (transition_write env) (KeepsConnections db) env.busy _ db
        (KeepsConnections-refl db)
        (λ (h, n) a db' planned e. elim (transition_effect env h n db db' a e) [
          | inl same ↦ rw same (KeepsConnections-refl db)
          | inr (row, w) ↦
              rw w.frame (record { connections = refl; decisions = refl; outbox = λ e t g h. h })
        ])
