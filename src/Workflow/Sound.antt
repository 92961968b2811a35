-- ===== src/Workflow/Sound.antt =====
-- What every sequence of calls keeps, both services together.
use guide_os.Prelude.{String, text_eq, number_eq, none, some, Option, List, [], ◌∷◌}
use guide_os.Platform.{Platform}
use guide_os.Database.{Db, ConnectionDecision, AssignmentDecision, Outbox, find}
use guide_os.Connection.Intake.{decided_connection_key}
use guide_os.Connection.Lifecycle as ConnectionLifecycle
use guide_os.Connection.Ledger as ConnectionLedger
use guide_os.Assignment.Ledger as AssignmentLedger
use guide_os.Assignment.Store.{assignment_key, decided_assignment_key}
use guide_os.Assignment.Projection.{IsProjected}
use guide_os.Assignment.Protected
use guide_os.Workflow.Frame
use guide_os.Workflow.Sponsor
use guide_os.Workflow.Disjoint
use guide_os.Workflow.{
  Call, invitation, disconnect, connection_decision, offer, assignment_decision, cancellation,
  transition, perform, run,
}
use guide_os.Workflow.Frame.{Extends, KeepsAssignments, KeepsConnections}
use guide_os.Workflow.Sponsor.{AreSponsored, Sponsored-Evolves}
use guide_os.Workflow.Disjoint.{IsDisjoint}

-- Each table agrees with the others.
pub record IsAgreed (db : Db) : Type 0 where
  pub connections : ConnectionLedger.IsLedger db
  pub assignments : AssignmentLedger.IsLedger db
  pub projected : IsProjected db
  pub sponsored : AreSponsored db.connections db.assignments

-- And no two calendar entries of a guide share a day.
pub record IsSound (db : Db) : Type 0 where
  pub agreed : IsAgreed db
  pub disjoint : IsDisjoint db.tours

connection-IsReported :
    (k : String) (d : Option ConnectionDecision) (outbox outbox' : List Outbox)
    → Extends outbox outbox'
    → ConnectionLedger.IsReported k d outbox
    → ConnectionLedger.IsReported k d outbox'
connection-IsReported k none outbox outbox' e h = tt
connection-IsReported k (some d) outbox outbox' e h =
    e d.decision_event_id "guide_connection.decided.v1" k h

pub assignment-IsReported :
    (k : String) (d : Option AssignmentDecision) (outbox outbox' : List Outbox)
    → Extends outbox outbox'
    → AssignmentLedger.IsReported k d outbox
    → AssignmentLedger.IsReported k d outbox'
assignment-IsReported k none outbox outbox' e h = tt
assignment-IsReported k (some d) outbox outbox' e h =
    e d.decision_event_id "assignment.decision.v1" k h

-- A call of the one service, seen from the tables of the other.
pub KeepsConnections-IsLedger :
    (db db' : Db)
    → KeepsConnections db db'
    → ConnectionLedger.IsLedger db
    → ConnectionLedger.IsLedger db'
KeepsConnections-IsLedger db db' keeps led = record {
  agrees = λ k. rw (keeps.connections, keeps.decisions) (led.agrees k);
  reported = λ k. rw keeps.decisions (
      connection-IsReported k (find decided_connection_key k db.connection_decisions) db.outbox
        db'.outbox keeps.outbox (led.reported k));
}

KeepsAssignments-IsLedger :
    (db db' : Db)
    → KeepsAssignments db db'
    → AssignmentLedger.IsLedger db
    → AssignmentLedger.IsLedger db'
KeepsAssignments-IsLedger db db' keeps led = record {
  agrees = λ k. rw (keeps.assignments, keeps.decisions) (led.agrees k);
  reported = λ k. rw keeps.decisions (
      assignment-IsReported k (find decided_assignment_key k db.decisions) db.outbox db'.outbox
        keeps.outbox (led.reported k));
}

KeepsAssignments-IsProjected :
    (db db' : Db) → KeepsAssignments db db' → IsProjected db → IsProjected db'
KeepsAssignments-IsProjected db db' keeps p = record {
  rows = λ k. rw (keeps.assignments, keeps.tours) (p.rows k);
  numbered = rw (keeps.tours, keeps.tour_sequence) p.numbered;
}

-- What is left to show of a call of the connection service.
connection-IsAgreed :
    (db db' : Db)
    → IsAgreed db
    → ConnectionLedger.IsLedger db'
    → ConnectionLifecycle.Continues db db'
    → KeepsAssignments db db'
    → IsAgreed db'
connection-IsAgreed db db' s ledger continues keeps = record {
  connections = ledger;
  assignments = KeepsAssignments-IsLedger db db' keeps s.assignments;
  projected = KeepsAssignments-IsProjected db db' keeps s.projected;
  sponsored = rw keeps.assignments (λ k.
      Sponsored-Evolves db.connections db'.connections (find assignment_key k db.assignments)
        continues (s.sponsored k));
}

-- One call, of either service, keeps the tables in agreement.
pub perform-IsAgreed :
    (env : Platform) (call : Call) (before db : Db)
    → IsAgreed db
    → IsAgreed (perform env call before db)
perform-IsAgreed env (invitation event) before db s =
    connection-IsAgreed db _ s
      (ConnectionLedger.receive_connection_invitation-IsLedger env before db s.connections event)
      (ConnectionLifecycle.receive_connection_invitation-Continues env before db event)
      (Frame.receive_connection_invitation-KeepsAssignments env before db event)
perform-IsAgreed env (disconnect event) before db s =
    connection-IsAgreed db _ s
      (ConnectionLedger.receive_connection_disconnect-IsLedger env before db s.connections event)
      (ConnectionLifecycle.receive_connection_disconnect-Continues env before db event)
      (Frame.receive_connection_disconnect-KeepsAssignments env before db event)
perform-IsAgreed env (connection_decision guide connection decision event decided_at) before db s =
    connection-IsAgreed db _ s
      (ConnectionLedger.decide_connection-IsLedger env before db s.connections guide connection
        decision event decided_at)
      (ConnectionLifecycle.decide_connection-Continues env before db guide connection decision event
        decided_at)
      (Frame.decide_connection-KeepsAssignments env before db guide connection decision event
        decided_at)
perform-IsAgreed env (offer event) before db s = record {
  connections =
      KeepsConnections-IsLedger db _
        (Frame.receive_assignment_offer-KeepsConnections env before db event) s.connections;
  assignments =
      AssignmentLedger.receive_assignment_offer-IsLedger env before db s.assignments event;
  projected = Protected.receive_assignment_offer-IsProjected env before db s.projected event;
  sponsored = Sponsor.receive_assignment_offer-AreSponsored env before db s.sponsored event;
}
perform-IsAgreed env (assignment_decision guide assignment decision event decided_at) before db s =
    record {
      connections =
          KeepsConnections-IsLedger db _
            (Frame.decide_assignment-KeepsConnections env before db guide assignment decision event
              decided_at)
            s.connections;
      assignments =
          AssignmentLedger.decide_assignment-IsLedger env before db s.assignments guide assignment
            decision event decided_at;
      projected =
          Protected.decide_assignment-IsProjected env before db s.projected guide assignment
            decision event decided_at;
      sponsored =
          Sponsor.decide_assignment-AreSponsored env before db s.sponsored guide assignment decision
            event decided_at;
    }
perform-IsAgreed env (cancellation event) before db s = record {
  connections =
      KeepsConnections-IsLedger db _
        (Frame.apply_assignment_cancellation-KeepsConnections env before db event) s.connections;
  assignments =
      AssignmentLedger.apply_assignment_cancellation-IsLedger env before db s.assignments event;
  projected = Protected.apply_assignment_cancellation-IsProjected env before db s.projected event;
  sponsored = Sponsor.apply_assignment_cancellation-AreSponsored env before db s.sponsored event;
}
perform-IsAgreed env (transition event) before db s = record {
  connections =
      KeepsConnections-IsLedger db _
        (Frame.apply_assignment_lifecycle_transition-KeepsConnections env before db event)
        s.connections;
  assignments =
      AssignmentLedger.apply_assignment_lifecycle_transition-IsLedger env before db s.assignments
        event;
  projected =
      Protected.apply_assignment_lifecycle_transition-IsProjected env before db s.projected event;
  sponsored =
      Sponsor.apply_assignment_lifecycle_transition-AreSponsored env before db s.sponsored event;
}

perform-IsDisjoint :
    (env : Platform) (call : Call) (before db : Db)
    → IsDisjoint db.tours
    → IsDisjoint (perform env call before db).tours
perform-IsDisjoint env (invitation event) before db h =
    rw (Frame.receive_connection_invitation-KeepsAssignments env before db event).tours h
perform-IsDisjoint env (disconnect event) before db h =
    rw (Frame.receive_connection_disconnect-KeepsAssignments env before db event).tours h
perform-IsDisjoint env (connection_decision guide connection decision event decided_at) before db
      h =
    rw
      (Frame.decide_connection-KeepsAssignments env before db guide connection decision event
        decided_at).tours
      h
perform-IsDisjoint env (offer event) before db h =
    Disjoint.receive_assignment_offer-IsDisjoint env before db h event
perform-IsDisjoint env (assignment_decision guide assignment decision event decided_at) before db
      h =
    Disjoint.decide_assignment-IsDisjoint env before db h guide assignment decision event decided_at
perform-IsDisjoint env (cancellation event) before db h =
    Disjoint.apply_assignment_cancellation-IsDisjoint env before db h event
perform-IsDisjoint env (transition event) before db h =
    Disjoint.apply_assignment_lifecycle_transition-IsDisjoint env before db h event

-- One call, of either service, keeps all of it.
pub perform-IsSound :
    (env : Platform) (call : Call) (before db : Db)
    → IsSound db
    → IsSound (perform env call before db)
perform-IsSound env call before db s = record {
  agreed = perform-IsAgreed env call before db s.agreed;
  disjoint = perform-IsDisjoint env call before db s.disjoint;
}

-- Whatever calls are made, in whatever order, with whatever clocks, contention and stale reads,
-- tables that agree go on agreeing: connections, decisions and outbox; assignments, decisions and
-- outbox; accepted assignments and protected calendar entries; assignments and confirmed
-- connections; and no two entries of a guide share a day.
pub run-IsSound :
    (calls : List (Platform × Call × Db)) (db : Db) → IsSound db → IsSound (run calls db)
unfolding run
run-IsSound [] db s = s
run-IsSound ((env, call, before) ∷ calls) db s =
    run-IsSound calls (perform env call before db) (perform-IsSound env call before db s)
