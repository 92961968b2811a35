-- ===== src/Workflow/Sponsor.antt =====
-- Every assignment stands under a connection that the guide has confirmed.
use mathlib.Core.Option
use guide_os.Prelude.{
  ◌+◌, String, eq_iff, ◌==◌, text_eq, ◌≡◌, sym, subst, ◌∙◌, inl, inr, Option, none, some, List, ◌∷◌,
  arith, Bool-cases, or_else, true,
}
use guide_os.Platform.{Platform}
use guide_os.Database.{
  Db, Assignment, Connection, ConnectionStatus, AssignmentDecisionType, confirmed, disconnected,
  find, modify, find-cons, find-modify,
}
use guide_os.Database.Write.{submit_rule}
use guide_os.Connection.Intake.{connection_key}
use guide_os.Connection.Lifecycle.{Evolves, Leads}
use guide_os.Assignment.Intake.{
  AssignmentOfferIntake, AssignmentCancellationIntake, AssignmentLifecycleIntake, NormalizedOffer,
}
use guide_os.Assignment.Store.{assignment_key}
use guide_os.Assignment.Offer.{
  offered_row, is_open_connection, offer_write, receive_assignment_offer,
}
use guide_os.Assignment.Decide.{
  AssignmentDecisionWrite, AssignmentDecisionResult, apply_decision, decision_operation,
  decide_assignment,
}
use guide_os.Assignment.Cancel.{cancel_row, cancellation_write, apply_assignment_cancellation}
use guide_os.Assignment.Transition.{
  close_offer, transition_write, apply_assignment_lifecycle_transition,
}
use guide_os.Assignment.Effects.{
  Outcome, offer_effect, decision_effect, cancellation_effect, transition_effect,
}
use guide_os.Assignment.Lifecycle.{
  Follows, apply_decision-Follows, cancel_row-Follows, close_offer-Follows,
}

-- The guide has confirmed the connection, and may have been disconnected since.
abbrev pub WasConfirmed : ConnectionStatus → Type 0
WasConfirmed confirmed = Unit
WasConfirmed disconnected = Unit
WasConfirmed _ = ⊥

-- The row's connection: of the same guide and company, and confirmed.
abbrev pub IsSponsor : Assignment → Option Connection → Type 0
IsSponsor a none = ⊥
IsSponsor a (some c) =
    (c.guide_os_id ≡ a.guide_os_id) × (c.company_id ≡ a.company_id) × WasConfirmed c.status

abbrev pub Sponsored : List Connection → Option Assignment → Type 0
Sponsored connections none = Unit
Sponsored connections (some a) = IsSponsor a (find connection_key a.guide_connection_id connections)

abbrev pub AreSponsored : List Connection → List Assignment → Type 0
AreSponsored connections rows = (k : String) → Sponsored connections (find assignment_key k rows)

WasConfirmed-Leads : (s t : ConnectionStatus) → Leads s t → WasConfirmed s → WasConfirmed t
WasConfirmed-Leads confirmed confirmed e h = tt
WasConfirmed-Leads confirmed disconnected e h = tt
WasConfirmed-Leads disconnected disconnected e h = tt
WasConfirmed-Leads s t e h = ground arith

-- A connection that evolves goes on sponsoring.
IsSponsor-Evolves :
    (a : Assignment) (c d : Option Connection) → Evolves c d → IsSponsor a c → IsSponsor a d
IsSponsor-Evolves a (some c) (some d) e (guide, company, was) =
    (e.guide ∙ guide, e.company ∙ company, WasConfirmed-Leads c.status d.status e.leads was)
IsSponsor-Evolves a none d e h = absurd h
IsSponsor-Evolves a (some c) none e h = absurd e

pub Sponsored-Evolves :
    (connections connections' : List Connection) (a : Option Assignment)
    → ((k : String)
        → Evolves (find connection_key k connections) (find connection_key k connections'))
    → Sponsored connections a
    → Sponsored connections' a
Sponsored-Evolves connections connections' none e h = tt
Sponsored-Evolves connections connections' (some a) e h =
    IsSponsor-Evolves a (find connection_key a.guide_connection_id connections)
      (find connection_key a.guide_connection_id connections') (e a.guide_connection_id) h

Sponsored-map :
    (connections : List Connection) (f : Assignment → Assignment) (a : Option Assignment)
    → ((r : Assignment) → Follows r (f r))
    → Sponsored connections a
    → Sponsored connections (Option.map f a)
Sponsored-map connections f none follows h = tt
Sponsored-map connections f (some a) follows h =
    subst (λ id. IsSponsor (f a) (find connection_key id connections)) (sym (follows a).connection)
      (moved (find connection_key a.guide_connection_id connections) h)
  where
    moved : (c : Option Connection) → IsSponsor a c → IsSponsor (f a) c
    moved none h = h
    moved (some c) (guide, company, was) =
        (guide ∙ sym (follows a).guide, company ∙ sym (follows a).company, was)

modify-AreSponsored :
    (connections : List Connection) (id : String) (f : Assignment → Assignment)
    (rows : List Assignment)
    → ((r : Assignment) → assignment_key (f r) ≡ assignment_key r)
    → ((r : Assignment) → Follows r (f r))
    → AreSponsored connections rows
    → AreSponsored connections (modify assignment_key id f rows)
modify-AreSponsored connections id f rows same follows h k = elim (Bool-cases (id == k)) [
  | inl hit ↦
      rw (find-modify assignment_key id k f rows same, hit)
        (Sponsored-map connections f (find assignment_key k rows) follows (h k))
  | inr miss ↦ rw (find-modify assignment_key id k f rows same, miss) (h k)
]

cons-AreSponsored :
    (connections : List Connection) (a : Assignment) (rows : List Assignment)
    → Sponsored connections (some a)
    → AreSponsored connections rows
    → AreSponsored connections (a ∷ rows)
cons-AreSponsored connections a rows new h k = elim (Bool-cases (a.assignment_id == k)) [
  | inl hit ↦ rw (find-cons, hit) new
  | inr miss ↦ rw (find-cons, miss) (h k)
]

-- The transaction of an offer has read the connection again.
offered-IsSponsor :
    (n : NormalizedOffer) (at : String) (c : Option Connection)
    → is_open_connection n c ≡ true
    → IsSponsor (offered_row n at) c
offered-IsSponsor n at none h = ground arith
offered-IsSponsor n at (some c) h =
    ground (arith, eq_iff c.guide_os_id n.guide_os_id, eq_iff c.company_id n.company_id)

outcome-AreSponsored :
    (env : Platform) (w : AssignmentDecisionWrite) (db db' : Db) (a : AssignmentDecisionResult)
    → Outcome env w db db' a
    → AreSponsored db.connections db.assignments
    → AreSponsored db'.connections db'.assignments
outcome-AreSponsored env w db db' a (Outcome.replay same again) h = rw same h
outcome-AreSponsored env w db db' a (Outcome.acceptance row accepts o free single d) h =
    rw d.frame (
      modify-AreSponsored db.connections w.assignment_id
        (apply_decision w (some (db.tour_sequence + 1))) db.assignments (λ r. ground arith)
        (apply_decision-Follows w (some (db.tour_sequence + 1))) h)
outcome-AreSponsored env w db db' a (Outcome.refusal row declines o d) h = rw d.frame (
    modify-AreSponsored db.connections w.assignment_id (apply_decision w none) db.assignments
      (λ r. ground arith) (apply_decision-Follows w none) h)

abbrev pub AreSponsoredIn : Db → Type 0
AreSponsoredIn db = AreSponsored db.connections db.assignments

module _ (env : Platform) (before db : Db) (h : AreSponsored db.connections db.assignments) where
  -- If every assignment stands under a connection of its guide and company that was confirmed, then
  -- so it is after `receive_assignment_offer`: the transaction reads the connection again.
  pub receive_assignment_offer-AreSponsored :
      (event : AssignmentOfferIntake)
      → AreSponsoredIn (receive_assignment_offer env event before db).1
  unfolding receive_assignment_offer
  receive_assignment_offer-AreSponsored event =
      submit_rule (offer_write env) AreSponsoredIn env.busy _ db h (λ (hash, n) a db' planned e.
        elim (offer_effect env hash n db db' a e) [
          | inl same ↦ rw same h
          | inr (w, _) ↦ rw w.frame (
              cons-AreSponsored db.connections (offered_row n (or_else n.offered_at env.utc_now))
                db.assignments
                (offered-IsSponsor n (or_else n.offered_at env.utc_now)
                  (find connection_key n.guide_connection_id db.connections) w.gate)
                h)
        ])

  pub decide_assignment-AreSponsored :
      (guide_os_id assignment_id : String) (decision : AssignmentDecisionType)
      (decision_event_id : String) (decided_at : Option String)
      → AreSponsoredIn
          (decide_assignment env guide_os_id assignment_id decision decision_event_id decided_at
            before db).1
  unfolding decide_assignment
  decide_assignment-AreSponsored guide_os_id assignment_id decision decision_event_id decided_at =
      submit_rule (decision_operation env) AreSponsoredIn env.busy _ db h (λ w a db' planned e.
        outcome-AreSponsored env w db db' a (decision_effect env w db db' a e) h)

  pub apply_assignment_cancellation-AreSponsored :
      (event : AssignmentCancellationIntake)
      → AreSponsoredIn (apply_assignment_cancellation env event before db).1
  unfolding apply_assignment_cancellation
  apply_assignment_cancellation-AreSponsored event =
      submit_rule (cancellation_write env) AreSponsoredIn env.busy _ db h
        (λ (hash, n) a db' planned e. elim (cancellation_effect env hash n db db' a e) [
          | inl same ↦ rw same h
          | inr (row, w) ↦ rw w.frame (
              modify-AreSponsored db.connections n.assignment_id (cancel_row n env.utc_now)
                db.assignments (λ r. ground arith) (cancel_row-Follows n env.utc_now) h)
        ])

  pub apply_assignment_lifecycle_transition-AreSponsored :
      (event : AssignmentLifecycleIntake)
      → AreSponsoredIn (apply_assignment_lifecycle_transition env event before db).1
  unfolding apply_assignment_lifecycle_transition
  apply_assignment_lifecycle_transition-AreSponsored event =
      submit_rule (transition_write env) AreSponsoredIn env.busy _ db h
        (λ (hash, n) a db' planned e. elim (transition_effect env hash n db db' a e) [
          | inl same ↦ rw same h
          | inr (row, w) ↦ rw w.frame (
              modify-AreSponsored db.connections n.assignment_id (close_offer n) db.assignments
                (λ r. ground arith) (close_offer-Follows n) h)
        ])
