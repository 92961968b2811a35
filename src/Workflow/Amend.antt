-- ===== src/Workflow/Amend.antt =====
-- A call on a published version amends one accepted row: which of the row's columns and of the
-- other tables every such call leaves alone, and what follows for the tables that must agree.
use guide_os.Prelude.{
  ℕ, String, eq_iff, eqb_iff, ◌==◌, text_eq, number_eq, false, ◌≡◌, sym, subst, ◌∙◌, inl, inr,
  Option, none, some, List, arith, Bool-cases, if◌then◌else◌,
}
use guide_os.Database.{Db, Assignment, Connection, Tour, accepted, find, modify, find-modify}
use guide_os.Connection.Intake.{connection_key}
use guide_os.Assignment.Store.{assignment_key, decided_assignment_key, tour_key}
use guide_os.Assignment.Ledger as AssignmentLedger
use guide_os.Assignment.Ledger.{Matches, IsReported}
use guide_os.Assignment.Projection.{
  IsProjected, Projected, Shows, ByStatus, accepted-Shows, Projected-tours,
}
use guide_os.Workflow.Frame.{Extends}
use guide_os.Workflow.Sound.{assignment-IsReported, IsAgreed, KeepsConnections-IsLedger}
use guide_os.Workflow.Sponsor.{AreSponsored, IsSponsor, Sponsored}

-- The row with one id becomes another row of the same guide, company and connection, in the same
-- state and with the same calendar entry; the rest of the tables stays, and no event is lost.
pub record Amends (id : String) (row row' : Assignment) (db db' : Db) : Type 0 where
  pub found : find assignment_key id db.assignments ≡ some row
  pub was_accepted : row.status ≡ accepted
  pub rows :
      (k : String)
      → find assignment_key k db'.assignments
        ≡ (if id == k then some row' else find assignment_key k db.assignments)
  pub status : row'.status ≡ row.status
  pub guide : row'.guide_os_id ≡ row.guide_os_id
  pub company : row'.company_id ≡ row.company_id
  pub connection : row'.guide_connection_id ≡ row.guide_connection_id
  pub link : row'.projection_tour_id ≡ row.projection_tour_id
  pub connections : db'.connections ≡ db.connections
  pub connection_decisions : db'.connection_decisions ≡ db.connection_decisions
  pub decisions : db'.decisions ≡ db.decisions
  pub tour_sequence : db'.tour_sequence ≡ db.tour_sequence
  pub outbox : Extends db.outbox db'.outbox

-- The rows after an UPDATE of the one with this id.
pub amended_rows :
    (id : String) (f : Assignment → Assignment) (row row' : Assignment) (rows : List Assignment)
    → ((r : Assignment) → assignment_key (f r) ≡ assignment_key r)
    → find assignment_key id rows ≡ some row
    → f row ≡ row'
    → (k : String)
    → find assignment_key k (modify assignment_key id f rows)
      ≡ (if id == k then some row' else find assignment_key k rows)
amended_rows id f row row' rows same found becomes k =
    ground (arith, find-modify assignment_key id k f rows same, eq_iff id k)

-- The sponsor of a row is that of the row it becomes.
amended-IsSponsor :
    (id : String) (row row' : Assignment) (db db' : Db)
    → Amends id row row' db db'
    → (c : Option Connection) → IsSponsor row c
    → IsSponsor row' c
amended-IsSponsor id row row' db db' m none h = h
amended-IsSponsor id row row' db db' m (some c) (guide, company, was) =
    (guide ∙ sym m.guide, company ∙ sym m.company, was)

module _ (id : String) (row row' : Assignment) (db db' : Db) (m : Amends id row row' db db') where
  pub amended-AreSponsored :
      AreSponsored db.connections db.assignments → AreSponsored db'.connections db'.assignments
  amended-AreSponsored h k =
      rw (m.connections, m.rows k)
        (elim (Bool-cases (id == k)) [
          | inl hit ↦ rw hit (
              rw m.connection (
                amended-IsSponsor id row row' db db' m
                  (find connection_key row.guide_connection_id db.connections)
                  (subst (Sponsored db.connections) m.found (h id))))
          | inr miss ↦ rw miss (h k)
        ])

  amended-Matches :
      (k : String)
      → Matches (find assignment_key k db.assignments) (find decided_assignment_key k db.decisions)
      → Matches
          (if id == k then some row' else find assignment_key k db.assignments)
          (find decided_assignment_key k db.decisions)
  amended-Matches k h = ground (arith, m.found, m.status, eq_iff id k)

  pub amended-IsLedger : AssignmentLedger.IsLedger db → AssignmentLedger.IsLedger db'
  amended-IsLedger led = record {
    agrees = λ k. rw (m.rows k, m.decisions) (amended-Matches k (led.agrees k));
    reported = λ k. rw m.decisions (
        assignment-IsReported k (find decided_assignment_key k db.decisions) db.outbox db'.outbox
          m.outbox (led.reported k));
  }

  amended-at :
      (tours : List Tour) (k : String)
      → Shows id row' tours
      → (id == k ≡ false → Projected k (find assignment_key k db.assignments) tours)
      → Projected k (if id == k then some row' else find assignment_key k db.assignments) tours
  amended-at tours k here other = elim (Bool-cases (id == k)) [
    | inl hit ↦ rw hit (
        subst (λ s. ByStatus k row' s tours) (sym (m.status ∙ m.was_accepted))
          (subst (λ j. Shows j row' tours) ((eq_iff id k).0 hit) here))
    | inr miss ↦ rw miss (other miss)
  ]

  -- The calendar is as it was, and so are the dates of the row.
  pub amended-IsProjected :
      db'.tours ≡ db.tours
      → row'.start_date ≡ row.start_date
      → row'.end_date ≡ row.end_date
      → IsProjected db
      → IsProjected db'
  amended-IsProjected tours starts ends p =
      let s : Shows id row db.tours = accepted-Shows id row db m.was_accepted m.found p in
      record {
        rows = λ k.
            rw (m.rows k, tours)
              (amended-at db.tours k
                (record {
                  id = s.id;
                  tour = s.tour;
                  linked = m.link ∙ s.linked;
                  present = s.present;
                  protected = s.protected;
                  owner = s.owner;
                  starts = s.starts ∙ sym starts;
                  ends = s.ends ∙ sym ends;
                })
                (λ miss. p.rows k));
        numbered = rw (tours, m.tour_sequence) p.numbered;
      }

  -- The entry of another assignment is another entry, which an UPDATE of this one leaves alone.
  other_kept :
      (t : ℕ) (g : Tour → Tour) (k : String)
      → ((r : Tour) → tour_key (g r) ≡ tour_key r)
      → row.projection_tour_id ≡ some t
      → Shows id row db.tours
      → id == k ≡ false
      → (j : ℕ) (tour : Tour) → find tour_key j db.tours ≡ some tour
      → tour.tour_group_id ≡ some k
      → find tour_key j (modify tour_key t g db.tours) ≡ some tour
  other_kept t g k same linked s miss j tour present own = ground (
    arith,
    find-modify tour_key t j g db.tours same,
    eqb_iff t j,
    eq_iff id k,
    s.linked,
    s.present,
    s.owner,
  )

  -- The entry of the row is rewritten, and shows the dates that the row has now.
  pub rescheduled-IsProjected :
      (t : ℕ) (g : Tour → Tour)
      → ((r : Tour) → tour_key (g r) ≡ tour_key r)
      → ((r : Tour) → (g r).source ≡ r.source)
      → ((r : Tour) → (g r).tour_group_id ≡ r.tour_group_id)
      → row.projection_tour_id ≡ some t
      → ((r : Tour)
          → r.start_date ≡ row.start_date
          → r.end_date ≡ row.end_date
          → ((g r).start_date ≡ row'.start_date) × ((g r).end_date ≡ row'.end_date))
      → db'.tours ≡ modify tour_key t g db.tours
      → IsProjected db
      → IsProjected db'
  rescheduled-IsProjected t g same source group linked dated tours p =
      let s : Shows id row db.tours = accepted-Shows id row db m.was_accepted m.found p in
      record {
        rows = λ k.
            rw (m.rows k, tours)
              (amended-at (modify tour_key t g db.tours) k
                (record {
                  id = t;
                  tour = g s.tour;
                  linked = m.link ∙ linked;
                  present = ground (
                    arith,
                    find-modify tour_key t t g db.tours same,
                    eqb_iff t t,
                    s.linked,
                    s.present,
                  );
                  protected = source s.tour ∙ s.protected;
                  owner = group s.tour ∙ s.owner;
                  starts = (dated s.tour s.starts s.ends).0;
                  ends = (dated s.tour s.starts s.ends).1;
                })
                (λ miss.
                  Projected-tours k (find assignment_key k db.assignments) db.tours
                    (modify tour_key t g db.tours)
                    (λ j entry found own protected.
                      other_kept t g k same linked s miss j entry found own)
                    (p.rows k)));
        numbered =
            rw (tours, m.tour_sequence)
              (λ j above. ground (arith, find-modify tour_key t j g db.tours same, p.numbered j));
      }

  -- With the calendar in agreement, so is the rest.
  pub amended-IsAgreed : (IsProjected db → IsProjected db') → IsAgreed db → IsAgreed db'
  amended-IsAgreed projects g = record {
    connections =
        KeepsConnections-IsLedger db db'
          (record {
            connections = m.connections;
            decisions = m.connection_decisions;
            outbox = m.outbox;
          })
          g.connections;
    assignments = amended-IsLedger g.assignments;
    projected = projects g.projected;
    sponsored = amended-AreSponsored g.sponsored;
  }
