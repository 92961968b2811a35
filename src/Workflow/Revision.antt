-- ===== src/Workflow/Revision.antt =====
-- Each call on a published version as an amendment of its row.
use guide_os.Prelude.{
  ℕ, String, eq_iff, eqb_iff, text_eq, number_eq, true, false, refl, none, some, arith,
}
use guide_os.Platform.{Platform}
use guide_os.Json.{Fields}
use guide_os.Database.{Db, Assignment, AssignmentVersion}
use guide_os.Assignment.Projection.{IsProjected}
use guide_os.Version.Intake.{PublishedVersion}
use guide_os.Version.Projection.{relabel, reschedule}
use guide_os.Version.Ordinary.{activate_ordinary, labels_of}
use guide_os.Version.Critical.{mark_pending}
use guide_os.Version.Acknowledge.{AcknowledgeWrite, mark_read}
use guide_os.Version.Decision.{
  CriticalDecisionWrite, ProposedOccupancy, clear_pending, activate_critical, critical_labels,
}
use guide_os.Version.Effects.{Publishes, Pends, Acknowledges, Rejects, Confirms}
use guide_os.Workflow.Frame.{Extends-cons}
use guide_os.Workflow.Amend.{Amends, amended_rows, rescheduled-IsProjected}

-- The rows that the calls leave.
abbrev pub published_row : PublishedVersion → String → Assignment → Assignment
published_row n received_at row = record row {
  active_version_number = n.version_number;
  active_version_unread = true;
  updated_at = received_at;
}

abbrev pub pending_row : PublishedVersion → String → Assignment → Assignment
pending_row n received_at row = record row {
  pending_critical_version_number = some n.version_number;
  updated_at = received_at;
}

abbrev pub read_row : String → Assignment → Assignment
read_row received_at row = record row { active_version_unread = false; updated_at = received_at }

abbrev pub rejected_row : CriticalDecisionWrite → Assignment → Assignment
rejected_row w row = record row {
  pending_critical_version_number = none;
  updated_at = w.decided_at;
}

abbrev pub confirmed_row : CriticalDecisionWrite → String → ℕ → ℕ → Assignment → Assignment
confirmed_row w role start_date end_date row = record row {
  active_version_number = w.version_number;
  role = role;
  start_date = start_date;
  end_date = end_date;
  pending_critical_version_number = none;
  active_version_unread = false;
  updated_at = w.decided_at;
}

pub Publishes-Amends :
    (env : Platform) (h : String) (n : PublishedVersion) (row : Assignment) (tour : ℕ) (db db' : Db)
    → Publishes env h n row tour db db'
    → Amends n.assignment_id row (published_row n env.utc_now row) db db'
Publishes-Amends env h n row tour db db' w = rw w.frame (record {
  found = w.found;
  was_accepted = w.was_accepted;
  rows =
      amended_rows n.assignment_id (activate_ordinary n env.utc_now) row
        (published_row n env.utc_now row) db.assignments (λ r. ground arith) w.found
        (ground (
          arith,
          eq_iff row.guide_os_id n.guide_os_id,
          eqb_iff row.active_version_number n.previous_active,
          w.guide,
          w.was_accepted,
          w.previous,
        ));
  status = refl;
  guide = refl;
  company = refl;
  connection = refl;
  link = refl;
  connections = refl;
  connection_decisions = refl;
  decisions = refl;
  tour_sequence = refl;
  outbox = Extends-cons _ db.outbox w.unsent;
})

pub Pends-Amends :
    (env : Platform) (h : String) (n : PublishedVersion) (row : Assignment) (db db' : Db)
    → Pends env h n row db db'
    → Amends n.assignment_id row (pending_row n env.utc_now row) db db'
Pends-Amends env h n row db db' w = rw w.frame (record {
  found = w.found;
  was_accepted = w.was_accepted;
  rows =
      amended_rows n.assignment_id (mark_pending n env.utc_now) row (pending_row n env.utc_now row)
        db.assignments (λ r. ground arith) w.found
        (ground (
          arith,
          eq_iff row.guide_os_id n.guide_os_id,
          eqb_iff row.active_version_number n.previous_active,
          w.guide,
          w.was_accepted,
          w.previous,
          w.idle,
        ));
  status = refl;
  guide = refl;
  company = refl;
  connection = refl;
  link = refl;
  connections = refl;
  connection_decisions = refl;
  decisions = refl;
  tour_sequence = refl;
  outbox = Extends-cons _ db.outbox w.unsent;
})

pub Acknowledges-Amends :
    (env : Platform) (w : AcknowledgeWrite) (row : Assignment) (version : AssignmentVersion)
    (db db' : Db)
    → Acknowledges env w row version db db'
    → Amends w.assignment_id row (read_row env.utc_now row) db db'
Acknowledges-Amends env w row version db db' d = rw d.frame (record {
  found = d.found;
  was_accepted = d.was_accepted;
  rows =
      amended_rows w.assignment_id (mark_read w env.utc_now) row (read_row env.utc_now row)
        db.assignments (λ r. ground arith) d.found
        (ground (
          arith,
          eq_iff row.guide_os_id w.identity,
          eqb_iff row.active_version_number w.version_number,
          d.guide,
          d.was_accepted,
          d.active,
          d.unread,
        ));
  status = refl;
  guide = refl;
  company = refl;
  connection = refl;
  link = refl;
  connections = refl;
  connection_decisions = refl;
  decisions = refl;
  tour_sequence = refl;
  outbox = Extends-cons _ db.outbox d.unsent;
})

pub Rejects-Amends :
    (env : Platform) (w : CriticalDecisionWrite) (row : Assignment) (tour : ℕ) (db db' : Db)
    → Rejects env w row tour db db'
    → Amends w.assignment_id row (rejected_row w row) db db'
Rejects-Amends env w row tour db db' d = rw d.frame (record {
  found = d.awaited.found;
  was_accepted = d.awaited.was_accepted;
  rows =
      amended_rows w.assignment_id (clear_pending w) row (rejected_row w row) db.assignments
        (λ r. ground arith) d.awaited.found
        (ground (
          arith,
          eq_iff row.guide_os_id w.identity,
          eqb_iff w.version_number w.version_number,
          d.awaited.guide,
          d.awaited.was_accepted,
          d.awaited.pending,
        ));
  status = refl;
  guide = refl;
  company = refl;
  connection = refl;
  link = refl;
  connections = refl;
  connection_decisions = refl;
  decisions = refl;
  tour_sequence = refl;
  outbox = Extends-cons _ db.outbox d.unsent;
})

pub Confirms-Amends :
    (env : Platform) (w : CriticalDecisionWrite) (row : Assignment) (tour : ℕ)
    (working_package : Fields) (proposed : ProposedOccupancy) (start_date end_date : ℕ)
    (db db' : Db)
    → Confirms env w row tour working_package proposed start_date end_date db db'
    → Amends w.assignment_id row (confirmed_row w proposed.role start_date end_date row) db db'
Confirms-Amends env w row tour working_package proposed start_date end_date db db' d =
    rw d.frame (record {
      found = d.awaited.found;
      was_accepted = d.awaited.was_accepted;
      rows =
          amended_rows w.assignment_id
            (activate_critical w proposed.role start_date end_date row.active_version_number) row
            (confirmed_row w proposed.role start_date end_date row) db.assignments
            (λ r. ground arith) d.awaited.found
            (ground (
              arith,
              eq_iff row.guide_os_id w.identity,
              eqb_iff w.version_number w.version_number,
              eqb_iff row.active_version_number row.active_version_number,
              d.awaited.guide,
              d.awaited.was_accepted,
              d.awaited.pending,
            ));
      status = refl;
      guide = refl;
      company = refl;
      connection = refl;
      link = refl;
      connections = refl;
      connection_decisions = refl;
      decisions = refl;
      tour_sequence = refl;
      outbox = Extends-cons _ db.outbox d.unsent;
    })

pub Publishes-IsProjected :
    (env : Platform) (h : String) (n : PublishedVersion) (row : Assignment) (tour : ℕ) (db db' : Db)
    → Publishes env h n row tour db db'
    → IsProjected db
    → IsProjected db'
Publishes-IsProjected env h n row tour db db' w p =
    rescheduled-IsProjected n.assignment_id row (published_row n env.utc_now row) db db'
      (Publishes-Amends env h n row tour db db' w) tour (relabel (labels_of env row n)) (λ r. refl)
      (λ r. refl) (λ r. refl) w.linked (λ r starts ends. (starts, ends)) (rw w.frame refl) p

pub Confirms-IsProjected :
    (env : Platform) (w : CriticalDecisionWrite) (row : Assignment) (tour : ℕ)
    (working_package : Fields) (proposed : ProposedOccupancy) (start_date end_date : ℕ)
    (db db' : Db)
    → Confirms env w row tour working_package proposed start_date end_date db db'
    → IsProjected db
    → IsProjected db'
Confirms-IsProjected env w row tour working_package proposed start_date end_date db db' d p =
    rescheduled-IsProjected w.assignment_id row
      (confirmed_row w proposed.role start_date end_date row) db db'
      (Confirms-Amends env w row tour working_package proposed start_date end_date db db' d) tour
      (reschedule (critical_labels env row working_package) start_date end_date) (λ r. refl)
      (λ r. refl) (λ r. refl) d.linked (λ r starts ends. (refl, refl)) (rw d.frame refl) p
