-- ===== src/Workflow/Numbered.antt =====
-- Every call keeps the numbers of the versions in order.
use guide_os.Prelude.{
  ℕ, ◌+◌, String, eq_iff, eqb_iff, ◌==◌, text_eq, number_eq, ◌≡◌, refl, subst, inl, inr, Option,
  none, some, List, ◌∷◌, arith, Bool-cases, or_else,
}
use guide_os.Platform.{Platform}
use guide_os.Database.{
  Db, Assignment, AssignmentVersion, offered, critical, ordinary, find, modify, find-cons,
}
use guide_os.Assignment.Intake.{NormalizedOffer, AssignmentCancellationIntake, NormalizedTransition}
use guide_os.Assignment.Store.{assignment_key, find_version}
use guide_os.Assignment.Offer.{offered_row, offer_version}
use guide_os.Assignment.Decide.{AssignmentDecisionWrite, AssignmentDecisionResult, apply_decision}
use guide_os.Assignment.Cancel.{cancel_row}
use guide_os.Assignment.Transition.{close_offer}
use guide_os.Assignment.Effects.{Offers, Outcome, IsOpen, Decides, Cancels, Closes, projected}
use guide_os.Version.Intake.{PublishedVersion}
use guide_os.Version.Projection.{version_row}
use guide_os.Version.Acknowledge.{AcknowledgeWrite}
use guide_os.Version.Decision.{CriticalDecisionWrite, AssignmentCriticalVersionDecisionResult}
use guide_os.Version.Effects.{Publishes, Pends, Acknowledges, CriticalOutcome}
use guide_os.Workflow.Amend.{amended_rows}
use guide_os.Workflow.Revision.{
  published_row, pending_row, read_row, rejected_row, confirmed_row, Publishes-Amends, Pends-Amends,
  Acknowledges-Amends, Rejects-Amends, Confirms-Amends,
}
use guide_os.Workflow.Numbering.{
  IsNumbered, NumberedAt, IsVersioned, changed-IsVersioned, other_version, published_IsNumbered,
  pending_IsNumbered, confirmed_IsNumbered, read_IsNumbered, idle_unless_accepted, idle_IsNumbered,
  find_version-cons, NumberedAt-versions,
}

pub Publishes-IsVersioned :
    (env : Platform) (h : String) (n : PublishedVersion) (row : Assignment) (tour : ℕ) (db db' : Db)
    → Publishes env h n row tour db db'
    → IsVersioned db
    → IsVersioned db'
Publishes-IsVersioned env h n row tour db db' w v =
    changed-IsVersioned n.assignment_id row (published_row n env.utc_now row) db db' w.found
      (Publishes-Amends env h n row tour db db' w).rows
      (rw w.frame (
        published_IsNumbered env n row (version_row env ordinary n) db.versions w.next refl refl
          w.fresh))
      (λ k miss. rw w.frame (other_version k (version_row env ordinary n) db.versions miss)) v

pub Pends-IsVersioned :
    (env : Platform) (h : String) (n : PublishedVersion) (row : Assignment) (db db' : Db)
    → Pends env h n row db db'
    → IsVersioned db
    → IsVersioned db'
Pends-IsVersioned env h n row db db' w v =
    changed-IsVersioned n.assignment_id row (pending_row n env.utc_now row) db db' w.found
      (Pends-Amends env h n row db db' w).rows
      (rw w.frame (pending_IsNumbered env n row db.versions w.was_accepted w.next))
      (λ k miss. rw w.frame (other_version k (version_row env critical n) db.versions miss)) v

pub Acknowledges-IsVersioned :
    (env : Platform) (w : AcknowledgeWrite) (row : Assignment) (version : AssignmentVersion)
    (db db' : Db)
    → Acknowledges env w row version db db'
    → IsVersioned db
    → IsVersioned db'
Acknowledges-IsVersioned env w row version db db' d v =
    changed-IsVersioned w.assignment_id row (read_row env.utc_now row) db db' d.found
      (Acknowledges-Amends env w row version db db' d).rows
      (rw d.frame (read_IsNumbered w.assignment_id env.utc_now row db.versions))
      (λ k miss. rw d.frame (λ j. refl)) v

pub critical_outcome-IsVersioned :
    (env : Platform) (w : CriticalDecisionWrite) (db db' : Db)
    (a : AssignmentCriticalVersionDecisionResult)
    → CriticalOutcome env w db db' a
    → IsVersioned db
    → IsVersioned db'
critical_outcome-IsVersioned env w db db' a (CriticalOutcome.replay same again) v = rw same v
critical_outcome-IsVersioned env w db db' a (CriticalOutcome.rejection row tour rejects d answered)
      v =
    changed-IsVersioned w.assignment_id row (rejected_row w row) db db' d.awaited.found
      (Rejects-Amends env w row tour db db' d).rows
      (rw d.frame (idle_IsNumbered w.assignment_id row (rejected_row w row) db.versions refl refl))
      (λ k miss. rw d.frame (λ j. refl)) v
critical_outcome-IsVersioned env w db db' a
      (CriticalOutcome.confirmation row tour working_package proposed start_date end_date confirms d
        answered)
      v =
    changed-IsVersioned w.assignment_id row (confirmed_row w proposed.role start_date end_date row)
      db db' d.awaited.found
      (Confirms-Amends env w row tour working_package proposed start_date end_date db db' d).rows
      (rw d.frame (
        confirmed_IsNumbered w proposed.role start_date end_date row db.versions d.awaited.pending))
      (λ k miss. rw d.frame (λ j. refl)) v

offered-at :
    (env : Platform) (n : NormalizedOffer) (at : String) (versions : List AssignmentVersion)
    → ((m : ℕ) → find_version n.assignment_id m versions ≡ none)
    → IsNumbered n.assignment_id (offered_row n at) (offer_version env n at ∷ versions)
offered-at env n at versions unused = record {
  active = (
    offer_version env n at,
    ground (
      arith,
      find_version-cons n.assignment_id 1 (offer_version env n at) versions,
      eq_iff n.assignment_id n.assignment_id,
    ),
  );
  pending = tt;
  bounded = λ m above. ground (
    arith,
    find_version-cons n.assignment_id m (offer_version env n at) versions,
    eqb_iff 1 m,
    unused m,
  );
}

pub Offers-IsVersioned :
    (env : Platform) (h : String) (n : NormalizedOffer) (db db' : Db)
    → Offers env h n db db'
    → IsVersioned db
    → IsVersioned db'
Offers-IsVersioned env h n db db' w v k = rw w.frame (elim (Bool-cases (n.assignment_id == k)) [
  | inl hit ↦
      rw (find-cons, hit)
        (subst
          (λ j.
            IsNumbered j (offered_row n (or_else n.offered_at env.utc_now))
              (offer_version env n (or_else n.offered_at env.utc_now) ∷ db.versions))
          ((eq_iff n.assignment_id k).0 hit)
          (offered-at env n (or_else n.offered_at env.utc_now) db.versions
            (subst (λ a. NumberedAt n.assignment_id a db.versions) w.fresh (v n.assignment_id))))
  | inr miss ↦
      rw (find-cons, miss)
        (NumberedAt-versions k (find assignment_key k db.assignments) db.versions
          (offer_version env n (or_else n.offered_at env.utc_now) ∷ db.versions)
          (other_version k (offer_version env n (or_else n.offered_at env.utc_now)) db.versions
            miss)
          (v k))
])

-- An UPDATE of the row of one id that leaves it with its active version and nothing pending.
settled-IsVersioned :
    (id : String) (f : Assignment → Assignment) (row : Assignment) (db db' : Db)
    → find assignment_key id db.assignments ≡ some row
    → ((r : Assignment) → assignment_key (f r) ≡ assignment_key r)
    → db'.assignments ≡ modify assignment_key id f db.assignments
    → db'.versions ≡ db.versions
    → (f row).active_version_number ≡ row.active_version_number
    → (IsNumbered id row db.versions → (f row).pending_critical_version_number ≡ none)
    → IsVersioned db
    → IsVersioned db'
settled-IsVersioned id f row db db' found same rows versions active idle v =
    changed-IsVersioned id row (f row) db db' found
      (rw rows (amended_rows id f row (f row) db.assignments same found refl))
      (λ h. rw versions (idle_IsNumbered id row (f row) db.versions active (idle h) h))
      (λ k miss j. rw versions refl) v

-- An offer awaits no version.
offered_idle :
    (id : String) (row : Assignment) (versions : List AssignmentVersion)
    → row.status ≡ offered
    → IsNumbered id row versions
    → row.pending_critical_version_number ≡ none
offered_idle id row versions was_offered h =
    idle_unless_accepted id row versions (λ e. absurd (ground (arith, was_offered, e)))
      row.pending_critical_version_number h.pending

Decides-IsVersioned :
    (env : Platform) (w : AssignmentDecisionWrite) (t : Option ℕ) (row : Assignment) (db db' : Db)
    → IsOpen w row db
    → Decides env w t db db'
    → IsVersioned db
    → IsVersioned db'
Decides-IsVersioned env w t row db db' o d v =
    settled-IsVersioned w.assignment_id (apply_decision w t) row db db' o.found (λ r. ground arith)
      (rw d.frame refl) (rw d.frame refl) (ground arith)
      (λ h. ground (arith, offered_idle w.assignment_id row db.versions o.was_offered h)) v

pub outcome-IsVersioned :
    (env : Platform) (w : AssignmentDecisionWrite) (db db' : Db) (a : AssignmentDecisionResult)
    → Outcome env w db db' a
    → IsVersioned db
    → IsVersioned db'
outcome-IsVersioned env w db db' a (Outcome.replay same again) v = rw same v
outcome-IsVersioned env w db db' a (Outcome.acceptance row accepts o free single d) v =
    Decides-IsVersioned env w (some (db.tour_sequence + 1)) row (projected env w row db) db'
      (record { found = o.found; guide = o.guide; was_offered = o.was_offered }) d v
outcome-IsVersioned env w db db' a (Outcome.refusal row declines o d) v =
    Decides-IsVersioned env w none row db db' o d v

pub Closes-IsVersioned :
    (env : Platform) (h : String) (n : NormalizedTransition) (row : Assignment) (db db' : Db)
    → Closes env h n row db db'
    → IsVersioned db
    → IsVersioned db'
Closes-IsVersioned env h n row db db' w v =
    settled-IsVersioned n.assignment_id (close_offer n) row db db' w.found (λ r. ground arith)
      (rw w.frame refl) (rw w.frame refl) (ground arith)
      (λ g. ground (arith, offered_idle n.assignment_id row db.versions w.was_offered g)) v

pub Cancels-IsVersioned :
    (env : Platform) (h : String) (n : AssignmentCancellationIntake) (row : Assignment)
    (db db' : Db)
    → Cancels env h n row db db'
    → IsVersioned db
    → IsVersioned db'
Cancels-IsVersioned env h n row db db' w v =
    settled-IsVersioned n.assignment_id (cancel_row n env.utc_now) row db db' w.found
      (λ r. ground arith) (rw w.frame refl) (rw w.frame refl) (ground arith)
      (λ g. ground (arith, eq_iff row.guide_os_id n.guide_os_id, w.guide, w.was_accepted)) v
