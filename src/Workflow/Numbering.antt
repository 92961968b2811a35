-- ===== src/Workflow/Numbering.antt =====
-- The numbers of an assignment's versions: the active one has its snapshot, a pending one is the
-- critical snapshot that comes next, and there is none beyond.
use guide_os.Prelude.{
  ℕ, suc, ◌<◌, String, eq_iff, eqb_iff, ◌==◌, text_eq, number_eq, false, ◌≡◌, ◌≢◌, refl, subst, ◌∙◌,
  inl, inr, Option, none, some, List, ◌∷◌, arith, Bool-cases, if◌then◌else◌, ◌&&◌,
}
use guide_os.Platform.{Platform}
use guide_os.Database.{Db, Assignment, AssignmentVersion, accepted, critical, find}
use guide_os.Assignment.Store.{assignment_key, find_version}
use guide_os.Version.Intake.{PublishedVersion}
use guide_os.Version.Projection.{version_row}
use guide_os.Version.Decision.{CriticalDecisionWrite}
use guide_os.Workflow.Revision.{published_row, pending_row, read_row, confirmed_row}

-- A stored snapshot.
abbrev pub IsStored : String → ℕ → List AssignmentVersion → Type 0
IsStored k number versions = (v : AssignmentVersion) × (find_version k number versions ≡ some v)

-- The pending version of a row: the next one, critical, of an accepted assignment.
abbrev pub IsNext : String → Assignment → Option ℕ → List AssignmentVersion → Type 0
IsNext k a none versions = Unit
IsNext k a (some p) versions =
    (a.status ≡ accepted)
    × (p ≡ suc a.active_version_number)
    × ((v : AssignmentVersion) × (find_version k p versions ≡ some v) × (v.severity ≡ critical))

pub record IsNumbered (k : String) (a : Assignment) (versions : List AssignmentVersion)
    : Type 0 where
  pub active : IsStored k a.active_version_number versions
  pub pending : IsNext k a a.pending_critical_version_number versions
  pub bounded : (m : ℕ) → suc a.active_version_number < m → find_version k m versions ≡ none

abbrev pub NumberedAt : String → Option Assignment → List AssignmentVersion → Type 0
NumberedAt k none versions = (m : ℕ) → find_version k m versions ≡ none
NumberedAt k (some a) versions = IsNumbered k a versions

abbrev pub IsVersioned : Db → Type 0
IsVersioned db = (k : String) → NumberedAt k (find assignment_key k db.assignments) db.versions

pub find_version-cons :
    (k : String) (m : ℕ) (v : AssignmentVersion) (versions : List AssignmentVersion)
    → find_version k m (v ∷ versions) ≡ (
        if (v.assignment_id == k) && (v.version_number == m)
        then some v
        else find_version k m versions)
unfolding find_version
find_version-cons k m v versions = refl

-- A snapshot of another assignment changes nothing here.
pub other_version :
    (k : String) (v : AssignmentVersion) (versions : List AssignmentVersion)
    → v.assignment_id == k ≡ false
    → (m : ℕ) → find_version k m (v ∷ versions) ≡ find_version k m versions
other_version k v versions miss m = ground (arith, find_version-cons k m v versions)

-- What is known of a row depends on the snapshots that are found under its id alone.
pub NumberedAt-versions :
    (k : String) (a : Option Assignment) (versions versions' : List AssignmentVersion)
    → ((m : ℕ) → find_version k m versions' ≡ find_version k m versions)
    → NumberedAt k a versions
    → NumberedAt k a versions'
NumberedAt-versions k none versions versions' same h = λ m. same m ∙ h m
NumberedAt-versions k (some a) versions versions' same h = record {
  active = (h.active.0, same a.active_version_number ∙ h.active.1);
  pending = next a.pending_critical_version_number h.pending;
  bounded = λ m above. same m ∙ h.bounded m above;
}
  where
    next : (p : Option ℕ) → IsNext k a p versions → IsNext k a p versions'
    next none h = tt
    next (some p) (status, number, (v, stored, severity)) =
        (status, number, (v, same p ∙ stored, severity))

-- The row of one id is changed: the others keep their numbers when the new snapshots are its own.
pub changed-IsVersioned :
    (id : String) (row row' : Assignment) (db db' : Db)
    → find assignment_key id db.assignments ≡ some row
    → ((k : String)
        → find assignment_key k db'.assignments
          ≡ (if id == k then some row' else find assignment_key k db.assignments))
    → (IsNumbered id row db.versions → IsNumbered id row' db'.versions)
    → ((k : String)
        → id == k ≡ false
        → (j : ℕ) → find_version k j db'.versions ≡ find_version k j db.versions)
    → IsVersioned db
    → IsVersioned db'
changed-IsVersioned id row row' db db' found rows here other h k =
    rw (rows k) (elim (Bool-cases (id == k)) [
      | inl hit ↦ rw hit (
          subst (λ j. IsNumbered j row' db'.versions) ((eq_iff id k).0 hit)
            (here (subst (λ a. NumberedAt id a db.versions) found (h id))))
      | inr miss ↦ rw miss (
          NumberedAt-versions k (find assignment_key k db.assignments) db.versions db'.versions
            (other k miss) (h k))
    ])

-- Nothing is pending when the next number has no snapshot.
idle_without_next :
    (k : String) (a : Assignment) (versions : List AssignmentVersion)
    → find_version k (suc a.active_version_number) versions ≡ none
    → (p : Option ℕ) → IsNext k a p versions
    → p ≡ none
idle_without_next k a versions fresh none h = refl
idle_without_next k a versions fresh (some p) (status, number, (v, stored, severity)) =
    absurd (ground (arith, number, stored, fresh))

pub published_IsNumbered :
    (env : Platform) (n : PublishedVersion) (row : Assignment) (v : AssignmentVersion)
    (versions : List AssignmentVersion)
    → n.version_number ≡ suc row.active_version_number
    → v.assignment_id ≡ n.assignment_id
    → v.version_number ≡ n.version_number
    → find_version n.assignment_id n.version_number versions ≡ none
    → IsNumbered n.assignment_id row versions
    → IsNumbered n.assignment_id (published_row n env.utc_now row) (v ∷ versions)
published_IsNumbered env n row v versions next owned numbered fresh h = record {
  active = (
    v,
    ground (
      arith,
      find_version-cons n.assignment_id n.version_number v versions,
      eq_iff v.assignment_id n.assignment_id,
      eqb_iff v.version_number n.version_number,
    ),
  );
  pending =
      rw
        (idle_without_next n.assignment_id row versions (rw next at fresh)
          row.pending_critical_version_number h.pending)
        tt;
  bounded = λ m above. ground (
    arith,
    find_version-cons n.assignment_id m v versions,
    eqb_iff v.version_number m,
    h.bounded m,
  );
}

pub pending_IsNumbered :
    (env : Platform) (n : PublishedVersion) (row : Assignment) (versions : List AssignmentVersion)
    → row.status ≡ accepted
    → n.version_number ≡ suc row.active_version_number
    → IsNumbered n.assignment_id row versions
    → IsNumbered n.assignment_id
        (pending_row n env.utc_now row)
        (version_row env critical n ∷ versions)
pending_IsNumbered env n row versions status next h = record {
  active = (
    h.active.0,
    ground (
      arith,
      find_version-cons n.assignment_id row.active_version_number (version_row env critical n)
          versions,
      eqb_iff n.version_number row.active_version_number,
      h.active.1,
    ),
  );
  pending = (
    status,
    next,
    (
      version_row env critical n,
      ground (
        arith,
        find_version-cons n.assignment_id n.version_number (version_row env critical n) versions,
        eq_iff n.assignment_id n.assignment_id,
        eqb_iff n.version_number n.version_number,
      ),
      refl,
    ),
  );
  bounded = λ m above. ground (
    arith,
    find_version-cons n.assignment_id m (version_row env critical n) versions,
    eqb_iff n.version_number m,
    h.bounded m,
  );
}

-- The confirmed version was the next one, and its snapshot is there.
pub confirmed_IsNumbered :
    (w : CriticalDecisionWrite) (role : String) (start_date end_date : ℕ) (row : Assignment)
    (versions : List AssignmentVersion)
    → row.pending_critical_version_number ≡ some w.version_number
    → IsNumbered w.assignment_id row versions
    → IsNumbered w.assignment_id (confirmed_row w role start_date end_date row) versions
confirmed_IsNumbered w role start_date end_date row versions pending h =
    let (status, number, (v, stored, severity)) : IsNext w.assignment_id row (some w.version_number)
        versions =
      subst (λ p. IsNext w.assignment_id row p versions) pending h.pending in
    record { active = (v, stored); pending = tt; bounded = λ m above. h.bounded m (omega arith) }

-- Nor of a row that is not accepted.
pub idle_unless_accepted :
    (k : String) (a : Assignment) (versions : List AssignmentVersion)
    → a.status ≢ accepted
    → (p : Option ℕ) → IsNext k a p versions
    → p ≡ none
idle_unless_accepted k a versions other none h = refl
idle_unless_accepted k a versions other (some p) (status, number, stored) = absurd (other status)

-- A row that keeps its active version and awaits nothing.
pub idle_IsNumbered :
    (k : String) (row row' : Assignment) (versions : List AssignmentVersion)
    → row'.active_version_number ≡ row.active_version_number
    → row'.pending_critical_version_number ≡ none
    → IsNumbered k row versions
    → IsNumbered k row' versions
idle_IsNumbered k row row' versions same idle h = record {
  active = rw same h.active;
  pending = rw idle tt;
  bounded = rw same h.bounded;
}

pub read_IsNumbered :
    (k received_at : String) (row : Assignment) (versions : List AssignmentVersion)
    → IsNumbered k row versions
    → IsNumbered k (read_row received_at row) versions
read_IsNumbered k received_at row versions h = record {
  active = h.active;
  pending = next row.pending_critical_version_number h.pending;
  bounded = h.bounded;
}
  where
    next : (p : Option ℕ) → IsNext k row p versions → IsNext k (read_row received_at row) p versions
    next none h = tt
    next (some p) h = h
