-- ===== src/Version/Occupied.antt =====
-- An ordinary version leaves every booked day as it was.
use guide_os.Prelude.{ℕ, text_eq, ◌≡◌, refl, inl, inr, Option}
use guide_os.Platform.{Platform}
use guide_os.Database.{Db}
use guide_os.Database.Write.{submit_rule}
use guide_os.Calendar.{calendar_conflicts}
use guide_os.Calendar.Kept.{calendar_conflicts-changed}
use guide_os.Version.Intake.{AssignmentVersionPublishedIntake}
use guide_os.Version.Projection.{relabel}
use guide_os.Version.Ordinary.{ordinary_write, apply_ordinary_assignment_version, labels_of}
use guide_os.Version.Effects.{ordinary_effect}

-- Every question about booked days has the answer that it had.
abbrev pub SameDays : Db → Db → Type 0
SameDays db db' =
    (user first last : ℕ) (excluded : Option ℕ)
    → calendar_conflicts user first last excluded db'.tours
      ≡ calendar_conflicts user first last excluded db.tours

-- Whatever an ordinary version carries and whatever the call answers, the calendar answers every
-- question about booked days, for every user and range of days, as it did before.
pub apply_ordinary_assignment_version-keeps_days :
    (env : Platform) (event : AssignmentVersionPublishedIntake) (before db : Db)
    → SameDays db (apply_ordinary_assignment_version env event before db).1
unfolding apply_ordinary_assignment_version
apply_ordinary_assignment_version-keeps_days env event before db =
    submit_rule (ordinary_write env) (SameDays db) env.busy _ db (λ user first last excluded. refl)
      (λ (h, n) a db' planned e. elim (ordinary_effect env h n db db' a e) [
        | inl same ↦ rw same (λ user first last excluded. refl)
        | inr (row, tour, w) ↦ rw w.frame (λ user first last excluded.
            calendar_conflicts-changed tour (relabel (labels_of env row n)) (λ t. refl) (λ t. refl)
              (λ t. refl) (λ t. refl) (λ t. refl) user first last excluded db.tours)
      ])
