-- ===== src/Version/Projection.antt =====
-- What both kinds of versions write: the row of the version, and the calendar entry under the
-- allowlist of the trigger on protected entries.
use guide_os.Prelude.{ℕ, String, ◌==◌, number_eq, not, ◌&&◌, Option, some, List, ◌∷◌}
use guide_os.Json.{object}
use guide_os.Errors.{
  Result, ok, ◌>>=◌, ◌>>◌, raise_if, or_raise, validation_error, Detail, integrity_error,
}
use guide_os.Platform.{Platform}
use guide_os.Database.{
  Db, Assignment, AssignmentVersion, Severity, Tour, VersionInbox, find, modify,
}
use guide_os.Assignment.Store.{tour_key}
use guide_os.Assignment.Decide.{is_guide_operator}
use guide_os.Assignment.Cancel.{contains, disallow}
use guide_os.Version.Intake.{PublishedVersion}

abbrev pub version_entry : String → PublishedVersion → String → VersionInbox
version_entry payload_hash n received_at = record {
  event_id = n.event_id;
  assignment_id = n.assignment_id;
  guide_os_id = n.guide_os_id;
  version_number = n.version_number;
  payload_hash = payload_hash;
  received_at = received_at;
}

abbrev pub version_row : Platform → Severity → PublishedVersion → AssignmentVersion
version_row env severity n = record {
  assignment_id = n.assignment_id;
  version_number = n.version_number;
  severity = severity;
  working_package_json = env.dumps (object n.working_package);
  published_at = n.published_at;
  change_summary_json = some (env.dumps n.change_summary);
  source_event_id = some n.event_id;
}

-- What an entry of the calendar shows of a version.
pub record Labels : Type 0 where
  pub title : String
  pub city : String
  pub day_locations_json : Option String

-- SET title = ?, city = ?, day_locations_json = ?
abbrev pub relabel : Labels → Tour → Tour
relabel labels t = record t {
  title = some labels.title;
  city = labels.city;
  day_locations_json = labels.day_locations_json;
}

-- SET title = ?, city = ?, start_date = ?, end_date = ?, day_locations_json = ?
abbrev pub reschedule : Labels → ℕ → ℕ → Tour → Tour
reschedule labels start_date end_date t = record t {
  title = some labels.title;
  city = labels.city;
  start_date = start_date;
  end_date = end_date;
  day_locations_json = labels.day_locations_json;
}

-- The tables that allow an update of a protected entry: go_operator_projection_metadata_update
-- and go_operator_projection_occupancy_update.
pub data Allowlist : Type 0 where
  metadata occupancy : Allowlist

abbrev pub allowed : Allowlist → Db → List ℕ
allowed metadata db = db.metadata_update
allowed occupancy db = db.occupancy_update

abbrev pub set_allowed : Allowlist → List ℕ → Db → Db
set_allowed metadata ids db = record db { metadata_update = ids }
set_allowed occupancy ids db = record db { occupancy_update = ids }

-- INSERT INTO the allowlist of the trigger, UPDATE tours SET … WHERE id = ? AND source =
-- 'guide_operator', where no row updated is `rowcount != 1`, and DELETE of the allowance.
unfoldable pub update_projection : Allowlist → ℕ → (Tour → Tour) → Db → Result Db
update_projection list id change db = do
  raise_if (contains id (allowed list db)) integrity_error
  let opened = set_allowed list (id ∷ allowed list db) db
  tour ← or_raise (find tour_key id opened.tours) (validation_error Detail.plain)
  raise_if (not (is_guide_operator tour.source)) (validation_error Detail.plain)
  let updated = record opened { tours = modify tour_key id change opened.tours }
  ok (set_allowed list (disallow id (allowed list updated)) updated)

-- The update of an ordinary version, and the check that the entry keeps the assignment's dates.
unfoldable pub relabel_projection : Labels → ℕ → Assignment → Db → Result Db
relabel_projection labels id locked db = do
  changed ← update_projection metadata id (relabel labels) db
  projection ← or_raise (find tour_key id changed.tours) (validation_error Detail.plain)
  raise_if
      (not (
        (projection.start_date == locked.start_date)
        && (projection.end_date == locked.end_date)
        && is_guide_operator projection.source))
      (validation_error Detail.plain)
  ok changed
