-- ===== src/Version/Store.antt =====
-- The queries and INSERT statements on the tables of published versions: inbox, acknowledgements
-- and critical decisions.
use guide_os.Prelude.{
  ℕ, String, ◌==◌, text_eq, number_eq, ◌&&◌, ◌||◌, Option, none, some, List, [], ◌∷◌, is_some,
  if◌then◌else◌,
}
use guide_os.Errors.{Result, ok, ◌>>◌, raise_if, integrity_error}
use guide_os.Database.{Db, VersionInbox, VersionAcknowledgement, CriticalVersionDecision, taken}

abbrev pub version_inbox_key : VersionInbox → String
version_inbox_key r = r.event_id

abbrev pub acknowledgement_key : VersionAcknowledgement → String
acknowledgement_key r = r.decision_event_id

abbrev pub critical_event_key : CriticalVersionDecision → String
critical_event_key r = r.decision_event_id

-- SELECT * FROM guide_operator_version_acknowledgements
-- WHERE assignment_id = ? AND version_number = ?
unfoldable pub find_acknowledgement :
    String → ℕ → List VersionAcknowledgement → Option VersionAcknowledgement
find_acknowledgement id number [] = none
find_acknowledgement id number (r ∷ rows) =
    if (r.assignment_id == id) && (r.version_number == number)
    then some r
    else find_acknowledgement id number rows

-- SELECT * FROM guide_operator_critical_version_decisions
-- WHERE assignment_id = ? AND version_number = ?
unfoldable pub find_critical_decision :
    String → ℕ → List CriticalVersionDecision → Option CriticalVersionDecision
find_critical_decision id number [] = none
find_critical_decision id number (r ∷ rows) =
    if (r.assignment_id == id) && (r.version_number == number)
    then some r
    else find_critical_decision id number rows

unfoldable pub insert_version_inbox : VersionInbox → Db → Result Db
insert_version_inbox r db = do
  raise_if (taken version_inbox_key r.event_id db.version_inbox) integrity_error
  ok (record db { version_inbox = r ∷ db.version_inbox })

-- PRIMARY KEY(decision_event_id) and UNIQUE(assignment_id, version_number)
unfoldable pub insert_acknowledgement : VersionAcknowledgement → Db → Result Db
insert_acknowledgement r db = do
  raise_if
      (taken acknowledgement_key r.decision_event_id db.version_acknowledgements
        || is_some
            (find_acknowledgement r.assignment_id r.version_number db.version_acknowledgements))
      integrity_error
  ok (record db { version_acknowledgements = r ∷ db.version_acknowledgements })

-- PRIMARY KEY(decision_event_id) and UNIQUE(assignment_id, version_number)
unfoldable pub insert_critical_decision : CriticalVersionDecision → Db → Result Db
insert_critical_decision r db = do
  raise_if
      (taken critical_event_key r.decision_event_id db.critical_decisions
        || is_some (find_critical_decision r.assignment_id r.version_number db.critical_decisions))
      integrity_error
  ok (record db { critical_decisions = r ∷ db.critical_decisions })
