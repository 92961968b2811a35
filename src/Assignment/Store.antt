-- ===== src/Assignment/Store.antt =====
-- The SELECT and INSERT statements on the assignment tables, with the constraints that the schema
-- puts on them.
use guide_os.Prelude.{
  ℕ, Bool, true, false, String, ◌==◌, text_eq, number_eq, not, ◌&&◌, ◌||◌, Option, none, some, List,
  [], ◌∷◌, ltb, is_some, if◌then◌else◌,
}
use guide_os.Errors.{Result, ok, ◌>>◌, raise_if, or_raise, integrity_error, not_found}
use guide_os.Database.{
  Db, Assignment, AssignmentStatus, offered, accepted, cancelled, AssignmentVersion,
  AssignmentDecision, OfferInbox, CancellationInbox, LifecycleInbox, Tour, find, taken,
}

abbrev pub assignment_key : Assignment → String
assignment_key a = a.assignment_id

abbrev pub offer_event_key : Assignment → String
offer_event_key a = a.offer_event_id

abbrev pub offer_inbox_key : OfferInbox → String
offer_inbox_key r = r.event_id

abbrev pub cancellation_inbox_key : CancellationInbox → String
cancellation_inbox_key r = r.event_id

abbrev pub lifecycle_inbox_key : LifecycleInbox → String
lifecycle_inbox_key r = r.event_id

abbrev pub decided_assignment_key : AssignmentDecision → String
decided_assignment_key d = d.assignment_id

abbrev pub decision_event_key : AssignmentDecision → String
decision_event_key d = d.decision_event_id

abbrev pub tour_key : Tour → ℕ
tour_key t = t.id

abbrev pub is_offered : AssignmentStatus → Bool
is_offered offered = true
is_offered _ = false

abbrev pub is_accepted : AssignmentStatus → Bool
is_accepted accepted = true
is_accepted _ = false

abbrev pub is_cancelled : AssignmentStatus → Bool
is_cancelled cancelled = true
is_cancelled _ = false

-- `AND guide_os_id = ?` behind a lookup by the primary key
abbrev pub of_guide : String → Option Assignment → Option Assignment
of_guide identity none = none
of_guide identity (some a) = if a.guide_os_id == identity then some a else none

-- SELECT * FROM guide_operator_assignments WHERE assignment_id = ? AND guide_os_id = ?
abbrev pub assignment_of : String → String → Db → Option Assignment
assignment_of identity assignment_id db =
    of_guide identity (find assignment_key assignment_id db.assignments)

-- `get_assignment_for_guide`, on a normalised identity and id
abbrev pub get_assignment_for_guide : String → String → Db → Result Assignment
get_assignment_for_guide identity assignment_id db =
    or_raise (assignment_of identity assignment_id db) not_found

-- SELECT * FROM guide_operator_assignment_versions WHERE assignment_id = ? AND version_number = ?
unfoldable pub find_version : String → ℕ → List AssignmentVersion → Option AssignmentVersion
find_version id number [] = none
find_version id number (v ∷ versions) =
    if (v.assignment_id == id) && (v.version_number == number)
    then some v
    else find_version id number versions

unfoldable pub insert_assignment : Assignment → Db → Result Db
insert_assignment a db = do
  raise_if
      (taken assignment_key a.assignment_id db.assignments
        || taken offer_event_key a.offer_event_id db.assignments
        || ltb a.end_date a.start_date)
      integrity_error
  ok (record db { assignments = a ∷ db.assignments })

-- Some version comes from this event.
has_source : String → List AssignmentVersion → Bool
has_source event [] = false
has_source event (v ∷ versions) =
    elim v.source_event_id [ none ↦ false | some e ↦ e == event ] || has_source event versions

-- The unique index on `source_event_id`, WHERE source_event_id IS NOT NULL.
source_taken : Option String → List AssignmentVersion → Bool
unfolding has_source
source_taken none versions = false
source_taken (some event) versions = has_source event versions

unfoldable pub insert_version : AssignmentVersion → Db → Result Db
unfolding source_taken
insert_version v db = do
  raise_if
      (is_some (find_version v.assignment_id v.version_number db.versions)
        || source_taken v.source_event_id db.versions)
      integrity_error
  ok (record db { versions = v ∷ db.versions })

unfoldable pub insert_offer_inbox : OfferInbox → Db → Result Db
insert_offer_inbox r db = do
  raise_if (taken offer_inbox_key r.event_id db.offer_inbox) integrity_error
  ok (record db { offer_inbox = r ∷ db.offer_inbox })

unfoldable pub insert_cancellation_inbox : CancellationInbox → Db → Result Db
insert_cancellation_inbox r db = do
  raise_if (taken cancellation_inbox_key r.event_id db.cancellation_inbox) integrity_error
  ok (record db { cancellation_inbox = r ∷ db.cancellation_inbox })

unfoldable pub insert_lifecycle_inbox : LifecycleInbox → Db → Result Db
insert_lifecycle_inbox r db = do
  raise_if (taken lifecycle_inbox_key r.event_id db.lifecycle_inbox) integrity_error
  ok (record db { lifecycle_inbox = r ∷ db.lifecycle_inbox })

-- PRIMARY KEY(decision_event_id) and UNIQUE(assignment_id)
unfoldable pub insert_decision : AssignmentDecision → Db → Result Db
insert_decision d db = do
  raise_if
      (taken decision_event_key d.decision_event_id db.decisions
        || taken decided_assignment_key d.assignment_id db.decisions)
      integrity_error
  ok (record db { decisions = d ∷ db.decisions })

-- A row of another assignment holds the value of a nullable UNIQUE column.
abbrev pub holds_tour : ℕ → Assignment → Bool
holds_tour id a = elim a.projection_tour_id [ none ↦ false | some t ↦ t == id ]

abbrev pub holds_cancellation : String → Assignment → Bool
holds_cancellation event a = elim a.cancellation_event_id [ none ↦ false | some e ↦ e == event ]

unfoldable pub held_elsewhere : (Assignment → Bool) → String → List Assignment → Bool
held_elsewhere holds id [] = false
held_elsewhere holds id (a ∷ rows) =
    (not (a.assignment_id == id) && holds a) || held_elsewhere holds id rows
