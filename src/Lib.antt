-- ===== src/Lib.antt =====
-- Guide OS: the Guide Operator integration. A tour operator connects to a guide, offers
-- assignments, cancels or withdraws them; the guide confirms connections and accepts or declines
-- offers; an accepted assignment stands in the guide's calendar as a protected entry.
--
-- The program and the files that model it:
--   Database        database/db.py and database/queries.py: the tables as lists of records (Schema),
--                   lookups, updates and deletions by a key column (Table), and
--                   `run_write_with_retry` (Write): a transaction commits what its body returns or
--                   keeps the database as it was, after at most three attempts
--   Identity        utils/guide_os_identity.py
--   Validation      the checks of single fields in both services
--   Notification    services/guide_operator_notification_outbox.py
--   Outbox          the rows of guide_operator_outbox that the services append
--   Calendar        `get_conflicting_dates` and `days_in_range` of services/tour_service.py, and
--                   `_calendar_conflicts` of services/guide_operator_assignment_service.py
--   Connection      services/guide_operator_connection_service.py: `receive_connection_invitation`,
--                   `receive_connection_disconnect`, `_decide_connection`, and the gate
--                   `require_confirmed_connection_for_offer`
--   Assignment      services/guide_operator_assignment_service.py: `receive_assignment_offer`,
--                   `_decide_assignment`, `apply_assignment_cancellation` and
--                   `apply_assignment_lifecycle_transition`; Effects holds what each transaction
--                   writes, Matched and Protected compare the assignments with the calendar
--   Version         services/guide_operator_assignment_service.py, published versions:
--                   `_validate_working_package_snapshot` and its parts (Snapshot),
--                   `_ordinary_occupancy_violations` (Occupancy), the normalisers (Intake),
--                   `apply_ordinary_assignment_version` (Ordinary),
--                   `intake_critical_assignment_version` (Critical),
--                   `decide_critical_assignment_version` (Decision) and
--                   `acknowledge_ordinary_version` (Acknowledge)
--   Entry           services/tour_service.py, the entries that a guide keeps: the queries on the
--                   table `tours` and its triggers (Rows), `edit_tour_…` and `delete_tour`
--                   (Edit), `create_tour_entry`, `create_day_off_entry` and `update_tour_entry`
--                   (Draft), `copy_tour_entry` and `update_day_locations` (Copy), `list_entries` and
--                   `get_entry` in the keys that matter here (View) and
--                   `check_entry_conflicts` (Conflicts); Calls and Spared hold what each edit
--                   leaves of the calendar
--   Delivery        services/guide_operator_outbound_delivery.py and the two functions of
--                   database/queries.py behind it: `claim_guide_operator_outbox_for_delivery`,
--                   `finish_guide_operator_outbox_delivery` (Queue), `retry_delay`,
--                   `_apply_http_result` and `_finish` (Response)
--   Workflow        sequences of calls of both services over one database, also between those
--                   on published versions (Journey) and the guides' own edits (Diary)
--   Scenario        a concrete exchange, at which the theorems are applied
--
-- A service call is modelled whole: it normalises its event, reads the database, and either answers
-- or submits a transaction body, which reads again under the lock. Its model takes two states: the
-- one its first reads saw and the one its transaction locks, so that other writers may have come
-- between. A raised error is a value, and leaves the database as it was.
--
-- What is outside the repository is a parameter, the record `Platform`: the clock, the digests and
-- renderings of the standard library's json and hashlib, the parsing of dates and instants, and
-- which attempts to write meet a lock; and the record `Jitter`, the floating-point spread of a
-- retry delay. Nothing is assumed of either but where a theorem says so.
-- The three attempts of the write loop are the source's own constant; no other loop needs fuel.
-- A calendar date is the ordinal of its day, so that texts with digits outside ASCII, which the
-- source accepts and sorts as text, and a range that ends on the last date of Python's calendar are
-- outside the model; the instants that the delivery writes are microseconds.
--
-- Not modelled: the read-only views of assignments and their versions, the building and signing of
-- outgoing requests, the delivery of notifications, reconciliation and repair, of the guide's own
-- entries the date parser and the keys that only the Mini App shows, the HTTP routes, the bot, the
-- Mini App and GuideShop; and of the database the migrations and the tables of those features.
pub mod Prelude
pub mod Errors
pub mod Json
pub mod Platform
pub mod Identity
pub mod Validation
pub mod Database
pub mod Notification
pub mod Outbox
pub mod Calendar
pub mod Connection
pub mod Assignment
pub mod Version
pub mod Entry
pub mod Workflow
pub mod Delivery
pub mod Scenario
