-- ===== src/Database/Schema.antt =====
-- The tables of database/db.py that the Guide Operator integration reads and writes.
-- A text column is a `String`; a nullable column is an `Option`; a CHECK over a list of words is a
-- data type. A calendar date, which only `_require_iso_date` and the date parser let in and which
-- is therefore a zero-padded YYYY-MM-DD text, is the day's ordinal: the order of such texts, which
-- the queries use, is the order of the days.
use guide_os.Prelude.{ℕ, Bool, String, Option, List}

pub data ConnectionStatus : Type 0 where
  invited confirmed declined disconnected : ConnectionStatus

pub data ConnectionDecisionType : Type 0 where
  confirm decline : ConnectionDecisionType

pub data ConnectionEventType : Type 0 where
  invited_v1 disconnected_v1 : ConnectionEventType

pub record Connection : Type 0 where
  pub connection_id : String
  pub guide_os_id : String
  pub company_id : String
  pub company_name : String
  pub status : ConnectionStatus
  pub invitation_expires_at : String
  pub invited_at : String
  pub decided_at : Option String
  pub disconnected_at : Option String
  pub invite_event_id : String
  pub disconnect_event_id : Option String
  pub created_at : String
  pub updated_at : String

pub record ConnectionInbox : Type 0 where
  pub event_id : String
  pub connection_id : String
  pub guide_os_id : String
  pub event_type : ConnectionEventType
  pub payload_hash : String
  pub received_at : String

pub record ConnectionDecision : Type 0 where
  pub decision_event_id : String
  pub connection_id : String
  pub guide_os_id : String
  pub decision_type : ConnectionDecisionType
  pub decided_at : String
  pub created_at : String

pub data AssignmentStatus : Type 0 where
  offered accepted declined cancelled withdrawn expired : AssignmentStatus

pub record Assignment : Type 0 where
  pub assignment_id : String
  pub guide_os_id : String
  pub company_id : String
  pub company_name : String
  pub guide_connection_id : String
  pub role : String
  pub start_date : ℕ
  pub end_date : ℕ
  pub response_deadline : Option String
  pub operator_message : Option String
  pub status : AssignmentStatus
  pub active_version_number : ℕ
  pub projection_tour_id : Option ℕ
  pub offer_event_id : String
  pub offered_at : String
  pub decided_at : Option String
  pub cancelled_at : Option String
  pub cancellation_event_id : Option String
  pub created_at : String
  pub updated_at : String
  pub active_version_unread : Bool
  pub pending_critical_version_number : Option ℕ

pub data Severity : Type 0 where
  initial ordinary critical : Severity

pub record AssignmentVersion : Type 0 where
  pub assignment_id : String
  pub version_number : ℕ
  pub severity : Severity
  pub working_package_json : String
  pub published_at : String
  pub change_summary_json : Option String
  pub source_event_id : Option String

pub data AssignmentDecisionType : Type 0 where
  accept decline : AssignmentDecisionType

pub record AssignmentDecision : Type 0 where
  pub decision_event_id : String
  pub assignment_id : String
  pub guide_os_id : String
  pub decision_type : AssignmentDecisionType
  pub version_number : ℕ
  pub decided_at : String
  pub created_at : String

pub record VersionInbox : Type 0 where
  pub event_id : String
  pub assignment_id : String
  pub guide_os_id : String
  pub version_number : ℕ
  pub payload_hash : String
  pub received_at : String

pub record VersionAcknowledgement : Type 0 where
  pub decision_event_id : String
  pub assignment_id : String
  pub guide_os_id : String
  pub version_number : ℕ
  pub acknowledged_at : String
  pub created_at : String

pub data CriticalDecisionType : Type 0 where
  confirm_critical reject_critical : CriticalDecisionType

pub record CriticalVersionDecision : Type 0 where
  pub decision_event_id : String
  pub assignment_id : String
  pub guide_os_id : String
  pub version_number : ℕ
  pub decision_type : CriticalDecisionType
  pub decided_at : String
  pub created_at : String

pub record OfferInbox : Type 0 where
  pub event_id : String
  pub assignment_id : String
  pub guide_os_id : String
  pub payload_hash : String
  pub received_at : String

pub record CancellationInbox : Type 0 where
  pub event_id : String
  pub assignment_id : String
  pub guide_os_id : String
  pub version_number : ℕ
  pub payload_hash : String
  pub received_at : String

pub data LifecycleEventType : Type 0 where
  withdrawn_v1 expired_v1 : LifecycleEventType

pub record LifecycleInbox : Type 0 where
  pub event_id : String
  pub event_type : LifecycleEventType
  pub assignment_id : String
  pub guide_os_id : String
  pub payload_hash : String
  pub received_at : String

-- `delivered_at` and `next_attempt_at` are written by the delivery alone, as the `isoformat` of an
-- instant in UTC, whose order as texts is that of the instants: they are microseconds here.
pub record Outbox : Type 0 where
  pub id : ℕ
  pub event_id : String
  pub event_type : String
  pub aggregate_type : String
  pub aggregate_id : String
  pub guide_os_id : String
  pub payload_json : String
  pub created_at : String
  pub delivered_at : Option ℕ
  pub attempt_count : ℕ
  pub next_attempt_at : Option ℕ
  pub last_error_code : Option String

pub data NotificationType : Type 0 where
  connection_invitation assignment_offer ordinary_version_change : NotificationType
  critical_confirmation_required assignment_cancellation connection_disconnection : NotificationType

-- The columns of the later delivery, which an intake fills with constants, are left out.
pub record Notification : Type 0 where
  pub source_event_id : String
  pub guide_os_id : String
  pub notification_type : NotificationType
  pub company_name : String
  pub connection_id : Option String
  pub assignment_id : Option String
  pub version_number : Option ℕ
  pub deep_link_target : String
  pub created_at : String

pub data Source : Type 0 where
  guide_os_bot mini_app guide_operator : Source

pub record Tour : Type 0 where
  pub id : ℕ
  pub user_id : ℕ
  pub company : String
  pub city : String
  pub start_date : ℕ
  pub end_date : ℕ
  pub status : String
  pub income : Option ℕ
  pub payment_status : String
  pub note : Option String
  pub entry_type : String
  pub tour_group_id : Option String
  pub title : Option String
  pub start_time : Option String
  pub end_time : Option String
  pub source : Source
  pub day_locations_json : Option String

pub record User : Type 0 where
  pub user_id : ℕ
  pub guide_os_id : String

-- `tour_sequence` and `outbox_sequence` are the AUTOINCREMENT counters of sqlite_sequence: the
-- largest id that was ever given.
pub record Db : Type 0 where
  pub users : List User
  pub connections : List Connection
  pub connection_inbox : List ConnectionInbox
  pub connection_decisions : List ConnectionDecision
  pub assignments : List Assignment
  pub versions : List AssignmentVersion
  pub decisions : List AssignmentDecision
  pub offer_inbox : List OfferInbox
  pub cancellation_inbox : List CancellationInbox
  pub lifecycle_inbox : List LifecycleInbox
  pub version_inbox : List VersionInbox
  pub version_acknowledgements : List VersionAcknowledgement
  pub critical_decisions : List CriticalVersionDecision
  pub outbox : List Outbox
  pub outbox_sequence : ℕ
  pub notifications : List Notification
  pub tours : List Tour
  pub tour_sequence : ℕ
  pub projection_release : List ℕ
  pub metadata_update : List ℕ
  pub occupancy_update : List ℕ
