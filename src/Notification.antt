-- ===== src/Notification.antt =====
-- services/guide_operator_notification_outbox.py: one notification row for each applied intake.
use Prim.Native.String.{◌++◌}
use guide_os.Prelude.{
  ℕ, Bool, true, false, String, ◌==◌, text_eq, Option, none, some, ◌∷◌, leb, not, ◌||◌, is_some,
  ◌≡◌, arith, if◌then◌else◌,
}
use guide_os.Prelude.Text.{strip}
use guide_os.Errors.{Result, ok, err, ◌>>=◌, ◌>>◌, raise_if, value_error, integrity_error}
use guide_os.Database.{
  Db, Notification, NotificationType, connection_invitation, connection_disconnection, taken,
}

abbrev pub is_for_connection : NotificationType → Bool
is_for_connection connection_invitation = true
is_for_connection connection_disconnection = true
is_for_connection _ = false

-- `not value` of an optional text
is_missing : Option String → Bool
is_missing none = true
is_missing (some s) = s == ""

-- `version_number is None or int(version_number) < 1`
lacks_version : Option ℕ → Bool
lacks_version none = true
lacks_version (some n) = not (leb 1 n)

link : String → Option String → Result String
link kind none = err value_error
link kind (some id) = ok (kind ++ id)

-- The rules on which identifiers a notification carries, and its deep link.
deep_link_target : NotificationType → Option String → Option String → Option ℕ → Result String
unfolding is_missing lacks_version link
deep_link_target type connection_id assignment_id version_number =
    if is_for_connection type
    then (do
      raise_if (is_missing connection_id || is_some assignment_id) value_error
      raise_if (is_some version_number) value_error
      link "guide_operator:connection:" connection_id)
    else (do
      raise_if (is_missing assignment_id) value_error
      raise_if (is_some connection_id) value_error
      raise_if (lacks_version version_number) value_error
      link "guide_operator:assignment:" assignment_id)

abbrev pub source_event_key : Notification → String
source_event_key n = n.source_event_id

unfoldable pub insert_guide_operator_guide_notification :
    (source_event_id guide_os_id : String) (type : NotificationType)
    (company_name created_at : String)
    → (connection_id assignment_id : Option String) (version_number : Option ℕ) → Db
    → Result Db
unfolding deep_link_target
insert_guide_operator_guide_notification source_event_id guide_os_id type company_name created_at
      connection_id assignment_id version_number db =
    do
      raise_if (strip company_name == "") value_error
      target ← deep_link_target type connection_id assignment_id version_number
      raise_if (taken source_event_key source_event_id db.notifications) integrity_error
      ok (record db {
        notifications =
            record {
              source_event_id = source_event_id;
              guide_os_id = guide_os_id;
              notification_type = type;
              company_name = strip company_name;
              connection_id = connection_id;
              assignment_id = assignment_id;
              version_number = version_number;
              deep_link_target = target;
              created_at = created_at;
            }
            ∷ db.notifications;
      })

-- A notification changes no other table.
pub insert_notification_frame :
    (source_event_id guide_os_id : String) (type : NotificationType)
    (company_name created_at : String) (connection_id assignment_id : Option String)
    (version_number : Option ℕ) (db db' : Db)
    → insert_guide_operator_guide_notification source_event_id guide_os_id type company_name
        created_at connection_id assignment_id version_number db
      ≡ ok db'
    → db' ≡ record db { notifications = db'.notifications }
unfolding insert_guide_operator_guide_notification
insert_notification_frame source_event_id guide_os_id type company_name created_at connection_id
      assignment_id version_number db db' h =
    ground (arith)
