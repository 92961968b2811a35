-- ===== src/Connection/Intake.antt =====
-- The events that the operator sends, `_normalize_invitation` and `_normalize_disconnect`, and the
-- payloads whose hashes make a repeated event recognisable.
use guide_os.Prelude.{
  ℕ, String, ◌==◌, text_eq, Bool, true, false, Option, none, some, [], ◌∷◌, leb, if◌then◌else◌,
}
use guide_os.Json.{Json, text, dict}
use guide_os.Errors.{Result, ok, ◌>>=◌, or_raise, value_error}
use guide_os.Platform.{Platform}
use guide_os.Identity.{validate_guide_os_id}
use guide_os.Validation.{require_nonempty, require_iso_datetime}
use guide_os.Database.{
  Connection, ConnectionInbox, ConnectionDecision, ConnectionStatus, invited, confirmed, declined,
  disconnected,
}

pub record ConnectionInvitationIntake : Type 0 where
  pub event_id : String
  pub connection_id : String
  pub company_id : String
  pub company_name : String
  pub guide_os_id : String
  pub invitation_expires_at : String
  pub invited_at : String

pub record ConnectionDisconnectIntake : Type 0 where
  pub event_id : String
  pub connection_id : String
  pub company_id : String
  pub company_name : String
  pub guide_os_id : String
  pub disconnected_at : String

-- The columns by which rows are found or kept unique.
abbrev pub connection_key : Connection → String
connection_key c = c.connection_id

abbrev pub invite_event_key : Connection → String
invite_event_key c = c.invite_event_id

abbrev pub inbox_key : ConnectionInbox → String
inbox_key r = r.event_id

abbrev pub decided_connection_key : ConnectionDecision → String
decided_connection_key d = d.connection_id

abbrev pub decision_event_key : ConnectionDecision → String
decision_event_key d = d.decision_event_id

abbrev pub is_invited : ConnectionStatus → Bool
is_invited invited = true
is_invited _ = false

abbrev pub is_confirmed : ConnectionStatus → Bool
is_confirmed confirmed = true
is_confirmed _ = false

abbrev pub is_declined : ConnectionStatus → Bool
is_declined declined = true
is_declined _ = false

abbrev pub is_disconnected : ConnectionStatus → Bool
is_disconnected disconnected = true
is_disconnected _ = false

-- `AND guide_os_id = ?` behind a lookup by the primary key
abbrev pub of_guide : String → Option Connection → Option Connection
of_guide identity none = none
of_guide identity (some c) = if c.guide_os_id == identity then some c else none

unfoldable pub invitation_payload : ConnectionInvitationIntake → Json
invitation_payload n = dict (
    ("event_id", text n.event_id)
    ∷ ("connection_id", text n.connection_id)
    ∷ ("company_id", text n.company_id)
    ∷ ("company_name", text n.company_name)
    ∷ ("guide_os_id", text n.guide_os_id)
    ∷ ("invitation_expires_at", text n.invitation_expires_at)
    ∷ ("invited_at", text n.invited_at)
    ∷ [])

unfoldable pub disconnect_payload : ConnectionDisconnectIntake → Json
disconnect_payload n = dict (
    ("event_id", text n.event_id)
    ∷ ("connection_id", text n.connection_id)
    ∷ ("company_id", text n.company_id)
    ∷ ("company_name", text n.company_name)
    ∷ ("guide_os_id", text n.guide_os_id)
    ∷ ("disconnected_at", text n.disconnected_at)
    ∷ [])

module _ (env : Platform) where
  unfoldable pub normalize_invitation :
      ConnectionInvitationIntake → Result ConnectionInvitationIntake
  normalize_invitation event = do
    event_id ← require_nonempty event.event_id
    connection_id ← require_nonempty event.connection_id
    company_id ← require_nonempty event.company_id
    company_name ← require_nonempty event.company_name
    guide_os_id ← validate_guide_os_id event.guide_os_id
    invitation_expires_at ← require_iso_datetime env event.invitation_expires_at
    invited_at ← require_iso_datetime env event.invited_at
    ok (record {
      event_id = event_id;
      connection_id = connection_id;
      company_id = company_id;
      company_name = company_name;
      guide_os_id = guide_os_id;
      invitation_expires_at = invitation_expires_at;
      invited_at = invited_at;
    })

  unfoldable pub normalize_disconnect :
      ConnectionDisconnectIntake → Result ConnectionDisconnectIntake
  normalize_disconnect event = do
    event_id ← require_nonempty event.event_id
    connection_id ← require_nonempty event.connection_id
    company_id ← require_nonempty event.company_id
    company_name ← require_nonempty event.company_name
    guide_os_id ← validate_guide_os_id event.guide_os_id
    disconnected_at ← require_iso_datetime env event.disconnected_at
    ok (record {
      event_id = event_id;
      connection_id = connection_id;
      company_id = company_id;
      company_name = company_name;
      guide_os_id = guide_os_id;
      disconnected_at = disconnected_at;
    })

  -- `_is_expired(connection, now=…)`; the instant is the parsed `now`, or the clock's.
  unfoldable pub is_expired : Connection → Result ℕ → Result Bool
  is_expired c now =
      if is_invited c.status
      then (do
        expiry ← or_raise (env.instant c.invitation_expires_at) value_error
        current ← now
        ok (leb expiry current))
      else ok false
