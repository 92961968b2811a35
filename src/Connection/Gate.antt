-- ===== src/Connection/Gate.antt =====
-- `require_confirmed_connection_for_offer`, `get_connection_for_guide` and
-- `get_confirmed_connection_identity`.
use guide_os.Prelude.{ℕ, String, ◌==◌, text_eq, not, ◌||◌, Option, none, some, if◌then◌else◌}
use guide_os.Errors.{
  Result, ok, err, ◌>>=◌, ◌>>◌, raise_if, or_raise, validation_error, not_found, Detail,
  value_error,
}
use guide_os.Platform.{Platform}
use guide_os.Identity.{validate_guide_os_id}
use guide_os.Validation.{require_nonempty}
use guide_os.Database.{
  Db, Connection, ConnectionStatus, invited, confirmed, declined, disconnected, find,
}
use guide_os.Connection.Intake.{connection_key, is_confirmed, of_guide, is_expired}
use guide_os.Connection.Invite.{guide_key}

unfoldable pub get_connection_for_guide : String → String → Db → Result Connection
get_connection_for_guide guide_os_id connection_id db = do
  identity ← validate_guide_os_id guide_os_id
  connection ← require_nonempty connection_id
  or_raise (of_guide identity (find connection_key connection db.connections)) not_found

-- The telegram user id is left a number; the source renders it by `str`.
unfoldable pub get_confirmed_connection_identity :
    (connection_id company_id guide_os_id : String) → Db → Result (String × String × String × ℕ)
get_confirmed_connection_identity connection_id company_id guide_os_id db = do
  identity ← validate_guide_os_id guide_os_id
  id ← require_nonempty connection_id
  company ← require_nonempty company_id
  c ← or_raise (find connection_key id db.connections) not_found
  raise_if
      (not (c.company_id == company)
        || not (c.guide_os_id == identity)
        || not (is_confirmed c.status))
      not_found
  user ← or_raise (find guide_key identity db.users) not_found
  ok (id, company, identity, user.user_id)

module _ (env : Platform) where
  -- `_parse_aware_utc(now)` if a time is given, else the clock
  abbrev pub offer_instant : Option String → Result ℕ
  offer_instant none = ok env.checked_at
  offer_instant (some now) = or_raise (env.instant now) value_error

  unfoldable pub by_status : Connection → Option String → ConnectionStatus → Result Connection
  by_status c now disconnected = err (validation_error Detail.connection_disconnected)
  by_status c now declined = err (validation_error Detail.connection_declined)
  by_status c now invited = do
    expired ← is_expired env c (offer_instant now)
    if expired
        then err (validation_error Detail.connection_expired)
        else err (validation_error Detail.connection_not_confirmed)
  by_status c now confirmed = ok c

  unfoldable pub require_confirmed_connection_for_offer :
      (guide_connection_id guide_os_id company_id : String) → Option String → Db → Result Connection
  unfolding by_status
  require_confirmed_connection_for_offer guide_connection_id guide_os_id company_id now db = do
    identity ← validate_guide_os_id guide_os_id
    id ← require_nonempty guide_connection_id
    company ← require_nonempty company_id
    c ←
        or_raise (of_guide identity (find connection_key id db.connections))
          (validation_error Detail.connection_missing)
    raise_if (not (c.company_id == company)) (validation_error Detail.connection_company_mismatch)
    by_status c now c.status
