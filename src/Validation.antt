-- ===== src/Validation.antt =====
-- `_require_nonempty`, `_require_iso_datetime` and `_require_iso_date`, which
-- services/guide_operator_connection_service.py and services/guide_operator_assignment_service.py
-- both declare.
use guide_os.Prelude.{ℕ, String, ◌==◌, text_eq, if◌then◌else◌}
use guide_os.Prelude.Text.{strip}
use guide_os.Errors.{Result, ok, err, ◌>>=◌, validation_error, Detail, or_raise}
use guide_os.Platform.{Platform}

unfoldable pub require_nonempty : String → Result String
require_nonempty value =
    if strip value == "" then err (validation_error Detail.plain) else ok (strip value)

module _ (env : Platform) where
  unfoldable pub require_iso_datetime : String → Result String
  unfolding require_nonempty
  require_iso_datetime value = do
    stamp ← require_nonempty value
    or_raise (env.instant stamp) (validation_error Detail.plain) >>= λ _. ok stamp

  unfoldable pub require_iso_date : String → Result ℕ
  unfolding require_nonempty
  require_iso_date value = do
    day ← require_nonempty value
    or_raise (env.parse_date day) (validation_error Detail.plain)
