-- ===== src/Errors.antt =====
-- What a service call returns: a value, or the exception that it raises
-- (the error classes of services/guide_operator_connection_service.py and
-- services/guide_operator_assignment_service.py, utils/guide_os_identity.py, sqlite3's
-- IntegrityError and OperationalError, and Python's ValueError and TypeError).
use guide_os.Prelude.{
  ℕ, String, Bool, true, false, Option, none, some, List, ◌≡◌, refl, ◌⊎◌, inl, inr,
}

-- `details={"code": …}` or `details={"codes": …}` of an error.
pub data Detail : Type 0 where
  plain integration_unavailable connection_missing connection_company_mismatch : Detail
  connection_disconnected connection_declined connection_expired connection_not_confirmed : Detail
  codes : List String → Detail

pub data Error : Type 0 where
  -- ConnectionValidationError and AssignmentValidationError
  validation_error : Detail → Error
  -- ConnectionNotFoundError and AssignmentNotFoundError
  not_found : Error
  -- ConnectionConflictError and AssignmentConflictError
  idempotency_conflict : Error
  -- ConnectionNotActionableError and AssignmentNotActionableError
  not_actionable : Detail → Error
  -- CalendarConflictError with its dates
  calendar_conflict : List ℕ → Error
  -- GuideOsIdentityError
  invalid_identity : Error
  -- ValueError of a library routine or of the notification outbox
  value_error : Error
  -- TypeError: an unhashable value is looked up in a set
  type_error : Error
  -- OverflowError of a library routine
  overflow_error : Error
  -- a UNIQUE, PRIMARY KEY or FOREIGN KEY constraint, or RAISE(ABORT) of a trigger
  integrity_error : Error
  -- the database stayed locked through every attempt
  database_locked : Error

-- What a call of the services answers, or the exception that it raises.
pub data Result {ℓ} (T : Type ℓ) : Type ℓ where
  ok : T → Result T
  err : Error → Result T

-- `if value is None: raise error`
abbrev pub or_raise {ℓ} : {T : Type ℓ} → Option T → Error → Result T
or_raise none error = err error
or_raise (some value) error = ok value

-- `if test: raise error`
abbrev pub raise_if : Bool → Error → Result (Unit {0})
raise_if true error = err error
raise_if false error = ok tt

-- Statements in sequence: what follows a raise is not run.
infixl 5 ◌>>=◌ ◌>>◌
abbrev pub ◌>>=◌ {ℓ κ} : {S : Type ℓ} {T : Type κ} → Result S → (S → Result T) → Result T
err error >>= rest = err error
ok value >>= rest = rest value

abbrev pub ◌>>◌ {ℓ} : {T : Type ℓ} → Result (Unit {0}) → Result T → Result T
check >> rest = check >>= λ _. rest

-- A chain that answers has answered at its first step and at the rest.
pub bind-eq-ok {ℓ κ} :
    {S : Type ℓ} {T : Type κ} (first : Result S) (rest : S → Result T) {answer : T}
    → (first >>= rest) ≡ ok answer
    → (value : S) × (first ≡ ok value) × (rest value ≡ ok answer)
bind-eq-ok (err error) rest raised = cc
bind-eq-ok (ok value) rest answered = (value, refl, answered)

pub Result-cases {ℓ} :
    {A : Type ℓ} (r : Result A) → ((a : A) × (r ≡ ok a)) ⊎ ((e : Error) × (r ≡ err e))
Result-cases (ok a) = inl (a, refl)
Result-cases (err e) = inr (e, refl)
