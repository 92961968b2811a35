-- ===== src/Platform.antt =====
-- What a service call takes from outside the repository: the clock, the digests and renderings of
-- Python's standard library, and the lock contention that its write transaction meets.
use guide_os.Prelude.{ℕ, Bool, String, Option}
use guide_os.Json.{Json}

pub record Platform : Type 0 where
  -- sha256 of `json.dumps(payload, ensure_ascii=False, sort_keys=True, separators=(",", ":"))`
  pub canonical_hash : Json → String
  -- `json.dumps(payload, ensure_ascii=False, sort_keys=True)`, and `json.loads`
  pub dumps : Json → String
  pub loads : String → Option Json
  -- `json.dumps(payload, ensure_ascii=False)`
  pub dumps_unsorted : Json → String
  -- `datetime.fromisoformat` of a text whose final Z is replaced, in UTC, in microseconds;
  -- `none` is ValueError
  pub instant : String → Option ℕ
  -- `datetime.strptime(text, "%Y-%m-%d")` of a text of the form dddd-dd-dd, as an ordinal;
  -- `none` is any other text, or ValueError
  pub parse_date : String → Option ℕ
  -- `str(value)` of a value that is not a text
  pub str_of : Json → String
  -- the YYYY-MM-DD text of an ordinal
  pub date_text : ℕ → String
  -- `_utc_now()` of this call
  pub utc_now : String
  -- `datetime.now(timezone.utc)` when the call first reads it, and inside the transaction
  pub checked_at : ℕ
  pub locked_at : ℕ
  -- whether the n-th attempt to write meets a lock
  pub busy : ℕ → Bool
