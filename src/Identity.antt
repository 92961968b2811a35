-- ===== src/Identity.antt =====
-- utils/guide_os_identity.py: a guide_os_id is a lowercase UUIDv4 in canonical form.
use Prim.Native.Char.{Char, code}
use guide_os.Prelude.{
  ℕ, Bool, true, false, String, ◌==◌, text_eq, number_eq, ◌&&◌, ◌||◌, ◌≡◌, refl, List, [], ◌∷◌,
  ◌++◌, leb, if◌then◌else◌,
}
use guide_os.Prelude.Text.{chars, strip}
use guide_os.Errors.{Result, ok, err, invalid_identity}

-- The character classes of the pattern.
pub data Class : Type 0 where
  hex dash four variant : Class

fits : Class → ℕ → Bool
fits hex c = (leb b'0' c && leb c b'9') || (leb b'a' c && leb c b'f')
fits dash c = c == b'-'
fits four c = c == b'4'
fits variant c = (c == b'8') || (c == b'9') || (c == b'a') || (c == b'b')

canonical_uuid4 : List Class
canonical_uuid4 =
    (hex ∷ hex ∷ hex ∷ hex ∷ hex ∷ hex ∷ hex ∷ hex ∷ dash ∷ [])
    ++ (hex ∷ hex ∷ hex ∷ hex ∷ dash ∷ [])
    ++ (four ∷ hex ∷ hex ∷ hex ∷ dash ∷ [])
    ++ (variant ∷ hex ∷ hex ∷ hex ∷ dash ∷ [])
    ++ (hex ∷ hex ∷ hex ∷ hex ∷ hex ∷ hex ∷ hex ∷ hex ∷ hex ∷ hex ∷ hex ∷ hex ∷ [])

-- `pattern.fullmatch(value) is not None`
full_match : List Class → List Char → Bool
unfolding fits
full_match [] [] = true
full_match (k ∷ ks) (c ∷ cs) = fits k (code c) && full_match ks cs
full_match _ _ = false

-- The tests that `uuid.UUID` makes after the pattern repeat it: a text that matches parses, is of
-- version 4 (its fifteenth digit is 4), is not zero for that digit, and prints back as itself.
unfoldable pub is_canonical_guide_os_id : String → Bool
unfolding full_match canonical_uuid4
is_canonical_guide_os_id value = (value == strip value) && full_match canonical_uuid4 (chars value)

unfoldable pub validate_guide_os_id : String → Result String
validate_guide_os_id value =
    if is_canonical_guide_os_id value then ok value else err invalid_identity

accepts : is_canonical_guide_os_id "0f8fad5b-d9cb-469f-a165-70867728950e" ≡ true
unfolding is_canonical_guide_os_id strip
accepts = refl

refuses : is_canonical_guide_os_id "0F8FAD5B-D9CB-469F-A165-70867728950E" ≡ false
unfolding is_canonical_guide_os_id strip
refuses = refl
