-- ===== src/Json.antt =====
-- JSON values, as `json.loads` returns them and `json.dumps` takes them.
use guide_os.Prelude.{
  ℕ, Bool, String, ◌==◌, text_eq, Option, none, some, List, [], ◌∷◌, if◌then◌else◌,
}

mutual
  pub data Json : Type 0 where
    null : Json
    boolean : Bool → Json
    number : ℕ → Json
    text : String → Json
    array : Items → Json
    object : Fields → Json

  pub data Items : Type 0 where
    nil : Items
    cons : Json → Items → Items

  pub data Fields : Type 0 where
    end : Fields
    field : String → Json → Fields → Fields

-- A dict literal.
abbrev pub fields : List (String × Json) → Fields
fields [] = end
fields ((k, v) ∷ rest) = field k v (fields rest)

abbrev pub dict : List (String × Json) → Json
dict entries = object (fields entries)

-- `None` or a text, a `None` or a number
abbrev pub optional_text : Option String → Json
optional_text none = null
optional_text (some s) = text s

abbrev pub optional_number : Option ℕ → Json
optional_number none = null
optional_number (some n) = number n

-- `mapping.get(key)`
unfoldable pub get : String → Fields → Json
get k end = null
get k (field j v rest) = if j == k then v else get k rest
