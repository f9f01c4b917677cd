-- ===== src/Json/Shape.antt =====
-- How deep a JSON value nests, and the values that JSON text can express.
use Prim.Native.Nat.{max}
use crossa.Prelude.{ℕ, suc, true, false, List, [], ◌∷◌, Bytes, ◌≡◌}
use crossa.Json.Value.{
  JsonValue, number, array, object, Items, nil, item, Fields, end, field, is_valid_number,
}
use crossa.Json.Parser.{contains}

-- The levels below a value. An empty container has none.
unfoldable mutual
  pub nesting : JsonValue → ℕ
  nesting (array vs) = nesting_items vs
  nesting (object fs) = nesting_fields fs
  nesting _ = 0

  pub nesting_items : Items → ℕ
  nesting_items nil = 0
  nesting_items (item v vs) = max (suc (nesting v)) (nesting_items vs)

  pub nesting_fields : Fields → ℕ
  nesting_fields end = 0
  nesting_fields (field k v fs) = max (suc (nesting v)) (nesting_fields fs)

-- Its numbers are JSON numbers, and no object has a key twice.
abbrev mutual
  pub WellFormed : JsonValue → Type 0
  WellFormed (number text) = is_valid_number text ≡ true
  WellFormed (array vs) = WellFormedItems vs
  WellFormed (object fs) = WellFormedFields fs []
  WellFormed _ = Unit

  pub WellFormedItems : Items → Type 0
  WellFormedItems nil = Unit
  WellFormedItems (item v vs) = WellFormed v × WellFormedItems vs

  -- `keys` are the keys before these fields
  pub WellFormedFields : Fields → List Bytes → Type 0
  WellFormedFields end keys = Unit
  WellFormedFields (field k v fs) keys =
      (contains k keys ≡ false) × WellFormed v × WellFormedFields fs (k ∷ keys)
