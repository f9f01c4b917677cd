-- ===== src/Json/Value.antt =====
-- src/network/json/JsonValue.cpp: the JSON values, and the check of number text.
use crossa.Prelude.{
  ℕ, Bool, true, false, ◌||◌, [], ◌∷◌, Option, none, some, Bytes, ◌==◌, within, bytes_eq,
  if◌then◌else◌,
}

-- A number keeps its text. An object keeps its fields in order.
mutual
  pub data JsonValue : Type 0 where
    null : JsonValue
    boolean : Bool → JsonValue
    number : Bytes → JsonValue
    string : Bytes → JsonValue
    array : Items → JsonValue
    object : Fields → JsonValue

  pub data Items : Type 0 where
    nil : Items
    item : JsonValue → Items → Items

  pub data Fields : Type 0 where
    end : Fields
    field : Bytes → JsonValue → Fields → Fields

-- `find`
find_field : Bytes → Fields → Option JsonValue
find_field key end = none
find_field key (field k v fs) = if bytes_eq k key then some v else find_field key fs

unfoldable pub find : Bytes → JsonValue → Option JsonValue
unfolding find_field
find key (object fs) = find_field key fs
find key _ = none

-- The byte at the cursor, 0 at the end.
abbrev pub peek : Bytes → ℕ
peek [] = 0
peek (c ∷ cs) = c

abbrev pub is_digit : ℕ → Bool
is_digit c = within b'0' b'9' c

-- while (value[current] is a digit) ++current
unfoldable pub drop_digits : Bytes → Bytes
drop_digits [] = []
drop_digits (c ∷ cs) = let rest = drop_digits cs in if is_digit c then rest else c ∷ cs

-- What stands behind an optional byte.
abbrev pub drop_sign : Bytes → Bytes
drop_sign [] = []
drop_sign (c ∷ cs) = if c == b'-' then cs else c ∷ cs

-- One digit at least, then all that follow.
abbrev pub some_digits : Bytes → Option Bytes
some_digits [] = none
some_digits (c ∷ cs) = if is_digit c then some (drop_digits cs) else none

abbrev pub valid_integer : Bytes → Option Bytes
valid_integer [] = none
valid_integer (c ∷ cs) =
    if c == b'0'
    then (if is_digit (peek cs) then none else some cs)
    else if within b'1' b'9' c
    then some (drop_digits cs)
    else none

abbrev pub valid_fraction : Bytes → Option Bytes
valid_fraction [] = some []
valid_fraction (c ∷ cs) = if c == b'.' then some_digits cs else some (c ∷ cs)

abbrev pub drop_exponent_sign : Bytes → Bytes
drop_exponent_sign [] = []
drop_exponent_sign (c ∷ cs) = if c == b'+' || c == b'-' then cs else c ∷ cs

abbrev pub valid_exponent : Bytes → Option Bytes
valid_exponent [] = some []
valid_exponent (c ∷ cs) =
    if c == b'e' || c == b'E' then some_digits (drop_exponent_sign cs) else some (c ∷ cs)

abbrev at_end : Bytes → Bool
at_end [] = true
at_end (c ∷ cs) = false

unfoldable pub is_valid_number : Bytes → Bool
is_valid_number value = elim (valid_integer (drop_sign value)) [
  | none ↦ false
  | some integer ↦ elim (valid_fraction integer) [
    | none ↦ false
    | some fraction ↦ elim (valid_exponent fraction) [
      | none ↦ false
      | some exponent ↦ at_end exponent
    ]
  ]
]
