-- ===== src/Json/Serializer.antt =====
-- src/network/json/JsonSerializer.cpp: each function gives the bytes that the program's one
-- appends to its output.
use crossa.Prelude.{
  ℕ, ◌/◌, ◌%◌, Bool, true, false, [], ◌∷◌, ◌++◌, Bytes, codes, get_or, ◌==◌, ltb, if◌then◌else◌,
}
use crossa.Json.Value.{
  JsonValue, null, boolean, number, string, array, object, Items, nil, item, Fields, end, field,
}

-- Hex[n]
unfoldable pub hex : ℕ → ℕ
hex n = get_or (codes "0123456789ABCDEF") n 0

-- The switch of `appendString`.
unfoldable pub append_byte : ℕ → Bytes
unfolding hex
append_byte byte =
    if byte == b'"'
    then b'\\' ∷ b'"' ∷ []
    else if byte == b'\\'
    then b'\\' ∷ b'\\' ∷ []
    else if byte == 8
    then b'\\' ∷ b'b' ∷ []
    else if byte == 12
    then b'\\' ∷ b'f' ∷ []
    else if byte == 10
    then b'\\' ∷ b'n' ∷ []
    else if byte == 13
    then b'\\' ∷ b'r' ∷ []
    else if byte == 9
    then b'\\' ∷ b't' ∷ []
    else if ltb byte 0x20
    then b'\\' ∷ b'u' ∷ b'0' ∷ b'0' ∷ hex (byte / 16 % 16) ∷ hex (byte % 16) ∷ []
    else byte ∷ []

unfoldable pub append_bytes : Bytes → Bytes
unfolding append_byte
append_bytes [] = []
append_bytes (c ∷ cs) = append_byte c ++ append_bytes cs

-- `appendString`
unfoldable pub append_string : Bytes → Bytes
unfolding append_bytes
append_string value = b'"' ∷ (append_bytes value ++ b'"' ∷ [])

abbrev pub comma : Bool → Bytes
comma first = if first then [] else b',' ∷ []

-- `appendValue`, with the loops of its two containers.
unfoldable mutual
  pub append_value : JsonValue → Bytes
  append_value null = codes "null"
  append_value (boolean b) = if b then codes "true" else codes "false"
  append_value (number text) = text
  append_value (string s) = append_string s
  append_value (array vs) = b'[' ∷ (append_items true vs ++ b']' ∷ [])
  append_value (object fs) = b'{' ∷ (append_fields true fs ++ b'}' ∷ [])

  pub append_items : Bool → Items → Bytes
  append_items first nil = []
  append_items first (item v vs) = comma first ++ (append_value v ++ append_items false vs)

  pub append_fields : Bool → Fields → Bytes
  append_fields first end = []
  append_fields first (field k v fs) =
      comma first ++ (append_string k ++ (b':' ∷ (append_value v ++ append_fields false fs)))

-- `serialize`
unfoldable pub serialize : JsonValue → Bytes
unfolding append_value
serialize = append_value
