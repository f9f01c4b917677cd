-- ===== src/Json/Parser.antt =====
-- src/network/json/JsonParser.cpp: numbers, values and documents.
use crossa.Prelude.{
  ℕ, zero, suc, ◌+◌, ◌-◌, Bool, true, false, ◌||◌, List, [], ◌∷◌, none, some, Bytes, length, take,
  ◌==◌, ltb, within, bytes_eq, codes, if◌then◌else◌, Result, ok, err, ◌>>=◌,
}
use crossa.Json.Value.{
  JsonValue, null, boolean, number, string, array, object, Items, nil, item, Fields, end, field,
  peek, is_digit, is_valid_number,
}
use crossa.Json.Cursor.{
  JsonError, too_large, invalid_number, cancelled, out_of_fuel, Reason, trailing_content,
  depth_limit, value_expected, key_expected, duplicate_key, bad_integer, bad_fraction, bad_exponent,
  Handle, Pos, start, Read, Moved, fail, step, skip_whitespace, consume, consume_literal,
}
use crossa.Json.Strings.{parse_string}

-- while (peek() is a digit) advance()
unfoldable pub skip_digits : Handle → Pos → Bytes → Moved
skip_digits h p [] = ok (p, [])
skip_digits h p (c ∷ cs) =
    let rest = (do (q, r) ← step h p (c ∷ cs); skip_digits h q cs) in
    if is_digit c then rest else ok (p, c ∷ cs)

-- The sign and the integer part.
unfoldable pub scan_sign : Handle → Pos → Bytes → Moved
scan_sign h p bs = if peek bs == b'-' then step h p bs else ok (p, bs)

unfoldable pub scan_integer : Handle → Pos → Bytes → Moved
scan_integer h p bs =
    if peek bs == b'0'
    then step h p bs
    else if within b'1' b'9' (peek bs)
    then skip_digits h p bs
    else fail p bad_integer

-- One digit at least, or the failure `why`.
unfoldable pub scan_digits : Handle → Reason → Pos → Bytes → Moved
scan_digits h why p bs = if is_digit (peek bs) then skip_digits h p bs else fail p why

unfoldable pub scan_fraction : Handle → Pos → Bytes → Moved
scan_fraction h p bs =
    if peek bs == b'.'
    then (do (q, r) ← step h p bs; scan_digits h bad_fraction q r)
    else ok (p, bs)

unfoldable pub scan_exponent_sign : Handle → Pos → Bytes → Moved
scan_exponent_sign h p bs = if peek bs == b'+' || peek bs == b'-' then step h p bs else ok (p, bs)

unfoldable pub scan_exponent : Handle → Pos → Bytes → Moved
scan_exponent h p bs =
    if peek bs == b'e' || peek bs == b'E'
    then (do
      (q, r) ← step h p bs
      (q', r') ← scan_exponent_sign h q r
      scan_digits h bad_exponent q' r')
    else ok (p, bs)

-- JsonValue::createNumber
unfoldable pub create_number : Bytes → Result JsonError JsonValue
create_number text = if is_valid_number text then ok (number text) else err invalid_number

-- The moves of the cursor in `parseNumber`.
unfoldable pub scan : Handle → Pos → Bytes → Moved
scan h p bs = do
  (p1, b1) ← scan_sign h p bs
  (p2, b2) ← scan_integer h p1 b1
  (p3, b3) ← scan_fraction h p2 b2
  scan_exponent h p3 b3

-- `parseNumber`
unfoldable pub parse_number : Handle → Pos → Bytes → Read JsonValue
parse_number h p bs = do
  (q, r) ← scan h p bs
  v ← create_number (take (q.current - p.current) bs)
  ok (v, q, r)

-- The key set of `parseObject`.
unfoldable pub contains : Bytes → List Bytes → Bool
contains key [] = false
contains key (k ∷ ks) = bytes_eq k key || contains key ks

-- A parser of values at the depth inside a container.
abbrev pub Parse : Type 0
Parse = Pos → Bytes → Read JsonValue

-- The loop of `parseArray`, from an element on.
unfoldable pub items_loop : ℕ → Handle → Parse → Pos → Bytes → Read Items
items_loop zero h value p bs = err out_of_fuel
items_loop (suc f) h value p bs = do
  (v, q, r) ← value p bs
  let (q1, r1) = skip_whitespace q r
  let close = (do (q2, r2) ← step h q1 r1; ok (item v nil, q2, r2))
  let more = (do
    (q2, r2) ← consume h b',' q1 r1
    (vs, q3, r3) ← items_loop f h value q2 r2
    ok (item v vs, q3, r3))
  if peek r1 == b']' then close else more

-- `parseArray`; `value` parses at its depth
unfoldable pub parse_array : ℕ → Handle → Parse → Pos → Bytes → Read JsonValue
parse_array f h value p bs = do
  (q, r) ← consume h b'[' p bs
  let (q1, r1) = skip_whitespace q r
  if peek r1 == b']'
      then (do (q2, r2) ← step h q1 r1; ok (array nil, q2, r2))
      else (do (vs, q2, r2) ← items_loop f h value q1 r1; ok (array vs, q2, r2))

-- One key of `parseObject` with its colon; `keys` are the keys before it.
unfoldable pub parse_key : Handle → List Bytes → Pos → Bytes → Read Bytes
parse_key h keys p bs =
    let (p1, b1) = skip_whitespace p bs in
    if peek b1 == b'"'
    then (do
      (key, p2, b2) ← parse_string h p1 b1
      if contains key keys then fail p2 duplicate_key else (do
        let (p3, b3) = skip_whitespace p2 b2
        (p4, b4) ← consume h b':' p3 b3
        ok (key, p4, b4)))
    else fail p1 key_expected

-- The loop of `parseObject`, from a key on.
unfoldable pub fields_loop : ℕ → Handle → Parse → List Bytes → Pos → Bytes → Read Fields
fields_loop zero h value keys p bs = err out_of_fuel
fields_loop (suc f) h value keys p bs = do
  (key, p1, b1) ← parse_key h keys p bs
  (v, p2, b2) ← value p1 b1
  let (p3, b3) = skip_whitespace p2 b2
  let close = (do (q, r) ← step h p3 b3; ok (field key v end, q, r))
  let more = (do
    (q, r) ← consume h b',' p3 b3
    (vs, q1, r1) ← fields_loop f h value (key ∷ keys) q r
    ok (field key v vs, q1, r1))
  if peek b3 == b'}' then close else more

-- `parseObject`; `value` parses at its depth
unfoldable pub parse_object : ℕ → Handle → Parse → Pos → Bytes → Read JsonValue
parse_object f h value p bs = do
  (q, r) ← consume h b'{' p bs
  let (q1, r1) = skip_whitespace q r
  if peek r1 == b'}'
      then (do (q2, r2) ← step h q1 r1; ok (object end, q2, r2))
      else (do (vs, q2, r2) ← fields_loop f h value [] q1 r1; ok (object vs, q2, r2))

-- case 't', case 'f', case 'n'
unfoldable pub parse_literal : Handle → Bytes → JsonValue → Pos → Bytes → Read JsonValue
parse_literal h literal v p bs = do (q, r) ← consume_literal h literal p bs; ok (v, q, r)

-- The switch of `parseValue` on the next byte; `value` parses one level deeper.
unfoldable pub dispatch : ℕ → Handle → Parse → Pos → Bytes → Read JsonValue
dispatch f h value p bs =
    if peek bs == b'{'
    then parse_object f h value p bs
    else if peek bs == b'['
    then parse_array f h value p bs
    else if peek bs == b'"'
    then (do (s, q, r) ← parse_string h p bs; ok (string s, q, r))
    else if peek bs == b't'
    then parse_literal h (codes "true") (boolean true) p bs
    else if peek bs == b'f'
    then parse_literal h (codes "false") (boolean false) p bs
    else if peek bs == b'n'
    then parse_literal h (codes "null") null p bs
    else if peek bs == b'-' || is_digit (peek bs)
    then parse_number h p bs
    else fail p value_expected

-- `parseValue`
unfoldable pub parse_value : ℕ → Handle → ℕ → ℕ → Pos → Bytes → Read JsonValue
parse_value zero h maximum_depth depth p bs = err out_of_fuel
parse_value (suc f) h maximum_depth depth p bs =
    if ltb maximum_depth depth
    then fail p depth_limit
    else (let (q, r) = skip_whitespace p bs in
        dispatch f h (λ p' bs'. parse_value f h maximum_depth (depth + 1) p' bs') q r)

-- `parse`, whose first act is one poll of the handle.
unfoldable pub poll : Handle → Result JsonError Pos
poll none = ok start
poll (some requested) = if requested 0 then err cancelled else ok (record start { polls = 1 })

-- Nothing may follow the document but white space.
unfoldable pub finish : JsonValue → Pos → Bytes → Result JsonError JsonValue
finish v p [] = ok v
finish v p (c ∷ cs) = fail p trailing_content

unfoldable pub parse : Handle → ℕ → ℕ → Bytes → Result JsonError JsonValue
unfolding poll finish
parse h maximum_bytes maximum_depth input =
    if ltb maximum_bytes (length input) then err too_large else do
      p ← poll h
      let (p1, b1) = skip_whitespace p input
      (v, p2, b2) ← parse_value (suc (length input)) h maximum_depth 0 p1 b1
      let (p3, b3) = skip_whitespace p2 b2
      finish v p3 b3
