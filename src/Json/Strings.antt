-- ===== src/Json/Strings.antt =====
-- src/network/json/JsonParser.cpp: strings, their escapes, and the UTF-8 encoder.
use Prim.Native.Nat.{bit_or}
use crossa.Prelude.{
  ℕ, zero, suc, ◌+◌, ◌-◌, ◌*◌, ◌/◌, ◌%◌, not, ◌||◌, [], ◌∷◌, ◌++◌, Bytes, length, ◌==◌, leb, ltb,
  within, if◌then◌else◌, Result, ok, err, ◌>>=◌,
}
use crossa.Json.Cursor.{
  JsonError, bad_code_point, out_of_fuel, control_byte, bad_surrogate, low_surrogate, bad_escape,
  unterminated_string, bad_hex_digit, Handle, Pos, Read, fail, advance, consume,
}

-- The value of one digit of `parseHexCodeUnit`.
unfoldable pub hex_digit : Pos → ℕ → Result JsonError ℕ
hex_digit p digit =
    if within b'0' b'9' digit
    then ok (digit - b'0')
    else if within b'a' b'f' digit
    then ok (digit - b'a' + 10)
    else if within b'A' b'F' digit
    then ok (digit - b'A' + 10)
    else fail p bad_hex_digit

-- The loop of `parseHexCodeUnit`, with the rounds left. `unsigned int` holds sixteen bits at least.
unfoldable pub hex_loop : Handle → ℕ → ℕ → Pos → Bytes → Read ℕ
unfolding hex_digit
hex_loop h zero value p bs = ok (value, p, bs)
hex_loop h (suc rounds) value p bs = do
  (digit, q, r) ← advance h p bs
  d ← hex_digit q digit
  hex_loop h rounds (value * 16 + d) q r

abbrev pub parse_hex_code_unit : Handle → Pos → Bytes → Read ℕ
parse_hex_code_unit h = hex_loop h 4 0

-- `appendCodePoint`: the bytes that it appends. `x & 0x3F` is `x % 64`.
unfoldable pub append_code_point : ℕ → Result JsonError Bytes
append_code_point c =
    if leb c 0x7F
    then ok (c ∷ [])
    else if leb c 0x7FF
    then ok (bit_or 0xC0 (c / 64) ∷ bit_or 0x80 (c % 64) ∷ [])
    else if leb c 0xFFFF
    then ok (bit_or 0xE0 (c / 4096) ∷ bit_or 0x80 (c / 64 % 64) ∷ bit_or 0x80 (c % 64) ∷ [])
    else if leb c 0x10FFFF
    then ok (
        bit_or 0xF0 (c / 262144)
        ∷ bit_or 0x80 (c / 4096 % 64)
        ∷ bit_or 0x80 (c / 64 % 64)
        ∷ bit_or 0x80 (c % 64)
        ∷ [])
    else err bad_code_point

-- The second half of a surrogate pair, behind the first half `high`.
unfoldable pub low_half : Handle → ℕ → Pos → Bytes → Read ℕ
low_half h high p bs = do
  (q, r) ← consume h b'\\' p bs
  (q', r') ← consume h b'u' q r
  (low, q'', r'') ← parse_hex_code_unit h q' r'
  if ltb low 0xDC00 || ltb 0xDFFF low
      then fail q'' bad_surrogate
      else ok (0x10000 + (high - 0xD800) * 1024 + (low - 0xDC00), q'', r'')

-- `case 'u'`: the code point of an escape, from one code unit or two.
unfoldable pub unicode_escape : Handle → Pos → Bytes → Read ℕ
unfolding low_half
unicode_escape h p bs = do
  (unit, q, r) ← parse_hex_code_unit h p bs
  if within 0xD800 0xDBFF unit
      then low_half h unit q r
      else if within 0xDC00 0xDFFF unit
      then fail q low_surrogate
      else ok (unit, q, r)

-- The code point of an escape in UTF-8.
unfoldable pub unicode_bytes : Handle → Pos → Bytes → Read Bytes
unfolding unicode_escape append_code_point
unicode_bytes h p bs = do (c, q, r) ← unicode_escape h p bs; o ← append_code_point c; ok (o, q, r)

-- The switch on the byte behind a backslash: the bytes that it stands for.
unfoldable pub unescape : Handle → ℕ → Pos → Bytes → Read Bytes
unfolding unicode_bytes
unescape h escaped p bs =
    if escaped == b'"' || escaped == b'\\' || escaped == b'/'
    then ok (escaped ∷ [], p, bs)
    else if escaped == b'b'
    then ok (8 ∷ [], p, bs)
    else if escaped == b'f'
    then ok (12 ∷ [], p, bs)
    else if escaped == b'n'
    then ok (10 ∷ [], p, bs)
    else if escaped == b'r'
    then ok (13 ∷ [], p, bs)
    else if escaped == b't'
    then ok (9 ∷ [], p, bs)
    else if escaped == b'u'
    then unicode_bytes h p bs
    else fail p bad_escape

-- What the loop of `parseString` does with a byte that it has taken; `loop` makes the next rounds.
unfoldable pub string_round :
    Handle → (Bytes → Pos → Bytes → Read Bytes) → Bytes → ℕ → Pos → Bytes → Read Bytes
string_round h loop output value p bs =
    if value == b'"'
    then ok (output, p, bs)
    else if ltb value 0x20
    then fail p control_byte
    else if not (value == b'\\')
    then loop (output ++ value ∷ []) p bs
    else (do
      (escaped, q, r) ← advance h p bs
      (o, q', r') ← unescape h escaped q r
      loop (output ++ o) q' r')

-- The loop. Each round takes a byte, so the length of the input is fuel enough.
unfoldable pub string_loop : ℕ → Handle → Bytes → Pos → Bytes → Read Bytes
unfolding unescape string_round
string_loop zero h output p bs = err out_of_fuel
string_loop (suc f) h output p [] = fail p unterminated_string
string_loop (suc f) h output p (c ∷ cs) = do
  (value, q, r) ← advance h p (c ∷ cs)
  string_round h (string_loop f h) output value q r

-- `parseString`
unfoldable pub parse_string : Handle → Pos → Bytes → Read Bytes
unfolding string_loop
parse_string h p bs = do (q, r) ← consume h b'"' p bs; string_loop (suc (length r)) h [] q r
