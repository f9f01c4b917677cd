-- ===== src/Parser/Strings.antt =====
-- src/compiler/parser/Parser.cpp: the segments of a string literal and its escapes.
-- `current` is the place of the cursor in the content of the literal, which is between its quotes.
use Prim.Native.Nat.{bit_or}
use crossa.Prelude.{
  ℕ, zero, suc, ◌+◌, ◌-◌, ◌*◌, ◌/◌, ◌%◌, Bool, false, not, ◌&&◌, ◌||◌, List, [], ◌∷◌, ◌++◌, Bytes,
  length, take, drop, ◌==◌, leb, ltb, within, if◌then◌else◌, Result, ok, err, ◌>>=◌,
}
use crossa.Lexer.Token.{Token}
use crossa.Syntax.{Location, StringSegment, StringSegmentKind}
use crossa.Parser.Cursor.{ParseError, out_of_fuel, fail, get_lexeme}

-- `isIdentifierStart`
unfoldable pub is_identifier_start : ℕ → Bool
is_identifier_start c = within b'a' b'z' c || within b'A' b'Z' c || c == b'_'

-- `isIdentifierPart`
unfoldable pub is_identifier_part : ℕ → Bool
unfolding is_identifier_start
is_identifier_part c = is_identifier_start c || within b'0' b'9' c

-- What a routine reads, the new `current` and the bytes from there on.
abbrev pub Scanned : Type 0 → Type 0
Scanned A = Result ParseError (A × ℕ × Bytes)

-- One digit of `readHexCodeUnit`
unfoldable pub code_unit_digit : Token → ℕ → Result ParseError ℕ
code_unit_digit token digit =
    if within b'0' b'9' digit
    then ok (digit - b'0')
    else if within b'a' b'f' digit
    then ok (digit - b'a' + 10)
    else if within b'A' b'F' digit
    then ok (digit - b'A' + 10)
    else fail token "Invalid hexadecimal Unicode string escape."

-- The loop of `readHexCodeUnit`, with the rounds left. Four digits fit into `unsigned int`.
unfoldable pub read_digits : Token → ℕ → ℕ → ℕ → Bytes → Scanned ℕ
unfolding code_unit_digit
read_digits token zero value current bs = ok (value, current, bs)
read_digits token (suc rounds) value current [] = fail token "Incomplete Unicode string escape."
read_digits token (suc rounds) value current (c ∷ cs) = do
  d ← code_unit_digit token c
  read_digits token rounds (value * 16 + d) (current + 1) cs

-- `readHexCodeUnit`
unfoldable pub read_hex_code_unit : Token → ℕ → Bytes → Scanned ℕ
unfolding read_digits
read_hex_code_unit token current bs =
    if ltb (length bs) 4
    then fail token "Incomplete Unicode string escape."
    else read_digits token 4 0 current bs

-- `appendCodePoint`: the bytes that it appends. `x & 0x3F` is `x % 64`.
unfoldable pub append_code_point : ℕ → Bytes
append_code_point c =
    if leb c 0x7F
    then c ∷ []
    else if leb c 0x7FF
    then bit_or 0xC0 (c / 64) ∷ bit_or 0x80 (c % 64) ∷ []
    else if leb c 0xFFFF
    then bit_or 0xE0 (c / 4096) ∷ bit_or 0x80 (c / 64 % 64) ∷ bit_or 0x80 (c % 64) ∷ []
    else (bit_or 0xF0 (c / 262144)
        ∷ bit_or 0x80 (c / 4096 % 64)
        ∷ bit_or 0x80 (c / 64 % 64)
        ∷ bit_or 0x80 (c % 64)
        ∷ [])

-- current + 2 <= content.size() && content[current] == '\\' && content[current + 1] == 'u'
unfoldable pub starts_escape : Bytes → Bool
starts_escape (x ∷ y ∷ _) = x == b'\\' && y == b'u'
starts_escape _ = false

-- The second half of a surrogate pair, behind the first half `high`.
unfoldable pub low_surrogate : Token → ℕ → ℕ → Bytes → Scanned ℕ
low_surrogate token high current bs =
    if not (starts_escape bs) then fail token "Invalid Unicode surrogate pair." else (do
      (low, n, r) ← read_hex_code_unit token (current + 2) (drop 2 bs)
      if ltb low 0xDC00 || ltb 0xDFFF low
          then fail token "Invalid Unicode surrogate pair."
          else ok (0x10000 + (high - 0xD800) * 1024 + (low - 0xDC00), n, r))

-- case 'u'
unfoldable pub unicode_escape : Token → ℕ → Bytes → Scanned ℕ
unfolding low_surrogate
unicode_escape token current bs = do
  (unit, n, r) ← read_hex_code_unit token current bs
  if within 0xD800 0xDBFF unit
      then low_surrogate token unit n r
      else if within 0xDC00 0xDFFF unit
      then fail token "Unexpected low Unicode surrogate."
      else ok (unit, n, r)

-- `appendStringEscape`, from behind the backslash: the bytes that it appends to the output.
unfoldable pub append_string_escape : Token → ℕ → Bytes → Scanned Bytes
append_string_escape token current [] = fail token "Unterminated string escape."
append_string_escape token current (escaped ∷ bs) =
    if escaped == b'"' || escaped == b'\\' || escaped == b'/' || escaped == b'#'
    then ok (escaped ∷ [], current + 1, bs)
    else if escaped == b'b'
    then ok (8 ∷ [], current + 1, bs)
    else if escaped == b'f'
    then ok (12 ∷ [], current + 1, bs)
    else if escaped == b'n'
    then ok (10 ∷ [], current + 1, bs)
    else if escaped == b'r'
    then ok (13 ∷ [], current + 1, bs)
    else if escaped == b't'
    then ok (9 ∷ [], current + 1, bs)
    else if escaped == b'u'
    then (do (c, n, r) ← unicode_escape token (current + 1) bs; ok (append_code_point c, n, r))
    else fail token "Unsupported string escape."

-- getLocation(token.getLine(), token.getColumn() + 1 + offset)
abbrev pub location_in : Token → ℕ → Location
location_in token offset = record { line = token.line; column = token.column + 1 + offset }

-- if (literal.empty()) literalStart = current
unfoldable pub mark : Bytes → ℕ → ℕ → ℕ
mark [] start current = current
mark (c ∷ cs) start current = start

-- if (!literal.empty()) segments.emplace_back(Literal, literal, …), before the later segments
unfoldable pub flush : Token → Bytes → ℕ → List StringSegment → List StringSegment
flush token [] start segments = segments
flush token (c ∷ cs) start segments =
    record { kind = StringSegmentKind.literal; value = c ∷ cs; location = location_in token start }
    ∷ segments

-- content[current] is the start of an interpolation, with the bytes behind it
unfoldable pub is_interpolation : ℕ → Bytes → Bool
unfolding is_identifier_start
is_interpolation c [] = false
is_interpolation c (d ∷ _) = c == b'#' && is_identifier_start d

-- while (isIdentifierPart(content[current])) ++current, as the length of what is passed
unfoldable pub name_length : Bytes → ℕ
unfolding is_identifier_part
name_length [] = 0
name_length (c ∷ cs) = if is_identifier_part c then suc (name_length cs) else 0

-- The identifier segment of an interpolation whose name starts at `start`.
abbrev pub identifier_segment : Token → ℕ → Bytes → StringSegment
identifier_segment token start name = record {
  kind = StringSegmentKind.identifier;
  value = name;
  location = location_in token start;
}

-- The loop of `parseStringSegments`, with the variables `literal`, `literalStart` and `current`.
unfoldable pub segments_loop :
    ℕ → Token → Bytes → ℕ → ℕ → Bytes → Result ParseError (List StringSegment)
unfolding mark is_interpolation flush name_length
segments_loop zero token literal start current bs = err out_of_fuel
segments_loop (suc f) token literal start current [] = ok (flush token literal start [])
segments_loop (suc f) token literal start current (c ∷ cs) =
    let escape = (do
      (o, n, r) ← append_string_escape token (current + 1) cs
      segments_loop f token (literal ++ o) (mark literal start current) n r) in
    let plain =
      segments_loop f token (literal ++ c ∷ []) (mark literal start current) (current + 1) cs in
    let interpolation = (do
      let n = name_length cs
      segments ← segments_loop f token [] start (current + 1 + n) (drop n cs)
      ok (
          flush token literal start
            (identifier_segment token (current + 1) (take n cs) ∷ segments))) in
    if c == b'\\' then escape else if is_interpolation c cs then interpolation else plain

-- `parseStringSegments`
unfoldable pub parse_string_segments : Bytes → Token → Result ParseError (List StringSegment)
unfolding segments_loop get_lexeme
parse_string_segments source token =
    let lexeme = get_lexeme source token in
    if ltb (length lexeme) 2
    then fail token "Invalid string literal token."
    else (let content = take (length lexeme - 2) (drop 1 lexeme) in
        segments_loop (suc (length content)) token [] 0 0 content)
