-- ===== src/Lexer/Scan.antt =====
-- src/compiler/lexer/Lexer.cpp: one token. A scanner is given the bytes behind the cursor and
-- returns the type of the token that it adds, if any, with the cursor behind it.
use crossa.Prelude.{
  ℕ, ◌+◌, ◌-◌, Bool, true, false, not, ◌&&◌, ◌||◌, [], ◌∷◌, Option, none, some, Bytes, take, ◌==◌,
  within, bytes_eq, codes, if◌then◌else◌, Result, ok, err, ◌>>=◌,
}
use crossa.Lexer.Token.{
  TokenType, integer_literal, decimal_literal, string_literal, import_path, annotation_sync,
  annotation_async, annotation_async_after, left_paren, right_paren, left_brace, right_brace,
  left_bracket, right_bracket, left_angle, right_angle, colon, comma, equal, equal_equal,
  bang_equal, bang, less_equal, greater_equal, and_and, or_or, plus, minus, star, slash,
  resolve_identifier_type,
}

-- currentOffset_, line_, column_
pub record Cursor : Type 0 where
  pub offset : ℕ
  pub line : ℕ
  pub column : ℕ

pub data Reason : Type 0 where
  single_ampersand single_bar exponent_digits unterminated_string unterminated_import : Reason
  import_whitespace annotation_expected unsupported_annotation unexpected_character : Reason

pub data LexError : Type 0 where
  -- fail(message), with tokenLine_ and tokenColumn_
  failed : ℕ → ℕ → Reason → LexError
  -- not an error of the program: the recursion of the model ran out of fuel
  out_of_fuel : LexError

-- A scanner's result: the token's type, and what is behind the token. The error is a reason; the
-- caller adds the place where the token starts, which `fail` reads from the lexer's state.
abbrev pub Scanned : Type 0
Scanned = Result Reason (Option TokenType × Cursor × Bytes)

-- `advance` on a byte that is there
unfoldable pub advance : ℕ → Cursor → Cursor
advance c p =
    if c == b'\n'
    then record { offset = p.offset + 1; line = p.line + 1; column = 1 }
    else record { offset = p.offset + 1; line = p.line; column = p.column + 1 }

-- `peek`, `peekNext`
abbrev pub peek : Bytes → ℕ
peek [] = 0
peek (c ∷ cs) = c

abbrev pub peek_next : Bytes → ℕ
peek_next [] = 0
peek_next (c ∷ cs) = peek cs

abbrev pub is_digit : ℕ → Bool
is_digit c = within b'0' b'9' c

abbrev pub is_identifier_start : ℕ → Bool
is_identifier_start c = within b'a' b'z' c || within b'A' b'Z' c || c == b'_'

abbrev pub is_identifier_part : ℕ → Bool
is_identifier_part c = is_identifier_start c || is_digit c

-- while (!isAtEnd() && test(peek())) advance(), where test('\0') is false or the end is tested
unfoldable pub advance_while : (ℕ → Bool) → Cursor → Bytes → Cursor × Bytes
advance_while test p [] = (p, [])
advance_while test p (c ∷ cs) =
    let rest = advance_while test (advance c p) cs in if test c then rest else (p, c ∷ cs)

-- advance(), which at the end does nothing
unfoldable pub advance_one : Cursor → Bytes → Cursor × Bytes
advance_one p [] = (p, [])
advance_one p (c ∷ cs) = (advance c p, cs)

-- addToken(match(expected) ? longer : shorter)
unfoldable pub add_matched : ℕ → TokenType → TokenType → Cursor → Bytes → Scanned
unfolding advance_one
add_matched expected longer shorter p bs =
    if peek bs == expected
    then (let (q, r) = advance_one p bs in ok (some longer, q, r))
    else ok (some shorter, p, bs)

-- if (!match(expected)) fail(why); addToken(type)
unfoldable pub require_matched : ℕ → Reason → TokenType → Cursor → Bytes → Scanned
unfolding advance_one
require_matched expected why type p bs =
    if peek bs == expected then (let (q, r) = advance_one p bs in ok (some type, q, r)) else err why

-- The lexeme between the start of the token and the cursor.
abbrev pub lexeme : Cursor → Bytes → Cursor → Bytes
lexeme start text p = take (p.offset - start.offset) text

-- `scanIdentifier`; `text` starts with the token, whose first byte is behind the cursor `p`
unfoldable pub scan_identifier : Cursor → Bytes → Cursor → Bytes → Scanned
scan_identifier start text p bs =
    let (q, r) = advance_while is_identifier_part p bs in
    ok (some (resolve_identifier_type (lexeme start text q)), q, r)

-- The fraction of `scanNumber`, and whether there is one.
unfoldable pub scan_fraction : Cursor → Bytes → Bool × Cursor × Bytes
unfolding advance_one
scan_fraction p bs =
    if peek bs == b'.' && is_digit (peek_next bs)
    then (let (q, r) = advance_one p bs in
        let (q', r') = advance_while is_digit q r in (true, q', r'))
    else (false, p, bs)

-- The optional sign of an exponent.
unfoldable pub skip_sign : Cursor → Bytes → Cursor × Bytes
skip_sign p bs = if peek bs == b'+' || peek bs == b'-' then advance_one p bs else (p, bs)

-- Its digits.
unfoldable pub scan_exponent_digits : Cursor → Bytes → Result Reason (Bool × Cursor × Bytes)
scan_exponent_digits p bs =
    if not (is_digit (peek bs))
    then err exponent_digits
    else (let (q, r) = advance_while is_digit p bs in ok (true, q, r))

-- The exponent, and whether the number is a decimal now that was `decimal` before.
unfoldable pub scan_exponent : Bool → Cursor → Bytes → Result Reason (Bool × Cursor × Bytes)
unfolding advance_one skip_sign scan_exponent_digits
scan_exponent decimal p bs =
    if peek bs == b'e' || peek bs == b'E'
    then (let (q, r) = advance_one p bs in
        let (q', r') = skip_sign q r in scan_exponent_digits q' r')
    else ok (decimal, p, bs)

-- `scanNumber`
unfoldable pub scan_number : Cursor → Bytes → Scanned
unfolding scan_fraction scan_exponent
scan_number p bs = do
  let (p1, b1) = advance_while is_digit p bs
  let (fraction, p2, b2) = scan_fraction p1 b1
  (decimal, p3, b3) ← scan_exponent fraction p2 b2
  ok (some (if decimal then decimal_literal else integer_literal), p3, b3)

-- `scanString`, with its flag
unfoldable pub scan_string : Bool → Cursor → Bytes → Scanned
scan_string escaped p [] = err unterminated_string
scan_string escaped p (c ∷ cs) =
    let rest = scan_string (if escaped then false else c == b'\\') (advance c p) cs in
    if not escaped && c == b'"'
    then ok (some string_literal, advance c p, cs)
    else if c == b'\n' || c == b'\r'
    then err unterminated_string
    else rest

-- `scanImportPath`
unfoldable pub scan_import_path : Cursor → Bytes → Scanned
scan_import_path p [] = err unterminated_import
scan_import_path p (c ∷ cs) =
    let rest = scan_import_path (advance c p) cs in
    if c == b'#'
    then ok (some import_path, advance c p, cs)
    else if c == b'\n' || c == b'\r'
    then err unterminated_import
    else if c == b' ' || c == b'\t'
    then err import_whitespace
    else rest

-- The chain at the end of `scanAnnotation`.
unfoldable pub annotation : Bytes → Result Reason TokenType
annotation word =
    if bytes_eq word (codes "@Sync")
    then ok annotation_sync
    else if bytes_eq word (codes "@Async")
    then ok annotation_async
    else if bytes_eq word (codes "@AsyncAfter")
    then ok annotation_async_after
    else err unsupported_annotation

-- `scanAnnotation`
unfoldable pub scan_annotation : Cursor → Bytes → Cursor → Bytes → Scanned
unfolding annotation
scan_annotation start text p bs =
    if not (is_identifier_start (peek bs)) then err annotation_expected else do
      let (q, r) = advance_while is_identifier_part p bs
      type ← annotation (lexeme start text q)
      ok (some type, q, r)

-- skipLineComment
unfoldable pub skip_line_comment : Cursor → Bytes → Scanned
skip_line_comment p bs = let (q, r) = advance_while (λ c. not (c == b'\n')) p bs in ok (none, q, r)

-- case '/'
unfoldable pub scan_slash : Cursor → Bytes → Scanned
unfolding advance_one skip_line_comment
scan_slash p bs =
    if peek bs == b'/'
    then (let (q, r) = advance_one p bs in skip_line_comment q r)
    else ok (some slash, p, bs)

-- The part of `scanToken` behind its switch.
unfoldable pub scan_word : Cursor → ℕ → Bytes → Cursor → Bytes → Scanned
scan_word start value text p bs =
    if is_digit value
    then scan_number p bs
    else if is_identifier_start value
    then scan_identifier start text p bs
    else err unexpected_character

-- The cases of the switch that add a token of one byte.
unfoldable pub single : ℕ → Option TokenType
single c =
    if c == b'('
    then some left_paren
    else if c == b')'
    then some right_paren
    else if c == b'{'
    then some left_brace
    else if c == b'}'
    then some right_brace
    else if c == b'['
    then some left_bracket
    else if c == b']'
    then some right_bracket
    else if c == b':'
    then some colon
    else if c == b','
    then some comma
    else if c == b'+'
    then some plus
    else if c == b'-'
    then some minus
    else if c == b'*'
    then some star
    else none

abbrev pub is_blank : ℕ → Bool
is_blank c = c == b' ' || c == b'\r' || c == b'\t' || c == b'\n'

-- The other cases, on the byte `value` that was taken.
unfoldable pub scan_other : Cursor → ℕ → Bytes → Cursor → Bytes → Scanned
scan_other start value text p bs =
    if value == b'<'
    then add_matched b'=' less_equal left_angle p bs
    else if value == b'>'
    then add_matched b'=' greater_equal right_angle p bs
    else if value == b'='
    then add_matched b'=' equal_equal equal p bs
    else if value == b'!'
    then add_matched b'=' bang_equal bang p bs
    else if value == b'&'
    then require_matched b'&' single_ampersand and_and p bs
    else if value == b'|'
    then require_matched b'|' single_bar or_or p bs
    else if value == b'/'
    then scan_slash p bs
    else if value == b'#'
    then scan_import_path p bs
    else if value == b'@'
    then scan_annotation start text p bs
    else if value == b'"'
    then scan_string false p bs
    else if is_blank value
    then ok (none, p, bs)
    else scan_word start value text p bs

-- `scanToken`, at the byte `value` before the bytes `rest`
unfoldable pub scan_token : Cursor → ℕ → Bytes → Scanned
unfolding single scan_other scan_word scan_number scan_identifier scan_string scan_import_path
    scan_annotation scan_slash require_matched add_matched
scan_token start value rest = elim (single value) [
  | some type ↦ ok (some type, advance value start, rest)
  | none ↦ scan_other start value (value ∷ rest) (advance value start) rest
]
