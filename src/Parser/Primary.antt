-- ===== src/Parser/Primary.antt =====
-- src/compiler/parser/Parser.cpp: entries, literals of HTTP methods, primary expressions, and the
-- knot of `parseExpression`.
use Prim.Native.String.{String}
use crossa.Prelude.{
  ℕ, zero, suc, Bool, ◌||◌, Option, none, some, Bytes, codes, bytes_eq, if◌then◌else◌, ok, err,
  ◌>>=◌,
}
use crossa.Lexer.Token.{TokenType}
use crossa.Syntax.{Location, HttpMethod, Expression, Entries}
use crossa.Parser.Cursor.{
  out_of_fuel, fail, Tokens, Read, get_lexeme, location_of, peek, check, advance, consume,
}
use crossa.Parser.Strings.{parse_string_segments}
use crossa.Parser.Types.{enter}
use crossa.Parser.Expressions.{
  Parse, parse_unary_expression, parse_logical_or_expression, parse_call_expression,
  parse_json_array_expression, literal_text,
}

abbrev pub ParseKey : Type 0
ParseKey = Tokens → Read Bytes

-- An identifier, as its name
unfoldable pub parse_name : Bytes → String → ParseKey
parse_name source message ts = do
  (name, r) ← consume TokenType.identifier message ts
  ok (get_lexeme source name, r)

-- The key of a string literal that stands at the cursor
unfoldable pub string_key : Tokens → Option Bytes → Read Bytes
string_key ts none = fail (peek ts) "A JSON object key cannot use interpolation."
string_key ts (some key) = ok (key, advance ts)

-- `parseJsonObjectKey`
unfoldable pub parse_json_object_key : Bytes → ParseKey
unfolding string_key
parse_json_object_key source ts =
    if check TokenType.identifier ts
    then ok (get_lexeme source (peek ts), advance ts)
    else if check TokenType.string_literal ts
    then (do
      segments ← parse_string_segments source (peek ts)
      string_key ts (literal_text segments))
    else fail (peek ts) "Expected an identifier or string JSON object key."

-- do { key ':' parseExpression() } while (match(Comma)), from the first key on
unfoldable pub entries_loop : ℕ → ParseKey → String → Parse → Tokens → Read Entries
entries_loop zero key colon inner ts = err out_of_fuel
entries_loop (suc f) key colon inner ts = do
  (name, r) ← key ts
  (_, r') ← consume TokenType.colon colon r
  (value, r'') ← inner r'
  let location = location_of (peek ts)
  let more = (do
    (rest, r3) ← entries_loop f key colon inner (advance r'')
    ok (Entries.entry name value location rest, r3))
  if check TokenType.comma r''
      then more
      else ok (Entries.entry name value location Entries.end, r'')

-- The entries before a right brace, if there are any, and the brace.
unfoldable pub parse_entries : ℕ → ParseKey → String → String → Parse → Tokens → Read Entries
unfolding entries_loop
parse_entries f key colon close inner ts = do
  (entries, r) ←
      (if check TokenType.right_brace ts
        then ok (Entries.end, ts)
        else entries_loop f key colon inner ts)
  (_, r') ← consume TokenType.right_brace close r
  ok (entries, r')

-- `parseCrossaRequestExpression`
unfoldable pub parse_crossa_request_expression : ℕ → Bytes → Parse → Location → Parse
unfolding parse_entries parse_name
parse_crossa_request_expression f source inner location ts = do
  (_, r) ← consume TokenType.left_brace "Expected '{' after 'CrossaRequest'." ts
  (entries, r') ←
      parse_entries f (parse_name source "Expected a CrossaRequest entry name.")
        "Expected ':' after the CrossaRequest entry name."
        "Expected '}' after CrossaRequest entries." inner r
  ok (Expression.crossa_request entries location, r')

-- `parseJsonObjectExpression`
unfoldable pub parse_json_object_expression : ℕ → Bytes → Parse → Location → Parse
unfolding parse_entries parse_json_object_key
parse_json_object_expression f source inner location ts = do
  (entries, r) ←
      parse_entries f (parse_json_object_key source) "Expected ':' after the JSON object key."
        "Expected '}' after the JSON object." inner ts
  ok (Expression.json_object entries location, r)

-- The switch of `parseHttpMethodExpression`
unfoldable pub method_of : TokenType → Option HttpMethod
method_of TokenType.method_get = some HttpMethod.get
method_of TokenType.method_post = some HttpMethod.post
method_of TokenType.method_put = some HttpMethod.put
method_of TokenType.method_patch = some HttpMethod.patch
method_of TokenType.method_delete = some HttpMethod.delete
method_of TokenType.method_head = some HttpMethod.head
method_of TokenType.method_options = some HttpMethod.options
method_of TokenType.method_trace = some HttpMethod.trace
method_of TokenType.method_connect = some HttpMethod.connect
method_of _ = none

-- `parseHttpMethodExpression`, which is called at the token of a method
unfoldable pub parse_http_method_expression : Option HttpMethod → Parse
parse_http_method_expression none ts = fail (peek ts) "Expected a supported HTTP method."
parse_http_method_expression (some method) ts =
    ok (Expression.http_method method (location_of (peek ts)), advance ts)

-- check(MethodGet) || … || check(MethodConnect)
unfoldable pub at_method : Tokens → Bool
at_method ts =
    check TokenType.method_get ts
    || check TokenType.method_post ts
    || check TokenType.method_put ts
    || check TokenType.method_patch ts
    || check TokenType.method_delete ts
    || check TokenType.method_head ts
    || check TokenType.method_options ts
    || check TokenType.method_trace ts
    || check TokenType.method_connect ts

-- `print` or `assert`, with the list of its arguments
unfoldable pub parse_builtin_call : ℕ → Bytes → String → Parse → Parse
unfolding parse_call_expression
parse_builtin_call f name message inner ts = do
  (_, r) ← consume TokenType.left_paren message (advance ts)
  parse_call_expression f inner name (location_of (peek ts)) r

-- An identifier, or a call of it
unfoldable pub parse_identifier : ℕ → Bytes → Parse → Parse
unfolding parse_call_expression
parse_identifier f source inner ts =
    let name = get_lexeme source (peek ts) in
    if check TokenType.left_paren (advance ts)
    then parse_call_expression f inner name (location_of (peek ts)) (advance (advance ts))
    else ok (Expression.identifier name (location_of (peek ts)), advance ts)

-- An expression in parentheses
unfoldable pub parse_group : Parse → Parse
parse_group inner ts = do
  (e, r) ← inner (advance ts)
  (_, r') ← consume TokenType.right_paren "Expected ')' after the expression." r
  ok (e, r')

-- A string literal
unfoldable pub parse_string_literal : Bytes → Parse
parse_string_literal source ts = do
  segments ← parse_string_segments source (peek ts)
  ok (Expression.string_literal segments (location_of (peek ts)), advance ts)

-- `parsePrimaryExpression`; `inner` is `parseExpression`
unfoldable pub parse_primary_expression : ℕ → Bytes → Parse → Parse
unfolding parse_string_literal parse_crossa_request_expression parse_http_method_expression
    method_of at_method parse_json_object_expression parse_json_array_expression parse_builtin_call
    parse_identifier parse_group
parse_primary_expression f source inner ts =
    let text = get_lexeme source (peek ts) in
    let location = location_of (peek ts) in
    if check TokenType.integer_literal ts
    then ok (Expression.integer_literal text location, advance ts)
    else if check TokenType.decimal_literal ts
    then ok (Expression.decimal_literal text location, advance ts)
    else if check TokenType.string_literal ts
    then parse_string_literal source ts
    else if check TokenType.boolean_literal ts
    then ok (Expression.boolean_literal (bytes_eq text (codes "true")) location, advance ts)
    else if check TokenType.keyword_null ts
    then ok (Expression.json_null location, advance ts)
    else if check TokenType.keyword_crossa_request ts
    then parse_crossa_request_expression f source inner location (advance ts)
    else if at_method ts
    then parse_http_method_expression (method_of (peek ts).type) ts
    else if check TokenType.left_brace ts
    then parse_json_object_expression f source inner location (advance ts)
    else if check TokenType.left_bracket ts
    then parse_json_array_expression f inner location (advance ts)
    else if check TokenType.keyword_print ts
    then parse_builtin_call f (codes "print") "Expected '(' after 'print'." inner ts
    else if check TokenType.keyword_assert ts
    then parse_builtin_call f (codes "assert") "Expected '(' after 'assert'." inner ts
    else if check TokenType.identifier ts
    then parse_identifier f source inner ts
    else if check TokenType.left_paren ts
    then parse_group inner ts
    else fail (peek ts) "Expected an expression."

-- `parseExpression`, at the depth `depth` before it
unfoldable pub parse_expression : ℕ → Bytes → ℕ → Parse
unfolding enter parse_logical_or_expression parse_unary_expression parse_primary_expression
parse_expression zero source depth ts = err out_of_fuel
parse_expression (suc f) source depth ts =
    let inner = parse_expression f source (suc depth) in
    enter depth ts (
      parse_logical_or_expression (suc f)
        (parse_unary_expression (suc f) source (parse_primary_expression (suc f) source inner)) ts)
