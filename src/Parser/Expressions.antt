-- ===== src/Parser/Expressions.antt =====
-- src/compiler/parser/Parser.cpp: expressions.
-- The routines call one another in a cycle through `parseExpression`, so each takes the parser of
-- the expressions inside it as an argument.
use Prim.Native.String.{String}
use crossa.Prelude.{
  ℕ, zero, suc, List, [], ◌∷◌, ◌++◌, Option, none, some, Bytes, if◌then◌else◌, ok, err, ◌>>=◌,
}
use crossa.Lexer.Token.{TokenType, Token}
use crossa.Syntax.{
  Location, UnaryOperator, BinaryOperator, StringSegment, StringSegmentKind, Expression,
  Expressions,
}
use crossa.Parser.Cursor.{
  out_of_fuel, Tokens, Read, get_lexeme, location_of, peek, check, advance, consume,
}

abbrev pub Parse : Type 0
Parse = Tokens → Read Expression

-- The operators of the six loops on binary operators, from the one that binds least.
unfoldable pub or_operator : TokenType → Option BinaryOperator
or_operator TokenType.or_or = some BinaryOperator.logical_or
or_operator _ = none

unfoldable pub and_operator : TokenType → Option BinaryOperator
and_operator TokenType.and_and = some BinaryOperator.logical_and
and_operator _ = none

unfoldable pub equality_operator : TokenType → Option BinaryOperator
equality_operator TokenType.equal_equal = some BinaryOperator.equal
equality_operator TokenType.bang_equal = some BinaryOperator.not_equal
equality_operator _ = none

unfoldable pub comparison_operator : TokenType → Option BinaryOperator
comparison_operator TokenType.left_angle = some BinaryOperator.less
comparison_operator TokenType.right_angle = some BinaryOperator.greater
comparison_operator TokenType.less_equal = some BinaryOperator.less_equal
comparison_operator TokenType.greater_equal = some BinaryOperator.greater_equal
comparison_operator _ = none

unfoldable pub additive_operator : TokenType → Option BinaryOperator
additive_operator TokenType.plus = some BinaryOperator.add
additive_operator TokenType.minus = some BinaryOperator.subtract
additive_operator _ = none

unfoldable pub multiplicative_operator : TokenType → Option BinaryOperator
multiplicative_operator TokenType.star = some BinaryOperator.multiply
multiplicative_operator TokenType.slash = some BinaryOperator.divide
multiplicative_operator _ = none

-- One round of the loop on the operator at the cursor; `loop` makes the next rounds.
unfoldable pub binary_round :
    Option BinaryOperator → (Expression → Parse) → Parse → Expression → Parse
binary_round none loop operand left ts = ok (left, ts)
binary_round (some operation) loop operand left ts = do
  (right, r) ← operand (advance ts)
  loop (Expression.binary left operation right (location_of (peek ts))) r

-- while (the cursor is at an operator) expression = BinaryExpression(expression, …)
unfoldable pub binary_loop : ℕ → (TokenType → Option BinaryOperator) → Parse → Expression → Parse
unfolding binary_round
binary_loop zero operator operand left ts = err out_of_fuel
binary_loop (suc f) operator operand left ts =
    binary_round (operator (peek ts).type) (binary_loop f operator operand) operand left ts

-- The common body of the six routines.
unfoldable pub binary_level : ℕ → (TokenType → Option BinaryOperator) → Parse → Parse
unfolding binary_loop
binary_level f operator operand ts = do
  (left, r) ← operand ts
  binary_loop f operator operand left r

-- `parseMultiplicativeExpression` to `parseLogicalOrExpression`
unfoldable pub parse_multiplicative_expression : ℕ → Parse → Parse
parse_multiplicative_expression f unary = binary_level f multiplicative_operator unary

unfoldable pub parse_additive_expression : ℕ → Parse → Parse
parse_additive_expression f unary =
    binary_level f additive_operator (parse_multiplicative_expression f unary)

unfoldable pub parse_comparison_expression : ℕ → Parse → Parse
parse_comparison_expression f unary =
    binary_level f comparison_operator (parse_additive_expression f unary)

unfoldable pub parse_equality_expression : ℕ → Parse → Parse
parse_equality_expression f unary =
    binary_level f equality_operator (parse_comparison_expression f unary)

unfoldable pub parse_logical_and_expression : ℕ → Parse → Parse
parse_logical_and_expression f unary =
    binary_level f and_operator (parse_equality_expression f unary)

unfoldable pub parse_logical_or_expression : ℕ → Parse → Parse
parse_logical_or_expression f unary =
    binary_level f or_operator (parse_logical_and_expression f unary)

-- A unary expression around what `operand` reads behind its operator.
abbrev pub wrap : UnaryOperator → Token → Read Expression → Read Expression
wrap operation token operand = do
  (e, r) ← operand
  ok (Expression.unary operation e (location_of token), r)

-- What is read behind a minus: a literal, or else as `general` reads it.
unfoldable pub negated_operand : Bytes → Read Expression → Parse
negated_operand source general ts =
    let number = get_lexeme source (peek ts) in
    if check TokenType.decimal_literal ts
    then ok (Expression.decimal_literal number (location_of (peek ts)), advance ts)
    else if check TokenType.integer_literal ts
    then ok (Expression.integer_literal number (location_of (peek ts)), advance ts)
    else general

-- `parseUnaryExpression`; no limit on the nesting here
unfoldable pub parse_unary_expression : ℕ → Bytes → Parse → Parse
unfolding negated_operand
parse_unary_expression zero source primary ts = err out_of_fuel
parse_unary_expression (suc f) source primary ts =
    let operand = parse_unary_expression f source primary (advance ts) in
    let inverted = wrap UnaryOperator.not (peek ts) operand in
    let negated =
      wrap UnaryOperator.negate (peek ts) (negated_operand source operand (advance ts)) in
    if check TokenType.bang ts
    then inverted
    else if check TokenType.minus ts
    then negated
    else primary ts

-- do { … parseExpression() … } while (match(Comma)), from the first expression on
unfoldable pub expressions_loop : ℕ → Parse → Tokens → Read Expressions
expressions_loop zero inner ts = err out_of_fuel
expressions_loop (suc f) inner ts = do
  (e, r) ← inner ts
  let more = (do (es, r') ← expressions_loop f inner (advance r); ok (Expressions.cons e es, r'))
  if check TokenType.comma r then more else ok (Expressions.cons e Expressions.nil, r)

-- The expressions before a closing token, if there are any, and that token.
unfoldable pub parse_list : ℕ → TokenType → String → Parse → Tokens → Read Expressions
unfolding expressions_loop
parse_list f close message inner ts = do
  (es, r) ← (if check close ts then ok (Expressions.nil, ts) else expressions_loop f inner ts)
  (_, r') ← consume close message r
  ok (es, r')

-- `parseCallExpression`
unfoldable pub parse_call_expression : ℕ → Parse → Bytes → Location → Parse
unfolding parse_list
parse_call_expression f inner callee location ts = do
  (arguments, r) ← parse_list f TokenType.right_paren "Expected ')' after call arguments." inner ts
  ok (Expression.call callee arguments location, r)

-- `parseJsonArrayExpression`
unfoldable pub parse_json_array_expression : ℕ → Parse → Location → Parse
unfolding parse_list
parse_json_array_expression f inner location ts = do
  (values, r) ← parse_list f TokenType.right_bracket "Expected ']' after the JSON array." inner ts
  ok (Expression.json_array values location, r)

-- The values of the segments, if all are literal.
unfoldable pub literal_text : List StringSegment → Option Bytes
literal_text [] = some []
literal_text (s ∷ segments) = prepend s.kind s.value (literal_text segments)
  where
    prepend : StringSegmentKind → Bytes → Option Bytes → Option Bytes
    prepend StringSegmentKind.literal value (some text) = some (value ++ text)
    prepend _ value text = none
