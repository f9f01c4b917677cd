-- ===== src/Parser/Complete/Levels.antt =====
-- The loops on binary operators, each by the number of its level.
use crossa.Prelude.{
  ℕ, zero, suc, ◌<◌, Option, none, some, length, ok, ◌≡◌, refl, ◌∙◌, subst, arith, inl, inr,
  Option-cases,
}
use crossa.Lexer.Token.{TokenType, Token}
use crossa.Syntax.{BinaryOperator, Expression}
use crossa.Parser.Cursor.{Tokens, peek, location_of}
use crossa.Parser.Expressions.{
  Parse, or_operator, and_operator, equality_operator, comparison_operator, additive_operator,
  multiplicative_operator, binary_loop, binary_level, parse_multiplicative_expression,
  parse_additive_expression, parse_comparison_expression, parse_equality_expression,
  parse_logical_and_expression, parse_logical_or_expression,
}
use crossa.Parser.Grammar.{Starts, Stops, symbol, precedence}
use crossa.Parser.Sound.Levels.{
  or_known, and_known, equality_known, comparison_known, additive_known, multiplicative_known,
  symbol-ne-end,
}
use crossa.Parser.Complete.Cursors.{peek-Starts, advance_Starts, type-Starts}

-- The operators of a level, and the parser of a level over the parser of prefixed expressions.
unfoldable pub operator_at : ℕ → TokenType → Option BinaryOperator
operator_at zero = or_operator
operator_at (suc zero) = and_operator
operator_at (suc (suc zero)) = equality_operator
operator_at (suc (suc (suc zero))) = comparison_operator
operator_at (suc (suc (suc (suc zero)))) = additive_operator
operator_at (suc (suc (suc (suc (suc zero))))) = multiplicative_operator
operator_at _ = λ t. none

unfoldable pub parse_level : ℕ → Parse → ℕ → Parse
parse_level f unary zero = parse_logical_or_expression f unary
parse_level f unary (suc zero) = parse_logical_and_expression f unary
parse_level f unary (suc (suc zero)) = parse_equality_expression f unary
parse_level f unary (suc (suc (suc zero))) = parse_comparison_expression f unary
parse_level f unary (suc (suc (suc (suc zero)))) = parse_additive_expression f unary
parse_level f unary (suc (suc (suc (suc (suc zero))))) = parse_multiplicative_expression f unary
parse_level f unary _ = unary

operator_known :
    (level : ℕ) (t : TokenType) (o : BinaryOperator)
    → operator_at level t ≡ some o
    → (t ≡ symbol o) × (precedence o ≡ level)
unfolding operator_at
operator_known zero t o h = or_known t o h
operator_known (suc zero) t o h = and_known t o h
operator_known (suc (suc zero)) t o h = equality_known t o h
operator_known (suc (suc (suc zero))) t o h = comparison_known t o h
operator_known (suc (suc (suc (suc zero)))) t o h = additive_known t o h
operator_known (suc (suc (suc (suc (suc zero))))) t o h = multiplicative_known t o h
operator_known (suc (suc (suc (suc (suc (suc l)))))) t o h = absurd (cc)

operator_at-symbol : (o : BinaryOperator) → operator_at (precedence o) (symbol o) ≡ some o
unfolding operator_at precedence symbol or_operator and_operator equality_operator
    comparison_operator additive_operator multiplicative_operator
operator_at-symbol BinaryOperator.logical_or = refl
operator_at-symbol BinaryOperator.logical_and = refl
operator_at-symbol BinaryOperator.equal = refl
operator_at-symbol BinaryOperator.not_equal = refl
operator_at-symbol BinaryOperator.less = refl
operator_at-symbol BinaryOperator.less_equal = refl
operator_at-symbol BinaryOperator.greater = refl
operator_at-symbol BinaryOperator.greater_equal = refl
operator_at-symbol BinaryOperator.add = refl
operator_at-symbol BinaryOperator.subtract = refl
operator_at-symbol BinaryOperator.multiply = refl
operator_at-symbol BinaryOperator.divide = refl

parse_level_lem :
    (f level : ℕ) (unary : Parse) (ts : Tokens)
    → level < 6
    → parse_level f unary level ts
      ≡ binary_level f (operator_at level) (parse_level f unary (suc level)) ts
unfolding parse_level operator_at parse_logical_or_expression parse_logical_and_expression
    parse_equality_expression parse_comparison_expression parse_additive_expression
    parse_multiplicative_expression
parse_level_lem f zero unary ts h = refl
parse_level_lem f (suc zero) unary ts h = refl
parse_level_lem f (suc (suc zero)) unary ts h = refl
parse_level_lem f (suc (suc (suc zero))) unary ts h = refl
parse_level_lem f (suc (suc (suc (suc zero)))) unary ts h = refl
parse_level_lem f (suc (suc (suc (suc (suc zero))))) unary ts h = refl
parse_level_lem f (suc (suc (suc (suc (suc (suc l)))))) unary ts h = absurd (omega arith)

-- Where no operator of the level follows, the loop ends.
pub binary_loop-Stops :
    (level f : ℕ) (operand : Parse) (left : Expression) (r : Tokens)
    → Stops level r
    → length r < f
    → binary_loop f (operator_at level) operand left r ≡ ok (left, r)
unfolding binary_loop
binary_loop-Stops level zero operand left r stops lt = elim lt [ ]
binary_loop-Stops level (suc f) operand left r stops lt =
    elim (Option-cases (operator_at level (peek r).type)) [
      | inl nothing ↦ rw nothing refl
      | inr (o, found) ↦
          let facts = operator_known level (peek r).type o found in absurd (stops o facts.1 facts.0)
    ]

-- At an operator of the level, the loop takes it and an operand.
pub binary_loop-Starts :
    (level f : ℕ) (operand : Parse) (left right : Expression) (o : BinaryOperator) (u v r : Tokens)
    (t : Token)
    → Starts (symbol o) u t v
    → precedence o ≡ level
    → operand v ≡ ok (right, r)
    → binary_loop (suc f) (operator_at level) operand left u
      ≡ binary_loop f (operator_at level) operand (Expression.binary left o right (location_of t)) r
unfolding binary_loop
binary_loop-Starts level f operand left right o u v r t starts p read =
    let found : operator_at level (peek u).type ≡ some o =
      rw (type-Starts starts)
        (subst (λ l. operator_at l (symbol o) ≡ some o) p (operator_at-symbol o)) in
    rw (found, advance_Starts starts (symbol-ne-end o), read, peek-Starts starts) refl

-- The parser of a level, once its first operand is read.
pub parse_level-operand :
    (f level : ℕ) (unary : Parse) (ts r : Tokens) (e : Expression)
    → level < 6
    → parse_level f unary (suc level) ts ≡ ok (e, r)
    → parse_level f unary level ts
      ≡ binary_loop f (operator_at level) (parse_level f unary (suc level)) e r
unfolding binary_level
parse_level-operand f level unary ts r e h read = parse_level_lem f level unary ts h ∙ rw read refl
