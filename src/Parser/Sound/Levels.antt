-- ===== src/Parser/Sound/Levels.antt =====
-- The loops on binary operators, and prefixes.
use crossa.Prelude.{
  ℕ, zero, suc, ◌≤◌, ◌<◌, true, Option, none, some, Bytes, length, ok, ◌≡◌, ◌≢◌, arith, done,
  Post-if, Post-bind, Post-weaken, inl, inr, Option-cases,
}
use crossa.Lexer.Token.{TokenType, Token}
use crossa.Syntax.{UnaryOperator, BinaryOperator, Expression}
use crossa.Parser.Cursor.{Tokens, Read, location_of, peek, check, advance}
use crossa.Parser.Expressions.{
  Parse, or_operator, and_operator, equality_operator, comparison_operator, additive_operator,
  multiplicative_operator, binary_loop, binary_level, parse_multiplicative_expression,
  parse_additive_expression, parse_comparison_expression, parse_equality_expression,
  parse_logical_and_expression, parse_logical_or_expression, parse_unary_expression, wrap,
  negated_operand,
}
use crossa.Parser.Grammar.{symbol, precedence, Stops}
use crossa.Parser.Grammar.Expressions.{
  Derives, tighter, binary, inverted, negated, integer, decimal,
}
use crossa.Parser.Sound.Cursors.{Good, Reads, check-Good, check-Starts, advance-Starts, Starts-Good}

-- The function of a loop knows the operators of the level, and no others.
pub record IsLevel (level : ℕ) (operator : TokenType → Option BinaryOperator) : Type 0 where
  pub known :
      (t : TokenType) (o : BinaryOperator)
      → operator t ≡ some o
      → (t ≡ symbol o) × (precedence o ≡ level)
  pub complete : (o : BinaryOperator) → precedence o ≡ level → operator (symbol o) ≢ none

pub or_known :
    (t : TokenType) (o : BinaryOperator)
    → or_operator t ≡ some o
    → (t ≡ symbol o) × (precedence o ≡ 0)
unfolding or_operator symbol precedence
or_known _ o h = ground arith

pub or_complete : (o : BinaryOperator) → precedence o ≡ 0 → or_operator (symbol o) ≢ none
unfolding or_operator symbol precedence
or_complete _ h = ground arith

pub and_known :
    (t : TokenType) (o : BinaryOperator)
    → and_operator t ≡ some o
    → (t ≡ symbol o) × (precedence o ≡ 1)
unfolding and_operator symbol precedence
and_known _ o h = ground arith

pub and_complete : (o : BinaryOperator) → precedence o ≡ 1 → and_operator (symbol o) ≢ none
unfolding and_operator symbol precedence
and_complete _ h = ground arith

pub equality_known :
    (t : TokenType) (o : BinaryOperator)
    → equality_operator t ≡ some o
    → (t ≡ symbol o) × (precedence o ≡ 2)
unfolding equality_operator symbol precedence
equality_known _ o h = ground arith

pub equality_complete :
    (o : BinaryOperator) → precedence o ≡ 2 → equality_operator (symbol o) ≢ none
unfolding equality_operator symbol precedence
equality_complete _ h = ground arith

pub comparison_known :
    (t : TokenType) (o : BinaryOperator)
    → comparison_operator t ≡ some o
    → (t ≡ symbol o) × (precedence o ≡ 3)
unfolding comparison_operator symbol precedence
comparison_known _ o h = ground arith

pub comparison_complete :
    (o : BinaryOperator) → precedence o ≡ 3 → comparison_operator (symbol o) ≢ none
unfolding comparison_operator symbol precedence
comparison_complete _ h = ground arith

pub additive_known :
    (t : TokenType) (o : BinaryOperator)
    → additive_operator t ≡ some o
    → (t ≡ symbol o) × (precedence o ≡ 4)
unfolding additive_operator symbol precedence
additive_known _ o h = ground arith

pub additive_complete :
    (o : BinaryOperator) → precedence o ≡ 4 → additive_operator (symbol o) ≢ none
unfolding additive_operator symbol precedence
additive_complete _ h = ground arith

pub multiplicative_known :
    (t : TokenType) (o : BinaryOperator)
    → multiplicative_operator t ≡ some o
    → (t ≡ symbol o) × (precedence o ≡ 5)
unfolding multiplicative_operator symbol precedence
multiplicative_known _ o h = ground arith

pub multiplicative_complete :
    (o : BinaryOperator) → precedence o ≡ 5 → multiplicative_operator (symbol o) ≢ none
unfolding multiplicative_operator symbol precedence
multiplicative_complete _ h = ground arith

-- No binary operator has the level of a prefix or of an atom.
pub precedence-le : (o : BinaryOperator) → precedence o ≤ 5
unfolding precedence
precedence-le _ = ground arith

pub Stops-5 : (level : ℕ) (r : Tokens) → 5 < level → Stops level r
Stops-5 level r lt o e = absurd (omega (arith, precedence-le o))

pub symbol-ne-end : (o : BinaryOperator) → symbol o ≢ TokenType.end_of_file
unfolding symbol
symbol-ne-end _ = ground arith

module _ (P : Token → Type 0) (source : Bytes) where
  -- A parser of expressions of a level, over less than `f` tokens.
  abbrev pub Sound : ℕ → ℕ → ℕ → Parse → Type 0
  Sound depth level f parse =
      (ts : Tokens)
      → Good P ts
      → length ts < f
      → Reads P (λ e r. Derives source depth level ts e r × Stops level r) ts (parse ts)

  module _ (depth level f : ℕ) (operator : TokenType → Option BinaryOperator) where
    -- The loop, with the expression `left` from the tokens between `ts` and `u`.
    binary_loop-Reads :
        (operand : Parse)
        → IsLevel level operator
        → Sound depth (suc level) f operand
        → (fuel : ℕ) (left : Expression) (ts u : Tokens) → Derives source depth level ts left u
        → Good P u
        → length u < fuel
        → length u < f
        → length u < length ts
        → Reads P
            (λ e r. Derives source depth level ts e r × Stops level r)
            ts
            (binary_loop fuel operator operand left u)
    unfolding binary_loop
    binary_loop-Reads operand is sound zero left ts u derives good lt lf less = absurd (omega arith)
    binary_loop-Reads operand is sound (suc fuel) left ts u derives good lt lf less =
        elim (Option-cases (operator (peek u).type)) [
          | inl nothing ↦
              rw nothing (done ((derives, λ o e same. is.complete o e (cc)), good, less))
          | inr (o, found) ↦ rw found (
              let facts = is.known (peek u).type o found in
              let ne : (peek u).type ≢ TokenType.end_of_file =
                λ e. symbol-ne-end o (cc (facts.0)) in
              let starts = advance-Starts u ne in
              let moved = Starts-Good P (peek u).type u (advance u) (peek u) good starts ne in
              Post-bind _ (sound (advance u) moved.1 (omega arith)) (λ x right.
                binary_loop-Reads operand is sound fuel _ ts x.1
                  (binary derives (starts.0, facts.0) facts.1 right.0.0 right.0.1) right.1
                  (omega arith) (omega arith) (omega arith)))
        ]

    pub binary_level-Sound :
        (operand : Parse)
        → IsLevel level operator
        → Sound depth (suc level) f operand
        → Sound depth level f (binary_level f operator operand)
    unfolding binary_level
    binary_level-Sound operand is sound ts good lt = Post-bind _ (sound ts good lt) (λ x left.
        binary_loop-Reads operand is sound f x.0 ts x.1 (tighter left.0.0 left.0.1) left.1
          (omega arith) (omega arith) left.2)

  module _ (depth f : ℕ) (unary : Parse) where
    -- The ladder of the six routines.
    pub parse_logical_or_expression-Sound :
        Sound depth 6 f unary → Sound depth 0 f (parse_logical_or_expression f unary)
    unfolding parse_logical_or_expression parse_logical_and_expression parse_equality_expression
        parse_comparison_expression parse_additive_expression parse_multiplicative_expression
    parse_logical_or_expression-Sound sound =
        level 0 or_operator _ (record { known = or_known; complete = or_complete })
          (level 1 and_operator _ (record { known = and_known; complete = and_complete })
            (level 2 equality_operator _
              (record { known = equality_known; complete = equality_complete })
              (level 3 comparison_operator _
                (record { known = comparison_known; complete = comparison_complete })
                (level 4 additive_operator _
                  (record { known = additive_known; complete = additive_complete })
                  (level 5 multiplicative_operator _
                    (record { known = multiplicative_known; complete = multiplicative_complete })
                    sound)))))
      where
        level :
            (l : ℕ) (operator : TokenType → Option BinaryOperator) (operand : Parse)
            → IsLevel l operator
            → Sound depth (suc l) f operand
            → Sound depth l f (binary_level f operator operand)
        level l operator operand = binary_level-Sound depth l f operator operand

  -- A prefix around what is read behind it.
  wrap-Reads :
      (depth : ℕ) (ts : Tokens) (o : UnaryOperator) (m : Read Expression)
      → ((e : Expression) (r : Tokens)
          → Derives source depth 6 (advance ts) e r
          → Derives source depth 6 ts (Expression.unary o e (location_of (peek ts))) r)
      → length (advance ts) < length ts
      → Reads P (λ e r. Derives source depth 6 (advance ts) e r × Stops 6 r) (advance ts) m
      → Reads P (λ e r. Derives source depth 6 ts e r × Stops 6 r) ts (wrap o (peek ts) m)
  wrap-Reads depth ts o m rule less reads =
      Post-bind _ reads (λ x all. done ((rule x.0 x.1 all.0.0, all.0.1), all.1, omega arith))

  negated_operand-Reads :
      (depth : ℕ) (ts : Tokens) (general : Read Expression)
      → Good P ts
      → Reads P (λ e r. Derives source depth 6 ts e r × Stops 6 r) ts general
      → Reads P
          (λ e r. Derives source depth 6 ts e r × Stops 6 r)
          ts
          (negated_operand source general ts)
  unfolding negated_operand
  negated_operand-Reads depth ts general good reads =
      let literal : (type : TokenType)
          → type ≢ TokenType.end_of_file
          → check type ts ≡ true
          → (e : Expression) → Derives source depth 7 ts e (advance ts)
          → Reads P (λ e r. Derives source depth 6 ts e r × Stops 6 r) ts (ok (e, advance ts)) =
        λ type ne h e derives.
          let moved = check-Good P type ts good ne h in
          done (
            (tighter derives (Stops-5 7 _ (omega arith)), Stops-5 6 _ (omega arith)),
            moved.0,
            moved.1,
          ) in
      Post-if (check TokenType.decimal_literal ts) _ _
        (λ h.
          literal TokenType.decimal_literal (λ e. cc) h _
            (decimal (check-Starts P TokenType.decimal_literal ts (λ e. cc) h)))
        (λ _.
          Post-if (check TokenType.integer_literal ts) _ _
            (λ h.
              literal TokenType.integer_literal (λ e. cc) h _
                (integer (check-Starts P TokenType.integer_literal ts (λ e. cc) h)))
            (λ _. reads))

  pub parse_unary_expression-Sound :
      (depth f : ℕ) (primary : Parse)
      → Sound depth 7 f primary
      → (fuel : ℕ) (ts : Tokens) → Good P ts
      → length ts < fuel
      → length ts < f
      → Reads P
          (λ e r. Derives source depth 6 ts e r × Stops 6 r)
          ts
          (parse_unary_expression fuel source primary ts)
  unfolding parse_unary_expression
  parse_unary_expression-Sound depth f primary sound zero ts good lt lf = absurd (omega arith)
  parse_unary_expression-Sound depth f primary sound (suc fuel) ts good lt lf =
      let behind : (type : TokenType)
          → type ≢ TokenType.end_of_file
          → check type ts ≡ true
          → Reads P (λ e r. Derives source depth 6 (advance ts) e r × Stops 6 r) (advance ts)
              (parse_unary_expression fuel source primary (advance ts)) =
        λ type ne h.
          let moved = check-Good P type ts good ne h in
          parse_unary_expression-Sound depth f primary sound fuel (advance ts) moved.0 (omega arith)
            (omega arith) in
      Post-if (check TokenType.bang ts) _ _
        (λ h.
          wrap-Reads depth ts _ _ (λ e r. inverted (check-Starts P TokenType.bang ts (λ e. cc) h))
            (check-Good P TokenType.bang ts good (λ e. cc) h).1 (behind TokenType.bang (λ e. cc) h))
        (λ _.
          Post-if (check TokenType.minus ts) _ _
            (λ h.
              let moved = check-Good P TokenType.minus ts good (λ e. cc) h in
              wrap-Reads depth ts _ _
                (λ e r. negated (check-Starts P TokenType.minus ts (λ e. cc) h)) moved.1
                (negated_operand-Reads depth (advance ts) _ moved.0
                  (behind TokenType.minus (λ e. cc) h)))
            (λ _.
              Post-weaken (sound ts good lf)
                (λ x all. ((tighter all.0.0 all.0.1, Stops-5 6 _ (omega arith)), all.1, all.2))))
