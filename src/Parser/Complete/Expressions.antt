-- ===== src/Parser/Complete/Expressions.antt =====
-- Derived expressions are accepted.
use Prim.Native.String.{String}
use crossa.Prelude.{
  ℕ, suc, ◌≤◌, ◌<◌, true, false, Bytes, length, ltb, ok, ◌≡◌, ◌⊎◌, refl, ◌∙◌, subst, arith, inl,
  inr, Bool-cases,
}
use crossa.Lexer.Token.{TokenType, Token}
use crossa.Syntax.{UnaryOperator, Expression, Expressions, Entries}
use crossa.Parser.Cursor.{Tokens, Read, location_of, peek, check}
use crossa.Parser.Types.{enter, maximum_parse_recursion_depth}
use crossa.Parser.Expressions.{Parse, negated_operand, parse_unary_expression, binary_loop}
use crossa.Parser.Primary.{
  ParseKey, parse_name, string_key, parse_json_object_key, parse_primary_expression,
  parse_expression,
}
use crossa.Parser.Grammar.{Starts, Stops, Keys, DerivesKey, precedence}
use crossa.Parser.Grammar
use crossa.Parser.Grammar.Expressions as Rules
use crossa.Parser.Grammar.Expressions.{
  Derives, DerivesExpression, DerivesList, DerivesItems, DerivesEntries, DerivesPairs,
}
use crossa.Parser.Sound.Cursors.{check-Starts}
use crossa.Parser.Complete.Cursors.{
  check_of_ne, peek-Starts, type-Starts, check_Starts, check_other, advance_Starts, consume_Starts,
}
use crossa.Parser.Complete.Less.{begins_atom, begins, DerivesExpression-begins}
use crossa.Parser.Complete.Levels.{operator_at, parse_level, binary_loop-Stops}
use crossa.Parser.Complete.Primary

-- The limit is not passed.
pub enter_room :
    {A : Type 0} (depth : ℕ) (ts : Tokens) (body : Read A)
    → depth < maximum_parse_recursion_depth
    → enter depth ts body ≡ body
unfolding enter
enter_room depth ts body room =
    let within : ltb maximum_parse_recursion_depth (suc depth) ≡ false = ground arith in
    rw within refl

-- A token that begins no expression does not begin this one.
pub check_of_begins :
    (type : TokenType) (ts : Tokens)
    → begins (peek ts).type ≡ true
    → begins type ≡ false
    → check type ts ≡ false
check_of_begins type ts h not =
    check_of_ne type ts (λ e. let h' = subst (λ t. begins t ≡ true) e h in cc)

check_of_begins_atom :
    (type : TokenType) (ts : Tokens)
    → begins_atom (peek ts).type ≡ true
    → begins_atom type ≡ false
    → check type ts ≡ false
check_of_begins_atom type ts h not =
    check_of_ne type ts (λ e. let h' = subst (λ t. begins_atom t ≡ true) e h in cc)

module _ (source : Bytes) where
  -- The parsers at a depth, with the fuel that `parseExpression` has there.
  abbrev pub inner : ℕ → ℕ → Parse
  inner f depth = parse_expression f source depth

  abbrev pub primary : ℕ → ℕ → Parse
  primary f depth = parse_primary_expression (suc f) source (inner f depth)

  abbrev pub unary : ℕ → ℕ → ℕ → Parse
  unary f depth g = parse_unary_expression g source (primary f depth)

  abbrev pub at_level : ℕ → ℕ → ℕ → Parse
  at_level f depth level = parse_level (suc f) (unary f depth (suc f)) level

  -- What a derivation of a level says of the parser of the level: the loop goes on from the
  -- derived expression, or a prefixed expression or an atom is read.
  pub record Runs (f depth level : ℕ) (ts : Tokens) (e : Expression) (r : Tokens) : Type 0 where
    pub loop :
        level < 6
        → (g : ℕ) × (length r < g)
          × (at_level f depth level ts
              ≡ binary_loop g (operator_at level) (at_level f depth (suc level)) e r)
    pub prefix : level ≡ 6 → (g : ℕ) → length ts < g → unary f depth g ts ≡ ok (e, r)
    pub atom : 7 ≤ level → primary f depth ts ≡ ok (e, r)

  pub level_6 :
      (f depth level : ℕ) (ts : Tokens)
      → level ≡ 6
      → at_level f depth level ts ≡ unary f depth (suc f) ts
  unfolding parse_level
  level_6 f depth level ts e = rw e refl

  level_cases : (level : ℕ) → level ≤ 6 → (level < 6) ⊎ (level ≡ 6)
  level_cases level h = elim (Bool-cases (ltb level 6)) [
    | inl less ↦ inl (ground arith)
    | inr same ↦ inr (ground arith)
  ]

  -- Where the expression ends, the parser of the level returns it.
  pub whole :
      (f depth level : ℕ) (ts : Tokens) (e : Expression) (r : Tokens)
      → Runs f depth level ts e r
      → Stops level r
      → level ≤ 6
      → length ts < suc f
      → at_level f depth level ts ≡ ok (e, r)
  whole f depth level ts e r runs stops le lt = elim (level_cases level le) [
    | inl less ↦
        let loop = runs.loop less in
        loop.2 ∙ binary_loop-Stops level loop.0 (at_level f depth (suc level)) e r stops loop.1
    | inr same ↦ level_6 f depth level ts same ∙ runs.prefix same (suc f) lt
  ]

  -- An atom has no prefix.
  pub unary-atom :
      (f depth g : ℕ) (ts : Tokens) (e : Expression) (r : Tokens)
      → begins_atom (peek ts).type ≡ true
      → primary f depth ts ≡ ok (e, r)
      → unary f depth (suc g) ts ≡ ok (e, r)
  unfolding parse_unary_expression begins_atom
  unary-atom f depth g ts e r h read =
      let bang = check_of_begins_atom TokenType.bang ts h refl in
      let minus = check_of_begins_atom TokenType.minus ts h refl in rw (bang, minus) read

  pub unary-inverted :
      (f depth g : ℕ) {ts u : Tokens} {t : Token} (e : Expression) (r : Tokens)
      → Starts TokenType.bang ts t u
      → unary f depth g u ≡ ok (e, r)
      → unary f depth (suc g) ts ≡ ok (Expression.unary UnaryOperator.not e (location_of t), r)
  unfolding parse_unary_expression
  unary-inverted f depth g e r s read =
      rw (check_Starts s, peek-Starts s, advance_Starts s (λ e. cc), read) refl

  -- The cases of a number behind a minus read what the general case would.
  negated_operand_lem :
      (f depth g : ℕ) (u : Tokens)
      → negated_operand source (unary f depth (suc g) u) u ≡ unary f depth (suc g) u
  unfolding negated_operand begins_atom
  negated_operand_lem f depth g u = elim (Bool-cases (check TokenType.decimal_literal u)) [
    | inl decimal ↦
        let s = check-Starts (λ t. Unit {0}) TokenType.decimal_literal u (λ e. cc) decimal in
        let atom : begins_atom (peek u).type ≡ true = rw (type-Starts s) refl in
        let read =
          unary-atom f depth g u _ _ atom (Primary.primary_decimal f source (inner f depth) s) in
        rw (decimal, read) refl
    | inr other ↦ elim (Bool-cases (check TokenType.integer_literal u)) [
      | inl integer ↦
          let s = check-Starts (λ t. Unit {0}) TokenType.integer_literal u (λ e. cc) integer in
          let atom : begins_atom (peek u).type ≡ true = rw (type-Starts s) refl in
          let read =
            unary-atom f depth g u _ _ atom (Primary.primary_integer f source (inner f depth) s) in
          rw (other, integer, read) refl
      | inr neither ↦ rw (other, neither) refl
    ]
  ]

  pub unary-negated :
      (f depth g : ℕ) {ts u : Tokens} {t : Token} (e : Expression) (r : Tokens)
      → Starts TokenType.minus ts t u
      → unary f depth (suc g) u ≡ ok (e, r)
      → unary f depth (suc (suc g)) ts
        ≡ ok (Expression.unary UnaryOperator.negate e (location_of t), r)
  unfolding parse_unary_expression
  unary-negated f depth g {u = u} e r s read =
      rw
        (
          check_other s TokenType.bang (λ e. cc),
          check_Starts s,
          peek-Starts s,
          advance_Starts s (λ e. cc),
          negated_operand_lem f depth g u,
          read,
        )
        refl

  -- The parser of keys, by the keys that it reads.
  abbrev pub key_parser : Keys → String → ParseKey
  key_parser Keys.names missing = parse_name source missing
  key_parser Keys.texts missing = parse_json_object_key source

  pub key-DerivesKey :
      {keys : Keys} {ts r : Tokens} {key : Bytes} (missing : String)
      → DerivesKey source keys ts key r
      → key_parser keys missing ts ≡ ok (key, r)
  unfolding parse_name parse_json_object_key string_key
  key-DerivesKey {keys = Keys.names} missing (Grammar.name s) =
      rw (consume_Starts s missing (λ e. cc)) refl
  key-DerivesKey {keys = Keys.texts} missing (Grammar.name s) =
      rw (check_Starts s, peek-Starts s, advance_Starts s (λ e. cc)) refl
  key-DerivesKey missing (Grammar.text s read plain) =
      rw
        (
          check_other s TokenType.identifier (λ e. cc),
          check_Starts s,
          peek-Starts s,
          read,
          plain,
          advance_Starts s (λ e. cc),
        )
        refl

  DerivesKey-ne-right_brace :
      {keys : Keys} {ts r : Tokens} {key : Bytes}
      → DerivesKey source keys ts key r
      → check TokenType.right_brace ts ≡ false
  DerivesKey-ne-right_brace (Grammar.name s) = check_other s TokenType.right_brace (λ e. cc)
  DerivesKey-ne-right_brace (Grammar.text s read plain) =
      check_other s TokenType.right_brace (λ e. cc)

  pub DerivesItems-begins :
      {depth : ℕ} {ts r : Tokens} {es : Expressions}
      → DerivesItems source depth ts es r
      → begins (peek ts).type ≡ true
  DerivesItems-begins (Rules.one d) = DerivesExpression-begins source d
  DerivesItems-begins (Rules.more d s ds) = DerivesExpression-begins source d

  pub DerivesPairs-ne-right_brace :
      {depth : ℕ} {keys : Keys} {ts r : Tokens} {es : Entries}
      → DerivesPairs source depth keys ts es r
      → check TokenType.right_brace ts ≡ false
  DerivesPairs-ne-right_brace (Rules.last k s d) = DerivesKey-ne-right_brace k
  DerivesPairs-ne-right_brace (Rules.next k s d u ds) = DerivesKey-ne-right_brace k
