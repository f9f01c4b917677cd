-- ===== src/Parser/Complete/Statements.antt =====
-- Derived statements and blocks are accepted.
use crossa.Prelude.{ℕ, zero, suc, ◌<◌, false, ◌||◌, Bytes, length, ok, ◌≡◌, ◌≢◌, refl, ◌∙◌, arith}
use crossa.Lexer.Token.{TokenType}
use crossa.Syntax.{Expression, Location, Statement, Statements}
use crossa.Parser.Cursor.{Tokens, check, is_at_end}
use crossa.Parser.Statements.{
  parse_variable_statement, parse_return, parse_expression_statement, parse_else, if_body,
  parse_statement, block_loop, parse_if_statement, parse_block_statements,
}
use crossa.Parser.Grammar.Statements.{
  DerivesStatement, returned, declared, conditional, evaluated, DerivesIf, if_then, if_else,
  else_if, DerivesGuarded, guarded, DerivesBlock, close, statement,
}
use crossa.Parser.Complete.Cursors.{
  check_of_ne, peek-Starts, length-Starts, check_Starts, check_other, advance_Starts,
  consume_Starts,
}
use crossa.Parser.Complete.Less.{begins, DerivesExpression-less, DerivesExpression-begins}
use crossa.Parser.Complete.Expressions.{enter_room, check_of_begins}
use crossa.Parser.Complete.Derives.{expression-Derives}
use crossa.Parser.Complete.Types.{DerivesVariable-less, variable-Derives}

module _ (source : Bytes) where
  mutual
    pub DerivesStatement-less :
        {depth : ℕ} {ts r : Tokens} {s : Statement}
        → DerivesStatement source depth ts s r
        → length r < length ts
    DerivesStatement-less (returned s d) =
        omega (arith, length-Starts s, DerivesExpression-less source d)
    DerivesStatement-less (declared s d) =
        omega (arith, length-Starts s, DerivesVariable-less source d)
    DerivesStatement-less (conditional s d) = omega (arith, length-Starts s, DerivesIf-less d)
    DerivesStatement-less (evaluated d) = DerivesExpression-less source d

    DerivesIf-less :
        {depth : ℕ} {l : Location} {ts r : Tokens} {s : Statement}
        → DerivesIf source depth l ts s r
        → length r < length ts
    DerivesIf-less (if_then g n) = DerivesGuarded-less g
    DerivesIf-less (if_else g s a b) =
        omega (arith, DerivesGuarded-less g, length-Starts s, length-Starts a, DerivesBlock-less b)
    DerivesIf-less (else_if g s a d) =
        omega (arith, DerivesGuarded-less g, length-Starts s, length-Starts a, DerivesIf-less d)

    DerivesGuarded-less :
        {depth : ℕ} {ts r : Tokens} {e : Expression} {ss : Statements}
        → DerivesGuarded source depth ts e ss r
        → length r < length ts
    DerivesGuarded-less (guarded room a d b c block) = omega (
      arith,
      length-Starts a,
      DerivesExpression-less source d,
      length-Starts b,
      length-Starts c,
      DerivesBlock-less block,
    )

    pub DerivesBlock-less :
        {depth : ℕ} {ts r : Tokens} {ss : Statements}
        → DerivesBlock source depth ts ss r
        → length r < length ts
    DerivesBlock-less (close s) = omega (arith, length-Starts s)
    DerivesBlock-less (statement d ds) =
        omega (arith, DerivesStatement-less d, DerivesBlock-less ds)

  -- A statement begins neither with a right brace nor with the end of the file.
  continues :
      {depth : ℕ} {ts r : Tokens} {s : Statement}
      → DerivesStatement source depth ts s r
      → (check TokenType.right_brace ts || is_at_end ts) ≡ false
  unfolding begins
  continues {ts = ts} d =
      rw (other d TokenType.right_brace refl (λ e. cc) (λ e. cc) (λ e. cc))
        (other d TokenType.end_of_file refl (λ e. cc) (λ e. cc) (λ e. cc))
    where
      other :
          {s : Statement} {depth : ℕ} {r : Tokens}
          → DerivesStatement source depth ts s r
          → (type : TokenType) → begins type ≡ false
          → TokenType.keyword_re ≢ type
          → TokenType.keyword_var ≢ type
          → TokenType.keyword_if ≢ type
          → check type ts ≡ false
      other (returned s d) type not re var cond = check_other s type re
      other (declared s d) type not re var cond = check_other s type var
      other (conditional s d) type not re var cond = check_other s type cond
      other (evaluated d) type not re var cond =
          check_of_begins type ts (DerivesExpression-begins source d) not

  mutual
    unfolding parse_statement parse_return parse_variable_statement parse_expression_statement
        if_body parse_else block_loop parse_if_statement begins

    statement-Derives :
        {depth : ℕ} {ts r : Tokens} {s : Statement}
        → DerivesStatement source depth ts s r
        → (f g : ℕ) → length ts < f
        → length ts < suc g
        → parse_statement f source depth (parse_if_statement g source depth) ts ≡ ok (s, r)
    statement-Derives (returned s d) f g lt lg =
        let size = length-Starts s in
        rw
          (
            check_Starts s,
            peek-Starts s,
            advance_Starts s (λ e. cc),
            expression-Derives source d f (omega arith),
          )
          refl
    statement-Derives {depth = depth} (declared {u = u} {r = r} {v = v} s d) f g lt lg =
        let size = length-Starts s in
        rw
          (check_other s TokenType.keyword_re (λ e. cc), check_Starts s, advance_Starts s (λ e. cc))
          (variable-Derives source d f "Expected a local variable name after 'var'."
            (λ x. ok (Statement.variable x.0.name x.0.type x.0.initializer x.0.location, x.1))
            (omega arith))
    statement-Derives (conditional s d) f g lt lg =
        let size = length-Starts s in
        rw
          (
            check_other s TokenType.keyword_re (λ e. cc),
            check_other s TokenType.keyword_var (λ e. cc),
            check_Starts s,
            peek-Starts s,
            advance_Starts s (λ e. cc),
            if-Derives d g (omega arith),
          )
          refl
    statement-Derives {ts = ts} (evaluated d) f g lt lg =
        let first = DerivesExpression-begins source d in
        rw
          (
            check_of_begins TokenType.keyword_re ts first refl,
            check_of_begins TokenType.keyword_var ts first refl,
            check_of_begins TokenType.keyword_if ts first refl,
            expression-Derives source d f lt,
          )
          refl

    if-Derives :
        {depth : ℕ} {l : Location} {ts r : Tokens} {s : Statement}
        → DerivesIf source depth l ts s r
        → (f : ℕ) → length ts < f
        → parse_if_statement f source depth l ts ≡ ok (s, r)
    if-Derives d zero lt = elim lt [ ]
    if-Derives {depth} {l} {ts} {r} (if_then (guarded room a d b c block) n) (suc f) lt =
        let size = length-Starts a in
        let size' = DerivesExpression-less source d in
        let size'' = length-Starts b in
        let size3 = length-Starts c in
        enter_room depth ts _ room
        ∙ rw
            (
              consume_Starts a "Expected '(' after 'if'." (λ e. cc),
              expression-Derives source d (suc f) (omega arith),
              consume_Starts b "Expected ')' after the if condition." (λ e. cc),
              consume_Starts c "Expected '{' after the if condition." (λ e. cc),
              block-Derives block (suc f) (suc f) f (omega arith) (omega arith) (omega arith),
              check_of_ne TokenType.keyword_else r n,
            )
            refl
    if-Derives {depth} {l} {ts} (if_else (guarded room a d b c block) s t rest) (suc f) lt =
        let size = length-Starts a in
        let size' = DerivesExpression-less source d in
        let size'' = length-Starts b in
        let size3 = length-Starts c in
        let size4 = DerivesBlock-less block in
        let size5 = length-Starts s in
        let size6 = length-Starts t in
        enter_room depth ts _ room
        ∙ rw
            (
              consume_Starts a "Expected '(' after 'if'." (λ e. cc),
              expression-Derives source d (suc f) (omega arith),
              consume_Starts b "Expected ')' after the if condition." (λ e. cc),
              consume_Starts c "Expected '{' after the if condition." (λ e. cc),
              block-Derives block (suc f) (suc f) f (omega arith) (omega arith) (omega arith),
              check_Starts s,
              advance_Starts s (λ e. cc),
              check_other t TokenType.keyword_if (λ e. cc),
              consume_Starts t "Expected '{' after 'else'." (λ e. cc),
              block-Derives rest (suc f) (suc f) f (omega arith) (omega arith) (omega arith),
            )
            refl
    if-Derives {depth} {l} {ts} (else_if (guarded room a d b c block) s t rest) (suc f) lt =
        let size = length-Starts a in
        let size' = DerivesExpression-less source d in
        let size'' = length-Starts b in
        let size3 = length-Starts c in
        let size4 = DerivesBlock-less block in
        let size5 = length-Starts s in
        let size6 = length-Starts t in
        enter_room depth ts _ room
        ∙ rw
            (
              consume_Starts a "Expected '(' after 'if'." (λ e. cc),
              expression-Derives source d (suc f) (omega arith),
              consume_Starts b "Expected ')' after the if condition." (λ e. cc),
              consume_Starts c "Expected '{' after the if condition." (λ e. cc),
              block-Derives block (suc f) (suc f) f (omega arith) (omega arith) (omega arith),
              check_Starts s,
              advance_Starts s (λ e. cc),
              check_Starts t,
              peek-Starts t,
              advance_Starts t (λ e. cc),
              if-Derives rest f (omega arith),
            )
            refl

    block-Derives :
        {depth : ℕ} {ts r : Tokens} {ss : Statements}
        → DerivesBlock source depth ts ss r
        → (h f g : ℕ) → length ts < h
        → length ts < f
        → length ts < suc g
        → block_loop h (parse_statement f source depth (parse_if_statement g source depth)) ts
          ≡ ok (ss, r)
    block-Derives d zero f g lh lt lg = elim lh [ ]
    block-Derives (close s) (suc h) f g lh lt lg =
        rw (check_Starts s, consume_Starts s "Expected '}' after the block." (λ e. cc)) refl
    block-Derives (statement d ds) (suc h) f g lh lt lg =
        let size = DerivesStatement-less d in
        rw
          (
            continues d,
            statement-Derives d f g lt lg,
            block-Derives ds h f g (omega arith) (omega arith) (omega arith),
          )
          refl

  pub block_statements-Derives :
      {ts r : Tokens} {ss : Statements}
      → DerivesBlock source 0 ts ss r
      → (f : ℕ) → length ts < f
      → parse_block_statements f source ts ≡ ok (ss, r)
  unfolding parse_block_statements
  block_statements-Derives d f lt = block-Derives d f f f lt lt (omega arith)
