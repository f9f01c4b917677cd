-- ===== src/Parser/Sound/Statements.antt =====
-- Statements and blocks.
use crossa.Prelude.{
  ℕ, zero, suc, ◌<◌, ◌||◌, Bytes, length, arith, done, Post-if, Post-bind, Post-weaken,
}
use crossa.Lexer.Token.{TokenType, Token}
use crossa.Syntax.{Expression, Location, Statement, Statements}
use crossa.Parser.Cursor.{Tokens, Read, peek, check, is_at_end, advance}
use crossa.Parser.Statements.{
  parse_variable_statement, parse_return, parse_expression_statement, ParseIf, ParseBlock,
  parse_else, if_body, parse_statement, block_loop, parse_if_statement, parse_block_statements,
}
use crossa.Parser.Grammar.{Starts}
use crossa.Parser.Grammar.Statements.{
  DerivesStatement, returned, declared, conditional, evaluated, DerivesIf, if_then, if_else,
  else_if, DerivesGuarded, guarded, DerivesBlock, close, statement,
}
use crossa.Parser.Sound.Cursors.{
  Good, Reads, check-Good, check-Starts, check-eq-false, consume-Reads,
}
use crossa.Parser.Sound.Atoms.{enter-Post, parse_expression-SoundInner}
use crossa.Parser.Sound.Types.{parse_variable-Reads}

module _ (P : Token → Type 0) (source : Bytes) where
  -- A parser of conditionals at a depth, over less than `g` tokens.
  abbrev SoundIf : ℕ → ℕ → ParseIf → Type 0
  SoundIf depth g nested =
      (l : Location) (ts : Tokens)
      → Good P ts
      → length ts < g
      → Reads P (λ s r. DerivesIf source depth l ts s r) ts (nested l ts)

  module _ (f depth : ℕ) where
    parse_variable_statement-Reads :
        (ts u : Tokens)
        → Starts TokenType.keyword_var ts (peek ts) u
        → Good P u
        → length u < length ts
        → length ts < f
        → Reads P
            (λ s r. DerivesStatement source depth ts s r)
            ts
            (parse_variable_statement f source depth u)
    unfolding parse_variable_statement
    parse_variable_statement-Reads ts u first good less lf =
        Post-bind _ (consume-Reads P TokenType.identifier _ u good (λ e. cc)) (λ x named.
          Post-bind _
            (parse_variable-Reads P source f depth u x.1 x.0 named.0.0 named.1 named.2
              (omega arith))
            (λ v all. done (declared first all.0, all.1, omega arith)))

    parse_statement-Reads :
        (g : ℕ) (nested : ParseIf)
        → SoundIf depth g nested
        → (ts : Tokens) → Good P ts
        → length ts < suc g
        → length ts < f
        → Reads P
            (λ s r. DerivesStatement source depth ts s r)
            ts
            (parse_statement f source depth nested ts)
    unfolding parse_statement parse_return parse_expression_statement
    parse_statement-Reads g nested sound ts good lt lf =
        Post-if (check TokenType.keyword_re ts) _ _
          (λ h.
            let moved = check-Good P TokenType.keyword_re ts good (λ e. cc) h in
            Post-bind _
              (parse_expression-SoundInner P source f depth (advance ts) moved.0 (omega arith))
              (λ x all. done (
                returned (check-Starts P TokenType.keyword_re ts (λ e. cc) h) all.0,
                all.1,
                omega arith,
              )))
          (λ _.
            Post-if (check TokenType.keyword_var ts) _ _
              (λ h.
                let moved = check-Good P TokenType.keyword_var ts good (λ e. cc) h in
                parse_variable_statement-Reads ts (advance ts)
                  (check-Starts P TokenType.keyword_var ts (λ e. cc) h) moved.0 moved.1 lf)
              (λ _.
                Post-if (check TokenType.keyword_if ts) _ _
                  (λ h.
                    let moved = check-Good P TokenType.keyword_if ts good (λ e. cc) h in
                    Post-weaken (sound _ (advance ts) moved.0 (omega arith)) (λ x all. (
                      conditional (check-Starts P TokenType.keyword_if ts (λ e. cc) h) all.0,
                      all.1,
                      omega arith,
                    )))
                  (λ _.
                    Post-bind _ (parse_expression-SoundInner P source f depth ts good lf)
                      (λ x all. done (evaluated all.0, all.1, all.2)))))

  -- A parser of blocks at a depth, over less than `g` tokens.
  abbrev SoundBlock : ℕ → ℕ → ParseBlock → Type 0
  SoundBlock depth g block =
      (ts : Tokens)
      → Good P ts
      → length ts < g
      → Reads P (λ ss r. DerivesBlock source depth ts ss r) ts (block ts)

  block_loop-Reads :
      (depth g : ℕ) (parse : Tokens → Read Statement)
      → ((ts : Tokens)
          → Good P ts
          → length ts < g
          → Reads P (λ s r. DerivesStatement source depth ts s r) ts (parse ts))
      → (fuel : ℕ) (ts : Tokens) → Good P ts
      → length ts < fuel
      → length ts < g
      → Reads P (λ ss r. DerivesBlock source depth ts ss r) ts (block_loop fuel parse ts)
  unfolding block_loop
  block_loop-Reads depth g parse sound zero ts good lt lg = absurd (omega arith)
  block_loop-Reads depth g parse sound (suc fuel) ts good lt lg =
      Post-if (check TokenType.right_brace ts || is_at_end ts) _ _
        (λ _.
          Post-bind _ (consume-Reads P TokenType.right_brace _ ts good (λ e. cc))
            (λ x end. done (close end.0.0, end.1, end.2)))
        (λ _. Post-bind _ (sound ts good lg) (λ x first.
          Post-bind _
            (block_loop-Reads depth g parse sound fuel x.1 first.1 (omega arith) (omega arith))
            (λ y rest. done (statement first.0 rest.0, rest.1, omega arith))))

  module _ (f g depth : ℕ) (nested : ParseIf) (sound_if : SoundIf (suc depth) g nested)
      (block : ParseBlock) (sound_block : SoundBlock (suc depth) f block) where
    -- What may stand behind `else`, which is the token `t`.
    parse_else-Reads :
        (start u ts : Tokens) (t : Token) (l : Location) (e : Expression) (yes_branch : Statements)
        → DerivesGuarded source depth start e yes_branch u
        → Starts TokenType.keyword_else u t ts
        → Good P ts
        → length ts < suc g
        → length ts < f
        → Reads P
            (λ no_branch r.
              DerivesIf source depth l start (Statement.if_else e yes_branch no_branch l) r)
            ts
            (parse_else nested block ts)
    unfolding parse_else
    parse_else-Reads start u ts t l e yes_branch first other good lg lf =
        Post-if (check TokenType.keyword_if ts) _ _
          (λ h.
            let moved = check-Good P TokenType.keyword_if ts good (λ e. cc) h in
            Post-bind _ (sound_if _ (advance ts) moved.0 (omega arith)) (λ x all. done (
              else_if first other (check-Starts P TokenType.keyword_if ts (λ e. cc) h) all.0,
              all.1,
              omega arith,
            )))
          (λ _. Post-bind _ (consume-Reads P TokenType.left_brace _ ts good (λ e. cc)) (λ x brace.
            Post-weaken (sound_block x.1 brace.1 (omega arith))
              (λ y all. (if_else first other brace.0.0 all.0, all.1, omega arith))))

    if_body-Reads :
        depth < 512
        → (l : Location) (ts : Tokens) → Good P ts
        → length ts < suc g
        → length ts < f
        → Reads P
            (λ s r. DerivesIf source depth l ts s r)
            ts
            (if_body f source (suc depth) nested block l ts)
    unfolding if_body
    if_body-Reads room l ts good lg lf =
        Post-bind _ (consume-Reads P TokenType.left_paren _ ts good (λ e. cc)) (λ a left.
          Post-bind _ (parse_expression-SoundInner P source f (suc depth) a.1 left.1 (omega arith))
            (λ b condition.
              Post-bind _ (consume-Reads P TokenType.right_paren _ b.1 condition.1 (λ e. cc))
                (λ c right.
                  Post-bind _ (consume-Reads P TokenType.left_brace _ c.1 right.1 (λ e. cc))
                    (λ d brace. Post-bind _ (sound_block d.1 brace.1 (omega arith)) (λ x branch.
                      let first = guarded room left.0.0 condition.0 right.0.0 brace.0.0 branch.0 in
                      Post-if (check TokenType.keyword_else x.1) _ _
                        (λ h.
                          let moved =
                            check-Good P TokenType.keyword_else x.1 branch.1 (λ e. cc) h in
                          Post-bind _
                            (parse_else-Reads ts x.1 (advance x.1) (peek x.1) l b.0 x.0 first
                              (check-Starts P TokenType.keyword_else x.1 (λ e. cc) h) moved.0
                              (omega arith) (omega arith))
                            (λ y all. done (all.0, all.1, omega arith)))
                        (λ h. done (
                          if_then first (check-eq-false TokenType.keyword_else x.1 h),
                          branch.1,
                          omega arith,
                        )))))))

  parse_if_statement-SoundIf : (f depth : ℕ) → SoundIf depth f (parse_if_statement f source depth)
  unfolding parse_if_statement
  parse_if_statement-SoundIf zero depth l ts good lt = absurd (omega arith)
  parse_if_statement-SoundIf (suc f) depth l ts good lt =
      let nested = parse_if_statement-SoundIf f (suc depth) in
      let block : SoundBlock (suc depth) (suc f) (
          block_loop (suc f) (
            parse_statement (suc f) source (suc depth) (parse_if_statement f source (suc depth)))) =
        λ us fine less.
          block_loop-Reads (suc depth) (suc f) _
            (λ vs good' short.
              parse_statement-Reads (suc f) (suc depth) f _ nested vs good' short short)
            (suc f) us fine less less in
      enter-Post P depth ts _ good
        (λ room. if_body-Reads (suc f) f depth _ nested _ block room l ts good lt lt)

  pub parse_block_statements-Reads :
      (f : ℕ) (ts : Tokens)
      → Good P ts
      → length ts < f
      → Reads P (λ ss r. DerivesBlock source 0 ts ss r) ts (parse_block_statements f source ts)
  unfolding parse_block_statements
  parse_block_statements-Reads f ts good lt =
      block_loop-Reads 0 f _
        (λ vs good' short.
          parse_statement-Reads f 0 f _ (parse_if_statement-SoundIf f 0) vs good' (omega arith)
            short)
        f ts good lt lt
