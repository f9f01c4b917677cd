-- ===== src/Parser/Sound/Units.antt =====
-- Declarations and source files.
use crossa.Prelude.{
  ℕ, zero, suc, ◌<◌, Bool, true, false, Bytes, length, ◌≡◌, ◌≢◌, refl, arith, Post, done, Post-if,
  Post-bind, Post-weaken,
}
use crossa.Lexer.Token.{TokenType, Token}
use crossa.Syntax.{ExecutionPolicy}
use crossa.Parser.Cursor.{Tokens, location_of, peek, check, is_at_end, advance}
use crossa.Parser.Declarations.{
  parse_function_declaration, parse_annotated_function, parse_variable_declaration,
  parse_model_declaration, parse_config_declaration, parse_expression_declaration,
  parse_declaration, parse_import, declarations_loop,
}
use crossa.Parser.Grammar.Units as Grammar
use crossa.Parser.Grammar.Units.{
  IsFilename, inside, DerivesImport, DerivesFields, DerivesParameters, DerivesReturn,
  DerivesFunction, Annotates, DerivesDeclaration, DerivesUnit,
}
use crossa.Parser.Sound.Cursors.{
  Good, Fails, Reads, P-peek, fail-Post, check-Good, check-Starts, check-eq-true, consume-Reads,
}
use crossa.Parser.Sound.Listed.{parse_named_entries-Reads}
use crossa.Parser.Sound.Atoms.{parse_expression-SoundInner}
use crossa.Parser.Sound.Types.{parse_variable-Reads}
use crossa.Parser.Sound.Imports.{parse_import_declaration-Reads}
use crossa.Parser.Sound.Functions.{parse_fields-Reads, parse_function_declaration-Reads}

module _ (P : Token → Type 0) (source : Bytes) where
  -- A declaration at `ts` behind its keyword, which `h` finds there.
  parse_annotated_function-Reads :
      (f : ℕ) (type : TokenType) (policy : ExecutionPolicy) (ts : Tokens)
      → Annotates type policy
      → type ≢ TokenType.end_of_file
      → Good P ts
      → length ts < f
      → check type ts ≡ true
      → Reads P
          (λ d r. DerivesDeclaration source ts d r)
          ts
          (parse_annotated_function f source policy (advance ts))
  unfolding parse_annotated_function
  parse_annotated_function-Reads f type policy ts annotates ne good lt h =
      let moved = check-Good P type ts good ne h in
      let first = check-Starts P type ts ne h in
      let function =
        Post-bind
          {Q = λ x. DerivesDeclaration source ts x.0 x.1 × Good P x.1 × (length x.1 < length ts)} _
          (consume-Reads P TokenType.keyword_fun "Expected 'fun' after the execution annotation."
            (advance ts) moved.0 (λ e. cc))
          (λ x keyword.
            Post-weaken
              (parse_function_declaration-Reads P source f policy x.1 keyword.1 (omega arith))
              (λ y all.
                (Grammar.annotated annotates first keyword.0.0 all.0, all.1, omega arith))) in
      search (Post-if, function, fail-Post P (peek (advance ts)) _ (P-peek P (advance ts) moved.0))

  parse_plain_function-Reads :
      (f : ℕ) (ts : Tokens)
      → Good P ts
      → length ts < f
      → check TokenType.keyword_fun ts ≡ true
      → Reads P
          (λ d r. DerivesDeclaration source ts d r)
          ts
          (parse_function_declaration f source ExecutionPolicy.none (advance ts))
  parse_plain_function-Reads f ts good lt h =
      let moved = check-Good P TokenType.keyword_fun ts good (λ e. cc) h in
      Post-weaken
        (parse_function_declaration-Reads P source f ExecutionPolicy.none (advance ts) moved.0
          (omega arith))
        (λ y all. (
          Grammar.plain (check-Starts P TokenType.keyword_fun ts (λ e. cc) h) all.0,
          all.1,
          omega arith,
        ))

  parse_variable_declaration-Reads :
      (f : ℕ) (ts : Tokens)
      → Good P ts
      → length ts < f
      → check TokenType.keyword_var ts ≡ true
      → Reads P
          (λ d r. DerivesDeclaration source ts d r)
          ts
          (parse_variable_declaration f source (advance ts))
  unfolding parse_variable_declaration
  parse_variable_declaration-Reads f ts good lt h =
      let moved = check-Good P TokenType.keyword_var ts good (λ e. cc) h in
      Post-bind _ (consume-Reads P TokenType.identifier _ (advance ts) moved.0 (λ e. cc))
        (λ x named.
          Post-bind _
            (parse_variable-Reads P source f 0 (advance ts) x.1 x.0 named.0.0 named.1 named.2
              (omega arith))
            (λ v all. done (
              Grammar.variable (check-Starts P TokenType.keyword_var ts (λ e. cc) h) all.0,
              all.1,
              omega arith,
            )))

  parse_model_declaration-Reads :
      (f : ℕ) (ts : Tokens)
      → Good P ts
      → length ts < f
      → check TokenType.keyword_model ts ≡ true
      → Reads P
          (λ d r. DerivesDeclaration source ts d r)
          ts
          (parse_model_declaration f source (advance ts))
  unfolding parse_model_declaration
  parse_model_declaration-Reads f ts good lt h =
      let moved = check-Good P TokenType.keyword_model ts good (λ e. cc) h in
      Post-bind _ (consume-Reads P TokenType.identifier _ (advance ts) moved.0 (λ e. cc))
        (λ x named.
          Post-bind _ (consume-Reads P TokenType.left_paren _ x.1 named.1 (λ e. cc)) (λ y left.
            Post-bind _ (parse_fields-Reads P source f _ _ _ y.1 left.1 (omega arith)) (λ z all.
              done (
                Grammar.model (check-Starts P TokenType.keyword_model ts (λ e. cc) h) named.0.0
                    left.0.0 all.0,
                all.1,
                omega arith,
              ))))

  parse_config_declaration-Reads :
      (f : ℕ) (ts : Tokens)
      → Good P ts
      → length ts < f
      → check TokenType.keyword_config ts ≡ true
      → Reads P
          (λ d r. DerivesDeclaration source ts d r)
          ts
          (parse_config_declaration f source (location_of (peek ts)) (advance ts))
  unfolding parse_config_declaration
  parse_config_declaration-Reads f ts good lt h =
      let moved = check-Good P TokenType.keyword_config ts good (λ e. cc) h in
      Post-bind _ (consume-Reads P TokenType.left_brace _ (advance ts) moved.0 (λ e. cc))
        (λ x brace.
          Post-bind _
            (parse_named_entries-Reads P source 0 f _ (parse_expression-SoundInner P source f 0) f _
              _ _ x.1 brace.1 (omega arith) (omega arith))
            (λ y all. done (
              Grammar.config (check-Starts P TokenType.keyword_config ts (λ e. cc) h) brace.0.0
                  all.0,
              all.1,
              omega arith,
            )))

  parse_expression_declaration-Reads :
      (f : ℕ) (ts : Tokens)
      → Good P ts
      → length ts < f
      → Reads P
          (λ d r. DerivesDeclaration source ts d r)
          ts
          (parse_expression_declaration f source ts)
  unfolding parse_expression_declaration
  parse_expression_declaration-Reads f ts good lt =
      Post-bind _ (parse_expression-SoundInner P source f 0 ts good lt)
        (λ x all. done (Grammar.evaluated all.0, all.1, all.2))

  parse_declaration-Reads :
      (f : ℕ) (ts : Tokens)
      → Good P ts
      → length ts < f
      → Reads P (λ d r. DerivesDeclaration source ts d r) ts (parse_declaration f source ts)
  unfolding parse_declaration
  parse_declaration-Reads f ts good lt =
      search
        (
          Post-if,
          parse_annotated_function-Reads f TokenType.annotation_sync ExecutionPolicy.sync ts
              Annotates.sync (λ e. cc) good lt,
          parse_annotated_function-Reads f TokenType.annotation_async ExecutionPolicy.async ts
              Annotates.async (λ e. cc) good lt,
          parse_annotated_function-Reads f TokenType.annotation_async_after
              ExecutionPolicy.async_after ts Annotates.async_after (λ e. cc) good lt,
          parse_plain_function-Reads f ts good lt,
          parse_variable_declaration-Reads f ts good lt,
          parse_model_declaration-Reads f ts good lt,
          parse_config_declaration-Reads f ts good lt,
          parse_expression_declaration-Reads f ts good lt,
        )
        depth 12

  parse_import-Reads :
      (started : Bool) (ts : Tokens)
      → Good P ts
      → check TokenType.keyword_import ts ≡ true
      → Reads P
          (λ d r. DerivesImport source ts d r × (started ≡ false))
          ts
          (parse_import source started ts)
  unfolding parse_import
  parse_import-Reads true ts good h = fail-Post P (peek ts) _ (P-peek P ts good)
  parse_import-Reads false ts good h =
      Post-weaken (parse_import_declaration-Reads P source ts good h)
        (λ x all. ((all.0, refl), all.1, all.2))

  -- The loop over a whole file, in which `started` is `declarationsStarted`.
  pub declarations_loop-Post :
      (f : ℕ) (started : Bool) (ts : Tokens)
      → Good P ts
      → length ts < f
      → Post
          (Fails P)
          (λ ds. DerivesUnit source started ts ds)
          (declarations_loop f source started ts)
  unfolding declarations_loop
  declarations_loop-Post zero started ts good lt = absurd (omega arith)
  declarations_loop-Post (suc f) started ts good lt =
      Post-if (is_at_end ts) _ _
        (λ h. done (Grammar.finish (check-eq-true TokenType.end_of_file ts h)))
        (λ _.
          Post-if (check TokenType.keyword_import ts) _ _
            (λ h. Post-bind _ (parse_import-Reads started ts good h) (λ x first.
              Post-bind _ (declarations_loop-Post f started x.1 first.1 (omega arith))
                (λ rest all. done (Grammar.imports first.0.1 first.0.0 all))))
            (λ _. Post-bind _ (parse_declaration-Reads (suc f) ts good lt) (λ x first.
              Post-bind _ (declarations_loop-Post f true x.1 first.1 (omega arith))
                (λ rest all. done (Grammar.declares first.0 all)))))
