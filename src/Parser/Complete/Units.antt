-- ===== src/Parser/Complete/Units.antt =====
-- Derived declarations and source files are accepted.
use crossa.Prelude.{
  ℕ, zero, suc, ◌<◌, Bool, true, false, List, Bytes, length, ok, ◌≡◌, refl, sym, subst, arith,
}
use crossa.Lexer.Token.{TokenType}
use crossa.Syntax.{Declaration}
use crossa.Parser.Cursor.{Tokens, check}
use crossa.Parser.Declarations.{
  parse_variable_declaration, parse_model_declaration, parse_config_declaration,
  parse_expression_declaration, parse_declaration, parse_import, declarations_loop,
}
use crossa.Parser.Grammar.Units as Rules
use crossa.Parser.Grammar.Units.{
  IsFilename, inside, DerivesImport, DerivesFields, DerivesParameters, DerivesReturn,
  DerivesFunction, Annotates, DerivesDeclaration, DerivesUnit,
}
use crossa.Parser.Sound.Cursors.{check_of_type}
use crossa.Parser.Complete.Cursors.{
  peek-Starts, length-Starts, check_Starts, check_other, advance_Starts, consume_Starts,
}
use crossa.Parser.Complete.Less.{
  begins, DerivesExpression-less, DerivesExpression-begins, DerivesEntries-less,
}
use crossa.Parser.Complete.Expressions.{check_of_begins}
use crossa.Parser.Complete.Derives.{expression-Derives, entries-Derives}
use crossa.Parser.Complete.Types.{DerivesVariable-less, variable-Derives}
use crossa.Parser.Complete.Imports.{import-Derives, DerivesImport-less}
use crossa.Parser.Complete.Functions.{
  DerivesParameters-less, parameters-Derives, DerivesFunction-less, function-Derives,
  annotated-Derives,
}

module _ (source : Bytes) where
  DerivesDeclaration-less :
      {ts r : Tokens} {d : Declaration} → DerivesDeclaration source ts d r → length r < length ts
  DerivesDeclaration-less (Rules.annotated n s a d) =
      omega (arith, length-Starts s, length-Starts a, DerivesFunction-less source d)
  DerivesDeclaration-less (Rules.plain s d) =
      omega (arith, length-Starts s, DerivesFunction-less source d)
  DerivesDeclaration-less (Rules.variable s d) =
      omega (arith, length-Starts s, DerivesVariable-less source d)
  DerivesDeclaration-less (Rules.model s n a p) =
      omega
        (arith, length-Starts s, length-Starts n, length-Starts a, DerivesParameters-less source p)
  DerivesDeclaration-less (Rules.config s a d) =
      omega (arith, length-Starts s, length-Starts a, DerivesEntries-less source d)
  DerivesDeclaration-less (Rules.evaluated d) = DerivesExpression-less source d

  declaration-Derives :
      {ts r : Tokens} {d : Declaration}
      → DerivesDeclaration source ts d r
      → (f : ℕ) → length ts < f
      → parse_declaration f source ts ≡ ok (d, r)
  unfolding parse_declaration parse_variable_declaration parse_model_declaration
      parse_config_declaration parse_expression_declaration begins
  declaration-Derives (Rules.annotated Annotates.sync s a d) f lt =
      let size = length-Starts s in
      rw (check_Starts s, advance_Starts s (λ e. cc), annotated-Derives source a d f (omega arith))
        refl
  declaration-Derives (Rules.annotated Annotates.async s a d) f lt =
      let size = length-Starts s in
      rw
        (
          check_other s TokenType.annotation_sync (λ e. cc),
          check_Starts s,
          advance_Starts s (λ e. cc),
          annotated-Derives source a d f (omega arith),
        )
        refl
  declaration-Derives (Rules.annotated Annotates.async_after s a d) f lt =
      let size = length-Starts s in
      rw
        (
          check_other s TokenType.annotation_sync (λ e. cc),
          check_other s TokenType.annotation_async (λ e. cc),
          check_Starts s,
          advance_Starts s (λ e. cc),
          annotated-Derives source a d f (omega arith),
        )
        refl
  declaration-Derives (Rules.plain s d) f lt =
      let size = length-Starts s in
      rw
        (
          check_other s TokenType.annotation_sync (λ e. cc),
          check_other s TokenType.annotation_async (λ e. cc),
          check_other s TokenType.annotation_async_after (λ e. cc),
          check_Starts s,
          advance_Starts s (λ e. cc),
          function-Derives source d f (omega arith),
        )
        refl
  declaration-Derives (Rules.variable s d) f lt =
      let size = length-Starts s in
      rw
        (
          check_other s TokenType.annotation_sync (λ e. cc),
          check_other s TokenType.annotation_async (λ e. cc),
          check_other s TokenType.annotation_async_after (λ e. cc),
          check_other s TokenType.keyword_fun (λ e. cc),
          check_Starts s,
          advance_Starts s (λ e. cc),
        )
        (variable-Derives source d f "Expected a variable name after 'var'."
          (λ x. ok (Declaration.variable x.0.name x.0.type x.0.initializer x.0.location, x.1))
          (omega arith))
  declaration-Derives (Rules.model s n a p) f lt =
      let size = length-Starts s in
      let size' = length-Starts n in
      let size'' = length-Starts a in
      rw
        (
          check_other s TokenType.annotation_sync (λ e. cc),
          check_other s TokenType.annotation_async (λ e. cc),
          check_other s TokenType.annotation_async_after (λ e. cc),
          check_other s TokenType.keyword_fun (λ e. cc),
          check_other s TokenType.keyword_var (λ e. cc),
          check_Starts s,
          advance_Starts s (λ e. cc),
          consume_Starts n "Expected a model name after 'model'." (λ e. cc),
          consume_Starts a "Expected '(' after the model name." (λ e. cc),
          parameters-Derives source p f "Expected a model field name."
              "Expected ':' after the model field name." "Expected ')' after model fields."
              (omega arith),
        )
        refl
  declaration-Derives (Rules.config s a d) f lt =
      let size = length-Starts s in
      let size' = length-Starts a in
      rw
        (
          check_other s TokenType.annotation_sync (λ e. cc),
          check_other s TokenType.annotation_async (λ e. cc),
          check_other s TokenType.annotation_async_after (λ e. cc),
          check_other s TokenType.keyword_fun (λ e. cc),
          check_other s TokenType.keyword_var (λ e. cc),
          check_other s TokenType.keyword_model (λ e. cc),
          check_Starts s,
          peek-Starts s,
          advance_Starts s (λ e. cc),
          consume_Starts a "Expected '{' after 'config'." (λ e. cc),
          entries-Derives source d f f "Expected a configuration key."
              "Expected ':' after the configuration key." "Expected '}' after config entries."
              (omega arith) (omega arith),
        )
        refl
  declaration-Derives {ts = ts} (Rules.evaluated d) f lt =
      let first = DerivesExpression-begins source d in
      rw
        (
          check_of_begins TokenType.annotation_sync ts first refl,
          check_of_begins TokenType.annotation_async ts first refl,
          check_of_begins TokenType.annotation_async_after ts first refl,
          check_of_begins TokenType.keyword_fun ts first refl,
          check_of_begins TokenType.keyword_var ts first refl,
          check_of_begins TokenType.keyword_model ts first refl,
          check_of_begins TokenType.keyword_config ts first refl,
          expression-Derives source d f lt,
        )
        refl

  -- A declaration does not begin with the end of the file or with an import.
  DerivesDeclaration-begins :
      {ts r : Tokens} {d : Declaration}
      → DerivesDeclaration source ts d r
      → (check TokenType.end_of_file ts ≡ false) × (check TokenType.keyword_import ts ≡ false)
  unfolding begins
  DerivesDeclaration-begins (Rules.annotated Annotates.sync s a d) = (
    check_other s TokenType.end_of_file (λ e. cc),
    check_other s TokenType.keyword_import (λ e. cc),
  )
  DerivesDeclaration-begins (Rules.annotated Annotates.async s a d) = (
    check_other s TokenType.end_of_file (λ e. cc),
    check_other s TokenType.keyword_import (λ e. cc),
  )
  DerivesDeclaration-begins (Rules.annotated Annotates.async_after s a d) = (
    check_other s TokenType.end_of_file (λ e. cc),
    check_other s TokenType.keyword_import (λ e. cc),
  )
  DerivesDeclaration-begins (Rules.plain s d) = (
    check_other s TokenType.end_of_file (λ e. cc),
    check_other s TokenType.keyword_import (λ e. cc),
  )
  DerivesDeclaration-begins (Rules.variable s d) = (
    check_other s TokenType.end_of_file (λ e. cc),
    check_other s TokenType.keyword_import (λ e. cc),
  )
  DerivesDeclaration-begins (Rules.model s n a p) = (
    check_other s TokenType.end_of_file (λ e. cc),
    check_other s TokenType.keyword_import (λ e. cc),
  )
  DerivesDeclaration-begins (Rules.config s a d) = (
    check_other s TokenType.end_of_file (λ e. cc),
    check_other s TokenType.keyword_import (λ e. cc),
  )
  DerivesDeclaration-begins {ts = ts} (Rules.evaluated d) =
      let first = DerivesExpression-begins source d in
      (
        check_of_begins TokenType.end_of_file ts first refl,
        check_of_begins TokenType.keyword_import ts first refl,
      )

  DerivesImport-check :
      {ts r : Tokens} {d : Declaration}
      → DerivesImport source ts d r
      → (check TokenType.end_of_file ts ≡ false) × (check TokenType.keyword_import ts ≡ true)
  DerivesImport-check (Rules.import s p long filename) =
      (check_other s TokenType.end_of_file (λ e. cc), check_Starts s)

  pub unit-Derives :
      (f : ℕ) {started : Bool} {ts : Tokens} {ds : List Declaration}
      → DerivesUnit source started ts ds
      → length ts < f
      → declarations_loop f source started ts ≡ ok ds
  unfolding declarations_loop
  unit-Derives zero d lt = elim lt [ ]
  unit-Derives (suc f) {ts = ts} (Rules.finish e) lt =
      rw (check_of_type TokenType.end_of_file ts e) refl
  unit-Derives (suc f) {started} {ts} (Rules.imports {r = r} {d = d} none i ds) lt =
      let read : parse_import source started ts ≡ ok (d, r) =
        subst (λ b. parse_import source b ts ≡ ok (d, r)) (sym none) (import-Derives source i) in
      let tests = DerivesImport-check i in
      let less = DerivesImport-less source i in
      rw (tests.0, tests.1, read, unit-Derives f ds (omega arith)) refl
  unit-Derives (suc f) (Rules.declares d ds) lt =
      let tests = DerivesDeclaration-begins d in
      let less = DerivesDeclaration-less d in
      rw (tests.0, tests.1, declaration-Derives d (suc f) lt, unit-Derives f ds (omega arith)) refl
