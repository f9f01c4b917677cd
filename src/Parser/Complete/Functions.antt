-- ===== src/Parser/Complete/Functions.antt =====
-- Derived fields and functions are accepted.
use Prim.Native.String.{String}
use crossa.Prelude.{
  ℕ, zero, suc, ◌≤◌, ◌<◌, false, List, Option, Bytes, length, ok, ◌≡◌, refl, arith,
}
use crossa.Lexer.Token.{TokenType, Token}
use crossa.Syntax.{TypeReference, Field, ExecutionPolicy, Declaration}
use crossa.Parser.Cursor.{Tokens, check}
use crossa.Parser.Declarations.{
  fields_loop, parse_fields, parse_return_type, parse_function_declaration,
  parse_annotated_function,
}
use crossa.Parser.Grammar.{Starts}
use crossa.Parser.Grammar.Units as Rules
use crossa.Parser.Grammar.Units.{
  IsFilename, inside, DerivesImport, DerivesFields, DerivesParameters, DerivesReturn,
  DerivesFunction, Annotates, DerivesDeclaration, DerivesUnit,
}
use crossa.Parser.Complete.Cursors.{
  check_of_ne, length-Starts, check_Starts, check_other, advance_Starts, consume_Starts,
}
use crossa.Parser.Complete.Types.{DerivesType-less, type-Derives}
use crossa.Parser.Complete.Statements.{DerivesBlock-less, block_statements-Derives}

module _ (source : Bytes) where
  DerivesFields-less :
      {ts r : Tokens} {fields : List Field}
      → DerivesFields source ts fields r
      → length r < length ts
  DerivesFields-less (Rules.last s a d) =
      omega (arith, length-Starts s, length-Starts a, DerivesType-less source d)
  DerivesFields-less (Rules.next s a d b ds) = omega (
    arith,
    length-Starts s,
    length-Starts a,
    DerivesType-less source d,
    length-Starts b,
    DerivesFields-less ds,
  )

  fields-Derives :
      (f : ℕ) (missing colon : String) {ts r : Tokens} {fields : List Field}
      → DerivesFields source ts fields r
      → length ts < f
      → check TokenType.comma r ≡ false
      → fields_loop f source missing colon ts ≡ ok (fields, r)
  unfolding fields_loop
  fields-Derives zero missing colon d lt after = elim lt [ ]
  fields-Derives (suc f) missing colon (Rules.last s a d) lt after =
      let size = length-Starts s in
      let size' = length-Starts a in
      rw
        (
          consume_Starts s missing (λ e. cc),
          consume_Starts a colon (λ e. cc),
          type-Derives source d (suc f) (omega arith),
          after,
        )
        refl
  fields-Derives (suc f) missing colon (Rules.next s a d b ds) lt after =
      let size = length-Starts s in
      let size' = length-Starts a in
      let size'' = DerivesType-less source d in
      let size3 = length-Starts b in
      rw
        (
          consume_Starts s missing (λ e. cc),
          consume_Starts a colon (λ e. cc),
          type-Derives source d (suc f) (omega arith),
          check_Starts b,
          advance_Starts b (λ e. cc),
          fields-Derives f missing colon ds (omega arith) after,
        )
        refl

  pub DerivesParameters-less :
      {ts r : Tokens} {fields : List Field}
      → DerivesParameters source ts fields r
      → length r < length ts
  DerivesParameters-less (Rules.no_fields s) = omega (arith, length-Starts s)
  DerivesParameters-less (Rules.fields d s) = omega (arith, DerivesFields-less d, length-Starts s)

  DerivesFields-ne-right_paren :
      {ts r : Tokens} {fields : List Field}
      → DerivesFields source ts fields r
      → check TokenType.right_paren ts ≡ false
  DerivesFields-ne-right_paren (Rules.last s a d) = check_other s TokenType.right_paren (λ e. cc)
  DerivesFields-ne-right_paren (Rules.next s a d b ds) =
      check_other s TokenType.right_paren (λ e. cc)

  pub parameters-Derives :
      {ts r : Tokens} {fields : List Field}
      → DerivesParameters source ts fields r
      → (f : ℕ) (missing colon message : String) → length ts < f
      → parse_fields f source missing colon message ts ≡ ok (fields, r)
  unfolding parse_fields
  parameters-Derives (Rules.no_fields s) f missing colon message lt =
      rw (check_Starts s, consume_Starts s message (λ e. cc)) refl
  parameters-Derives (Rules.fields d s) f missing colon message lt =
      rw
        (
          DerivesFields-ne-right_paren d,
          fields-Derives f missing colon d lt (check_other s TokenType.comma (λ e. cc)),
          consume_Starts s message (λ e. cc),
        )
        refl

  DerivesReturn-le :
      {ts r : Tokens} {t : Option TypeReference}
      → DerivesReturn source ts t r
      → length r ≤ length ts
  DerivesReturn-le (Rules.nothing n) = omega arith
  DerivesReturn-le (Rules.returns s d) = omega (arith, length-Starts s, DerivesType-less source d)

  return-Derives :
      {ts r : Tokens} {t : Option TypeReference}
      → DerivesReturn source ts t r
      → (f : ℕ) → length ts < f
      → parse_return_type f source ts ≡ ok (t, r)
  unfolding parse_return_type
  return-Derives {ts = ts} (Rules.nothing n) f lt = rw (check_of_ne TokenType.colon ts n) refl
  return-Derives (Rules.returns s d) f lt =
      let size = length-Starts s in
      rw (check_Starts s, advance_Starts s (λ e. cc), type-Derives source d f (omega arith)) refl

  pub DerivesFunction-less :
      {policy : ExecutionPolicy} {ts r : Tokens} {d : Declaration}
      → DerivesFunction source policy ts d r
      → length r < length ts
  DerivesFunction-less (Rules.function s a p t b body) = omega (
    arith,
    length-Starts s,
    length-Starts a,
    DerivesParameters-less p,
    DerivesReturn-le t,
    length-Starts b,
    DerivesBlock-less source body,
  )

  pub function-Derives :
      {policy : ExecutionPolicy} {ts r : Tokens} {d : Declaration}
      → DerivesFunction source policy ts d r
      → (f : ℕ) → length ts < f
      → parse_function_declaration f source policy ts ≡ ok (d, r)
  unfolding parse_function_declaration
  function-Derives (Rules.function s a p t b body) f lt =
      let size = length-Starts s in
      let size' = length-Starts a in
      let size'' = DerivesParameters-less p in
      let size3 = DerivesReturn-le t in
      let size4 = length-Starts b in
      rw
        (
          consume_Starts s "Expected a function name after 'fun'." (λ e. cc),
          consume_Starts a "Expected '(' after the function name." (λ e. cc),
          parameters-Derives p f "Expected a parameter name."
              "Expected ':' after the parameter name." "Expected ')' after the function parameters."
              (omega arith),
          return-Derives t f (omega arith),
          consume_Starts b "Expected '{' before the function body." (λ e. cc),
          block_statements-Derives source body f (omega arith),
        )
        refl

  pub annotated-Derives :
      {policy : ExecutionPolicy} {u v r : Tokens} {a : Token} {d : Declaration}
      → Starts TokenType.keyword_fun u a v
      → DerivesFunction source policy v d r
      → (f : ℕ) → length u < f
      → parse_annotated_function f source policy u ≡ ok (d, r)
  unfolding parse_annotated_function
  annotated-Derives a d f lt =
      let size = length-Starts a in
      rw
        (
          check_other a TokenType.annotation_sync (λ e. cc),
          check_other a TokenType.annotation_async (λ e. cc),
          check_other a TokenType.annotation_async_after (λ e. cc),
          consume_Starts a "Expected 'fun' after the execution annotation." (λ e. cc),
          function-Derives d f (omega arith),
        )
        refl
