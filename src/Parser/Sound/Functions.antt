-- ===== src/Parser/Sound/Functions.antt =====
-- Fields and functions.
use Prim.Native.String.{String}
use crossa.Prelude.{
  ℕ, zero, suc, ◌≤◌, ◌<◌, Bytes, length, arith, Post, done, Post-if, Post-bind, Post-weaken,
}
use crossa.Lexer.Token.{TokenType, Token}
use crossa.Syntax.{ExecutionPolicy}
use crossa.Parser.Cursor.{Tokens, check, advance}
use crossa.Parser.Declarations.{
  fields_loop, parse_fields, parse_return_type, parse_function_declaration,
}
use crossa.Parser.Grammar.{Starts}
use crossa.Parser.Grammar.Units as Grammar
use crossa.Parser.Grammar.Units.{
  IsFilename, inside, DerivesImport, DerivesFields, DerivesParameters, DerivesReturn,
  DerivesFunction, Annotates, DerivesDeclaration, DerivesUnit,
}
use crossa.Parser.Sound.Cursors.{
  Good, Fails, Reads, check-Good, check-Starts, check-eq-false, consume-Reads,
}
use crossa.Parser.Sound.Types.{parse_type_reference-Reads}
use crossa.Parser.Sound.Statements.{parse_block_statements-Reads}

module _ (P : Token → Type 0) (source : Bytes) where
  fields_loop-Reads :
      (f : ℕ) (missing colon : String) (ts : Tokens)
      → Good P ts
      → length ts < f
      → Reads P
          (λ fields r. DerivesFields source ts fields r)
          ts
          (fields_loop f source missing colon ts)
  unfolding fields_loop
  fields_loop-Reads zero missing colon ts good lt = absurd (omega arith)
  fields_loop-Reads (suc f) missing colon ts good lt =
      Post-bind _ (consume-Reads P TokenType.identifier missing ts good (λ e. cc)) (λ x named.
        Post-bind _ (consume-Reads P TokenType.colon colon x.1 named.1 (λ e. cc)) (λ y mark.
          Post-bind _ (parse_type_reference-Reads P source (suc f) 0 y.1 mark.1 (omega arith))
            (λ z type.
              Post-if (check TokenType.comma z.1) _ _
                (λ h.
                  let moved = check-Good P TokenType.comma z.1 type.1 (λ e. cc) h in
                  Post-bind _
                    (fields_loop-Reads f missing colon (advance z.1) moved.0 (omega arith))
                    (λ w rest. done (
                      Grammar.next named.0.0 mark.0.0 type.0
                          (check-Starts P TokenType.comma z.1 (λ e. cc) h) rest.0,
                      rest.1,
                      omega arith,
                    )))
                (λ _. done (Grammar.last named.0.0 mark.0.0 type.0, type.1, omega arith)))))

  pub parse_fields-Reads :
      (f : ℕ) (missing colon close : String) (ts : Tokens)
      → Good P ts
      → length ts < f
      → Reads P
          (λ fields r. DerivesParameters source ts fields r)
          ts
          (parse_fields f source missing colon close ts)
  unfolding parse_fields
  parse_fields-Reads f missing colon close ts good lt =
      Post-bind
        {P = λ x.
          ((t : Token) (r : Tokens)
            → Starts TokenType.right_paren x.1 t r
            → DerivesParameters source ts x.0 r)
          × Good P x.1
          × (length x.1 ≤ length ts)}
        _
        (Post-if (check TokenType.right_paren ts) _ _
          (λ h. done ((λ t r starts. Grammar.no_fields starts), good, omega arith))
          (λ _.
            Post-weaken (fields_loop-Reads f missing colon ts good lt)
              (λ x all. ((λ t r starts. Grammar.fields all.0 starts), all.1, omega arith))))
        (λ x all.
          Post-bind _ (consume-Reads P TokenType.right_paren close x.1 all.1 (λ e. cc))
            (λ y end. done (all.0 _ _ end.0.0, end.1, omega arith)))

  parse_return_type-Post :
      (f : ℕ) (ts : Tokens)
      → Good P ts
      → length ts < f
      → Post
          (Fails P)
          (λ x. DerivesReturn source ts x.0 x.1 × Good P x.1 × (length x.1 ≤ length ts))
          (parse_return_type f source ts)
  unfolding parse_return_type
  parse_return_type-Post f ts good lt =
      Post-if (check TokenType.colon ts) _ _
        (λ h.
          let moved = check-Good P TokenType.colon ts good (λ e. cc) h in
          Post-bind _ (parse_type_reference-Reads P source f 0 (advance ts) moved.0 (omega arith))
            (λ x all. done (
              Grammar.returns (check-Starts P TokenType.colon ts (λ e. cc) h) all.0,
              all.1,
              omega arith,
            )))
        (λ h. done (Grammar.nothing (check-eq-false TokenType.colon ts h), good, omega arith))

  -- A function declaration from its name on.
  pub parse_function_declaration-Reads :
      (f : ℕ) (policy : ExecutionPolicy) (ts : Tokens)
      → Good P ts
      → length ts < f
      → Reads P
          (λ d r. DerivesFunction source policy ts d r)
          ts
          (parse_function_declaration f source policy ts)
  unfolding parse_function_declaration
  parse_function_declaration-Reads f policy ts good lt =
      Post-bind _ (consume-Reads P TokenType.identifier _ ts good (λ e. cc)) (λ a named.
        Post-bind _ (consume-Reads P TokenType.left_paren _ a.1 named.1 (λ e. cc)) (λ b left.
          Post-bind _ (parse_fields-Reads f _ _ _ b.1 left.1 (omega arith)) (λ c parameters.
            Post-bind _ (parse_return_type-Post f c.1 parameters.1 (omega arith)) (λ d returned.
              Post-bind _ (consume-Reads P TokenType.left_brace _ d.1 returned.1 (λ e. cc))
                (λ e brace.
                  Post-bind _ (parse_block_statements-Reads P source f e.1 brace.1 (omega arith))
                    (λ g body. done (
                      Grammar.function named.0.0 left.0.0 parameters.0 returned.0 brace.0.0 body.0,
                      body.1,
                      omega arith,
                    )))))))
