-- ===== src/Parser/Sound/Atoms.antt =====
-- Atoms, and whole expressions.
use Prim.Native.String.{String}
use crossa.Prelude.{
  ℕ, zero, suc, ◌<◌, true, some, Bytes, bytes_eq, codes, length, subst, ltb, ok, ◌≡◌, ◌≢◌, arith,
  Post, done, Post-if, Post-bind, Post-weaken, inl, inr, Option-cases,
}
use crossa.Lexer.Token.{TokenType, Token}
use crossa.Syntax.{Expression, HttpMethod, Location}
use crossa.Parser.Cursor.{Tokens, Read, get_lexeme, location_of, peek, check, advance}
use crossa.Parser.Types.{enter, maximum_parse_recursion_depth}
use crossa.Parser.Expressions.{
  Parse, parse_call_expression, parse_json_array_expression, parse_unary_expression,
}
use crossa.Parser.Primary.{
  parse_crossa_request_expression, parse_json_object_expression, method_of,
  parse_http_method_expression, parse_builtin_call, parse_identifier, parse_group,
  parse_string_literal, parse_primary_expression, parse_expression,
}
use crossa.Parser.Grammar.{Starts}
use crossa.Parser.Grammar.Expressions as Grammar
use crossa.Parser.Grammar.Expressions.{Derives, DerivesExpression}
use crossa.Parser.Sound.Cursors.{
  Good, Fails, Reads, P-peek, fail-Post, check-Good, check-Starts, check-eq-false, consume-Reads,
  advance-Starts, Starts-Good,
}
use crossa.Parser.Sound.Texts.{parse_string_segments-Post}
use crossa.Parser.Sound.Levels.{
  Sound, Stops-5, parse_logical_or_expression-Sound, parse_unary_expression-Sound,
}
use crossa.Parser.Sound.Listed.{
  SoundInner, parse_list-Reads, parse_named_entries-Reads, parse_text_entries-Reads,
}

method-ne-end : (m : HttpMethod) → method_of TokenType.end_of_file ≢ some m
unfolding method_of
method-ne-end m e = cc

module _ (P : Token → Type 0) where
  -- The check of the depth at the entry of a routine.
  pub enter-Post :
      {A : Type 0} {Q : A × Tokens → Type 0} (depth : ℕ) (ts : Tokens) (body : Read A)
      → Good P ts
      → (depth < maximum_parse_recursion_depth → Post (Fails P) Q body)
      → Post (Fails P) Q (enter depth ts body)
  unfolding enter
  enter-Post depth ts body good read =
      Post-if (ltb maximum_parse_recursion_depth (suc depth)) _ _
        (λ _. fail-Post P (peek ts) _ (P-peek P ts good)) (λ h. read (ground arith))

module _ (P : Token → Type 0) (source : Bytes) (depth f : ℕ) (inner : Parse)
    (sound : SoundInner P source depth f inner) where
  -- An atom at the cursor.
  abbrev Atom : Tokens → Read Expression → Type 0
  Atom ts m = Reads P (λ e r. Derives source depth 7 ts e r) ts m

  -- A call at `start`, whose arguments begin at `ts`; `rule` derives the call from them.
  parse_call_expression-Atom :
      (start ts : Tokens) (callee : Bytes) (location : Location)
      → ((es : _) (r : Tokens)
          → Grammar.DerivesList source depth TokenType.right_paren ts es r
          → Derives source depth 7 start (Expression.call callee es location) r)
      → Good P ts
      → length ts < length start
      → length ts < f
      → Atom start (parse_call_expression (suc f) inner callee location ts)
  unfolding parse_call_expression
  parse_call_expression-Atom start ts callee location rule good less lf =
      Post-bind _
        (parse_list-Reads P source depth f inner sound (suc f) TokenType.right_paren _ ts (λ e. cc)
          good (omega arith) lf)
        (λ x all. done (rule x.0 x.1 all.0, all.1, omega arith))

  -- The token of a test, what is behind it, and that it is shorter.
  module _ (ts : Tokens) (good : Good P ts) (lf : length ts < suc f) where
    abbrev behind :
        (type : TokenType)
        → type ≢ TokenType.end_of_file
        → check type ts ≡ true
        → Good P (advance ts) × (length (advance ts) < length ts)
    behind type ne h = check-Good P type ts good ne h

    abbrev starts :
        (type : TokenType)
        → type ≢ TokenType.end_of_file
        → check type ts ≡ true
        → Starts type ts (peek ts) (advance ts)
    starts type ne h = check-Starts P type ts ne h

    -- An atom of one token.
    one_token :
        (type : TokenType) (e : Expression)
        → type ≢ TokenType.end_of_file
        → (Starts type ts (peek ts) (advance ts) → Derives source depth 7 ts e (advance ts))
        → check type ts ≡ true
        → Atom ts (ok (e, advance ts))
    one_token type e ne rule h =
        let moved = behind type ne h in done (rule (starts type ne h), moved.0, moved.1)

    parse_string_literal-Atom :
        check TokenType.string_literal ts ≡ true → Atom ts (parse_string_literal source ts)
    unfolding parse_string_literal
    parse_string_literal-Atom h =
        Post-bind _ (parse_string_segments-Post P (peek ts) (P-peek P ts good) source)
          (λ segments read.
            one_token TokenType.string_literal _ (λ e. cc) (λ s. Grammar.text s read) h)

    parse_crossa_request_expression-Atom :
        check TokenType.keyword_crossa_request ts ≡ true
        → Atom ts (
            parse_crossa_request_expression
              (suc f)
              source
              inner
              (location_of (peek ts))
              (advance ts))
    unfolding parse_crossa_request_expression
    parse_crossa_request_expression-Atom h =
        let moved = behind TokenType.keyword_crossa_request (λ e. cc) h in
        Post-bind _ (consume-Reads P TokenType.left_brace _ (advance ts) moved.0 (λ e. cc))
          (λ x brace.
            Post-bind _
              (parse_named_entries-Reads P source depth f inner sound (suc f) _ _ _ x.1 brace.1
                (omega arith) (omega arith))
              (λ y all. done (
                Grammar.request (starts TokenType.keyword_crossa_request (λ e. cc) h) brace.0.0
                    all.0,
                all.1,
                omega arith,
              )))

    parse_http_method_expression-Atom :
        Atom ts (parse_http_method_expression (method_of (peek ts).type) ts)
    unfolding parse_http_method_expression
    parse_http_method_expression-Atom = elim (Option-cases (method_of (peek ts).type)) [
      | inl bad ↦ rw bad (fail-Post P (peek ts) _ (P-peek P ts good))
      | inr (m, found) ↦ rw found (
          let ne : (peek ts).type ≢ TokenType.end_of_file =
            λ e. method-ne-end m (subst (λ t. method_of t ≡ some m) e found) in
          let first = advance-Starts ts ne in
          let moved = Starts-Good P (peek ts).type ts (advance ts) (peek ts) good first ne in
          done (Grammar.method first.0 found, moved.1, moved.2))
    ]

    parse_json_object_expression-Atom :
        check TokenType.left_brace ts ≡ true
        → Atom ts
            (parse_json_object_expression (suc f) source inner (location_of (peek ts)) (advance ts))
    unfolding parse_json_object_expression
    parse_json_object_expression-Atom h =
        let moved = behind TokenType.left_brace (λ e. cc) h in
        Post-bind _
          (parse_text_entries-Reads P source depth f inner sound (suc f) _ _ (advance ts) moved.0
            (omega arith) (omega arith))
          (λ y all.
            done
              (Grammar.object (starts TokenType.left_brace (λ e. cc) h) all.0, all.1, omega arith))

    parse_json_array_expression-Atom :
        check TokenType.left_bracket ts ≡ true
        → Atom ts (parse_json_array_expression (suc f) inner (location_of (peek ts)) (advance ts))
    unfolding parse_json_array_expression
    parse_json_array_expression-Atom h =
        let moved = behind TokenType.left_bracket (λ e. cc) h in
        Post-bind _
          (parse_list-Reads P source depth f inner sound (suc f) TokenType.right_bracket _
            (advance ts) (λ e. cc) moved.0 (omega arith) (omega arith))
          (λ y all.
            done
              (Grammar.array (starts TokenType.left_bracket (λ e. cc) h) all.0, all.1, omega arith))

    parse_builtin_call-Atom :
        (type : TokenType) (callee : Bytes) (message : String)
        → type ≢ TokenType.end_of_file
        → ((u v r : Tokens) (a : Token) (es : _)
            → Starts type ts (peek ts) u
            → Starts TokenType.left_paren u a v
            → Grammar.DerivesList source depth TokenType.right_paren v es r
            → Derives source depth 7 ts (Expression.call callee es (location_of (peek ts))) r)
        → check type ts ≡ true
        → Atom ts (parse_builtin_call (suc f) callee message inner ts)
    unfolding parse_builtin_call
    parse_builtin_call-Atom type callee message ne rule h =
        let moved = behind type ne h in
        Post-bind _ (consume-Reads P TokenType.left_paren message (advance ts) moved.0 (λ e. cc))
          (λ x paren.
            parse_call_expression-Atom ts x.1 callee _
              (λ es r derives. rule _ _ _ _ es (starts type ne h) paren.0.0 derives) paren.1
              (omega arith) (omega arith))

    parse_identifier-Atom :
        check TokenType.identifier ts ≡ true → Atom ts (parse_identifier (suc f) source inner ts)
    unfolding parse_identifier
    parse_identifier-Atom h =
        let moved = behind TokenType.identifier (λ e. cc) h in
        let first = starts TokenType.identifier (λ e. cc) h in
        Post-if (check TokenType.left_paren (advance ts)) _ _
          (λ paren.
            let inside = check-Good P TokenType.left_paren (advance ts) moved.0 (λ e. cc) paren in
            parse_call_expression-Atom ts (advance (advance ts)) _ _
              (λ es r derives.
                Grammar.call first (check-Starts P TokenType.left_paren _ (λ e. cc) paren) derives)
              inside.0 (omega arith) (omega arith))
          (λ none. done (
            Grammar.identifier first (check-eq-false TokenType.left_paren (advance ts) none),
            moved.0,
            moved.1,
          ))

    parse_group-Atom : check TokenType.left_paren ts ≡ true → Atom ts (parse_group inner ts)
    unfolding parse_group
    parse_group-Atom h =
        let moved = behind TokenType.left_paren (λ e. cc) h in
        Post-bind _ (sound (advance ts) moved.0 (omega arith)) (λ x inside.
          Post-bind _ (consume-Reads P TokenType.right_paren _ x.1 inside.1 (λ e. cc)) (λ y close.
            done (
              Grammar.group (starts TokenType.left_paren (λ e. cc) h) inside.0 close.0.0,
              close.1,
              omega arith,
            )))

    parse_primary_expression-Atom : Atom ts (parse_primary_expression (suc f) source inner ts)
    unfolding parse_primary_expression
    parse_primary_expression-Atom =
        let text = get_lexeme source (peek ts) in
        let place = location_of (peek ts) in
        search
          (
            Post-if,
            one_token TokenType.integer_literal (Expression.integer_literal text place) (λ e. cc)
                Grammar.integer,
            one_token TokenType.decimal_literal (Expression.decimal_literal text place) (λ e. cc)
                Grammar.decimal,
            parse_string_literal-Atom,
            one_token TokenType.boolean_literal
                (Expression.boolean_literal (bytes_eq text (codes "true")) place) (λ e. cc)
                Grammar.boolean,
            one_token TokenType.keyword_null (Expression.json_null place) (λ e. cc) Grammar.null,
            parse_crossa_request_expression-Atom,
            parse_http_method_expression-Atom,
            parse_json_object_expression-Atom,
            parse_json_array_expression-Atom,
            parse_builtin_call-Atom TokenType.keyword_print (codes "print")
                "Expected '(' after 'print'." (λ e. cc) (λ u v r a es. Grammar.print),
            parse_builtin_call-Atom TokenType.keyword_assert (codes "assert")
                "Expected '(' after 'assert'." (λ e. cc) (λ u v r a es. Grammar.assert),
            parse_identifier-Atom,
            parse_group-Atom,
            fail-Post P (peek ts) "Expected an expression." (P-peek P ts good),
          )
          depth 20

module _ (P : Token → Type 0) (source : Bytes) where
  -- The fuel of `parseExpression` is more than the tokens.
  pub parse_expression-SoundInner :
      (f depth : ℕ) → SoundInner P source depth f (parse_expression f source depth)
  unfolding parse_expression
  parse_expression-SoundInner zero depth ts good lt = absurd (omega arith)
  parse_expression-SoundInner (suc f) depth ts good lt =
      let inner = parse_expression-SoundInner f (suc depth) in
      let primary : Sound P source (suc depth) 7 (suc f)
          (parse_primary_expression (suc f) source (parse_expression f source (suc depth))) =
        λ us fine less.
          Post-weaken (parse_primary_expression-Atom P source (suc depth) f _ inner us fine less)
            (λ x all. ((all.0, Stops-5 7 _ (omega arith)), all.1, all.2)) in
      let unary : Sound P source (suc depth) 6 (suc f) (
          parse_unary_expression (suc f) source
            (parse_primary_expression (suc f) source (parse_expression f source (suc depth)))) =
        λ us fine less.
          parse_unary_expression-Sound P source (suc depth) (suc f) _ primary (suc f) us fine less
            less in
      enter-Post P depth ts _ good (λ room.
        Post-weaken
          (parse_logical_or_expression-Sound P source (suc depth) (suc f) _ unary ts good lt)
          (λ x all. (Grammar.opens room all.0.0 all.0.1, all.1, all.2)))
