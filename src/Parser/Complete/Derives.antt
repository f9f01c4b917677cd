-- ===== src/Parser/Complete/Derives.antt =====
-- The derivations of expressions, and what they say of the parser.
use Prim.Native.String.{String}
use crossa.Prelude.{ℕ, zero, suc, ◌≤◌, ◌<◌, false, Bytes, length, ok, ◌≡◌, ◌≢◌, refl, ◌∙◌, arith}
use crossa.Lexer.Token.{TokenType, Token}
use crossa.Syntax.{UnaryOperator, BinaryOperator, Expression, Expressions, Entries}
use crossa.Parser.Cursor.{Tokens, location_of, check}
use crossa.Parser.Expressions.{
  binary_loop, expressions_loop, parse_list, parse_call_expression, parse_json_array_expression,
}
use crossa.Parser.Primary.{
  entries_loop, parse_entries, parse_crossa_request_expression, parse_json_object_expression,
  parse_builtin_call, parse_identifier, parse_group, parse_string_literal, parse_expression,
}
use crossa.Parser.Grammar.{Starts, Keys, symbol, precedence}
use crossa.Parser.Grammar.Expressions as Rules
use crossa.Parser.Grammar.Expressions.{
  Derives, DerivesExpression, DerivesList, DerivesItems, DerivesEntries, DerivesPairs,
}
use crossa.Parser.Sound.Levels.{precedence-le}
use crossa.Parser.Complete.Cursors.{
  check_of_ne, peek-Starts, length-Starts, check_Starts, check_other, advance_Starts,
  consume_Starts,
}
use crossa.Parser.Complete.Less.{
  begins_atom, begins, DerivesKey-less, Derives-less, DerivesExpression-less, Derives-level,
  Derives-begins_atom,
}
use crossa.Parser.Complete.Levels.{
  operator_at, parse_level, binary_loop-Starts, parse_level-operand,
}
use crossa.Parser.Complete.Primary
use crossa.Parser.Complete.Expressions.{
  enter_room, check_of_begins, inner, primary, unary, at_level, Runs, whole, unary-atom,
  unary-inverted, unary-negated, key_parser, key-DerivesKey, DerivesItems-begins,
  DerivesPairs-ne-right_brace,
}

module _ (source : Bytes) where
  -- A loop that has gone on from an operand goes on from the operator behind it.
  binary-loop :
      (f depth level : ℕ) (ts : Tokens) (a b : Expression) (o : BinaryOperator) (u v r : Tokens)
      (t : Token) (g : ℕ)
      → length u < g
      → length r < length u
      → at_level source f depth level ts
        ≡ binary_loop g (operator_at level) (at_level source f depth (suc level)) a u
      → Starts (symbol o) u t v
      → precedence o ≡ level
      → at_level source f depth (suc level) v ≡ ok (b, r)
      → (h : ℕ) × (length r < h)
        × (at_level source f depth level ts
            ≡ binary_loop h
                (operator_at level)
                (at_level source f depth (suc level))
                (Expression.binary a o b (location_of t))
                r)
  binary-loop f depth level ts a b o u v r t zero lt less read s p operand = elim lt [ ]
  binary-loop f depth level ts a b o u v r t (suc g) lt less read s p operand =
      (g, omega arith, read ∙ binary_loop-Starts level g _ a b o u v r t s p operand)

  -- The atoms, of level 7.
  atom-Runs :
      {f depth : ℕ} {ts : Tokens} {e : Expression} {r : Tokens}
      → primary source f depth ts ≡ ok (e, r)
      → Runs source f depth 7 ts e r
  atom-Runs read = record {
    loop = λ lt. absurd (omega arith);
    prefix = λ same. absurd (omega arith);
    atom = λ le. read;
  }

  -- An atom, as a prefixed expression
  tighter-unary :
      {depth level : ℕ} {ts r : Tokens} {e : Expression}
      → Derives source depth level ts e r
      → (f : ℕ) → Runs source f depth level ts e r
      → 7 ≤ level
      → (g : ℕ) → length ts < g
      → unary source f depth g ts ≡ ok (e, r)
  tighter-unary d f runs le zero short = elim short [ ]
  tighter-unary {depth} {level} {ts} {r} {e} d f runs le (suc g) short =
      unary-atom source f depth g ts e r (Derives-begins_atom source d le) (runs.atom le)

  inverted-unary :
      {depth : ℕ} {ts u r : Tokens} {t : Token} {e : Expression}
      → Starts TokenType.bang ts t u
      → (f : ℕ) → Runs source f depth 6 u e r
      → (g : ℕ) → length ts < g
      → unary source f depth g ts ≡ ok (Expression.unary UnaryOperator.not e (location_of t), r)
  inverted-unary s f runs zero short = elim short [ ]
  inverted-unary {depth} {r = r} {e = e} s f runs (suc g) short =
      let less = length-Starts s in
      unary-inverted source f depth g e r s (runs.prefix refl g (omega arith))

  negated-unary :
      {depth : ℕ} {ts u r : Tokens} {t : Token} {e : Expression}
      → Starts TokenType.minus ts t u
      → (f : ℕ) → Runs source f depth 6 u e r
      → length r < length u
      → (g : ℕ) → length ts < g
      → unary source f depth g ts ≡ ok (Expression.unary UnaryOperator.negate e (location_of t), r)
  negated-unary s f runs less zero short = elim short [ ]
  negated-unary s f runs less (suc zero) short = absurd (omega (arith, length-Starts s))
  negated-unary {depth} {r = r} {e = e} s f runs less (suc (suc g)) short =
      let size = length-Starts s in
      unary-negated source f depth g e r s (runs.prefix refl (suc g) (omega arith))

  mutual
    unfolding parse_expression parse_list expressions_loop parse_entries entries_loop
        parse_string_literal parse_crossa_request_expression parse_json_object_expression
        parse_json_array_expression parse_builtin_call parse_call_expression parse_identifier
        parse_group parse_level begins begins_atom

    pub expression-Derives :
        {depth : ℕ} {ts r : Tokens} {e : Expression}
        → DerivesExpression source depth ts e r
        → (f : ℕ) → length ts < f
        → inner source f depth ts ≡ ok (e, r)
    expression-Derives (Rules.opens room d stops) zero lt = elim lt [ ]
    expression-Derives {depth} {ts} {r} {e} (Rules.opens room d stops) (suc f) lt =
        enter_room depth ts _ room
        ∙ whole source f (suc depth) 0 ts e r (level-Derives d f lt) stops (omega arith) lt

    level-Derives :
        {depth level : ℕ} {ts r : Tokens} {e : Expression}
        → Derives source depth level ts e r
        → (f : ℕ) → length ts < suc f
        → Runs source f depth level ts e r
    level-Derives {depth} {level} {ts} {r} {e} (Rules.tighter d stops) f lt = record {
      loop = (λ less.
          let read =
            whole source f depth (suc level) ts e r (level-Derives d f lt) stops (omega arith) lt in
          (
            suc f,
            omega (arith, Derives-less source d),
            parse_level-operand (suc f) level _ ts r e less read,
          ));
      prefix = (λ same g short. tighter-unary d f (level-Derives d f lt) (omega arith) g short);
      atom = (λ le. absurd (omega (arith, Derives-level source d)));
    }
    level-Derives {depth} {level} {ts}
          (Rules.binary {u = u} {v = v} {r = r} {t = t} {a = a} {b = b} {o = o} da s p db stops) f
          lt =
        record {
          loop = (λ less.
              let left = (level-Derives da f lt).loop less in
              let short : length v < suc f =
                omega (arith, Derives-less source da, length-Starts s) in
              let right =
                whole source f depth (suc level) v b r (level-Derives db f short) stops
                  (omega arith) short in
              binary-loop f depth level ts a b o u v r t left.0 left.1
                (omega (arith, length-Starts s, Derives-less source db)) left.2 s p right);
          prefix = (λ same. absurd (omega (arith, precedence-le o)));
          atom = (λ le. absurd (omega (arith, precedence-le o)));
        }
    level-Derives {depth} {level} {ts} {r} (Rules.inverted {u = u} {e = e} s d) f lt = record {
      loop = (λ less. absurd (omega arith));
      prefix = (λ same g short.
          inverted-unary s f (level-Derives d f (omega (arith, length-Starts s))) g short);
      atom = (λ le. absurd (omega arith));
    }
    level-Derives {depth} {level} {ts} {r} (Rules.negated {u = u} {e = e} s d) f lt = record {
      loop = (λ less. absurd (omega arith));
      prefix = (λ same g short.
          negated-unary s f (level-Derives d f (omega (arith, length-Starts s)))
            (Derives-less source d) g short);
      atom = (λ le. absurd (omega arith));
    }
    level-Derives {depth} {ts = ts} (Rules.integer s) f lt =
        atom-Runs (Primary.primary_integer f source (inner source f depth) s)
    level-Derives {depth} {ts = ts} (Rules.decimal s) f lt =
        atom-Runs (Primary.primary_decimal f source (inner source f depth) s)
    level-Derives {depth} {ts = ts} (Rules.text s read) f lt = atom-Runs (
        Primary.primary_string f source (inner source f depth) s
        ∙ rw (peek-Starts s, read, advance_Starts s (λ e. cc)) refl)
    level-Derives {depth} {ts = ts} (Rules.boolean s) f lt =
        atom-Runs (Primary.primary_boolean f source (inner source f depth) s)
    level-Derives {depth} {ts = ts} (Rules.null s) f lt =
        atom-Runs (Primary.primary_null f source (inner source f depth) s)
    level-Derives {depth} {ts = ts} (Rules.request s u d) f lt = atom-Runs (
        Primary.primary_request f source (inner source f depth) s
        ∙ rw
            (
              consume_Starts u "Expected '{' after 'CrossaRequest'." (λ e. cc),
              entries-Derives d f (suc f) "Expected a CrossaRequest entry name."
                  "Expected ':' after the CrossaRequest entry name."
                  "Expected '}' after CrossaRequest entries."
                  (omega (arith, length-Starts s, length-Starts u))
                  (omega (arith, length-Starts s, length-Starts u)),
            )
            refl)
    level-Derives {depth} {ts = ts} (Rules.method {m = m} e found) f lt =
        atom-Runs (Primary.primary_method f source (inner source f depth) m e found)
    level-Derives {depth} {ts = ts} (Rules.object s d) f lt = atom-Runs (
        Primary.primary_object f source (inner source f depth) s
        ∙ rw
            (entries-Derives d f (suc f) "" "Expected ':' after the JSON object key."
              "Expected '}' after the JSON object." (omega (arith, length-Starts s))
              (omega (arith, length-Starts s)))
            refl)
    level-Derives {depth} {ts = ts} (Rules.array s d) f lt = atom-Runs (
        Primary.primary_array f source (inner source f depth) s
        ∙ rw
            (list-Derives d f "Expected ']' after the JSON array." refl (λ e. cc) (λ e. cc)
              (omega (arith, length-Starts s)))
            refl)
    level-Derives {depth} {ts = ts} (Rules.print s u d) f lt = atom-Runs (
        Primary.primary_print f source (inner source f depth) s
        ∙ rw
            (
              peek-Starts s,
              advance_Starts s (λ e. cc),
              consume_Starts u "Expected '(' after 'print'." (λ e. cc),
              list-Derives d f "Expected ')' after call arguments." refl (λ e. cc) (λ e. cc)
                  (omega (arith, length-Starts s, length-Starts u)),
            )
            refl)
    level-Derives {depth} {ts = ts} (Rules.assert s u d) f lt = atom-Runs (
        Primary.primary_assert f source (inner source f depth) s
        ∙ rw
            (
              peek-Starts s,
              advance_Starts s (λ e. cc),
              consume_Starts u "Expected '(' after 'assert'." (λ e. cc),
              list-Derives d f "Expected ')' after call arguments." refl (λ e. cc) (λ e. cc)
                  (omega (arith, length-Starts s, length-Starts u)),
            )
            refl)
    level-Derives {depth} {ts = ts} (Rules.call s u d) f lt = atom-Runs (
        Primary.primary_identifier f source (inner source f depth) s
        ∙ rw
            (
              peek-Starts s,
              advance_Starts s (λ e. cc),
              check_Starts u,
              advance_Starts u (λ e. cc),
              list-Derives d f "Expected ')' after call arguments." refl (λ e. cc) (λ e. cc)
                  (omega (arith, length-Starts s, length-Starts u)),
            )
            refl)
    level-Derives {depth} {ts = ts} {r = r} (Rules.identifier s n) f lt = atom-Runs (
        Primary.primary_identifier f source (inner source f depth) s
        ∙ rw (peek-Starts s, advance_Starts s (λ e. cc), check_of_ne TokenType.left_paren r n) refl)
    level-Derives {depth} {ts = ts} (Rules.group s d u) f lt = atom-Runs (
        Primary.primary_group f source (inner source f depth) s
        ∙ rw
            (
              advance_Starts s (λ e. cc),
              expression-Derives d f (omega (arith, length-Starts s)),
              consume_Starts u "Expected ')' after the expression." (λ e. cc),
            )
            refl)

    list-Derives :
        {depth : ℕ} {close : TokenType} {ts r : Tokens} {es : Expressions}
        → DerivesList source depth close ts es r
        → (f : ℕ) (message : String) → begins close ≡ false
        → close ≢ TokenType.comma
        → close ≢ TokenType.end_of_file
        → length ts < f
        → parse_list (suc f) close message (inner source f depth) ts ≡ ok (es, r)
    list-Derives (Rules.empty s) f message not comma end lt =
        rw (check_Starts s, consume_Starts s message end) refl
    list-Derives {close = close} {ts = ts} (Rules.filled d s) f message not comma end lt =
        rw
          (
            check_of_begins close ts (DerivesItems-begins source d) not,
            items-Derives d f (suc f) lt (omega arith) (check_other s TokenType.comma comma),
            consume_Starts s message end,
          )
          refl

    items-Derives :
        {depth : ℕ} {ts r : Tokens} {es : Expressions}
        → DerivesItems source depth ts es r
        → (f g : ℕ) → length ts < f
        → length ts < g
        → check TokenType.comma r ≡ false
        → expressions_loop g (inner source f depth) ts ≡ ok (es, r)
    items-Derives d f zero lt short last = elim short [ ]
    items-Derives (Rules.one d) f (suc g) lt short last = rw (expression-Derives d f lt, last) refl
    items-Derives (Rules.more d s ds) f (suc g) lt short last =
        let less = DerivesExpression-less source d in
        let less' = length-Starts s in
        rw
          (
            expression-Derives d f lt,
            check_Starts s,
            advance_Starts s (λ e. cc),
            items-Derives ds f g (omega arith) (omega arith) last,
          )
          refl

    pub entries-Derives :
        {depth : ℕ} {keys : Keys} {ts r : Tokens} {es : Entries}
        → DerivesEntries source depth keys ts es r
        → (f g : ℕ) (missing colon message : String) → length ts < f
        → length ts < g
        → parse_entries g (key_parser source keys missing) colon message (inner source f depth) ts
          ≡ ok (es, r)
    entries-Derives (Rules.no_entries s) f g missing colon message lt short =
        rw (check_Starts s, consume_Starts s message (λ e. cc)) refl
    entries-Derives (Rules.entries d s) f g missing colon message lt short =
        rw
          (
            DerivesPairs-ne-right_brace source d,
            pairs-Derives d f g missing colon lt short (check_other s TokenType.comma (λ e. cc)),
            consume_Starts s message (λ e. cc),
          )
          refl

    pairs-Derives :
        {depth : ℕ} {keys : Keys} {ts r : Tokens} {es : Entries}
        → DerivesPairs source depth keys ts es r
        → (f g : ℕ) (missing colon : String) → length ts < f
        → length ts < g
        → check TokenType.comma r ≡ false
        → entries_loop g (key_parser source keys missing) colon (inner source f depth) ts
          ≡ ok (es, r)
    pairs-Derives d f zero missing colon lt short last = elim short [ ]
    pairs-Derives (Rules.last k s d) f (suc g) missing colon lt short last =
        let less = DerivesKey-less source k in
        let less' = length-Starts s in
        rw
          (
            key-DerivesKey source missing k,
            consume_Starts s colon (λ e. cc),
            expression-Derives d f (omega arith),
            last,
          )
          refl
    pairs-Derives (Rules.next k s d u ds) f (suc g) missing colon lt short last =
        let less = DerivesKey-less source k in
        let less' = length-Starts s in
        let less'' = DerivesExpression-less source d in
        let less3 = length-Starts u in
        rw
          (
            key-DerivesKey source missing k,
            consume_Starts s colon (λ e. cc),
            expression-Derives d f (omega arith),
            check_Starts u,
            advance_Starts u (λ e. cc),
            pairs-Derives ds f g missing colon (omega arith) (omega arith) last,
          )
          refl
