-- ===== src/Parser/Grammar/Expressions.antt =====
-- The rules of expressions.
use crossa.Prelude.{ℕ, suc, ◌<◌, List, ◌∷◌, some, Bytes, codes, bytes_eq, ok, ◌≡◌, ◌≢◌}
use crossa.Lexer.Token.{TokenType, Token}
use crossa.Syntax.{
  UnaryOperator, BinaryOperator, StringSegment, HttpMethod, Expression, Expressions, Entries,
}
use crossa.Parser.Cursor.{Tokens, peek, location_of, get_lexeme}
use crossa.Parser.Strings.{parse_string_segments}
use crossa.Parser.Types.{maximum_parse_recursion_depth}
use crossa.Parser.Primary.{method_of}
use crossa.Parser.Grammar.{Starts, Stops, symbol, precedence, Keys, DerivesKey}

module _ (source : Bytes) where
  mutual
    -- An expression with a depth of its own.
    pub data DerivesExpression : ℕ → Tokens → Expression → Tokens → Type 0 where
      opens :
          {depth : ℕ} {ts r : Tokens} {e : Expression}
          → depth < maximum_parse_recursion_depth
          → Derives (suc depth) 0 ts e r
          → Stops 0 r
          → DerivesExpression depth ts e r

    -- An expression of a level: 0 to 5 by the precedence of its operators, 6 a prefix, 7 an atom.
    pub data Derives : ℕ → ℕ → Tokens → Expression → Tokens → Type 0 where
      tighter :
          {depth level : ℕ} {ts r : Tokens} {e : Expression}
          → Derives depth (suc level) ts e r
          → Stops (suc level) r
          → Derives depth level ts e r
      binary :
          {depth level : ℕ} {ts u v r : Tokens} {t : Token} {a b : Expression} {o : BinaryOperator}
          → Derives depth level ts a u
          → Starts (symbol o) u t v
          → precedence o ≡ level
          → Derives depth (suc level) v b r
          → Stops (suc level) r
          → Derives depth level ts (Expression.binary a o b (location_of t)) r
      inverted :
          {depth : ℕ} {ts u r : Tokens} {t : Token} {e : Expression}
          → Starts TokenType.bang ts t u
          → Derives depth 6 u e r
          → Derives depth 6 ts (Expression.unary UnaryOperator.not e (location_of t)) r
      negated :
          {depth : ℕ} {ts u r : Tokens} {t : Token} {e : Expression}
          → Starts TokenType.minus ts t u
          → Derives depth 6 u e r
          → Derives depth 6 ts (Expression.unary UnaryOperator.negate e (location_of t)) r
      integer :
          {depth : ℕ} {ts r : Tokens} {t : Token}
          → Starts TokenType.integer_literal ts t r
          → Derives depth 7 ts (Expression.integer_literal (get_lexeme source t) (location_of t)) r
      decimal :
          {depth : ℕ} {ts r : Tokens} {t : Token}
          → Starts TokenType.decimal_literal ts t r
          → Derives depth 7 ts (Expression.decimal_literal (get_lexeme source t) (location_of t)) r
      text :
          {depth : ℕ} {ts r : Tokens} {t : Token} {segments : List StringSegment}
          → Starts TokenType.string_literal ts t r
          → parse_string_segments source t ≡ ok segments
          → Derives depth 7 ts (Expression.string_literal segments (location_of t)) r
      boolean :
          {depth : ℕ} {ts r : Tokens} {t : Token}
          → Starts TokenType.boolean_literal ts t r
          → Derives depth 7 ts
              (Expression.boolean_literal
                (bytes_eq (get_lexeme source t) (codes "true"))
                (location_of t))
              r
      null :
          {depth : ℕ} {ts r : Tokens} {t : Token}
          → Starts TokenType.keyword_null ts t r
          → Derives depth 7 ts (Expression.json_null (location_of t)) r
      request :
          {depth : ℕ} {ts u v r : Tokens} {t a : Token} {entries : Entries}
          → Starts TokenType.keyword_crossa_request ts t u
          → Starts TokenType.left_brace u a v
          → DerivesEntries depth Keys.names v entries r
          → Derives depth 7 ts (Expression.crossa_request entries (location_of t)) r
      method :
          {depth : ℕ} {ts r : Tokens} {t : Token} {m : HttpMethod}
          → ts ≡ t ∷ r
          → method_of t.type ≡ some m
          → Derives depth 7 ts (Expression.http_method m (location_of t)) r
      object :
          {depth : ℕ} {ts u r : Tokens} {t : Token} {entries : Entries}
          → Starts TokenType.left_brace ts t u
          → DerivesEntries depth Keys.texts u entries r
          → Derives depth 7 ts (Expression.json_object entries (location_of t)) r
      array :
          {depth : ℕ} {ts u r : Tokens} {t : Token} {values : Expressions}
          → Starts TokenType.left_bracket ts t u
          → DerivesList depth TokenType.right_bracket u values r
          → Derives depth 7 ts (Expression.json_array values (location_of t)) r
      print :
          {depth : ℕ} {ts u v r : Tokens} {t a : Token} {arguments : Expressions}
          → Starts TokenType.keyword_print ts t u
          → Starts TokenType.left_paren u a v
          → DerivesList depth TokenType.right_paren v arguments r
          → Derives depth 7 ts (Expression.call (codes "print") arguments (location_of t)) r
      assert :
          {depth : ℕ} {ts u v r : Tokens} {t a : Token} {arguments : Expressions}
          → Starts TokenType.keyword_assert ts t u
          → Starts TokenType.left_paren u a v
          → DerivesList depth TokenType.right_paren v arguments r
          → Derives depth 7 ts (Expression.call (codes "assert") arguments (location_of t)) r
      call :
          {depth : ℕ} {ts u v r : Tokens} {t a : Token} {arguments : Expressions}
          → Starts TokenType.identifier ts t u
          → Starts TokenType.left_paren u a v
          → DerivesList depth TokenType.right_paren v arguments r
          → Derives depth 7 ts (Expression.call (get_lexeme source t) arguments (location_of t)) r
      identifier :
          {depth : ℕ} {ts r : Tokens} {t : Token}
          → Starts TokenType.identifier ts t r
          → (peek r).type ≢ TokenType.left_paren
          → Derives depth 7 ts (Expression.identifier (get_lexeme source t) (location_of t)) r
      group :
          {depth : ℕ} {ts u v r : Tokens} {t a : Token} {e : Expression}
          → Starts TokenType.left_paren ts t u
          → DerivesExpression depth u e v
          → Starts TokenType.right_paren v a r
          → Derives depth 7 ts e r

    -- Expressions with commas between them, and the closing token.
    pub data DerivesList : ℕ → TokenType → Tokens → Expressions → Tokens → Type 0 where
      empty :
          {depth : ℕ} {close : TokenType} {ts r : Tokens} {t : Token}
          → Starts close ts t r
          → DerivesList depth close ts Expressions.nil r
      filled :
          {depth : ℕ} {close : TokenType} {ts u r : Tokens} {t : Token} {es : Expressions}
          → DerivesItems depth ts es u
          → Starts close u t r
          → DerivesList depth close ts es r

    pub data DerivesItems : ℕ → Tokens → Expressions → Tokens → Type 0 where
      one :
          {depth : ℕ} {ts r : Tokens} {e : Expression}
          → DerivesExpression depth ts e r
          → DerivesItems depth ts (Expressions.cons e Expressions.nil) r
      more :
          {depth : ℕ} {ts u v r : Tokens} {t : Token} {e : Expression} {es : Expressions}
          → DerivesExpression depth ts e u
          → Starts TokenType.comma u t v
          → DerivesItems depth v es r
          → DerivesItems depth ts (Expressions.cons e es) r

    -- Entries with commas between them, and a right brace.
    pub data DerivesEntries : ℕ → Keys → Tokens → Entries → Tokens → Type 0 where
      no_entries :
          {depth : ℕ} {keys : Keys} {ts r : Tokens} {t : Token}
          → Starts TokenType.right_brace ts t r
          → DerivesEntries depth keys ts Entries.end r
      entries :
          {depth : ℕ} {keys : Keys} {ts u r : Tokens} {t : Token} {entries : Entries}
          → DerivesPairs depth keys ts entries u
          → Starts TokenType.right_brace u t r
          → DerivesEntries depth keys ts entries r

    pub data DerivesPairs : ℕ → Keys → Tokens → Entries → Tokens → Type 0 where
      last :
          {depth : ℕ} {keys : Keys} {ts u v r : Tokens} {a : Token} {key : Bytes} {e : Expression}
          → DerivesKey source keys ts key u
          → Starts TokenType.colon u a v
          → DerivesExpression depth v e r
          → DerivesPairs depth keys ts (Entries.entry key e (location_of (peek ts)) Entries.end) r
      next :
          {depth : ℕ} {keys : Keys} {ts u v w x r : Tokens} {a b : Token} {key : Bytes}
          {e : Expression} {entries : Entries}
          → DerivesKey source keys ts key u
          → Starts TokenType.colon u a v
          → DerivesExpression depth v e w
          → Starts TokenType.comma w b x
          → DerivesPairs depth keys x entries r
          → DerivesPairs depth keys ts (Entries.entry key e (location_of (peek ts)) entries) r
