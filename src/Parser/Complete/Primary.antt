-- ===== src/Parser/Complete/Primary.antt =====
-- The first token decides what `parsePrimaryExpression` reads.
use crossa.Prelude.{ℕ, suc, some, Bytes, bytes_eq, codes, ◌∷◌, ok, ◌≡◌, refl, arith}
use crossa.Lexer.Token.{TokenType, Token}
use crossa.Syntax.{HttpMethod, Expression}
use crossa.Parser.Cursor.{Tokens, get_lexeme, location_of, peek, advance}
use crossa.Parser.Expressions.{Parse, parse_json_array_expression}
use crossa.Parser.Primary.{
  parse_primary_expression, parse_string_literal, parse_crossa_request_expression,
  parse_json_object_expression, parse_builtin_call, parse_identifier, parse_group, method_of,
}
use crossa.Parser.Grammar.{Starts}

module _ (f : ℕ) (source : Bytes) (inner : Parse) {ts r : Tokens} {t : Token} where
  pub primary_integer :
      Starts TokenType.integer_literal ts t r
      → parse_primary_expression (suc f) source inner ts
        ≡ ok (Expression.integer_literal (get_lexeme source t) (location_of t), r)
  unfolding parse_primary_expression peek advance
  primary_integer s = rw (s.0, s.1) refl

  pub primary_decimal :
      Starts TokenType.decimal_literal ts t r
      → parse_primary_expression (suc f) source inner ts
        ≡ ok (Expression.decimal_literal (get_lexeme source t) (location_of t), r)
  unfolding parse_primary_expression peek advance
  primary_decimal s = rw (s.0, s.1) refl

  pub primary_boolean :
      Starts TokenType.boolean_literal ts t r
      → parse_primary_expression (suc f) source inner ts
        ≡ ok (
          Expression.boolean_literal
              (bytes_eq (get_lexeme source t) (codes "true"))
              (location_of t),
          r,
        )
  unfolding parse_primary_expression peek advance
  primary_boolean s = rw (s.0, s.1) refl

  pub primary_null :
      Starts TokenType.keyword_null ts t r
      → parse_primary_expression (suc f) source inner ts
        ≡ ok (Expression.json_null (location_of t), r)
  unfolding parse_primary_expression peek advance
  primary_null s = rw (s.0, s.1) refl

  pub primary_string :
      Starts TokenType.string_literal ts t r
      → parse_primary_expression (suc f) source inner ts ≡ parse_string_literal source ts
  unfolding parse_primary_expression peek advance
  primary_string s = rw (s.0, s.1) refl

  pub primary_request :
      Starts TokenType.keyword_crossa_request ts t r
      → parse_primary_expression (suc f) source inner ts
        ≡ parse_crossa_request_expression (suc f) source inner (location_of t) r
  unfolding parse_primary_expression peek advance
  primary_request s = rw (s.0, s.1) refl

  pub primary_object :
      Starts TokenType.left_brace ts t r
      → parse_primary_expression (suc f) source inner ts
        ≡ parse_json_object_expression (suc f) source inner (location_of t) r
  unfolding parse_primary_expression peek advance
  primary_object s = rw (s.0, s.1) refl

  pub primary_array :
      Starts TokenType.left_bracket ts t r
      → parse_primary_expression (suc f) source inner ts
        ≡ parse_json_array_expression (suc f) inner (location_of t) r
  unfolding parse_primary_expression peek advance
  primary_array s = rw (s.0, s.1) refl

  pub primary_print :
      Starts TokenType.keyword_print ts t r
      → parse_primary_expression (suc f) source inner ts
        ≡ parse_builtin_call (suc f) (codes "print") "Expected '(' after 'print'." inner ts
  unfolding parse_primary_expression peek advance
  primary_print s = rw (s.0, s.1) refl

  pub primary_assert :
      Starts TokenType.keyword_assert ts t r
      → parse_primary_expression (suc f) source inner ts
        ≡ parse_builtin_call (suc f) (codes "assert") "Expected '(' after 'assert'." inner ts
  unfolding parse_primary_expression peek advance
  primary_assert s = rw (s.0, s.1) refl

  pub primary_identifier :
      Starts TokenType.identifier ts t r
      → parse_primary_expression (suc f) source inner ts ≡ parse_identifier (suc f) source inner ts
  unfolding parse_primary_expression peek advance
  primary_identifier s = rw (s.0, s.1) refl

  pub primary_group :
      Starts TokenType.left_paren ts t r
      → parse_primary_expression (suc f) source inner ts ≡ parse_group inner ts
  unfolding parse_primary_expression peek advance
  primary_group s = rw (s.0, s.1) refl

-- How a method is written.
method_token : HttpMethod → TokenType
method_token HttpMethod.get = TokenType.method_get
method_token HttpMethod.post = TokenType.method_post
method_token HttpMethod.put = TokenType.method_put
method_token HttpMethod.patch = TokenType.method_patch
method_token HttpMethod.delete = TokenType.method_delete
method_token HttpMethod.head = TokenType.method_head
method_token HttpMethod.options = TokenType.method_options
method_token HttpMethod.trace = TokenType.method_trace
method_token HttpMethod.connect = TokenType.method_connect

method_token_of :
    (type : TokenType) (m : HttpMethod) → method_of type ≡ some m → type ≡ method_token m
unfolding method_of method_token
method_token_of _ m h = ground arith

module _ (f : ℕ) (source : Bytes) (inner : Parse) where
  primary_at_method :
      (m : HttpMethod) (r : Tokens) (t : Token)
      → t.type ≡ method_token m
      → parse_primary_expression (suc f) source inner (t ∷ r)
        ≡ ok (Expression.http_method m (location_of t), r)
  unfolding parse_primary_expression peek advance method_token
  primary_at_method HttpMethod.get r t e = rw e refl
  primary_at_method HttpMethod.post r t e = rw e refl
  primary_at_method HttpMethod.put r t e = rw e refl
  primary_at_method HttpMethod.patch r t e = rw e refl
  primary_at_method HttpMethod.delete r t e = rw e refl
  primary_at_method HttpMethod.head r t e = rw e refl
  primary_at_method HttpMethod.options r t e = rw e refl
  primary_at_method HttpMethod.trace r t e = rw e refl
  primary_at_method HttpMethod.connect r t e = rw e refl

  pub primary_method :
      {ts r : Tokens} {t : Token} (m : HttpMethod)
      → ts ≡ t ∷ r
      → method_of t.type ≡ some m
      → parse_primary_expression (suc f) source inner ts
        ≡ ok (Expression.http_method m (location_of t), r)
  primary_method {ts} {r} {t} m e h = rw e (primary_at_method m r t (method_token_of t.type m h))
