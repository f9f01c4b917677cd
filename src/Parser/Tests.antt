-- ===== src/Parser/Tests.antt =====
-- The parser at concrete texts.
use Prim.Native.String.{String}
use crossa.Prelude.{
  ℕ, true, false, List, [], ◌∷◌, ◌++◌, ◌↔◌, Bytes, codes, All, bytes_eq, ok, ◌≡◌, ◌⊎◌, refl,
}
use crossa.Lexer.Token.{TokenType, Token, resolve_identifier_type}
use crossa.Lexer.Scan.{advance_while, advance}
use crossa.Lexer.Tokenize.{tokenize}
use crossa.Syntax.{Location, BinaryOperator, UnaryOperator, Expression, Declaration, get_location}
use crossa.Parser.Cursor.{failed, Tokens, consume, get_lexeme}
use crossa.Parser.Strings.{identifier_segment, parse_string_segments}
use crossa.Parser.Declarations.{parse}
use crossa.Parser.Grammar.Units.{DerivesUnit}
use crossa.Parser.Unit.{Occurs, parse-FailsAt}
use crossa.Parser.Equivalence.{nots, parse_iff, parse-nots}
use crossa.Parser.FrontEnd.{Parsed, Refused, parse-tokenize}
use crossa.Parser.Nesting.{Within, parse-Within}
use crossa.Parser.Literals.{escape_text, literal_segment, parse_string_segments-escape_text}
use crossa.Parser.Segments.{IsNormal, parse_string_segments-IsNormal}

abbrev precedence_source : Bytes
precedence_source = codes "1 + 2 * -x < 3"

abbrev token_at : TokenType → ℕ → ℕ → ℕ → Token
token_at t o n c = record { type = t; offset = o; length = n; line = 1; column = c }

abbrev precedence_tokens : Tokens
precedence_tokens =
    token_at TokenType.integer_literal 0 1 1
    ∷ token_at TokenType.plus 2 1 3
    ∷ token_at TokenType.integer_literal 4 1 5
    ∷ token_at TokenType.star 6 1 7
    ∷ token_at TokenType.minus 8 1 9
    ∷ token_at TokenType.identifier 9 1 10
    ∷ token_at TokenType.left_angle 11 1 12
    ∷ token_at TokenType.integer_literal 13 1 14
    ∷ token_at TokenType.end_of_file 14 0 15
    ∷ []

abbrev at : ℕ → Location
at c = record { line = 1; column = c }

abbrev precedence_declarations : List Declaration
precedence_declarations =
    Declaration.expression
      (Expression.binary
        (Expression.binary (Expression.integer_literal (codes "1") (at 1)) BinaryOperator.add
          (Expression.binary (Expression.integer_literal (codes "2") (at 5)) BinaryOperator.multiply
            (Expression.unary UnaryOperator.negate (Expression.identifier (codes "x") (at 10))
              (at 9))
            (at 7))
          (at 3))
        BinaryOperator.less (Expression.integer_literal (codes "3") (at 14)) (at 12))
      (at 12)
    ∷ []

precedence_test : parse precedence_source precedence_tokens ≡ ok precedence_declarations
unfolding parse
precedence_test = refl

parse_iff_example :
    (parse precedence_source precedence_tokens ≡ ok precedence_declarations)
    ↔ DerivesUnit precedence_source false precedence_tokens precedence_declarations
parse_iff_example = parse_iff precedence_source precedence_tokens precedence_declarations refl

-- `!!true`
abbrev literal_of_two : Token
literal_of_two = token_at TokenType.boolean_literal 2 4 3

abbrev end_of_two : Token
end_of_two = token_at TokenType.end_of_file 6 0 7

abbrev two_bangs : Tokens
two_bangs = token_at TokenType.bang 0 1 1 ∷ token_at TokenType.bang 1 1 2 ∷ []

parse-nots_example :
    parse (codes "!!true") (two_bangs ++ literal_of_two ∷ end_of_two ∷ [])
    ≡ ok (
        Declaration.expression
          (Expression.unary UnaryOperator.not
            (Expression.unary UnaryOperator.not (Expression.boolean_literal true (at 3)) (at 2))
            (at 1))
          (at 1)
        ∷ [])
unfolding nots get_lexeme get_location bytes_eq
parse-nots_example =
    parse-nots (codes "!!true") literal_of_two end_of_two two_bangs refl refl (refl, (refl, tt))

parse-Within_example : All (Within precedence_source) precedence_declarations
unfolding parse
parse-Within_example = parse-Within precedence_source precedence_tokens precedence_declarations refl

-- A call that is not closed.
abbrev open_source : Bytes
open_source = codes "f(1"

abbrev open_tokens : Tokens
open_tokens =
    token_at TokenType.identifier 0 1 1
    ∷ token_at TokenType.left_paren 1 1 2
    ∷ token_at TokenType.integer_literal 2 1 3
    ∷ token_at TokenType.end_of_file 3 0 4
    ∷ []

parse-tokenize_example : Parsed open_source open_tokens ⊎ Refused open_source open_tokens
unfolding tokenize advance_while resolve_identifier_type advance bytes_eq
parse-tokenize_example = parse-tokenize open_source open_tokens refl

parse-FailsAt_example :
    (t : Token) × (message : String) × Occurs t open_tokens
    × (failed 1 4 "Expected ')' after call arguments." ≡ failed t.line t.column message)
unfolding parse consume
parse-FailsAt_example =
    parse-FailsAt open_source open_tokens (failed 1 4 "Expected ')' after call arguments.") refl
      refl

-- The literal "a\"#b" with its escapes, and one with an interpolation.
abbrev literal_token : Token
literal_token = record {
  type = TokenType.string_literal;
  offset = 0;
  length = 8;
  line = 1;
  column = 1;
}

parse_string_segments-escape_text_example :
    parse_string_segments (codes "\"a\\\"\\#b\"") literal_token
    ≡ ok (literal_segment literal_token 0 (codes "a\"#b") ∷ [])
unfolding get_lexeme escape_text
parse_string_segments-escape_text_example =
    parse_string_segments-escape_text literal_token (codes "\"a\\\"\\#b\"") b'a' (codes "\"#b") refl

parse_string_segments-IsNormal_example : IsNormal (
    literal_segment literal_token 0 (codes "a")
    ∷ identifier_segment literal_token 2 (codes "bc")
    ∷ literal_segment literal_token 4 (codes " z")
    ∷ [])
unfolding parse_string_segments
parse_string_segments-IsNormal_example =
    parse_string_segments-IsNormal literal_token (codes "\"a#bc z\"") _ refl
