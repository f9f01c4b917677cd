-- ===== src/Parser/Grammar.antt =====
-- The grammar of the Crossa language, apart from the parser: which tokens stand for which tree.
-- Its children have the rules of expressions, statements and source files. A derivation says that
-- the tokens from `ts` up to `r` stand for a tree. `depth` counts the expressions, types and
-- conditionals around it, of which 512 may be open at a time.
use crossa.Prelude.{ℕ, suc, ◌<◌, Bool, true, false, List, ◌∷◌, some, Bytes, ok, ◌≡◌, ◌≢◌}
use crossa.Lexer.Token.{TokenType, Token}
use crossa.Syntax.{BinaryOperator, StringSegment, TypeReference, named, list_of}
use crossa.Parser.Cursor.{Tokens, peek, location_of, get_lexeme}
use crossa.Parser.Strings.{parse_string_segments}
use crossa.Parser.Types.{maximum_parse_recursion_depth}
use crossa.Parser.Expressions.{literal_text}
pub mod Expressions
pub mod Statements
pub mod Units

-- The tokens `ts` are a token `t` of the type and the tokens `r`.
abbrev pub Starts : TokenType → Tokens → Token → Tokens → Type 0
Starts type ts t r = (ts ≡ t ∷ r) × (t.type ≡ type)

-- Binary operators: how they are written, and how tight they bind.
unfoldable pub symbol : BinaryOperator → TokenType
symbol BinaryOperator.logical_or = TokenType.or_or
symbol BinaryOperator.logical_and = TokenType.and_and
symbol BinaryOperator.equal = TokenType.equal_equal
symbol BinaryOperator.not_equal = TokenType.bang_equal
symbol BinaryOperator.less = TokenType.left_angle
symbol BinaryOperator.greater = TokenType.right_angle
symbol BinaryOperator.less_equal = TokenType.less_equal
symbol BinaryOperator.greater_equal = TokenType.greater_equal
symbol BinaryOperator.add = TokenType.plus
symbol BinaryOperator.subtract = TokenType.minus
symbol BinaryOperator.multiply = TokenType.star
symbol BinaryOperator.divide = TokenType.slash

unfoldable pub precedence : BinaryOperator → ℕ
precedence BinaryOperator.logical_or = 0
precedence BinaryOperator.logical_and = 1
precedence BinaryOperator.equal = 2
precedence BinaryOperator.not_equal = 2
precedence BinaryOperator.less = 3
precedence BinaryOperator.greater = 3
precedence BinaryOperator.less_equal = 3
precedence BinaryOperator.greater_equal = 3
precedence BinaryOperator.add = 4
precedence BinaryOperator.subtract = 4
precedence BinaryOperator.multiply = 5
precedence BinaryOperator.divide = 5

-- No operator of the level follows.
abbrev pub Stops : ℕ → Tokens → Type 0
Stops level r = (o : BinaryOperator) → precedence o ≡ level → (peek r).type ≢ symbol o

-- The tokens of a type's name.
unfoldable pub is_type_name : TokenType → Bool
is_type_name TokenType.keyword_int = true
is_type_name TokenType.keyword_long = true
is_type_name TokenType.keyword_double = true
is_type_name TokenType.keyword_string = true
is_type_name TokenType.keyword_bool = true
is_type_name TokenType.keyword_json = true
is_type_name TokenType.identifier = true
is_type_name _ = false

-- Keys of entries: names only, or also texts without interpolation.
pub data Keys : Type 0 where
  names texts : Keys

module _ (source : Bytes) where
  pub data DerivesType : ℕ → Tokens → TypeReference → Tokens → Type 0 where
    name :
        {depth : ℕ} {ts r : Tokens} {t : Token}
        → depth < maximum_parse_recursion_depth
        → ts ≡ t ∷ r
        → is_type_name t.type ≡ true
        → DerivesType depth ts (named (get_lexeme source t) (location_of t)) r
    list :
        {depth : ℕ} {ts u v w r : Tokens} {t a b : Token} {type : TypeReference}
        → depth < maximum_parse_recursion_depth
        → Starts TokenType.keyword_list ts t u
        → Starts TokenType.left_angle u a v
        → DerivesType (suc depth) v type w
        → Starts TokenType.right_angle w b r
        → DerivesType depth ts (list_of type (location_of t)) r

  pub data DerivesKey : Keys → Tokens → Bytes → Tokens → Type 0 where
    name :
        {keys : Keys} {ts r : Tokens} {t : Token}
        → Starts TokenType.identifier ts t r
        → DerivesKey keys ts (get_lexeme source t) r
    text :
        {ts r : Tokens} {t : Token} {segments : List StringSegment} {key : Bytes}
        → Starts TokenType.string_literal ts t r
        → parse_string_segments source t ≡ ok segments
        → literal_text segments ≡ some key
        → DerivesKey Keys.texts ts key r
