-- ===== src/Parser/Cursor.antt =====
-- src/compiler/parser/Parser.cpp: the cursor on the tokens.
-- The cursor is the list of the tokens from `current_` on. `recursiveParseDepth_` is raised at the
-- entry of a routine and lowered before it returns, so its value is an argument of each routine.
use Prim.Native.String.{String}
use crossa.Prelude.{
  ℕ, ◌-◌, Bool, true, false, ◌||◌, List, [], ◌∷◌, Bytes, length, take, drop, ltb, if◌then◌else◌,
  Result, ok, err,
}
use crossa.Lexer.Token.{TokenType, Token}
use crossa.Syntax.{Location}

pub data ParseError : Type 0 where
  -- fail(token, message): the line and the column of the token, and the message
  failed : ℕ → ℕ → String → ParseError
  -- not an error of the program: the recursion of the model ran out of fuel
  out_of_fuel : ParseError

abbrev pub Tokens : Type 0
Tokens = List Token

abbrev pub Read : Type 0 → Type 0
Read A = Result ParseError (A × Tokens)

unfoldable pub fail : {A : Type 0} → Token → String → Result ParseError A
fail token message = err (failed token.line token.column message)

pub TokenType-discrete : Discrete TokenType
TokenType-discrete = hlevel

-- `Token::getLexeme`
unfoldable pub get_lexeme : Bytes → Token → Bytes
get_lexeme source token =
    if ltb (length source) token.offset || ltb (length source - token.offset) token.length
    then []
    else take token.length (drop token.offset source)

-- `getLocation`
abbrev pub location_of : Token → Location
location_of token = record { line = token.line; column = token.column }

-- `peek`; `parse` makes sure that the tokens end in EndOfFile, and no routine passes it
unfoldable pub peek : Tokens → Token
peek [] = record { type = TokenType.end_of_file; offset = 0; length = 0; line = 1; column = 1 }
peek (t ∷ ts) = t

-- `check`
unfoldable pub check : TokenType → Tokens → Bool
unfolding peek TokenType-discrete
check type ts = elim (TokenType-discrete (peek ts).type type) [ yes _ ↦ true | no _ ↦ false ]

-- `isAtEnd`
abbrev pub is_at_end : Tokens → Bool
is_at_end ts = check TokenType.end_of_file ts

-- `advance`: the cursor behind it. `previous()` is then the `peek` from before.
unfoldable pub advance : Tokens → Tokens
unfolding check
advance [] = []
advance (t ∷ ts) = if is_at_end (t ∷ ts) then t ∷ ts else ts

-- `consume`, which returns the token
unfoldable pub consume : TokenType → String → Tokens → Read Token
unfolding check fail advance
consume type message ts = if check type ts then ok (peek ts, advance ts) else fail (peek ts) message
