-- ===== src/Parser/Statements.antt =====
-- src/compiler/parser/Parser.cpp: statements and blocks.
use crossa.Prelude.{ℕ, zero, suc, ◌||◌, Bytes, if◌then◌else◌, ok, err, ◌>>=◌}
use crossa.Lexer.Token.{TokenType}
use crossa.Syntax.{Location, Expression, TypeReference, Statement, Statements, get_location}
use crossa.Parser.Cursor.{
  out_of_fuel, Tokens, Read, get_lexeme, location_of, peek, check, is_at_end, advance, consume,
}
use crossa.Parser.Types.{enter, parse_type_reference}
use crossa.Parser.Primary.{parse_expression}

-- The name, the type and the initializer of a variable, which a declaration and a statement share:
-- they differ in the message on a missing name.
pub record Variable : Type 0 where
  pub name : Bytes
  pub type : TypeReference
  pub initializer : Expression
  pub location : Location

-- Behind the name token of `parseVariableDeclaration` and `parseVariableStatement`
unfoldable pub parse_variable : ℕ → Bytes → ℕ → Bytes → Location → Tokens → Read Variable
parse_variable f source depth name location ts = do
  (_, r) ← consume TokenType.colon "Expected ':' after the variable name." ts
  (type, r') ← parse_type_reference f source depth r
  (_, r'') ← consume TokenType.equal "Expected '=' before the variable initializer." r'
  (initializer, r3) ← parse_expression f source depth r''
  ok (record { name = name; type = type; initializer = initializer; location = location }, r3)

-- `parseVariableStatement`
unfoldable pub parse_variable_statement : ℕ → Bytes → ℕ → Tokens → Read Statement
unfolding parse_variable
parse_variable_statement f source depth ts = do
  (name, r) ← consume TokenType.identifier "Expected a local variable name after 'var'." ts
  (v, r') ← parse_variable f source depth (get_lexeme source name) (location_of name) r
  ok (Statement.variable v.name v.type v.initializer v.location, r')

-- case KeywordRe
unfoldable pub parse_return : ℕ → Bytes → ℕ → Location → Tokens → Read Statement
parse_return f source depth location ts = do
  (e, r) ← parse_expression f source depth ts
  ok (Statement.return e location, r)

-- The last case of `parseStatement`
unfoldable pub parse_expression_statement : ℕ → Bytes → ℕ → Tokens → Read Statement
unfolding get_location
parse_expression_statement f source depth ts = do
  (e, r) ← parse_expression f source depth ts
  ok (Statement.expression e (get_location e), r)

abbrev pub ParseBlock : Type 0
ParseBlock = Tokens → Read Statements

abbrev pub ParseIf : Type 0
ParseIf = Location → Tokens → Read Statement

-- The branch behind `else`: another `if`, as the only statement, or a block.
unfoldable pub parse_else : ParseIf → ParseBlock → Tokens → Read Statements
parse_else nested block ts =
    if check TokenType.keyword_if ts
    then (do
      (s, r) ← nested (location_of (peek ts)) (advance ts)
      ok (Statements.cons s Statements.nil, r))
    else (do (_, r) ← consume TokenType.left_brace "Expected '{' after 'else'." ts; block r)

-- `parseIfStatement` behind the check of the depth; `depth` is the depth inside.
unfoldable pub if_body : ℕ → Bytes → ℕ → ParseIf → ParseBlock → ParseIf
unfolding parse_else
if_body f source depth nested block location ts = do
  (_, r1) ← consume TokenType.left_paren "Expected '(' after 'if'." ts
  (condition, r2) ← parse_expression f source depth r1
  (_, r3) ← consume TokenType.right_paren "Expected ')' after the if condition." r2
  (_, r4) ← consume TokenType.left_brace "Expected '{' after the if condition." r3
  (yes_statements, r5) ← block r4
  if check TokenType.keyword_else r5
      then (do
        (no_statements, r6) ← parse_else nested block (advance r5)
        ok (Statement.if_else condition yes_statements no_statements location, r6))
      else ok (Statement.if_then condition yes_statements location, r5)

-- `parseStatement`; `nested` is `parseIfStatement`
unfoldable pub parse_statement : ℕ → Bytes → ℕ → ParseIf → Tokens → Read Statement
unfolding parse_return parse_variable_statement parse_expression_statement
parse_statement f source depth nested ts =
    if check TokenType.keyword_re ts
    then parse_return f source depth (location_of (peek ts)) (advance ts)
    else if check TokenType.keyword_var ts
    then parse_variable_statement f source depth (advance ts)
    else if check TokenType.keyword_if ts
    then nested (location_of (peek ts)) (advance ts)
    else parse_expression_statement f source depth ts

-- `parseBlockStatements`
unfoldable pub block_loop : ℕ → (Tokens → Read Statement) → ParseBlock
block_loop zero statement ts = err out_of_fuel
block_loop (suc f) statement ts =
    let more = (do
      (s, r) ← statement ts
      (rest, r') ← block_loop f statement r
      ok (Statements.cons s rest, r')) in
    if check TokenType.right_brace ts || is_at_end ts
    then (do
      (_, r) ← consume TokenType.right_brace "Expected '}' after the block." ts
      ok (Statements.nil, r))
    else more

-- `parseIfStatement`
unfoldable pub parse_if_statement : ℕ → Bytes → ℕ → ParseIf
unfolding enter if_body block_loop parse_statement
parse_if_statement zero source depth location ts = err out_of_fuel
parse_if_statement (suc f) source depth location ts =
    let nested = parse_if_statement f source (suc depth) in
    enter depth ts (
      if_body (suc f) source (suc depth) nested
        (block_loop (suc f) (parse_statement (suc f) source (suc depth) nested)) location ts)

-- `parseBlockStatements` of a function, at depth 0
unfoldable pub parse_block_statements : ℕ → Bytes → ParseBlock
unfolding parse_if_statement
parse_block_statements f source =
    block_loop f (parse_statement f source 0 (parse_if_statement f source 0))
