-- ===== src/Parser/Declarations.antt =====
-- src/compiler/parser/Parser.cpp: declarations and whole source files.
use Prim.Native.String.{String}
use crossa.Prelude.{
  ℕ, zero, suc, ◌-◌, Bool, true, false, not, ◌&&◌, ◌||◌, List, [], ◌∷◌, Option, none, some, Bytes,
  codes, bytes_eq, length, take, drop, ◌==◌, leb, ltb, within, if◌then◌else◌, Result, ok, err,
  ◌>>=◌,
}
use crossa.Lexer.Token.{TokenType, Token}
use crossa.Syntax.{Location, Field, TypeReference, ExecutionPolicy, Declaration, get_location}
use crossa.Parser.Cursor.{
  ParseError, failed, out_of_fuel, fail, Tokens, Read, get_lexeme, location_of, peek, check,
  is_at_end, advance, consume,
}
use crossa.Parser.Types.{parse_type_reference}
use crossa.Parser.Expressions.{
  binary_level, parse_logical_and_expression, parse_equality_expression,
  parse_comparison_expression, parse_additive_expression, parse_multiplicative_expression,
  or_operator, and_operator, equality_operator, comparison_operator, additive_operator,
  multiplicative_operator,
}
use crossa.Parser.Primary.{parse_name, parse_entries, parse_expression}
use crossa.Parser.Statements.{parse_variable, parse_block_statements}

-- filename.find(value) != npos
unfoldable pub has_byte : ℕ → Bytes → Bool
has_byte value [] = false
has_byte value (c ∷ cs) = c == value || has_byte value cs

-- `supported`
unfoldable pub is_supported : ℕ → Bool
is_supported c =
    within b'a' b'z' c
    || within b'A' b'Z' c
    || within b'0' b'9' c
    || c == b'_'
    || c == b'-'
    || c == b'.'

-- for (value : filename) if (!supported) fail(…)
unfoldable pub all_supported : Bytes → Bool
unfolding is_supported
all_supported [] = true
all_supported (c ∷ cs) = is_supported c && all_supported cs

-- filename == "." || filename == ".." || filename.size() <= 4 || its last four are not ".cra"
unfoldable pub lacks_extension : Bytes → Bool
lacks_extension filename =
    bytes_eq filename (codes ".")
    || bytes_eq filename (codes "..")
    || leb (length filename) 4
    || not (bytes_eq (drop (length filename - 4) filename) (codes ".cra"))

-- The filename of an import from the text of its path token.
unfoldable pub import_filename : Token → Bytes → Result ParseError Bytes
unfolding has_byte all_supported lacks_extension fail
import_filename path lexeme =
    if ltb (length lexeme) 3
    then fail path "Import filename cannot be empty."
    else (let filename = take (length lexeme - 2) (drop 1 lexeme) in
        if has_byte b'/' filename || has_byte b'\\' filename
        then fail path "Import accepts a filename only; paths are not supported."
        else if not (all_supported filename)
        then fail path "Import filename contains an unsupported character."
        else if lacks_extension filename
        then fail path "Import filename must end with '.cra'."
        else ok filename)

-- `parseImportDeclaration`, behind its keyword at `location`
unfoldable pub parse_import_declaration : Bytes → Location → Tokens → Read Declaration
unfolding import_filename
parse_import_declaration source location ts = do
  (path, r) ←
      consume TokenType.import_path "Expected a hash-delimited .cra filename after 'import'." ts
  filename ← import_filename path (get_lexeme source path)
  ok (Declaration.import filename location, r)

-- do { name ':' type } while (match(Comma)), from the first name on
unfoldable pub fields_loop : ℕ → Bytes → String → String → Tokens → Read (List Field)
fields_loop zero source missing colon ts = err out_of_fuel
fields_loop (suc f) source missing colon ts = do
  (name, r) ← consume TokenType.identifier missing ts
  (_, r') ← consume TokenType.colon colon r
  (type, r'') ← parse_type_reference (suc f) source 0 r'
  let field : Field = record {
    name = get_lexeme source name;
    type = type;
    location = location_of name;
  }
  let more = (do
    (fields, r3) ← fields_loop f source missing colon (advance r'')
    ok (field ∷ fields, r3))
  if check TokenType.comma r'' then more else ok (field ∷ [], r'')

-- The fields in parentheses, if there are any, behind the left parenthesis.
unfoldable pub parse_fields : ℕ → Bytes → String → String → String → Tokens → Read (List Field)
unfolding fields_loop
parse_fields f source missing colon close ts = do
  (fields, r) ←
      (if check TokenType.right_paren ts
        then ok ([], ts)
        else fields_loop f source missing colon ts)
  (_, r') ← consume TokenType.right_paren close r
  ok (fields, r')

-- if (match(Colon)) returnType = parseTypeReference()
unfoldable pub parse_return_type : ℕ → Bytes → Tokens → Read (Option TypeReference)
parse_return_type f source ts =
    if check TokenType.colon ts
    then (do (type, r) ← parse_type_reference f source 0 (advance ts); ok (some type, r))
    else ok (none, ts)

-- `parseFunctionDeclaration`, behind `fun`
unfoldable pub parse_function_declaration : ℕ → Bytes → ExecutionPolicy → Tokens → Read Declaration
unfolding parse_fields parse_return_type
parse_function_declaration f source policy ts = do
  (name, r1) ← consume TokenType.identifier "Expected a function name after 'fun'." ts
  (_, r2) ← consume TokenType.left_paren "Expected '(' after the function name." r1
  (parameters, r3) ←
      parse_fields f source "Expected a parameter name." "Expected ':' after the parameter name."
        "Expected ')' after the function parameters." r2
  (return_type, r4) ← parse_return_type f source r3
  (_, r5) ← consume TokenType.left_brace "Expected '{' before the function body." r4
  (statements, r6) ← parse_block_statements f source r5
  ok (
    Declaration.function (get_lexeme source name) policy parameters return_type statements
        (location_of name),
    r6,
  )

-- `parseAnnotatedFunction`
unfoldable pub parse_annotated_function : ℕ → Bytes → ExecutionPolicy → Tokens → Read Declaration
unfolding parse_function_declaration
parse_annotated_function f source policy ts =
    if check TokenType.annotation_sync ts
      || check TokenType.annotation_async ts
      || check TokenType.annotation_async_after ts
    then fail (peek ts) "A function accepts only one execution annotation."
    else (do
      (_, r) ← consume TokenType.keyword_fun "Expected 'fun' after the execution annotation." ts
      parse_function_declaration f source policy r)

-- `parseVariableDeclaration`
unfoldable pub parse_variable_declaration : ℕ → Bytes → Tokens → Read Declaration
unfolding parse_variable
parse_variable_declaration f source ts = do
  (name, r) ← consume TokenType.identifier "Expected a variable name after 'var'." ts
  (v, r') ← parse_variable f source 0 (get_lexeme source name) (location_of name) r
  ok (Declaration.variable v.name v.type v.initializer v.location, r')

-- `parseModelDeclaration`
unfoldable pub parse_model_declaration : ℕ → Bytes → Tokens → Read Declaration
unfolding parse_fields
parse_model_declaration f source ts = do
  (name, r1) ← consume TokenType.identifier "Expected a model name after 'model'." ts
  (_, r2) ← consume TokenType.left_paren "Expected '(' after the model name." r1
  (fields, r3) ←
      parse_fields f source "Expected a model field name."
        "Expected ':' after the model field name." "Expected ')' after model fields." r2
  ok (Declaration.model (get_lexeme source name) fields (location_of name), r3)

-- `parseConfigDeclaration`, behind its keyword at `location`
unfoldable pub parse_config_declaration : ℕ → Bytes → Location → Tokens → Read Declaration
unfolding parse_entries parse_name
parse_config_declaration f source location ts = do
  (_, r) ← consume TokenType.left_brace "Expected '{' after 'config'." ts
  (entries, r') ←
      parse_entries f (parse_name source "Expected a configuration key.")
        "Expected ':' after the configuration key." "Expected '}' after config entries."
        (parse_expression f source 0) r
  ok (Declaration.config entries location, r')

-- The last case of `parseDeclaration`
unfoldable pub parse_expression_declaration : ℕ → Bytes → Tokens → Read Declaration
unfolding get_location
parse_expression_declaration f source ts = do
  (e, r) ← parse_expression f source 0 ts
  ok (Declaration.expression e (get_location e), r)

-- `parseDeclaration`
unfoldable pub parse_declaration : ℕ → Bytes → Tokens → Read Declaration
unfolding parse_annotated_function parse_variable_declaration parse_model_declaration
    parse_config_declaration parse_expression_declaration
parse_declaration f source ts =
    if check TokenType.annotation_sync ts
    then parse_annotated_function f source ExecutionPolicy.sync (advance ts)
    else if check TokenType.annotation_async ts
    then parse_annotated_function f source ExecutionPolicy.async (advance ts)
    else if check TokenType.annotation_async_after ts
    then parse_annotated_function f source ExecutionPolicy.async_after (advance ts)
    else if check TokenType.keyword_fun ts
    then parse_function_declaration f source ExecutionPolicy.none (advance ts)
    else if check TokenType.keyword_var ts
    then parse_variable_declaration f source (advance ts)
    else if check TokenType.keyword_model ts
    then parse_model_declaration f source (advance ts)
    else if check TokenType.keyword_config ts
    then parse_config_declaration f source (location_of (peek ts)) (advance ts)
    else parse_expression_declaration f source ts

-- The import at the cursor, unless a declaration came before it.
unfoldable pub parse_import : Bytes → Bool → Tokens → Read Declaration
unfolding parse_import_declaration
parse_import source declarations_started ts =
    if declarations_started
    then fail (peek ts) "Imports must appear before all declarations."
    else parse_import_declaration source (location_of (peek ts)) (advance ts)

-- The loop of `parse`; each round takes a token.
unfoldable pub declarations_loop : ℕ → Bytes → Bool → Tokens → Result ParseError (List Declaration)
unfolding parse_import parse_declaration
declarations_loop zero source declarations_started ts = err out_of_fuel
declarations_loop (suc f) source declarations_started ts =
    let imported = (do
      (d, r) ← parse_import source declarations_started ts
      rest ← declarations_loop f source declarations_started r
      ok (d ∷ rest)) in
    let declared = (do
      (d, r) ← parse_declaration (suc f) source ts
      rest ← declarations_loop f source true r
      ok (d ∷ rest)) in
    if is_at_end ts then ok [] else if check TokenType.keyword_import ts then imported else declared

-- tokens_.back()
unfoldable pub back : Token → Tokens → Token
back t [] = t
back t (u ∷ ts) = back u ts

-- `parse`, from the source text and its tokens
unfoldable pub parse : Bytes → Tokens → Result ParseError (List Declaration)
unfolding declarations_loop back parse_expression check advance get_lexeme binary_level
    parse_logical_and_expression parse_equality_expression parse_comparison_expression
    parse_additive_expression parse_multiplicative_expression or_operator and_operator
    equality_operator comparison_operator additive_operator multiplicative_operator
parse source [] = err (failed 1 1 "Parser received an empty token stream.")
parse source (t ∷ ts) =
    if check TokenType.end_of_file (back t ts ∷ [])
    then declarations_loop (suc (length (t ∷ ts))) source false (t ∷ ts)
    else err (failed 1 1 "Parser token stream is missing EndOfFile.")
