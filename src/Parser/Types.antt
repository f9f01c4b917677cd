-- ===== src/Parser/Types.antt =====
-- src/compiler/parser/Parser.cpp: type references, and the limit on the nesting.
use crossa.Prelude.{ℕ, zero, suc, Bool, ◌||◌, Bytes, ltb, if◌then◌else◌, ok, err, ◌>>=◌}
use crossa.Lexer.Token.{TokenType}
use crossa.Syntax.{TypeReference, named, list_of}
use crossa.Parser.Cursor.{
  out_of_fuel, fail, Tokens, Read, get_lexeme, location_of, peek, check, advance, consume,
}

-- CompilerResourceLimits::MaximumParseRecursionDepth
abbrev pub maximum_parse_recursion_depth : ℕ
maximum_parse_recursion_depth = 512

-- The check at the entry of a routine, where `depth` is `recursiveParseDepth_` before it.
unfoldable pub enter : {A : Type 0} → ℕ → Tokens → Read A → Read A
enter depth ts body =
    if ltb maximum_parse_recursion_depth (suc depth)
    then fail (peek ts) "CRA1001 parser recursion depth exceeded; limit=512."
    else body

-- match(KeywordInt) || … || match(Identifier), which moves the cursor at the first of them only
unfoldable pub at_type_name : Tokens → Bool
at_type_name ts =
    check TokenType.keyword_int ts
    || check TokenType.keyword_long ts
    || check TokenType.keyword_double ts
    || check TokenType.keyword_string ts
    || check TokenType.keyword_bool ts
    || check TokenType.keyword_json ts
    || check TokenType.identifier ts

-- `parseTypeReference`
unfoldable pub parse_type_reference : ℕ → Bytes → ℕ → Tokens → Read TypeReference
unfolding enter at_type_name
parse_type_reference zero source depth ts = err out_of_fuel
parse_type_reference (suc f) source depth ts =
    let element = (do
      (_, r) ← consume TokenType.left_angle "Expected '<' after 'List'." (advance ts)
      (type, r') ← parse_type_reference f source (suc depth) r
      (_, r'') ← consume TokenType.right_angle "Expected '>' after the List type." r'
      ok (list_of type (location_of (peek ts)), r'')) in
    enter depth ts (
      if check TokenType.keyword_list ts
      then element
      else if at_type_name ts
      then ok (named (get_lexeme source (peek ts)) (location_of (peek ts)), advance ts)
      else fail (peek ts) "Expected a Crossa type reference.")
