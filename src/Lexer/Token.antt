-- ===== src/Lexer/Token.antt =====
-- include/crossa/compiler/lexer/TokenType.h, Token.h and the keyword table of Lexer.cpp.
use crossa.Prelude.{ℕ, Bytes, bytes_eq, codes, if◌then◌else◌}

pub data TokenType : Type 0 where
  identifier integer_literal decimal_literal string_literal boolean_literal : TokenType
  import_path : TokenType
  keyword_import keyword_fun keyword_re keyword_if keyword_else keyword_var : TokenType
  keyword_model keyword_config keyword_print keyword_assert keyword_int keyword_long : TokenType
  keyword_double keyword_string keyword_bool keyword_list keyword_json keyword_null : TokenType
  keyword_crossa_request : TokenType
  annotation_sync annotation_async annotation_async_after : TokenType
  method_get method_post method_put method_patch method_delete method_head : TokenType
  method_options method_trace method_connect : TokenType
  left_paren right_paren left_brace right_brace left_bracket right_bracket : TokenType
  left_angle right_angle colon comma equal equal_equal bang_equal bang : TokenType
  less_equal greater_equal and_and or_or plus minus star slash : TokenType
  end_of_file : TokenType

pub record Token : Type 0 where
  pub type : TokenType
  pub offset : ℕ
  pub length : ℕ
  pub line : ℕ
  pub column : ℕ

-- A chain of `if (lexeme == …) return …` with a value behind it.
pub data Keywords : Type 0 where
  otherwise : TokenType → Keywords
  keyword : Bytes → TokenType → Keywords → Keywords

unfoldable pub choose : Keywords → Bytes → TokenType
choose (otherwise t) lexeme = t
choose (keyword k t ks) lexeme =
    let rest = choose ks lexeme in if bytes_eq lexeme k then t else rest

-- The chain of `resolveIdentifierType`.
unfoldable pub keywords : Keywords
keywords = keyword (codes "import") keyword_import (
    keyword (codes "fun") keyword_fun (
      keyword (codes "re") keyword_re (
        keyword (codes "if") keyword_if (
          keyword (codes "else") keyword_else (
            keyword (codes "var") keyword_var (
              keyword (codes "model") keyword_model (
                keyword (codes "config") keyword_config (
                  keyword (codes "print") keyword_print (
                    keyword (codes "assert") keyword_assert (
                      keyword (codes "Int") keyword_int (
                        keyword (codes "Long") keyword_long (
                          keyword (codes "Double") keyword_double (
                            keyword (codes "String") keyword_string (
                              keyword (codes "Bool") keyword_bool (
                                keyword (codes "List") keyword_list (
                                  keyword (codes "Json") keyword_json (
                                    keyword (codes "null") keyword_null (
                                      keyword (codes "CrossaRequest") keyword_crossa_request (
                                        keyword (codes "GET") method_get (
                                          keyword (codes "POST") method_post (
                                            keyword (codes "PUT") method_put (
                                              keyword (codes "PATCH") method_patch (
                                                keyword (codes "DELETE") method_delete (
                                                  keyword (codes "HEAD") method_head (
                                                    keyword (codes "OPTIONS") method_options (
                                                      keyword (codes "TRACE") method_trace (
                                                        keyword (codes "CONNECT") method_connect (
                                                          keyword (codes "true") boolean_literal (
                                                            keyword (codes "false") boolean_literal
                                                            (otherwise
                                                            identifier))))))))))))))))))))))))))))))

-- `resolveIdentifierType`
unfoldable pub resolve_identifier_type : Bytes → TokenType
unfolding choose keywords
resolve_identifier_type = choose keywords
