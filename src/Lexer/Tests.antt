-- ===== src/Lexer/Tests.antt =====
-- The lexer at concrete texts.
use crossa.Prelude.{ℕ, List, [], ◌∷◌, ◌++◌, Bytes, codes, length, All, ok, ◌≡◌, ◌≢◌, refl, bytes_eq}
use crossa.Lexer.Token.{
  TokenType, Token, keyword_fun, identifier, left_paren, right_paren, integer_literal,
  string_literal, end_of_file, resolve_identifier_type,
}
use crossa.Lexer.Scan.{Reason, failed, unterminated_string, advance_while, advance}
use crossa.Lexer.Tokenize.{tokenize}
use crossa.Lexer.Position.{
  Located, Ordered, Place, tokenize-Located, tokenize-Ordered, tokenize-FailsAt,
}

abbrev at : TokenType → ℕ → ℕ → ℕ → ℕ → Token
at t o n l c = record { type = t; offset = o; length = n; line = l; column = c }

tokenize_test :
    tokenize (codes "fun f( // x\n  12 \"a\\\"\")")
    ≡ ok (
        at keyword_fun 0 3 1 1
        ∷ at identifier 4 1 1 5
        ∷ at left_paren 5 1 1 6
        ∷ at integer_literal 14 2 2 3
        ∷ at string_literal 17 5 2 6
        ∷ at right_paren 22 1 2 11
        ∷ at end_of_file 23 0 2 12
        ∷ [])
unfolding tokenize advance_while resolve_identifier_type advance bytes_eq
tokenize_test = refl

abbrev source : Bytes
source = codes "f\n 1"

abbrev source_tokens : List Token
source_tokens = at identifier 0 1 1 1 ∷ at integer_literal 3 1 2 2 ∷ at end_of_file 4 0 2 3 ∷ []

tokenize-Located_example : All (Located source) source_tokens
unfolding tokenize advance_while resolve_identifier_type advance bytes_eq
tokenize-Located_example = tokenize-Located source source_tokens refl

tokenize-Ordered_example : Ordered 0 (length source) source_tokens
unfolding tokenize advance_while resolve_identifier_type advance bytes_eq
tokenize-Ordered_example = tokenize-Ordered source source_tokens refl

tokenize-FailsAt_example :
    (before after : Bytes) × (line column : ℕ) × (why : Reason) × (codes "f\n \"a"
      ≡ before ++ after)
    × (after ≢ [])
    × (failed 2 2 unterminated_string ≡ failed line column why)
    × Place before line column
unfolding tokenize advance_while resolve_identifier_type advance bytes_eq
tokenize-FailsAt_example = tokenize-FailsAt (codes "f\n \"a") (failed 2 2 unterminated_string) refl
