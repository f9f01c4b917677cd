-- ===== src/Parser/Complete/Cursors.antt =====
-- Steps of the cursor at a token of a known type.
use Prim.Native.String.{String}
use crossa.Prelude.{suc, true, false, ◌∷◌, length, ok, ◌≡◌, ◌≢◌, refl, inl, inr, Bool-cases}
use crossa.Lexer.Token.{TokenType, Token}
use crossa.Parser.Cursor.{Tokens, peek, check, advance, consume}
use crossa.Parser.Grammar.{Starts}
use crossa.Parser.Sound.Cursors.{check-eq-true, check_of_type}

pub check_of_ne : (type : TokenType) (ts : Tokens) → (peek ts).type ≢ type → check type ts ≡ false
check_of_ne type ts ne = elim (Bool-cases (check type ts)) [
  | inl found ↦ absurd (ne (check-eq-true type ts found))
  | inr other ↦ other
]

advance_of_ne : (t : Token) (r : Tokens) → t.type ≢ TokenType.end_of_file → advance (t ∷ r) ≡ r
unfolding advance peek
advance_of_ne t r ne = rw (check_of_ne TokenType.end_of_file (t ∷ r) ne) refl

module _ {type : TokenType} {ts r : Tokens} {t : Token} (starts : Starts type ts t r) where
  pub peek-Starts : peek ts ≡ t
  unfolding peek
  peek-Starts = rw (starts.0) refl

  pub type-Starts : (peek ts).type ≡ type
  type-Starts = rw peek-Starts starts.1

  pub length-Starts : length ts ≡ suc (length r)
  length-Starts = rw (starts.0) refl

  pub check_Starts : check type ts ≡ true
  check_Starts = check_of_type type ts type-Starts

  pub check_other : (X : TokenType) → type ≢ X → check X ts ≡ false
  check_other X ne = check_of_ne X ts (λ e. ne (let e' = type-Starts in cc))

  pub advance_Starts : type ≢ TokenType.end_of_file → advance ts ≡ r
  advance_Starts ne = rw (starts.0) (advance_of_ne t r (λ e. ne (let e' = starts.1 in cc)))

  pub consume_Starts :
      (message : String) → type ≢ TokenType.end_of_file → consume type message ts ≡ ok (t, r)
  unfolding consume
  consume_Starts message ne = rw (check_Starts, peek-Starts, advance_Starts ne) refl
