-- ===== src/Parser/Unit.antt =====
-- Whole source files: what `parse` returns, and where it fails.
use Prim.Native.String.{String}
use crossa.Prelude.{
  suc, false, List, [], ◌∷◌, Bytes, length, All, ok, err, ◌≡◌, ◌⊎◌, inl, inr, refl, subst, arith,
  Post, Post-ok, Post-err, Bool-cases,
}
use crossa.Lexer.Token.{TokenType, Token}
use crossa.Syntax.{Declaration}
use crossa.Parser.Cursor.{ParseError, failed, out_of_fuel, Tokens, peek, check}
use crossa.Parser.Declarations.{back, parse}
use crossa.Parser.Grammar.Units.{DerivesUnit}
use crossa.Parser.Sound.Cursors.{Ends, Fails, check-eq-true, check_of_type}
use crossa.Parser.Sound.Units.{declarations_loop-Post}

-- A token of the stream.
abbrev pub Occurs : Token → Tokens → Type 0
Occurs t [] = ⊥
Occurs t (u ∷ ts) = (t ≡ u) ⊎ Occurs t ts

All-tail : {P : Token → Type 0} (ts : Tokens) → ((t : Token) → Occurs t ts → P t) → All P ts
All-tail [] h = tt
All-tail (t ∷ ts) h = (h t (inl refl), All-tail ts (λ u m. h u (inr m)))

back-Ends : (t : Token) (ts : Tokens) → (back t ts).type ≡ TokenType.end_of_file → Ends (t ∷ ts)
unfolding back
back-Ends t [] h = h
back-Ends t (u ∷ ts) h = back-Ends u ts h

pub Ends-back : (t : Token) (ts : Tokens) → Ends (t ∷ ts) → (back t ts).type ≡ TokenType.end_of_file
unfolding back
Ends-back t [] h = h
Ends-back t (u ∷ ts) h = Ends-back u ts h

module _ (P : Token → Type 0) (source : Bytes) where
  -- On tokens that end in EndOfFile, `parse` is its loop.
  pub parse-Post :
      (ts : Tokens)
      → All P ts
      → Ends ts
      → Post (Fails P) (λ ds. DerivesUnit source false ts ds) (parse source ts)
  unfolding parse peek
  parse-Post [] all ends = elim ends [ ]
  parse-Post (t ∷ ts) all ends =
      rw (check_of_type TokenType.end_of_file (back t ts ∷ []) (Ends-back t ts ends)) (
        declarations_loop-Post P source (suc (length (t ∷ ts))) false (t ∷ ts) (all, ends)
          (omega arith))

module _ (source : Bytes) where
  parse-Ends : (ts : Tokens) (ds : List Declaration) → parse source ts ≡ ok ds → Ends ts
  unfolding parse peek
  parse-Ends [] ds h = absurd (cc)
  parse-Ends (t ∷ ts) ds h = elim (Bool-cases (check TokenType.end_of_file (back t ts ∷ []))) [
    | inl found ↦ back-Ends t ts (check-eq-true TokenType.end_of_file (back t ts ∷ []) found)
    | inr bad ↦ absurd (ground arith)
  ]

  -- The declarations that the parser returns are derived by the grammar from all the tokens up to
  -- the end of the file, and every import stands before all other declarations.
  pub parse-Derives :
      (ts : Tokens) (ds : List Declaration)
      → parse source ts ≡ ok ds
      → DerivesUnit source false ts ds
  parse-Derives ts ds h = Post-ok ds (
      subst (Post (Fails (λ t. Unit {0})) (λ ds. DerivesUnit source false ts ds)) h
        (parse-Post (λ t. Unit {0}) source ts (All-tail ts (λ t m. tt)) (parse-Ends ts ds h)))

  -- On tokens that end in EndOfFile the parser always ends: what it does not accept it refuses at
  -- the line and the column of a token of the stream, and it never runs out of fuel.
  pub parse-FailsAt :
      (ts : Tokens) (e : ParseError)
      → Ends ts
      → parse source ts ≡ err e
      → (t : Token) × (message : String) × Occurs t ts × (e ≡ failed t.line t.column message)
  parse-FailsAt ts e ends h = named e (
      Post-err e (
        subst (Post (Fails (λ t. Occurs t ts)) (λ ds. DerivesUnit source false ts ds)) h
          (parse-Post (λ t. Occurs t ts) source ts (All-tail ts (λ t m. m)) ends)))
    where
      named :
          (e : ParseError)
          → Fails (λ t. Occurs t ts) e
          → (t : Token) × (message : String) × Occurs t ts × (e ≡ failed t.line t.column message)
      named (failed line column message) (t, m, l, c) = (t, message, m, cc)
      named out_of_fuel bad = elim bad [ ]
