-- ===== src/Parser/Sound/Cursors.antt =====
-- Steps of the cursor, over tokens that end in EndOfFile.
use Prim.Native.String.{String}
use crossa.Prelude.{
  ◌<◌, true, false, [], ◌∷◌, length, All, ◌≡◌, ◌≢◌, refl, subst, arith, Post, done, stop, Post-if,
  inl, inr, Bool-cases,
}
use crossa.Lexer.Token.{TokenType, Token}
use crossa.Parser.Cursor.{
  ParseError, failed, out_of_fuel, fail, Tokens, Read, peek, check, advance, consume,
}
use crossa.Parser.Grammar.{Starts}

-- The last token is EndOfFile.
abbrev pub Ends : Tokens → Type 0
Ends [] = ⊥
Ends (t ∷ []) = t.type ≡ TokenType.end_of_file
Ends (t ∷ u ∷ ts) = Ends (u ∷ ts)

pub check-eq-true : (type : TokenType) (ts : Tokens) → check type ts ≡ true → (peek ts).type ≡ type
unfolding check
check-eq-true type ts h = ground arith

pub check-eq-false :
    (type : TokenType) (ts : Tokens) → check type ts ≡ false → (peek ts).type ≢ type
unfolding check
check-eq-false type ts h = ground arith

pub check_of_type : (type : TokenType) (ts : Tokens) → (peek ts).type ≡ type → check type ts ≡ true
unfolding check
check_of_type type ts h = ground arith

-- A token that is not EndOfFile is passed.
pub advance-Starts :
    (ts : Tokens)
    → (peek ts).type ≢ TokenType.end_of_file
    → Starts (peek ts).type ts (peek ts) (advance ts)
unfolding advance peek
advance-Starts [] ne = absurd (ne refl)
advance-Starts (t ∷ ts) ne = elim (Bool-cases (check TokenType.end_of_file (t ∷ ts))) [
  | inl at_end ↦ absurd (ne (check-eq-true TokenType.end_of_file (t ∷ ts) at_end))
  | inr inside ↦ rw inside (refl, refl)
]

Ends-tail : (t : Token) (r : Tokens) → t.type ≢ TokenType.end_of_file → Ends (t ∷ r) → Ends r
Ends-tail t [] ne ends = absurd (ne ends)
Ends-tail t (u ∷ r) ne ends = ends

-- `P` holds of every token, so that a failure is at a token with `P`.
module _ (P : Token → Type 0) where
  abbrev pub Good : Tokens → Type 0
  Good ts = All P ts × Ends ts

  abbrev pub Fails : ParseError → Type 0
  Fails (failed line column message) = (t : Token) × P t × (t.line ≡ line) × (t.column ≡ column)
  Fails out_of_fuel = ⊥

  -- What a routine returns is as `G` says, and it has passed a token at least.
  abbrev pub Reads : {A : Type 0} → (A → Tokens → Type 0) → Tokens → Read A → Type 0
  Reads G ts m = Post Fails (λ x. G x.0 x.1 × Good x.1 × (length x.1 < length ts)) m

  pub P-peek : (ts : Tokens) → Good ts → P (peek ts)
  unfolding peek
  P-peek [] good = elim good.1 [ ]
  P-peek (t ∷ ts) good = good.0.0

  pub fail-Post :
      {A : Type 0} {Q : A → Type 0} (t : Token) (message : String)
      → P t
      → Post Fails Q (fail t message)
  unfolding fail
  fail-Post t message p = stop (t, p, refl, refl)

  pub Starts-Good :
      (type : TokenType) (ts r : Tokens) (t : Token)
      → Good ts
      → Starts type ts t r
      → type ≢ TokenType.end_of_file
      → P t × Good r × (length r < length ts)
  Starts-Good type ts r t good starts ne =
      let all = subst Good starts.0 good in
      (all.0.0, (all.0.1, Ends-tail t r (λ e. ne (cc)) all.1), rw (starts.0) (omega arith))

  -- A successful test of a type other than EndOfFile.
  pub check-Starts :
      (type : TokenType) (ts : Tokens)
      → type ≢ TokenType.end_of_file
      → check type ts ≡ true
      → Starts type ts (peek ts) (advance ts)
  check-Starts type ts ne h =
      let e = check-eq-true type ts h in let s = advance-Starts ts (λ at_end. ne (cc e)) in (s.0, e)

  pub check-Good :
      (type : TokenType) (ts : Tokens)
      → Good ts
      → type ≢ TokenType.end_of_file
      → check type ts ≡ true
      → Good (advance ts) × (length (advance ts) < length ts)
  check-Good type ts good ne h =
      let all = Starts-Good type ts (advance ts) (peek ts) good (check-Starts type ts ne h) ne in
      (all.1, all.2)

  pub consume-Reads :
      (type : TokenType) (message : String) (ts : Tokens)
      → Good ts
      → type ≢ TokenType.end_of_file
      → Reads (λ t r. Starts type ts t r × P t) ts (consume type message ts)
  unfolding consume
  consume-Reads type message ts good ne =
      Post-if _ _ _
        (λ h.
          let all = check-Good type ts good ne h in
          done ((check-Starts type ts ne h, P-peek ts good), all.0, all.1))
        (λ h. fail-Post (peek ts) message (P-peek ts good))
