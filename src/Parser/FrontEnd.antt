-- ===== src/Parser/FrontEnd.antt =====
-- The lexer and the parser together, as the compiler runs them on a source file.
use Prim.Native.String.{String}
use crossa.Prelude.{
  ℕ, false, List, [], ◌∷◌, Bytes, length, ok, err, ◌≡◌, ◌⊎◌, inl, inr, refl, ◌∙◌, All, Result, Post,
  done, stop,
}
use crossa.Lexer.Tokenize.{tokenize}
use crossa.Lexer.Position.{Located, Ordered, tokenize-Located, tokenize-Ordered}
use crossa.Lexer.Token.{Token}
use crossa.Syntax.{Declaration}
use crossa.Parser.Cursor.{ParseError, failed, out_of_fuel, Tokens}
use crossa.Parser.Declarations.{parse}
use crossa.Parser.Grammar.Units.{DerivesUnit}
use crossa.Parser.Sound.Cursors.{Ends, Fails}
use crossa.Parser.Unit.{Occurs, parse-Post}

Ordered-Ends : (size : ℕ) (ts : Tokens) (low : ℕ) → Ordered low size ts → Ends ts
Ordered-Ends size [] low h = h
Ordered-Ends size (t ∷ []) low h = h.0
Ordered-Ends size (t ∷ u ∷ ts) low h = Ordered-Ends size (u ∷ ts) _ h.2

module _ (text : Bytes) where
  -- The outcome of the parser on the tokens of the text.
  abbrev pub Parsed : Tokens → Type 0
  Parsed ts = (ds : List Declaration) × (parse text ts ≡ ok ds) × DerivesUnit text false ts ds

  -- A token of the stream that stands in the text where it says.
  abbrev pub Found : Tokens → Token → Type 0
  Found ts t = Occurs t ts × Located text t

  abbrev pub Refused : Tokens → Type 0
  Refused ts =
      (t : Token) × (message : String) × Found ts t
      × (parse text ts ≡ err (failed t.line t.column message))

  Found-All :
      {Q : Token → Type 0} (us : Tokens)
      → ((t : Token) → Occurs t us → Q t)
      → All (Located text) us
      → All (λ t. Q t × Located text t) us
  Found-All [] h all = tt
  Found-All (u ∷ us) h all = ((h u (inl refl), all.0), Found-All us (λ t m. h t (inr m)) all.1)

  outcome :
      (ts : Tokens) (m : Result ParseError (List Declaration))
      → parse text ts ≡ m
      → Post (Fails (Found ts)) (λ ds. DerivesUnit text false ts ds) m
      → Parsed ts ⊎ Refused ts
  outcome ts (ok ds) e (done derives) = inl (ds, e, derives)
  outcome ts (err (failed line column message)) e (stop (t, found, l, c)) =
      inr (t, message, found, e ∙ cc)
  outcome ts (err out_of_fuel) e (stop bad) = elim bad [ ]

  -- On the tokens of any text that the lexer accepts the parser ends. It returns the declarations
  -- that the grammar derives from the tokens, or it refuses with a message at the line and the column
  -- of one of these tokens, which stands in the text at its offset and on its line and column.
  pub parse-tokenize : (ts : Tokens) → tokenize text ≡ ok ts → Parsed ts ⊎ Refused ts
  parse-tokenize ts h = outcome ts (parse text ts) refl (
      parse-Post (Found ts) text ts (Found-All ts (λ t m. m) (tokenize-Located text ts h))
        (Ordered-Ends (length text) ts 0 (tokenize-Ordered text ts h)))
