-- ===== src/Parser/Equivalence.antt =====
-- The parser and the grammar agree.
use crossa.Prelude.{
  ℕ, suc, false, List, [], ◌∷◌, ◌++◌, Bytes, length, All, ok, ◌≡◌, ◌↔◌, refl, sym, ◌∙◌, arith,
  bytes_eq, codes,
}
use crossa.Lexer.Token.{TokenType, Token}
use crossa.Syntax.{UnaryOperator, Expression, Declaration, get_location}
use crossa.Parser.Cursor.{Tokens, peek, location_of, get_lexeme}
use crossa.Parser.Declarations.{back, parse}
use crossa.Parser.Grammar.{Stops}
use crossa.Parser.Grammar.Expressions.{Derives, tighter, inverted, boolean, opens}
use crossa.Parser.Grammar.Units.{DerivesUnit, finish, declares, evaluated}
use crossa.Parser.Sound.Cursors.{Ends, check_of_type}
use crossa.Parser.Sound.Levels.{symbol-ne-end, Stops-5}
use crossa.Parser.Unit.{parse-Derives, Ends-back}
use crossa.Parser.Complete.Units.{unit-Derives}

module _ (source : Bytes) where
  parse_of_derivation :
      (ts : Tokens) (ds : List Declaration)
      → Ends ts
      → DerivesUnit source false ts ds
      → parse source ts ≡ ok ds
  unfolding parse peek
  parse_of_derivation [] ds ends derives = elim ends [ ]
  parse_of_derivation (t ∷ ts) ds ends derives =
      rw (check_of_type TokenType.end_of_file (back t ts ∷ []) (Ends-back t ts ends))
        (unit-Derives source (suc (length (t ∷ ts))) derives (omega arith))

  -- On tokens that end in EndOfFile the parser returns some declarations exactly if the grammar
  -- derives them from the tokens: precedence and associativity of the operators, the limit of 512 on
  -- the depth, the form of imports and their place before all else, and every location included.
  pub parse_iff :
      (ts : Tokens) (ds : List Declaration)
      → Ends ts
      → (parse source ts ≡ ok ds) ↔ DerivesUnit source false ts ds
  parse_iff ts ds ends = (parse-Derives source ts ds, parse_of_derivation ts ds ends)

-- An expression behind some tokens `!`.
unfoldable pub nots : Tokens → Expression → Expression
nots [] e = e
nots (t ∷ ts) e = Expression.unary UnaryOperator.not (nots ts e) (location_of t)

module _ (source : Bytes) (literal end : Token) where
  abbrev pub truth : Expression
  truth =
      Expression.boolean_literal (bytes_eq (get_lexeme source literal) (codes "true"))
        (location_of literal)

  abbrev rest : Tokens
  rest = literal ∷ end ∷ []

  stops : (level : ℕ) → end.type ≡ TokenType.end_of_file → Stops level (end ∷ [])
  unfolding peek
  stops level at_end o p same = symbol-ne-end o (sym same ∙ at_end)

  nots-Derives :
      (prefixes : Tokens)
      → literal.type ≡ TokenType.boolean_literal
      → end.type ≡ TokenType.end_of_file
      → All (λ t. t.type ≡ TokenType.bang) prefixes
      → Derives source 1 6 (prefixes ++ rest) (nots prefixes truth) (end ∷ [])
  unfolding nots
  nots-Derives [] is_literal at_end all =
      tighter (boolean (refl, is_literal)) (Stops-5 7 _ (omega arith))
  nots-Derives (t ∷ prefixes) is_literal at_end all =
      inverted (refl, all.0) (nots-Derives prefixes is_literal at_end all.1)

  Ends-append : (ts : Tokens) → end.type ≡ TokenType.end_of_file → Ends (ts ++ rest)
  Ends-append [] at_end = at_end
  Ends-append (t ∷ []) at_end = at_end
  Ends-append (t ∷ u ∷ ts) at_end = Ends-append (u ∷ ts) at_end

  -- However many tokens `!` stand before a Boolean literal, the parser accepts them and nests as
  -- many prefixes: the limit of 512 on the depth does not count them.
  pub parse-nots :
      (prefixes : Tokens)
      → literal.type ≡ TokenType.boolean_literal
      → end.type ≡ TokenType.end_of_file
      → All (λ t. t.type ≡ TokenType.bang) prefixes
      → parse source (prefixes ++ rest)
        ≡ ok
            (Declaration.expression (nots prefixes truth) (get_location (nots prefixes truth)) ∷ [])
  unfolding peek
  parse-nots prefixes is_literal at_end all =
      let prefixed = nots-Derives prefixes is_literal at_end all in
      let level = λ (l : ℕ). stops l at_end in
      let whole =
        tighter
          (tighter
            (tighter (tighter (tighter (tighter prefixed (level 6)) (level 5)) (level 4)) (level 3))
            (level 2))
          (level 1) in
      parse_of_derivation source _ _ (Ends-append prefixes at_end)
        (declares (evaluated (opens (omega arith) whole (level 0))) (finish at_end))
