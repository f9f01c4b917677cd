-- ===== src/Parser/Complete/Less.antt =====
-- A derivation takes tokens, and the first of an expression is one of those that can begin it.
use crossa.Prelude.{ℕ, ◌≤◌, ◌<◌, Bool, true, false, Bytes, length, ◌≡◌, refl, arith, some}
use crossa.Lexer.Token.{TokenType}
use crossa.Syntax.{Expression, Expressions, Entries, HttpMethod}
use crossa.Parser.Cursor.{Tokens, peek}
use crossa.Parser.Primary.{method_of}
use crossa.Parser.Grammar.{Starts, Keys, DerivesKey, precedence}
use crossa.Parser.Grammar
use crossa.Parser.Grammar.Expressions as Rules
use crossa.Parser.Grammar.Expressions.{
  Derives, DerivesExpression, DerivesList, DerivesItems, DerivesEntries, DerivesPairs,
}
use crossa.Parser.Sound.Levels.{precedence-le}
use crossa.Parser.Complete.Cursors.{type-Starts, length-Starts}

-- The tokens that begin an atom.
unfoldable pub begins_atom : TokenType → Bool
begins_atom TokenType.integer_literal = true
begins_atom TokenType.decimal_literal = true
begins_atom TokenType.string_literal = true
begins_atom TokenType.boolean_literal = true
begins_atom TokenType.keyword_null = true
begins_atom TokenType.keyword_crossa_request = true
begins_atom TokenType.method_get = true
begins_atom TokenType.method_post = true
begins_atom TokenType.method_put = true
begins_atom TokenType.method_patch = true
begins_atom TokenType.method_delete = true
begins_atom TokenType.method_head = true
begins_atom TokenType.method_options = true
begins_atom TokenType.method_trace = true
begins_atom TokenType.method_connect = true
begins_atom TokenType.left_brace = true
begins_atom TokenType.left_bracket = true
begins_atom TokenType.keyword_print = true
begins_atom TokenType.keyword_assert = true
begins_atom TokenType.identifier = true
begins_atom TokenType.left_paren = true
begins_atom _ = false

-- The tokens that begin an expression.
unfoldable pub begins : TokenType → Bool
unfolding begins_atom
begins TokenType.bang = true
begins TokenType.minus = true
begins t = begins_atom t

begins_of_atom : (t : TokenType) → begins_atom t ≡ true → begins t ≡ true
unfolding begins
begins_of_atom _ h = ground arith

method-begins : (t : TokenType) (m : HttpMethod) → method_of t ≡ some m → begins_atom t ≡ true
unfolding method_of begins_atom
method-begins _ m h = ground arith

module _ (source : Bytes) where
  pub DerivesKey-less :
      {keys : Keys} {ts r : Tokens} {key : Bytes}
      → DerivesKey source keys ts key r
      → length r < length ts
  DerivesKey-less (Grammar.name s) = omega (arith, length-Starts s)
  DerivesKey-less (Grammar.text s read plain) = omega (arith, length-Starts s)

  mutual
    pub DerivesExpression-less :
        {depth : ℕ} {ts r : Tokens} {e : Expression}
        → DerivesExpression source depth ts e r
        → length r < length ts
    DerivesExpression-less (Rules.opens room d stops) = Derives-less d

    pub Derives-less :
        {depth level : ℕ} {ts r : Tokens} {e : Expression}
        → Derives source depth level ts e r
        → length r < length ts
    Derives-less (Rules.tighter d stops) = Derives-less d
    Derives-less (Rules.binary a s p b stops) =
        omega (arith, Derives-less a, length-Starts s, Derives-less b)
    Derives-less (Rules.inverted s d) = omega (arith, length-Starts s, Derives-less d)
    Derives-less (Rules.negated s d) = omega (arith, length-Starts s, Derives-less d)
    Derives-less (Rules.integer s) = omega (arith, length-Starts s)
    Derives-less (Rules.decimal s) = omega (arith, length-Starts s)
    Derives-less (Rules.text s read) = omega (arith, length-Starts s)
    Derives-less (Rules.boolean s) = omega (arith, length-Starts s)
    Derives-less (Rules.null s) = omega (arith, length-Starts s)
    Derives-less (Rules.request s u d) =
        omega (arith, length-Starts s, length-Starts u, DerivesEntries-less d)
    Derives-less (Rules.method e m) = rw e (omega arith)
    Derives-less (Rules.object s d) = omega (arith, length-Starts s, DerivesEntries-less d)
    Derives-less (Rules.array s d) = omega (arith, length-Starts s, DerivesList-less d)
    Derives-less (Rules.print s u d) =
        omega (arith, length-Starts s, length-Starts u, DerivesList-less d)
    Derives-less (Rules.assert s u d) =
        omega (arith, length-Starts s, length-Starts u, DerivesList-less d)
    Derives-less (Rules.call s u d) =
        omega (arith, length-Starts s, length-Starts u, DerivesList-less d)
    Derives-less (Rules.identifier s n) = omega (arith, length-Starts s)
    Derives-less (Rules.group s d u) =
        omega (arith, length-Starts s, DerivesExpression-less d, length-Starts u)

    pub DerivesList-less :
        {depth : ℕ} {close : TokenType} {ts r : Tokens} {es : Expressions}
        → DerivesList source depth close ts es r
        → length r < length ts
    DerivesList-less (Rules.empty s) = omega (arith, length-Starts s)
    DerivesList-less (Rules.filled d s) = omega (arith, DerivesItems-less d, length-Starts s)

    pub DerivesItems-less :
        {depth : ℕ} {ts r : Tokens} {es : Expressions}
        → DerivesItems source depth ts es r
        → length r < length ts
    DerivesItems-less (Rules.one d) = DerivesExpression-less d
    DerivesItems-less (Rules.more d s ds) =
        omega (arith, DerivesExpression-less d, length-Starts s, DerivesItems-less ds)

    pub DerivesEntries-less :
        {depth : ℕ} {keys : Keys} {ts r : Tokens} {es : Entries}
        → DerivesEntries source depth keys ts es r
        → length r < length ts
    DerivesEntries-less (Rules.no_entries s) = omega (arith, length-Starts s)
    DerivesEntries-less (Rules.entries d s) = omega (arith, DerivesPairs-less d, length-Starts s)

    pub DerivesPairs-less :
        {depth : ℕ} {keys : Keys} {ts r : Tokens} {es : Entries}
        → DerivesPairs source depth keys ts es r
        → length r < length ts
    DerivesPairs-less (Rules.last k s d) =
        omega (arith, DerivesKey-less k, length-Starts s, DerivesExpression-less d)
    DerivesPairs-less (Rules.next k s d u ds) = omega (
      arith,
      DerivesKey-less k,
      length-Starts s,
      DerivesExpression-less d,
      length-Starts u,
      DerivesPairs-less ds,
    )

  -- The levels end at 7.
  pub Derives-level :
      {depth level : ℕ} {ts r : Tokens} {e : Expression}
      → Derives source depth level ts e r
      → level ≤ 7
  Derives-level (Rules.tighter d stops) = omega (arith, Derives-level d)
  Derives-level (Rules.binary a s p b stops) = Derives-level a
  Derives-level (Rules.inverted s d) = omega arith
  Derives-level (Rules.negated s d) = omega arith
  Derives-level _ = omega arith

  pub Derives-begins_atom :
      {depth level : ℕ} {ts r : Tokens} {e : Expression}
      → Derives source depth level ts e r
      → 7 ≤ level
      → begins_atom (peek ts).type ≡ true
  unfolding begins_atom peek
  Derives-begins_atom (Rules.tighter d stops) h = Derives-begins_atom d (omega arith)
  Derives-begins_atom (Rules.binary {o = o} a s p b stops) h =
      absurd (omega (arith, precedence-le o))
  Derives-begins_atom (Rules.inverted s d) h = absurd (omega arith)
  Derives-begins_atom (Rules.negated s d) h = absurd (omega arith)
  Derives-begins_atom (Rules.method {t = t} {m = m} e found) h = rw e (method-begins t.type m found)
  Derives-begins_atom (Rules.integer s) h = rw (type-Starts s) refl
  Derives-begins_atom (Rules.decimal s) h = rw (type-Starts s) refl
  Derives-begins_atom (Rules.text s read) h = rw (type-Starts s) refl
  Derives-begins_atom (Rules.boolean s) h = rw (type-Starts s) refl
  Derives-begins_atom (Rules.null s) h = rw (type-Starts s) refl
  Derives-begins_atom (Rules.request s u d) h = rw (type-Starts s) refl
  Derives-begins_atom (Rules.object s d) h = rw (type-Starts s) refl
  Derives-begins_atom (Rules.array s d) h = rw (type-Starts s) refl
  Derives-begins_atom (Rules.print s u d) h = rw (type-Starts s) refl
  Derives-begins_atom (Rules.assert s u d) h = rw (type-Starts s) refl
  Derives-begins_atom (Rules.call s u d) h = rw (type-Starts s) refl
  Derives-begins_atom (Rules.identifier s n) h = rw (type-Starts s) refl
  Derives-begins_atom (Rules.group s d u) h = rw (type-Starts s) refl

  pub Derives-begins :
      {depth level : ℕ} {ts r : Tokens} {e : Expression}
      → Derives source depth level ts e r
      → begins (peek ts).type ≡ true
  unfolding begins peek
  Derives-begins (Rules.tighter d stops) = Derives-begins d
  Derives-begins (Rules.binary a s p b stops) = Derives-begins a
  Derives-begins (Rules.inverted s d) = rw (type-Starts s) refl
  Derives-begins (Rules.negated s d) = rw (type-Starts s) refl
  Derives-begins (Rules.method {t = t} {m = m} e found) =
      rw e (begins_of_atom t.type (method-begins t.type m found))
  Derives-begins (Rules.integer s) = rw (type-Starts s) refl
  Derives-begins (Rules.decimal s) = rw (type-Starts s) refl
  Derives-begins (Rules.text s read) = rw (type-Starts s) refl
  Derives-begins (Rules.boolean s) = rw (type-Starts s) refl
  Derives-begins (Rules.null s) = rw (type-Starts s) refl
  Derives-begins (Rules.request s u d) = rw (type-Starts s) refl
  Derives-begins (Rules.object s d) = rw (type-Starts s) refl
  Derives-begins (Rules.array s d) = rw (type-Starts s) refl
  Derives-begins (Rules.print s u d) = rw (type-Starts s) refl
  Derives-begins (Rules.assert s u d) = rw (type-Starts s) refl
  Derives-begins (Rules.call s u d) = rw (type-Starts s) refl
  Derives-begins (Rules.identifier s n) = rw (type-Starts s) refl
  Derives-begins (Rules.group s d u) = rw (type-Starts s) refl

  pub DerivesExpression-begins :
      {depth : ℕ} {ts r : Tokens} {e : Expression}
      → DerivesExpression source depth ts e r
      → begins (peek ts).type ≡ true
  DerivesExpression-begins (Rules.opens room d stops) = Derives-begins d
