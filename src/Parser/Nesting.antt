-- ===== src/Parser/Nesting.antt =====
-- How deep the trees nest that the parser returns. `!` and `-` in front of an expression, and
-- operators between expressions, do not count: their depth has no limit.
use Prim.Native.Nat.{max}
use crossa.Prelude.{ℕ, suc, ◌+◌, ◌≤◌, Bool, List, Option, none, some, Bytes, All, ok, ◌≡◌, arith}
use crossa.Syntax.{
  Expression, Expressions, Entries, TypeReference, named, list_of, Statement, Statements, Field,
  Declaration,
}
use crossa.Lexer.Token.{TokenType}
use crossa.Parser.Cursor.{Tokens}
use crossa.Parser.Declarations.{parse}
use crossa.Parser.Statements.{Variable}
use crossa.Parser.Grammar.{DerivesType, name, list}
use crossa.Parser.Grammar.Expressions as Grammar
use crossa.Parser.Grammar.Expressions.{
  Derives, DerivesExpression, DerivesList, DerivesItems, DerivesEntries, DerivesPairs,
}
use crossa.Parser.Grammar.Statements.{
  DerivesVariable, variable, DerivesStatement, returned, declared, conditional, evaluated,
  DerivesIf, if_then, if_else, else_if, DerivesGuarded, guarded, DerivesBlock, close, statement,
}
use crossa.Parser.Grammar.Units as Units
use crossa.Parser.Grammar.Units.{
  DerivesFields, DerivesParameters, DerivesReturn, DerivesFunction, DerivesDeclaration, DerivesUnit,
}
use crossa.Parser.Unit.{parse-Derives}

-- The levels of an expression: one for itself, and one for each call, array, object or request
-- around a part of it.
unfoldable mutual
  pub nesting : Expression → ℕ
  nesting (Expression.call _ es _) = suc (nesting_list es)
  nesting (Expression.unary _ e _) = nesting e
  nesting (Expression.binary a _ b _) = max (nesting a) (nesting b)
  nesting (Expression.json_object es _) = suc (nesting_entries es)
  nesting (Expression.json_array es _) = suc (nesting_list es)
  nesting (Expression.crossa_request es _) = suc (nesting_entries es)
  nesting _ = 1

  pub nesting_list : Expressions → ℕ
  nesting_list Expressions.nil = 0
  nesting_list (Expressions.cons e es) = max (nesting e) (nesting_list es)

  pub nesting_entries : Entries → ℕ
  nesting_entries Entries.end = 0
  nesting_entries (Entries.entry _ e _ es) = max (nesting e) (nesting_entries es)

unfoldable pub nesting_type : TypeReference → ℕ
nesting_type (named _ _) = 1
nesting_type (list_of t _) = suc (nesting_type t)

-- A conditional is a level around its condition and its branches.
unfoldable mutual
  pub nesting_statement : Statement → ℕ
  nesting_statement (Statement.return e _) = nesting e
  nesting_statement (Statement.expression e _) = nesting e
  nesting_statement (Statement.variable _ t e _) = max (nesting_type t) (nesting e)
  nesting_statement (Statement.if_then e ss _) = suc (max (nesting e) (nesting_block ss))
  nesting_statement (Statement.if_else e ss rs _) =
      suc (max (nesting e) (max (nesting_block ss) (nesting_block rs)))

  pub nesting_block : Statements → ℕ
  nesting_block Statements.nil = 0
  nesting_block (Statements.cons s ss) = max (nesting_statement s) (nesting_block ss)

module _ (source : Bytes) where
  -- An expression at depth `d` has 512 levels less the ones around it.
  mutual
    unfolding nesting

    DerivesExpression-nesting :
        {depth : ℕ} {ts r : Tokens} {e : Expression}
        → DerivesExpression source depth ts e r
        → depth + nesting e ≤ 512
    DerivesExpression-nesting (Grammar.opens room d stops) = omega (arith, Derives-nesting d room)

    -- The depth counts the expression itself.
    Derives-nesting :
        {depth level : ℕ} {ts r : Tokens} {e : Expression}
        → Derives source depth level ts e r
        → depth ≤ 512
        → depth + nesting e ≤ 513
    Derives-nesting (Grammar.tighter d stops) room = Derives-nesting d room
    Derives-nesting (Grammar.binary a t p b stops) room =
        omega (arith, Derives-nesting a room, Derives-nesting b room)
    Derives-nesting (Grammar.inverted t d) room = Derives-nesting d room
    Derives-nesting (Grammar.negated t d) room = Derives-nesting d room
    Derives-nesting (Grammar.integer t) room = omega arith
    Derives-nesting (Grammar.decimal t) room = omega arith
    Derives-nesting (Grammar.text t s) room = omega arith
    Derives-nesting (Grammar.boolean t) room = omega arith
    Derives-nesting (Grammar.null t) room = omega arith
    Derives-nesting (Grammar.request t u d) room = omega (arith, DerivesEntries-nesting d room)
    Derives-nesting (Grammar.method t m) room = omega arith
    Derives-nesting (Grammar.object t d) room = omega (arith, DerivesEntries-nesting d room)
    Derives-nesting (Grammar.array t d) room = omega (arith, DerivesList-nesting d room)
    Derives-nesting (Grammar.print t u d) room = omega (arith, DerivesList-nesting d room)
    Derives-nesting (Grammar.assert t u d) room = omega (arith, DerivesList-nesting d room)
    Derives-nesting (Grammar.call t u d) room = omega (arith, DerivesList-nesting d room)
    Derives-nesting (Grammar.identifier t n) room = omega arith
    Derives-nesting (Grammar.group t d u) room = omega (arith, DerivesExpression-nesting d)

    DerivesList-nesting :
        {depth : ℕ} {type : TokenType} {ts r : Tokens} {es : Expressions}
        → DerivesList source depth type ts es r
        → depth ≤ 512
        → depth + nesting_list es ≤ 512
    DerivesList-nesting (Grammar.empty t) room = omega arith
    DerivesList-nesting (Grammar.filled d t) room = DerivesItems-nesting d

    DerivesItems-nesting :
        {depth : ℕ} {ts r : Tokens} {es : Expressions}
        → DerivesItems source depth ts es r
        → depth + nesting_list es ≤ 512
    DerivesItems-nesting (Grammar.one d) = omega (arith, DerivesExpression-nesting d)
    DerivesItems-nesting (Grammar.more d t ds) =
        omega (arith, DerivesExpression-nesting d, DerivesItems-nesting ds)

    DerivesEntries-nesting :
        {depth : ℕ} {keys : _} {ts r : Tokens} {es : Entries}
        → DerivesEntries source depth keys ts es r
        → depth ≤ 512
        → depth + nesting_entries es ≤ 512
    DerivesEntries-nesting (Grammar.no_entries t) room = omega arith
    DerivesEntries-nesting (Grammar.entries d t) room = DerivesPairs-nesting d

    DerivesPairs-nesting :
        {depth : ℕ} {keys : _} {ts r : Tokens} {es : Entries}
        → DerivesPairs source depth keys ts es r
        → depth + nesting_entries es ≤ 512
    DerivesPairs-nesting (Grammar.last k t d) = omega (arith, DerivesExpression-nesting d)
    DerivesPairs-nesting (Grammar.next k t d u ds) =
        omega (arith, DerivesExpression-nesting d, DerivesPairs-nesting ds)

  DerivesType-nesting :
      {depth : ℕ} {ts r : Tokens} {t : TypeReference}
      → DerivesType source depth ts t r
      → depth + nesting_type t ≤ 512
  unfolding nesting_type
  DerivesType-nesting (name room e n) = omega arith
  DerivesType-nesting (list room a b d c) = omega (arith, DerivesType-nesting d)

  -- The levels of a variable's parts
  DerivesVariable-nesting :
      {depth : ℕ} {ts r : Tokens} {v : Variable}
      → DerivesVariable source depth ts v r
      → (depth + nesting_type v.type ≤ 512) × (depth + nesting v.initializer ≤ 512)
  DerivesVariable-nesting (variable a b type c value) =
      (DerivesType-nesting type, DerivesExpression-nesting value)

  mutual
    unfolding nesting_statement

    DerivesStatement-nesting :
        {depth : ℕ} {ts r : Tokens} {s : Statement}
        → DerivesStatement source depth ts s r
        → depth + nesting_statement s ≤ 512
    DerivesStatement-nesting (returned t d) = DerivesExpression-nesting d
    DerivesStatement-nesting (declared t d) = omega (arith, DerivesVariable-nesting d)
    DerivesStatement-nesting (conditional t d) = DerivesIf-nesting d
    DerivesStatement-nesting (evaluated d) = DerivesExpression-nesting d

    DerivesIf-nesting :
        {depth : ℕ} {l : _} {ts r : Tokens} {s : Statement}
        → DerivesIf source depth l ts s r
        → depth + nesting_statement s ≤ 512
    DerivesIf-nesting (if_then g n) = omega (arith, DerivesGuarded-nesting g)
    DerivesIf-nesting (if_else g t u b) =
        omega (arith, DerivesGuarded-nesting g, DerivesBlock-nesting b (DerivesGuarded-nesting g).0)
    DerivesIf-nesting (else_if g t u d) =
        omega (arith, DerivesGuarded-nesting g, DerivesIf-nesting d)

    DerivesGuarded-nesting :
        {depth : ℕ} {ts r : Tokens} {e : Expression} {ss : Statements}
        → DerivesGuarded source depth ts e ss r
        → (suc depth ≤ 512) × (suc depth + nesting e ≤ 512) × (suc depth + nesting_block ss ≤ 512)
    DerivesGuarded-nesting (guarded room a d b c block) =
        (omega arith, DerivesExpression-nesting d, DerivesBlock-nesting block (omega arith))

    DerivesBlock-nesting :
        {depth : ℕ} {ts r : Tokens} {ss : Statements}
        → DerivesBlock source depth ts ss r
        → depth ≤ 512
        → depth + nesting_block ss ≤ 512
    DerivesBlock-nesting (close t) room = omega arith
    DerivesBlock-nesting (statement d ds) room =
        omega (arith, DerivesStatement-nesting d, DerivesBlock-nesting ds room)

  -- All parts of a declaration are within the limit.
  abbrev pub FieldsWithin : List Field → Type 0
  FieldsWithin fields = All (λ f. nesting_type f.type ≤ 512) fields

  abbrev pub TypeWithin : Option TypeReference → Type 0
  TypeWithin none = Unit
  TypeWithin (some t) = nesting_type t ≤ 512

  abbrev pub Within : Declaration → Type 0
  Within (Declaration.import _ _) = Unit
  Within (Declaration.variable _ t e _) = (nesting_type t ≤ 512) × (nesting e ≤ 512)
  Within (Declaration.model _ fields _) = FieldsWithin fields
  Within (Declaration.function _ _ parameters return_type body _) =
      FieldsWithin parameters × TypeWithin return_type × (nesting_block body ≤ 512)
  Within (Declaration.config entries _) = nesting_entries entries ≤ 512
  Within (Declaration.expression e _) = nesting e ≤ 512

  DerivesFields-Within :
      {ts r : Tokens} {fields : List Field} → DerivesFields source ts fields r → FieldsWithin fields
  DerivesFields-Within (Units.last a b d) = (omega (arith, DerivesType-nesting d), tt)
  DerivesFields-Within (Units.next a b d c ds) =
      (omega (arith, DerivesType-nesting d), DerivesFields-Within ds)

  DerivesParameters-Within :
      {ts r : Tokens} {fields : List Field}
      → DerivesParameters source ts fields r
      → FieldsWithin fields
  DerivesParameters-Within (Units.no_fields t) = tt
  DerivesParameters-Within (Units.fields d t) = DerivesFields-Within d

  DerivesReturn-Within :
      {ts r : Tokens} {t : Option TypeReference} → DerivesReturn source ts t r → TypeWithin t
  DerivesReturn-Within (Units.nothing n) = tt
  DerivesReturn-Within (Units.returns t d) = omega (arith, DerivesType-nesting d)

  DerivesFunction-Within :
      {policy : _} {ts r : Tokens} {d : Declaration}
      → DerivesFunction source policy ts d r
      → Within d
  DerivesFunction-Within (Units.function a b parameters return c body) = (
    DerivesParameters-Within parameters,
    DerivesReturn-Within return,
    omega (arith, DerivesBlock-nesting body (omega arith)),
  )

  DerivesDeclaration-Within :
      {ts r : Tokens} {d : Declaration} → DerivesDeclaration source ts d r → Within d
  DerivesDeclaration-Within (Units.annotated a t u d) = DerivesFunction-Within d
  DerivesDeclaration-Within (Units.plain t d) = DerivesFunction-Within d
  DerivesDeclaration-Within (Units.variable t d) =
      let both = DerivesVariable-nesting d in (omega arith, omega arith)
  DerivesDeclaration-Within (Units.model t u v d) = DerivesParameters-Within d
  DerivesDeclaration-Within (Units.config t u d) =
      omega (arith, DerivesEntries-nesting d (omega arith))
  DerivesDeclaration-Within (Units.evaluated d) = omega (arith, DerivesExpression-nesting d)

  DerivesUnit-Within :
      {started : Bool} {ts : Tokens} {ds : List Declaration}
      → DerivesUnit source started ts ds
      → All Within ds
  DerivesUnit-Within (Units.finish e) = tt
  DerivesUnit-Within (Units.imports s (Units.import a b long n) ds) = (tt, DerivesUnit-Within ds)
  DerivesUnit-Within (Units.declares d ds) = (DerivesDeclaration-Within d, DerivesUnit-Within ds)

  -- In what the parser returns, types nest at most 512 lists, and calls, arrays, objects, requests
  -- and conditionals at most 512 in one another. Prefixes and binary operators do not count.
  pub parse-Within : (ts : Tokens) (ds : List Declaration) → parse source ts ≡ ok ds → All Within ds
  parse-Within ts ds h = DerivesUnit-Within (parse-Derives source ts ds h)
