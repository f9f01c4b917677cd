-- ===== src/Parser/Grammar/Statements.antt =====
-- The rules of statements and blocks.
use crossa.Prelude.{ℕ, suc, ◌<◌, Bytes, ◌≢◌}
use crossa.Lexer.Token.{TokenType, Token}
use crossa.Syntax.{Location, Expression, TypeReference, Statement, Statements, get_location}
use crossa.Parser.Cursor.{Tokens, peek, location_of, get_lexeme}
use crossa.Parser.Types.{maximum_parse_recursion_depth}
use crossa.Parser.Statements.{Variable}
use crossa.Parser.Grammar.{Starts, DerivesType}
use crossa.Parser.Grammar.Expressions.{DerivesExpression}

module _ (source : Bytes) where
  -- A variable, from its name on.
  pub data DerivesVariable : ℕ → Tokens → Variable → Tokens → Type 0 where
    variable :
        {depth : ℕ} {ts u v w x r : Tokens} {t a b : Token} {type : TypeReference} {e : Expression}
        → Starts TokenType.identifier ts t u
        → Starts TokenType.colon u a v
        → DerivesType source depth v type w
        → Starts TokenType.equal w b x
        → DerivesExpression source depth x e r
        → DerivesVariable depth ts
            (record {
              name = get_lexeme source t;
              type = type;
              initializer = e;
              location = location_of t;
            })
            r

  mutual
    pub data DerivesStatement : ℕ → Tokens → Statement → Tokens → Type 0 where
      returned :
          {depth : ℕ} {ts u r : Tokens} {t : Token} {e : Expression}
          → Starts TokenType.keyword_re ts t u
          → DerivesExpression source depth u e r
          → DerivesStatement depth ts (Statement.return e (location_of t)) r
      declared :
          {depth : ℕ} {ts u r : Tokens} {t : Token} {v : Variable}
          → Starts TokenType.keyword_var ts t u
          → DerivesVariable depth u v r
          → DerivesStatement depth ts (Statement.variable v.name v.type v.initializer v.location) r
      conditional :
          {depth : ℕ} {ts u r : Tokens} {t : Token} {s : Statement}
          → Starts TokenType.keyword_if ts t u
          → DerivesIf depth (location_of t) u s r
          → DerivesStatement depth ts s r
      evaluated :
          {depth : ℕ} {ts r : Tokens} {e : Expression}
          → DerivesExpression source depth ts e r
          → DerivesStatement depth ts (Statement.expression e (get_location e)) r

    -- A conditional at a location, from behind its keyword.
    pub data DerivesIf : ℕ → Location → Tokens → Statement → Tokens → Type 0 where
      if_then :
          {depth : ℕ} {l : Location} {ts r : Tokens} {e : Expression} {yes_branch : Statements}
          → DerivesGuarded depth ts e yes_branch r
          → (peek r).type ≢ TokenType.keyword_else
          → DerivesIf depth l ts (Statement.if_then e yes_branch l) r
      if_else :
          {depth : ℕ} {l : Location} {ts u v w r : Tokens} {t a : Token} {e : Expression}
          {yes_branch no_branch : Statements}
          → DerivesGuarded depth ts e yes_branch u
          → Starts TokenType.keyword_else u t v
          → Starts TokenType.left_brace v a w
          → DerivesBlock (suc depth) w no_branch r
          → DerivesIf depth l ts (Statement.if_else e yes_branch no_branch l) r
      else_if :
          {depth : ℕ} {l : Location} {ts u v w r : Tokens} {t a : Token} {e : Expression}
          {yes_branch : Statements} {s : Statement}
          → DerivesGuarded depth ts e yes_branch u
          → Starts TokenType.keyword_else u t v
          → Starts TokenType.keyword_if v a w
          → DerivesIf (suc depth) (location_of a) w s r
          → DerivesIf depth l ts
              (Statement.if_else e yes_branch (Statements.cons s Statements.nil) l)
              r

    -- A condition in parentheses, and the block of its branch.
    pub data DerivesGuarded : ℕ → Tokens → Expression → Statements → Tokens → Type 0 where
      guarded :
          {depth : ℕ} {ts u v w x r : Tokens} {a b c : Token} {e : Expression} {block : Statements}
          → depth < maximum_parse_recursion_depth
          → Starts TokenType.left_paren ts a u
          → DerivesExpression source (suc depth) u e v
          → Starts TokenType.right_paren v b w
          → Starts TokenType.left_brace w c x
          → DerivesBlock (suc depth) x block r
          → DerivesGuarded depth ts e block r

    -- The statements of a block and its right brace.
    pub data DerivesBlock : ℕ → Tokens → Statements → Tokens → Type 0 where
      close :
          {depth : ℕ} {ts r : Tokens} {t : Token}
          → Starts TokenType.right_brace ts t r
          → DerivesBlock depth ts Statements.nil r
      statement :
          {depth : ℕ} {ts u r : Tokens} {s : Statement} {rest : Statements}
          → DerivesStatement depth ts s u
          → DerivesBlock depth u rest r
          → DerivesBlock depth ts (Statements.cons s rest) r
