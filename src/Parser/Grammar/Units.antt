-- ===== src/Parser/Grammar/Units.antt =====
-- The rules of declarations and of source files.
use crossa.Prelude.{
  Bool, true, false, List, [], ◌∷◌, ◌++◌, Option, none, some, Bytes, codes, length, take, drop, All,
  ◌-◌, ◌≤◌, ◌≡◌, ◌≢◌,
}
use crossa.Lexer.Token.{TokenType, Token}
use crossa.Syntax.{
  Expression, TypeReference, Field, ExecutionPolicy, Statements, Entries, Declaration, get_location,
}
use crossa.Parser.Cursor.{Tokens, peek, location_of, get_lexeme}
use crossa.Parser.Statements.{Variable}
use crossa.Parser.Declarations.{is_supported}
use crossa.Parser.Grammar.{Starts, Keys, DerivesType}
use crossa.Parser.Grammar.Expressions.{DerivesExpression, DerivesEntries}
use crossa.Parser.Grammar.Statements.{DerivesVariable, DerivesBlock}

-- A name with the extension `.cra`, and no byte of a path in it.
abbrev pub IsFilename : Bytes → Type 0
IsFilename filename =
    (stem : Bytes) × (filename ≡ stem ++ codes ".cra")
    × (stem ≢ [])
    × All (λ c. is_supported c ≡ true) filename

-- A text with a byte before and a byte behind it, which are dropped.
abbrev pub inside : Bytes → Bytes
inside lexeme = take (length lexeme - 2) (drop 1 lexeme)

-- How an annotation is written.
pub data Annotates : TokenType → ExecutionPolicy → Type 0 where
  sync : Annotates TokenType.annotation_sync ExecutionPolicy.sync
  async : Annotates TokenType.annotation_async ExecutionPolicy.async
  async_after : Annotates TokenType.annotation_async_after ExecutionPolicy.async_after

module _ (source : Bytes) where
  pub data DerivesImport : Tokens → Declaration → Tokens → Type 0 where
    import :
        {ts u r : Tokens} {t path : Token}
        → Starts TokenType.keyword_import ts t u
        → Starts TokenType.import_path u path r
        → 3 ≤ length (get_lexeme source path)
        → IsFilename (inside (get_lexeme source path))
        → DerivesImport ts (Declaration.import (inside (get_lexeme source path)) (location_of t)) r

  -- Names with types, and commas between them.
  pub data DerivesFields : Tokens → List Field → Tokens → Type 0 where
    last :
        {ts u v r : Tokens} {t a : Token} {type : TypeReference}
        → Starts TokenType.identifier ts t u
        → Starts TokenType.colon u a v
        → DerivesType source 0 v type r
        → DerivesFields ts
            (record { name = get_lexeme source t; type = type; location = location_of t } ∷ [])
            r
    next :
        {ts u v w x r : Tokens} {t a b : Token} {type : TypeReference} {fields : List Field}
        → Starts TokenType.identifier ts t u
        → Starts TokenType.colon u a v
        → DerivesType source 0 v type w
        → Starts TokenType.comma w b x
        → DerivesFields x fields r
        → DerivesFields ts
            (record { name = get_lexeme source t; type = type; location = location_of t } ∷ fields)
            r

  -- The same, if there are any, and a right parenthesis.
  pub data DerivesParameters : Tokens → List Field → Tokens → Type 0 where
    no_fields :
        {ts r : Tokens} {t : Token}
        → Starts TokenType.right_paren ts t r
        → DerivesParameters ts [] r
    fields :
        {ts u r : Tokens} {t : Token} {list : List Field}
        → DerivesFields ts list u
        → Starts TokenType.right_paren u t r
        → DerivesParameters ts list r

  pub data DerivesReturn : Tokens → Option TypeReference → Tokens → Type 0 where
    nothing : {ts : Tokens} → (peek ts).type ≢ TokenType.colon → DerivesReturn ts none ts
    returns :
        {ts u r : Tokens} {t : Token} {type : TypeReference}
        → Starts TokenType.colon ts t u
        → DerivesType source 0 u type r
        → DerivesReturn ts (some type) r

  -- A function, from its name on.
  pub data DerivesFunction : ExecutionPolicy → Tokens → Declaration → Tokens → Type 0 where
    function :
        {policy : ExecutionPolicy} {ts u v w x y r : Tokens} {t a b : Token}
        {parameters : List Field} {return_type : Option TypeReference} {body : Statements}
        → Starts TokenType.identifier ts t u
        → Starts TokenType.left_paren u a v
        → DerivesParameters v parameters w
        → DerivesReturn w return_type x
        → Starts TokenType.left_brace x b y
        → DerivesBlock source 0 y body r
        → DerivesFunction policy ts
            (Declaration.function
              (get_lexeme source t)
              policy
              parameters
              return_type
              body
              (location_of t))
            r

  pub data DerivesDeclaration : Tokens → Declaration → Tokens → Type 0 where
    annotated :
        {type : TokenType} {policy : ExecutionPolicy} {ts u v r : Tokens} {t a : Token}
        {d : Declaration}
        → Annotates type policy
        → Starts type ts t u
        → Starts TokenType.keyword_fun u a v
        → DerivesFunction policy v d r
        → DerivesDeclaration ts d r
    plain :
        {ts u r : Tokens} {t : Token} {d : Declaration}
        → Starts TokenType.keyword_fun ts t u
        → DerivesFunction ExecutionPolicy.none u d r
        → DerivesDeclaration ts d r
    variable :
        {ts u r : Tokens} {t : Token} {v : Variable}
        → Starts TokenType.keyword_var ts t u
        → DerivesVariable source 0 u v r
        → DerivesDeclaration ts (Declaration.variable v.name v.type v.initializer v.location) r
    model :
        {ts u v w r : Tokens} {t name a : Token} {list : List Field}
        → Starts TokenType.keyword_model ts t u
        → Starts TokenType.identifier u name v
        → Starts TokenType.left_paren v a w
        → DerivesParameters w list r
        → DerivesDeclaration ts
            (Declaration.model (get_lexeme source name) list (location_of name))
            r
    config :
        {ts u v r : Tokens} {t a : Token} {entries : Entries}
        → Starts TokenType.keyword_config ts t u
        → Starts TokenType.left_brace u a v
        → DerivesEntries source 0 Keys.names v entries r
        → DerivesDeclaration ts (Declaration.config entries (location_of t)) r
    evaluated :
        {ts r : Tokens} {e : Expression}
        → DerivesExpression source 0 ts e r
        → DerivesDeclaration ts (Declaration.expression e (get_location e)) r

  -- A file up to its end; imports come first, and `started` says that a declaration came before.
  pub data DerivesUnit : Bool → Tokens → List Declaration → Type 0 where
    finish :
        {started : Bool} {ts : Tokens}
        → (peek ts).type ≡ TokenType.end_of_file
        → DerivesUnit started ts []
    imports :
        {started : Bool} {ts r : Tokens} {d : Declaration} {rest : List Declaration}
        → started ≡ false
        → DerivesImport ts d r
        → DerivesUnit started r rest
        → DerivesUnit started ts (d ∷ rest)
    declares :
        {started : Bool} {ts r : Tokens} {d : Declaration} {rest : List Declaration}
        → DerivesDeclaration ts d r
        → DerivesUnit true r rest
        → DerivesUnit started ts (d ∷ rest)
