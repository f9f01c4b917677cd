-- ===== src/Parser/Complete/Types.antt =====
-- Derived types and variables are accepted.
use Prim.Native.String.{String}
use crossa.Prelude.{
  ℕ, zero, suc, ◌<◌, true, false, Bytes, length, ok, ◌>>=◌, ◌≡◌, ◌≢◌, refl, ◌∙◌, subst, arith,
}
use crossa.Lexer.Token.{TokenType}
use crossa.Syntax.{TypeReference}
use crossa.Parser.Cursor.{Tokens, Read, get_lexeme, location_of, peek, check, consume}
use crossa.Parser.Types.{at_type_name, parse_type_reference}
use crossa.Parser.Statements.{Variable, parse_variable}
use crossa.Parser.Grammar.{Starts, is_type_name, DerivesType, name, list}
use crossa.Parser.Grammar.Statements.{DerivesVariable, variable}
use crossa.Parser.Complete.Cursors.{
  peek-Starts, length-Starts, check_Starts, advance_Starts, consume_Starts,
}
use crossa.Parser.Complete.Less.{DerivesExpression-less}
use crossa.Parser.Complete.Expressions.{enter_room}
use crossa.Parser.Complete.Derives.{expression-Derives}

at_type_name_complete :
    (ts : Tokens)
    → is_type_name (peek ts).type ≡ true
    → (at_type_name ts ≡ true) × (check TokenType.keyword_list ts ≡ false)
unfolding at_type_name check is_type_name
at_type_name_complete ts h = ground arith

type_name-ne-end : (t : TokenType) → is_type_name t ≡ true → t ≢ TokenType.end_of_file
unfolding is_type_name
type_name-ne-end t h e = let h' = subst (λ u. is_type_name u ≡ true) e h in cc

module _ (source : Bytes) where
  pub DerivesType-less :
      {depth : ℕ} {ts r : Tokens} {t : TypeReference}
      → DerivesType source depth ts t r
      → length r < length ts
  DerivesType-less (name room e n) = rw e (omega arith)
  DerivesType-less (list room s a d b) =
      omega (arith, length-Starts s, length-Starts a, DerivesType-less d, length-Starts b)

  pub type-Derives :
      {depth : ℕ} {ts r : Tokens} {t : TypeReference}
      → DerivesType source depth ts t r
      → (f : ℕ) → length ts < f
      → parse_type_reference f source depth ts ≡ ok (t, r)
  unfolding parse_type_reference
  type-Derives d zero lt = elim lt [ ]
  type-Derives {depth} {ts} {r} (name {t = t} room e n) (suc f) lt =
      let s : Starts t.type ts t r = (e, refl) in
      let named : is_type_name (peek ts).type ≡ true = rw (peek-Starts s) n in
      let tests = at_type_name_complete ts named in
      enter_room depth ts _ room
      ∙ rw (tests.1, tests.0, peek-Starts s, advance_Starts s (type_name-ne-end t.type n)) refl
  type-Derives {depth} {ts} (list room s a d b) (suc f) lt =
      let size = length-Starts s in
      let size' = length-Starts a in
      enter_room depth ts _ room
      ∙ rw
          (
            check_Starts s,
            peek-Starts s,
            advance_Starts s (λ e. cc),
            consume_Starts a "Expected '<' after 'List'." (λ e. cc),
            type-Derives d f (omega arith),
            consume_Starts b "Expected '>' after the List type." (λ e. cc),
          )
          refl

  pub DerivesVariable-less :
      {depth : ℕ} {ts r : Tokens} {v : Variable}
      → DerivesVariable source depth ts v r
      → length r < length ts
  DerivesVariable-less (variable s a d b e) = omega (
    arith,
    length-Starts s,
    length-Starts a,
    DerivesType-less d,
    length-Starts b,
    DerivesExpression-less source e,
  )

  -- A variable, and what is done with it
  pub variable-Derives :
      {depth : ℕ} {ts r : Tokens} {v : Variable} {A : Type 0}
      → DerivesVariable source depth ts v r
      → (f : ℕ) (message : String) (next : Variable × Tokens → Read A) → length ts < f
      → (consume TokenType.identifier message ts >>= λ x.
          parse_variable f source depth (get_lexeme source x.0) (location_of x.0) x.1 >>= next)
        ≡ next (v, r)
  unfolding parse_variable
  variable-Derives (variable s a d b e) f message next lt =
      let size = length-Starts s in
      let size' = length-Starts a in
      let size'' = DerivesType-less d in
      let size3 = length-Starts b in
      rw
        (
          consume_Starts s message (λ e. cc),
          consume_Starts a "Expected ':' after the variable name." (λ e. cc),
          type-Derives d f (omega arith),
          consume_Starts b "Expected '=' before the variable initializer." (λ e. cc),
          expression-Derives source e f (omega arith),
        )
        refl
