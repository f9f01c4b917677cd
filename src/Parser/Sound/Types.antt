-- ===== src/Parser/Sound/Types.antt =====
-- Type references and variables.
use crossa.Prelude.{
  ℕ, zero, suc, ◌<◌, true, Bytes, length, subst, ◌≡◌, ◌≢◌, arith, done, Post-if, Post-bind,
}
use crossa.Lexer.Token.{TokenType, Token}
use crossa.Parser.Cursor.{Tokens, get_lexeme, location_of, peek, check, advance}
use crossa.Parser.Types.{at_type_name, parse_type_reference}
use crossa.Parser.Statements.{parse_variable}
use crossa.Parser.Grammar.{Starts, is_type_name, DerivesType, name, list}
use crossa.Parser.Grammar.Statements.{DerivesVariable, variable}
use crossa.Parser.Sound.Cursors.{
  Good, Reads, P-peek, fail-Post, check-Good, check-Starts, consume-Reads, advance-Starts,
  Starts-Good,
}
use crossa.Parser.Sound.Atoms.{enter-Post, parse_expression-SoundInner}

at_type_name_sound : (ts : Tokens) → at_type_name ts ≡ true → is_type_name (peek ts).type ≡ true
unfolding at_type_name check is_type_name
at_type_name_sound ts h = ground arith

type_name-ne-end : (t : TokenType) → is_type_name t ≡ true → t ≢ TokenType.end_of_file
unfolding is_type_name
type_name-ne-end t h e = let h' = subst (λ u. is_type_name u ≡ true) e h in cc

module _ (P : Token → Type 0) (source : Bytes) where
  pub parse_type_reference-Reads :
      (f depth : ℕ) (ts : Tokens)
      → Good P ts
      → length ts < f
      → Reads P (λ t r. DerivesType source depth ts t r) ts (parse_type_reference f source depth ts)
  unfolding parse_type_reference
  parse_type_reference-Reads zero depth ts good lt = absurd (omega arith)
  parse_type_reference-Reads (suc f) depth ts good lt = enter-Post P depth ts _ good (λ room.
      Post-if (check TokenType.keyword_list ts) _ _
        (λ h.
          let moved = check-Good P TokenType.keyword_list ts good (λ e. cc) h in
          Post-bind _ (consume-Reads P TokenType.left_angle _ (advance ts) moved.0 (λ e. cc))
            (λ x left.
              Post-bind _ (parse_type_reference-Reads f (suc depth) x.1 left.1 (omega arith))
                (λ y inner.
                  Post-bind _ (consume-Reads P TokenType.right_angle _ y.1 inner.1 (λ e. cc))
                    (λ z right. done (
                      list room (check-Starts P TokenType.keyword_list ts (λ e. cc) h) left.0.0
                          inner.0 right.0.0,
                      right.1,
                      omega arith,
                    )))))
        (λ _.
          Post-if (at_type_name ts) _ _
            (λ h.
              let named = at_type_name_sound ts h in
              let ne = type_name-ne-end (peek ts).type named in
              let first = advance-Starts ts ne in
              let moved = Starts-Good P (peek ts).type ts (advance ts) (peek ts) good first ne in
              done (name room first.0 named, moved.1, moved.2))
            (λ _. fail-Post P (peek ts) _ (P-peek P ts good))))

  -- `l` is where the name stands.
  pub parse_variable-Reads :
      (f depth : ℕ) (ts u : Tokens) (t : Token)
      → Starts TokenType.identifier ts t u
      → Good P u
      → length u < length ts
      → length u < f
      → Reads P
          (λ v r. DerivesVariable source depth ts v r)
          ts
          (parse_variable f source depth (get_lexeme source t) (location_of t) u)
  unfolding parse_variable
  parse_variable-Reads f depth ts u t first good less lf =
      Post-bind _ (consume-Reads P TokenType.colon _ u good (λ e. cc)) (λ x colon.
        Post-bind _ (parse_type_reference-Reads f depth x.1 colon.1 (omega arith)) (λ y type.
          Post-bind _ (consume-Reads P TokenType.equal _ y.1 type.1 (λ e. cc)) (λ z equal.
            Post-bind _ (parse_expression-SoundInner P source f depth z.1 equal.1 (omega arith))
              (λ w value.
                done (variable first colon.0.0 type.0 equal.0.0 value.0, value.1, omega arith)))))
