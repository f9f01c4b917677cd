-- ===== src/Parser/Sound/Imports.antt =====
-- Imports.
use crossa.Prelude.{
  ℕ, zero, suc, ◌-◌, ◌≤◌, ◌<◌, true, false, not, ◌||◌, List, [], ◌∷◌, ◌++◌, Bytes, codes,
  bytes_eq_iff, length, take, drop, All, ap, subst, sym, ltb, ◌≡◌, refl, arith, Post, done, Post-if,
  Post-bind, inl, inr, Bool-cases,
}
use crossa.Lexer.Token.{TokenType, Token}
use crossa.Syntax.{Declaration}
use crossa.Parser.Cursor.{Tokens, get_lexeme, location_of, peek, check, advance}
use crossa.Parser.Declarations.{
  has_byte, is_supported, all_supported, lacks_extension, import_filename, parse_import_declaration,
}
use crossa.Parser.Grammar.Units as Grammar
use crossa.Parser.Grammar.Units.{
  IsFilename, inside, DerivesImport, DerivesFields, DerivesParameters, DerivesReturn,
  DerivesFunction, Annotates, DerivesDeclaration, DerivesUnit,
}
use crossa.Parser.Sound.Cursors.{
  Good, Fails, Reads, fail-Post, check-Good, check-Starts, consume-Reads,
}

take-drop : {A : Type 0} (n : ℕ) (xs : List A) → xs ≡ take n xs ++ drop n xs
take-drop zero xs = refl
take-drop (suc n) [] = refl
take-drop (suc n) (x ∷ xs) = ap (◌∷◌ x) (take-drop n xs)

length-take_le : {A : Type 0} (n : ℕ) (xs : List A) → n ≤ length xs → length (take n xs) ≡ n
length-take_le zero xs h = refl
length-take_le (suc n) [] h = absurd (omega arith)
length-take_le (suc n) (x ∷ xs) h = omega (arith, length-take_le n xs)

all_supported_sound : (cs : Bytes) → all_supported cs ≡ true → All (λ c. is_supported c ≡ true) cs
unfolding all_supported
all_supported_sound [] h = tt
all_supported_sound (c ∷ cs) h = elim (Bool-cases (is_supported c)) [
  | inl fine ↦ (fine, all_supported_sound cs (ground arith))
  | inr bad ↦ absurd (ground arith)
]

-- What passes the checks of an import's filename is one.
lacks_extension-IsFilename :
    (name : Bytes) → lacks_extension name ≡ false → all_supported name ≡ true → IsFilename name
unfolding lacks_extension
lacks_extension-IsFilename name h supported =
    let n = length name - 4 in
    let long : 4 < length name = ground arith in
    let ending : drop n name ≡ codes ".cra" =
      (bytes_eq_iff (drop n name) (codes ".cra")).0 (ground arith) in
    (
      take n name,
      subst (λ e. name ≡ take n name ++ e) ending (take-drop n name),
      (λ e.
          let size : length (take n name) ≡ 0 = rw e refl in
          absurd (omega (arith, length-take_le n name))),
      all_supported_sound name supported,
    )

module _ (P : Token → Type 0) (source : Bytes) where
  import_filename-Post :
      (t : Token)
      → P t
      → Post
          (Fails P)
          (λ name.
            (name ≡ inside (get_lexeme source t))
            × (3 ≤ length (get_lexeme source t))
            × IsFilename name)
          (import_filename t (get_lexeme source t))
  unfolding import_filename
  import_filename-Post t p =
      let lexeme = get_lexeme source t in
      let name = inside lexeme in
      Post-if (ltb (length lexeme) 3) _ _ (λ _. fail-Post P t _ p)
        (λ long.
          Post-if (has_byte b'/' name || has_byte b'\\' name) _ _ (λ _. fail-Post P t _ p)
            (λ _.
              Post-if (not (all_supported name)) _ _ (λ _. fail-Post P t _ p)
                (λ fine.
                  Post-if (lacks_extension name) _ _ (λ _. fail-Post P t _ p)
                    (λ has.
                      done
                        (refl, ground arith, lacks_extension-IsFilename name has (ground arith))))))

  pub parse_import_declaration-Reads :
      (ts : Tokens)
      → Good P ts
      → check TokenType.keyword_import ts ≡ true
      → Reads P
          (λ d r. DerivesImport source ts d r)
          ts
          (parse_import_declaration source (location_of (peek ts)) (advance ts))
  unfolding parse_import_declaration
  parse_import_declaration-Reads ts good h =
      let moved = check-Good P TokenType.keyword_import ts good (λ e. cc) h in
      let first = check-Starts P TokenType.keyword_import ts (λ e. cc) h in
      Post-bind _ (consume-Reads P TokenType.import_path _ (advance ts) moved.0 (λ e. cc))
        (λ x path. Post-bind _ (import_filename-Post x.0 path.0.1) (λ name good_name. done (
          subst (λ n. DerivesImport source ts (Declaration.import n (location_of (peek ts))) x.1)
              (sym good_name.0)
              (Grammar.import first path.0.0 good_name.1
                (subst IsFilename good_name.0 good_name.2)),
          path.1,
          omega arith,
        )))
