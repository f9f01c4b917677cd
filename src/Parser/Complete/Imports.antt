-- ===== src/Parser/Complete/Imports.antt =====
-- Derived imports are accepted.
use crossa.Prelude.{
  ℕ, ◌+◌, ◌-◌, ◌<◌, true, false, [], ◌∷◌, ◌++◌, Bytes, codes, bytes_eq, bytes_eq_iff, length,
  length-append, drop, All, ltb, leb, ◌==◌, ok, ◌≡◌, refl, ap, subst, arith, inl, inr, Bool-cases,
}
use crossa.Syntax.{Declaration}
use crossa.Parser.Cursor.{Tokens, get_lexeme}
use crossa.Parser.Declarations.{
  has_byte, is_supported, all_supported, lacks_extension, import_filename, parse_import_declaration,
  parse_import,
}
use crossa.Parser.Grammar.Units as Rules
use crossa.Parser.Grammar.Units.{
  IsFilename, inside, DerivesImport, DerivesFields, DerivesParameters, DerivesReturn,
  DerivesFunction, Annotates, DerivesDeclaration, DerivesUnit,
}
use crossa.Parser.Complete.Cursors.{peek-Starts, length-Starts, advance_Starts, consume_Starts}

has_byte_unsupported :
    (v : ℕ) (cs : Bytes)
    → is_supported v ≡ false
    → All (λ c. is_supported c ≡ true) cs
    → has_byte v cs ≡ false
unfolding has_byte
has_byte_unsupported v [] unsupported all = refl
has_byte_unsupported v (c ∷ cs) unsupported all = elim (Bool-cases (c == v)) [
  | inl same ↦
      absurd
        (let e : c ≡ v = ground arith in let h = subst (λ x. is_supported x ≡ true) e all.0 in cc)
  | inr other ↦ rw other (has_byte_unsupported v cs unsupported all.1)
]

all_supported_complete :
    (cs : Bytes) → All (λ c. is_supported c ≡ true) cs → all_supported cs ≡ true
unfolding all_supported
all_supported_complete [] all = refl
all_supported_complete (c ∷ cs) all = rw (all.0, all_supported_complete cs all.1) refl

drop-append : (xs ys : Bytes) → drop (length xs) (xs ++ ys) ≡ ys
drop-append [] ys = refl
drop-append (x ∷ xs) ys = drop-append xs ys

bytes_eq-shorter : (a b : Bytes) → length b < length a → bytes_eq a b ≡ false
bytes_eq-shorter a b lt = elim (Bool-cases (bytes_eq a b)) [
  | inl same ↦ let e = ap (λ c. length c) ((bytes_eq_iff a b).0 same) in absurd (omega arith)
  | inr other ↦ other
]

lacks_extension_complete :
    (c : ℕ) (stem : Bytes) → lacks_extension ((c ∷ stem) ++ codes ".cra") ≡ false
unfolding lacks_extension
lacks_extension_complete c stem =
    let name = (c ∷ stem) ++ codes ".cra" in
    let size : length name ≡ length (c ∷ stem) + 4 = length-append (c ∷ stem) (codes ".cra") in
    let count : length name - 4 ≡ length (c ∷ stem) = omega arith in
    let ending : drop (length name - 4) name ≡ codes ".cra" =
      rw count (drop-append (c ∷ stem) (codes ".cra")) in
    let same : bytes_eq (drop (length name - 4) name) (codes ".cra") ≡ true =
      (bytes_eq_iff _ _).1 ending in
    let one = bytes_eq-shorter name (codes ".") (omega arith) in
    let two = bytes_eq-shorter name (codes "..") (omega arith) in
    let long : leb (length name) 4 ≡ false = ground arith in rw (one, two, long, same) refl

lacks_extension-IsFilename : (name : Bytes) → IsFilename name → lacks_extension name ≡ false
lacks_extension-IsFilename name ([], e, ne, all) = absurd (ne refl)
lacks_extension-IsFilename name (c ∷ stem, e, ne, all) = rw e (lacks_extension_complete c stem)

module _ (source : Bytes) where
  pub import-Derives :
      {ts r : Tokens} {d : Declaration}
      → DerivesImport source ts d r
      → parse_import source false ts ≡ ok (d, r)
  unfolding parse_import parse_import_declaration import_filename is_supported
  import-Derives (Rules.import {path = path} s p long filename) =
      let lexeme = get_lexeme source path in
      let enough : ltb (length lexeme) 3 ≡ false = ground arith in
      rw
        (
          peek-Starts s,
          advance_Starts s (λ e. cc),
          consume_Starts p "Expected a hash-delimited .cra filename after 'import'." (λ e. cc),
          enough,
          has_byte_unsupported b'/' (inside lexeme) refl filename.3,
          has_byte_unsupported b'\\' (inside lexeme) refl filename.3,
          all_supported_complete (inside lexeme) filename.3,
          lacks_extension-IsFilename (inside lexeme) filename,
        )
        refl

  pub DerivesImport-less :
      {ts r : Tokens} {d : Declaration} → DerivesImport source ts d r → length r < length ts
  DerivesImport-less (Rules.import s p long filename) =
      omega (arith, length-Starts s, length-Starts p)
