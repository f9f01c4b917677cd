-- ===== src/Interpreter/Inversion.antt =====
-- What the analyzer accepts: the operand types behind a typed operator.
use Prim.Native.String.{String}
use crossa.Prelude.{
  Bool, true, false, not, ◌&&◌, ◌||◌, bytes_eq_iff, if◌then◌else◌, Result, ok, err, ◌≡◌, refl, ap,
  sym, ◌∙◌, arith,
}
use crossa.Syntax.{UnaryOperator}
use crossa.Interpreter.Values.{
  SemanticType, unit, int, long, double, string, bool, json, model, list, type_eq,
}
use crossa.Interpreter.Typing.{
  is_numeric_type, is_bool, is_string, type_unary, type_logical, type_comparison, type_arithmetic,
}

-- the types that `==` compares
abbrev pub is_scalar : SemanticType → Bool
is_scalar bool = true
is_scalar string = true
is_scalar t = is_numeric_type t

pub numeric→scalar : (t : SemanticType) → is_numeric_type t ≡ true → is_scalar t ≡ true
numeric→scalar bool h = refl
numeric→scalar string h = refl
numeric→scalar _ h = h

pub type_eq_sound : (s t : SemanticType) → type_eq s t ≡ true → s ≡ t
unfolding type_eq
type_eq_sound unit unit h = refl
type_eq_sound int int h = refl
type_eq_sound long long h = refl
type_eq_sound double double h = refl
type_eq_sound string string h = refl
type_eq_sound bool bool h = refl
type_eq_sound json json h = refl
type_eq_sound (model m) (model n) h = ap model ((bytes_eq_iff m n).0 h)
type_eq_sound (list s) (list t) h = ap list (type_eq_sound s t h)
type_eq_sound _ _ h = absurd cc

is_bool_lem : (s : SemanticType) → is_bool s ≡ true → s ≡ bool
is_bool_lem bool h = refl
is_bool_lem _ h = absurd cc

-- a value that was not refused
unless :
    {A : Type 0} {a : A} (code : String) (refused : Bool) (m : Result String A)
    → (if refused then err code else m) ≡ ok a
    → (refused ≡ false) × (m ≡ ok a)
unless code true m h = absurd cc
unless code false m h = (refl, h)

-- a value that was accepted
when :
    {A : Type 0} {a : A} (code : String) (accepted : Bool) (m : Result String A)
    → (if accepted then m else err code) ≡ ok a
    → (accepted ≡ true) × (m ≡ ok a)
when code true m h = (refl, h)
when code false m h = absurd cc

pub type_logical_inv :
    (s t : SemanticType) {u : SemanticType}
    → type_logical s t ≡ ok u
    → (s ≡ bool) × (t ≡ bool) × (u ≡ bool)
type_logical_inv s t h =
    let (both, e) = unless "CRA3018" (not (is_bool s) || not (is_bool t)) (ok bool) h in
    (is_bool_lem s (ground arith), is_bool_lem t (ground arith), cc)

-- the operand types of a comparison
abbrev pub is_comparable : Bool → SemanticType → Bool
is_comparable e s = if e then is_scalar s else is_numeric_type s

scalar_lem : (s : SemanticType) → (is_bool s || is_string s || is_numeric_type s) ≡ is_scalar s
scalar_lem bool = refl
scalar_lem string = refl
scalar_lem _ = refl

pub type_comparison_inv :
    (e : Bool) (s t : SemanticType) {u : SemanticType}
    → type_comparison e s t ≡ ok u
    → (s ≡ t) × (is_comparable e s ≡ true) × (u ≡ bool)
type_comparison_inv true s t h =
    let (same, e) =
      unless "CRA3014"
        (not (type_eq s t) || (not (is_bool s || is_string s || is_numeric_type s) && true))
        (ok bool) h in
    (type_eq_sound s t (ground arith), sym (scalar_lem s) ∙ ground arith, cc)
type_comparison_inv false s t h =
    let (same, e) = unless "CRA3014" (not (type_eq s t) || not (is_numeric_type s)) (ok bool) h in
    (type_eq_sound s t (ground arith), ground arith, cc)

pub type_arithmetic_inv :
    (s t : SemanticType) {u : SemanticType}
    → type_arithmetic s t ≡ ok u
    → (s ≡ t) × (is_numeric_type s ≡ true) × (u ≡ s)
type_arithmetic_inv s t h =
    let (numeric, rest) =
      unless "CRA3012" (not (is_numeric_type s) || not (is_numeric_type t))
        (if not (type_eq s t) then err "CRA3012" else ok s) h in
    let (same, e) = unless "CRA3012" (not (type_eq s t)) (ok s) rest in
    (type_eq_sound s t (ground arith), ground arith, cc)

pub type_not_inv :
    (t : SemanticType) {u : SemanticType}
    → type_unary UnaryOperator.not t ≡ ok u
    → (t ≡ bool) × (u ≡ bool)
unfolding type_unary
type_not_inv t h =
    let (boolean, e) = when "CRA3017" (is_bool t) (ok bool) h in (is_bool_lem t boolean, cc)

pub type_negate_inv :
    (t : SemanticType) {u : SemanticType}
    → type_unary UnaryOperator.negate t ≡ ok u
    → (is_numeric_type t ≡ true) × (u ≡ t)
unfolding type_unary
type_negate_inv t h =
    let (numeric, e) = when "CRA3011" (is_numeric_type t) (ok t) h in (numeric, cc)
