-- ===== src/Network/Header/Laws.antt =====
-- Headers as a map from names without ASCII case to values.
use mathlib.Core.List.{map}
use crossa.Prelude.{
  Bool, true, false, ◌||◌, List, [], ◌∷◌, Option, none, some, Bytes, bytes_eq, if◌then◌else◌, ◌≡◌,
  ◌↔◌, refl, ap, sym, ◌∙◌, arith, inl, inr, Bool-cases,
}
use crossa.Network.Header.{HttpHeader, lower, header_names_equal, set_header, has_header}

-- Two names are equal to the program if they have the same letters in lower case.
pub names_equal_iff : (a b : Bytes) → (header_names_equal a b ≡ true) ↔ (map lower a ≡ map lower b)
unfolding header_names_equal
names_equal_iff (x ∷ a) (y ∷ b) = ground (arith, names_equal_iff a b)
names_equal_iff _ _ = ground arith

names_equal_eq : (a b : Bytes) → header_names_equal a b ≡ bytes_eq (map lower a) (map lower b)
unfolding header_names_equal bytes_eq
names_equal_eq (x ∷ a) (y ∷ b) = ground (arith, names_equal_eq a b)
names_equal_eq [] [] = refl
names_equal_eq [] (y ∷ b) = refl
names_equal_eq (x ∷ a) [] = refl

pub names_equal_refl : (a : Bytes) → header_names_equal a a ≡ true
names_equal_refl a = (names_equal_iff a a).1 refl

names_equal_comm : (a b : Bytes) → header_names_equal a b ≡ header_names_equal b a
unfolding header_names_equal
names_equal_comm (x ∷ a) (y ∷ b) = ground (arith, names_equal_comm a b)
names_equal_comm [] [] = refl
names_equal_comm [] (y ∷ b) = refl
names_equal_comm (x ∷ a) [] = refl

names_equal_trans :
    (a b c : Bytes)
    → header_names_equal a b ≡ true
    → header_names_equal b c ≡ header_names_equal a c
names_equal_trans a b c h =
    names_equal_eq b c
    ∙ ap (λ (x : Bytes). bytes_eq x (map lower c)) (sym ((names_equal_iff a b).0 h))
    ∙ sym (names_equal_eq a c)

-- The value of the first header of a name.
abbrev pub get_header : Bytes → List HttpHeader → Option Bytes
get_header name [] = none
get_header name (header ∷ rest) =
    if header_names_equal header.name name then some header.value else get_header name rest

-- What `setHeader` writes, over the value `old` of the name.
abbrev pub written : Bool → Bytes → Option Bytes → Bytes
written overwrite value none = value
written overwrite value (some old) = if overwrite then value else old

-- After `setHeader` the name has the new value, or keeps its own if it has one and nothing is to be
-- overwritten; every other name has the value that it had.
pub get-set_header :
    (h : HttpHeader) (overwrite : Bool) (name : Bytes) (headers : List HttpHeader)
    → get_header name (set_header h overwrite headers) ≡ (
        if header_names_equal h.name name
        then some (written overwrite h.value (get_header name headers))
        else get_header name headers)
unfolding set_header
get-set_header h overwrite name [] = ground arith
get-set_header h overwrite name (e ∷ rest) = elim (Bool-cases (header_names_equal e.name h.name)) [
  | inl same ↦ let t = names_equal_trans e.name h.name name same in ground arith
  | inr other ↦
      let t = names_equal_trans e.name name h.name in
      ground (arith, t, names_equal_comm name h.name, get-set_header h overwrite name rest)
]

-- No two headers have equal names.
abbrev pub Distinct : List HttpHeader → Type 0
Distinct [] = Unit
Distinct (h ∷ rest) = (has_header h.name rest ≡ false) × Distinct rest

-- After `setHeader`, the names that have a header are the old ones and the new one.
pub has-set_header :
    (h : HttpHeader) (overwrite : Bool) (name : Bytes) (headers : List HttpHeader)
    → has_header name (set_header h overwrite headers)
      ≡ (header_names_equal h.name name || has_header name headers)
unfolding set_header has_header
has-set_header h overwrite name [] = refl
has-set_header h overwrite name (e ∷ rest) = elim (Bool-cases (header_names_equal e.name h.name)) [
  | inl same ↦ let t = names_equal_trans e.name h.name name same in ground arith
  | inr other ↦ ground (arith, has-set_header h overwrite name rest)
]

has_header-cong :
    (a b : Bytes) (headers : List HttpHeader)
    → header_names_equal a b ≡ true
    → has_header a headers ≡ has_header b headers
unfolding has_header
has_header-cong a b [] same = refl
has_header-cong a b (e ∷ rest) same = ground (
  arith,
  names_equal_trans a b e.name same,
  names_equal_comm b e.name,
  names_equal_comm a e.name,
  has_header-cong a b rest same,
)

-- `setHeader` adds no second header with a name: if no two headers have equal names before it, then
-- none have after it.
pub set_header-Distinct :
    (h : HttpHeader) (overwrite : Bool) (headers : List HttpHeader)
    → Distinct headers
    → Distinct (set_header h overwrite headers)
unfolding set_header has_header
set_header-Distinct h overwrite [] d = (refl, tt)
set_header-Distinct h overwrite (e ∷ rest) d =
    elim (Bool-cases (header_names_equal e.name h.name)) [
      | inl same ↦ let t = has_header-cong e.name h.name rest same in ground arith
      | inr other ↦ ground (
        arith,
        names_equal_comm e.name h.name,
        has-set_header h overwrite e.name rest,
        set_header-Distinct h overwrite rest,
      )
    ]
