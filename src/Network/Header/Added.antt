-- ===== src/Network/Header/Added.antt =====
-- What `setHeader` adds to the headers of a request where it overwrites none.
use crossa.Prelude.{
  true, false, List, [], ◌∷◌, ◌++◌, append-nil, append_assoc, Bytes, ◌≡◌, refl, sym, ◌∙◌, subst,
  arith, inl, inr, Bool-cases,
}
use crossa.Network.Header.{HttpHeader, set_header, has_header}

-- Headers with names that are not among `old`, nor twice among themselves.
pub Fresh : List HttpHeader → List HttpHeader → Type 0
Fresh old [] = Unit {0}
Fresh old (h ∷ rest) = (has_header h.name old ≡ false) × Fresh (old ++ (h ∷ [])) rest

-- `after` is `before` and fresh headers behind it.
pub record Extends (before after : List HttpHeader) : Type 0 where
  pub added : List HttpHeader
  pub splits : after ≡ before ++ added
  pub is_fresh : Fresh before added

Fresh-append : (old a b : List HttpHeader) → Fresh old a → Fresh (old ++ a) b → Fresh old (a ++ b)
unfolding Fresh
Fresh-append old [] b fa fb = simp append-nil at fb
Fresh-append old (h ∷ a) b fa fb =
    (fa.0, Fresh-append (old ++ (h ∷ [])) a b fa.1 (rw append_assoc fb))

pub Extends-refl : (headers : List HttpHeader) → Extends headers headers
unfolding Fresh
Extends-refl headers = record { added = []; splits = sym (append-nil _); is_fresh = tt }

pub Extends-trans : {a b c : List HttpHeader} → Extends a b → Extends b c → Extends a c
Extends-trans {a} x y = record {
  added = x.added ++ y.added;
  splits = y.splits ∙ rw (x.splits, append_assoc) refl;
  is_fresh =
      Fresh-append a x.added y.added x.is_fresh (subst (λ b. Fresh b y.added) x.splits y.is_fresh);
}

set_header-old :
    (h : HttpHeader) (headers : List HttpHeader)
    → has_header h.name headers ≡ true
    → set_header h false headers ≡ headers
unfolding set_header has_header
set_header-old h [] old = absurd cc
set_header-old h (e ∷ rest) old = ground (arith, set_header-old h rest)

set_header-new :
    (h : HttpHeader) (headers : List HttpHeader)
    → has_header h.name headers ≡ false
    → set_header h false headers ≡ headers ++ (h ∷ [])
unfolding set_header has_header
set_header-new h [] new = refl
set_header-new h (e ∷ rest) new = ground (arith, set_header-new h rest)

pub set_header-Extends :
    (h : HttpHeader) (headers : List HttpHeader) → Extends headers (set_header h false headers)
unfolding Fresh
set_header-Extends h headers = elim (Bool-cases (has_header h.name headers)) [
  | inl old ↦ rw (set_header-old h headers old) (Extends-refl headers)
  | inr new ↦
      rw (set_header-new h headers new)
        (record { added = h ∷ []; splits = refl; is_fresh = (new, tt) })
]

pub has_header-append :
    (n : Bytes) (a b : List HttpHeader) → has_header n a ≡ true → has_header n (a ++ b) ≡ true
unfolding has_header
has_header-append n [] b h = absurd cc
has_header-append n (e ∷ a) b h = ground (arith, has_header-append n a b)
