-- ===== src/Linker/Facts.antt =====
-- Membership in a list of paths, states of paths, and calls that do not run on fuel.
use crossa.Prelude.{
  ◌≢◌, Bool, true, false, ◌||◌, List, [], ◌∷◌, Option, some, Bytes, codes, bytes_eq, bytes_eq_iff,
  Result, ok, err, ◌≡◌, refl, ap, Bool-cases, inl, inr, Post, done, stop, Post-bind,
}
use crossa.Linker.Visit.{
  choose, SourcePath, Declaration, import_file, config, expression, other, VisitState, LinkError,
  out_of_fuel, put, resolve, own,
}

unfoldable pub member : SourcePath → List SourcePath → Bool
member q [] = false
member q (p ∷ ps) = bytes_eq p q || member q ps

unfoldable pub NoFuelError : LinkError → Type 0
NoFuelError e = e ≢ out_of_fuel

pub Post-refl :
    {A : Type 0} (m : Result LinkError A) → m ≢ err out_of_fuel → Post NoFuelError (λ a. m ≡ ok a) m
unfolding NoFuelError
Post-refl (ok a) h = done refl
Post-refl (err e) h = stop (λ same. h (ap err same))

pub choose-ne-out_of_fuel :
    (name : Bytes) (paths : List SourcePath) → choose name paths ≢ err out_of_fuel
unfolding choose
choose-ne-out_of_fuel name [] e = cc
choose-ne-out_of_fuel name (p ∷ []) e = cc
choose-ne-out_of_fuel name (p ∷ q ∷ more) e = cc

pub resolve-ne-out_of_fuel :
    (index : Bytes → List SourcePath) (name : Bytes) → resolve index name ≢ err out_of_fuel
unfolding resolve
resolve-ne-out_of_fuel index name e = elim (Bool-cases (bytes_eq name (codes "config.cra"))) [
  | inl same ↦ let f = simp same at e in cc
  | inr differs ↦ choose-ne-out_of_fuel name (index name) (simp differs at e)
]

pub own-Post :
    (entry : Bool) (ds : List Declaration) → Post NoFuelError (λ added. Unit {0}) (own entry ds)
unfolding own NoFuelError
own-Post entry [] = done tt
own-Post entry (import_file name ∷ ds) = own-Post entry ds
own-Post false (config text ∷ ds) = stop (λ e. cc)
own-Post true (config text ∷ ds) = Post-bind _ (own-Post true ds) (λ a p. done tt)
own-Post false (expression text ∷ ds) = stop (λ e. cc)
own-Post true (expression text ∷ ds) = Post-bind _ (own-Post true ds) (λ a p. done tt)
own-Post entry (other text ∷ ds) = Post-bind _ (own-Post entry ds) (λ a p. done tt)

pub Post-exact :
    {A : Type 0} {Q : A → Type 0} (m : Result LinkError A)
    → Post NoFuelError Q m
    → Post NoFuelError (λ a. m ≡ ok a) m
Post-exact (ok a) p = done refl
Post-exact (err e) (stop h) = stop h

pub put-same :
    (path : SourcePath) (state : VisitState) (states : SourcePath → Option VisitState)
    → put path state states path ≡ some state
unfolding put
put-same path state states = rw ((bytes_eq_iff path path).1 refl)

pub put-equal :
    (path q : SourcePath) (state : VisitState) (states : SourcePath → Option VisitState)
    → bytes_eq path q ≡ true
    → put path state states q ≡ some state
unfolding put
put-equal path q state states h = rw h refl

pub put-other :
    (path q : SourcePath) (state : VisitState) (states : SourcePath → Option VisitState)
    → bytes_eq path q ≡ false
    → put path state states q ≡ states q
unfolding put
put-other path q state states h = rw h refl
