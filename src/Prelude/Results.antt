-- ===== src/Prelude/Results.antt =====
-- A result with an error type, for the functions of the program that may throw.
use mathlib.Core.Path.{◌≡◌, refl}
use mathlib.Core.Bool.{Bool, true, false}
use crossa.Prelude.Tests.{if◌then◌else◌}

pub data Result {ℓ} (E : Type 0) (A : Type ℓ) : Type ℓ where
  ok : A → Result E A
  err : E → Result E A

infixl 5 ◌>>=◌ ◌>>◌
abbrev pub ◌>>=◌ {ℓ κ} :
    {E : Type 0} {A : Type ℓ} {B : Type κ} → Result E A → (A → Result E B) → Result E B
ok a >>= f = f a
err e >>= f = err e

abbrev pub ◌>>◌ {ℓ} : {E : Type 0} {B : Type ℓ} → Result E (Unit {0}) → Result E B → Result E B
m >> k = m >>= λ _. k

pub bind-eq-ok {ℓ κ} :
    {E : Type 0} {A : Type ℓ} {B : Type κ} (m : Result E A) (f : A → Result E B) {b : B}
    → (m >>= f) ≡ ok b
    → (a : A) × (m ≡ ok a) × (f a ≡ ok b)
bind-eq-ok (ok a) f h = (a, refl, h)
bind-eq-ok (err e) f h = cc

-- `Q` holds of the result, or `R` of the error.
module _ {E A : Type 0} where
  pub data Post (R : E → Type 0) (Q : A → Type 0) : Result E A → Type 0 where
    done : {a : A} → Q a → Post R Q (ok a)
    stop : {e : E} → R e → Post R Q (err e)

  pub Post-weaken :
      {R : E → Type 0} {P Q : A → Type 0} {m : Result E A}
      → Post R P m
      → ((a : A) → P a → Q a)
      → Post R Q m
  Post-weaken (done {a} p) f = done (f a p)
  Post-weaken (stop e) f = stop e

  pub Post-if :
      {R : E → Type 0} {Q : A → Type 0} (b : Bool) (m n : Result E A)
      → (b ≡ true → Post R Q m)
      → (b ≡ false → Post R Q n)
      → Post R Q (if b then m else n)
  Post-if true m n f g = f refl
  Post-if false m n f g = g refl

  -- A result satisfies what is known of it, and is the result.
  pub Post-self :
      {R : E → Type 0} {Q : A → Type 0} (m : Result E A) → Post R Q m → Post R (λ a. m ≡ ok a) m
  Post-self _ (done q) = done refl
  Post-self _ (stop r) = stop r

  pub Post-ok : {R : E → Type 0} {Q : A → Type 0} (a : A) → Post R Q (ok a) → Q a
  Post-ok a (done p) = p

  pub Post-err : {R : E → Type 0} {Q : A → Type 0} (e : E) → Post R Q (err e) → R e
  Post-err e (stop p) = p

pub Post-bind :
    {E A B : Type 0} {R : E → Type 0} {P : A → Type 0} {Q : B → Type 0} {m : Result E A}
    (k : A → Result E B)
    → Post R P m
    → ((a : A) → P a → Post R Q (k a))
    → Post R Q (m >>= k)
Post-bind k (done {a} p) f = f a p
Post-bind k (stop e) f = stop e

pub Post-error :
    {E A : Type 0} {R S : E → Type 0} {Q : A → Type 0} {m : Result E A}
    → Post R Q m
    → ((e : E) → R e → S e)
    → Post S Q m
Post-error (done p) f = done p
Post-error (stop {e} r) f = stop (f e r)
