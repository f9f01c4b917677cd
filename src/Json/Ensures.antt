-- ===== src/Json/Ensures.antt =====
-- Postconditions of parsing steps: what holds of a result, and that the recursion had fuel enough.
pub use crossa.Prelude.{
  done, stop, Post-weaken as Ensures-weaken, Post-if as Ensures-if, Post-ok as Ensures-ok,
  Post-bind as Ensures-bind,
}
use crossa.Prelude.{Result, err, ◌≢◌, Post, Post-err, refl}
use crossa.Json.Cursor.{JsonError, out_of_fuel}

abbrev pub Ensures : {A : Type 0} → (A → Type 0) → Result JsonError A → Type 0
Ensures Q = Post (λ e. e ≢ out_of_fuel) Q

pub Ensures-fuel :
    {A : Type 0} {Q : A → Type 0} (m : Result JsonError A) → Ensures Q m → m ≢ err out_of_fuel
Ensures-fuel m p h = Post-err out_of_fuel (rw h at p) refl
