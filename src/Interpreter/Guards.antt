-- ===== src/Interpreter/Guards.antt =====
-- The guards of `evaluateArithmetic` stop exactly the operations that overflow.
use native.Mathlib.Nat.{le-div_iff_mul-le, div-le_self, div-lt_self, mul_comm}
use crossa.Prelude.{ℕ, zero, suc, ◌/◌, ◌*◌, ltb, leb, ◌&&◌, ◌||◌, false, true, not, ok, ◌≡◌, arith}
use crossa.Interpreter.Int.{
  ℤ, pos, negsuc, in_int64, ◌+ℤ◌, ◌-ℤ◌, ◌*ℤ◌, tdiv, neg_ℤ, add, subtract, divide, maximum, minimum,
  largest, lt_ℤ, eq_ℤ,
}
use crossa.Interpreter.Arithmetic.{add_overflows, subtract_overflows, multiply_overflows}

module _ (a b : ℤ) (ha : in_int64 a ≡ true) (hb : in_int64 b ≡ true) where
  pub add_overflows_lem : add_overflows a b ≡ ok (not (in_int64 (a +ℤ b)))
  unfolding add_overflows subtract ◌+ℤ◌ ◌-ℤ◌
  add_overflows_lem = ground arith

  pub subtract_overflows_lem : subtract_overflows a b ≡ ok (not (in_int64 (a -ℤ b)))
  unfolding subtract_overflows add ◌+ℤ◌ ◌-ℤ◌
  subtract_overflows_lem = ground arith

-- a quotient as a bound
div_bound : (x y k : ℕ) → ltb (y / suc k) x ≡ not (leb (x * suc k) y)
div_bound x y k = ground (arith, le-div_iff_mul-le {k = suc k} {x = x} {y = y})

neg_below : (n q : ℕ) → lt_ℤ (negsuc n) (neg_ℤ (pos q)) ≡ ltb q (suc n)
neg_below n zero = ground arith
neg_below n (suc q) = ground arith

neg_in_int64 : (p : ℕ) → in_int64 (neg_ℤ (pos p)) ≡ leb p (suc largest)
neg_in_int64 zero = ground arith
neg_in_int64 (suc p) = ground arith

divide-maximum : (k : ℕ) → divide maximum (pos (suc k)) ≡ ok (pos (largest / suc k))
unfolding divide tdiv
divide-maximum k = ground (arith, div-le_self largest (suc k))

divide-minimum : (k : ℕ) → divide minimum (pos (suc k)) ≡ ok (neg_ℤ (pos (suc largest / suc k)))
unfolding divide tdiv
divide-minimum k =
    ground (arith, neg_in_int64 (suc largest / suc k), div-le_self (suc largest) (suc k))

divide-maximum_neg : (k : ℕ) → divide maximum (negsuc k) ≡ ok (neg_ℤ (pos (largest / suc k)))
unfolding divide tdiv
divide-maximum_neg k = ground (arith, neg_in_int64 (largest / suc k), div-le_self largest (suc k))

pub multiply_overflows_lem :
    (a b : ℤ)
    → in_int64 a ≡ true
    → in_int64 b ≡ true
    → (eq_ℤ a (pos 0) || eq_ℤ b (pos 0)) ≡ false
    → multiply_overflows a b ≡ ok (not (in_int64 (a *ℤ b)))
unfolding multiply_overflows ◌*ℤ◌
multiply_overflows_lem (pos zero) b ha hb h = ground arith
multiply_overflows_lem (pos (suc m)) (pos zero) ha hb h = ground arith
multiply_overflows_lem (pos (suc m)) (pos (suc n)) ha hb h =
    ground (arith, divide-maximum n, div_bound (suc m) largest n)
multiply_overflows_lem (pos (suc m)) (negsuc n) ha hb h = ground (
  arith,
  divide-minimum m,
  neg_below n (suc largest / suc m),
  neg_in_int64 (suc m * suc n),
  div_bound (suc n) (suc largest) m,
  mul_comm (suc m) (suc n),
)
multiply_overflows_lem (negsuc m) (pos zero) ha hb h = ground arith
multiply_overflows_lem (negsuc m) (pos (suc n)) ha hb h = ground (
  arith,
  divide-minimum n,
  neg_below m (suc largest / suc n),
  neg_in_int64 (suc m * suc n),
  div_bound (suc m) (suc largest) n,
)
multiply_overflows_lem (negsuc m) (negsuc n) ha hb h =
    ground (arith, divide-maximum_neg n, neg_below m (largest / suc n), div_bound (suc m) largest n)

pub divide_overflows_lem :
    (a b : ℤ)
    → in_int64 a ≡ true
    → eq_ℤ b (pos 0) ≡ false
    → (eq_ℤ a minimum && eq_ℤ b (negsuc 0)) ≡ not (in_int64 (tdiv a b))
unfolding tdiv
divide_overflows_lem (pos m) (pos n) h ne = ground (arith, div-le_self m n)
divide_overflows_lem (pos m) (negsuc n) h ne =
    ground (arith, neg_in_int64 (m / suc n), div-le_self m (suc n))
divide_overflows_lem (negsuc m) (pos n) h ne =
    ground (arith, neg_in_int64 (suc m / n), div-le_self (suc m) n)
divide_overflows_lem (negsuc m) (negsuc zero) h ne = ground arith
divide_overflows_lem (negsuc m) (negsuc (suc n)) h ne =
    ground (arith, div-lt_self {n = suc m} {k = suc (suc n)})

pub negate_overflows_lem : (b : ℤ) → in_int64 b ≡ true → eq_ℤ b minimum ≡ not (in_int64 (neg_ℤ b))
negate_overflows_lem (pos zero) h = ground arith
negate_overflows_lem (pos (suc n)) h = ground arith
negate_overflows_lem (negsuc n) h = ground arith

pub times_zero : (a b : ℤ) → (eq_ℤ a (pos 0) || eq_ℤ b (pos 0)) ≡ true → a *ℤ b ≡ pos 0
unfolding ◌*ℤ◌
times_zero a b h = ground arith
