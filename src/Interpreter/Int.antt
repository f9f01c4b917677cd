-- ===== src/Interpreter/Int.antt =====
-- Integers, and the operations of C++ on `int64_t`: the built-in operators, undefined where they overflow.
use crossa.Prelude.{
  ℕ, zero, suc, ◌+◌, ◌-◌, ◌*◌, ◌/◌, Bool, true, false, Bytes, ltb, leb, ◌==◌, if◌then◌else◌, Result,
  ok, err,
}

-- `negsuc n` is -(n + 1).
pub data ℤ : Type 0 where
  pos negsuc : ℕ → ℤ

abbrev pub nat_abs : ℤ → ℕ
nat_abs (pos n) = n
nat_abs (negsuc n) = suc n

abbrev sub_ℕ : ℕ → ℕ → ℤ
sub_ℕ a b = if leb b a then pos (a - b) else negsuc (b - a - 1)

abbrev pub neg_ℤ : ℤ → ℤ
neg_ℤ (pos zero) = pos zero
neg_ℤ (pos (suc n)) = negsuc n
neg_ℤ (negsuc n) = pos (suc n)

infixl 65 ◌+ℤ◌ ◌-ℤ◌
infixl 70 ◌*ℤ◌
unfoldable pub ◌+ℤ◌ : ℤ → ℤ → ℤ
pos m +ℤ pos n = pos (m + n)
pos m +ℤ negsuc n = sub_ℕ m (suc n)
negsuc m +ℤ pos n = sub_ℕ n (suc m)
negsuc m +ℤ negsuc n = negsuc (suc (m + n))

unfoldable pub ◌-ℤ◌ : ℤ → ℤ → ℤ
pos m -ℤ pos n = sub_ℕ m n
pos m -ℤ negsuc n = pos (m + suc n)
negsuc m -ℤ pos n = negsuc (m + n)
negsuc m -ℤ negsuc n = sub_ℕ n m

unfoldable pub ◌*ℤ◌ : ℤ → ℤ → ℤ
pos m *ℤ pos n = pos (m * n)
pos m *ℤ negsuc n = neg_ℤ (pos (m * suc n))
negsuc m *ℤ pos n = neg_ℤ (pos (suc m * n))
negsuc m *ℤ negsuc n = pos (suc m * suc n)

-- Division rounds towards zero.
unfoldable pub tdiv : ℤ → ℤ → ℤ
tdiv (pos m) (pos n) = pos (m / n)
tdiv (pos m) (negsuc n) = neg_ℤ (pos (m / suc n))
tdiv (negsuc m) (pos n) = neg_ℤ (pos (suc m / n))
tdiv (negsuc m) (negsuc n) = pos (suc m / suc n)

abbrev pub lt_ℤ : ℤ → ℤ → Bool
lt_ℤ (pos m) (pos n) = ltb m n
lt_ℤ (pos m) (negsuc n) = false
lt_ℤ (negsuc m) (pos n) = true
lt_ℤ (negsuc m) (negsuc n) = ltb n m

abbrev pub eq_ℤ : ℤ → ℤ → Bool
eq_ℤ (pos m) (pos n) = m == n
eq_ℤ (negsuc m) (negsuc n) = m == n
eq_ℤ _ _ = false

-- numeric_limits<int64_t>::max() and min()
unfoldable pub largest : ℕ
largest = 0x7FFFFFFFFFFFFFFF

abbrev pub maximum : ℤ
maximum = pos largest

abbrev pub minimum : ℤ
minimum = negsuc largest

abbrev pub in_int64 : ℤ → Bool
in_int64 (pos n) = leb n largest
in_int64 (negsuc n) = leb n largest

-- What ends an evaluation without a value: `fail`, a RuntimeValue read as another kind, or an
-- operation whose behaviour C++ leaves undefined.
pub data Stop : Type 0 where
  failed : Bytes → Stop
  wrong_kind : Bytes → Stop
  undefined : Stop

abbrev pub checked : ℤ → Result Stop ℤ
checked z = if in_int64 z then ok z else err undefined

unfoldable pub add : ℤ → ℤ → Result Stop ℤ
add a b = checked (a +ℤ b)

unfoldable pub subtract : ℤ → ℤ → Result Stop ℤ
subtract a b = checked (a -ℤ b)

unfoldable pub multiply : ℤ → ℤ → Result Stop ℤ
multiply a b = checked (a *ℤ b)

unfoldable pub divide : ℤ → ℤ → Result Stop ℤ
divide a b = if eq_ℤ b (pos 0) then err undefined else checked (tdiv a b)

unfoldable pub negate : ℤ → Result Stop ℤ
negate a = checked (neg_ℤ a)
