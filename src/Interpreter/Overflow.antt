-- ===== src/Interpreter/Overflow.antt =====
-- `evaluateArithmetic` against the arithmetic of the integers.
use Prim.Native.String.{String}
use crossa.Prelude.{
  Result, not, ◌||◌, ap, Bool, true, false, Bool-cases, inl, inr, Option, none, some, if◌then◌else◌,
  ok, Post, done, stop, ◌⊎◌, ◌≡◌, refl, arith,
}
use crossa.Interpreter.Int.{
  ℤ, pos, in_int64, ◌+ℤ◌, ◌-ℤ◌, ◌*ℤ◌, tdiv, neg_ℤ, eq_ℤ, Stop, add, subtract, multiply, divide,
  negate, checked,
}
use crossa.Interpreter.Arithmetic.{
  IrArithmeticOperator, add_op, subtract_op, multiply_op, divide_op, negate_op, evaluate_arithmetic,
  guarded, failure, logical_and, logical_or, not_op,
}
use crossa.Interpreter.Guards.{
  add_overflows_lem, subtract_overflows_lem, multiply_overflows_lem, divide_overflows_lem,
  negate_overflows_lem, times_zero,
}

-- The integer that an operator stands for, without bounds.
unfoldable pub exact : ℤ → IrArithmeticOperator → ℤ → Option ℤ
exact a add_op b = some (a +ℤ b)
exact a subtract_op b = some (a -ℤ b)
exact a multiply_op b = some (a *ℤ b)
exact a divide_op b = if eq_ℤ b (pos 0) then none else some (tdiv a b)
exact a negate_op b = some (neg_ℤ b)
exact a _ b = none

-- No `int64_t` is the answer.
abbrev pub HasNoInt64 : Option ℤ → Type 0
HasNoInt64 none = Unit {0}
HasNoInt64 (some z) = in_int64 z ≡ false

abbrev pub IsInt64 : Option ℤ → ℤ → Type 0
IsInt64 answer z = (answer ≡ some z) × (in_int64 z ≡ true)

-- The failure that each operator reports.
abbrev pub Reports : IrArithmeticOperator → Stop → Type 0
Reports add_op e = e ≡ failure "Integer addition overflow."
Reports subtract_op e = e ≡ failure "Integer subtraction overflow."
Reports multiply_op e = e ≡ failure "Integer multiplication overflow."
Reports divide_op e = (e ≡ failure "Division by zero.") ⊎ (e ≡ failure "Integer division overflow.")
Reports negate_op e = e ≡ failure "Integer negation overflow."
Reports logical_and e = e ≡ failure "Logical operation used as arithmetic."
Reports logical_or e = e ≡ failure "Logical operation used as arithmetic."
Reports not_op e = e ≡ failure "Logical negation used as arithmetic."
Reports _ e = e ≡ failure "Comparison operation used as arithmetic."

-- The result is the answer, or where no `int64_t` is the answer, a failure that `R` knows.
abbrev pub Implements : (Stop → Type 0) → Option ℤ → Result Stop ℤ → Type 0
Implements R answer = Post (λ e. R e × HasNoInt64 answer) (IsInt64 answer)

guarded_at :
    {R : Stop → Type 0} (z : ℤ) (test : Result Stop Bool) (message : String) (fits : Bool)
    → R (failure message)
    → in_int64 z ≡ fits
    → test ≡ ok (not fits)
    → Implements R (some z) (guarded test message (checked z))
guarded_at z test message true r fits h = rw (h, fits) (done (refl, fits))
guarded_at z test message false r out h = rw h (stop (r, out))

-- On two `int64_t` operands every operator ends, without an operation that C++ leaves undefined: with
-- the integer that it stands for, where this fits into `int64_t`, and with the failure of this operator
-- where it does not fit, where a divisor is zero, or where the operator is not arithmetic.
pub evaluate_arithmetic-Implements :
    (a : ℤ) (op : IrArithmeticOperator) (b : ℤ)
    → in_int64 a ≡ true
    → in_int64 b ≡ true
    → Implements (Reports op) (exact a op b) (evaluate_arithmetic a op b)
unfolding evaluate_arithmetic exact add subtract multiply divide negate
evaluate_arithmetic-Implements a add_op b ha hb =
    guarded_at (a +ℤ b) _ "Integer addition overflow." _ refl refl (add_overflows_lem a b ha hb)
evaluate_arithmetic-Implements a subtract_op b ha hb =
    guarded_at (a -ℤ b) _ "Integer subtraction overflow." _ refl refl
      (subtract_overflows_lem a b ha hb)
evaluate_arithmetic-Implements a multiply_op b ha hb =
    elim (Bool-cases (eq_ℤ a (pos 0) || eq_ℤ b (pos 0))) [
      | inl zero ↦ rw (zero, times_zero a b zero) (done (refl, ground arith))
      | inr ne ↦ rw ne (
          guarded_at (a *ℤ b) _ "Integer multiplication overflow." _ refl refl
            (multiply_overflows_lem a b ha hb ne))
    ]
evaluate_arithmetic-Implements a divide_op b ha hb = elim (Bool-cases (eq_ℤ b (pos 0))) [
  | inl zero ↦ rw zero (stop (inl refl, tt))
  | inr ne ↦ rw ne (
      guarded_at (tdiv a b) (ok _) "Integer division overflow." _ (inr refl) refl
        (ap ok (divide_overflows_lem a b ha ne)))
]
evaluate_arithmetic-Implements a negate_op b ha hb =
    guarded_at (neg_ℤ b) (ok _) "Integer negation overflow." _ refl refl
      (ap ok (negate_overflows_lem b hb))
evaluate_arithmetic-Implements a logical_and b ha hb = stop (refl, tt)
evaluate_arithmetic-Implements a logical_or b ha hb = stop (refl, tt)
evaluate_arithmetic-Implements a not_op b ha hb = stop (refl, tt)
evaluate_arithmetic-Implements a _ b ha hb = stop (refl, tt)
