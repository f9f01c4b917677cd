-- ===== src/Interpreter/Arithmetic.antt =====
-- `evaluateArithmetic` of src/runtime/IrInterpreter.cpp, and the operators of compiler/ir/IrExpression.h.
use Prim.Native.String.{String}
use crossa.Prelude.{
  ◌++◌, Bool, true, false, ◌&&◌, ◌||◌, codes, if◌then◌else◌, Result, ok, err, ◌>>=◌,
}
use crossa.Interpreter.Int.{
  ℤ, pos, negsuc, lt_ℤ, eq_ℤ, maximum, minimum, Stop, failed, add, subtract, multiply, divide,
  negate,
}

pub data IrArithmeticOperator : Type 0 where
  add_op subtract_op multiply_op divide_op negate_op : IrArithmeticOperator
  equal not_equal less less_equal greater greater_equal : IrArithmeticOperator
  logical_and logical_or not_op : IrArithmeticOperator

-- fail
abbrev pub failure : String → Stop
failure message = failed (codes "Native IR execution failed: " ++ codes message)

abbrev pub fail {ℓ} : {A : Type ℓ} → String → Result Stop A
fail message = err (failure message)

-- a test whose right side is evaluated only where the left side leaves the answer open
infixr 30 ◌&&?◌
infixr 20 ◌||?◌
abbrev pub ◌&&?◌ : Bool → Result Stop Bool → Result Stop Bool
a &&? b = if a then b else ok false

abbrev pub ◌||?◌ : Result Stop Bool → Result Stop Bool → Result Stop Bool
a ||? b = a >>= λ (x : Bool). if x then ok true else b

-- left > maximum - right, and the like
abbrev pub exceeds : ℤ → Result Stop ℤ → Result Stop Bool
exceeds a limit = limit >>= λ (l : ℤ). ok (lt_ℤ l a)

abbrev pub below : ℤ → Result Stop ℤ → Result Stop Bool
below a limit = limit >>= λ (l : ℤ). ok (lt_ℤ a l)

unfoldable pub add_overflows : ℤ → ℤ → Result Stop Bool
add_overflows left right =
    (lt_ℤ (pos 0) right &&? exceeds left (subtract maximum right))
    ||? (lt_ℤ right (pos 0) &&? below left (subtract minimum right))

unfoldable pub subtract_overflows : ℤ → ℤ → Result Stop Bool
subtract_overflows left right =
    (lt_ℤ right (pos 0) &&? exceeds left (add maximum right))
    ||? (lt_ℤ (pos 0) right &&? below left (add minimum right))

unfoldable pub multiply_overflows : ℤ → ℤ → Result Stop Bool
multiply_overflows left right =
    ok
      ((eq_ℤ left (negsuc 0) && eq_ℤ right minimum) || (eq_ℤ right (negsuc 0) && eq_ℤ left minimum))
    ||? (if lt_ℤ (pos 0) left
        then (lt_ℤ (pos 0) right &&? exceeds left (divide maximum right))
          ||? (lt_ℤ right (pos 0) &&? below right (divide minimum left))
        else (lt_ℤ (pos 0) right &&? below left (divide minimum right))
          ||? (lt_ℤ right (pos 0) &&? below left (divide maximum right)))

-- if (test) { fail(message); } rest
abbrev pub guarded : Result Stop Bool → String → Result Stop ℤ → Result Stop ℤ
guarded test message rest = test >>= λ (x : Bool). if x then fail message else rest

unfoldable pub evaluate_arithmetic : ℤ → IrArithmeticOperator → ℤ → Result Stop ℤ
evaluate_arithmetic left add_op right =
    guarded (add_overflows left right) "Integer addition overflow." (add left right)
evaluate_arithmetic left subtract_op right =
    guarded (subtract_overflows left right) "Integer subtraction overflow." (subtract left right)
evaluate_arithmetic left multiply_op right =
    if eq_ℤ left (pos 0) || eq_ℤ right (pos 0)
    then ok (pos 0)
    else guarded (multiply_overflows left right) "Integer multiplication overflow."
        (multiply left right)
evaluate_arithmetic left divide_op right = guarded (ok (eq_ℤ right (pos 0))) "Division by zero." (
    guarded (ok (eq_ℤ left minimum && eq_ℤ right (negsuc 0))) "Integer division overflow."
      (divide left right))
evaluate_arithmetic left negate_op right =
    guarded (ok (eq_ℤ right minimum)) "Integer negation overflow." (negate right)
evaluate_arithmetic left logical_and right = fail "Logical operation used as arithmetic."
evaluate_arithmetic left logical_or right = fail "Logical operation used as arithmetic."
evaluate_arithmetic left not_op right = fail "Logical negation used as arithmetic."
evaluate_arithmetic left _ right = fail "Comparison operation used as arithmetic."
