-- ===== src/Interpreter/Evaluate.antt =====
-- The operators of `evaluate`, `evaluateDoubleArithmetic` and `evaluateComparison` of
-- src/runtime/IrInterpreter.cpp. An operand is what its own evaluation ends with.
use crossa.Prelude.{Bool, true, false, not, ◌&&◌, ◌||◌, bytes_eq, if◌then◌else◌, Result, ok, ◌>>=◌}
use crossa.Interpreter.Int.{ℤ, pos, lt_ℤ, eq_ℤ, Stop}
use crossa.Interpreter.Arithmetic.{
  IrArithmeticOperator, add_op, subtract_op, multiply_op, divide_op, negate_op, equal, not_equal,
  less, less_equal, greater, greater_equal, logical_and, logical_or, not_op, fail,
  evaluate_arithmetic,
}
use crossa.Interpreter.Values.{
  SemanticType, long, double, bool, Host, RuntimeValue, int_value, long_value, double_value,
  string_value, bool_value, get_int, get_long, get_double, get_string, get_bool,
}

-- the last switch of evaluateComparison
abbrev ordered : IrArithmeticOperator → Bool → Bool → Result Stop Bool
ordered less l e = ok l
ordered less_equal l e = ok (l || e)
ordered greater l e = ok (not l && not e)
ordered greater_equal l e = ok (not l)
ordered _ l e = fail "Unknown IR comparison operation."

module _ (H : Host) where
  abbrev Value : Type 0
  Value = RuntimeValue H

  unfoldable pub evaluate_double_arithmetic :
      H.Double → IrArithmeticOperator → H.Double → Result Stop H.Double
  evaluate_double_arithmetic left add_op right = ok (H.plus left right)
  evaluate_double_arithmetic left subtract_op right = ok (H.minus left right)
  evaluate_double_arithmetic left multiply_op right = ok (H.times left right)
  evaluate_double_arithmetic left divide_op right =
      if H.equals right H.zero_double then fail "Division by zero." else ok (H.over left right)
  evaluate_double_arithmetic left negate_op right = ok (H.negative right)
  evaluate_double_arithmetic left logical_and right = fail "Logical operation used as arithmetic."
  evaluate_double_arithmetic left logical_or right = fail "Logical operation used as arithmetic."
  evaluate_double_arithmetic left not_op right = fail "Logical negation used as arithmetic."
  evaluate_double_arithmetic left _ right = fail "Comparison operation used as arithmetic."

  -- the value of `equal` in evaluateComparison
  unfoldable pub values_equal : Value → Value → Result Stop Bool
  values_equal (int_value a) right = get_int right >>= λ (b : ℤ). ok (eq_ℤ a b)
  values_equal (long_value a) right = get_long right >>= λ (b : ℤ). ok (eq_ℤ a b)
  values_equal (double_value a) right = get_double right >>= λ (b : H.Double). ok (H.equals a b)
  values_equal (string_value a) right = get_string right >>= λ b. ok (bytes_eq a b)
  values_equal (bool_value a) right = get_bool right >>= λ (b : Bool). ok (if a then b else not b)
  values_equal _ right = fail "Unsupported comparison value."

  -- the value of `less`
  unfoldable pub values_less : Value → Value → Result Stop Bool
  values_less (double_value a) right = get_double right >>= λ (b : H.Double). ok (H.less_than a b)
  values_less (long_value a) right = get_long right >>= λ (b : ℤ). ok (lt_ℤ a b)
  values_less left right = get_int left >>= λ (a : ℤ). get_int right >>= λ (b : ℤ). ok (lt_ℤ a b)

  abbrev compared : IrArithmeticOperator → Value → Value → Bool → Result Stop Bool
  compared equal left right e = ok e
  compared not_equal left right e = ok (not e)
  compared op left right e = values_less left right >>= λ (l : Bool). ordered op l e

  unfoldable pub evaluate_comparison : Value → IrArithmeticOperator → Value → Result Stop Bool
  evaluate_comparison left op right =
      values_equal left right >>= λ (e : Bool). compared op left right e

  -- value.getKind() == RuntimeValueKind::Long ? value.getLong() : value.getInt()
  abbrev integer_of : Value → Result Stop ℤ
  integer_of (long_value z) = ok z
  integer_of v = get_int v

  abbrev integer_value : SemanticType → ℤ → Value
  integer_value long z = long_value z
  integer_value _ z = int_value z

  unfoldable pub unary_arithmetic : SemanticType → IrArithmeticOperator → Value → Result Stop Value
  unary_arithmetic double op v = get_double v >>= λ (x : H.Double).
      evaluate_double_arithmetic H.zero_double op x >>= λ (y : H.Double). ok (double_value y)
  unary_arithmetic t op v = integer_of v >>= λ (z : ℤ).
      evaluate_arithmetic (pos 0) op z >>= λ (y : ℤ). ok (integer_value t y)

  unfoldable pub evaluate_unary :
      SemanticType → IrArithmeticOperator → Result Stop Value → Result Stop Value
  evaluate_unary t not_op operand =
      operand >>= λ (v : Value). get_bool v >>= λ (b : Bool). ok (bool_value (not b))
  evaluate_unary t op operand = operand >>= λ (v : Value). unary_arithmetic t op v

  -- an operator on two values, whose expression has the type `t`
  unfoldable pub binary_values :
      SemanticType → IrArithmeticOperator → Value → Value → Result Stop Value
  binary_values bool logical_and left right = get_bool right >>= λ (b : Bool). ok (bool_value b)
  binary_values bool logical_or left right = get_bool right >>= λ (b : Bool). ok (bool_value b)
  binary_values bool op left right =
      evaluate_comparison left op right >>= λ (b : Bool). ok (bool_value b)
  binary_values double op left right = get_double left >>= λ (x : H.Double).
      get_double right >>= λ (y : H.Double).
      evaluate_double_arithmetic x op y >>= λ (z : H.Double). ok (double_value z)
  binary_values t op left right = integer_of left >>= λ (x : ℤ). integer_of right >>= λ (y : ℤ).
      evaluate_arithmetic x op y >>= λ (z : ℤ). ok (integer_value t z)

  unfoldable pub evaluate_binary :
      SemanticType
      → IrArithmeticOperator
      → Result Stop Value
      → Result Stop Value
      → Result Stop Value
  evaluate_binary t logical_and left right = left >>= λ (l : Value). get_bool l >>= λ (b : Bool).
      if not b
      then ok (bool_value false)
      else right >>= λ (r : Value). binary_values t logical_and l r
  evaluate_binary t logical_or left right = left >>= λ (l : Value). get_bool l >>= λ (b : Bool).
      if b then ok (bool_value true) else right >>= λ (r : Value). binary_values t logical_or l r
  evaluate_binary t op left right =
      left >>= λ (l : Value). right >>= λ (r : Value). binary_values t op l r
