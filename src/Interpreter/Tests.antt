-- ===== src/Interpreter/Tests.antt =====
-- Runs of the operators, and the theorems of this part at concrete operands.
use crossa.Prelude.{◌+◌, ◌-◌, ◌*◌, ◌/◌, ℕ, ltb, ◌==◌, ok, ◌≡◌, ◌⊎◌, refl, Post, done}
use crossa.Syntax.{UnaryOperator, BinaryOperator}
use crossa.Interpreter.Int.{
  pos, negsuc, largest, maximum, minimum, Stop, subtract, divide, ◌-ℤ◌, tdiv,
}
use crossa.Interpreter.Arithmetic.{
  evaluate_arithmetic, add_op, multiply_op, divide_op, fail, add_overflows, multiply_overflows,
}
use crossa.Interpreter.Overflow.{Implements, Reports, exact, evaluate_arithmetic-Implements}
use crossa.Interpreter.Values.{Host, RuntimeValue, type_eq, int, long, bool, int_value, long_value}
use crossa.Interpreter.Typing.{type_unary, type_binary, lower_unary_operator, lower_binary_operator}
use crossa.Interpreter.Evaluate.{evaluate_unary, evaluate_binary}
use crossa.Interpreter.Operands.{HasType, int_typed, long_typed, Interrupts}
use crossa.Interpreter.Soundness.{evaluate_binary-HasType, evaluate_unary-HasType}

-- Division rounds towards zero.
quotient_test : evaluate_arithmetic (pos 7) divide_op (negsuc 1) ≡ ok (negsuc 2)
unfolding evaluate_arithmetic divide tdiv largest
quotient_test = refl

sum_test : evaluate_arithmetic maximum add_op (pos 1) ≡ fail "Integer addition overflow."
unfolding evaluate_arithmetic add_overflows subtract ◌-ℤ◌ largest
sum_test = refl

product_test :
    evaluate_arithmetic (negsuc 3037000499) multiply_op (pos 3037000500)
    ≡ fail "Integer multiplication overflow."
unfolding evaluate_arithmetic multiply_overflows divide tdiv largest
product_test = refl

evaluate_arithmetic-Implements_example :
    Implements
      (Reports multiply_op)
      (exact minimum multiply_op (negsuc 0))
      (evaluate_arithmetic minimum multiply_op (negsuc 0))
unfolding largest
evaluate_arithmetic-Implements_example =
    evaluate_arithmetic-Implements minimum multiply_op (negsuc 0) refl refl

-- numbers in place of `double`
abbrev host : Host
host = record {
  Double = ℕ;
  NativeModel = Unit {0};
  NativeList = Unit {0};
  zero_double = 0;
  plus = λ a b. a + b;
  minus = λ a b. a - b;
  times = λ a b. a * b;
  over = λ a b. a / b;
  negative = λ a. a;
  equals = λ a b. a == b;
  less_than = λ a b. ltb a b;
}

abbrev Nothing : Stop → Type 0
Nothing e = ⊥

evaluate_binary-HasType_example :
    Post
      (λ e. Nothing e ⊎ Interrupts (lower_binary_operator BinaryOperator.less) e)
      (λ (v : RuntimeValue host). HasType v bool)
      (evaluate_binary host bool
        (lower_binary_operator BinaryOperator.less)
        (ok (int_value (pos 3)))
        (ok (int_value (negsuc 4))))
unfolding type_binary type_eq largest
evaluate_binary-HasType_example =
    evaluate_binary-HasType host {E = Nothing} {s = int} {t = int} BinaryOperator.less refl
      (done (int_typed refl)) (done (int_typed refl))

evaluate_unary-HasType_example :
    Post
      (λ e. Nothing e ⊎ Interrupts (lower_unary_operator UnaryOperator.negate) e)
      (λ (v : RuntimeValue host). HasType v long)
      (evaluate_unary host long
        (lower_unary_operator UnaryOperator.negate)
        (ok (long_value minimum)))
unfolding type_unary largest
evaluate_unary-HasType_example =
    evaluate_unary-HasType host {E = Nothing} {t = long} UnaryOperator.negate refl
      (done (long_typed refl))
