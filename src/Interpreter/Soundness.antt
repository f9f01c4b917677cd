-- ===== src/Interpreter/Soundness.antt =====
-- Operators that the analyzer types evaluate to values of their type.
use crossa.Prelude.{
  ◌⊎◌, inl, inr, Bool, true, false, Result, ok, ◌>>=◌, Post, Post-bind, Post-error, done, stop, ◌≡◌,
  refl, arith, subst,
}
use crossa.Syntax.{UnaryOperator, BinaryOperator}
use crossa.Interpreter.Int.{Stop}
use crossa.Interpreter.Arithmetic.{IrArithmeticOperator, negate_op, not_op}
use crossa.Interpreter.Overflow.{Reports}
use crossa.Interpreter.Values.{
  SemanticType, int, long, bool, Host, RuntimeValue, int_value, long_value, bool_value, get_int,
  get_long, get_double, get_bool,
}
use crossa.Interpreter.Typing.{
  type_unary, type_binary, lower_unary_operator, lower_binary_operator, is_numeric_type,
  type_arithmetic, type_comparison, type_logical,
}
use crossa.Interpreter.Inversion.{
  type_not_inv, type_negate_inv, type_logical_inv, type_comparison_inv, type_arithmetic_inv,
}
use crossa.Interpreter.Evaluate.{
  evaluate_unary, evaluate_binary, unary_arithmetic, binary_values, evaluate_double_arithmetic,
}
use crossa.Interpreter.Operands.{
  HasType, int_typed, long_typed, double_typed, bool_typed, Interrupts, IsArithmetic, adds,
  subtracts, multiplies, divides, IsComparison, equals, differs, is_less, is_at_most, is_greater,
  is_at_least, IsLogical, conjunction, disjunction, integers_lem, arithmetic_lem, comparison_lem,
}

module _ (H : Host) where
  -- an operator that evaluates both operands
  abbrev Strict :
      (Stop → Type 0)
      → IrArithmeticOperator
      → SemanticType
      → Result Stop (RuntimeValue H)
      → Result Stop (RuntimeValue H)
      → Type 0
  Strict E op u left right =
      Post (λ e. E e ⊎ Interrupts op e) (λ v. HasType v u)
        (left >>= λ (l : RuntimeValue H).
          right >>= λ (r : RuntimeValue H). binary_values H u op l r)

  strict_lem :
      {E : Stop → Type 0} {s t u : SemanticType} {left right : Result Stop (RuntimeValue H)}
      (op : IrArithmeticOperator)
      → Post E (λ v. HasType v s) left
      → Post E (λ v. HasType v t) right
      → ((l r : RuntimeValue H)
          → HasType l s
          → HasType r t
          → Post (Interrupts op) (λ v. HasType v u) (binary_values H u op l r))
      → Strict E op u left right
  strict_lem op p q k =
      Post-bind _ (Post-error p (λ _. inl))
        (λ l x. Post-bind _ (Post-error q (λ _. inl)) (λ r y. Post-error (k l r x y) (λ _. inr)))

  arithmetic_typed :
      {E : Stop → Type 0} {s t u : SemanticType} {left right : Result Stop (RuntimeValue H)}
      {op : IrArithmeticOperator}
      → IsArithmetic op
      → type_arithmetic s t ≡ ok u
      → Post E (λ v. HasType v s) left
      → Post E (λ v. HasType v t) right
      → Strict E op u left right
  arithmetic_typed {s} {t} {u} {op} a h p q =
      let (same, numeric, result) = type_arithmetic_inv s t h in
      strict_lem op p q (λ l r x y. rw result (arithmetic_lem H a numeric x (rw same y)))

  comparison_typed :
      {E : Stop → Type 0} {s t u : SemanticType} {left right : Result Stop (RuntimeValue H)}
      {op : IrArithmeticOperator} {equality : Bool}
      → IsComparison equality op
      → type_comparison equality s t ≡ ok u
      → Post E (λ v. HasType v s) left
      → Post E (λ v. HasType v t) right
      → Strict E op u left right
  comparison_typed {s} {t} {u} {op} {equality} c h p q =
      let (same, comparable, result) = type_comparison_inv equality s t h in
      strict_lem op p q (λ l r x y.
        rw result (Post-error (comparison_lem H c comparable x (rw same y)) (λ e a. absurd a)))

  second_lem :
      {E : Stop → Type 0} {right : Result Stop (RuntimeValue H)}
      (k : RuntimeValue H → Result Stop (RuntimeValue H))
      → Post E (λ v. HasType v bool) right
      → ((b : Bool) → k (bool_value b) ≡ ok (bool_value b))
      → Post (λ e. E e ⊎ ⊥) (λ v. HasType v bool) (right >>= k)
  second_lem k (done (bool_typed {b})) h = rw (h b) (done bool_typed)
  second_lem k (stop e) h = stop (inl e)

  logical_lem :
      {E : Stop → Type 0} {left right : Result Stop (RuntimeValue H)} {op : IrArithmeticOperator}
      → IsLogical op
      → Post E (λ v. HasType v bool) left
      → Post E (λ v. HasType v bool) right
      → Post (λ e. E e ⊎ ⊥) (λ v. HasType v bool) (evaluate_binary H bool op left right)
  unfolding evaluate_binary binary_values get_bool
  logical_lem conjunction (done (bool_typed {b = true})) q = second_lem _ q (λ b. refl)
  logical_lem conjunction (done (bool_typed {b = false})) q = done bool_typed
  logical_lem conjunction (stop e) q = stop (inl e)
  logical_lem disjunction (done (bool_typed {b = true})) q = done bool_typed
  logical_lem disjunction (done (bool_typed {b = false})) q = second_lem _ q (λ b. refl)
  logical_lem disjunction (stop e) q = stop (inl e)

  logical_typed :
      {E : Stop → Type 0} {s t u : SemanticType} {left right : Result Stop (RuntimeValue H)}
      {op : IrArithmeticOperator}
      → IsLogical op
      → type_logical s t ≡ ok u
      → Post E (λ v. HasType v s) left
      → Post E (λ v. HasType v t) right
      → Post (λ e. E e ⊎ ⊥) (λ v. HasType v u) (evaluate_binary H u op left right)
  logical_typed {E} {s} {t} {u} {left} {right} a h p q =
      let (first, second, result) = type_logical_inv s t h in
      rw result (
        logical_lem a (subst (λ x. Post E (λ v. HasType v x) left) first p)
          (subst (λ x. Post E (λ v. HasType v x) right) second q))

  -- If the analyzer gives the type `u` to a binary operator on operands of the types `s` and `t`, and
  -- each operand ends with a value of its type or with an error in `E`, then the interpreter ends on the
  -- lowered operator with a value of the type `u`, with an error in `E`, or with an overflow or a division
  -- by zero of this operator: it never reads a value as another kind and never meets an operator or a
  -- comparison that it does not support.
  pub evaluate_binary-HasType :
      {E : Stop → Type 0} {s t u : SemanticType} {left right : Result Stop (RuntimeValue H)}
      (op : BinaryOperator)
      → type_binary op s t ≡ ok u
      → Post E (λ v. HasType v s) left
      → Post E (λ v. HasType v t) right
      → Post
          (λ e. E e ⊎ Interrupts (lower_binary_operator op) e)
          (λ v. HasType v u)
          (evaluate_binary H u (lower_binary_operator op) left right)
  unfolding type_binary lower_binary_operator evaluate_binary
  evaluate_binary-HasType BinaryOperator.logical_and h p q = logical_typed conjunction h p q
  evaluate_binary-HasType BinaryOperator.logical_or h p q = logical_typed disjunction h p q
  evaluate_binary-HasType BinaryOperator.equal h p q = comparison_typed equals h p q
  evaluate_binary-HasType BinaryOperator.not_equal h p q = comparison_typed differs h p q
  evaluate_binary-HasType BinaryOperator.less h p q = comparison_typed is_less h p q
  evaluate_binary-HasType BinaryOperator.less_equal h p q = comparison_typed is_at_most h p q
  evaluate_binary-HasType BinaryOperator.greater h p q = comparison_typed is_greater h p q
  evaluate_binary-HasType BinaryOperator.greater_equal h p q = comparison_typed is_at_least h p q
  evaluate_binary-HasType BinaryOperator.add h p q = arithmetic_typed adds h p q
  evaluate_binary-HasType BinaryOperator.subtract h p q = arithmetic_typed subtracts h p q
  evaluate_binary-HasType BinaryOperator.multiply h p q = arithmetic_typed multiplies h p q
  evaluate_binary-HasType BinaryOperator.divide h p q = arithmetic_typed divides h p q

  not_lem :
      {E : Stop → Type 0} {operand : Result Stop (RuntimeValue H)} (u : SemanticType)
      → Post E (λ v. HasType v bool) operand
      → Post (λ e. E e ⊎ ⊥) (λ v. HasType v bool) (evaluate_unary H u not_op operand)
  unfolding evaluate_unary get_bool
  not_lem u (done bool_typed) = done bool_typed
  not_lem u (stop e) = stop (inl e)

  negate_lem :
      {v : RuntimeValue H} {t : SemanticType}
      → is_numeric_type t ≡ true
      → HasType v t
      → Post (Reports negate_op) (λ v. HasType v t) (unary_arithmetic H t negate_op v)
  unfolding unary_arithmetic get_int get_long get_double evaluate_double_arithmetic
  negate_lem h (int_typed x) =
      integers_lem H _ _ _ int_value int (ground arith) x (λ e r. r) (λ z. int_typed)
  negate_lem h (long_typed x) =
      integers_lem H _ _ _ long_value long (ground arith) x (λ e r. r) (λ z. long_typed)
  negate_lem h double_typed = done double_typed
  negate_lem h _ = absurd cc

  -- If the analyzer gives the type `u` to a unary operator on an operand of the type `t`, and the operand
  -- ends with a value of its type or with an error in `E`, then the interpreter ends on the lowered
  -- operator with a value of the type `u`, with an error in `E`, or with the overflow of a negation.
  pub evaluate_unary-HasType :
      {E : Stop → Type 0} {t u : SemanticType} {operand : Result Stop (RuntimeValue H)}
      (op : UnaryOperator)
      → type_unary op t ≡ ok u
      → Post E (λ v. HasType v t) operand
      → Post
          (λ e. E e ⊎ Interrupts (lower_unary_operator op) e)
          (λ v. HasType v u)
          (evaluate_unary H u (lower_unary_operator op) operand)
  unfolding lower_unary_operator evaluate_unary
  evaluate_unary-HasType {E} {t} {u} {operand} UnaryOperator.not h p =
      let (argument, result) = type_not_inv t h in
      rw result (not_lem bool (subst (λ x. Post E (λ v. HasType v x) operand) argument p))
  evaluate_unary-HasType {t} UnaryOperator.negate h p =
      let (numeric, result) = type_negate_inv t h in
      rw result (
        Post-bind _ (Post-error p (λ _. inl)) (λ v x. Post-error (negate_lem numeric x) (λ _. inr)))
