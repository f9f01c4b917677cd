-- ===== src/Interpreter/Operands.antt =====
-- The operators of the interpreter on values of the types that the analyzer demands.
use crossa.Prelude.{
  inl, Bool, true, false, if◌then◌else◌, not, ◌&&◌, ◌||◌, Result, ok, ◌>>=◌, Post, Post-bind,
  Post-error, done, stop, ◌≡◌, refl,
}
use crossa.Interpreter.Int.{ℤ, in_int64, Stop}
use crossa.Interpreter.Arithmetic.{
  IrArithmeticOperator, add_op, subtract_op, multiply_op, divide_op, negate_op, evaluate_arithmetic,
  fail, equal, not_equal, less, less_equal, greater, greater_equal, logical_and, logical_or,
}
use crossa.Interpreter.Overflow.{Reports, evaluate_arithmetic-Implements}
use crossa.Interpreter.Values.{
  SemanticType, unit, int, long, double, string, bool, json, model, list, Host, RuntimeValue,
  unit_value, int_value, long_value, double_value, string_value, bool_value, json_value,
  model_value, list_value, get_int, get_long, get_double, get_bool, get_string,
}
use crossa.Interpreter.Typing.{is_numeric_type}
use crossa.Interpreter.Inversion.{is_scalar, is_comparable, numeric→scalar}
use crossa.Interpreter.Evaluate.{
  binary_values, evaluate_double_arithmetic, evaluate_comparison, values_equal, values_less,
}

-- A value of a type; what a model or a list holds is left open.
pub data HasType {H : Host} : RuntimeValue H → SemanticType → Type 0 where
  unit_typed : HasType unit_value unit
  int_typed : {z : ℤ} → in_int64 z ≡ true → HasType (int_value z) int
  long_typed : {z : ℤ} → in_int64 z ≡ true → HasType (long_value z) long
  double_typed : {x : H.Double} → HasType (double_value x) double
  string_typed : {s : _} → HasType (string_value s) string
  bool_typed : {b : Bool} → HasType (bool_value b) bool
  json_typed : {j : _} → HasType (json_value j) json
  model_typed : {m : _} {n : _} → HasType (model_value m) (model n)
  list_typed : {l : _} {t : SemanticType} → HasType (list_value l) (list t)

-- What may end the evaluation of a typed operator.
abbrev pub Interrupts : IrArithmeticOperator → Stop → Type 0
Interrupts add_op = Reports add_op
Interrupts subtract_op = Reports subtract_op
Interrupts multiply_op = Reports multiply_op
Interrupts divide_op = Reports divide_op
Interrupts negate_op = Reports negate_op
Interrupts _ = λ _. ⊥

-- the operators of `type_arithmetic`
pub data IsArithmetic : IrArithmeticOperator → Type 0 where
  adds : IsArithmetic add_op
  subtracts : IsArithmetic subtract_op
  multiplies : IsArithmetic multiply_op
  divides : IsArithmetic divide_op

-- the operators of `type_comparison`
pub data IsComparison : Bool → IrArithmeticOperator → Type 0 where
  equals : IsComparison true equal
  differs : IsComparison true not_equal
  is_less : IsComparison false less
  is_at_most : IsComparison false less_equal
  is_greater : IsComparison false greater
  is_at_least : IsComparison false greater_equal

-- the operators of `type_logical`
pub data IsLogical : IrArithmeticOperator → Type 0 where
  conjunction : IsLogical logical_and
  disjunction : IsLogical logical_or

bind_bool :
    {H : Host} {m : Result Stop Bool}
    → Post (λ _. ⊥) (λ _. Unit {0}) m
    → Post (λ _. ⊥) (λ (v : RuntimeValue H). HasType v bool) (m >>= λ (b : Bool). ok (bool_value b))
bind_bool p = Post-bind _ p (λ b _. done bool_typed)

reported :
    {op : IrArithmeticOperator} → IsArithmetic op → (e : Stop) → Reports op e → Interrupts op e
reported adds e r = r
reported subtracts e r = r
reported multiplies e r = r
reported divides e r = r

module _ (H : Host) where
  pub integers_lem :
      {R : Stop → Type 0} (op : IrArithmeticOperator) (x y : ℤ) (f : ℤ → RuntimeValue H)
      (t : SemanticType)
      → in_int64 x ≡ true
      → in_int64 y ≡ true
      → ((e : Stop) → Reports op e → R e)
      → ((z : ℤ) → in_int64 z ≡ true → HasType (f z) t)
      → Post R (λ v. HasType v t) (evaluate_arithmetic x op y >>= λ (z : ℤ). ok (f z))
  integers_lem op x y f t hx hy r h =
      Post-bind (λ (z : ℤ). ok (f z))
        (Post-error (evaluate_arithmetic-Implements x op y hx hy) (λ e p. r e p.0))
        (λ z p. done (h z p.1))

  quotient_lem :
      (b : Bool) (q : H.Double)
      → Post
          (Reports divide_op)
          (λ v. HasType {H = H} v double)
          ((if b then fail "Division by zero." else ok q) >>= λ (z : H.Double). ok (double_value z))
  quotient_lem true q = stop (inl refl)
  quotient_lem false q = done double_typed

  pub arithmetic_lem :
      {op : IrArithmeticOperator} {l r : RuntimeValue H} {t : SemanticType}
      → IsArithmetic op
      → is_numeric_type t ≡ true
      → HasType l t
      → HasType r t
      → Post (Interrupts op) (λ v. HasType v t) (binary_values H t op l r)
  unfolding binary_values get_int get_long get_double evaluate_double_arithmetic
  arithmetic_lem a h (int_typed x) (int_typed y) =
      integers_lem _ _ _ int_value int x y (reported a) (λ z. int_typed)
  arithmetic_lem a h (long_typed x) (long_typed y) =
      integers_lem _ _ _ long_value long x y (reported a) (λ z. long_typed)
  arithmetic_lem adds h double_typed double_typed = done double_typed
  arithmetic_lem subtracts h double_typed double_typed = done double_typed
  arithmetic_lem multiplies h double_typed double_typed = done double_typed
  arithmetic_lem divides h (double_typed {x}) (double_typed {x = y}) = quotient_lem _ _
  arithmetic_lem _ h _ _ = absurd cc

  values_equal_lem :
      {l r : RuntimeValue H} {t : SemanticType}
      → is_scalar t ≡ true
      → HasType l t
      → HasType r t
      → Post (λ _. ⊥) (λ _. Unit {0}) (values_equal H l r)
  unfolding values_equal get_int get_long get_double get_string get_bool
  values_equal_lem h (int_typed _) (int_typed _) = done tt
  values_equal_lem h (long_typed _) (long_typed _) = done tt
  values_equal_lem h double_typed double_typed = done tt
  values_equal_lem h string_typed string_typed = done tt
  values_equal_lem h bool_typed bool_typed = done tt
  values_equal_lem h _ _ = absurd cc

  values_less_lem :
      {l r : RuntimeValue H} {t : SemanticType}
      → is_numeric_type t ≡ true
      → HasType l t
      → HasType r t
      → Post (λ _. ⊥) (λ _. Unit {0}) (values_less H l r)
  unfolding values_less get_int get_long get_double
  values_less_lem h (int_typed _) (int_typed _) = done tt
  values_less_lem h (long_typed _) (long_typed _) = done tt
  values_less_lem h double_typed double_typed = done tt
  values_less_lem h _ _ = absurd cc

  order_lem :
      {l r : RuntimeValue H} {t : SemanticType}
      → is_numeric_type t ≡ true
      → HasType l t
      → HasType r t
      → (f : Bool → Bool → Bool)
      → Post
          (λ _. ⊥)
          (λ _. Unit {0})
          (values_equal H l r >>= λ (e : Bool). values_less H l r >>= λ (x : Bool). ok (f x e))
  order_lem {t} h x y f =
      Post-bind _ (values_equal_lem (numeric→scalar t h) x y)
        (λ e _. Post-bind _ (values_less_lem h x y) (λ b _. done tt))

  pub comparison_lem :
      {l r : RuntimeValue H} {t : SemanticType} {op : IrArithmeticOperator} {equality : Bool}
      → IsComparison equality op
      → is_comparable equality t ≡ true
      → HasType l t
      → HasType r t
      → Post (λ _. ⊥) (λ v. HasType v bool) (binary_values H bool op l r)
  unfolding binary_values evaluate_comparison
  comparison_lem equals h x y = bind_bool (Post-bind _ (values_equal_lem h x y) (λ e _. done tt))
  comparison_lem differs h x y = bind_bool (Post-bind _ (values_equal_lem h x y) (λ e _. done tt))
  comparison_lem is_less h x y = bind_bool (order_lem h x y (λ l e. l))
  comparison_lem is_at_most h x y = bind_bool (order_lem h x y (λ l e. l || e))
  comparison_lem is_greater h x y = bind_bool (order_lem h x y (λ l e. not l && not e))
  comparison_lem is_at_least h x y = bind_bool (order_lem h x y (λ l e. not l))
