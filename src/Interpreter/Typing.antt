-- ===== src/Interpreter/Typing.antt =====
-- The types of the operators: `analyzeUnaryExpression` and `analyzeBinaryExpression` of
-- src/compiler/semantic/SemanticAnalyzer.cpp, on the types of the operands, and the operators that
-- src/compiler/ir/IrLowerer.cpp puts in their place. A failure is its code.
use Prim.Native.String.{String}
use crossa.Prelude.{Bool, true, false, not, ◌&&◌, ◌||◌, if◌then◌else◌, Result, ok, err}
use crossa.Syntax.{UnaryOperator, BinaryOperator}
use crossa.Interpreter.Arithmetic.{
  IrArithmeticOperator, add_op, subtract_op, multiply_op, divide_op, negate_op, equal, not_equal,
  less, less_equal, greater, greater_equal, logical_and, logical_or, not_op,
}
use crossa.Interpreter.Values.{SemanticType, int, long, double, string, bool, type_eq}

abbrev pub is_numeric_type : SemanticType → Bool
is_numeric_type int = true
is_numeric_type long = true
is_numeric_type double = true
is_numeric_type _ = false

abbrev pub is_bool : SemanticType → Bool
is_bool bool = true
is_bool _ = false

abbrev pub is_string : SemanticType → Bool
is_string string = true
is_string _ = false

unfoldable pub type_unary : UnaryOperator → SemanticType → Result String SemanticType
type_unary UnaryOperator.not operand = if is_bool operand then ok bool else err "CRA3017"
type_unary UnaryOperator.negate operand =
    if is_numeric_type operand then ok operand else err "CRA3011"

abbrev pub type_logical : SemanticType → SemanticType → Result String SemanticType
type_logical left right =
    if not (is_bool left) || not (is_bool right) then err "CRA3018" else ok bool

abbrev pub type_comparison : Bool → SemanticType → SemanticType → Result String SemanticType
type_comparison equality left right =
    let scalar_equality = equality && (is_bool left || is_string left || is_numeric_type left) in
    let numeric_comparison = not equality && is_numeric_type left in
    if not (type_eq left right) || (not scalar_equality && not numeric_comparison)
    then err "CRA3014"
    else ok bool

abbrev pub type_arithmetic : SemanticType → SemanticType → Result String SemanticType
type_arithmetic left right =
    if not (is_numeric_type left) || not (is_numeric_type right)
    then err "CRA3012"
    else if not (type_eq left right)
    then err "CRA3012"
    else ok left

unfoldable pub type_binary :
    BinaryOperator → SemanticType → SemanticType → Result String SemanticType
type_binary BinaryOperator.logical_and = type_logical
type_binary BinaryOperator.logical_or = type_logical
type_binary BinaryOperator.equal = type_comparison true
type_binary BinaryOperator.not_equal = type_comparison true
type_binary BinaryOperator.less = type_comparison false
type_binary BinaryOperator.less_equal = type_comparison false
type_binary BinaryOperator.greater = type_comparison false
type_binary BinaryOperator.greater_equal = type_comparison false
type_binary _ = type_arithmetic

unfoldable pub lower_unary_operator : UnaryOperator → IrArithmeticOperator
lower_unary_operator UnaryOperator.negate = negate_op
lower_unary_operator UnaryOperator.not = not_op

unfoldable pub lower_binary_operator : BinaryOperator → IrArithmeticOperator
lower_binary_operator BinaryOperator.add = add_op
lower_binary_operator BinaryOperator.subtract = subtract_op
lower_binary_operator BinaryOperator.multiply = multiply_op
lower_binary_operator BinaryOperator.divide = divide_op
lower_binary_operator BinaryOperator.equal = equal
lower_binary_operator BinaryOperator.not_equal = not_equal
lower_binary_operator BinaryOperator.less = less
lower_binary_operator BinaryOperator.less_equal = less_equal
lower_binary_operator BinaryOperator.greater = greater
lower_binary_operator BinaryOperator.greater_equal = greater_equal
lower_binary_operator BinaryOperator.logical_and = logical_and
lower_binary_operator BinaryOperator.logical_or = logical_or
