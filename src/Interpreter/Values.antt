-- ===== src/Interpreter/Values.antt =====
-- The values of the interpreter, runtime/RuntimeValue.h, and the types of the compiler,
-- compiler/types/SemanticType.h. Floating-point numbers, and the models and lists, which no operator
-- reads, are parameters.
use crossa.Prelude.{Bool, true, false, Bytes, bytes_eq, codes, Result, ok, err}
use crossa.Json.Value.{JsonValue}
use crossa.Interpreter.Int.{ℤ, Stop, wrong_kind}

pub data SemanticType : Type 0 where
  unit int long double string bool json : SemanticType
  model : Bytes → SemanticType
  list : SemanticType → SemanticType

-- SemanticType::operator==
unfoldable pub type_eq : SemanticType → SemanticType → Bool
type_eq unit unit = true
type_eq int int = true
type_eq long long = true
type_eq double double = true
type_eq string string = true
type_eq bool bool = true
type_eq json json = true
type_eq (model m) (model n) = bytes_eq m n
type_eq (list s) (list t) = type_eq s t
type_eq _ _ = false

-- The floating-point numbers with their arithmetic, the models and the lists.
pub record Host : Type 1 where
  pub Double : Type 0
  pub NativeModel : Type 0
  pub NativeList : Type 0
  pub zero_double : Double
  pub plus : Double → Double → Double
  pub minus : Double → Double → Double
  pub times : Double → Double → Double
  pub over : Double → Double → Double
  pub negative : Double → Double
  pub equals : Double → Double → Bool
  pub less_than : Double → Double → Bool

pub data RuntimeValue (H : Host) : Type 0 where
  unit_value : RuntimeValue H
  int_value long_value : ℤ → RuntimeValue H
  double_value : H.Double → RuntimeValue H
  string_value : Bytes → RuntimeValue H
  bool_value : Bool → RuntimeValue H
  json_value : JsonValue → RuntimeValue H
  model_value : H.NativeModel → RuntimeValue H
  list_value : H.NativeList → RuntimeValue H

module _ {H : Host} where
  unfoldable pub get_int : RuntimeValue H → Result Stop ℤ
  get_int (int_value z) = ok z
  get_int _ = err (wrong_kind (codes "Runtime value is not Int."))

  unfoldable pub get_long : RuntimeValue H → Result Stop ℤ
  get_long (long_value z) = ok z
  get_long _ = err (wrong_kind (codes "Runtime value is not Long."))

  unfoldable pub get_double : RuntimeValue H → Result Stop H.Double
  get_double (double_value x) = ok x
  get_double _ = err (wrong_kind (codes "Runtime value is not Double."))

  unfoldable pub get_string : RuntimeValue H → Result Stop Bytes
  get_string (string_value s) = ok s
  get_string _ = err (wrong_kind (codes "Runtime value is not String."))

  unfoldable pub get_bool : RuntimeValue H → Result Stop Bool
  get_bool (bool_value b) = ok b
  get_bool _ = err (wrong_kind (codes "Runtime value is not Bool."))
