-- ===== src/Syntax.antt =====
-- include/crossa/compiler/ast and source/SourceLocation.h: the syntax tree that the parser builds.
-- All nodes of a tree stand in one file, so a location is a line and a column.
use crossa.Prelude.{ℕ, Bool, Bytes, List, Option}

-- SourceLocation
pub record Location : Type 0 where
  pub line : ℕ
  pub column : ℕ

pub data UnaryOperator : Type 0 where
  negate not : UnaryOperator

pub data BinaryOperator : Type 0 where
  add subtract multiply divide equal not_equal less less_equal greater greater_equal :
      BinaryOperator
  logical_and logical_or : BinaryOperator

-- StringSegmentKind and StringSegment
pub data StringSegmentKind : Type 0 where
  literal identifier : StringSegmentKind

pub record StringSegment : Type 0 where
  pub kind : StringSegmentKind
  pub value : Bytes
  pub location : Location

pub data HttpMethod : Type 0 where
  get post put patch delete head options trace connect : HttpMethod

-- Expression and its subclasses; the location comes last, as in their constructors.
mutual
  pub data Expression : Type 0 where
    identifier : Bytes → Location → Expression
    integer_literal : Bytes → Location → Expression
    decimal_literal : Bytes → Location → Expression
    string_literal : List StringSegment → Location → Expression
    boolean_literal : Bool → Location → Expression
    call : Bytes → Expressions → Location → Expression
    unary : UnaryOperator → Expression → Location → Expression
    binary : Expression → BinaryOperator → Expression → Location → Expression
    json_number : Bytes → Location → Expression
    json_null : Location → Expression
    json_object : Entries → Location → Expression
    json_array : Expressions → Location → Expression
    http_method : HttpMethod → Location → Expression
    crossa_request : Entries → Location → Expression

  pub data Expressions : Type 0 where
    nil : Expressions
    cons : Expression → Expressions → Expressions

  -- JsonObjectEntry, CrossaRequestEntry and ConfigEntry
  pub data Entries : Type 0 where
    end : Entries
    entry : Bytes → Expression → Location → Entries → Entries

-- TypeReference
pub data TypeReference : Type 0 where
  named : Bytes → Location → TypeReference
  list_of : TypeReference → Location → TypeReference

-- Statement and its subclasses
mutual
  pub data Statement : Type 0 where
    return : Expression → Location → Statement
    expression : Expression → Location → Statement
    variable : Bytes → TypeReference → Expression → Location → Statement
    if_then : Expression → Statements → Location → Statement
    if_else : Expression → Statements → Statements → Location → Statement

  pub data Statements : Type 0 where
    nil : Statements
    cons : Statement → Statements → Statements

pub data ExecutionPolicy : Type 0 where
  none sync async async_after : ExecutionPolicy

-- Parameter and ModelField
pub record Field : Type 0 where
  pub name : Bytes
  pub type : TypeReference
  pub location : Location

-- Declaration and its subclasses
pub data Declaration : Type 0 where
  import : Bytes → Location → Declaration
  variable : Bytes → TypeReference → Expression → Location → Declaration
  model : Bytes → List Field → Location → Declaration
  function :
      Bytes
      → ExecutionPolicy
      → List Field
      → Option TypeReference
      → Statements
      → Location
      → Declaration
  config : Entries → Location → Declaration
  expression : Expression → Location → Declaration

-- Expression::getLocation
unfoldable pub get_location : Expression → Location
get_location (Expression.identifier _ l) = l
get_location (Expression.integer_literal _ l) = l
get_location (Expression.decimal_literal _ l) = l
get_location (Expression.string_literal _ l) = l
get_location (Expression.boolean_literal _ l) = l
get_location (Expression.call _ _ l) = l
get_location (Expression.unary _ _ l) = l
get_location (Expression.binary _ _ _ l) = l
get_location (Expression.json_number _ l) = l
get_location (Expression.json_null l) = l
get_location (Expression.json_object _ l) = l
get_location (Expression.json_array _ l) = l
get_location (Expression.http_method _ l) = l
get_location (Expression.crossa_request _ l) = l
