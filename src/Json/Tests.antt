-- ===== src/Json/Tests.antt =====
-- The JSON parser and serializer at concrete texts.
use crossa.Prelude.{
  true, false, [], ◌∷◌, ◌++◌, none, Bytes, bytes_eq, codes, ok, err, ◌≡◌, ◌≢◌, refl, ◌≤◌, arith,
}
use crossa.Json.Value.{
  JsonValue, null, number, string, array, object, nil, item, end, field, is_valid_number,
  drop_digits,
}
use crossa.Json.Cursor.{
  out_of_fuel, failed, depth_limit, advance, step, skip_whitespace, consume, consume_literal,
  check_cancellation,
}
use crossa.Json.Strings.{
  parse_string, hex_loop, append_code_point, hex_digit, low_half, string_loop, string_round,
  unescape, unicode_bytes, unicode_escape,
}
use crossa.Json.Parser.{
  parse, parse_number, parse_value, dispatch, parse_object, fields_loop, parse_key, contains,
  parse_array, items_loop, scan, scan_sign, scan_integer, scan_digits, skip_digits, scan_fraction,
  scan_exponent, scan_exponent_sign, create_number, parse_literal, finish, poll,
}
use crossa.Json.Serializer.{serialize, append_string}
use crossa.Json.Quiet.{past}
use crossa.Json.Shape.{nesting, WellFormed}
use crossa.Json.RoundTrip.Documents.{parse-serialize}
use crossa.Json.RoundTrip.Strings.{parse_string-append_string}
use crossa.Json.RoundTrip.Numbers.{parse_number_lem}
use crossa.Json.RoundTrip.Reparse.{parse-serialize-parse}
use crossa.Json.Sound.Values.{parse-WellFormed, parse-ne-out_of_fuel}
use crossa.Json.Utf8.{Encodes, append_code_point-Encodes}

number_tests :
    (is_valid_number (codes "-12.5e+3") ≡ true)
    × (is_valid_number (codes "01") ≡ false)
    × (is_valid_number (codes "1.") ≡ false)
    × (is_valid_number (codes "-") ≡ false)
unfolding is_valid_number drop_digits
number_tests = (refl, refl, refl, refl)

-- {"a\n":[null,-1.5]}
abbrev document : JsonValue
document = object (field (codes "a\n") (array (item null (item (number (codes "-1.5")) nil))) end)

serialize_test : serialize document ≡ codes "{\"a\\n\":[null,-1.5]}"
unfolding serialize append_string
serialize_test = refl

parse_test :
    parse none 100 5 (codes " {\"a\":[-1e3 ,\"\\u00e9\\n\"]}")
    ≡ ok (
        object (
          field
            (codes "a")
            (array (item (number (codes "-1e3")) (item (string (0xC3 ∷ 0xA9 ∷ 10 ∷ [])) nil)))
            end))
unfolding parse parse_string skip_whitespace consume is_valid_number check_cancellation drop_digits
    hex_loop parse_value dispatch parse_object fields_loop parse_key contains parse_array items_loop
    parse_number scan scan_sign scan_integer scan_digits skip_digits scan_fraction scan_exponent
    scan_exponent_sign create_number advance step finish poll append_code_point hex_digit low_half
    string_loop string_round unescape unicode_bytes unicode_escape bytes_eq
parse_test = refl

parse_limit_test : parse none 100 0 (codes "[1]") ≡ err (failed 1 depth_limit)
unfolding parse skip_whitespace consume check_cancellation parse_value dispatch parse_array
    items_loop advance step finish poll
parse_limit_test = refl

parse-serialize_example : parse none 100 2 (serialize document) ≡ ok document
unfolding serialize append_string nesting is_valid_number drop_digits contains
parse-serialize_example =
    parse-serialize none 100 2 document tt (refl, (tt, (refl, tt)), tt) (omega arith) (omega arith)

parse_string-append_string_example :
    parse_string none
      (record { current = 0; polls = 0; next_check = 0 })
      (append_string (codes "a\"b") ++ codes ",")
    ≡ ok (
      codes "a\"b",
      past none (append_string (codes "a\"b")) (record { current = 0; polls = 0; next_check = 0 }),
      codes ",",
    )
parse_string-append_string_example =
    parse_string-append_string (codes "a\"b") none
      (record { current = 0; polls = 0; next_check = 0 }) (codes ",") tt

parse_number_lem_example :
    parse_number none
      (record { current = 0; polls = 0; next_check = 0 })
      (codes "-1.5" ++ codes ",")
    ≡ ok (
      number (codes "-1.5"),
      past none (codes "-1.5") (record { current = 0; polls = 0; next_check = 0 }),
      codes ",",
    )
unfolding is_valid_number drop_digits
parse_number_lem_example =
    parse_number_lem none tt (codes ",") refl (record { current = 0; polls = 0; next_check = 0 })
      (codes "-1.5") refl

parse-ne-out_of_fuel_example : parse none 100 5 (codes "[[[1],2") ≢ err out_of_fuel
parse-ne-out_of_fuel_example = parse-ne-out_of_fuel none 100 5 (codes "[[[1],2")

parse-WellFormed_example :
    WellFormed (array (item null nil)) × (nesting (array (item null nil)) ≤ 3)
unfolding parse skip_whitespace consume consume_literal parse_literal check_cancellation parse_value
    dispatch parse_array items_loop advance step finish poll
parse-WellFormed_example =
    parse-WellFormed none 100 3 (codes " [ null]") (array (item null nil)) refl

parse-serialize-parse_example :
    parse none 100 3 (serialize (array (item null nil))) ≡ ok (array (item null nil))
unfolding parse skip_whitespace consume consume_literal parse_literal check_cancellation parse_value
    dispatch parse_array items_loop advance step finish poll serialize
parse-serialize-parse_example =
    parse-serialize-parse none none 100 100 3 (codes " [ null]") (array (item null nil)) refl tt
      (omega arith)

append_code_point-Encodes_example : (bs : Bytes) × Encodes 0x20AC bs
append_code_point-Encodes_example = append_code_point-Encodes 0x20AC (omega arith)
