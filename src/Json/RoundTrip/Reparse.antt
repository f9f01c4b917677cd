-- ===== src/Json/RoundTrip/Reparse.antt =====
-- The serializer behind the parser: what was parsed, printed and parsed again.
use crossa.Prelude.{ℕ, ◌≤◌, length, Bytes, ok, ◌≡◌}
use crossa.Json.Value.{JsonValue}
use crossa.Json.Cursor.{Handle}
use crossa.Json.Parser.{parse}
use crossa.Json.Quiet.{IsQuiet}
use crossa.Json.Serializer.{serialize}
use crossa.Json.RoundTrip.Documents.{parse-serialize}
use crossa.Json.Sound.Values.{parse-WellFormed}

-- If a text parses, then the text that its value is printed as parses to the same value, within the
-- same limit on the depth, if the limit on bytes allows it and nobody cancels the request.
pub parse-serialize-parse :
    (h h' : Handle) (maximum_bytes maximum_bytes' maximum_depth : ℕ) (input : Bytes) (v : JsonValue)
    → parse h maximum_bytes maximum_depth input ≡ ok v
    → IsQuiet h'
    → length (serialize v) ≤ maximum_bytes'
    → parse h' maximum_bytes' maximum_depth (serialize v) ≡ ok v
parse-serialize-parse h h' n n' m input v e quiet short =
    let (good, deep) = parse-WellFormed h n m input v e in
    parse-serialize h' n' m v quiet good deep short
