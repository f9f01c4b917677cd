-- ===== src/Json/Cursor.antt =====
-- src/network/json/JsonParser.cpp: the cursor of the parser and its primitive steps.
-- A cursor is a position and the bytes behind it. Other threads may cancel the request at any
-- time, so a handle is a function from the number of a poll to its answer.
use crossa.Prelude.{
  ℕ, ◌+◌, Bool, ◌||◌, [], ◌∷◌, Option, none, some, Bytes, ◌==◌, ltb, if◌then◌else◌, Result, ok, err,
  ◌>>=◌,
}
use crossa.Json.Value.{peek}

pub data Reason : Type 0 where
  trailing_content depth_limit value_expected key_expected duplicate_key : Reason
  control_byte bad_surrogate low_surrogate bad_escape unterminated_string : Reason
  bad_integer bad_fraction bad_exponent bad_hex_digit unexpected_end : Reason
  -- consume(expected)
  byte_expected : ℕ → Reason

pub data JsonError : Type 0 where
  -- fail(message), with the byte offset
  failed : ℕ → Reason → JsonError
  too_large invalid_number bad_code_point cancelled : JsonError
  -- not an error of the program: the recursion of the model ran out of fuel
  out_of_fuel : JsonError

abbrev pub Handle : Type 0
Handle = Option (ℕ → Bool)

pub record Pos : Type 0 where
  pub current : ℕ
  pub next_check : ℕ
  pub polls : ℕ

abbrev pub start : Pos
start = record { current = 0; next_check = 0; polls = 0 }

abbrev pub Read {ℓ} : Type ℓ → Type ℓ
Read A = Result JsonError (A × Pos × Bytes)

abbrev pub Moved : Type 0
Moved = Result JsonError (Pos × Bytes)

abbrev pub fail {ℓ} : {A : Type ℓ} → Pos → Reason → Result JsonError A
fail p why = err (failed p.current why)

-- `checkCancellation`
unfoldable pub check_cancellation : Handle → Pos → Result JsonError Pos
check_cancellation none p = ok p
check_cancellation (some requested) p =
    if ltb p.current p.next_check
    then ok p
    else if requested p.polls
    then err cancelled
    else ok (record p { next_check = p.current + 4096; polls = p.polls + 1 })

-- `advance`
unfoldable pub advance : Handle → Pos → Bytes → Read ℕ
advance h p [] = fail p unexpected_end
advance h p (c ∷ cs) = do
  q ← check_cancellation h p
  ok (c, record q { current = q.current + 1 }, cs)

-- advance(), with the byte dropped
unfoldable pub step : Handle → Pos → Bytes → Moved
unfolding advance
step h p bs = do (c, q, r) ← advance h p bs; ok (q, r)

abbrev pub is_space : ℕ → Bool
is_space c = c == b' ' || c == b'\t' || c == b'\n' || c == b'\r'

-- `skipWhitespace`, which moves the cursor with no check
unfoldable pub skip_whitespace : Pos → Bytes → Pos × Bytes
skip_whitespace p [] = (p, [])
skip_whitespace p (c ∷ cs) =
    let rest = skip_whitespace (record p { current = p.current + 1 }) cs in
    if is_space c then rest else (p, c ∷ cs)

-- `consume`
unfoldable pub consume : Handle → ℕ → Pos → Bytes → Moved
unfolding step
consume h expected p bs =
    if peek bs == expected then step h p bs else fail p (byte_expected expected)

-- `consumeLiteral`
unfoldable pub consume_literal : Handle → Bytes → Pos → Bytes → Moved
unfolding consume
consume_literal h [] p bs = ok (p, bs)
consume_literal h (expected ∷ literal) p bs = do
  (q, r) ← consume h expected p bs
  consume_literal h literal q r
