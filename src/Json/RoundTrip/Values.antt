-- ===== src/Json/RoundTrip/Values.antt =====
-- The parser reads back each value that the serializer writes.
use crossa.Prelude.{
  ℕ, suc, ◌+◌, ◌≤◌, Bool, true, false, ◌||◌, [], ◌∷◌, ◌++◌, Bytes, ◌==◌, ok, ◌≡◌, refl, ◌∙◌, arith,
}
use crossa.Json.Value.{
  JsonValue, null, boolean, number, string, array, object, is_digit, is_valid_number,
}
use crossa.Json.Cursor.{Handle, Pos, is_space}
use crossa.Json.Parser.{
  Parse, parse_array, parse_object, parse_literal, dispatch, parse_value, parse_number,
}
use crossa.Json.Serializer.{append_string, append_value}
use crossa.Json.Shape.{WellFormed}
use crossa.Json.Quiet.{IsQuiet, past, consume_literal-IsQuiet, skip_whitespace_stays}
use crossa.Json.RoundTrip.Strings.{parse_string-append_string}
use crossa.Json.RoundTrip.Numbers.{Stops, parse_number_lem}

-- The first byte of a written value is no white space and closes nothing.
pub record Starts (text : Bytes) : Type 0 where
  pub first : ℕ
  pub others : Bytes
  pub splits : text ≡ first ∷ others
  pub no_space : is_space first ≡ false
  pub no_close : (first == b']') ≡ false

abbrev is_number_start : ℕ → Bool
is_number_start c = c == b'-' || is_digit c

number_start : (c : ℕ) (cs : Bytes) → is_valid_number (c ∷ cs) ≡ true → is_number_start c ≡ true
unfolding is_valid_number
number_start c cs v = ground arith

pub append_value-Starts : (v : JsonValue) → WellFormed v → Starts (append_value v)
unfolding append_value append_string
append_value-Starts null w = record {
  first = _;
  others = _;
  splits = refl;
  no_space = refl;
  no_close = refl;
}
append_value-Starts (boolean true) w = record {
  first = _;
  others = _;
  splits = refl;
  no_space = refl;
  no_close = refl;
}
append_value-Starts (boolean false) w = record {
  first = _;
  others = _;
  splits = refl;
  no_space = refl;
  no_close = refl;
}
append_value-Starts (number []) w = absurd (unfold is_valid_number in cc w)
append_value-Starts (number (c ∷ cs)) w =
    let s = number_start c cs w in
    record {
      first = c;
      others = cs;
      splits = refl;
      no_space = ground arith;
      no_close = ground arith;
    }
append_value-Starts (string s) w = record {
  first = _;
  others = _;
  splits = refl;
  no_space = refl;
  no_close = refl;
}
append_value-Starts (array vs) w = record {
  first = _;
  others = _;
  splits = refl;
  no_space = refl;
  no_close = refl;
}
append_value-Starts (object vs) w = record {
  first = _;
  others = _;
  splits = refl;
  no_space = refl;
  no_close = refl;
}

-- With the depth in range, a value that starts at once is read by the switch.
pub parse_value-dispatch :
    (f : ℕ) (h : Handle) (m d : ℕ) (p : Pos) (c : ℕ) (cs : Bytes)
    → d ≤ m
    → is_space c ≡ false
    → parse_value (suc f) h m d p (c ∷ cs)
      ≡ dispatch f h (λ p' bs'. parse_value f h m (d + 1) p' bs') p (c ∷ cs)
unfolding parse_value
parse_value-dispatch f h m d p c cs le s = rw (skip_whitespace_stays p c cs s) (ground arith)

dispatch-number :
    (f : ℕ) (h : Handle) (value : Parse) (p : Pos) (c : ℕ) (cs : Bytes)
    → is_number_start c ≡ true
    → dispatch f h value p (c ∷ cs) ≡ parse_number h p (c ∷ cs)
unfolding dispatch
dispatch-number f h value p c cs s = ground arith

module _ (h : Handle) (quiet : IsQuiet h) (m : ℕ) where
  -- What the parser is to do with a written value, whatever stands behind it.
  abbrev pub ReadsBack : ℕ → ℕ → JsonValue → Type 0
  ReadsBack f d v =
      (p : Pos) (rest : Bytes)
      → Stops rest
      → parse_value f h m d p (append_value v ++ rest) ≡ ok (v, past h (append_value v) p, rest)

  pub literal-ReadsBack :
      (f d : ℕ) (v : JsonValue) (c : ℕ) (cs : Bytes)
      → append_value v ≡ c ∷ cs
      → is_space c ≡ false
      → ((value : Parse) (p : Pos) (bs : Bytes)
          → dispatch f h value p (c ∷ bs) ≡ parse_literal h (c ∷ cs) v p (c ∷ bs))
      → d ≤ m
      → ReadsBack (suc f) d v
  unfolding parse_literal
  literal-ReadsBack f d v c cs e s go le p rest stops = rw e (
      parse_value-dispatch f h m d p c (cs ++ rest) le s
      ∙ go _ p (cs ++ rest)
      ∙ rw (consume_literal-IsQuiet h (c ∷ cs) p rest quiet))

  pub string-ReadsBack : (f d : ℕ) (s : Bytes) → d ≤ m → ReadsBack (suc f) d (string s)
  unfolding dispatch append_value append_string
  string-ReadsBack f d s le p rest stops =
      parse_value-dispatch f h m d p b'"' _ le refl
      ∙ rw (parse_string-append_string s h p rest quiet)

  pub number-ReadsBack :
      (f d : ℕ) (text : Bytes)
      → d ≤ m
      → is_valid_number text ≡ true
      → ReadsBack (suc f) d (number text)
  unfolding append_value
  number-ReadsBack f d [] le v p rest stops = absurd (unfold is_valid_number in cc v)
  number-ReadsBack f d (c ∷ cs) le v p rest stops =
      let s = number_start c cs v in
      parse_value-dispatch f h m d p c (cs ++ rest) le (ground arith)
      ∙ dispatch-number f h _ p c (cs ++ rest) s
      ∙ parse_number_lem h quiet rest stops p (c ∷ cs) v

  pub null-ReadsBack : (f d : ℕ) → d ≤ m → ReadsBack (suc f) d null
  unfolding append_value dispatch
  null-ReadsBack f d = literal-ReadsBack f d null _ _ refl refl (λ value p bs. refl)

  pub boolean-ReadsBack : (f d : ℕ) (b : Bool) → d ≤ m → ReadsBack (suc f) d (boolean b)
  unfolding append_value dispatch
  boolean-ReadsBack f d true =
      literal-ReadsBack f d (boolean true) _ _ refl refl (λ value p bs. refl)
  boolean-ReadsBack f d false =
      literal-ReadsBack f d (boolean false) _ _ refl refl (λ value p bs. refl)

  module _ (f d : ℕ) (p : Pos) (bs : Bytes) (le : d ≤ m) where
    pub parse_value-array :
        parse_value (suc f) h m d p (b'[' ∷ bs)
        ≡ parse_array f h (λ p' bs'. parse_value f h m (d + 1) p' bs') p (b'[' ∷ bs)
    unfolding dispatch
    parse_value-array = parse_value-dispatch f h m d p b'[' bs le refl

    pub parse_value-object :
        parse_value (suc f) h m d p (b'{' ∷ bs)
        ≡ parse_object f h (λ p' bs'. parse_value f h m (d + 1) p' bs') p (b'{' ∷ bs)
    unfolding dispatch
    parse_value-object = parse_value-dispatch f h m d p b'{' bs le refl
