-- ===== src/Json/Sound/Values.antt =====
-- What the parser returns is well formed and within the depth limit, and its fuel suffices.
use crossa.Prelude.{
  ℕ, zero, suc, ◌+◌, ◌≤◌, ◌<◌, true, false, inl, inr, List, [], ◌∷◌, none, some, Bytes, length,
  codes, ◌==◌, ltb, ok, err, ◌>>=◌, ◌≡◌, refl, ◌≢◌, arith, Bool-cases,
}
use crossa.Json.Value.{JsonValue, null, boolean, string, peek}
use crossa.Json.Cursor.{out_of_fuel, Handle, Pos, Read, skip_whitespace, consume_literal}
use crossa.Json.Strings.{parse_string}
use crossa.Json.Parser.{
  Parse, contains, items_loop, parse_array, parse_key, fields_loop, parse_object, parse_literal,
  dispatch, parse_value, parse, poll, finish, parse_number,
}
use crossa.Json.Shape.{
  nesting, nesting_items, nesting_fields, WellFormed, WellFormedItems, WellFormedFields,
}
use crossa.Json.Ensures.{
  Ensures, done, stop, Ensures-if, Ensures-bind, Ensures-weaken, Ensures-ok, Ensures-fuel,
}
use crossa.Json.Sound.Cursors.{
  fail-Ensures, cancelled-Ensures, step-Ensures, consume-Ensures, consume_literal-Ensures,
  skip_whitespace-le,
}
use crossa.Json.Sound.Texts.{parse_string-Ensures, parse_number-Ensures}

poll-Ensures : (h : Handle) → Ensures (λ p. Unit {0}) (poll h)
unfolding poll
poll-Ensures none = done tt
poll-Ensures (some requested) = search (Ensures-if, done, cancelled-Ensures, tt)

module _ (h : Handle) (m : ℕ) where
  -- Elements of a container at depth `d` are read within `m` levels, if less than `g` bytes are left.
  abbrev Parses : ℕ → ℕ → Parse → Type 0
  Parses g d value =
      (p : Pos) (bs : Bytes)
      → length bs < g
      → Ensures (λ x. WellFormed x.0 × (d + nesting x.0 ≤ m) × (length x.2 < length bs))
          (value p bs)

  items_loop-Ensures :
      (f g d : ℕ) (value : Parse)
      → Parses g (d + 1) value
      → (p : Pos) (bs : Bytes) → length bs < f
      → length bs < g
      → Ensures
          (λ x. WellFormedItems x.0 × (d + nesting_items x.0 ≤ m) × (length x.2 < length bs))
          (items_loop f h value p bs)
  unfolding items_loop nesting
  items_loop-Ensures zero g d value parses p bs lt lg = absurd (omega arith)
  items_loop-Ensures (suc f) g d value parses p bs lt lg =
      Ensures-bind _ (parses p bs lg) (λ x good.
        let skip = skip_whitespace-le x.1 x.2 in
        elim (Bool-cases (peek (skip_whitespace x.1 x.2).1 == b']')) [
          | inl close ↦ rw close (
              Ensures-bind _ (step-Ensures h _ _)
                (λ y less. done ((good.0, tt), omega arith, omega arith)))
          | inr more ↦ rw more (
              Ensures-bind _ (consume-Ensures h _ _ _) (λ y less.
                Ensures-bind _
                  (items_loop-Ensures f g d value parses y.0 y.1 (omega arith) (omega arith))
                  (λ z rest. done ((good.0, rest.0), omega arith, omega arith))))
        ])

  parse_array-Ensures :
      (f d : ℕ) (value : Parse)
      → Parses f (d + 1) value
      → (p : Pos) (bs : Bytes) → length bs < suc f
      → d ≤ m
      → Ensures
          (λ x. WellFormed x.0 × (d + nesting x.0 ≤ m) × (length x.2 < length bs))
          (parse_array f h value p bs)
  unfolding parse_array nesting
  parse_array-Ensures f d value parses p bs lt le =
      Ensures-bind _ (consume-Ensures h _ p bs) (λ x less.
        let skip = skip_whitespace-le x.0 x.1 in
        elim (Bool-cases (peek (skip_whitespace x.0 x.1).1 == b']')) [
          | inl close ↦
              rw close (
                Ensures-bind _ (step-Ensures h _ _)
                  (λ y less'. done (tt, omega arith, omega arith)))
          | inr more ↦ rw more (
              Ensures-bind _ (items_loop-Ensures f f d value parses _ _ (omega arith) (omega arith))
                (λ y good. done (good.0, good.1, omega arith)))
        ])

  parse_key-Ensures :
      (keys : List Bytes) (p : Pos) (bs : Bytes)
      → Ensures
          (λ x. (contains x.0 keys ≡ false) × (length x.2 < length bs))
          (parse_key h keys p bs)
  unfolding parse_key
  parse_key-Ensures keys p bs =
      let skip = skip_whitespace-le p bs in
      elim (Bool-cases (peek (skip_whitespace p bs).1 == b'"')) [
        | inr other ↦ rw other (fail-Ensures (skip_whitespace p bs).0 _)
        | inl quote ↦ rw quote (
            Ensures-bind _ (parse_string-Ensures h _ _) (λ x less.
              elim (Bool-cases (contains x.0 keys)) [
                | inl old ↦ rw old (fail-Ensures x.1 _)
                | inr new ↦
                    let skip' = skip_whitespace-le x.1 x.2 in
                    rw new (
                      Ensures-bind _ (consume-Ensures h _ _ _) (λ y less'. done (new, omega arith)))
              ]))
      ]

  fields_loop-Ensures :
      (f g d : ℕ) (value : Parse)
      → Parses g (d + 1) value
      → (keys : List Bytes) (p : Pos) (bs : Bytes) → length bs < f
      → length bs < g
      → Ensures
          (λ x. WellFormedFields x.0 keys × (d + nesting_fields x.0 ≤ m) × (length x.2 < length bs))
          (fields_loop f h value keys p bs)
  unfolding fields_loop nesting
  fields_loop-Ensures zero g d value parses keys p bs lt lg = absurd (omega arith)
  fields_loop-Ensures (suc f) g d value parses keys p bs lt lg =
      Ensures-bind _ (parse_key-Ensures keys p bs) (λ k new.
        Ensures-bind _ (parses k.1 k.2 (omega arith)) (λ x good.
          let skip = skip_whitespace-le x.1 x.2 in
          elim (Bool-cases (peek (skip_whitespace x.1 x.2).1 == b'}')) [
            | inl close ↦ rw close (
                Ensures-bind _ (step-Ensures h _ _)
                  (λ y less. done ((new.0, good.0, tt), omega arith, omega arith)))
            | inr more ↦ rw more (
                Ensures-bind _ (consume-Ensures h _ _ _) (λ y less.
                  Ensures-bind _
                    (fields_loop-Ensures f g d value parses (k.0 ∷ keys) y.0 y.1 (omega arith)
                      (omega arith))
                    (λ z rest. done ((new.0, good.0, rest.0), omega arith, omega arith))))
          ]))

  parse_object-Ensures :
      (f d : ℕ) (value : Parse)
      → Parses f (d + 1) value
      → (p : Pos) (bs : Bytes) → length bs < suc f
      → d ≤ m
      → Ensures
          (λ x. WellFormed x.0 × (d + nesting x.0 ≤ m) × (length x.2 < length bs))
          (parse_object f h value p bs)
  unfolding parse_object nesting
  parse_object-Ensures f d value parses p bs lt le =
      Ensures-bind _ (consume-Ensures h _ p bs) (λ x less.
        let skip = skip_whitespace-le x.0 x.1 in
        elim (Bool-cases (peek (skip_whitespace x.0 x.1).1 == b'}')) [
          | inl close ↦
              rw close (
                Ensures-bind _ (step-Ensures h _ _)
                  (λ y less'. done (tt, omega arith, omega arith)))
          | inr more ↦ rw more (
              Ensures-bind _
                (fields_loop-Ensures f f d value parses [] _ _ (omega arith) (omega arith))
                (λ y good. done (good.0, good.1, omega arith)))
        ])

  -- The postcondition of a value read at depth `d` from `bs`.
  abbrev Good : ℕ → Bytes → Read JsonValue → Type 0
  Good d bs r = Ensures (λ x. WellFormed x.0 × (d + nesting x.0 ≤ m) × (length x.2 < length bs)) r

  parse_literal-Ensures :
      (d : ℕ) (c : ℕ) (w : Bytes) (v : JsonValue) (p : Pos) (bs : Bytes)
      → d ≤ m
      → WellFormed v
      → nesting v ≡ 0
      → Good d bs (parse_literal h (c ∷ w) v p bs)
  unfolding parse_literal consume_literal
  parse_literal-Ensures d c w v p bs le good flat =
      Ensures-bind _
        (Ensures-bind _ (consume-Ensures h c p bs) (λ x less.
          Ensures-weaken {Q = λ y. length y.1 < length bs} (consume_literal-Ensures h w x.0 x.1)
            (λ y le'. omega arith)))
        (λ x less. done (good, omega arith, less))

  string-Ensures :
      (d : ℕ) (p : Pos) (bs : Bytes)
      → d ≤ m
      → Good d bs (parse_string h p bs >>= λ x. ok (string x.0, x.1, x.2))
  unfolding nesting
  string-Ensures d p bs le =
      Ensures-bind _ (parse_string-Ensures h p bs) (λ x less. done (tt, omega arith, less))

  number-Ensures : (d : ℕ) (p : Pos) (bs : Bytes) → d ≤ m → Good d bs (parse_number h p bs)
  number-Ensures d p bs le =
      Ensures-weaken (parse_number-Ensures h p bs) (λ x good. (good.0, omega arith, good.2))

  dispatch-Ensures :
      (f d : ℕ) (value : Parse)
      → Parses f (d + 1) value
      → (p : Pos) (bs : Bytes) → length bs < suc f
      → d ≤ m
      → Good d bs (dispatch f h value p bs)
  unfolding dispatch nesting
  dispatch-Ensures f d value parses p bs lt le =
      search
        (
          Ensures-if,
          fail-Ensures,
          parse_object-Ensures f d value parses p bs lt le,
          parse_array-Ensures f d value parses p bs lt le,
          string-Ensures d p bs le,
          parse_literal-Ensures d b't' (codes "rue") (boolean true) p bs le tt refl,
          parse_literal-Ensures d b'f' (codes "alse") (boolean false) p bs le tt refl,
          parse_literal-Ensures d b'n' (codes "ull") null p bs le tt refl,
          number-Ensures d p bs le,
        )
        depth 18

  pub parse_value-Ensures :
      (f d : ℕ) (p : Pos) (bs : Bytes) → length bs < f → Good d bs (parse_value f h m d p bs)
  unfolding parse_value
  parse_value-Ensures zero d p bs lt = absurd (omega arith)
  parse_value-Ensures (suc f) d p bs lt = elim (Bool-cases (ltb m d)) [
    | inl deep ↦ rw deep (fail-Ensures p _)
    | inr fits ↦
        let skip = skip_whitespace-le p bs in
        rw fits (
          Ensures-weaken
            (dispatch-Ensures f d _ (λ q r short. parse_value-Ensures f (d + 1) q r short) _ _
              (omega arith) (ground arith))
            (λ x good. (good.0, good.1, omega arith)))
  ]

  finish-Ensures : (v : JsonValue) (p : Pos) (bs : Bytes) → Ensures (λ w. w ≡ v) (finish v p bs)
  unfolding finish
  finish-Ensures v p [] = done refl
  finish-Ensures v p (c ∷ cs) = fail-Ensures p _

  parse-Ensures :
      (n : ℕ) (input : Bytes) → Ensures (λ v. WellFormed v × (nesting v ≤ m)) (parse h n m input)
  unfolding parse
  parse-Ensures n input = elim (Bool-cases (ltb n (length input))) [
    | inl long ↦ rw long (stop (λ e. cc e))
    | inr short ↦ rw short (
        Ensures-bind _ (poll-Ensures h) (λ p u.
          let skip = skip_whitespace-le p input in
          Ensures-bind _ (parse_value-Ensures (suc (length input)) 0 _ _ (omega arith)) (λ x good.
            Ensures-weaken (finish-Ensures x.0 (skip_whitespace x.1 x.2).0 _)
              (λ w same. rw same (good.0, omega arith)))))
  ]

-- Whatever the input, the limits and the answers of the handle, the recursion of the parser has
-- fuel enough.
pub parse-ne-out_of_fuel :
    (h : Handle) (maximum_bytes maximum_depth : ℕ) (input : Bytes)
    → parse h maximum_bytes maximum_depth input ≢ err out_of_fuel
parse-ne-out_of_fuel h n m input = Ensures-fuel (parse h n m input) (parse-Ensures h m n input)

-- A parsed value has valid number texts, no object with a key twice, and nests no deeper than the
-- limit.
pub parse-WellFormed :
    (h : Handle) (maximum_bytes maximum_depth : ℕ) (input : Bytes) (v : JsonValue)
    → parse h maximum_bytes maximum_depth input ≡ ok v
    → WellFormed v × (nesting v ≤ maximum_depth)
parse-WellFormed h n m input v e = Ensures-ok v (rw e at (parse-Ensures h m n input))
