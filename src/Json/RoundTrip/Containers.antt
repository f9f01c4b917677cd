-- ===== src/Json/RoundTrip/Containers.antt =====
-- The loops of the parser over the elements of a written container.
use crossa.Prelude.{ℕ, suc, false, List, [], ◌∷◌, ◌++◌, Bytes, ◌==◌, ok, ◌≡◌, refl}
use crossa.Json.Value.{peek, JsonValue, Items, nil, item, Fields, end, field, array, object}
use crossa.Json.Cursor.{Handle, Pos, skip_whitespace}
use crossa.Json.Parser.{
  Parse, items_loop, fields_loop, parse_array, parse_object, parse_value, contains, parse_key,
}
use crossa.Json.Serializer.{append_string, append_value}
use crossa.Json.Quiet.{
  IsQuiet, past, past-append, step-IsQuiet, consume-IsQuiet, skip_whitespace_stays,
}
use crossa.Json.RoundTrip.Strings.{parse_string-append_string}
use crossa.Json.RoundTrip.Values.{ReadsBack}

module _ (h : Handle) (quiet : IsQuiet h) (m : ℕ) where
  -- The parser of the values inside a container.
  abbrev pub inside : ℕ → ℕ → Parse
  inside g d p bs = parse_value g h m d p bs

  pub items_loop-last :
      (f g d : ℕ) (v : JsonValue) (p : Pos) (rest : Bytes)
      → ReadsBack h quiet m g d v
      → items_loop (suc f) h (inside g d) p (append_value v ++ (b']' ∷ rest))
        ≡ ok (item v nil, past h (append_value v ++ (b']' ∷ [])) p, rest)
  unfolding items_loop
  items_loop-last f g d v p rest back = rw (back p (b']' ∷ rest) refl) (
      rw (skip_whitespace_stays _ b']' rest refl)
        (rw (step-IsQuiet h _ b']' rest quiet) (rw past-append)))

  pub items_loop-more :
      (f g d : ℕ) (v : JsonValue) (vs : Items) (text : Bytes) (p : Pos) (rest : Bytes)
      → ReadsBack h quiet m g d v
      → ((q : Pos) → items_loop f h (inside g d) q (text ++ rest) ≡ ok (vs, past h text q, rest))
      → items_loop (suc f) h (inside g d) p (append_value v ++ (b',' ∷ (text ++ rest)))
        ≡ ok (item v vs, past h (append_value v ++ (b',' ∷ text)) p, rest)
  unfolding items_loop past
  items_loop-more f g d v vs text p rest back more = rw (back p (b',' ∷ (text ++ rest)) refl) (
      rw (skip_whitespace_stays _ b',' (text ++ rest) refl)
        (rw (consume-IsQuiet h _ b',' (text ++ rest) quiet) (rw (more _) (rw past-append))))

  append_string_head : (s : Bytes) → (t : Bytes) × (append_string s ≡ b'"' ∷ t)
  unfolding append_string
  append_string_head s = (_, refl)

  parse_key_lem :
      (keys : List Bytes) (k : Bytes) (p : Pos) (rest : Bytes)
      → contains k keys ≡ false
      → parse_key h keys p (append_string k ++ (b':' ∷ rest))
        ≡ ok (k, past h (append_string k ++ (b':' ∷ [])) p, rest)
  unfolding parse_key
  parse_key_lem keys k p rest new =
      let (t, e) = append_string_head k in
      let skip : skip_whitespace p (append_string k ++ (b':' ∷ rest))
          ≡ (p, append_string k ++ (b':' ∷ rest)) =
        rw e (skip_whitespace_stays p b'"' _ refl) in
      let quote : peek (append_string k ++ (b':' ∷ rest)) ≡ b'"' = rw e refl in
      rw (skip, quote)
        (rw (parse_string-append_string k h p (b':' ∷ rest) quiet, new)
          (rw (skip_whitespace_stays _ b':' rest refl)
            (rw (consume-IsQuiet h _ b':' rest quiet, past-append))))

  -- A field, from its key on, up to what follows its value.
  abbrev field_text : Bytes → JsonValue → Bytes → Bytes
  field_text k v after = append_string k ++ (b':' ∷ (append_value v ++ after))

  past-field_text :
      (k : Bytes) (v : JsonValue) (after : Bytes) (p : Pos)
      → past h (field_text k v after) p
        ≡ past h after (past h (append_value v) (past h (append_string k ++ (b':' ∷ [])) p))
  unfolding past
  past-field_text k v after p = simp past-append

  module _ (f g d : ℕ) (keys : List Bytes) (k : Bytes) (v : JsonValue)
      (new : contains k keys ≡ false) (back : ReadsBack h quiet m g d v) (p : Pos)
      (rest : Bytes) where
    pub fields_loop-last :
        fields_loop (suc f) h (inside g d) keys p (field_text k v (b'}' ∷ rest))
        ≡ ok (field k v end, past h (field_text k v (b'}' ∷ [])) p, rest)
    unfolding fields_loop
    fields_loop-last = rw (parse_key_lem keys k p (append_value v ++ (b'}' ∷ rest)) new) (
        rw (back _ (b'}' ∷ rest) refl) (
          rw (skip_whitespace_stays _ b'}' rest refl)
            (rw (step-IsQuiet h _ b'}' rest quiet) (rw (past-field_text k v (b'}' ∷ []) p)))))

    pub fields_loop-more :
        (fs : Fields) (text : Bytes)
        → ((q : Pos)
            → fields_loop f h (inside g d) (k ∷ keys) q (text ++ rest)
              ≡ ok (fs, past h text q, rest))
        → fields_loop (suc f) h (inside g d) keys p (field_text k v (b',' ∷ (text ++ rest)))
          ≡ ok (field k v fs, past h (field_text k v (b',' ∷ text)) p, rest)
    unfolding fields_loop past
    fields_loop-more fs text more =
        rw (parse_key_lem keys k p (append_value v ++ (b',' ∷ (text ++ rest))) new) (
          rw (back _ (b',' ∷ (text ++ rest)) refl) (
            rw (skip_whitespace_stays _ b',' (text ++ rest) refl) (
              rw (consume-IsQuiet h _ b',' (text ++ rest) quiet)
                (rw (more _) (rw (past-field_text k v (b',' ∷ text) p))))))

  pub parse_array-nil :
      (f : ℕ) (value : Parse) (p : Pos) (rest : Bytes)
      → parse_array f h value p (b'[' ∷ b']' ∷ rest)
        ≡ ok (array nil, past h (b'[' ∷ b']' ∷ []) p, rest)
  unfolding parse_array past
  parse_array-nil f value p rest =
      rw (consume-IsQuiet h p b'[' (b']' ∷ rest) quiet)
        (rw (skip_whitespace_stays _ b']' rest refl) (rw (step-IsQuiet h _ b']' rest quiet)))

  pub parse_object-end :
      (f : ℕ) (value : Parse) (p : Pos) (rest : Bytes)
      → parse_object f h value p (b'{' ∷ b'}' ∷ rest)
        ≡ ok (object end, past h (b'{' ∷ b'}' ∷ []) p, rest)
  unfolding parse_object past
  parse_object-end f value p rest =
      rw (consume-IsQuiet h p b'{' (b'}' ∷ rest) quiet)
        (rw (skip_whitespace_stays _ b'}' rest refl) (rw (step-IsQuiet h _ b'}' rest quiet)))

  -- `input` is what stands behind the opening bracket, and `text` the part that is read.
  module _ (f : ℕ) (value : Parse) (p : Pos) (input text rest : Bytes) where
    pub parse_array-items :
        (vs : Items)
        → ((q : Pos) → skip_whitespace q input ≡ (q, input))
        → (peek input == b']') ≡ false
        → ((q : Pos) → items_loop f h value q input ≡ ok (vs, past h text q, rest))
        → parse_array f h value p (b'[' ∷ input) ≡ ok (array vs, past h (b'[' ∷ text) p, rest)
    unfolding parse_array past
    parse_array-items vs skip close items =
        rw (consume-IsQuiet h p b'[' input quiet) (rw (skip _) (rw close (rw (items _))))

    pub parse_object-fields :
        (fs : Fields)
        → ((q : Pos) → skip_whitespace q input ≡ (q, input))
        → (peek input == b'}') ≡ false
        → ((q : Pos) → fields_loop f h value [] q input ≡ ok (fs, past h text q, rest))
        → parse_object f h value p (b'{' ∷ input) ≡ ok (object fs, past h (b'{' ∷ text) p, rest)
    unfolding parse_object past
    parse_object-fields fs skip close fields =
        rw (consume-IsQuiet h p b'{' input quiet) (rw (skip _) (rw close (rw (fields _))))
