-- ===== src/Json/RoundTrip/Documents.antt =====
-- Whole values and documents: `parse` undoes `serialize`.
use mathlib.Core.List.{append-nil, append_assoc}
use crossa.Prelude.{
  ℕ, zero, suc, ◌+◌, ◌≤◌, ◌<◌, true, false, List, [], ◌∷◌, ◌++◌, Bytes, length, ◌≢◌, some, none,
  length-append, ◌==◌, ltb, ok, ◌≡◌, refl, ◌∙◌, arith,
}
use crossa.Json.Value.{
  peek, JsonValue, null, boolean, number, string, array, object, Items, nil, item, Fields, end,
  field,
}
use crossa.Json.Cursor.{Handle, Pos, start, skip_whitespace}
use crossa.Json.Parser.{items_loop, fields_loop, parse, poll}
use crossa.Json.Serializer.{append_string, append_value, append_items, append_fields, serialize}
use crossa.Json.Shape.{
  nesting, nesting_items, nesting_fields, WellFormed, WellFormedItems, WellFormedFields,
}
use crossa.Json.Quiet.{IsQuiet, past, skip_whitespace_stays, skip_whitespace-nil}
use crossa.Json.RoundTrip.Values.{
  Starts, append_value-Starts, ReadsBack, null-ReadsBack, boolean-ReadsBack, parse_value-array,
  parse_value-object, string-ReadsBack, number-ReadsBack,
}
use crossa.Json.RoundTrip.Containers.{
  inside, items_loop-last, items_loop-more, fields_loop-last, fields_loop-more, parse_array-nil,
  parse_object-end, parse_array-items, parse_object-fields,
}

module _ (h : Handle) (quiet : IsQuiet h) (m : ℕ) where
  append_items-Starts :
      (v : JsonValue) (vs : Items) → WellFormed v → Starts (append_items true (item v vs))
  unfolding append_value
  append_items-Starts v vs w =
      let s = append_value-Starts v w in
      record {
        first = s.first;
        others = s.others ++ append_items false vs;
        splits = rw s.splits;
        no_space = s.no_space;
        no_close = s.no_close;
      }

  Starts-skip :
      (text after : Bytes)
      → Starts text
      → (q : Pos) → skip_whitespace q (text ++ after) ≡ (q, text ++ after)
  Starts-skip text after s q = rw s.splits (skip_whitespace_stays q s.first _ s.no_space)

  Starts-peek : (text after : Bytes) → Starts text → (peek (text ++ after) == b']') ≡ false
  Starts-peek text after s = rw s.splits s.no_close

  append_fields-Starts :
      (k : Bytes) (v : JsonValue) (fs : Fields)
      → (t : Bytes) × (append_fields true (field k v fs) ≡ b'"' ∷ t)
  unfolding append_value append_string
  append_fields-Starts k v fs = (_, refl)

  mutual
    unfolding append_value nesting

    value-ReadsBack :
        (v : JsonValue) (f d : ℕ)
        → WellFormed v
        → d + nesting v ≤ m
        → length (append_value v) < f
        → ReadsBack h quiet m f d v
    value-ReadsBack v zero d w le lt p rest stops = absurd (omega arith)
    value-ReadsBack null (suc f) d w le lt p rest stops =
        null-ReadsBack h quiet m f d (omega arith) p rest stops
    value-ReadsBack (boolean b) (suc f) d w le lt p rest stops =
        boolean-ReadsBack h quiet m f d b (omega arith) p rest stops
    value-ReadsBack (number text) (suc f) d w le lt p rest stops =
        number-ReadsBack h quiet m f d text (omega arith) w p rest stops
    value-ReadsBack (string s) (suc f) d w le lt p rest stops =
        string-ReadsBack h quiet m f d s (omega arith) p rest stops
    value-ReadsBack (array nil) (suc f) d w le lt p rest stops =
        parse_value-array h quiet m f d p (b']' ∷ rest) (omega arith)
        ∙ parse_array-nil h quiet m f _ p rest
    value-ReadsBack (array (item v vs)) (suc f) d w le lt p rest stops =
        let text = append_items true (item v vs) in
        let starts = append_items-Starts v vs w.0 in
        let size = length-append text (b']' ∷ []) in
        rw append_assoc (
          parse_value-array h quiet m f d p (text ++ (b']' ∷ rest)) (omega arith)
          ∙ parse_array-items h quiet m f _ p (text ++ (b']' ∷ rest)) (text ++ (b']' ∷ [])) rest
              (item v vs) (Starts-skip text _ starts) (Starts-peek text _ starts)
              (λ q.
                items-ReadsBack (item v vs) f f d (λ e. cc) w le (omega (arith, size))
                  (omega (arith, size)) q rest))
    value-ReadsBack (object end) (suc f) d w le lt p rest stops =
        parse_value-object h quiet m f d p (b'}' ∷ rest) (omega arith)
        ∙ parse_object-end h quiet m f _ p rest
    value-ReadsBack (object (field k v fs)) (suc f) d w le lt p rest stops =
        let text = append_fields true (field k v fs) in
        let (t, starts) = append_fields-Starts k v fs in
        let size = length-append text (b'}' ∷ []) in
        rw append_assoc (
          parse_value-object h quiet m f d p (text ++ (b'}' ∷ rest)) (omega arith)
          ∙ parse_object-fields h quiet m f _ p (text ++ (b'}' ∷ rest)) (text ++ (b'}' ∷ [])) rest
              (field k v fs) (λ q. rw starts (skip_whitespace_stays q b'"' _ refl)) (rw starts refl)
              (λ q.
                fields-ReadsBack (field k v fs) [] f f d (λ e. cc) w le (omega (arith, size))
                  (omega (arith, size)) q rest))

    items-ReadsBack :
        (vs : Items) (f g d : ℕ)
        → vs ≢ nil
        → WellFormedItems vs
        → d + nesting_items vs ≤ m
        → length (append_items true vs) < f
        → length (append_items true vs) < g
        → (p : Pos) (rest : Bytes)
        → items_loop f h (inside h quiet m g (d + 1)) p (append_items true vs ++ (b']' ∷ rest))
          ≡ ok (vs, past h (append_items true vs ++ (b']' ∷ [])) p, rest)
    items-ReadsBack nil f g d ne w le lt lg p rest = absurd (ne refl)
    items-ReadsBack (item v vs) zero g d ne w le lt lg p rest = absurd (omega arith)
    items-ReadsBack (item v nil) (suc f) g d ne w le lt lg p rest = rw append-nil (
        items_loop-last h quiet m f g (d + 1) v p rest (
          value-ReadsBack v g (d + 1) w.0 (omega arith)
            (omega (arith, length-append (append_value v) []))))
    items-ReadsBack (item v (item v' vs)) (suc f) g d ne w le lt lg p rest =
        let size =
          length-append (append_value v) (b',' ∷ (append_value v' ++ append_items false vs)) in
        simp append_assoc (
          simp append_assoc at (
            items_loop-more h quiet m f g (d + 1) v (item v' vs)
              (append_value v' ++ (append_items false vs ++ (b']' ∷ []))) p rest
              (value-ReadsBack v g (d + 1) w.0 (omega arith) (omega (arith, size)))
              (λ q. simp append_assoc (
                simp append_assoc at (
                  items-ReadsBack (item v' vs) f g d (λ e. cc) w.1 (omega arith)
                    (omega (arith, size)) (omega (arith, size)) q rest)))))

    fields-ReadsBack :
        (fs : Fields) (keys : List Bytes) (f g d : ℕ)
        → fs ≢ end
        → WellFormedFields fs keys
        → d + nesting_fields fs ≤ m
        → length (append_fields true fs) < f
        → length (append_fields true fs) < g
        → (p : Pos) (rest : Bytes)
        → fields_loop f h
            (inside h quiet m g (d + 1))
            keys
            p
            (append_fields true fs ++ (b'}' ∷ rest))
          ≡ ok (fs, past h (append_fields true fs ++ (b'}' ∷ [])) p, rest)
    fields-ReadsBack end keys f g d ne w le lt lg p rest = absurd (ne refl)
    fields-ReadsBack (field k v fs) keys zero g d ne w le lt lg p rest = absurd (omega arith)
    fields-ReadsBack (field k v end) keys (suc f) g d ne w le lt lg p rest =
        let size = length-append (append_string k) (b':' ∷ (append_value v ++ [])) in
        let size' = length-append (append_value v) [] in
        simp (append_assoc, append-nil)
          (fields_loop-last h quiet m f g (d + 1) keys k v w.0
            (value-ReadsBack v g (d + 1) w.1 (omega arith) (omega (arith, size, size'))) p rest)
    fields-ReadsBack (field k v (field k' v' fs)) keys (suc f) g d ne w le lt lg p rest =
        let text = append_fields true (field k' v' fs) in
        let size = length-append (append_string k) (b':' ∷ (append_value v ++ (b',' ∷ text))) in
        let size' = length-append (append_value v) (b',' ∷ text) in
        simp append_assoc (
          simp append_assoc at (
            fields_loop-more h quiet m f g (d + 1) keys k v w.0
              (value-ReadsBack v g (d + 1) w.1 (omega arith) (omega (arith, size, size'))) p rest
              (field k' v' fs) (text ++ (b'}' ∷ []))
              (λ q. simp append_assoc (
                simp append_assoc at (
                  fields-ReadsBack (field k' v' fs) (k ∷ keys) f g d (λ e. cc) w.2 (omega arith)
                    (omega (arith, size, size')) (omega (arith, size, size')) q rest)))))

poll-IsQuiet : (h : Handle) → IsQuiet h → (p : Pos) × (poll h ≡ ok p)
unfolding poll
poll-IsQuiet none quiet = (_, refl)
poll-IsQuiet (some requested) quiet = (record start { polls = 1 }, rw (quiet 0))

-- Parsing what was serialized gives the value back, if its numbers are JSON numbers, no object has
-- a key twice, the limits on bytes and on depth allow it and nobody cancels the request.
pub parse-serialize :
    (h : Handle) (maximum_bytes maximum_depth : ℕ) (v : JsonValue)
    → IsQuiet h
    → WellFormed v
    → nesting v ≤ maximum_depth
    → length (serialize v) ≤ maximum_bytes
    → parse h maximum_bytes maximum_depth (serialize v) ≡ ok v
unfolding parse serialize
parse-serialize h n m v quiet w deep short =
    let (p, polled) = poll-IsQuiet h quiet in
    let s = append_value-Starts v w in
    let skip : skip_whitespace p (append_value v) ≡ (p, append_value v) =
      rw s.splits (skip_whitespace_stays p s.first s.others s.no_space) in
    let back =
      value-ReadsBack h quiet m v (suc (length (append_value v))) 0 w (omega arith) (omega arith) p
        [] refl in
    let fits : ltb n (length (append_value v)) ≡ false = ground arith in
    rw (fits, polled) (rw skip (rw (rw append-nil at back) (rw skip_whitespace-nil)))
