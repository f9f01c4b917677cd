-- ===== src/Parser/Literals.antt =====
-- String literals: a text that is written with escapes is read back, and what is read is normal.
use crossa.Prelude.{
  ℕ, zero, suc, ◌+◌, ◌-◌, ◌<◌, Bool, true, false, ◌||◌, [], ◌∷◌, ◌++◌, append-nil, append_assoc,
  Bytes, length, take, length-append, take-append, ◌==◌, ltb, if◌then◌else◌, ok, ◌≡◌, refl, ap, ◌∙◌,
  arith, inl, inr, Bool-cases,
}
use crossa.Lexer.Token.{Token}
use crossa.Syntax.{StringSegment, StringSegmentKind}
use crossa.Parser.Cursor.{get_lexeme}
use crossa.Parser.Strings.{
  append_string_escape, location_in, is_interpolation, segments_loop, parse_string_segments,
}

-- A byte that ends a literal, or starts an escape or an interpolation.
abbrev is_special : ℕ → Bool
is_special c = c == b'"' || c == b'\\' || c == b'#'

-- How a text is written in a literal: a backslash stands before each special byte.
unfoldable pub escape_text : Bytes → Bytes
escape_text [] = []
escape_text (c ∷ cs) =
    let rest = escape_text cs in if is_special c then b'\\' ∷ c ∷ rest else c ∷ rest

-- The segment of a text that starts at `start`.
abbrev pub literal_segment : Token → ℕ → Bytes → StringSegment
literal_segment token start text = record {
  kind = StringSegmentKind.literal;
  value = text;
  location = location_in token start;
}

interpolation_of_plain : (c : ℕ) (cs : Bytes) → is_special c ≡ false → is_interpolation c cs ≡ false
unfolding is_interpolation
interpolation_of_plain c [] h = refl
interpolation_of_plain c (d ∷ cs) h = ground arith

append_snoc : (l : Bytes) (c : ℕ) (cs : Bytes) → (l ++ c ∷ []) ++ cs ≡ l ++ c ∷ cs
append_snoc l c cs = append_assoc l (c ∷ []) cs

module _ (token : Token) where
  escape_special :
      (c current : ℕ) (rest : Bytes)
      → is_special c ≡ true
      → append_string_escape token current (c ∷ rest) ≡ ok (c ∷ [], current + 1, rest)
  unfolding append_string_escape
  escape_special c current rest h = ground arith

  -- With a literal begun, the text is read to its end.
  segments_loop-escape_text :
      (text : Bytes) (f a : ℕ) (literal : Bytes) (start current : ℕ)
      → length (escape_text text) < f
      → segments_loop f token (a ∷ literal) start current (escape_text text)
        ≡ ok (literal_segment token start (a ∷ (literal ++ text)) ∷ [])
  unfolding segments_loop escape_text
  segments_loop-escape_text [] zero a literal start current lt = absurd (omega arith)
  segments_loop-escape_text [] (suc f) a literal start current lt = rw (append-nil literal) refl
  segments_loop-escape_text (c ∷ cs) zero a literal start current lt = elim lt [ ]
  segments_loop-escape_text (c ∷ cs) (suc f) a literal start current lt =
      let next = λ (current : ℕ) (less : length (escape_text cs) < f).
        segments_loop-escape_text cs f a (literal ++ c ∷ []) start current less
        ∙ ap (λ t. ok (literal_segment token start (a ∷ t) ∷ [])) (append_snoc literal c cs) in
      elim (Bool-cases (is_special c)) [
        | inl special ↦
            rw (special, escape_special c (current + 1) (escape_text cs) special)
              (next _ (ground (arith, special)))
        | inr plain ↦
            let other : (c == b'\\') ≡ false = ground arith in
            rw (plain, other, interpolation_of_plain c (escape_text cs) plain)
              (next _ (ground (arith, plain)))
      ]

  -- The first byte begins the literal.
  segments_loop-first :
      (c : ℕ) (cs : Bytes) (f : ℕ)
      → length (escape_text (c ∷ cs)) < f
      → segments_loop f token [] 0 0 (escape_text (c ∷ cs))
        ≡ ok (literal_segment token 0 (c ∷ cs) ∷ [])
  unfolding segments_loop escape_text
  segments_loop-first c cs zero lt = elim lt [ ]
  segments_loop-first c cs (suc f) lt = elim (Bool-cases (is_special c)) [
    | inl special ↦
        rw (special, escape_special c 1 (escape_text cs) special)
          (segments_loop-escape_text cs f c [] 0 2 (ground (arith, special)))
    | inr plain ↦
        let other : (c == b'\\') ≡ false = ground arith in
        rw (plain, other, interpolation_of_plain c (escape_text cs) plain)
          (segments_loop-escape_text cs f c [] 0 1 (ground (arith, plain)))
  ]

  -- The content of a literal between its quotes.
  content_of_quoted : (q : ℕ) (w : Bytes) → take (length (q ∷ (w ++ q ∷ [])) - 2) (w ++ q ∷ []) ≡ w
  content_of_quoted q w =
      let size : length (q ∷ (w ++ q ∷ [])) - 2 ≡ length w =
        omega (arith, length-append w (q ∷ [])) in
      rw size (take-append w (q ∷ []))

  -- A literal that writes a text that is not empty with a backslash before each quote, backslash
  -- and hash is read as one segment: that text, at the place behind the opening quote.
  pub parse_string_segments-escape_text :
      (source : Bytes) (c : ℕ) (cs : Bytes)
      → get_lexeme source token ≡ b'"' ∷ (escape_text (c ∷ cs) ++ b'"' ∷ [])
      → parse_string_segments source token ≡ ok (literal_segment token 0 (c ∷ cs) ∷ [])
  unfolding parse_string_segments
  parse_string_segments-escape_text source c cs h =
      let w = escape_text (c ∷ cs) in
      let long : ltb (length (b'"' ∷ (w ++ b'"' ∷ []))) 2 ≡ false =
        ground (arith, length-append w (b'"' ∷ [])) in
      rw (h, long, content_of_quoted b'"' w)
        (segments_loop-first c cs (suc (length w)) (omega arith))
