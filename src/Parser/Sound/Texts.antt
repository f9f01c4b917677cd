-- ===== src/Parser/Sound/Texts.antt =====
-- The segments of a string literal are read with fuel to spare, and fail at the literal's token.
use Prim.Native.String.{String}
use crossa.Prelude.{
  ℕ, zero, suc, ◌+◌, ◌-◌, ◌*◌, ◌≤◌, ◌<◌, not, List, [], ◌∷◌, Bytes, length, take, drop, ltb, ◌==◌,
  ok, ◌>>=◌, ◌≡◌, arith, Result, Post, done, Post-if, Post-bind, Post-weaken, Post-self,
}
use crossa.Lexer.Token.{Token}
use crossa.Parser.Cursor.{ParseError, fail, get_lexeme}
use crossa.Parser.Strings.{
  code_unit_digit, read_digits, read_hex_code_unit, low_surrogate, unicode_escape,
  append_string_escape, append_code_point, segments_loop, parse_string_segments, is_interpolation,
  name_length, starts_escape,
}
use crossa.Parser.Sound.Cursors.{Fails, fail-Post}

length-drop : {A : Type 0} (n : ℕ) (xs : List A) → length (drop n xs) ≤ length xs
length-drop zero xs = omega arith
length-drop (suc n) [] = omega arith
length-drop (suc n) (x ∷ xs) = omega (arith, length-drop n xs)

module _ (P : Token → Type 0) (token : Token) (p : P token) where
  -- No more is left than there was.
  abbrev Keeps : {A : Type 0} → Bytes → Result ParseError (A × ℕ × Bytes) → Type 0
  Keeps bs m = Post (Fails P) (λ x. length x.2 ≤ length bs) m

  stays : {A : Type 0} {Q : A → Type 0} (message : String) → Post (Fails P) Q (fail token message)
  stays message = fail-Post P token message p

  code_unit_digit-Post : (c : ℕ) → Post (Fails P) (λ d. Unit {0}) (code_unit_digit token c)
  unfolding code_unit_digit
  code_unit_digit-Post c = search (Post-if, done, stays, tt) depth 8

  read_digits-Post :
      (rounds value current : ℕ) (bs : Bytes) → Keeps bs (read_digits token rounds value current bs)
  unfolding read_digits
  read_digits-Post zero value current bs = done (omega arith)
  read_digits-Post (suc rounds) value current [] = stays _
  read_digits-Post (suc rounds) value current (c ∷ cs) =
      Post-bind _ (code_unit_digit-Post c) (λ d u.
        Post-weaken (read_digits-Post rounds (value * 16 + d) (current + 1) cs)
          (λ x le. omega arith))

  read_hex_code_unit-Post :
      (current : ℕ) (bs : Bytes) → Keeps bs (read_hex_code_unit token current bs)
  unfolding read_hex_code_unit
  read_hex_code_unit-Post current bs = search (Post-if, stays, read_digits-Post 4 0 current bs)

  low_surrogate-Post :
      (high current : ℕ) (bs : Bytes) → Keeps bs (low_surrogate token high current bs)
  unfolding low_surrogate
  low_surrogate-Post high current bs =
      Post-if (not (starts_escape bs)) _ _ (λ _. stays _)
        (λ _. Post-bind _ (read_hex_code_unit-Post (current + 2) (drop 2 bs)) (λ x le.
          let le' : length x.2 ≤ length bs = omega (arith, length-drop 2 bs) in
          search (Post-if, stays, done, le')))

  unicode_escape-Post : (current : ℕ) (bs : Bytes) → Keeps bs (unicode_escape token current bs)
  unfolding unicode_escape
  unicode_escape-Post current bs = Post-bind _ (read_hex_code_unit-Post current bs) (λ x le.
      let low =
        Post-weaken {Q = λ y. length y.2 ≤ length bs} (low_surrogate-Post x.0 x.1 x.2)
          (λ y le'. omega arith) in
      search (Post-if, low, stays, done, le) depth 8)

  unicode_case-Post :
      (current : ℕ) (bs : Bytes)
      → Keeps bs (unicode_escape token current bs >>= λ x. ok (append_code_point x.0, x.1, x.2))
  unicode_case-Post current bs = Post-bind _ (unicode_escape-Post current bs) (λ x le. done le)

  append_string_escape-Post :
      (current : ℕ) (bs : Bytes) → Keeps bs (append_string_escape token current bs)
  unfolding append_string_escape
  append_string_escape-Post current [] = stays _
  append_string_escape-Post current (c ∷ bs) =
      let le : length bs ≤ suc (length bs) = omega arith in
      let unicode =
        Post-weaken {Q = λ x. length x.2 ≤ suc (length bs)} (unicode_case-Post (current + 1) bs)
          (λ x le'. omega arith) in
      search (Post-if, done, stays, unicode, le) depth 18

  segments_loop-Post :
      (f : ℕ) (literal : Bytes) (start current : ℕ) (bs : Bytes)
      → length bs < f
      → Post (Fails P) (λ segments. Unit {0}) (segments_loop f token literal start current bs)
  unfolding segments_loop
  segments_loop-Post zero literal start current bs lt = absurd (omega arith)
  segments_loop-Post (suc f) literal start current [] lt = done tt
  segments_loop-Post (suc f) literal start current (c ∷ cs) lt =
      Post-if (c == b'\\') _ _
        (λ _.
          Post-bind _ (append_string_escape-Post (current + 1) cs)
            (λ x le. segments_loop-Post f _ _ _ x.2 (omega arith)))
        (λ _.
          Post-if (is_interpolation c cs) _ _
            (λ _.
              Post-bind _
                (segments_loop-Post f [] start _ _ (omega (arith, length-drop (name_length cs) cs)))
                (λ segments u. done tt))
            (λ _. segments_loop-Post f _ _ _ cs (omega arith)))

  parse_string_segments-total :
      (source : Bytes) → Post (Fails P) (λ segments. Unit {0}) (parse_string_segments source token)
  unfolding parse_string_segments
  parse_string_segments-total source =
      let lexeme = get_lexeme source token in
      let content = take (length lexeme - 2) (drop 1 lexeme) in
      Post-if (ltb (length lexeme) 2) _ _ (λ _. stays _)
        (λ _. segments_loop-Post (suc (length content)) [] 0 0 content (omega arith))

  pub parse_string_segments-Post :
      (source : Bytes)
      → Post
          (Fails P)
          (λ segments. parse_string_segments source token ≡ ok segments)
          (parse_string_segments source token)
  parse_string_segments-Post source = Post-self _ (parse_string_segments-total source)
