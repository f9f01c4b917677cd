-- ===== src/Parser/Segments.antt =====
-- What the segments of a string literal look like.
use crossa.Prelude.{
  ℕ, zero, suc, ◌+◌, true, List, [], ◌∷◌, Bytes, take, drop, All, ◌==◌, ok, err, ◌>>=◌, ◌≡◌, ◌≢◌,
  refl, subst, arith, inl, inr, Bool-cases, Result, Post, done, stop, Post-if, Post-bind, Post-ok,
}
use crossa.Lexer.Token.{Token}
use crossa.Syntax.{StringSegment, StringSegmentKind}
use crossa.Parser.Cursor.{ParseError, fail}
use crossa.Parser.Strings.{
  is_identifier_start, is_identifier_part, append_string_escape, flush, is_interpolation,
  name_length, identifier_segment, segments_loop, parse_string_segments,
}

-- An identifier of the language
abbrev pub IsName : Bytes → Type 0
IsName [] = ⊥
IsName (c ∷ cs) = (is_identifier_start c ≡ true) × All (λ d. is_identifier_part d ≡ true) cs

-- A literal is not empty; an interpolation has a name.
abbrev pub IsSegment : StringSegmentKind → Bytes → Type 0
IsSegment StringSegmentKind.literal value = value ≢ []
IsSegment StringSegmentKind.identifier value = IsName value

-- No literal stands right behind another.
abbrev pub Separate : StringSegmentKind → List StringSegment → Type 0
Separate StringSegmentKind.literal (s ∷ _) = s.kind ≡ StringSegmentKind.identifier
Separate _ _ = Unit

abbrev pub IsNormal : List StringSegment → Type 0
IsNormal [] = Unit
IsNormal (s ∷ segments) = IsSegment s.kind s.value × Separate s.kind segments × IsNormal segments

name_length-IsName :
    (cs : Bytes) → All (λ d. is_identifier_part d ≡ true) (take (name_length cs) cs)
unfolding name_length
name_length-IsName [] = tt
name_length-IsName (c ∷ cs) = elim (Bool-cases (is_identifier_part c)) [
  | inl part ↦ rw part (part, name_length-IsName cs)
  | inr other ↦ rw other tt
]

interpolation-IsName :
    (c : ℕ) (cs : Bytes) → is_interpolation c cs ≡ true → IsName (take (name_length cs) cs)
unfolding is_interpolation name_length is_identifier_part
interpolation-IsName c [] h = absurd (cc)
interpolation-IsName c (d ∷ cs) h =
    let first : is_identifier_start d ≡ true = ground arith in
    let part : is_identifier_part d ≡ true = rw first refl in rw part (first, name_length-IsName cs)

module _ (token : Token) where
  -- A literal before an interpolation
  flush-IsNormal :
      (literal : Bytes) (start current : ℕ) (name : Bytes) (segments : List StringSegment)
      → IsName name
      → IsNormal segments
      → IsNormal (flush token literal start (identifier_segment token current name ∷ segments))
  unfolding flush
  flush-IsNormal [] start current name segments named normal = (named, tt, normal)
  flush-IsNormal (c ∷ cs) start current name segments named normal =
      ((λ e. cc), refl, (named, tt, normal))

  last-IsNormal : (literal : Bytes) (start : ℕ) → IsNormal (flush token literal start [])
  unfolding flush
  last-IsNormal [] start = tt
  last-IsNormal (c ∷ cs) start = ((λ e. cc), tt, tt)

  abbrev Normal : Result ParseError (List StringSegment) → Type 0
  Normal m = Post (λ e. Unit {0}) IsNormal m

  escaped-Normal :
      (m : Result ParseError (Bytes × ℕ × Bytes))
      (k : Bytes × ℕ × Bytes → Result ParseError (List StringSegment))
      → ((x : Bytes × ℕ × Bytes) → Normal (k x))
      → Normal (m >>= k)
  escaped-Normal (ok x) k h = h x
  escaped-Normal (err e) k h = stop tt

  segments_loop-IsNormal :
      (f : ℕ) (literal : Bytes) (start current : ℕ) (bs : Bytes)
      → Normal (segments_loop f token literal start current bs)
  unfolding segments_loop
  segments_loop-IsNormal zero literal start current bs = stop tt
  segments_loop-IsNormal (suc f) literal start current [] = done (last-IsNormal literal start)
  segments_loop-IsNormal (suc f) literal start current (c ∷ cs) =
      Post-if (c == b'\\') _ _
        (λ _.
          escaped-Normal (append_string_escape token (current + 1) cs) _
            (λ x. segments_loop-IsNormal f _ _ x.1 x.2))
        (λ _.
          Post-if (is_interpolation c cs) _ _
            (λ h.
              Post-bind _ (segments_loop-IsNormal f [] start _ (drop (name_length cs) cs))
                (λ segments normal. done (
                  flush-IsNormal literal start (current + 1) _ segments
                    (interpolation-IsName c cs h) normal)))
            (λ _. segments_loop-IsNormal f _ _ (current + 1) cs))

  parse_string_segments-Normal : (source : Bytes) → Normal (parse_string_segments source token)
  unfolding parse_string_segments fail
  parse_string_segments-Normal source = search (Post-if, stop, tt, segments_loop-IsNormal)

  -- Whatever a string literal says, no literal segment of it is empty or stands right behind
  -- another, and every interpolation names an identifier of the language.
  pub parse_string_segments-IsNormal :
      (source : Bytes) (segments : List StringSegment)
      → parse_string_segments source token ≡ ok segments
      → IsNormal segments
  parse_string_segments-IsNormal source segments h =
      Post-ok segments (subst Normal h (parse_string_segments-Normal source))
