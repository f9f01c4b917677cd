-- ===== src/Json/Sound/Texts.antt =====
-- Strings and numbers shorten the input, and their loops have fuel enough.
use crossa.Prelude.{
  ℕ, zero, suc, ◌+◌, ◌*◌, ◌≤◌, ◌<◌, true, [], ◌∷◌, ◌++◌, Bytes, length, ◌==◌, err, ◌>>=◌, ◌≡◌, refl,
  arith, Bool-cases, inl, inr, within, ◌||◌,
}
use crossa.Json.Value.{peek, is_digit, is_valid_number}
use crossa.Json.Cursor.{advance, bad_code_point, Reason, Handle, Pos, step, Read}
use crossa.Json.Strings.{
  string_round, unicode_bytes, hex_digit, hex_loop, low_half, unicode_escape, append_code_point,
  unescape, string_loop, parse_string,
}
use crossa.Json.Parser.{
  skip_digits, scan_sign, scan_integer, scan_digits, scan_fraction, scan_exponent_sign,
  scan_exponent, scan, create_number, parse_number,
}
use crossa.Json.Shape.{WellFormed, nesting}
use crossa.Json.Ensures.{Ensures, done, stop, Ensures-if, Ensures-bind, Ensures-weaken}
use crossa.Json.Sound.Cursors.{
  Shrinks, Keeps, ReadShrinks, ReadKeeps, fail-Ensures, advance-Ensures, step-Ensures,
  consume-Ensures,
}

bad_code_point-Ensures : {A : Type 0} {Q : A → Type 0} → Ensures Q (err bad_code_point)
bad_code_point-Ensures = stop (λ e. cc e)

hex_digit-Ensures : (p : Pos) (c : ℕ) → Ensures (λ d. Unit {0}) (hex_digit p c)
unfolding hex_digit
hex_digit-Ensures p c = search (Ensures-if, done, fail-Ensures, tt) depth 8

hex_loop-Ensures :
    (h : Handle) (rounds value : ℕ) (p : Pos) (bs : Bytes)
    → ReadKeeps bs (hex_loop h rounds value p bs)
unfolding hex_loop
hex_loop-Ensures h zero value p bs = done (omega arith)
hex_loop-Ensures h (suc rounds) value p bs = Ensures-bind _ (advance-Ensures h p bs) (λ x lt.
    Ensures-bind _ (hex_digit-Ensures x.1 x.0) (λ d u.
      Ensures-weaken (hex_loop-Ensures h rounds (value * 16 + d) x.1 x.2) (λ y le. omega arith)))

low_half-Ensures :
    (h : Handle) (high : ℕ) (p : Pos) (bs : Bytes) → ReadKeeps bs (low_half h high p bs)
unfolding low_half
low_half-Ensures h high p bs = Ensures-bind _ (consume-Ensures h _ p bs) (λ x lt.
    Ensures-bind _ (consume-Ensures h _ x.0 x.1) (λ y lt'.
      Ensures-bind _ (hex_loop-Ensures h 4 0 y.0 y.1)
        (λ z le. search (Ensures-if, done, fail-Ensures, arith))))

unicode_escape-Ensures : (h : Handle) (p : Pos) (bs : Bytes) → ReadKeeps bs (unicode_escape h p bs)
unfolding unicode_escape
unicode_escape-Ensures h p bs = Ensures-bind _ (hex_loop-Ensures h 4 0 p bs) (λ x le.
    let low =
      Ensures-weaken {Q = λ y. length y.2 ≤ length bs} (low_half-Ensures h x.0 x.1 x.2)
        (λ y le'. omega arith) in
    search (Ensures-if, low, done, fail-Ensures, le) depth 8)

append_code_point-Ensures : (c : ℕ) → Ensures (λ o. Unit {0}) (append_code_point c)
unfolding append_code_point
append_code_point-Ensures c = search (Ensures-if, done, bad_code_point-Ensures, tt) depth 10

unicode_bytes-Ensures : (h : Handle) (p : Pos) (bs : Bytes) → ReadKeeps bs (unicode_bytes h p bs)
unfolding unicode_bytes
unicode_bytes-Ensures h p bs =
    Ensures-bind _ (unicode_escape-Ensures h p bs)
      (λ x le. Ensures-bind _ (append_code_point-Ensures x.0) (λ o u. done le))

unescape-Ensures : (h : Handle) (c : ℕ) (p : Pos) (bs : Bytes) → ReadKeeps bs (unescape h c p bs)
unfolding unescape
unescape-Ensures h c p bs =
    let le : length bs ≤ length bs = omega arith in
    search (Ensures-if, done, fail-Ensures, unicode_bytes-Ensures h p bs, le) depth 18

string_escape-Ensures :
    (h : Handle) (loop : Bytes → Pos → Bytes → Read Bytes) (output : Bytes) (p : Pos) (bs : Bytes)
    → ((o : Bytes) (q : Pos) (r : Bytes) → length r < length bs → ReadKeeps r (loop o q r))
    → ReadKeeps bs
        (advance h p bs >>= λ x. unescape h x.0 x.1 x.2 >>= λ y. loop (output ++ y.0) y.1 y.2)
string_escape-Ensures h loop output p bs ih = Ensures-bind _ (advance-Ensures h p bs) (λ x lt.
    Ensures-bind _ (unescape-Ensures h x.0 x.1 x.2)
      (λ y le. Ensures-weaken (ih (output ++ y.0) y.1 y.2 (omega arith)) (λ z le'. omega arith)))

string_round-Ensures :
    (h : Handle) (loop : Bytes → Pos → Bytes → Read Bytes) (output : Bytes) (c : ℕ) (p : Pos)
    (bs : Bytes)
    → ((o : Bytes) (q : Pos) (r : Bytes) → length r ≤ length bs → ReadKeeps r (loop o q r))
    → ReadKeeps bs (string_round h loop output c p bs)
unfolding string_round
string_round-Ensures h loop output c p bs ih =
    let le : length bs ≤ length bs = omega arith in
    let escape = string_escape-Ensures h loop output p bs (λ o q r lt. ih o q r (omega arith)) in
    let plain = ih (output ++ c ∷ []) p bs le in
    search (Ensures-if, done, fail-Ensures, escape, plain, le) depth 10

string_loop-Ensures :
    (f : ℕ) (h : Handle) (output : Bytes) (p : Pos) (bs : Bytes)
    → length bs < f
    → ReadKeeps bs (string_loop f h output p bs)
unfolding string_loop
string_loop-Ensures zero h output p bs lt = absurd (omega arith)
string_loop-Ensures (suc f) h output p [] lt = fail-Ensures p _
string_loop-Ensures (suc f) h output p (c ∷ cs) lt =
    Ensures-bind _ (advance-Ensures h p (c ∷ cs)) (λ x less.
      Ensures-weaken
        (string_round-Ensures h (string_loop f h) output x.0 x.1 x.2
          (λ o q r le. string_loop-Ensures f h o q r (omega arith)))
        (λ y le. omega arith))

pub parse_string-Ensures :
    (h : Handle) (p : Pos) (bs : Bytes) → ReadShrinks bs (parse_string h p bs)
unfolding parse_string
parse_string-Ensures h p bs = Ensures-bind _ (consume-Ensures h b'"' p bs) (λ x lt.
    Ensures-weaken (string_loop-Ensures (suc (length x.1)) h [] x.0 x.1 (omega arith))
      (λ y le. omega arith))

skip_digits-Ensures : (h : Handle) (p : Pos) (bs : Bytes) → Keeps bs (skip_digits h p bs)
unfolding skip_digits
skip_digits-Ensures h p [] = done (omega arith)
skip_digits-Ensures h p (c ∷ cs) = elim (Bool-cases (is_digit c)) [
  | inl digit ↦ rw digit (
      Ensures-bind _ (step-Ensures h p (c ∷ cs))
        (λ x lt. Ensures-weaken (skip_digits-Ensures h x.0 cs) (λ y le. omega arith)))
  | inr other ↦ rw other (done (omega arith))
]

-- If a digit stands at the cursor, something is read.
skip_digits-Shrinks :
    (h : Handle) (p : Pos) (bs : Bytes)
    → is_digit (peek bs) ≡ true
    → Shrinks bs (skip_digits h p bs)
unfolding skip_digits
skip_digits-Shrinks h p [] digit = absurd (ground arith)
skip_digits-Shrinks h p (c ∷ cs) digit = rw digit (
    Ensures-bind _ (step-Ensures h p (c ∷ cs))
      (λ x lt. Ensures-weaken (skip_digits-Ensures h x.0 cs) (λ y le. omega arith)))

step-Keeps : (h : Handle) (p : Pos) (bs : Bytes) → Keeps bs (step h p bs)
step-Keeps h p bs = Ensures-weaken (step-Ensures h p bs) (λ x lt. omega arith)

module _ (h : Handle) where
  scan_sign-Ensures : (p : Pos) (bs : Bytes) → Keeps bs (scan_sign h p bs)
  unfolding scan_sign
  scan_sign-Ensures p bs =
      let le : length bs ≤ length bs = omega arith in
      search (Ensures-if, done, step-Keeps h p bs, le)

  scan_integer-Ensures : (p : Pos) (bs : Bytes) → Shrinks bs (scan_integer h p bs)
  unfolding scan_integer
  scan_integer-Ensures p bs = elim (Bool-cases (within b'1' b'9' (peek bs))) [
    | inl digit ↦
        let read = skip_digits-Shrinks h p bs (ground arith) in
        search (Ensures-if, fail-Ensures, step-Ensures h p bs, read)
    | inr other ↦ rw other (search (Ensures-if, fail-Ensures, step-Ensures h p bs))
  ]

  scan_digits-Ensures : (why : Reason) (p : Pos) (bs : Bytes) → Keeps bs (scan_digits h why p bs)
  unfolding scan_digits
  scan_digits-Ensures why p bs = search (Ensures-if, fail-Ensures, skip_digits-Ensures h p bs)

  scan_fraction-Ensures : (p : Pos) (bs : Bytes) → Keeps bs (scan_fraction h p bs)
  unfolding scan_fraction
  scan_fraction-Ensures p bs = elim (Bool-cases (peek bs == b'.')) [
    | inl point ↦ rw point (
        Ensures-bind _ (step-Ensures h p bs)
          (λ x lt. Ensures-weaken (scan_digits-Ensures _ x.0 x.1) (λ y le. omega arith)))
    | inr other ↦ rw other (done (omega arith))
  ]

  scan_exponent_sign-Ensures : (p : Pos) (bs : Bytes) → Keeps bs (scan_exponent_sign h p bs)
  unfolding scan_exponent_sign
  scan_exponent_sign-Ensures p bs =
      let le : length bs ≤ length bs = omega arith in
      search (Ensures-if, done, step-Keeps h p bs, le)

  scan_exponent-Ensures : (p : Pos) (bs : Bytes) → Keeps bs (scan_exponent h p bs)
  unfolding scan_exponent
  scan_exponent-Ensures p bs = elim (Bool-cases (peek bs == b'e' || peek bs == b'E')) [
    | inl marked ↦ rw marked (
        Ensures-bind _ (step-Ensures h p bs) (λ x lt.
          Ensures-bind _ (scan_exponent_sign-Ensures x.0 x.1)
            (λ y le. Ensures-weaken (scan_digits-Ensures _ y.0 y.1) (λ z le'. omega arith))))
    | inr other ↦ rw other (done (omega arith))
  ]

  scan-Ensures : (p : Pos) (bs : Bytes) → Shrinks bs (scan h p bs)
  unfolding scan
  scan-Ensures p bs = Ensures-bind _ (scan_sign-Ensures p bs) (λ x a.
      Ensures-bind _ (scan_integer-Ensures x.0 x.1) (λ y b.
        Ensures-bind _ (scan_fraction-Ensures y.0 y.1)
          (λ z c. Ensures-weaken (scan_exponent-Ensures z.0 z.1) (λ w d. omega arith))))

  create_number-Ensures :
      (text : Bytes) → Ensures (λ v. WellFormed v × (nesting v ≡ 0)) (create_number text)
  unfolding create_number nesting
  create_number-Ensures text = elim (Bool-cases (is_valid_number text)) [
    | inl valid ↦ rw valid (done (valid, refl))
    | inr bad ↦ rw bad (stop (λ e. cc e))
  ]

  pub parse_number-Ensures :
      (p : Pos) (bs : Bytes)
      → Ensures
          (λ x. WellFormed x.0 × (nesting x.0 ≡ 0) × (length x.2 < length bs))
          (parse_number h p bs)
  unfolding parse_number
  parse_number-Ensures p bs =
      Ensures-bind _ (scan-Ensures p bs)
        (λ x lt. Ensures-bind _ (create_number-Ensures _) (λ v w. done (w.0, w.1, lt)))
