-- ===== src/Json/RoundTrip/Numbers.antt =====
-- The parser reads each valid number text whole, where nothing behind it continues the number.
use mathlib.Core.List.{append-nil, append_assoc}
use mathlib.Core.Path.{subst}
use crossa.Prelude.{
  ℕ, ◌+◌, ◌-◌, true, false, ◌||◌, inl, inr, [], ◌∷◌, ◌++◌, Option, some, Bytes, length, take-append,
  ◌==◌, within, ok, ◌>>=◌, ◌≡◌, refl, sym, ap, ◌∙◌, arith, Bool-cases, Option-cases,
}
use crossa.Json.Value.{
  number, peek, is_digit, drop_digits, drop_sign, some_digits, valid_integer, valid_fraction,
  drop_exponent_sign, valid_exponent, is_valid_number,
}
use crossa.Json.Cursor.{Reason, Handle, Pos, Moved, step, bad_fraction, bad_exponent}
use crossa.Json.Parser.{
  skip_digits, scan_sign, scan_integer, scan_digits, scan_fraction, scan_exponent_sign,
  scan_exponent, create_number, scan, parse_number,
}
use crossa.Json.Quiet.{IsQuiet, past, past-append, current-past, step-IsQuiet}

-- No byte of `rest` could belong to a number in front of it.
abbrev pub Stops : Bytes → Type 0
Stops rest =
    (is_digit (peek rest) || peek rest == b'.' || peek rest == b'e' || peek rest == b'E') ≡ false

-- `m`, run at `p` in front of `text ++ rest`, reads all of `text` but its end `left`.
record Reads (h : Handle) (p : Pos) (m : Moved) (text left rest : Bytes) : Type 0 where
  word : Bytes
  splits : text ≡ word ++ left
  reads : m ≡ ok (past h word p, left ++ rest)

Reads-none :
    (h : Handle) (p : Pos) (m : Moved) (text rest : Bytes)
    → m ≡ ok (p, text ++ rest)
    → Reads h p m text text rest
unfolding past
Reads-none h p m text rest e = record { word = []; splits = refl; reads = e }

-- One scan after another.
Reads-bind :
    (h : Handle) (p : Pos) (m : Moved) (k : Pos × Bytes → Moved) (text mid left rest : Bytes)
    → Reads h p m text mid rest
    → ((q : Pos) → Reads h q (k (q, mid ++ rest)) mid left rest)
    → Reads h p (m >>= k) text left rest
Reads-bind h p m k text mid left rest a b =
    let t = b (past h a.word p) in
    record {
      word = a.word ++ t.word;
      splits = rw append_assoc (a.splits ∙ ap (◌++◌ a.word) t.splits);
      reads = rw (a.reads, past-append) t.reads;
    }

Reads-all :
    (h : Handle) (p : Pos) (m : Moved) (text rest : Bytes)
    → Reads h p m text [] rest
    → m ≡ ok (past h text p, rest)
Reads-all h p m text rest a =
    a.reads ∙ ap (λ w. ok (past h w p, rest)) (sym (append-nil a.word) ∙ sym a.splits)

module _ (h : Handle) (quiet : IsQuiet h) (rest : Bytes) where
  Reads-step :
      (p : Pos) (c : ℕ) (cs : Bytes) → Reads h p (step h p (c ∷ (cs ++ rest))) (c ∷ cs) cs rest
  Reads-step p c cs = record {
    word = c ∷ [];
    splits = refl;
    reads = step-IsQuiet h p c (cs ++ rest) quiet;
  }

  -- One more byte in front.
  Reads-cons :
      (p : Pos) (c : ℕ) (cs left : Bytes) (k : Pos × Bytes → Moved)
      → Reads h (past h (c ∷ []) p) (k (past h (c ∷ []) p, cs ++ rest)) cs left rest
      → Reads h p (step h p (c ∷ (cs ++ rest)) >>= k) (c ∷ cs) left rest
  unfolding past
  Reads-cons p c cs left k t = record {
    word = c ∷ t.word;
    splits = ap (◌∷◌ c) t.splits;
    reads = rw (step-IsQuiet h p c (cs ++ rest) quiet) t.reads;
  }

  skip_digits_rest :
      (p : Pos) (r : Bytes) → is_digit (peek r) ≡ false → skip_digits h p r ≡ ok (p, r)
  unfolding skip_digits
  skip_digits_rest p [] e = refl
  skip_digits_rest p (c ∷ cs) e = rw e

  skip_digits-Reads :
      (p : Pos) (text : Bytes)
      → is_digit (peek rest) ≡ false
      → Reads h p (skip_digits h p (text ++ rest)) text (drop_digits text) rest
  unfolding drop_digits skip_digits
  skip_digits-Reads p [] e = Reads-none h p _ [] rest (skip_digits_rest p rest e)
  skip_digits-Reads p (c ∷ cs) e = elim (Bool-cases (is_digit c)) [
    | inl digit ↦ rw digit (
        Reads-cons p c cs (drop_digits cs) (λ x. skip_digits h x.0 (cs ++ rest))
          (skip_digits-Reads (past h (c ∷ []) p) cs e))
    | inr other ↦ rw other (Reads-none h p _ (c ∷ cs) rest refl)
  ]

  -- What a valid text leaves behind is what the parser leaves in front of `rest`.
  abbrev Stage : (Bytes → Option Bytes) → (Pos → Bytes → Moved) → Type 0
  Stage valid scan =
      (p : Pos) (text left : Bytes)
      → valid text ≡ some left
      → Reads h p (scan p (text ++ rest)) text left rest

  scan_digits-Reads :
      (why : Reason) → is_digit (peek rest) ≡ false → Stage some_digits (scan_digits h why)
  unfolding scan_digits drop_digits
  scan_digits-Reads why e p [] left v = cc
  scan_digits-Reads why e p (c ∷ cs) left v = elim (Bool-cases (is_digit c)) [
    | inl digit ↦ rw digit (
        subst (λ l. Reads h p (skip_digits h p (c ∷ (cs ++ rest))) (c ∷ cs) l rest) (ground arith)
          (skip_digits-Reads p (c ∷ cs) e))
    | inr other ↦ absurd (ground arith)
  ]

  scan_integer-Reads : is_digit (peek rest) ≡ false → Stage valid_integer (scan_integer h)
  unfolding scan_integer drop_digits
  scan_integer-Reads e p [] left v = cc
  scan_integer-Reads e p (c ∷ cs) left v = elim (Bool-cases (c == b'0')) [
    | inl nought ↦ rw nought (
        subst (λ l. Reads h p (step h p (c ∷ (cs ++ rest))) (c ∷ cs) l rest) (ground arith)
          (Reads-step p c cs))
    | inr other ↦ elim (Bool-cases (within b'1' b'9' c)) [
      | inl digit ↦
          rw (other, digit)
            (subst (λ l. Reads h p (skip_digits h p (c ∷ (cs ++ rest))) (c ∷ cs) l rest)
              (ground arith) (skip_digits-Reads p (c ∷ cs) e))
      | inr bad ↦ absurd (ground arith)
    ]
  ]

  scan_fraction-Reads : Stops rest → Stage valid_fraction (scan_fraction h)
  unfolding scan_fraction
  scan_fraction-Reads stops p [] left v =
      subst (λ l. Reads h p (scan_fraction h p rest) [] l rest) (ground arith)
        (Reads-none h p _ [] rest (ground arith))
  scan_fraction-Reads stops p (c ∷ cs) left v = elim (Bool-cases (c == b'.')) [
    | inl point ↦ rw point (
        Reads-cons p c cs left (λ x. scan_digits h bad_fraction x.0 x.1)
          (scan_digits-Reads bad_fraction (ground arith) (past h (c ∷ []) p) cs left
            (ground arith)))
    | inr other ↦ rw other (
        subst (λ l. Reads h p (ok (p, c ∷ (cs ++ rest))) (c ∷ cs) l rest) (ground arith)
          (Reads-none h p _ (c ∷ cs) rest refl))
  ]

  scan_signed-Reads :
      is_digit (peek rest) ≡ false
      → Stage
          (λ text. some_digits (drop_exponent_sign text))
          (λ p bs. scan_exponent_sign h p bs >>= λ x. scan_digits h bad_exponent x.0 x.1)
  unfolding scan_exponent_sign
  scan_signed-Reads e p [] left v = cc
  scan_signed-Reads e p (c ∷ cs) left v = elim (Bool-cases (c == b'+' || c == b'-')) [
    | inl sign ↦ rw sign (
        Reads-cons p c cs left (λ x. scan_digits h bad_exponent x.0 x.1)
          (scan_digits-Reads bad_exponent e (past h (c ∷ []) p) cs left (rw sign at v)))
    | inr other ↦ rw other (scan_digits-Reads bad_exponent e p (c ∷ cs) left (rw other at v))
  ]

  scan_exponent-Reads : Stops rest → Stage valid_exponent (scan_exponent h)
  unfolding scan_exponent
  scan_exponent-Reads stops p [] left v =
      subst (λ l. Reads h p (scan_exponent h p rest) [] l rest) (ground arith)
        (Reads-none h p _ [] rest (ground arith))
  scan_exponent-Reads stops p (c ∷ cs) left v = elim (Bool-cases (c == b'e' || c == b'E')) [
    | inl marked ↦ rw marked (
        Reads-cons p c cs left
          (λ x. scan_exponent_sign h x.0 x.1 >>= λ y. scan_digits h bad_exponent y.0 y.1)
          (scan_signed-Reads (ground arith) (past h (c ∷ []) p) cs left (rw marked at v)))
    | inr other ↦ rw other (
        subst (λ l. Reads h p (ok (p, c ∷ (cs ++ rest))) (c ∷ cs) l rest) (ground arith)
          (Reads-none h p _ (c ∷ cs) rest refl))
  ]

  scan_sign-Reads :
      (p : Pos) (c : ℕ) (cs : Bytes)
      → Reads h p (scan_sign h p (c ∷ (cs ++ rest))) (c ∷ cs) (drop_sign (c ∷ cs)) rest
  unfolding scan_sign
  scan_sign-Reads p c cs = elim (Bool-cases (c == b'-')) [
    | inl minus ↦ rw minus (Reads-step p c cs)
    | inr other ↦ rw other (Reads-none h p _ (c ∷ cs) rest refl)
  ]

-- The three parts of a valid number, each in front of the next.
record Parts (text : Bytes) : Type 0 where
  integer : Bytes
  fraction : Bytes
  has_integer : valid_integer (drop_sign text) ≡ some integer
  has_fraction : valid_fraction integer ≡ some fraction
  has_exponent : valid_exponent fraction ≡ some []

valid-Parts : (text : Bytes) → is_valid_number text ≡ true → Parts text
unfolding is_valid_number
valid-Parts text v = elim (Option-cases (valid_integer (drop_sign text))) [
  | inl e ↦ absurd (ground arith)
  | inr (i, ei) ↦ elim (Option-cases (valid_fraction i)) [
    | inl e ↦ absurd (ground arith)
    | inr (f, ef) ↦ record {
      integer = i;
      fraction = f;
      has_integer = ei;
      has_fraction = ef;
      has_exponent = ground arith;
    }
  ]
]

module _ (h : Handle) (quiet : IsQuiet h) (rest : Bytes) (stops : Stops rest) (p : Pos) where
  scan-Parts : (text : Bytes) → Parts text → scan h p (text ++ rest) ≡ ok (past h text p, rest)
  unfolding scan
  scan-Parts [] parts = absurd (ground (arith, parts.has_integer))
  scan-Parts (c ∷ cs) parts =
      let digit : is_digit (peek rest) ≡ false = ground arith in
      Reads-all h p _ (c ∷ cs) rest (
        Reads-bind h p _ _ (c ∷ cs) (drop_sign (c ∷ cs)) [] rest
          (scan_sign-Reads h quiet rest p c cs)
          λ q1.
            Reads-bind h q1 _ _ (drop_sign (c ∷ cs)) parts.integer [] rest
              (scan_integer-Reads h quiet rest digit q1 _ _ parts.has_integer)
              λ q2.
                Reads-bind h q2 _ _ parts.integer parts.fraction [] rest
                  (scan_fraction-Reads h quiet rest stops q2 _ _ parts.has_fraction)
                  λ q3. scan_exponent-Reads h quiet rest stops q3 _ _ parts.has_exponent)

  -- With a handle that nobody cancels, or with none, `parseNumber` returns the text of a valid number as
  -- it stands and stops behind it, if what follows does not begin with a digit, a point, `e` or `E`.
  pub parse_number_lem :
      (text : Bytes)
      → is_valid_number text ≡ true
      → parse_number h p (text ++ rest) ≡ ok (number text, past h text p, rest)
  unfolding parse_number create_number
  parse_number_lem text v =
      let e : p.current + length text - p.current ≡ length text = omega arith in
      rw (scan-Parts text (valid-Parts text v)) (rw (current-past, e, take-append, v))
