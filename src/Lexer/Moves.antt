-- ===== src/Lexer/Moves.antt =====
-- Every scanner moves the cursor over a word of the text, and over at least one byte.
use crossa.Prelude.{
  ℕ, Bool, false, ◌&&◌, ◌||◌, inl, inr, [], ◌∷◌, ◌++◌, some, Bytes, ◌==◌, if◌then◌else◌, Result, ok,
  err, ◌>>=◌, ◌≡◌, refl, ap, ◌∙◌, append_assoc, Bool-cases, Option-cases, Post, done, stop, Post-if,
  Post-bind, Post-weaken,
}
use crossa.Lexer.Token.{TokenType}
use crossa.Lexer.Scan.{
  Cursor, Reason, Scanned, advance, peek, peek_next, is_digit, is_identifier_start,
  is_identifier_part, advance_while, advance_one, add_matched, require_matched, scan_identifier,
  scan_fraction, scan_exponent, scan_exponent_digits, skip_sign, scan_number, scan_string,
  scan_import_path, annotation, scan_annotation, skip_line_comment, scan_slash, scan_word, single,
  scan_other, scan_token,
}

-- The cursor behind some bytes.
unfoldable pub past : Bytes → Cursor → Cursor
past [] p = p
past (c ∷ cs) p = past cs (advance c p)

pub past-append : (a b : Bytes) (p : Cursor) → past (a ++ b) p ≡ past b (past a p)
unfolding past
past-append [] b p = refl
past-append (c ∷ cs) b p = past-append cs b (advance c p)

-- From `p` before `bs` to `q` before `r`, over a word.
pub record Moves (p : Cursor) (bs : Bytes) (q : Cursor) (r : Bytes) : Type 0 where
  pub word : Bytes
  pub splits : bs ≡ word ++ r
  pub reached : q ≡ past word p

pub stays : (p : Cursor) (bs : Bytes) → Moves p bs p bs
unfolding past
stays p bs = record { word = []; splits = refl; reached = refl }

pub Moves-cons :
    (p : Cursor) (c : ℕ) (cs : Bytes) (q : Cursor) (r : Bytes)
    → Moves (advance c p) cs q r
    → Moves p (c ∷ cs) q r
unfolding past
Moves-cons p c cs q r m = record {
  word = c ∷ m.word;
  splits = ap (◌∷◌ c) m.splits;
  reached = m.reached;
}

pub Moves-trans :
    {p q s : Cursor} {bs r t : Bytes} → Moves p bs q r → Moves q r s t → Moves p bs s t
Moves-trans {p} a b = record {
  word = a.word ++ b.word;
  splits = a.splits ∙ ap (◌++◌ a.word) b.splits ∙ append_assoc' a.word b.word _;
  reached = b.reached ∙ ap (past b.word) a.reached ∙ past-append' a.word b.word p;
}
  where
    append_assoc' : (x y z : Bytes) → x ++ (y ++ z) ≡ (x ++ y) ++ z
    append_assoc' x y z = rw append_assoc refl

    past-append' : (x y : Bytes) (p' : Cursor) → past y (past x p') ≡ past (x ++ y) p'
    past-append' x y p' = rw past-append refl

advance_while-Moves :
    (test : ℕ → Bool) (p : Cursor) (bs : Bytes)
    → let x = advance_while test p bs in Moves p bs x.0 x.1
unfolding advance_while
advance_while-Moves test p [] = stays p []
advance_while-Moves test p (c ∷ cs) = elim (Bool-cases (test c)) [
  | inl pass ↦ rw pass (Moves-cons p c cs _ _ (advance_while-Moves test (advance c p) cs))
  | inr fails ↦ rw fails (stays p (c ∷ cs))
]

advance_one-Moves : (p : Cursor) (bs : Bytes) → let x = advance_one p bs in Moves p bs x.0 x.1
unfolding advance_one past
advance_one-Moves p [] = stays p []
advance_one-Moves p (c ∷ cs) = Moves-cons p c cs _ _ (stays _ cs)

abbrev pub Advances : Cursor → Bytes → Scanned → Type 0
Advances p bs m = Post (λ why. Unit {0}) (λ x. Moves p bs x.1 x.2) m

failure : {A : Type 0} {Q : A → Type 0} (why : Reason) → Post (λ (e : Reason). Unit {0}) Q (err why)
failure why = stop tt

error : {p : Cursor} {bs : Bytes} (why : Reason) → Advances p bs (err why)
error why = stop tt

module _ (p : Cursor) (bs : Bytes) where
  add_matched-Advances :
      (c : ℕ) (longer shorter : TokenType) → Advances p bs (add_matched c longer shorter p bs)
  unfolding add_matched
  add_matched-Advances c longer shorter = search (Post-if, done, advance_one-Moves p bs, stays p bs)

  require_matched-Advances :
      (c : ℕ) (why : Reason) (t : TokenType) → Advances p bs (require_matched c why t p bs)
  unfolding require_matched
  require_matched-Advances c why t = search (Post-if, done, error, advance_one-Moves p bs)

  scan_identifier-Advances :
      (s : Cursor) (text : Bytes) → Advances p bs (scan_identifier s text p bs)
  unfolding scan_identifier
  scan_identifier-Advances s text = done (advance_while-Moves _ p bs)

  scan_fraction-Moves : let x = scan_fraction p bs in Moves p bs x.1 x.2
  unfolding scan_fraction
  scan_fraction-Moves = elim (Bool-cases (peek bs == b'.' && is_digit (peek_next bs))) [
    | inl point ↦ rw point (Moves-trans (advance_one-Moves p bs) (advance_while-Moves is_digit _ _))
    | inr other ↦ rw other (stays p bs)
  ]

  skip_sign-Moves : let x = skip_sign p bs in Moves p bs x.0 x.1
  unfolding skip_sign
  skip_sign-Moves = elim (Bool-cases (peek bs == b'+' || peek bs == b'-')) [
    | inl sign ↦ rw sign (advance_one-Moves p bs)
    | inr other ↦ rw other (stays p bs)
  ]

  abbrev NumberAdvances : Result Reason (Bool × Cursor × Bytes) → Type 0
  NumberAdvances m = Post (λ why. Unit {0}) (λ x. Moves p bs x.1 x.2) m

  scan_exponent_digits-Moves : NumberAdvances (scan_exponent_digits p bs)
  unfolding scan_exponent_digits
  scan_exponent_digits-Moves = elim (Bool-cases (is_digit (peek bs))) [
    | inl digit ↦ rw digit (done (advance_while-Moves is_digit p bs))
    | inr other ↦ rw other (stop tt)
  ]

scan_exponent-Moves :
    (decimal : Bool) (p : Cursor) (bs : Bytes) → NumberAdvances p bs (scan_exponent decimal p bs)
unfolding scan_exponent
scan_exponent-Moves decimal p bs = elim (Bool-cases (peek bs == b'e' || peek bs == b'E')) [
  | inr other ↦ rw other (done (stays p bs))
  | inl marked ↦ rw marked (
      Post-weaken (scan_exponent_digits-Moves _ _)
        (λ x m. Moves-trans (advance_one-Moves p bs) (Moves-trans (skip_sign-Moves _ _) m)))
]

module _ (p : Cursor) (bs : Bytes) where
  scan_number-Advances : Advances p bs (scan_number p bs)
  unfolding scan_number
  scan_number-Advances =
      let a = advance_while-Moves is_digit p bs in
      let b = scan_fraction-Moves (advance_while is_digit p bs).0 (advance_while is_digit p bs).1 in
      Post-bind _ (scan_exponent-Moves _ _ _) (λ x m. done (Moves-trans a (Moves-trans b m)))

  skip_line_comment-Advances : Advances p bs (skip_line_comment p bs)
  unfolding skip_line_comment
  skip_line_comment-Advances = done (advance_while-Moves _ p bs)

scan_string-Advances :
    (escaped : Bool) (p : Cursor) (bs : Bytes) → Advances p bs (scan_string escaped p bs)
unfolding scan_string
scan_string-Advances escaped p [] = error _
scan_string-Advances escaped p (c ∷ cs) =
    let quote = Moves-cons p c cs _ _ (stays (advance c p) cs) in
    let rest =
      Post-weaken {Q = λ x. Moves p (c ∷ cs) x.1 x.2}
        (scan_string-Advances (if escaped then false else c == b'\\') (advance c p) cs)
        (λ x m. Moves-cons p c cs x.1 x.2 m) in
    search (Post-if, done, error, quote, rest)

scan_import_path-Advances : (p : Cursor) (bs : Bytes) → Advances p bs (scan_import_path p bs)
unfolding scan_import_path
scan_import_path-Advances p [] = error _
scan_import_path-Advances p (c ∷ cs) =
    let hash = Moves-cons p c cs _ _ (stays (advance c p) cs) in
    let rest =
      Post-weaken {Q = λ x. Moves p (c ∷ cs) x.1 x.2} (scan_import_path-Advances (advance c p) cs)
        (λ x m. Moves-cons p c cs x.1 x.2 m) in
    search (Post-if, done, error, hash, rest) depth 8

module _ (p : Cursor) (bs : Bytes) where
  annotated-Advances :
      (w : Bytes) (q : Cursor) (r : Bytes)
      → Moves p bs q r
      → Advances p bs (annotation w >>= λ t. ok (some t, q, r))
  unfolding annotation
  annotated-Advances w q r m = Post-bind _ known (λ t u. done m)
    where
      known : Post (λ (why : Reason). Unit {0}) (λ (t : TokenType). Unit {0}) (annotation w)
      known = search (Post-if, done, failure, tt)

  scan_annotation-Advances :
      (s : Cursor) (text : Bytes) → Advances p bs (scan_annotation s text p bs)
  unfolding scan_annotation
  scan_annotation-Advances s text = elim (Bool-cases (is_identifier_start (peek bs))) [
    | inl start ↦ rw start (annotated-Advances _ _ _ (advance_while-Moves is_identifier_part p bs))
    | inr other ↦ rw other (error _)
  ]

  scan_slash-Advances : Advances p bs (scan_slash p bs)
  unfolding scan_slash
  scan_slash-Advances = elim (Bool-cases (peek bs == b'/')) [
    | inl comment ↦ rw comment (
        Post-weaken (skip_line_comment-Advances (advance_one p bs).0 (advance_one p bs).1)
          (λ x m. Moves-trans (advance_one-Moves p bs) m))
    | inr other ↦ rw other (done (stays p bs))
  ]

  scan_other-Advances :
      (s : Cursor) (c : ℕ) (text : Bytes) → Advances p bs (scan_other s c text p bs)
  unfolding scan_other scan_word
  scan_other-Advances s c text =
      search
        (
          Post-if,
          done,
          error,
          add_matched-Advances p bs,
          require_matched-Advances p bs,
          scan_slash-Advances,
          scan_import_path-Advances p bs,
          scan_annotation-Advances,
          scan_string-Advances false p bs,
          scan_number-Advances p bs,
          scan_identifier-Advances p bs,
          stays p bs,
        )
        depth 20

-- A token, or a gap, is read from its first byte on.
pub scan_token-Moves :
    (p : Cursor) (c : ℕ) (cs : Bytes)
    → Post (λ why. Unit {0}) (λ x. Moves (advance c p) cs x.1 x.2) (scan_token p c cs)
unfolding scan_token
scan_token-Moves p c cs = elim (Option-cases (single c)) [
  | inl other ↦ rw (other, scan_token) (scan_other-Advances (advance c p) cs p c (c ∷ cs))
  | inr (t, one) ↦ rw (one, scan_token) (done (stays (advance c p) cs))
]
