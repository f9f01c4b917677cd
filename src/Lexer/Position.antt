-- ===== src/Lexer/Position.antt =====
-- Where the tokens stand in the source: offsets, lines and columns against the text itself.
use mathlib.Core.Path.{subst}
use crossa.Prelude.{
  ℕ, suc, ◌+◌, ◌≤◌, ◌≢◌, List, [], ◌∷◌, ◌++◌, Bytes, length, length-append, All, ◌==◌, inl, inr,
  Bool-cases, true, false, if◌then◌else◌, ok, err, ◌≡◌, refl, ap, ◌∙◌, append_assoc, arith, Post,
  Post-ok, Post-err,
}
use crossa.Lexer.Token.{TokenType, Token, end_of_file}
use crossa.Lexer.Scan.{Cursor, Reason, LexError, failed, advance}
use crossa.Lexer.Tokenize.{token, start, tokenize}
use crossa.Lexer.Moves.{past, past-append}
use crossa.Lexer.Tiles.{Tiles, finish, gap, lexeme, FailsIn, tokenize_loop-Tiles}

pub newlines : Bytes → ℕ
newlines [] = 0
newlines (c ∷ cs) = (if c == b'\n' then 1 else 0) + newlines cs

-- The bytes behind the last newline.
pub last_line : Bytes → Bytes
unfolding newlines
last_line [] = []
last_line (c ∷ cs) = let rest = last_line cs in if newlines (c ∷ cs) == 0 then c ∷ cs else rest

last_line-whole : (w : Bytes) → newlines w ≡ 0 → length (last_line w) ≡ length w
unfolding last_line
last_line-whole [] h = refl
last_line-whole (c ∷ cs) h = ground arith

abbrev HasFields : Bytes → Cursor → Cursor → Type 0
HasFields w p q =
    (q.offset ≡ p.offset + length w)
    × (q.line ≡ p.line + newlines w)
    × (q.column ≡ (if newlines w == 0 then p.column + length w else 1 + length (last_line w)))

past-cons_newline :
    (c : ℕ) (w : Bytes) (p q : Cursor)
    → (c == b'\n') ≡ true
    → HasFields w (advance c p) q
    → HasFields (c ∷ w) p q
unfolding last_line advance
past-cons_newline c w p q e h = elim (Bool-cases (newlines w == 0)) [
  | inl one ↦ let whole = last_line-whole w (ground arith) in ground arith
  | inr more ↦ ground arith
]

past-cons_other :
    (c : ℕ) (w : Bytes) (p q : Cursor)
    → (c == b'\n') ≡ false
    → HasFields w (advance c p) q
    → HasFields (c ∷ w) p q
unfolding last_line advance
past-cons_other c w p q e h = ground arith

past-fields : (w : Bytes) (p : Cursor) → HasFields w p (past w p)
unfolding past last_line
past-fields [] p = ground arith
past-fields (c ∷ cs) p = elim (Bool-cases (c == b'\n')) [
  | inl e ↦ past-cons_newline c cs p (past cs (advance c p)) e (past-fields cs (advance c p))
  | inr e ↦ past-cons_other c cs p (past cs (advance c p)) e (past-fields cs (advance c p))
]

-- The place behind `before`, as an editor counts it: lines and columns from one.
pub record Place (before : Bytes) (line column : ℕ) : Type 0 where
  pub line_is : line ≡ 1 + newlines before
  pub column_is : column ≡ 1 + length (last_line before)

past-Place : (w : Bytes) → Place w (past w start).line (past w start).column
past-Place w =
    let f = past-fields w start in
    record {
      line_is = ground arith;
      column_is = elim (Bool-cases (newlines w == 0)) [
        | inl none ↦ let whole = last_line-whole w (ground arith) in ground arith
        | inr some ↦ ground arith
      ];
    }

-- The token covers a part of the text, and says where that starts.
pub record Located (text : Bytes) (t : Token) : Type 0 where
  pub before : Bytes
  pub word : Bytes
  pub after : Bytes
  pub splits : text ≡ before ++ (word ++ after)
  pub offset_is : t.offset ≡ length before
  pub length_is : t.length ≡ length word
  pub place : Place before t.line t.column

-- Behind `low` the tokens follow one another with no overlap and are not empty; the last one is
-- the end of the file, empty and at `size`.
abbrev pub Ordered : ℕ → ℕ → List Token → Type 0
Ordered low size [] = ⊥
Ordered low size (t ∷ []) =
    (t.type ≡ end_of_file) × (low ≤ t.offset) × (t.offset ≡ size) × (t.length ≡ 0)
Ordered low size (t ∷ u ∷ ts) =
    (low ≤ t.offset) × (1 ≤ t.length) × Ordered (t.offset + t.length) size (u ∷ ts)

-- A word of the text makes a token.
word-Located :
    (type : TokenType) (before word after : Bytes) (p : Cursor)
    → p ≡ past before start
    → Located (before ++ (word ++ after)) (token type p (past word p))
word-Located type before word after p e =
    let f = past-fields before start in
    let g = past-fields word p in
    let h : p.offset ≡ length before = ap (λ (q : Cursor). q.offset) e ∙ f.0 ∙ omega arith in
    record {
      before = before;
      word = word;
      after = after;
      splits = refl;
      offset_is = h;
      length_is = omega arith;
      place = rw e (past-Place before);
    }

module _ (before : Bytes) {p : Cursor} (e : p ≡ past before start) (c : ℕ) (word rest bs : Bytes)
    (s : bs ≡ c ∷ (word ++ rest)) where
  further : past (c ∷ word) p ≡ past (before ++ (c ∷ word)) start
  further = rw (e, past-append) refl

  same_text : (before ++ (c ∷ word)) ++ rest ≡ before ++ bs
  same_text = rw (s, append_assoc) refl

Tiles-Located :
    (before : Bytes) {p : Cursor} {bs : Bytes} {tokens : List Token}
    → Tiles p bs tokens
    → p ≡ past before start
    → All (Located (before ++ bs)) tokens
unfolding past
Tiles-Located before (finish {p}) e = (word-Located end_of_file before [] [] p e, tt)
Tiles-Located before (gap {p} {bs} {tokens} c word rest s tiles) e =
    subst (λ (t : Bytes). All (Located t) tokens) (same_text before e c word rest bs s)
      (Tiles-Located (before ++ (c ∷ word)) tiles (further before e c word rest bs s))
Tiles-Located before (lexeme {p} {bs} {tokens} c word rest type s tiles) e = (
  rw s (word-Located type before (c ∷ word) rest p e),
  subst (λ (t : Bytes). All (Located t) tokens) (same_text before e c word rest bs s)
      (Tiles-Located (before ++ (c ∷ word)) tiles (further before e c word rest bs s)),
)

Ordered-lower :
    (low high size : ℕ) (ts : List Token) → low ≤ high → Ordered high size ts → Ordered low size ts
Ordered-lower low high size [] le o = o
Ordered-lower low high size (t ∷ []) le o = (o.0, omega arith, o.2, o.3)
Ordered-lower low high size (t ∷ u ∷ ts) le o = (omega arith, o.1, o.2)

Ordered-cons :
    (low next size : ℕ) (t : Token) (ts : List Token)
    → low ≤ t.offset
    → 1 ≤ t.length
    → next ≡ t.offset + t.length
    → Ordered next size ts
    → Ordered low size (t ∷ ts)
Ordered-cons low next size t [] le pos e o = absurd o
Ordered-cons low next size t (u ∷ ts) le pos e o =
    (le, pos, subst (λ (n : ℕ). Ordered n size (u ∷ ts)) e o)

Tiles-Ordered :
    {p : Cursor} {bs : Bytes} {tokens : List Token} (size : ℕ)
    → Tiles p bs tokens
    → size ≡ p.offset + length bs
    → Ordered p.offset size tokens
Tiles-Ordered size (finish {p}) e = (refl, omega arith, omega arith, omega arith)
Tiles-Ordered size (gap {p} {bs} {tokens} c word rest s tiles) e =
    let f = past-fields (c ∷ word) p in
    let n = ap (λ (t : Bytes). length t) s in
    let l = length-append word rest in
    Ordered-lower p.offset (past (c ∷ word) p).offset size tokens (omega arith)
      (Tiles-Ordered size tiles (omega arith))
Tiles-Ordered size (lexeme {p} {bs} {tokens} c word rest type s tiles) e =
    let f = past-fields (c ∷ word) p in
    let n = ap (λ (t : Bytes). length t) s in
    let l = length-append word rest in
    Ordered-cons p.offset (past (c ∷ word) p).offset size (token type p (past (c ∷ word) p)) tokens
      (omega arith) (omega arith) (omega arith) (Tiles-Ordered size tiles (omega arith))

module _ (text : Bytes) where
  tiled : Post (FailsIn start text) (Tiles start text) (tokenize text)
  unfolding tokenize
  tiled = tokenize_loop-Tiles (suc (length text)) start text (omega arith)

  -- Every token covers the part of the source that its offset and length say, and its line and
  -- column are those of that part's first byte: one more than the newlines before it, and one more
  -- than the bytes between it and the last of these.
  pub tokenize-Located :
      (tokens : List Token) → tokenize text ≡ ok tokens → All (Located text) tokens
  unfolding past
  tokenize-Located tokens e = Tiles-Located [] (Post-ok tokens (rw e at tiled)) refl

  -- The tokens stand in the order of the source, do not overlap and are not empty, but for the last
  -- one, which is the end of the file, empty and behind the last byte.
  pub tokenize-Ordered :
      (tokens : List Token) → tokenize text ≡ ok tokens → Ordered 0 (length text) tokens
  tokenize-Ordered tokens e =
      Tiles-Ordered (length text) (Post-ok tokens (rw e at tiled)) (omega arith)

  -- If the lexer fails, then with the line and column of a byte of the source, and never for want
  -- of fuel.
  pub tokenize-FailsAt :
      (e : LexError)
      → tokenize text ≡ err e
      → (before after : Bytes) × (line column : ℕ) × (why : Reason) × (text ≡ before ++ after)
        × (after ≢ [])
        × (e ≡ failed line column why)
        × Place before line column
  tokenize-FailsAt e h =
      let f = Post-err e (rw h at tiled) in
      (f.before, f.after, _, _, f.why, f.splits, f.nonempty, f.error_is, past-Place f.before)
