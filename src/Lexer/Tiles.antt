-- ===== src/Lexer/Tiles.antt =====
-- The tokens lie one behind the other on the text, with gaps between them, up to its end.
use mathlib.Core.Path.{subst}
use crossa.Prelude.{
  ℕ, zero, suc, ◌<◌, ◌≢◌, List, [], ◌∷◌, ◌++◌, Option, none, some, Bytes, length, length-append,
  Result, sym, append_assoc, Post-error, ◌≡◌, refl, ap, ◌∙◌, arith, Post, done, stop, Post-bind,
}
use crossa.Lexer.Token.{TokenType, Token, end_of_file}
use crossa.Lexer.Scan.{Cursor, Reason, LexError, failed, advance}
use crossa.Lexer.Tokenize.{token, add, place, tokenize_loop}
use crossa.Lexer.Moves.{past, past-append, Moves, scan_token-Moves}

-- From the cursor `p` on, the text `bs` is tiled by the tokens and the gaps between them.
pub data Tiles : Cursor → Bytes → List Token → Type 0 where
  finish : {p : Cursor} → Tiles p [] (token end_of_file p p ∷ [])
  gap :
      {p : Cursor} {bs : Bytes} {tokens : List Token} (c : ℕ) (word rest : Bytes)
      → bs ≡ c ∷ (word ++ rest)
      → Tiles (past (c ∷ word) p) rest tokens
      → Tiles p bs tokens
  lexeme :
      {p : Cursor} {bs : Bytes} {tokens : List Token} (c : ℕ) (word rest : Bytes) (type : TokenType)
      → bs ≡ c ∷ (word ++ rest)
      → Tiles (past (c ∷ word) p) rest tokens
      → Tiles p bs (token type p (past (c ∷ word) p) ∷ tokens)

-- An error at `line` and `column` belongs to a cursor behind a part of the text.
pub record FailsIn (p : Cursor) (bs : Bytes) (e : LexError) : Type 0 where
  pub before : Bytes
  pub after : Bytes
  pub why : Reason
  pub splits : bs ≡ before ++ after
  pub nonempty : after ≢ []
  pub error_is : e ≡ failed (past before p).line (past before p).column why

FailsIn-later :
    (p : Cursor) (c : ℕ) (word rest : Bytes) (e : LexError)
    → FailsIn (past (c ∷ word) p) rest e
    → FailsIn p (c ∷ (word ++ rest)) e
FailsIn-later p c word rest e f = record {
  before = (c ∷ word) ++ f.before;
  after = f.after;
  why = f.why;
  splits = ap (λ (t : Bytes). c ∷ (word ++ t)) f.splits ∙ rw append_assoc refl;
  nonempty = f.nonempty;
  error_is =
      f.error_is
      ∙ ap (λ (q : Cursor). failed q.line q.column f.why) (sym (past-append (c ∷ word) f.before p));
}

Post-place :
    {A : Type 0} {Q : A → Type 0} (p : Cursor) (c : ℕ) (cs : Bytes) {m : Result Reason A}
    → Post (λ why. Unit {0}) Q m
    → Post (FailsIn p (c ∷ cs)) Q (place p m)
unfolding past
Post-place p c cs (done q) = done q
Post-place p c cs (stop {e} u) = stop (record {
  before = [];
  after = c ∷ cs;
  why = e;
  splits = refl;
  nonempty = λ empty. cc;
  error_is = refl;
})

-- One token more in front, or one gap.
module _ (p q : Cursor) (c : ℕ) (cs rest : Bytes) (m : Moves (advance c p) cs q rest) where
  behind : {tokens : List Token} → Tiles q rest tokens → Tiles (past (c ∷ m.word) p) rest tokens
  unfolding past
  behind {tokens} tiles = subst (λ s. Tiles s rest tokens) m.reached tiles

  add-Tiles :
      (tokens : List Token)
      → Tiles q rest tokens
      → (type : Option TokenType) → Tiles p (c ∷ cs) (add type p q tokens)
  unfolding past
  add-Tiles tokens tiles none = gap c m.word rest (ap (◌∷◌ c) m.splits) (behind tiles)
  add-Tiles tokens tiles (some type) =
      rw m.reached (lexeme c m.word rest type (ap (◌∷◌ c) m.splits) (behind tiles))

  FailsIn-behind : (e : LexError) → FailsIn q rest e → FailsIn p (c ∷ cs) e
  unfolding past
  FailsIn-behind e f =
      subst (λ (t : Bytes). FailsIn p (c ∷ t) e) (sym m.splits)
        (FailsIn-later p c m.word rest e (subst (λ s. FailsIn s rest e) m.reached f))

pub tokenize_loop-Tiles :
    (f : ℕ) (p : Cursor) (bs : Bytes)
    → length bs < f
    → Post (FailsIn p bs) (Tiles p bs) (tokenize_loop f p bs)
unfolding tokenize_loop
tokenize_loop-Tiles zero p bs lt = absurd (omega arith)
tokenize_loop-Tiles (suc f) p [] lt = done finish
tokenize_loop-Tiles (suc f) p (c ∷ cs) lt =
    Post-bind _ (Post-place p c cs (scan_token-Moves p c cs)) (λ x m.
      let size = length-append m.word x.2 in
      let shorter : length x.2 < f = omega (arith, ap (λ (t : Bytes). length t) m.splits) in
      Post-bind _
        (Post-error (tokenize_loop-Tiles f x.1 x.2 shorter) (FailsIn-behind p x.1 c cs x.2 m))
        (λ tokens tiles. done (add-Tiles p x.1 c cs x.2 m tokens tiles x.0)))
