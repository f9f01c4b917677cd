-- ===== src/Json/Sound/Cursors.antt =====
-- What the primitive steps of the parser leave of the input, with any handle.
use crossa.Prelude.{ℕ, ◌+◌, ◌≤◌, ◌<◌, [], ◌∷◌, none, some, Bytes, length, err, arith}
use crossa.Json.Cursor.{
  cancelled, Reason, Handle, Pos, fail, check_cancellation, advance, step, skip_whitespace, consume,
  consume_literal, Moved, Read,
}
use crossa.Json.Ensures.{Ensures, done, stop, Ensures-if, Ensures-bind, Ensures-weaken}

-- A step that moves the cursor leaves less, or no more, than there was.
abbrev pub Shrinks : Bytes → Moved → Type 0
Shrinks bs m = Ensures (λ x. length x.1 < length bs) m

abbrev pub Keeps : Bytes → Moved → Type 0
Keeps bs m = Ensures (λ x. length x.1 ≤ length bs) m

abbrev pub ReadShrinks : {A : Type 0} → Bytes → Read A → Type 0
ReadShrinks bs m = Ensures (λ x. length x.2 < length bs) m

abbrev pub ReadKeeps : {A : Type 0} → Bytes → Read A → Type 0
ReadKeeps bs m = Ensures (λ x. length x.2 ≤ length bs) m

pub fail-Ensures : {A : Type 0} {Q : A → Type 0} (p : Pos) (why : Reason) → Ensures Q (fail p why)
fail-Ensures p why = stop (λ e. cc)

pub cancelled-Ensures : {A : Type 0} {Q : A → Type 0} → Ensures Q (err cancelled)
cancelled-Ensures = stop (λ e. cc e)

pub check-Ensures : (h : Handle) (p : Pos) → Ensures (λ q. Unit {0}) (check_cancellation h p)
unfolding check_cancellation
check-Ensures none p = done tt
check-Ensures (some requested) p = search (Ensures-if, done, cancelled-Ensures, tt)

pub advance-Ensures : (h : Handle) (p : Pos) (bs : Bytes) → ReadShrinks bs (advance h p bs)
unfolding advance
advance-Ensures h p [] = stop (λ e. cc)
advance-Ensures h p (c ∷ cs) = Ensures-bind _ (check-Ensures h p) (λ q u. done (omega arith))

pub step-Ensures : (h : Handle) (p : Pos) (bs : Bytes) → Shrinks bs (step h p bs)
unfolding step
step-Ensures h p bs = Ensures-bind _ (advance-Ensures h p bs) (λ x lt. done lt)

pub consume-Ensures : (h : Handle) (c : ℕ) (p : Pos) (bs : Bytes) → Shrinks bs (consume h c p bs)
unfolding consume
consume-Ensures h c p bs = search (Ensures-if, step-Ensures h p bs, fail-Ensures)

pub consume_literal-Ensures :
    (h : Handle) (w : Bytes) (p : Pos) (bs : Bytes) → Keeps bs (consume_literal h w p bs)
unfolding consume_literal
consume_literal-Ensures h [] p bs = done (omega arith)
consume_literal-Ensures h (c ∷ w) p bs =
    Ensures-bind _ (consume-Ensures h c p bs)
      (λ x lt. Ensures-weaken (consume_literal-Ensures h w x.0 x.1) (λ y le. omega arith))

pub skip_whitespace-le : (p : Pos) (bs : Bytes) → length (skip_whitespace p bs).1 ≤ length bs
unfolding skip_whitespace
skip_whitespace-le p [] = omega arith
skip_whitespace-le p (c ∷ cs) =
    ground (arith, skip_whitespace-le (record p { current = p.current + 1 }) cs)
