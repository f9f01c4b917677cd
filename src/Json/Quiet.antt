-- ===== src/Json/Quiet.antt =====
-- The parser over a request that no one cancels.
use crossa.Prelude.{
  ℕ, ◌+◌, false, [], ◌∷◌, ◌++◌, none, some, Bytes, length, ltb, if◌then◌else◌, ok, ◌≡◌, refl, arith,
}
use crossa.Json.Cursor.{
  Handle, Pos, check_cancellation, advance, step, is_space, skip_whitespace, consume,
  consume_literal,
}

-- Every poll of the handle is answered no; with no handle there is no poll.
abbrev pub IsQuiet : Handle → Type 0
IsQuiet none = Unit {0}
IsQuiet (some requested) = (k : ℕ) → requested k ≡ false

-- The position behind one byte.
abbrev moved : Handle → Pos → Pos
moved none p = record p { current = p.current + 1 }
moved (some requested) p =
    if ltb p.current p.next_check
    then record p { current = p.current + 1 }
    else record { current = p.current + 1; next_check = p.current + 4096; polls = p.polls + 1 }

-- The position behind some bytes.
unfoldable pub past : Handle → Bytes → Pos → Pos
past h [] p = p
past h (c ∷ cs) p = past h cs (moved h p)

pub past-append : (h : Handle) (a b : Bytes) (p : Pos) → past h (a ++ b) p ≡ past h b (past h a p)
unfolding past
past-append h [] b p = refl
past-append h (c ∷ cs) b p = past-append h cs b (moved h p)

pub past-cons :
    (h : Handle) (c : ℕ) (cs : Bytes) (p : Pos) → past h (c ∷ cs) p ≡ past h cs (past h (c ∷ []) p)
unfolding past
past-cons h c cs p = refl

current-moved : (h : Handle) (p : Pos) → (moved h p).current ≡ p.current + 1
current-moved none p = refl
current-moved (some requested) p = ground arith

pub current-past : (h : Handle) (w : Bytes) (p : Pos) → (past h w p).current ≡ p.current + length w
unfolding past
current-past h [] p = omega arith
current-past h (c ∷ cs) p = omega (arith, current-moved h p, current-past h cs (moved h p))

pub advance-IsQuiet :
    (h : Handle) (p : Pos) (c : ℕ) (cs : Bytes)
    → IsQuiet h
    → advance h p (c ∷ cs) ≡ ok (c, past h (c ∷ []) p, cs)
unfolding advance check_cancellation past
advance-IsQuiet none p c cs quiet = refl
advance-IsQuiet (some requested) p c cs quiet = ground (arith, quiet p.polls)

pub step-IsQuiet :
    (h : Handle) (p : Pos) (c : ℕ) (cs : Bytes)
    → IsQuiet h
    → step h p (c ∷ cs) ≡ ok (past h (c ∷ []) p, cs)
unfolding step check_cancellation past
step-IsQuiet none p c cs quiet = refl
step-IsQuiet (some requested) p c cs quiet = ground (arith, quiet p.polls)

pub consume-IsQuiet :
    (h : Handle) (p : Pos) (c : ℕ) (cs : Bytes)
    → IsQuiet h
    → consume h c p (c ∷ cs) ≡ ok (past h (c ∷ []) p, cs)
unfolding consume check_cancellation past
consume-IsQuiet h p c cs quiet = ground (arith, step-IsQuiet h p c cs quiet)

pub consume_literal-IsQuiet :
    (h : Handle) (w : Bytes) (p : Pos) (cs : Bytes)
    → IsQuiet h
    → consume_literal h w p (w ++ cs) ≡ ok (past h w p, cs)
unfolding consume_literal past
consume_literal-IsQuiet h [] p cs quiet = refl
consume_literal-IsQuiet h (c ∷ w) p cs quiet =
    ground (
      arith,
      consume-IsQuiet h p c (w ++ cs) quiet,
      consume_literal-IsQuiet h w (moved h p) cs quiet,
    )

pub skip_whitespace_stays :
    (p : Pos) (c : ℕ) (cs : Bytes) → is_space c ≡ false → skip_whitespace p (c ∷ cs) ≡ (p, c ∷ cs)
unfolding skip_whitespace
skip_whitespace_stays p c cs h = rw h

pub skip_whitespace-nil : (p : Pos) → skip_whitespace p [] ≡ (p, [])
unfolding skip_whitespace
skip_whitespace-nil p = refl
