-- ===== src/Json/RoundTrip/Strings.antt =====
-- The parser reads back each string that the serializer writes.
use mathlib.Core.List.{append-nil, append_assoc}
use native.Mathlib.Decide.{ℕ_discrete}
use crossa.Prelude.{
  ℕ, zero, suc, ◌+◌, ◌*◌, ◌≤◌, ◌<◌, ◌≢◌, ◌/◌, ◌%◌, true, [], ◌∷◌, ◌++◌, Bytes, length,
  length-append, ◌==◌, ltb, if◌then◌else◌, ok, ◌≡◌, refl, ◌∙◌, arith, every, every_sound, ==_iff,
}
use crossa.Json.Cursor.{Handle, Pos}
use crossa.Json.Strings.{hex_digit, hex_loop, unescape, string_loop, parse_string}
use crossa.Json.Serializer.{hex, append_byte, append_bytes, append_string}
use crossa.Json.Quiet.{IsQuiet, past, past-append, advance-IsQuiet, consume-IsQuiet}

hex_table : every 16 (λ n. hex n == (if ltb n 10 then 48 + n else 55 + n)) ≡ true
unfolding every hex
hex_table = refl

hex_lem : (n : ℕ) → n < 16 → hex n ≡ (if ltb n 10 then 48 + n else 55 + n)
hex_lem n h = (==_iff _ _).0 (every_sound 16 _ n hex_table h)

hex_digit-hex : (p : Pos) (n : ℕ) → n < 16 → hex_digit p (hex n) ≡ ok n
unfolding hex_digit
hex_digit-hex p n h = rw (hex_lem n h) (ground arith)

hex_loop_step :
    (h : Handle) (rounds value : ℕ) (p : Pos) (n : ℕ) (rest : Bytes)
    → IsQuiet h
    → n < 16
    → hex_loop h (suc rounds) value p (hex n ∷ rest)
      ≡ hex_loop h rounds (value * 16 + n) (past h (hex n ∷ []) p) rest
unfolding hex_loop
hex_loop_step h rounds value p n rest quiet lt =
    rw (advance-IsQuiet h p (hex n) rest quiet) (rw (hex_digit-hex (past h (hex n ∷ []) p) n lt))

-- Four written digits are read back.
hex_loop-hex :
    (h : Handle) (p : Pos) (a b : ℕ) (rest : Bytes)
    → IsQuiet h
    → a < 16
    → b < 16
    → hex_loop h 4 0 p (b'0' ∷ b'0' ∷ hex a ∷ hex b ∷ rest)
      ≡ ok (a * 16 + b, past h (b'0' ∷ b'0' ∷ hex a ∷ hex b ∷ []) p, rest)
unfolding past hex
hex_loop-hex h p a b rest quiet ha hb =
    hex_loop_step h 3 0 p 0 _ quiet (omega arith)
    ∙ hex_loop_step h 2 0 _ 0 _ quiet (omega arith)
    ∙ hex_loop_step h 1 0 _ a _ quiet ha
    ∙ hex_loop_step h 0 (0 * 16 + a) _ b _ quiet hb
    ∙ unfold hex_loop in ground arith

unescape-control :
    (h : Handle) (p : Pos) (c : ℕ) (rest : Bytes)
    → IsQuiet h
    → c < 32
    → unescape h b'u' p (b'0' ∷ b'0' ∷ hex (c / 16 % 16) ∷ hex (c % 16) ∷ rest)
      ≡ ok (c ∷ [], past h (b'0' ∷ b'0' ∷ hex (c / 16 % 16) ∷ hex (c % 16) ∷ []) p, rest)
unfolding unescape
unescape-control h p c rest quiet lt =
    rw (hex_loop-hex h p (c / 16 % 16) (c % 16) rest quiet (omega arith) (omega arith))
      (let e : c / 16 % 16 * 16 + c % 16 ≡ c = omega arith in rw e (ground arith))

module _ (f : ℕ) (h : Handle) (output : Bytes) (p : Pos) (quiet : IsQuiet h) where
  string_loop_raw :
      (c : ℕ) (rest : Bytes)
      → 32 ≤ c
      → c ≢ b'"'
      → c ≢ b'\\'
      → string_loop (suc f) h output p (c ∷ rest)
        ≡ string_loop f h (output ++ c ∷ []) (past h (c ∷ []) p) rest
  unfolding string_loop
  string_loop_raw c rest ge nq nb = rw (advance-IsQuiet h p c rest quiet) (ground arith)

  string_loop_escaped :
      (e : ℕ) (rest o : Bytes) (q : Pos) (r : Bytes)
      → unescape h e (past h (b'\\' ∷ e ∷ []) p) rest ≡ ok (o, q, r)
      → string_loop (suc f) h output p (b'\\' ∷ e ∷ rest) ≡ string_loop f h (output ++ o) q r
  unfolding string_loop past
  string_loop_escaped e rest o q r u =
      rw (advance-IsQuiet h p b'\\' (e ∷ rest) quiet)
        (rw (advance-IsQuiet h (past h (b'\\' ∷ []) p) e rest quiet) (rw u))

  -- A control byte with no short escape.
  string_loop_control :
      (c : ℕ) (rest : Bytes)
      → c < 32
      → string_loop
          (suc f)
          h
          output
          p
          (b'\\' ∷ b'u' ∷ b'0' ∷ b'0' ∷ hex (c / 16 % 16) ∷ hex (c % 16) ∷ rest)
        ≡ string_loop f h
            (output ++ c ∷ [])
            (past h (b'\\' ∷ b'u' ∷ b'0' ∷ b'0' ∷ hex (c / 16 % 16) ∷ hex (c % 16) ∷ []) p)
            rest
  unfolding past
  string_loop_control c rest lt =
      string_loop_escaped b'u' _ _ _ _
        (unescape-control h (past h (b'\\' ∷ b'u' ∷ []) p) c rest quiet lt)

  string_loop_other :
      (c : ℕ) (rest : Bytes)
      → c ≢ b'"'
      → c ≢ b'\\'
      → c ≢ 8
      → c ≢ 12
      → c ≢ 10
      → c ≢ 13
      → c ≢ 9
      → string_loop (suc f) h output p (append_byte c ++ rest)
        ≡ string_loop f h (output ++ c ∷ []) (past h (append_byte c) p) rest
  unfolding append_byte
  string_loop_other c rest n1 n2 n3 n4 n5 n6 n7 =
      ground (arith, string_loop_control c rest, string_loop_raw c rest)

  -- One round of the loop reads one byte of the string back.
  string_loop-append_byte :
      (c : ℕ) (rest : Bytes)
      → string_loop (suc f) h output p (append_byte c ++ rest)
        ≡ string_loop f h (output ++ c ∷ []) (past h (append_byte c) p) rest
  unfolding append_byte unescape
  string_loop-append_byte c rest =
      let escaped =
        λ (e o : ℕ). string_loop_escaped e rest (o ∷ []) (past h (b'\\' ∷ e ∷ []) p) rest in
      elim (ℕ_discrete c b'"') [
        | yes e ↦ rw e (escaped b'"' b'"' refl)
        | no n1 ↦ elim (ℕ_discrete c b'\\') [
          | yes e ↦ rw e (escaped b'\\' b'\\' refl)
          | no n2 ↦ elim (ℕ_discrete c 8) [
            | yes e ↦ rw e (escaped b'b' 8 refl)
            | no n3 ↦ elim (ℕ_discrete c 12) [
              | yes e ↦ rw e (escaped b'f' 12 refl)
              | no n4 ↦ elim (ℕ_discrete c 10) [
                | yes e ↦ rw e (escaped b'n' 10 refl)
                | no n5 ↦ elim (ℕ_discrete c 13) [
                  | yes e ↦ rw e (escaped b'r' 13 refl)
                  | no n6 ↦ elim (ℕ_discrete c 9) [
                    | yes e ↦ rw e (escaped b't' 9 refl)
                    | no n7 ↦ string_loop_other c rest n1 n2 n3 n4 n5 n6 n7
                  ]
                ]
              ]
            ]
          ]
        ]
      ]

-- The loop reads back a string with its closing quote, in front of any rest.
string_loop-append_bytes :
    (s : Bytes) (f : ℕ) (h : Handle) (output : Bytes) (p : Pos) (rest : Bytes)
    → IsQuiet h
    → length s < f
    → string_loop f h output p (append_bytes s ++ (b'"' ∷ rest))
      ≡ ok (output ++ s, past h (append_bytes s ++ (b'"' ∷ [])) p, rest)
unfolding append_bytes
string_loop-append_bytes s zero h output p rest quiet lt = absurd (omega arith)
string_loop-append_bytes [] (suc f) h output p rest quiet lt =
    rw (append-nil output) (unfold string_loop in rw (advance-IsQuiet h p b'"' rest quiet))
string_loop-append_bytes (c ∷ cs) (suc f) h output p rest quiet lt = rw append_assoc (
    string_loop-append_byte f h output p quiet c (append_bytes cs ++ (b'"' ∷ rest))
    ∙ string_loop-append_bytes cs f h (output ++ c ∷ []) (past h (append_byte c) p) rest quiet
        (omega arith)
    ∙ simp (append_assoc, past-append))

length-append_byte : (c : ℕ) → 1 ≤ length (append_byte c)
unfolding append_byte
length-append_byte c = ground arith

length-append_bytes : (s : Bytes) → length s ≤ length (append_bytes s)
unfolding append_bytes
length-append_bytes [] = omega arith
length-append_bytes (c ∷ cs) = omega (
  arith,
  length-append_byte c,
  length-append_bytes cs,
  length-append (append_byte c) (append_bytes cs),
)

-- With a handle that nobody cancels, or with none, `parseString` reads back what `appendString` wrote,
-- in front of any rest, and stands behind it then.
pub parse_string-append_string :
    (s : Bytes) (h : Handle) (p : Pos) (rest : Bytes)
    → IsQuiet h
    → parse_string h p (append_string s ++ rest) ≡ ok (s, past h (append_string s) p, rest)
unfolding parse_string append_string past
parse_string-append_string s h p rest quiet = rw append_assoc (
    rw (consume-IsQuiet h p b'"' (append_bytes s ++ (b'"' ∷ rest)) quiet) (
      string_loop-append_bytes s (suc (length (append_bytes s ++ (b'"' ∷ rest)))) h []
        (past h (b'"' ∷ []) p) rest quiet
        (omega (arith, length-append_bytes s, length-append (append_bytes s) (b'"' ∷ rest)))))
