-- ===== src/Json/Utf8.antt =====
-- `appendCodePoint` against UTF-8 as a decoder reads it.
use Prim.Native.Nat.{bit_or}
use native.Mathlib.Decide.{dec_le}
use crossa.Prelude.{
  ℕ, ◌+◌, ◌-◌, ◌*◌, ◌/◌, ◌%◌, ◌≤◌, ◌<◌, Bool, true, ◌&&◌, [], ◌∷◌, Option, none, some, Bytes, All,
  ◌==◌, leb, ltb, within, if◌then◌else◌, ok, ◌≡◌, refl, arith, every, every_sound, ==_iff,
}
use crossa.Json.Strings.{append_code_point}

-- A continuation byte, 10xxxxxx.
abbrev is_continuation : ℕ → Bool
is_continuation b = within 0x80 0xBF b

-- The code point of a sequence of bytes in UTF-8, which must be in its shortest form.
unfoldable pub decode : Bytes → Option ℕ
decode (a ∷ []) = if ltb a 0x80 then some a else none
decode (a ∷ b ∷ []) =
    if within 0xC2 0xDF a && is_continuation b then some ((a - 0xC0) * 64 + (b - 0x80)) else none
decode (a ∷ b ∷ c ∷ []) =
    let point = (a - 0xE0) * 4096 + (b - 0x80) * 64 + (c - 0x80) in
    if within 0xE0 0xEF a && is_continuation b && is_continuation c && leb 0x800 point
    then some point
    else none
decode (a ∷ b ∷ c ∷ d ∷ []) =
    let point = (a - 0xF0) * 262144 + (b - 0x80) * 4096 + (c - 0x80) * 64 + (d - 0x80) in
    if within 0xF0 0xF4 a
      && is_continuation b
      && is_continuation c
      && is_continuation d
      && within 0x10000 0x10FFFF point
    then some point
    else none
decode _ = none

or_table : every 64 (λ x. bit_or 0x80 x == 0x80 + x) ≡ true
unfolding every
or_table = refl

or_table_2 : every 32 (λ x. bit_or 0xC0 x == 0xC0 + x) ≡ true
unfolding every
or_table_2 = refl

or_table_3 : every 16 (λ x. bit_or 0xE0 x == 0xE0 + x) ≡ true
unfolding every
or_table_3 = refl

or_table_4 : every 5 (λ x. bit_or 0xF0 x == 0xF0 + x) ≡ true
unfolding every
or_table_4 = refl

or_tail : (x : ℕ) → x < 64 → bit_or 0x80 x ≡ 0x80 + x
or_tail x h = (==_iff _ _).0 (every_sound 64 _ x or_table h)

or_head_2 : (x : ℕ) → x < 32 → bit_or 0xC0 x ≡ 0xC0 + x
or_head_2 x h = (==_iff _ _).0 (every_sound 32 _ x or_table_2 h)

or_head_3 : (x : ℕ) → x < 16 → bit_or 0xE0 x ≡ 0xE0 + x
or_head_3 x h = (==_iff _ _).0 (every_sound 16 _ x or_table_3 h)

or_head_4 : (x : ℕ) → x < 5 → bit_or 0xF0 x ≡ 0xF0 + x
or_head_4 x h = (==_iff _ _).0 (every_sound 5 _ x or_table_4 h)

-- The bytes written for a code point are its UTF-8 encoding.
abbrev pub Encodes : ℕ → Bytes → Type 0
Encodes c bs = (append_code_point c ≡ ok bs) × (decode bs ≡ some c) × All (λ b. b < 256) bs

module _ (c : ℕ) where
  Encodes-1 : c ≤ 0x7F → Encodes c (c ∷ [])
  unfolding append_code_point decode
  Encodes-1 h = (ground arith, ground arith, ground arith)

  Encodes-2 : 0x7F < c → c ≤ 0x7FF → Encodes c (bit_or 0xC0 (c / 64) ∷ bit_or 0x80 (c % 64) ∷ [])
  unfolding append_code_point decode
  Encodes-2 l h =
      let e = or_head_2 (c / 64) (omega arith) in
      let t = or_tail (c % 64) (omega arith) in
      (ground arith, rw (e, t) (ground arith), (omega arith, (omega arith, tt)))

  Encodes-3 :
      0x7FF < c
      → c ≤ 0xFFFF
      → Encodes c (bit_or 0xE0 (c / 4096) ∷ bit_or 0x80 (c / 64 % 64) ∷ bit_or 0x80 (c % 64) ∷ [])
  unfolding append_code_point decode
  Encodes-3 l h =
      let e = or_head_3 (c / 4096) (omega arith) in
      let t = or_tail (c / 64 % 64) (omega arith) in
      let u = or_tail (c % 64) (omega arith) in
      (ground arith, rw (e, t, u) (ground arith), (omega arith, (omega arith, (omega arith, tt))))

  Encodes-4 :
      0xFFFF < c
      → c ≤ 0x10FFFF
      → Encodes c (
          bit_or 0xF0 (c / 262144)
          ∷ bit_or 0x80 (c / 4096 % 64)
          ∷ bit_or 0x80 (c / 64 % 64)
          ∷ bit_or 0x80 (c % 64)
          ∷ [])
  unfolding append_code_point decode
  Encodes-4 l h =
      let e = or_head_4 (c / 262144) (omega arith) in
      let s = or_tail (c / 4096 % 64) (omega arith) in
      let t = or_tail (c / 64 % 64) (omega arith) in
      let u = or_tail (c % 64) (omega arith) in
      (
        ground arith,
        rw (e, s, t, u) (ground arith),
        (omega arith, (omega arith, (omega arith, (omega arith, tt)))),
      )

  -- Up to the last code point, the bytes that are appended are bytes, and are the shortest UTF-8
  -- encoding of the code point.
  pub append_code_point-Encodes : c ≤ 0x10FFFF → (bs : Bytes) × Encodes c bs
  append_code_point-Encodes h = elim (dec_le c 0x7F) [
    | yes a ↦ (_, Encodes-1 a)
    | no a ↦ elim (dec_le c 0x7FF) [
      | yes b ↦ (_, Encodes-2 (omega arith) b)
      | no b ↦ elim (dec_le c 0xFFFF) [
        | yes d ↦ (_, Encodes-3 (omega arith) d)
        | no d ↦ (_, Encodes-4 (omega arith) h)
      ]
    ]
  ]
