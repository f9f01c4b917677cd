-- ===== src/Network/Url/Encoding.antt =====
-- Percent encoding against a decoder, and the query against the text that it is appended to.
use crossa.Prelude.{
  ℕ, ◌+◌, ◌-◌, ◌*◌, ◌/◌, ◌%◌, ◌<◌, Bool, true, false, not, ◌||◌, [], ◌∷◌, ◌++◌, Option, none, some,
  Bytes, All, ◌==◌, ltb, within, if◌then◌else◌, ◌≡◌, refl, ap, sym, ◌∙◌, arith, inl, inr,
  Bool-cases, append_assoc, append-nil, every, every_sound, ==_iff,
}
use crossa.Network.Url.{
  is_unreserved, hex, encode_byte, encode_component, before, from, contains_byte, strip_query,
  Parameters, query_loop, append_query_parameters,
}

hex_value : ℕ → Option ℕ
hex_value c =
    if within b'0' b'9' c
    then some (c - b'0')
    else if within b'A' b'F' c
    then some (c - b'A' + 10)
    else none

data State : Type 0 where
  text percent : State
  digit : ℕ → State

abbrev prepend : ℕ → Option Bytes → Option Bytes
prepend c none = none
prepend c (some w) = some (c ∷ w)

-- Percent decoding, by RFC 3986.
decode_from : State → Bytes → Option Bytes
decode_from text [] = some []
decode_from percent [] = none
decode_from (digit n) [] = none
decode_from text (c ∷ cs) =
    if c == b'%' then decode_from percent cs else prepend c (decode_from text cs)
decode_from percent (c ∷ cs) = elim (hex_value c) [
  | none ↦ none
  | some n ↦ decode_from (digit n) cs
]
decode_from (digit n) (c ∷ cs) = elim (hex_value c) [
  | none ↦ none
  | some m ↦ prepend (n * 16 + m) (decode_from text cs)
]

pub decode : Bytes → Option Bytes
unfolding decode_from hex_value
decode = decode_from text

hex_table : every 16 (λ n. hex n == (if ltb n 10 then 48 + n else 55 + n)) ≡ true
unfolding every hex
hex_table = refl

hex_value-hex : (n : ℕ) → n < 16 → hex_value (hex n) ≡ some n
unfolding hex_value
hex_value-hex n h = rw ((==_iff _ _).0 (every_sound 16 _ n hex_table h)) (ground arith)

decode-first :
    (c n : ℕ) (cs : Bytes)
    → hex_value c ≡ some n
    → decode_from percent (c ∷ cs) ≡ decode_from (digit n) cs
unfolding decode_from
decode-first c n cs e = rw (decode_from, e)

decode-second :
    (c n m : ℕ) (cs : Bytes)
    → hex_value c ≡ some m
    → decode_from (digit n) (c ∷ cs) ≡ prepend (n * 16 + m) (decode_from text cs)
unfolding decode_from
decode-second c n m cs e = rw (decode_from, e)

decode-mark : (cs : Bytes) → decode_from text (b'%' ∷ cs) ≡ decode_from percent cs
unfolding decode_from
decode-mark cs = refl

decode-percent :
    (a b : ℕ) (rest : Bytes)
    → a < 16
    → b < 16
    → decode_from text (b'%' ∷ hex a ∷ hex b ∷ rest) ≡ prepend (a * 16 + b) (decode_from text rest)
decode-percent a b rest la lb =
    decode-mark (hex a ∷ hex b ∷ rest)
    ∙ decode-first (hex a) a (hex b ∷ rest) (hex_value-hex a la)
    ∙ decode-second (hex b) a b rest (hex_value-hex b lb)

decode-plain :
    (c : ℕ) (rest : Bytes)
    → is_unreserved c ≡ true
    → decode_from text (c ∷ rest) ≡ prepend c (decode_from text rest)
unfolding decode_from
decode-plain c rest plain = ground arith

decode-encode_byte :
    (c : ℕ) (rest : Bytes)
    → c < 256
    → decode_from text (encode_byte c ++ rest) ≡ prepend c (decode_from text rest)
unfolding encode_byte
decode-encode_byte c rest lt = elim (Bool-cases (is_unreserved c)) [
  | inl plain ↦ rw plain (decode-plain c rest plain)
  | inr other ↦
      let e : c / 16 % 16 * 16 + c % 16 ≡ c = omega arith in
      rw other (rw (decode-percent (c / 16 % 16) (c % 16) rest (omega arith) (omega arith)) (rw e))
]

-- A component that was encoded decodes to itself.
pub decode-encode_component :
    (value : Bytes) → All (λ c. c < 256) value → decode (encode_component value) ≡ some value
unfolding decode encode_component
decode-encode_component [] small = refl
decode-encode_component (c ∷ cs) small =
    decode-encode_byte c (encode_component cs) small.0
    ∙ ap (prepend c) (decode-encode_component cs small.1)

abbrev is_hex : ℕ → Bool
is_hex c = within b'0' b'9' c || within b'A' b'F' c

hex-is_hex : (n : ℕ) → n < 16 → is_hex (hex n) ≡ true
hex-is_hex n h = rw ((==_iff _ _).0 (every_sound 16 _ n hex_table h)) (ground arith)

abbrev is_delimiter : ℕ → Bool
is_delimiter b = not (is_unreserved b || b == b'%')

omits_hex : (b n : ℕ) → is_delimiter b ≡ true → n < 16 → (hex n == b) ≡ false
omits_hex b n delimiter h = elim (Bool-cases (hex n == b)) [
  | inr other ↦ other
  | inl same ↦
      let e : hex n ≡ b = (==_iff _ _).0 same in ground (arith, ap is_hex e, hex-is_hex n h)
]

encode_byte-omits :
    (b c : ℕ) (rest : Bytes)
    → is_delimiter b ≡ true
    → contains_byte b (encode_byte c ++ rest) ≡ contains_byte b rest
unfolding encode_byte contains_byte
encode_byte-omits b c rest delimiter =
    let not_percent : (b'%' == b) ≡ false = ground arith in
    elim (Bool-cases (is_unreserved c)) [
      | inl plain ↦ rw plain (ground arith)
      | inr other ↦ rw other (
          simp (
            not_percent,
            omits_hex b (c / 16 % 16) delimiter (omega arith),
            omits_hex b (c % 16) delimiter (omega arith),
          ))
    ]

-- A delimiter of URLs does not occur in an encoded component.
encode_component-omits :
    (b : ℕ) (value rest : Bytes)
    → is_delimiter b ≡ true
    → contains_byte b (encode_component value ++ rest) ≡ contains_byte b rest
unfolding encode_component
encode_component-omits b [] rest delimiter = refl
encode_component-omits b (c ∷ cs) rest delimiter = simp (
  append_assoc,
  encode_byte-omits b c (encode_component cs ++ rest) delimiter,
  encode_component-omits b cs rest delimiter,
)

before-omitted :
    (b : ℕ) (url rest : Bytes)
    → contains_byte b url ≡ false
    → before b (url ++ rest) ≡ url ++ before b rest
unfolding before contains_byte
before-omitted b [] rest h = refl
before-omitted b (c ∷ cs) rest h = ground (arith, before-omitted b cs rest)

before-contains : (b : ℕ) (url : Bytes) → contains_byte b (before b url) ≡ false
unfolding before contains_byte
before-contains b [] = refl
before-contains b (c ∷ cs) = ground (arith, before-contains b cs)

before-from : (b : ℕ) (url : Bytes) → before b url ++ from b url ≡ url
unfolding before from
before-from b [] = refl
before-from b (c ∷ cs) = ground (arith, before-from b cs)

-- What is logged of a URL is a part of it from its start, up to its first question mark: it has
-- none, and what is left out is empty or starts with one.
strip_query_lem :
    (url : Bytes)
    → (contains_byte b'?' (strip_query url) ≡ false) × (strip_query url ++ from b'?' url ≡ url)
unfolding strip_query
strip_query_lem url = (before-contains b'?' url, before-from b'?' url)

query_loop-omits_fragment :
    (has_query : Bool) (ps : Parameters) (rest : Bytes)
    → contains_byte b'#' (query_loop has_query ps ++ rest) ≡ contains_byte b'#' rest
unfolding query_loop contains_byte
query_loop-omits_fragment has_query [] rest = refl
query_loop-omits_fragment has_query ((name, value) ∷ ps) rest =
    let first : ((if has_query then b'&' else b'?') == b'#') ≡ false =
      elim has_query as (λ k. ((if k then b'&' else b'?') == b'#') ≡ false) [
        | true ↦ refl
        | false ↦ refl
      ] in
    let step : contains_byte b'#' (query_loop true ps ++ rest) ≡ contains_byte b'#' rest =
      query_loop-omits_fragment true ps rest in
    simp (
      first,
      append_assoc,
      encode_component-omits b'#' name _ refl,
      encode_component-omits b'#' value _ refl,
      step,
    )

from-omitted :
    (b : ℕ) (url rest : Bytes) → contains_byte b url ≡ false → from b (url ++ rest) ≡ from b rest
unfolding from contains_byte
from-omitted b [] rest h = refl
from-omitted b (c ∷ cs) rest h = ground (arith, from-omitted b cs rest)

from-from : (b : ℕ) (url : Bytes) → from b (from b url) ≡ from b url
unfolding from
from-from b [] = refl
from-from b (c ∷ cs) = ground (arith, from-from b cs)

before-of_from : (b : ℕ) (url : Bytes) → before b (from b url) ≡ []
unfolding from before
before-of_from b [] = refl
before-of_from b (c ∷ cs) = ground (arith, before-of_from b cs)

query_loop-no_fragment :
    (has_query : Bool) (ps : Parameters) → contains_byte b'#' (query_loop has_query ps) ≡ false
unfolding contains_byte
query_loop-no_fragment has_query ps =
    ap (contains_byte b'#') (sym (append-nil (query_loop has_query ps)))
    ∙ query_loop-omits_fragment has_query ps []

-- Appending the query parameters keeps the fragment, and puts the parameters directly before it:
-- what stands before the fragment is the old text before it, then the parameters.
pub append_query_parameters_lem :
    (url : Bytes) (ps : Parameters)
    → let result = append_query_parameters url ps in
      let path = before b'#' url in
      (from b'#' result ≡ from b'#' url)
      × (before b'#' result ≡ path ++ query_loop (contains_byte b'?' path) ps)
unfolding append_query_parameters
append_query_parameters_lem url ps =
    let path = before b'#' url in
    let q = query_loop (contains_byte b'?' path) ps in
    let no_mark = query_loop-no_fragment (contains_byte b'?' path) ps in
    (
      from-omitted b'#' path (q ++ from b'#' url) (before-contains b'#' url)
          ∙ from-omitted b'#' q (from b'#' url) no_mark
          ∙ from-from b'#' url,
      before-omitted b'#' path (q ++ from b'#' url) (before-contains b'#' url)
          ∙ ap (path ++◌) (
              before-omitted b'#' q (from b'#' url) no_mark
              ∙ ap (q ++◌) (before-of_from b'#' url)
              ∙ append-nil q),
    )
