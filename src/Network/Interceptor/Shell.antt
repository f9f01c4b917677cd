-- ===== src/Network/Interceptor/Shell.antt =====
-- The quoting of a shell argument, against the shell's own rules.
use crossa.Prelude.{
  ℕ, ◌||◌, [], ◌∷◌, ◌++◌, Option, none, some, Bytes, ◌==◌, if◌then◌else◌, ◌≡◌, refl, inl, inr,
  Bool-cases, append-nil, ap, sym, ==_iff, ◌∙◌,
}
use crossa.Network.Interceptor.{escape_loop, escape_shell_argument}

pub data Mode : Type 0 where
  plain single double : Mode

abbrev prepend : Bytes → Option Bytes → Option Bytes
prepend a none = none
prepend a (some w) = some (a ++ w)

-- A POSIX shell on one word that consists of quoted parts alone: the text that the word stands for.
-- `none` where a quote is open at the end, where a byte stands outside the quotes, and where one
-- has a meaning inside double quotes.
pub read_word : Mode → Bytes → Option Bytes
read_word plain [] = some []
read_word single [] = none
read_word double [] = none
read_word plain (c ∷ cs) =
    if c == b'\'' then read_word single cs else if c == b'"' then read_word double cs else none
read_word single (c ∷ cs) =
    if c == b'\'' then read_word plain cs else prepend (c ∷ []) (read_word single cs)
read_word double (c ∷ cs) =
    if c == b'"'
    then read_word plain cs
    else if c == b'$' || c == b'`' || c == b'\\'
    then none
    else prepend (c ∷ []) (read_word double cs)

prepend-nil : (o : Option Bytes) → prepend [] o ≡ o
prepend-nil none = refl
prepend-nil (some w) = refl

prepend-cons :
    (c : ℕ) (cs : Bytes) (o : Option Bytes) → prepend (c ∷ []) (prepend cs o) ≡ prepend (c ∷ cs) o
prepend-cons c cs none = refl
prepend-cons c cs (some w) = refl

read_word-escape_loop :
    (value rest : Bytes)
    → read_word single (escape_loop value ++ rest) ≡ prepend value (read_word single rest)
unfolding read_word escape_loop
read_word-escape_loop [] rest = sym (prepend-nil (read_word single rest))
read_word-escape_loop (c ∷ cs) rest = elim (Bool-cases (c == b'\'')) [
  | inl quote ↦ rw quote (
      rw (read_word-escape_loop cs rest)
        (rw ((==_iff c b'\'').0 quote) (prepend-cons b'\'' cs (read_word single rest))))
  | inr other ↦
      rw other
        (rw other (rw (read_word-escape_loop cs rest) (prepend-cons c cs (read_word single rest))))
]

-- A shell reads the quoted argument back as one word, whatever bytes it holds.
pub read_word-escape_shell_argument :
    (value : Bytes) → read_word plain (escape_shell_argument value) ≡ some value
unfolding read_word escape_shell_argument
read_word-escape_shell_argument value =
    read_word-escape_loop value (b'\'' ∷ []) ∙ ap some (append-nil value)
