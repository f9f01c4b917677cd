-- ===== src/Lexer/Tokenize.antt =====
-- src/compiler/lexer/Lexer.cpp: `tokenize`.
use crossa.Prelude.{
  ℕ, zero, suc, List, [], ◌∷◌, ◌-◌, Option, none, some, Bytes, length, Result, ok, err, ◌>>=◌,
}
use crossa.Lexer.Token.{TokenType, Token, end_of_file}
use crossa.Lexer.Scan.{Cursor, Reason, LexError, failed, out_of_fuel, scan_token}

-- The token between two cursors.
abbrev pub token : TokenType → Cursor → Cursor → Token
token type start p = record {
  type = type;
  offset = start.offset;
  length = p.offset - start.offset;
  line = start.line;
  column = start.column;
}

abbrev pub add : Option TokenType → Cursor → Cursor → List Token → List Token
add none start p tokens = tokens
add (some type) start p tokens = token type start p ∷ tokens

-- `fail`, in the scan of a token that starts at `start`
abbrev pub place {ℓ} : {A : Type ℓ} → Cursor → Result Reason A → Result LexError A
place start (ok a) = ok a
place start (err why) = err (failed start.line start.column why)

-- The loop, and the token of the end.
unfoldable pub tokenize_loop : ℕ → Cursor → Bytes → Result LexError (List Token)
tokenize_loop zero p bs = err out_of_fuel
tokenize_loop (suc f) p [] = ok (token end_of_file p p ∷ [])
tokenize_loop (suc f) p (c ∷ cs) = do
  (type, q, r) ← place p (scan_token p c cs)
  tokens ← tokenize_loop f q r
  ok (add type p q tokens)

-- `reset`
abbrev pub start : Cursor
start = record { offset = 0; line = 1; column = 1 }

-- `tokenize`
unfoldable pub tokenize : Bytes → Result LexError (List Token)
unfolding tokenize_loop scan_token
tokenize text = tokenize_loop (suc (length text)) start text
