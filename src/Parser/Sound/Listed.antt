-- ===== src/Parser/Sound/Listed.antt =====
-- Lists of expressions and of entries, with their separators.
use Prim.Native.String.{String}
use crossa.Prelude.{
  ℕ, zero, suc, ◌≤◌, ◌<◌, true, List, Bytes, length, ok, ◌≡◌, ◌≢◌, arith, done, Post-if, Post-bind,
  Post-weaken, inl, inr, Option-cases,
}
use crossa.Lexer.Token.{TokenType, Token}
use crossa.Syntax.{StringSegment}
use crossa.Parser.Cursor.{Tokens, peek, check, advance}
use crossa.Parser.Strings.{parse_string_segments}
use crossa.Parser.Expressions.{Parse, expressions_loop, parse_list, literal_text}
use crossa.Parser.Primary.{
  ParseKey, parse_name, string_key, parse_json_object_key, entries_loop, parse_entries,
}
use crossa.Parser.Grammar.{Starts, Keys, DerivesKey, name, text}
use crossa.Parser.Grammar.Expressions.{
  DerivesExpression, DerivesList, empty, filled, DerivesItems, one, more, DerivesEntries,
  no_entries, entries, DerivesPairs, last, next,
}
use crossa.Parser.Sound.Cursors.{
  Good, Reads, P-peek, fail-Post, check-Good, check-Starts, consume-Reads,
}
use crossa.Parser.Sound.Texts.{parse_string_segments-Post}

module _ (P : Token → Type 0) (source : Bytes) where
  parse_name-Reads :
      (keys : Keys) (message : String) (ts : Tokens)
      → Good P ts
      → Reads P (λ key r. DerivesKey source keys ts key r) ts (parse_name source message ts)
  unfolding parse_name
  parse_name-Reads keys message ts good =
      Post-bind _ (consume-Reads P TokenType.identifier message ts good (λ e. cc))
        (λ x all. done (name all.0.0, all.1, all.2))

  string_key-Reads :
      (ts : Tokens) (segments : List StringSegment)
      → Good P ts
      → check TokenType.string_literal ts ≡ true
      → parse_string_segments source (peek ts) ≡ ok segments
      → Reads P
          (λ key r. DerivesKey source Keys.texts ts key r)
          ts
          (string_key ts (literal_text segments))
  unfolding string_key
  string_key-Reads ts segments good h read = elim (Option-cases (literal_text segments)) [
    | inl bad ↦ rw bad (fail-Post P (peek ts) _ (P-peek P ts good))
    | inr (key, plain) ↦ rw plain (
        let moved = check-Good P TokenType.string_literal ts good (λ e. cc) h in
        done (
          text (check-Starts P TokenType.string_literal ts (λ e. cc) h) read plain,
          moved.0,
          moved.1,
        ))
  ]

  parse_json_object_key-Reads :
      (ts : Tokens)
      → Good P ts
      → Reads P
          (λ key r. DerivesKey source Keys.texts ts key r)
          ts
          (parse_json_object_key source ts)
  unfolding parse_json_object_key
  parse_json_object_key-Reads ts good =
      Post-if (check TokenType.identifier ts) _ _
        (λ h.
          let moved = check-Good P TokenType.identifier ts good (λ e. cc) h in
          done (name (check-Starts P TokenType.identifier ts (λ e. cc) h), moved.0, moved.1))
        (λ _.
          Post-if (check TokenType.string_literal ts) _ _
            (λ h.
              Post-bind _ (parse_string_segments-Post P (peek ts) (P-peek P ts good) source)
                (λ segments read. string_key-Reads ts segments good h read))
            (λ _. fail-Post P (peek ts) _ (P-peek P ts good)))

  -- A parser of whole expressions at a depth, over less than `f` tokens.
  abbrev pub SoundInner : ℕ → ℕ → Parse → Type 0
  SoundInner depth f inner =
      (ts : Tokens)
      → Good P ts
      → length ts < f
      → Reads P (λ e r. DerivesExpression source depth ts e r) ts (inner ts)

  module _ (depth f : ℕ) (inner : Parse) (sound : SoundInner depth f inner) where
    expressions_loop-Reads :
        (fuel : ℕ) (ts : Tokens)
        → Good P ts
        → length ts < fuel
        → length ts < f
        → Reads P (λ es r. DerivesItems source depth ts es r) ts (expressions_loop fuel inner ts)
    unfolding expressions_loop
    expressions_loop-Reads zero ts good lt lf = absurd (omega arith)
    expressions_loop-Reads (suc fuel) ts good lt lf = Post-bind _ (sound ts good lf) (λ x first.
        Post-if (check TokenType.comma x.1) _ _
          (λ h.
            let moved = check-Good P TokenType.comma x.1 first.1 (λ e. cc) h in
            Post-bind _
              (expressions_loop-Reads fuel (advance x.1) moved.0 (omega arith) (omega arith))
              (λ y rest. done (
                more first.0 (check-Starts P TokenType.comma x.1 (λ e. cc) h) rest.0,
                rest.1,
                omega arith,
              )))
          (λ _. done (one first.0, first.1, first.2)))

    pub parse_list-Reads :
        (fuel : ℕ) (close : TokenType) (message : String) (ts : Tokens)
        → close ≢ TokenType.end_of_file
        → Good P ts
        → length ts < fuel
        → length ts < f
        → Reads P
            (λ es r. DerivesList source depth close ts es r)
            ts
            (parse_list fuel close message inner ts)
    unfolding parse_list
    parse_list-Reads fuel close message ts ne good lt lf =
        Post-bind
          {P = λ x.
            ((t : Token) (r : Tokens)
              → Starts close x.1 t r
              → DerivesList source depth close ts x.0 r)
            × Good P x.1
            × (length x.1 ≤ length ts)}
          _
          (Post-if (check close ts) _ _
            (λ h. done ((λ t r starts. empty starts), good, omega arith))
            (λ _.
              Post-weaken (expressions_loop-Reads fuel ts good lt lf)
                (λ x all. ((λ t r starts. filled all.0 starts), all.1, omega arith))))
          (λ x all.
            Post-bind _ (consume-Reads P close message x.1 all.1 ne)
              (λ y end. done (all.0 _ _ end.0.0, end.1, omega arith)))

    module _ (keys : Keys) (key : ParseKey)
        (reads_key : (ts : Tokens)
          → Good P ts
          → Reads P (λ k r. DerivesKey source keys ts k r) ts (key ts)) where
      entries_loop-Reads :
          (fuel : ℕ) (colon : String) (ts : Tokens)
          → Good P ts
          → length ts < fuel
          → length ts < f
          → Reads P
              (λ es r. DerivesPairs source depth keys ts es r)
              ts
              (entries_loop fuel key colon inner ts)
      unfolding entries_loop
      entries_loop-Reads zero colon ts good lt lf = absurd (omega arith)
      entries_loop-Reads (suc fuel) colon ts good lt lf =
          Post-bind _ (reads_key ts good) (λ k named.
            Post-bind _ (consume-Reads P TokenType.colon colon k.1 named.1 (λ e. cc)) (λ c mark.
              Post-bind _ (sound c.1 mark.1 (omega arith)) (λ x value.
                Post-if (check TokenType.comma x.1) _ _
                  (λ h.
                    let moved = check-Good P TokenType.comma x.1 value.1 (λ e. cc) h in
                    Post-bind _
                      (entries_loop-Reads fuel colon (advance x.1) moved.0 (omega arith)
                        (omega arith))
                      (λ y rest. done (
                        next named.0 mark.0.0 value.0
                            (check-Starts P TokenType.comma x.1 (λ e. cc) h) rest.0,
                        rest.1,
                        omega arith,
                      )))
                  (λ _. done (last named.0 mark.0.0 value.0, value.1, omega arith)))))

      pub parse_entries-Reads :
          (fuel : ℕ) (colon close : String) (ts : Tokens)
          → Good P ts
          → length ts < fuel
          → length ts < f
          → Reads P
              (λ es r. DerivesEntries source depth keys ts es r)
              ts
              (parse_entries fuel key colon close inner ts)
      unfolding parse_entries
      parse_entries-Reads fuel colon close ts good lt lf =
          Post-bind
            {P = λ x.
              ((t : Token) (r : Tokens)
                → Starts TokenType.right_brace x.1 t r
                → DerivesEntries source depth keys ts x.0 r)
              × Good P x.1
              × (length x.1 ≤ length ts)}
            _
            (Post-if (check TokenType.right_brace ts) _ _
              (λ h. done ((λ t r starts. no_entries starts), good, omega arith))
              (λ _.
                Post-weaken (entries_loop-Reads fuel colon ts good lt lf)
                  (λ x all. ((λ t r starts. entries all.0 starts), all.1, omega arith))))
            (λ x all.
              Post-bind _ (consume-Reads P TokenType.right_brace close x.1 all.1 (λ e. cc))
                (λ y end. done (all.0 _ _ end.0.0, end.1, omega arith)))

    pub parse_named_entries-Reads :
        (fuel : ℕ) (missing colon close : String) (ts : Tokens)
        → Good P ts
        → length ts < fuel
        → length ts < f
        → Reads P
            (λ es r. DerivesEntries source depth Keys.names ts es r)
            ts
            (parse_entries fuel (parse_name source missing) colon close inner ts)
    parse_named_entries-Reads fuel missing =
        parse_entries-Reads Keys.names _ (parse_name-Reads Keys.names missing) fuel

    pub parse_text_entries-Reads :
        (fuel : ℕ) (colon close : String) (ts : Tokens)
        → Good P ts
        → length ts < fuel
        → length ts < f
        → Reads P
            (λ es r. DerivesEntries source depth Keys.texts ts es r)
            ts
            (parse_entries fuel (parse_json_object_key source) colon close inner ts)
    parse_text_entries-Reads fuel =
        parse_entries-Reads Keys.texts _ parse_json_object_key-Reads fuel
