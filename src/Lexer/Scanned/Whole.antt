-- ===== src/Lexer/Scanned/Whole.antt =====
-- `scanToken` reads at least one byte, and its token covers what it reads.
use pipetest.Base.Outcome.{Returns, returns, Returns-bind, Returns-map, if-Returns}
use pipetest.Base.Text.{Text, text, has_prefix}
use pipetest.Base.Utf8.{Rune, Unicode, AsciiLaws, decode_rune, decode_rune-ascii}
use pipetest.Base.{
  ◌≡◌, refl, ◌∙◌, ap, ◌<◌, true, false, Option, none, some, [], ◌∷◌, length, ◌||◌, arith,
}
use pipetest.Lexer.Moves.{Moves-refl, Moves-as, peek-inside}
use pipetest.Lexer.Scan.{
  scan_operator_or_punct, operator_or, path_or, no_path, is_quote, is_path_char, is_bare_key_char,
  is_ident_start, peek_path_prefix, scan_path_if_present, scan_plain, scan_after_key, scan_key,
  scan_token,
}
use pipetest.Lexer.Scanned.{
  Scanned, Scanned-as, scan_string-Scanned, scan_bare_key-Scanned, scan_path-Scanned,
  scan_number_or_duration-Scanned, scan_ident_or_keyword-Scanned, scan_unknown-Scanned,
}
use pipetest.Lexer.Scanned.Operators.{Result, nothing, scanned, scan_operator_or_punct-Result}
use pipetest.Lexer.State.{Lexer, remaining, peek}
use pipetest.Lexer.Token.{Token}

-- A scanner may start from a state that differs in the flags only.
flags-Scanned :
    {k : Lexer} (l : Lexer) {r : Token × Lexer}
    → k.src ≡ l.src
    → k.pos ≡ l.pos
    → k.indent_stack ≡ l.indent_stack
    → k.queue ≡ l.queue
    → k.eof_processed ≡ l.eof_processed
    → Scanned k r
    → Scanned l r
flags-Scanned {k} l {r} src pos stack queue eof s =
    Scanned-as l r.1 (Moves-as k (Moves-refl l) src pos stack queue eof) pos (Moves-refl r.1) refl s

http_start :
    (rest : Text)
    → (has_prefix (text "http://") rest || has_prefix (text "https://") rest) ≡ true
    → (bs : Text) × (rest ≡ b'h' ∷ bs)
unfolding has_prefix text
http_start [] e = absurd (cc)
http_start (b ∷ bs) e = (bs, ground arith)

module _ (uc : Unicode) (laws : AsciiLaws uc) where
  path_prefix-char :
      (l : Lexer)
      → l.pos < length l.src
      → peek_path_prefix l ≡ true
      → is_path_char uc (peek l) ≡ true
  unfolding peek_path_prefix
  path_prefix-char l h e =
      let p = http_start (remaining l) e in
      let d : decode_rune (remaining l) ≡ record { rune = b'h'; size = 1 } =
        rw p.1 (decode_rune-ascii b'h' p.0 (omega arith)) in
      let r : peek l ≡ b'h' = peek-inside l h ∙ ap (λ (r : Rune). r.rune) d in
      rw (r, laws.space b'h' (omega arith)) refl

  scan_plain-Scanned : (l : Lexer) → l.pos < length l.src → Returns (Scanned l) (scan_plain uc l)
  unfolding scan_plain
  scan_plain-Scanned l h = go (scan_operator_or_punct l) (scan_operator_or_punct-Result l h)
    where
      go : (o : Option (Token × Lexer)) → Result l o → Returns (Scanned l) (operator_or uc o l)
      go none r =
          if-Returns (is_quote (peek l)) (λ e. scan_string-Scanned l h)
            (λ _.
              if-Returns (uc.is_digit (peek l)) (scan_number_or_duration-Scanned uc laws l) (λ _.
                if-Returns (peek_path_prefix l)
                  (λ e. scan_path-Scanned uc laws l (path_prefix-char l h e))
                  (λ _.
                    if-Returns (is_ident_start uc (peek l))
                      (scan_ident_or_keyword-Scanned uc laws l)
                      (λ _. returns (scan_unknown-Scanned l h)))))
      go (some r) (scanned s) = returns s

  path_or-Scanned :
      (l : Lexer)
      → l.pos < length l.src
      → (o : Option (Token × Lexer)) → Result l o
      → Returns (Scanned l) (path_or uc o l)
  path_or-Scanned l h none r =
      Returns-map (scan_plain-Scanned (no_path l) h)
        (λ _ s. flags-Scanned l refl refl refl refl refl s)
  path_or-Scanned l h (some (tok, l')) (scanned s) = returns (
      Scanned-as l (no_path l') (Moves-refl l) refl
        (Moves-as _ (Moves-refl l') refl refl refl refl refl) refl s)

  scan_path_if_present-Result : (l : Lexer) → Returns (Result l) (scan_path_if_present uc l)
  unfolding scan_path_if_present
  scan_path_if_present-Result l =
      if-Returns (is_path_char uc (peek l))
        (λ e. Returns-bind _ (scan_path-Scanned uc laws l e) (λ _ s. returns (scanned s)))
        (λ _. returns nothing)

  scan_after_key-Scanned :
      (l : Lexer) → l.pos < length l.src → Returns (Scanned l) (scan_after_key uc l)
  unfolding scan_after_key
  scan_after_key-Scanned l h =
      if-Returns l.allow_path
        (λ _. Returns-bind _ (scan_path_if_present-Result l) (path_or-Scanned l h))
        (λ _. scan_plain-Scanned l h)

  scan_key-Scanned : (l : Lexer) → l.pos < length l.src → Returns (Scanned l) (scan_key uc l)
  unfolding scan_key
  scan_key-Scanned l h =
      if-Returns (is_quote (peek l)) (λ _. scan_string-Scanned l h)
        (λ _.
          if-Returns (is_bare_key_char uc (peek l)) (scan_bare_key-Scanned uc laws l)
            (λ _. scan_after_key-Scanned l h))

  -- Where unicode's classes are right on ASCII, scanToken, called before the end of the source,
  -- ends, and what it gives is not a layout token, begins where the lexer is, ends where it
  -- leaves the lexer, after at least one byte and within the source, and has as its literal the
  -- bytes between the two; the stack and the queue stay.
  pub scan_token-Scanned :
      (l : Lexer) → l.pos < length l.src → Returns (Scanned l) (scan_token uc l)
  unfolding scan_token
  scan_token-Scanned l h =
      if-Returns l.allow_bare_key
        (λ _.
          Returns-map (scan_key-Scanned (record l { line_start = false; allow_bare_key = false }) h)
            (λ _ s. flags-Scanned l refl refl refl refl refl s))
        (λ _.
          Returns-map (scan_after_key-Scanned (record l { line_start = false }) h)
            (λ _ s. flags-Scanned l refl refl refl refl refl s))
