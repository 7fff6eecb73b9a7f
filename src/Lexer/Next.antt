-- ===== src/Lexer/Next.antt =====
-- internal/lexer/lexer.go: `Next` and `Lex`. The loop of `Next` has one unit of fuel for each round,
-- that of `Lex` one for each token.
use pipetest.Base.Outcome.{Outcome, ok, out_of_fuel, ◌>>=◌}
use pipetest.Base.Text.{Text}
use pipetest.Base.Utf8.{Unicode}
use pipetest.Base.{
  ℕ, zero, suc, ◌+◌, ◌*◌, true, false, List, [], ◌∷◌, if◌then◌else◌, length, ◌==◌, ◌||◌,
}
use pipetest.Lexer.Layout.{
  emit_eof, handle_line_start, consume_whitespace, hash_starts_comment, skip_comment,
  handle_newline, is_blank,
}
use pipetest.Lexer.Scan.{scan_token}
use pipetest.Lexer.State.{Lexer, LexError, new_lexer, at_end, left, peek}
use pipetest.Lexer.Token.{Token, kind_eq, tok_eof}

-- The first token of the queue, or what `again` gives when there is none.
abbrev pub pop_or : (Lexer → Outcome (Token × Lexer)) → List Token → Lexer → Outcome (Token × Lexer)
pop_or again [] l = again l
pop_or again (t ∷ ts) l = ok (t, record l { queue = ts })

-- The list from the token `t`; `again` reads the tokens after it.
unfoldable pub collect :
    (Lexer → Outcome (List Token × List LexError))
    → Token
    → Lexer
    → Outcome (List Token × List LexError)
collect again t l = elim (kind_eq t.kind tok_eof) [
  | true ↦ ok (t ∷ [], l.errs)
  | false ↦ again l >>= λ rest. ok (t ∷ rest.0, rest.1)
]

module _ (uc : Unicode) where
  -- The `switch` of the loop; `again` is the next round.
  unfoldable pub dispatch : (Lexer → Outcome (Token × Lexer)) → Lexer → Outcome (Token × Lexer)
  unfolding peek is_blank consume_whitespace hash_starts_comment skip_comment handle_newline
      scan_token
  dispatch again l =
      if is_blank (peek l)
      then (consume_whitespace l >>= again)
      else (if peek l == b'#'
          then (if hash_starts_comment uc l then (skip_comment l >>= again) else scan_token uc l)
          else (if peek l == b'\n' || peek l == b'\r'
              then (let l' = handle_newline l in pop_or again l'.queue l')
              else scan_token uc l))

  unfoldable pub dispatch_or_eof :
      (Lexer → Outcome (Token × Lexer)) → Lexer → Outcome (Token × Lexer)
  unfolding dispatch emit_eof
  dispatch_or_eof again l = if at_end l then ok (emit_eof l) else dispatch again l

  -- A round of the loop, on an empty queue.
  unfoldable pub round : (Lexer → Outcome (Token × Lexer)) → Lexer → Outcome (Token × Lexer)
  unfolding dispatch dispatch_or_eof handle_line_start emit_eof
  round again l =
      if at_end l
      then ok (emit_eof l)
      else (if l.line_start
          then (handle_line_start uc l >>= λ l'. pop_or (dispatch_or_eof again) l'.queue l')
          else dispatch again l)

  unfoldable pub next_loop : ℕ → Lexer → Outcome (Token × Lexer)
  unfolding round
  next_loop zero l = out_of_fuel
  next_loop (suc k) l = round (next_loop k) l

  unfoldable pub next : Lexer → Outcome (Token × Lexer)
  unfolding next_loop
  next l = pop_or (next_loop (suc (left l))) l.queue l

  unfoldable pub lex_tokens : ℕ → Lexer → Outcome (List Token × List LexError)
  unfolding next collect
  lex_tokens zero l = out_of_fuel
  lex_tokens (suc k) l = next l >>= λ r. collect (lex_tokens k) r.0 r.1

  -- Each token but the last takes a byte or one of the layout tokens, of which there are at most two
  -- for a byte.
  unfoldable pub lex : Text → Text → Outcome (List Token × List LexError)
  unfolding new_lexer lex_tokens
  lex path src = lex_tokens (2 * length src + 2) (new_lexer path src)
