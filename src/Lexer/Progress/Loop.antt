-- ===== src/Lexer/Progress/Loop.antt =====
-- The loops of `Next` and `Lex` end.
use pipetest.Base.Outcome.{Outcome, Returns, returns, Returns-bind, Returns-map, if-Returns, ◌>>=◌}
use pipetest.Base.Utf8.{Unicode, AsciiLaws}
use pipetest.Base.{
  ◌≡◌, refl, ◌∙◌, ap, ℕ, zero, suc, ◌≤◌, ◌<◌, List, [], ◌∷◌, length, arith, ◌==◌, ◌||◌,
}
use pipetest.Lexer.Layout.{is_blank, hash_starts_comment, handle_newline}
use pipetest.Lexer.Moves.{Moves, AtNewline}
use pipetest.Lexer.Next.{pop_or, dispatch, dispatch_or_eof, round, next_loop, next}
use pipetest.Lexer.Progress.Ends.{emit_eof-Emits}
use pipetest.Lexer.Progress.Emits.{Emits, Emits-after, pop-Emits, scan_token-Emits}
use pipetest.Lexer.Progress.Lines.{
  handle_line_start-Lays, handle_newline-Lays, handle_newline-reads, consume_whitespace-Moves,
  skip_comment-Moves_one,
}
use pipetest.Lexer.Progress.{Lays, Moves-Lays, Sound, Lays-Sound}
use pipetest.Lexer.State.{Lexer, at_end, left, peek}
use pipetest.Lexer.Token.{Token}

after_Gives :
    {l m : Lexer} {o : Outcome (Token × Lexer)}
    → Lays l m
    → Returns (Emits m) o
    → Returns (Emits l) o
after_Gives h g = Returns-map g (λ r e. Emits-after h e)

-- `again` gives a token from every state with fewer bytes left.
abbrev Again : ℕ → (Lexer → Outcome (Token × Lexer)) → Type 0
Again n again = (m : Lexer) → Sound m → m.queue ≡ [] → left m < n → Returns (Emits m) (again m)

module _ (uc : Unicode) (laws : AsciiLaws uc) where
  repeat_after :
      {n : ℕ} {again : Lexer → Outcome (Token × Lexer)} {l : Lexer} {o : Outcome Lexer}
      → Again n again
      → Sound l
      → l.queue ≡ []
      → left l ≤ n
      → l.pos < length l.src
      → Returns (Moves 1 l) o
      → Returns (Emits l) (o >>= again)
  repeat_after a s q le h r = Returns-bind _ r (λ n m.
      let k = Moves-Lays s.in_range m in
      after_Gives k (
        a n (Lays-Sound h s k) (m.same_queue ∙ q)
          (omega (arith, le, h, m.forward, ap (λ s. length {0} s) m.same_src))))

  dispatch-Gives :
      {n : ℕ} (again : Lexer → Outcome (Token × Lexer)) (l : Lexer)
      → Again n again
      → Sound l
      → l.queue ≡ []
      → left l ≤ n
      → l.pos < length l.src
      → Returns (Emits l) (dispatch uc again l)
  unfolding dispatch AtNewline
  dispatch-Gives again l a s q le h =
      if-Returns (is_blank (peek l)) (λ e. repeat_after a s q le h (consume_whitespace-Moves l e))
        (λ _.
          if-Returns (peek l == b'#')
            (λ e.
              if-Returns (hash_starts_comment uc l)
                (λ _. repeat_after a s q le h (skip_comment-Moves_one l e))
                (λ _. scan_token-Emits uc laws l h s))
            (λ _.
              if-Returns (peek l == b'\n' || peek l == b'\r')
                (λ e.
                  newline (handle_newline l) (handle_newline l).queue (handle_newline-Lays l h e)
                    (handle_newline-reads l h e) refl)
                (λ _. scan_token-Emits uc laws l h s)))
    where
      newline :
          (m : Lexer) (queue : List Token)
          → Lays l m
          → l.pos < m.pos
          → m.queue ≡ queue
          → Returns (Emits l) (pop_or again queue m)
      newline m [] k lt e =
          after_Gives k
            (a m (Lays-Sound h s k) e (omega (arith, le, h, lt, ap (λ s. length {0} s) k.same_src)))
      newline m (t ∷ ts) k lt e = after_Gives k (returns (pop-Emits m (Lays-Sound h s k) e))

  dispatch_or_eof-Gives :
      {n : ℕ} (again : Lexer → Outcome (Token × Lexer)) (l : Lexer)
      → Again n again
      → Sound l
      → l.queue ≡ []
      → left l ≤ n
      → Returns (Emits l) (dispatch_or_eof uc again l)
  unfolding dispatch_or_eof
  dispatch_or_eof-Gives again l a s q le =
      if-Returns (at_end l) (λ e. returns (emit_eof-Emits l q (ground arith) s))
        (λ e. dispatch-Gives again l a s q le (ground arith))

  round-Gives :
      {n : ℕ} (again : Lexer → Outcome (Token × Lexer)) (l : Lexer)
      → Again n again
      → Sound l
      → l.queue ≡ []
      → left l ≤ n
      → Returns (Emits l) (round uc again l)
  unfolding round
  round-Gives again l a s q le =
      if-Returns (at_end l) (λ e. returns (emit_eof-Emits l q (ground arith) s))
        (λ e.
          if-Returns l.line_start
            (λ _.
              Returns-bind _ (handle_line_start-Lays uc l s.in_range)
                (λ m k. line m m.queue k (ground arith) refl))
            (λ _. dispatch-Gives again l a s q le (ground arith)))
    where
      line :
          (m : Lexer) (queue : List Token)
          → Lays l m
          → l.pos < length l.src
          → m.queue ≡ queue
          → Returns (Emits l) (pop_or (dispatch_or_eof uc again) queue m)
      line m [] k h e = after_Gives k (
          dispatch_or_eof-Gives again m a (Lays-Sound h s k) e
            (omega (arith, le, k.forward, ap (λ s. length {0} s) k.same_src)))
      line m (t ∷ ts) k h e = after_Gives k (returns (pop-Emits m (Lays-Sound h s k) e))

  next_loop-Gives :
      (k : ℕ) (l : Lexer)
      → Sound l
      → l.queue ≡ []
      → left l < k
      → Returns (Emits l) (next_loop uc k l)
  unfolding next_loop
  next_loop-Gives zero l s q h = absurd (omega (arith, h))
  next_loop-Gives (suc k) l s q h =
      round-Gives (next_loop uc k) l (λ m s q lt. next_loop-Gives k m s q lt) s q (omega (arith, h))

  -- Where unicode's classes are right on ASCII, Next ends with a token from every state that is
  -- in range, has strictly deeper levels over column zero and only layout tokens in the queue,
  -- and, if it has processed the end of the source, stands there with at most one level; it
  -- leaves such a state of the same source, no further back. The token is EOF, with an empty
  -- queue and at most one level left, or of the layout, or covers bytes of the source that it
  -- reads. Levels and queued INDENT and DEDENT tokens, the token included, change together, and
  -- unless the token is EOF, twice the bytes left, the levels and the queue become fewer in sum.
  pub next-Gives : (l : Lexer) → Sound l → Returns (Emits l) (next uc l)
  unfolding next
  next-Gives l s = go l.queue refl
    where
      go :
          (queue : List Token)
          → l.queue ≡ queue
          → Returns (Emits l) (pop_or (next_loop uc (suc (left l))) queue l)
      go [] e = next_loop-Gives (suc (left l)) l s e (omega arith)
      go (t ∷ ts) e = returns (pop-Emits l s e)
