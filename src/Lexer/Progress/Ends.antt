-- ===== src/Lexer/Progress/Ends.antt =====
-- What `emitEOF` gives: a DEDENT for each open level, once, and then EOF.
use pipetest.Base.{
  ◌≡◌, refl, sym, ◌∙◌, ap, ◌≤◌, Bool, true, false, List, [], ◌∷◌, length, if◌then◌else◌, arith, All,
  ltb, ◌||◌,
}
use pipetest.Lexer.Layout.{
  begin_eof, process_eof, emit_eof, close_hook, close_brackets, close_stack, pop_or_eof,
}
use pipetest.Lexer.Levels.{
  is_indent, is_dedent, indents, dedents, Kept-refl, Closed, close_all-Closed, close_all-one,
}
use pipetest.Lexer.Scan.Kinds.{is_layout}
use pipetest.Lexer.Progress.{Sound}
use pipetest.Lexer.State.{Lexer, position, span_at, add_error}
use pipetest.Lexer.Token.{Token}
use pipetest.Lexer.Progress.Emits.{Emits, pop-Emits, ending, layout}

-- The end of the source closes every level but the outermost, once.
record Ended (l l' : Lexer) : Type 0 where
  closed : Closed l.indent_stack l.queue (l'.indent_stack, l'.queue)
  one : length l'.indent_stack ≤ 1
  same_src : l'.src ≡ l.src
  same_pos : l'.pos ≡ l.pos

close_stack-Ended : (l : Lexer) → Ended l (close_stack l)
unfolding close_stack
close_stack-Ended l = record {
  closed = close_all-Closed (span_at (position l)) l.indent_stack l.queue;
  one = close_all-one (span_at (position l)) l.indent_stack l.queue;
  same_src = refl;
  same_pos = refl;
}

-- The depths and the errors are free.
record Alike (l l' : Lexer) : Type 0 where
  same_stack : l'.indent_stack ≡ l.indent_stack
  same_queue : l'.queue ≡ l.queue
  same_src : l'.src ≡ l.src
  same_pos : l'.pos ≡ l.pos

if-Alike :
    {l : Lexer} (c : Bool) {a b : Lexer} → Alike l a → Alike l b → Alike l (if c then a else b)
if-Alike true h k = h
if-Alike false h k = k

close_hook-Alike : (l : Lexer) {k : Lexer} → Alike k l → Alike k (close_hook l)
unfolding close_hook add_error
close_hook-Alike l h =
    if-Alike (ltb 0 l.hook_depth)
      (record {
        same_stack = h.same_stack;
        same_queue = h.same_queue;
        same_src = h.same_src;
        same_pos = h.same_pos;
      })
      h

Alike-Ended : {l m n : Lexer} → Alike l m → Ended m n → Ended l n
Alike-Ended h e = record {
  closed = rw (sym h.same_stack, sym h.same_queue) e.closed;
  one = e.one;
  same_src = e.same_src ∙ h.same_src;
  same_pos = e.same_pos ∙ h.same_pos;
}

close_brackets-Alike : (l : Lexer) {k : Lexer} → Alike k l → Alike k (close_brackets l)
unfolding close_brackets add_error
close_brackets-Alike l h =
    if-Alike (ltb 0 l.paren_depth || (ltb 0 l.bracket_depth || ltb 0 l.brace_expr_depth))
      (record {
        same_stack = h.same_stack;
        same_queue = h.same_queue;
        same_src = h.same_src;
        same_pos = h.same_pos;
      })
      h

if-Ended :
    {l : Lexer} (c : Bool) {a b : Lexer}
    → (c ≡ true → Ended l a)
    → (c ≡ false → Ended l b)
    → Ended l (if c then a else b)
if-Ended true h k = h refl
if-Ended false h k = k refl

begin_eof-Ended : (l : Lexer) → Ended l (close_stack (close_brackets (close_hook (begin_eof l))))
begin_eof-Ended l =
    let b : Alike l (begin_eof l) = record {
      same_stack = refl;
      same_queue = refl;
      same_src = refl;
      same_pos = refl;
    } in
    Alike-Ended (close_brackets-Alike (close_hook (begin_eof l)) (close_hook-Alike (begin_eof l) b))
      (close_stack-Ended (close_brackets (close_hook (begin_eof l))))

process_eof-Ended : (l : Lexer) → l.queue ≡ [] → Sound l → Ended l (process_eof l)
unfolding process_eof
process_eof-Ended l q s =
    if-Ended l.eof_processed
      (λ e. record {
        closed = record { kept = Kept-refl l.indent_stack l.queue; total = refl };
        one = (s.finished e).1;
        same_src = refl;
        same_pos = refl;
      })
      (λ _. begin_eof-Ended l)

Ended-Sound : {l l' : Lexer} → length l.src ≤ l.pos → Sound l → Ended l l' → Sound l'
Ended-Sound h s e = record {
  in_range = omega (arith, s.in_range, e.same_pos, ap (λ s. length {0} s) e.same_src);
  levels = e.closed.kept.levels s.levels;
  queued = e.closed.kept.queued s.queued;
  finished = λ _. (omega (arith, h, e.same_pos, ap (λ s. length {0} s) e.same_src), e.one);
}

q_kind :
    {l : Lexer} {t : Token} {ts : List Token} → Sound l → l.queue ≡ t ∷ ts → is_layout t.kind ≡ true
q_kind {l} {t} {ts} s e =
    let q : All (λ t. is_layout t.kind ≡ true) (t ∷ ts) = rw e at s.queued in q.0

Ended-Emits :
    (l l' : Lexer) (queue : List Token)
    → length l.src ≤ l.pos
    → Sound l
    → Ended l l'
    → l'.queue ≡ queue
    → Emits l (pop_or_eof queue l')
unfolding indents dedents is_indent is_dedent
Ended-Emits l l' [] h s e q = record {
  sound = Ended-Sound h s e;
  same_src = e.same_src;
  forward = omega (arith, e.same_pos);
  balanced = let b = e.closed.kept.balanced in rw q (omega (arith, rw q at b));
  shape = ending refl q e.one;
}
Ended-Emits l l' (t ∷ ts) h s e q =
    let p = pop-Emits l' (Ended-Sound h s e) q in
    record {
      sound = p.sound;
      same_src = e.same_src;
      forward = omega (arith, e.same_pos);
      balanced = omega (arith, e.closed.kept.balanced, p.balanced);
      shape = layout (q_kind (Ended-Sound h s e) q) (
          omega (
            arith,
            e.closed.total,
            e.same_pos,
            ap (λ s. length {0} s) e.same_src,
            ap (λ s. length {0} s) q,
          ));
    }

pub emit_eof-Emits :
    (l : Lexer) → l.queue ≡ [] → length l.src ≤ l.pos → Sound l → Emits l (emit_eof l)
unfolding emit_eof
emit_eof-Emits l q h s =
    Ended-Emits l (process_eof l) (process_eof l).queue h s (process_eof-Ended l q s) refl
