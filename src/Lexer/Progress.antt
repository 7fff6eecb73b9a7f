-- ===== src/Lexer/Progress.antt =====
-- What a step of the layout does: it may open or close levels, which takes no more tokens than the
-- bytes that it reads allow.
pub mod Lines
pub mod Emits
pub mod Ends
pub mod Loop
use pipetest.Base.{◌≡◌, sym, ◌∙◌, ap, ℕ, ◌+◌, ◌-◌, ◌*◌, ◌≤◌, ◌<◌, true, length, arith, All}
use pipetest.Lexer.Levels.{Levels, Kept, Kept-refl}
use pipetest.Lexer.Scan.Kinds.{is_layout}
use pipetest.Lexer.Moves.{Moves}
use pipetest.Lexer.State.{Lexer, left}

-- A bound on the tokens that the lexer gives before the end: two for each byte, one for each
-- level and one for each token of the queue.
abbrev pub weight : Lexer → ℕ
weight l = 2 * left l + length l.indent_stack + length l.queue

pub record Lays (l l' : Lexer) : Type 0 where
  pub same_src : l'.src ≡ l.src
  pub forward : l.pos ≤ l'.pos
  pub in_range : l'.pos ≤ length l'.src
  pub kept : Kept l.indent_stack l.queue l'.indent_stack l'.queue
  pub same_eof : l'.eof_processed ≡ l.eof_processed
  pub lighter : weight l' ≤ weight l

pub Moves-Lays : {n : ℕ} {l l' : Lexer} → l.pos ≤ length l.src → Moves n l l' → Lays l l'
Moves-Lays {n} {l} {l'} r h = record {
  same_src = h.same_src;
  forward = omega (arith, h.forward);
  in_range = h.in_range r;
  kept = rw (h.same_stack, h.same_queue) (Kept-refl l.indent_stack l.queue);
  same_eof = h.same_eof;
  lighter = omega (
    arith,
    h.forward,
    ap (λ s. length {0} s) h.same_src,
    ap (λ s. length {0} s) h.same_stack,
    ap (λ s. length {0} s) h.same_queue,
  );
}

-- The state between two tokens.
pub record Sound (l : Lexer) : Type 0 where
  pub in_range : l.pos ≤ length l.src
  pub levels : Levels l.indent_stack
  pub queued : All (λ t. is_layout t.kind ≡ true) l.queue
  pub finished : l.eof_processed ≡ true → (length l.src ≤ l.pos) × (length l.indent_stack ≤ 1)

pub Lays-Sound : {l l' : Lexer} → l.pos < length l.src → Sound l → Lays l l' → Sound l'
Lays-Sound h s k = record {
  in_range = k.in_range;
  levels = k.kept.levels s.levels;
  queued = k.kept.queued s.queued;
  finished = λ e. absurd (omega (arith, h, (s.finished (sym k.same_eof ∙ e)).0));
}
