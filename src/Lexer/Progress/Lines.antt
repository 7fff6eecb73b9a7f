-- ===== src/Lexer/Progress/Lines.antt =====
-- The start and the end of a line: `handleLineStart` and `handleNewline`.
use pipetest.Base.Outcome.{Returns, returns, Returns-bind, Returns-map, if-Returns}
use pipetest.Base.Utf8.{Unicode}
use pipetest.Base.{
  ◌≡◌, refl, sym, ◌∙◌, ap, ℕ, zero, suc, ◌+◌, ◌≤◌, ◌<◌, Bool, true, false, not, [], ◌∷◌, length,
  length-append, if◌then◌else◌, ◌==◌, ◌&&◌, arith, Bool-cases, inl, inr,
}
use pipetest.Lexer.Layout.{
  layout_token, is_blank, is_line_end, skip_blank, measure_indent, skip_comment, handle_newline,
  hash_starts_comment, line_body, handle_line_start, consume_whitespace,
}
use pipetest.Lexer.Levels.{Leveled, process_indent-Leveled, newline-Kept}
use pipetest.Lexer.Moves.{
  Moves, Moves-trans, Moves-weaken, Moves-refl, Moves-as, advance-Moves_one, advance_while-Moves,
  advance_while-Moves_one, AtNewline, consume_newline-Moves, peek-inside_of, less, add_error-Moves,
}
use pipetest.Lexer.Progress.{Lays, Moves-Lays}
use pipetest.Lexer.State.{
  Lexer, left, position, peek, add_error, consume_newline, expr_depth, in_layout,
}
use pipetest.Lexer.Token.{tok_nl}

pub skip_blank-Moves : (l : Lexer) → l.pos < length l.src → Returns (Moves 1 l) (skip_blank l)
unfolding skip_blank add_error peek
skip_blank-Moves l h =
    if-Returns (peek l == b' ' && in_layout l)
      (λ e.
        let m = add_error-Moves _ _ _ _ l in
        Returns-map (advance_while-Moves_one (λ r. r == b' ') refl _ (ground (arith, e)))
          (λ _ n. Moves-trans m n))
      (λ _. returns (advance-Moves_one l h))

-- Only the layout's tokens of a line break go to the queue.
pub handle_newline-Lays :
    (l : Lexer) → l.pos < length l.src → AtNewline l → Lays l (handle_newline l)
unfolding handle_newline
handle_newline-Lays l h n =
    let m = consume_newline-Moves l h n in
    let c = consume_newline l in
    elim (Bool-cases (expr_depth c == 0)) [
      | inl e ↦ rw e (record {
        same_src = m.same_src;
        forward = omega (arith, m.forward);
        in_range = m.in_range (omega (arith, h));
        kept = rw (m.same_stack, m.same_queue) (newline-Kept _ l.indent_stack l.queue);
        same_eof = m.same_eof;
        lighter = omega (
          arith,
          m.forward,
          m.in_range (omega (arith, h)),
          ap (λ s. length {0} s) m.same_src,
          ap (λ s. length {0} s) m.same_stack,
          ap (λ s. length {0} s) m.same_queue,
          length-append {0} c.queue
              (layout_token tok_nl (record { start = position l; end = position c }) ∷ []),
        );
      })
      | inr e ↦ rw e (Moves-Lays (omega (arith, h)) (Moves-as _ m refl refl refl refl refl))
    ]

pub handle_newline-reads :
    (l : Lexer) → l.pos < length l.src → AtNewline l → l.pos < (handle_newline l).pos
unfolding handle_newline
handle_newline-reads l h n =
    let m = consume_newline-Moves l h n in
    elim (Bool-cases (expr_depth (consume_newline l) == 0)) [
      | inl e ↦ rw e (omega (arith, m.forward))
      | inr e ↦ rw e (omega (arith, m.forward))
    ]

pub consume_whitespace-Moves :
    (l : Lexer) → is_blank (peek l) ≡ true → Returns (Moves 1 l) (consume_whitespace l)
unfolding consume_whitespace is_blank
consume_whitespace-Moves l e = advance_while-Moves_one is_blank refl l e

-- The indentation is at most the number of bytes read.
record Measured (indent : ℕ) (l : Lexer) (r : ℕ × Lexer) : Type 0 where
  moves : Moves 0 l r.1
  counted : r.0 + l.pos ≤ indent + r.1.pos

Measured-after :
    {indent : ℕ} {l m : Lexer} {r : ℕ × Lexer} (c : Bool)
    → Moves 1 l m
    → Measured (if c then suc indent else indent) m r
    → Measured indent l r
Measured-after c s m = record {
  moves = Moves-weaken 0 (omega arith) (Moves-trans s m.moves);
  counted = ground (arith, m.counted, s.forward);
}

measure_indent-Measured :
    (k indent : ℕ) (l : Lexer)
    → left l < k
    → Returns (Measured indent l) (measure_indent k indent l)
unfolding measure_indent is_blank
measure_indent-Measured zero indent l h = absurd (omega (arith, h))
measure_indent-Measured (suc k) indent l h =
    if-Returns (is_blank (peek l))
      (λ e.
        let f = peek-inside_of l is_blank refl e in
        Returns-bind _ (skip_blank-Moves l f) (λ n m.
          Returns-map (measure_indent-Measured k _ n (less f m h))
            (λ _ r. Measured-after (peek l == b'\t' && in_layout l) m r)))
      (λ _. returns (record { moves = Moves-refl l; counted = omega arith }))

pub skip_comment-Moves_one :
    (l : Lexer) → (peek l == b'#') ≡ true → Returns (Moves 1 l) (skip_comment l)
unfolding skip_comment is_line_end
skip_comment-Moves_one l e =
    advance_while-Moves_one (λ r. not (is_line_end r)) refl l (ground (arith, e))

skip_comment-Moves : (l : Lexer) → Returns (Moves 0 l) (skip_comment l)
unfolding skip_comment is_line_end
skip_comment-Moves l =
    advance_while-Moves (λ r. not (is_line_end r)) refl (suc (left l)) l (omega arith)

Leveled-Lays :
    {indent : ℕ} (l : Lexer) {m l' : Lexer}
    → l.pos ≤ length l.src
    → Moves 0 l m
    → indent + l.pos ≤ m.pos
    → Leveled indent m l'
    → Lays l l'
Leveled-Lays {indent} l {m} {l'} r h i v = record {
  same_src = v.same_src ∙ h.same_src;
  forward = omega (arith, h.forward, v.same_pos);
  in_range = omega (arith, h.in_range r, v.same_pos, ap (λ s. length {0} s) v.same_src);
  kept = rw (sym h.same_stack, sym h.same_queue) v.kept;
  same_eof = v.same_eof ∙ h.same_eof;
  lighter = omega (
    arith,
    i,
    v.total,
    v.same_pos,
    h.in_range r,
    ap (λ s. length {0} s) v.same_src,
    ap (λ s. length {0} s) h.same_src,
    ap (λ s. length {0} s) h.same_stack,
    ap (λ s. length {0} s) h.same_queue,
  );
}

-- The flags are free.
flags-Leveled :
    {indent : ℕ} {l m : Lexer}
    → Leveled indent l m
    → Leveled indent l (record m { expect_indent = false; line_start = false })
flags-Leveled h = record {
  kept = h.kept;
  total = h.total;
  same_src = h.same_src;
  same_pos = h.same_pos;
  same_eof = h.same_eof;
}

module _ (uc : Unicode) where
  line_body-Lays :
      (indent : ℕ) (l m : Lexer)
      → l.pos ≤ length l.src
      → Moves 0 l m
      → indent + l.pos ≤ m.pos
      → Returns (Lays l) (line_body uc indent m)
  unfolding line_body
  line_body-Lays indent l m r h i =
      if-Returns (peek m == b'#' && hash_starts_comment uc m)
        (λ _. Returns-map (skip_comment-Moves m) (λ _ n. Moves-Lays r (Moves-trans h n)))
        (λ _.
          if-Returns (is_line_end (peek m)) (λ _. returns (Moves-Lays r h))
            (λ _.
              if-Returns (in_layout m)
                (λ _.
                  returns (Leveled-Lays l r h i (flags-Leveled (process_indent-Leveled indent m))))
                (λ _. returns (Moves-Lays r (Moves-as _ h refl refl refl refl refl)))))

  pub handle_line_start-Lays :
      (l : Lexer) → l.pos ≤ length l.src → Returns (Lays l) (handle_line_start uc l)
  unfolding handle_line_start
  handle_line_start-Lays l r =
      if-Returns l.line_start
        (λ _.
          Returns-bind _ (measure_indent-Measured (suc (left l)) 0 l (omega arith))
            (λ _ m. line_body-Lays _ l _ r m.moves (omega (arith, m.counted))))
        (λ _. returns (Moves-Lays r (Moves-refl l)))
