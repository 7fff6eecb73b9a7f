-- ===== src/Lexer/Levels.antt =====
-- The levels of indentation, and the layout tokens that open and close them.
use pipetest.Base.Text.{Text}
use pipetest.Base.{
  ◌≡◌, refl, ℕ, ◌+◌, ◌*◌, ◌≤◌, ◌<◌, Bool, true, false, List, [], ◌∷◌, ◌++◌, length, length-append,
  count, count-append, if◌then◌else◌, ltb, ◌==◌, arith, Bool-cases, inl, inr, All, All-append,
}
use pipetest.Lexer.Layout.{
  layout_token, top, indent_span, push_indent, pop_dedents, close_levels, check_level, level,
  process_indent, close_all,
}
use pipetest.Lexer.Scan.Kinds.{is_layout}
use pipetest.Lexer.State.{Lexer, add_error}
use pipetest.Lexer.Token.{Kind, tok_nl, tok_indent, tok_dedent, LexSpan, Token}

unfoldable pub is_indent : Kind → Bool
is_indent tok_indent = true
is_indent _ = false

unfoldable pub is_dedent : Kind → Bool
is_dedent tok_dedent = true
is_dedent _ = false

unfoldable pub indents : List Token → ℕ
unfolding is_indent
indents ts = count (λ (t : Token). is_indent t.kind) ts

unfoldable pub dedents : List Token → ℕ
unfolding is_dedent
dedents ts = count (λ (t : Token). is_dedent t.kind) ts

-- The open levels, the innermost first: each is deeper than the next, and the last is column zero.
pub data Levels : List ℕ → Type 0 where
  bottom : Levels (0 ∷ [])
  deeper : {n m : ℕ} {ns : List ℕ} → m < n → Levels (m ∷ ns) → Levels (n ∷ m ∷ ns)

pub Levels-top : {stack : List ℕ} (n : ℕ) → Levels stack → top stack < n → Levels (n ∷ stack)
Levels-top n bottom h = deeper h bottom
Levels-top n (deeper lt rest) h = deeper h (deeper lt rest)

Levels-tail : {n m : ℕ} {ns : List ℕ} → Levels (n ∷ m ∷ ns) → Levels (m ∷ ns)
Levels-tail (deeper lt rest) = rest

-- The stack and the queue change together: a level that opens gives an INDENT, one that closes a
-- DEDENT.
pub record Kept (stack : List ℕ) (queue : List Token) (stack' : List ℕ) (queue' : List Token)
    : Type 0 where
  pub levels : Levels stack → Levels stack'
  pub queued : All (λ t. is_layout t.kind ≡ true) queue → All (λ t. is_layout t.kind ≡ true) queue'
  pub balanced :
      length stack' + dedents queue' + indents queue ≡ length stack + dedents queue + indents queue'

pub Kept-refl : (stack : List ℕ) (queue : List Token) → Kept stack queue stack queue
Kept-refl stack queue = record { levels = λ h. h; queued = λ h. h; balanced = refl }

pub Kept-trans : {a b c : List ℕ} {p q r : List Token} → Kept a p b q → Kept b q c r → Kept a p c r
Kept-trans h k = record {
  levels = λ l. k.levels (h.levels l);
  queued = λ l. k.queued (h.queued l);
  balanced = omega (arith, h.balanced, k.balanced);
}

-- A token that opens and closes no level.
pub newline-Kept :
    (span : LexSpan) (stack : List ℕ) (queue : List Token)
    → Kept stack queue stack (queue ++ layout_token tok_nl span ∷ [])
unfolding indents dedents is_layout
newline-Kept span stack queue = record {
  levels = λ h. h;
  queued = λ h. All-append _ queue _ h (refl, tt);
  balanced = omega (
    arith,
    count-append (λ (t : Token). is_indent t.kind) queue (layout_token tok_nl span ∷ []),
    count-append (λ (t : Token). is_dedent t.kind) queue (layout_token tok_nl span ∷ []),
  );
}

pub indent-Kept :
    (span : LexSpan) (n : ℕ) (stack : List ℕ) (queue : List Token)
    → top stack < n
    → Kept stack queue (n ∷ stack) (queue ++ layout_token tok_indent span ∷ [])
unfolding indents dedents is_layout
indent-Kept span n stack queue lt = record {
  levels = λ h. Levels-top n h lt;
  queued = λ h. All-append _ queue _ h (refl, tt);
  balanced = omega (
    arith,
    count-append (λ (t : Token). is_indent t.kind) queue (layout_token tok_indent span ∷ []),
    count-append (λ (t : Token). is_dedent t.kind) queue (layout_token tok_indent span ∷ []),
  );
}

dedent-Kept :
    (span : LexSpan) (n m : ℕ) (ns : List ℕ) (queue : List Token)
    → Kept (n ∷ m ∷ ns) queue (m ∷ ns) (queue ++ layout_token tok_dedent span ∷ [])
unfolding indents dedents is_layout
dedent-Kept span n m ns queue = record {
  levels = Levels-tail;
  queued = λ h. All-append _ queue _ h (refl, tt);
  balanced = omega (
    arith,
    count-append (λ (t : Token). is_indent t.kind) queue (layout_token tok_dedent span ∷ []),
    count-append (λ (t : Token). is_dedent t.kind) queue (layout_token tok_dedent span ∷ []),
  );
}

-- Closing levels keeps the sum of the two lengths.
pub record Closed (stack : List ℕ) (queue : List Token) (r : List ℕ × List Token) : Type 0 where
  pub kept : Kept stack queue r.0 r.1
  pub total : length r.0 + length r.1 ≡ length stack + length queue

close_one :
    (span : LexSpan) (n m : ℕ) (ns : List ℕ) (queue : List Token) {r : List ℕ × List Token}
    → Closed (m ∷ ns) (queue ++ layout_token tok_dedent span ∷ []) r
    → Closed (n ∷ m ∷ ns) queue r
close_one span n m ns queue c = record {
  kept = Kept-trans (dedent-Kept span n m ns queue) c.kept;
  total = omega (arith, c.total, length-append {0} queue (layout_token tok_dedent span ∷ []));
}

pub pop_dedents-Closed :
    (indent : ℕ) (span : LexSpan) (stack : List ℕ) (queue : List Token)
    → Closed stack queue (pop_dedents indent span stack queue)
unfolding pop_dedents
pop_dedents-Closed indent span [] queue = record { kept = Kept-refl [] queue; total = refl }
pop_dedents-Closed indent span (n ∷ []) queue = record {
  kept = Kept-refl (n ∷ []) queue;
  total = refl;
}
pop_dedents-Closed indent span (n ∷ m ∷ ns) queue = elim (Bool-cases (ltb indent n)) [
  | inl e ↦ rw e (
      close_one span n m ns queue
        (pop_dedents-Closed indent span (m ∷ ns) (queue ++ layout_token tok_dedent span ∷ [])))
  | inr e ↦ rw e (record { kept = Kept-refl (n ∷ m ∷ ns) queue; total = refl })
]

pub close_all-Closed :
    (span : LexSpan) (stack : List ℕ) (queue : List Token)
    → Closed stack queue (close_all span stack queue)
unfolding close_all
close_all-Closed span [] queue = record { kept = Kept-refl [] queue; total = refl }
close_all-Closed span (n ∷ []) queue = record { kept = Kept-refl (n ∷ []) queue; total = refl }
close_all-Closed span (n ∷ m ∷ ns) queue =
    close_one span n m ns queue
      (close_all-Closed span (m ∷ ns) (queue ++ layout_token tok_dedent span ∷ []))

-- Only the outermost level is left.
pub close_all-one :
    (span : LexSpan) (stack : List ℕ) (queue : List Token)
    → length (close_all span stack queue).0 ≤ 1
unfolding close_all
close_all-one span [] queue = omega arith
close_all-one span (n ∷ []) queue = omega arith
close_all-one span (n ∷ m ∷ ns) queue =
    close_all-one span (m ∷ ns) (queue ++ layout_token tok_dedent span ∷ [])

-- A line of the indentation `indent` opens at most one level, and none at column zero.
pub record Leveled (indent : ℕ) (l l' : Lexer) : Type 0 where
  pub kept : Kept l.indent_stack l.queue l'.indent_stack l'.queue
  pub total :
      length l'.indent_stack + length l'.queue ≤ length l.indent_stack + length l.queue + 2 * indent
  pub same_src : l'.src ≡ l.src
  pub same_pos : l'.pos ≡ l.pos
  pub same_eof : l'.eof_processed ≡ l.eof_processed

Leveled-refl : (indent : ℕ) (l : Lexer) → Leveled indent l l
Leveled-refl indent l = record {
  kept = Kept-refl l.indent_stack l.queue;
  total = omega arith;
  same_src = refl;
  same_pos = refl;
  same_eof = refl;
}

push_indent-Leveled :
    (indent : ℕ) (l : Lexer) → top l.indent_stack < indent → Leveled indent l (push_indent indent l)
push_indent-Leveled indent l h = record {
  kept = indent-Kept (indent_span indent l) indent l.indent_stack l.queue h;
  total =
      omega
        (arith, length-append {0} l.queue (layout_token tok_indent (indent_span indent l) ∷ []), h);
  same_src = refl;
  same_pos = refl;
  same_eof = refl;
}

close_levels-Leveled : (indent : ℕ) (l : Lexer) → Leveled indent l (close_levels indent l)
unfolding close_levels
close_levels-Leveled indent l =
    let c = pop_dedents-Closed indent (indent_span indent l) l.indent_stack l.queue in
    record {
      kept = c.kept;
      total = omega (arith, c.total);
      same_src = refl;
      same_pos = refl;
      same_eof = refl;
    }

error-Leveled :
    (indent : ℕ) (code message hint : Text) (span : LexSpan) (l : Lexer) {l' : Lexer}
    → Leveled indent (add_error code message hint span l) l'
    → Leveled indent l l'
unfolding add_error
error-Leveled indent code message hint span l h = record {
  kept = h.kept;
  total = h.total;
  same_src = h.same_src;
  same_pos = h.same_pos;
  same_eof = h.same_eof;
}

if-Leveled :
    {indent : ℕ} {l : Lexer} (c : Bool) {a b : Lexer}
    → (c ≡ true → Leveled indent l a)
    → (c ≡ false → Leveled indent l b)
    → Leveled indent l (if c then a else b)
if-Leveled true h k = h refl
if-Leveled false h k = k refl

check_level-Leveled :
    (indent : ℕ) (l : Lexer) {k : Lexer}
    → Leveled indent k l
    → Leveled indent k (check_level indent l)
unfolding check_level add_error
check_level-Leveled indent l h =
    if-Leveled (indent == top l.indent_stack) (λ _. h)
      (λ _. record {
        kept = h.kept;
        total = h.total;
        same_src = h.same_src;
        same_pos = h.same_pos;
        same_eof = h.same_eof;
      })

level-Leveled : (indent : ℕ) (l : Lexer) → Leveled indent l (level (top l.indent_stack) indent l)
unfolding level add_error
level-Leveled indent l =
    if-Leveled (ltb (top l.indent_stack) indent)
      (λ e. error-Leveled indent _ _ _ _ l (push_indent-Leveled indent _ (ground arith)))
      (λ _.
        if-Leveled (ltb indent (top l.indent_stack))
          (λ _. check_level-Leveled indent (close_levels indent l) (close_levels-Leveled indent l))
          (λ _. Leveled-refl indent l))

pub process_indent-Leveled : (indent : ℕ) (l : Lexer) → Leveled indent l (process_indent indent l)
unfolding process_indent add_error
process_indent-Leveled indent l =
    if-Leveled l.expect_indent
      (λ _.
        if-Leveled (ltb (top l.indent_stack) indent)
          (λ e. push_indent-Leveled indent l (ground arith))
          (λ _. error-Leveled indent _ _ _ _ l (level-Leveled indent _)))
      (λ _. level-Leveled indent l)
