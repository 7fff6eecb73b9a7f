-- ===== src/Lexer/Progress/Emits.antt =====
-- What one call of `Next` gives.
use pipetest.Base.Outcome.{Returns, Returns-map}
use pipetest.Base.Text.{Text}
use pipetest.Base.Utf8.{Unicode, AsciiLaws}
use pipetest.Base.{
  ◌≡◌, refl, sym, ◌∙◌, ap, ℕ, ◌+◌, ◌≤◌, ◌<◌, true, false, List, [], ◌∷◌, length, arith, All,
}
use pipetest.Lexer.Levels.{is_indent, is_dedent, indents, dedents}
use pipetest.Lexer.Scan.Kinds.{is_layout}
use pipetest.Lexer.Progress.{weight, Lays, Sound}
use pipetest.Lexer.Scan.{scan_token}
use pipetest.Lexer.Scanned.{is_code, Scanned}
use pipetest.Lexer.Scanned.Whole.{scan_token-Scanned}
use pipetest.Lexer.State.{Lexer, slice}
use pipetest.Lexer.Token.{Kind, tok_eof, tok_indent, tok_dedent, Token}

-- The token covers bytes of `src`, which lie within it, from `low` to `high`.
pub record Covers (src : Text) (low high : ℕ) (t : Token) : Type 0 where
  pub code : is_code t.kind ≡ true
  pub begins : low ≤ t.span.start.offset
  pub not_empty : t.span.start.offset < t.span.end.offset
  pub ends : t.span.end.offset ≤ high
  pub in_source : t.span.end.offset ≤ length src
  pub covers : t.lit ≡ slice src t.span.start.offset t.span.end.offset

-- The token at the end of the source, with only one level left, one of the layout, or one that covers
-- bytes.
pub data TokenCase (l : Lexer) (t : Token) (l' : Lexer) : Type 0 where
  ending : t.kind ≡ tok_eof → l'.queue ≡ [] → length l'.indent_stack ≤ 1 → TokenCase l t l'
  layout : is_layout t.kind ≡ true → weight l' < weight l → TokenCase l t l'
  source : Covers l.src l.pos l'.pos t → weight l' < weight l → TokenCase l t l'

pub record Emits (l : Lexer) (r : Token × Lexer) : Type 0 where
  pub sound : Sound r.1
  pub same_src : r.1.src ≡ l.src
  pub forward : l.pos ≤ r.1.pos
  pub balanced :
      length r.1.indent_stack + dedents (r.0 ∷ r.1.queue) + indents l.queue
      ≡ length l.indent_stack + dedents l.queue + indents (r.0 ∷ r.1.queue)
  pub shape : TokenCase l r.0 r.1

TokenCase-after : {l m l' : Lexer} {t : Token} → Lays l m → TokenCase m t l' → TokenCase l t l'
TokenCase-after h (ending e q s) = ending e q s
TokenCase-after h (layout k w) = layout k (omega (arith, w, h.lighter))
TokenCase-after h (source c w) =
    source
      (record {
        code = c.code;
        begins = omega (arith, c.begins, h.forward);
        not_empty = c.not_empty;
        ends = c.ends;
        in_source = omega (arith, c.in_source, ap (λ s. length {0} s) h.same_src);
        covers = rw (sym h.same_src) c.covers;
      })
      (omega (arith, w, h.lighter))

pub Emits-after : {l m : Lexer} {r : Token × Lexer} → Lays l m → Emits m r → Emits l r
Emits-after h e = record {
  sound = e.sound;
  same_src = e.same_src ∙ h.same_src;
  forward = omega (arith, h.forward, e.forward);
  balanced = omega (arith, h.kept.balanced, e.balanced);
  shape = TokenCase-after h e.shape;
}

pub pop-Emits :
    (l : Lexer) {t : Token} {ts : List Token}
    → Sound l
    → l.queue ≡ t ∷ ts
    → Emits l (t, record l { queue = ts })
pop-Emits l {t} {ts} s e =
    let q : All (λ t. is_layout t.kind ≡ true) (t ∷ ts) = rw e at s.queued in
    record {
      sound = record {
        in_range = s.in_range;
        levels = s.levels;
        queued = q.1;
        finished = s.finished;
      };
      same_src = refl;
      forward = omega arith;
      balanced = rw e refl;
      shape = layout q.0 (omega (arith, ap (λ s. length {0} s) e));
    }

code_kind-balanced : (k : Kind) → is_code k ≡ true → (is_indent k ≡ false) × (is_dedent k ≡ false)
unfolding is_code is_indent is_dedent
code_kind-balanced tok_indent e = absurd (cc)
code_kind-balanced tok_dedent e = absurd (cc)
code_kind-balanced _ e = (refl, refl)

Scanned-Emits :
    (l : Lexer) {r : Token × Lexer} → l.pos < length l.src → Sound l → Scanned l r → Emits l r
unfolding indents dedents
Scanned-Emits l {r} h s c =
    let m = c.moves in
    let b = code_kind-balanced r.0.kind c.code in
    let w = ap (λ s. length {0} s) m.same_src in
    let i = m.in_range s.in_range in
    let k = ap (λ s. length {0} s) m.same_stack in
    let q = ap (λ s. length {0} s) m.same_queue in
    record {
      sound = record {
        in_range = i;
        levels = rw m.same_stack s.levels;
        queued = rw m.same_queue s.queued;
        finished = λ e. absurd (omega (arith, h, (s.finished (sym m.same_eof ∙ e)).0));
      };
      same_src = m.same_src;
      forward = omega (arith, m.forward);
      balanced = rw (b.0, b.1, m.same_stack, m.same_queue) (omega arith);
      shape =
          source
            (record {
              code = c.code;
              begins = omega (arith, c.begins);
              not_empty = omega (arith, c.begins, c.ends, m.forward);
              ends = omega (arith, c.ends);
              in_source = omega (arith, c.ends, i, w);
              covers = rw (c.begins, c.ends) c.covers;
            })
            (omega (arith, m.forward, w, i, k, q));
    }

pub scan_token-Emits :
    (uc : Unicode)
    → AsciiLaws uc
    → (l : Lexer) → l.pos < length l.src
    → Sound l
    → Returns (Emits l) (scan_token uc l)
scan_token-Emits uc laws l h s =
    Returns-map (scan_token-Scanned uc laws l h) (λ _ c. Scanned-Emits l h s c)
