-- ===== src/Lexer/Stream.antt =====
-- The tokens that `Lex` gives.
use pipetest.Base.Outcome.{Outcome, Returns, returns, Returns-map, Returns-bind}
use pipetest.Base.Text.{Text}
use pipetest.Base.Utf8.{Unicode, AsciiLaws}
use pipetest.Base.{
  ◌≡◌, refl, ap, ℕ, zero, suc, ◌+◌, ◌*◌, ◌≤◌, ◌<◌, true, false, List, [], ◌∷◌, length, arith,
}
use pipetest.Lexer.Levels.{is_indent, is_dedent, indents, dedents, Levels, bottom, deeper}
use pipetest.Lexer.Scan.Kinds.{is_layout}
use pipetest.Lexer.Next.{collect, lex_tokens, lex}
use pipetest.Lexer.Progress.Emits.{Emits, Covers, ending, layout, source}
use pipetest.Lexer.Progress.Loop.{next-Gives}
use pipetest.Lexer.Progress.{weight, Sound}
use pipetest.Lexer.Scanned.{is_code}
use pipetest.Lexer.State.{Lexer, LexError, new_lexer}
use pipetest.Lexer.Token.{Kind, kind_eq, kind_id, tok_eof, tok_nl, tok_indent, tok_dedent, Token}

-- Tokens that end with the one EOF. Each other is of the layout, or covers bytes of the source, after
-- those that the tokens before it cover.
pub data Ordered (src : Text) : ℕ → List Token → Type 0 where
  last : {low : ℕ} {t : Token} → t.kind ≡ tok_eof → Ordered src low (t ∷ [])
  line :
      {low : ℕ} {t : Token} {ts : List Token}
      → is_layout t.kind ≡ true
      → Ordered src low ts
      → Ordered src low (t ∷ ts)
  bytes :
      {low high : ℕ} {t : Token} {ts : List Token}
      → Covers src low high t
      → Ordered src high ts
      → Ordered src low (t ∷ ts)

record Stream (l : Lexer) (r : List Token × List LexError) : Type 0 where
  ordered : Ordered l.src l.pos r.0
  balanced :
      indents r.0 + dedents l.queue + length l.indent_stack ≡ dedents r.0 + indents l.queue + 1

Levels-length : {stack : List ℕ} → Levels stack → 1 ≤ length stack
Levels-length bottom = omega arith
Levels-length (deeper lt rest) = omega arith

layout_not_eof : (k : Kind) → is_layout k ≡ true → kind_eq k tok_eof ≡ false
unfolding is_layout kind_id
layout_not_eof tok_nl e = refl
layout_not_eof tok_indent e = refl
layout_not_eof tok_dedent e = refl
layout_not_eof _ e = absurd (cc)

code_not_eof : (k : Kind) → is_code k ≡ true → kind_eq k tok_eof ≡ false
unfolding is_code kind_id
code_not_eof tok_eof e = absurd (cc)
code_not_eof _ e = refl

Ordered-low :
    {src : Text} {low high : ℕ} {ts : List Token}
    → low ≤ high
    → Ordered src high ts
    → Ordered src low ts
Ordered-low h (last e) = last e
Ordered-low h (line e o) = line e (Ordered-low h o)
Ordered-low h (bytes c o) =
    bytes
      (record {
        code = c.code;
        begins = omega (arith, h, c.begins);
        not_empty = c.not_empty;
        ends = c.ends;
        in_source = c.in_source;
        covers = c.covers;
      })
      o

collect-more :
    (again : Lexer → Outcome (List Token × List LexError)) (l : Lexer) (t : Token) (m : Lexer)
    → Emits l (t, m)
    → Returns (Stream m) (again m)
    → kind_eq t.kind tok_eof ≡ false
    → ((ts : List Token) → Ordered l.src m.pos ts → Ordered l.src l.pos (t ∷ ts))
    → Returns (Stream l) (collect again t m)
unfolding collect indents dedents
collect-more again l t m e g f o =
    rw (f, collect)
      (Returns-bind _ g (λ rest r. returns (record {
        ordered = o _ (rw e.same_src at r.ordered);
        balanced = omega (arith, e.balanced, r.balanced);
      })))

collect-last :
    (again : Lexer → Outcome (List Token × List LexError)) (l : Lexer) (t : Token) (m : Lexer)
    → Emits l (t, m)
    → t.kind ≡ tok_eof
    → m.queue ≡ []
    → length m.indent_stack ≤ 1
    → Returns (Stream l) (collect again t m)
unfolding collect indents dedents is_indent is_dedent kind_id
collect-last again l t m e q n o =
    let f : kind_eq t.kind tok_eof ≡ true = ap (λ k. kind_eq k tok_eof) q in
    let a : is_indent t.kind ≡ false = ap is_indent q in
    let d : is_dedent t.kind ≡ false = ap is_dedent q in
    let b = rw (a, d, n) at e.balanced in
    rw (f, collect)
      (returns (record {
        ordered = last q;
        balanced = rw (a, d) (omega (arith, b, o, Levels-length e.sound.levels));
      }))

new_weight : (path src : Text) → weight (new_lexer path src) < 2 * length src + 2
unfolding new_lexer
new_weight path src = omega arith

pub new_lexer-Sound : (path src : Text) → Sound (new_lexer path src)
unfolding new_lexer
new_lexer-Sound path src = record {
  in_range = omega arith;
  levels = bottom;
  queued = tt;
  finished = λ e. absurd (cc);
}

module _ (uc : Unicode) (laws : AsciiLaws uc) where
  lex_tokens-Stream :
      (k : ℕ) (l : Lexer) → Sound l → weight l < k → Returns (Stream l) (lex_tokens uc k l)
  unfolding lex_tokens
  lex_tokens-Stream zero l s h = absurd (omega (arith, h))
  lex_tokens-Stream (suc k) l s h = Returns-bind _ (next-Gives uc laws l s) (λ r e. elim e.shape [
    | ending q n o ↦ collect-last (lex_tokens uc k) l r.0 r.1 e q n o
    | layout q w ↦
        collect-more (lex_tokens uc k) l r.0 r.1 e
          (lex_tokens-Stream k r.1 e.sound (omega (arith, h, w))) (layout_not_eof r.0.kind q)
          (λ _ o. line q (Ordered-low e.forward o))
    | source c w ↦
        collect-more (lex_tokens uc k) l r.0 r.1 e
          (lex_tokens-Stream k r.1 e.sound (omega (arith, h, w))) (code_not_eof r.0.kind c.code)
          (λ _ o. bytes c o)
  ])

  lex-Stream : (path src : Text) → Returns (Stream (new_lexer path src)) (lex uc path src)
  unfolding lex
  lex-Stream path src =
      lex_tokens-Stream (2 * length src + 2) (new_lexer path src) (new_lexer-Sound path src)
        (new_weight path src)

  -- Where unicode's classes are right on ASCII, Lex gives as many DEDENT tokens as INDENT tokens,
  -- on every source.
  pub lex-balanced : (path src : Text) → Returns (λ r. indents r.0 ≡ dedents r.0) (lex uc path src)
  unfolding new_lexer indents dedents
  lex-balanced path src = Returns-map (lex-Stream path src) (λ r s. omega (arith, s.balanced))
