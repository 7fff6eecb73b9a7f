-- ===== src/Lexer/Scanned/Reads.antt =====
-- What the loops of the scanners read of ASCII text.
use pipetest.Base.Outcome.{Returns, returns, Returns-map, if-Returns}
use pipetest.Base.Text.{Text}
use pipetest.Base.Utf8.{Rune, decode_rune, decode_rune-ascii}
use pipetest.Base.{
  ◌≡◌, refl, ◌∙◌, ap, ℕ, zero, suc, ◌+◌, ◌-◌, ◌<◌, Bool, true, false, [], ◌∷◌, ◌++◌, length,
  length-append, length-drop, take-append, all, ltb, ◌&&◌, arith,
}
use pipetest.Lexer.Moves.{advance-Moves_one, peek-inside, peek-end}
use pipetest.Lexer.Scan.{token, after_token, rune_at}
use pipetest.Lexer.Scanned.Operators.{remaining-inside, advance-ascii, drop-next}
use pipetest.Lexer.State.{Lexer, remaining, position, since, peek, advance, advance_while}
use pipetest.Lexer.Token.{Kind, Token}

-- From `l` to `m` the bytes `bs` of the source are read, and `rest` is left.
pub record Reads (bs rest : Text) (l m : Lexer) : Type 0 where
  pub same_src : m.src ≡ l.src
  pub pos_is : m.pos ≡ l.pos + length bs
  pub rest_is : remaining m ≡ rest

-- The token has this kind and literal, begins at `l`, and is followed by the rest of the source.
pub record Lexes (kind : Kind) (lit rest : Text) (l : Lexer) (r : Token × Lexer) : Type 0 where
  pub kind_is : r.0.kind ≡ kind
  pub lit_is : r.0.lit ≡ lit
  pub begins : r.0.span.start.offset ≡ l.pos
  pub rest_is : remaining r.1 ≡ rest

pub Reads-trans :
    {xs ys mid rest : Text} {l m n : Lexer}
    → Reads xs mid l m
    → Reads ys rest m n
    → Reads (xs ++ ys) rest l n
Reads-trans {xs} {ys} a b = record {
  same_src = b.same_src ∙ a.same_src;
  pos_is = omega (arith, a.pos_is, b.pos_is, length-append {0} xs ys);
  rest_is = b.rest_is;
}

pub advance-Reads :
    (l : Lexer) (b : ℕ) (bs : Text)
    → remaining l ≡ b ∷ bs
    → b < 128
    → Reads (b ∷ []) bs l (advance l)
advance-Reads l b bs e h =
    let m = advance-Moves_one l (remaining-inside l e) in
    let p = advance-ascii l b bs e h in
    let n : l.pos + 1 ≡ suc l.pos = omega arith in
    record {
      same_src = m.same_src;
      pos_is = p;
      rest_is = rw (m.same_src, p, n) (drop-next l.pos l.src e);
    }

pub peek-rest : (l : Lexer) (bs : Text) → remaining l ≡ bs → peek l ≡ rune_at bs
peek-rest l [] e =
    peek-end l (omega (arith, length-drop {0} l.pos l.src, ap (λ xs. length {0} xs) e))
peek-rest l (b ∷ bs) e = peek-inside l (remaining-inside l e) ∙ ap (λ xs. (decode_rune xs).rune) e

pub peek-ascii : (l : Lexer) (b : ℕ) (bs : Text) → remaining l ≡ b ∷ bs → b < 128 → peek l ≡ b
peek-ascii l b bs e h =
    peek-rest l (b ∷ bs) e ∙ ap (λ (r : Rune). r.rune) (decode_rune-ascii b bs h)

-- A loop reads the longest run of ASCII characters that pass its test.
pub advance_while-Reads :
    (p : ℕ → Bool) (rest : Text)
    → p (rune_at rest) ≡ false
    → (bs : Text) (k : ℕ) (l : Lexer) → all (λ b. ltb b 128 && p b) bs ≡ true
    → remaining l ≡ bs ++ rest
    → length bs < k
    → Returns (Reads bs rest l) (advance_while p k l)
unfolding advance_while
advance_while-Reads p rest s bs zero l h e lt = absurd (omega (arith, lt))
advance_while-Reads p rest s [] (suc k) l h e lt =
    let f : p (peek l) ≡ false = ap p (peek-rest l rest e) ∙ s in
    if-Returns (p (peek l)) (λ t. absurd (cc))
      (λ _. returns (record { same_src = refl; pos_is = omega arith; rest_is = e }))
advance_while-Reads p rest s (b ∷ bs) (suc k) l h e lt =
    let small : b < 128 = ground (arith, h) in
    let t : p (peek l) ≡ true = ap p (peek-ascii l b (bs ++ rest) e small) ∙ ground (arith, h) in
    let r = advance-Reads l b (bs ++ rest) e small in
    if-Returns (p (peek l))
      (λ _.
        Returns-map
          (advance_while-Reads p rest s bs k (advance l) (ground (arith, h)) r.rest_is
            (omega (arith, lt)))
          (λ _ q. Reads-trans r q))
      (λ f. absurd (cc))

pub since-Reads :
    (bs rest : Text) {l m : Lexer}
    → remaining l ≡ bs ++ rest
    → Reads bs rest l m
    → since (position l) m ≡ bs
since-Reads bs rest {l} {m} e r =
    let n : m.pos - l.pos ≡ length bs = omega (arith, r.pos_is) in
    rw (r.same_src, n, e) (take-append bs rest)

-- The token of what is read.
pub token-Lexes :
    (kind : Kind) (bs rest : Text) {l m : Lexer}
    → remaining l ≡ bs ++ rest
    → Reads bs rest l m
    → Lexes kind bs rest l (token kind (since (position l) m) (position l) m)
unfolding token after_token
token-Lexes kind bs rest e r = record {
  kind_is = refl;
  lit_is = since-Reads bs rest e r;
  begins = refl;
  rest_is = r.rest_is;
}
