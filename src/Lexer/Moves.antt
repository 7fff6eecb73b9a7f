-- ===== src/Lexer/Moves.antt =====
-- How far a step of the lexer goes: it reads on in the source and leaves the layout alone.
use pipetest.Base.Outcome.{Returns, returns, Returns-map, if-Returns}
use pipetest.Base.Text.{Text, has_prefix}
use pipetest.Base.Utf8.{Rune, decode_rune, decode_rune-Fits}
use pipetest.Base.{
  ◌≡◌, refl, ◌∙◌, ap, ℕ, zero, suc, ◌+◌, ◌≤◌, ◌<◌, Bool, true, false, [], ◌∷◌, length, length-drop,
  if◌then◌else◌, leb, ◌==◌, ◌||◌, ◌⊎◌, arith, Bool-cases, inl, inr,
}
use pipetest.Lexer.State.{
  Lexer, at_end, left, remaining, peek, add_error, advance, advance_rune, advance_n, advance_while,
  consume_newline, newline_size,
}
use pipetest.Lexer.Token.{LexSpan}

-- `l'` has read at least `n` bytes more of the same source, and has the same levels of indentation
-- and the same queue.
pub record Moves (n : ℕ) (l l' : Lexer) : Type 0 where
  pub same_src : l'.src ≡ l.src
  pub forward : l.pos + n ≤ l'.pos
  pub in_range : l.pos ≤ length l.src → l'.pos ≤ length l'.src
  pub same_stack : l'.indent_stack ≡ l.indent_stack
  pub same_queue : l'.queue ≡ l.queue
  pub same_eof : l'.eof_processed ≡ l.eof_processed

pub Moves-trans : {m n : ℕ} {a b c : Lexer} → Moves m a b → Moves n b c → Moves (m + n) a c
Moves-trans h k = record {
  same_src = k.same_src ∙ h.same_src;
  forward = omega (arith, h.forward, k.forward);
  in_range = λ r. k.in_range (h.in_range r);
  same_stack = k.same_stack ∙ h.same_stack;
  same_queue = k.same_queue ∙ h.same_queue;
  same_eof = k.same_eof ∙ h.same_eof;
}

pub Moves-weaken : {n : ℕ} (m : ℕ) {a b : Lexer} → m ≤ n → Moves n a b → Moves m a b
Moves-weaken m le h = record {
  same_src = h.same_src;
  forward = omega (arith, h.forward, le);
  in_range = h.in_range;
  same_stack = h.same_stack;
  same_queue = h.same_queue;
  same_eof = h.same_eof;
}

pub Moves-refl : (l : Lexer) → Moves 0 l l
Moves-refl l = record {
  same_src = refl;
  forward = omega arith;
  in_range = λ r. r;
  same_stack = refl;
  same_queue = refl;
  same_eof = refl;
}

-- The other fields are free.
pub Moves-as :
    {n : ℕ} {a b : Lexer} (c : Lexer)
    → Moves n a b
    → c.src ≡ b.src
    → c.pos ≡ b.pos
    → c.indent_stack ≡ b.indent_stack
    → c.queue ≡ b.queue
    → c.eof_processed ≡ b.eof_processed
    → Moves n a c
Moves-as c h src pos stack queue eof = record {
  same_src = src ∙ h.same_src;
  forward = omega (arith, h.forward, pos);
  in_range = λ r. omega (arith, h.in_range r, pos, ap (λ s. length {0} s) src);
  same_stack = stack ∙ h.same_stack;
  same_queue = queue ∙ h.same_queue;
  same_eof = eof ∙ h.same_eof;
}

pub if-Moves :
    {n : ℕ} {l : Lexer} (c : Bool) {a b : Lexer}
    → Moves n l a
    → Moves n l b
    → Moves n l (if c then a else b)
if-Moves true h k = h
if-Moves false h k = k

pub add_error-Moves :
    (code message hint : Text) (span : LexSpan) (l : Lexer)
    → Moves 0 l (add_error code message hint span l)
unfolding add_error
add_error-Moves code message hint span l = Moves-as _ (Moves-refl l) refl refl refl refl refl

fits_left :
    (l : Lexer) (bs : Text)
    → remaining l ≡ bs
    → l.pos < length l.src
    → (1 ≤ (decode_rune bs).size) × (l.pos + (decode_rune bs).size ≤ length l.src)
fits_left l [] e h =
    absurd (omega (arith, length-drop {0} l.pos l.src, ap (λ xs. length {0} xs) e, h))
fits_left l (b ∷ bs) e h = (
  (decode_rune-Fits b bs).not_zero,
  omega (
    arith,
    (decode_rune-Fits b bs).in_text,
    length-drop {0} l.pos l.src,
    ap (λ xs. length {0} xs) e,
    h,
  ),
)

advance_rune-Moves :
    (r : Rune) (l : Lexer)
    → 1 ≤ r.size
    → l.pos + r.size ≤ length l.src
    → Moves 1 l (advance_rune r l)
unfolding advance_rune
advance_rune-Moves r l h k =
    if-Moves (r.rune == b'\n' || r.rune == b'\r')
      (record {
        same_src = refl;
        forward = omega (arith, h);
        in_range = λ _. k;
        same_stack = refl;
        same_queue = refl;
        same_eof = refl;
      })
      (record {
        same_src = refl;
        forward = omega (arith, h);
        in_range = λ _. k;
        same_stack = refl;
        same_queue = refl;
        same_eof = refl;
      })

pub advance-Moves_one : (l : Lexer) → l.pos < length l.src → Moves 1 l (advance l)
unfolding advance
advance-Moves_one l h =
    let f = fits_left l (remaining l) refl h in
    let e : leb (length l.src) l.pos ≡ false = ground arith in
    rw e (advance_rune-Moves (decode_rune (remaining l)) l f.0 f.1)

pub advance-Moves : (l : Lexer) → Moves 0 l (advance l)
unfolding advance
advance-Moves l = elim (Bool-cases (at_end l)) [
  | inl e ↦ rw e (Moves-refl l)
  | inr e ↦ Moves-weaken 0 (omega arith) (advance-Moves_one l (ground arith))
]

pub advance_n-Moves : (n : ℕ) (l : Lexer) → Moves 0 l (advance_n n l)
unfolding advance_n
advance_n-Moves zero l = Moves-refl l
advance_n-Moves (suc n) l = Moves-trans (advance-Moves l) (advance_n-Moves n (advance l))

pub peek-inside : (l : Lexer) → l.pos < length l.src → peek l ≡ (decode_rune (remaining l)).rune
unfolding peek
peek-inside l h = let e : leb (length l.src) l.pos ≡ false = ground arith in rw e refl

-- The character zero stands for the end of the source.
pub peek-end : (l : Lexer) → length l.src ≤ l.pos → peek l ≡ 0
unfolding peek
peek-end l h = let e : leb (length l.src) l.pos ≡ true = ground arith in rw e refl

pub inside_or_end : (l : Lexer) → (l.pos < length l.src) ⊎ (length l.src ≤ l.pos)
inside_or_end l = ground arith

-- A character that is not zero stands before the end.
pub peek-inside_of :
    (l : Lexer) (p : ℕ → Bool) → p 0 ≡ false → p (peek l) ≡ true → l.pos < length l.src
peek-inside_of l p z e = elim (inside_or_end l) [
  | inl h ↦ h
  | inr h ↦ absurd (ground (arith, z, e, ap p (peek-end l h)))
]

-- A step that takes a byte takes one that was left.
pub less : {l m : Lexer} {k : ℕ} → l.pos < length l.src → Moves 1 l m → left l < suc k → left m < k
less h m le = omega (arith, h, m.forward, le, ap (λ s. length {0} s) m.same_src)

-- A loop on a test that fails at the end of the source.
module _ (p : ℕ → Bool) (z : p 0 ≡ false) where
  pub advance_while-Moves :
      (k : ℕ) (l : Lexer) → left l < k → Returns (Moves 0 l) (advance_while p k l)
  unfolding advance_while
  advance_while-Moves zero l h = absurd (omega (arith, h))
  advance_while-Moves (suc k) l h =
      if-Returns (p (peek l))
        (λ e.
          let f = peek-inside_of l p z e in
          let m = advance-Moves_one l f in
          Returns-map (advance_while-Moves k (advance l) (less f m h))
            (λ _ n. Moves-weaken 0 (omega arith) (Moves-trans m n)))
        (λ _. returns (Moves-refl l))

  -- Where the test holds, the loop takes a byte.
  pub advance_while-Moves_one :
      (l : Lexer) → p (peek l) ≡ true → Returns (Moves 1 l) (advance_while p (suc (left l)) l)
  unfolding advance_while
  advance_while-Moves_one l e =
      let f = peek-inside_of l p z e in
      let m = advance-Moves_one l f in
      rw e (
        Returns-map (advance_while-Moves (left l) (advance l) (less f m (omega arith)))
          (λ _ n. Moves-trans m n))

-- The lexer stands at a line break.
unfoldable pub AtNewline : Lexer → Type 0
AtNewline l = (peek l == b'\n' || peek l == b'\r') ≡ true

length-has_prefix : (a b : ℕ) (bs : Text) → has_prefix (a ∷ b ∷ []) bs ≡ true → 2 ≤ length bs
unfolding has_prefix
length-has_prefix a b [] e = absurd (cc)
length-has_prefix a b (c ∷ []) e = ground arith
length-has_prefix a b (c ∷ d ∷ ds) e = omega arith

swap_breaks :
    (r s : ℕ) → r ≡ s → (r == b'\n' || r == b'\r') ≡ true → (s == b'\r' || s == b'\n') ≡ true
swap_breaks r s e h = ground arith

newline_size-bounds :
    (l : Lexer)
    → l.pos < length l.src
    → AtNewline l
    → (1 ≤ newline_size l) × (l.pos + newline_size l ≤ length l.src)
unfolding newline_size AtNewline
newline_size-bounds l h n =
    let f = fits_left l (remaining l) refl h in
    elim (Bool-cases (has_prefix (b'\r' ∷ b'\n' ∷ []) (remaining l))) [
      | inl t ↦ rw t (
        omega arith,
        omega
            (arith, length-has_prefix b'\r' b'\n' (remaining l) t, length-drop {0} l.pos l.src, h),
      )
      | inr t ↦ rw (t, swap_breaks (peek l) (decode_rune (remaining l)).rune (peek-inside l h) n) f
    ]

pub consume_newline-Moves :
    (l : Lexer) → l.pos < length l.src → AtNewline l → Moves 1 l (consume_newline l)
unfolding consume_newline
consume_newline-Moves l h n =
    let b = newline_size-bounds l h n in
    let e : leb (length l.src) l.pos ≡ false = ground arith in
    rw e (record {
      same_src = refl;
      forward = omega (arith, b.0);
      in_range = λ _. b.1;
      same_stack = refl;
      same_queue = refl;
      same_eof = refl;
    })
