-- ===== src/Lexer/Scanned.antt =====
-- What a scanner of `scanToken` gives: a token that covers the bytes which it reads.
pub mod Operators
pub mod Whole
pub mod Reads
pub mod Literals
use pipetest.Base.Text.{Text}
use pipetest.Base.Outcome.{
  Outcome, ok, ◌>>=◌, Returns, returns, Returns-bind, Returns-map, if-Returns,
}
use pipetest.Base.Utf8.{Unicode, AsciiLaws}
use pipetest.Base.Assoc.{lookup, lookup-In}
use pipetest.Base.{
  ◌≡◌, refl, sym, ◌∙◌, ap, ℕ, zero, suc, ◌-◌, ◌<◌, Bool, true, false, not, Option, length,
  if◌then◌else◌, ltb, ◌==◌, ◌||◌, ◌&&◌, arith, inl, inr, All, all-All, All-In, Option-cases,
}
use pipetest.Lexer.Moves.{
  Moves, Moves-trans, Moves-weaken, Moves-refl, Moves-as, if-Moves, add_error-Moves, advance-Moves,
  peek-inside_of, less, advance-Moves_one, advance_n-Moves, advance_while-Moves,
  advance_while-Moves_one,
}
use pipetest.Lexer.Scan.Kinds.{keyword_kinds, keyword_kind, or_ident}
use pipetest.Lexer.Scan.{
  after_token, token, scan_raw, quoted_char, scan_quoted, scan_string, duration_unit,
  scan_duration_unit, scan_digits, scan_fraction, scan_number_or_duration, scan_bare_key,
  scan_ident_or_keyword, scan_path, scan_unknown, is_ident_start, is_ident_char, is_bare_key_char,
  is_path_char,
}
use pipetest.Lexer.State.{
  peek_next, Lexer, left, remaining, position, slice, since, peek, add_error, advance, advance_n,
  advance_while,
}
use pipetest.Lexer.Token.{
  tok_eof, tok_nl, tok_indent, tok_dedent, tok_bare_key, tok_string, tok_number, tok_duration,
  tok_path, Kind, LexPosition, Token,
}

-- A kind of a token that stands in the source: neither of the layout nor the end.
unfoldable pub is_code : Kind → Bool
is_code tok_eof = false
is_code tok_nl = false
is_code tok_indent = false
is_code tok_dedent = false
is_code _ = true

-- The token that a scanner gives at `l` begins there, ends where the scanner leaves off, and has
-- the bytes between the two as its literal; it is not empty.
pub record Scanned (l : Lexer) (r : Token × Lexer) : Type 0 where
  pub moves : Moves 1 l r.1
  pub begins : r.0.span.start.offset ≡ l.pos
  pub ends : r.0.span.end.offset ≡ r.1.pos
  pub covers : r.0.lit ≡ slice l.src l.pos r.1.pos
  pub code : is_code r.0.kind ≡ true

after_token-Moves : (kind : Kind) (l : Lexer) → Moves 0 l (after_token kind l)
unfolding after_token
after_token-Moves kind l = Moves-as _ (Moves-refl l) refl refl refl refl refl

pub token-Scanned :
    (kind : Kind) (lit : Text) (l m : Lexer)
    → is_code kind ≡ true
    → Moves 1 l m
    → lit ≡ slice l.src l.pos m.pos
    → Scanned l (token kind lit (position l) m)
unfolding token after_token
token-Scanned kind lit l m c h e = record {
  moves = Moves-trans h (after_token-Moves kind m);
  begins = refl;
  ends = refl;
  covers = e;
  code = c;
}

-- A token whose literal is the source since its start.
pub since-Scanned :
    (kind : Kind) (l m : Lexer)
    → is_code kind ≡ true
    → Moves 1 l m
    → Scanned l (token kind (since (position l) m) (position l) m)
since-Scanned kind l m c h = token-Scanned kind _ l m c h (ap (λ s. slice s l.pos m.pos) h.same_src)

-- A scanner may start from a state that differs in other fields, and change such fields after.
pub Scanned-as :
    {l : Lexer} {t : Token} {m : Lexer} (k n : Lexer)
    → Moves 0 k l
    → l.pos ≡ k.pos
    → Moves 0 m n
    → n.pos ≡ m.pos
    → Scanned l (t, m)
    → Scanned k (t, n)
Scanned-as k n h p i q s = record {
  moves = Moves-trans (Moves-trans h s.moves) i;
  begins = s.begins ∙ p;
  ends = s.ends ∙ sym q;
  covers = rw (q, sym p, sym h.same_src) s.covers;
  code = s.code;
}

-- A loop goes on after a step that takes a byte.
after_one :
    {l m : Lexer} {o : Outcome Lexer} → Moves 1 l m → Returns (Moves 0 m) o → Returns (Moves 0 l) o
after_one h r = Returns-map r (λ _ n. Moves-weaken 0 (omega arith) (Moves-trans h n))

scan_raw-Moves :
    (start : LexPosition) (k : ℕ) (l : Lexer)
    → left l < k
    → Returns (Moves 0 l) (scan_raw start k l)
unfolding scan_raw
scan_raw-Moves start zero l h = absurd (omega (arith, h))
scan_raw-Moves start (suc k) l h =
    if-Returns (peek l == 0) (λ _. returns (add_error-Moves _ _ _ _ l))
      (λ e.
        if-Returns (peek l == b'`') (λ _. returns (advance-Moves l))
          (λ _.
            let f = peek-inside_of l (λ r. not (r == 0)) refl (ground (arith, e)) in
            let m = advance-Moves_one l f in
            after_one m (scan_raw-Moves start k (advance l) (less f m h))))

pub quoted_char-Moves_one : (l : Lexer) → l.pos < length l.src → Moves 1 l (quoted_char l)
unfolding quoted_char
quoted_char-Moves_one l h =
    if-Moves (peek l == b'\\') (Moves-trans (advance-Moves_one l h) (advance-Moves (advance l)))
      (advance-Moves_one l h)

-- The characters that end a line, or the source, in a quoted string.
abbrev stops : ℕ → Bool
stops r = r == 0 || (r == b'\n' || r == b'\r')

scan_quoted-Moves :
    (start : LexPosition) (k : ℕ) (l : Lexer)
    → left l < k
    → Returns (Moves 0 l) (scan_quoted start k l)
unfolding scan_quoted
scan_quoted-Moves start zero l h = absurd (omega (arith, h))
scan_quoted-Moves start (suc k) l h =
    if-Returns (stops (peek l)) (λ _. returns (add_error-Moves _ _ _ _ l))
      (λ e.
        if-Returns (peek l == b'"' || (peek l == b'\\' && peek (advance l) == 0))
          (λ _. returns (advance-Moves l))
          (λ _.
            let f = peek-inside_of l (λ r. not (stops r)) refl (ground (arith, e)) in
            let m = quoted_char-Moves_one l f in
            after_one m (scan_quoted-Moves start k (quoted_char l) (less f m h))))

-- A scanner gives a token once its loop has taken a byte.
token_after :
    (kind : Kind) (l : Lexer) {o : Outcome Lexer}
    → is_code kind ≡ true
    → Returns (Moves 1 l) o
    → Returns (Scanned l) (o >>= λ end. ok (token kind (since (position l) end) (position l) end))
token_after kind l c h = Returns-bind _ h (λ end h. returns (since-Scanned kind l end c h))

pub scan_string-Scanned : (l : Lexer) → l.pos < length l.src → Returns (Scanned l) (scan_string l)
unfolding scan_string is_code
scan_string-Scanned l h =
    let m = advance-Moves_one l h in
    token_after tok_string l refl (
      Returns-map
        (if-Returns (peek l == b'`')
          (λ _. scan_raw-Moves (position l) (suc (left (advance l))) (advance l) (omega arith))
          (λ _. scan_quoted-Moves (position l) (suc (left (advance l))) (advance l) (omega arith)))
        (λ _ n. Moves-trans m n))

number_kind : (c : Bool) → is_code (if c then tok_duration else tok_number) ≡ true
unfolding is_code
number_kind true = refl
number_kind false = refl

keywords : All (λ (e : Text × Kind). is_code e.1 ≡ true) keyword_kinds
unfolding is_code
keywords = all-All (λ (e : Text × Kind). is_code e.1) keyword_kinds refl

keyword_kind-code : (lit : Text) → is_code (or_ident (keyword_kind lit)) ≡ true
unfolding keyword_kind is_code
keyword_kind-code lit = elim (Option-cases (lookup lit keyword_kinds)) [
  | inl e ↦ rw e refl
  | inr (kind, e) ↦
      rw e
        (All-In (λ (e : Text × Kind). is_code e.1 ≡ true) keywords (lookup-In lit keyword_kinds e))
]

pub scan_unknown-Scanned : (l : Lexer) → l.pos < length l.src → Scanned l (scan_unknown l)
unfolding scan_unknown is_code
scan_unknown-Scanned l h =
    let m = advance-Moves_one l h in
    record {
      moves = Moves-trans m (add_error-Moves _ _ _ _ (advance l));
      begins = refl;
      ends = refl;
      covers = ap (λ s. slice s l.pos (advance l).pos) m.same_src;
      code = refl;
    }

module _ (uc : Unicode) (laws : AsciiLaws uc) where
  no_digit : uc.is_digit 0 ≡ false
  no_digit = laws.digit 0 (omega arith)

  no_letter : uc.is_letter 0 ≡ false
  no_letter = laws.letter 0 (omega arith)

  pub scan_bare_key-Scanned :
      (l : Lexer) → is_bare_key_char uc (peek l) ≡ true → Returns (Scanned l) (scan_bare_key uc l)
  unfolding scan_bare_key is_code
  scan_bare_key-Scanned l e =
      token_after tok_bare_key l refl
        (advance_while-Moves_one (is_bare_key_char uc) (ground (arith, no_digit, no_letter)) l e)

  pub scan_path-Scanned :
      (l : Lexer) → is_path_char uc (peek l) ≡ true → Returns (Scanned l) (scan_path uc l)
  unfolding scan_path is_code
  scan_path-Scanned l e =
      token_after tok_path l refl (advance_while-Moves_one (is_path_char uc) refl l e)

  scan_digits-Moves : (l : Lexer) → Returns (Moves 0 l) (scan_digits uc l)
  unfolding scan_digits
  scan_digits-Moves l = advance_while-Moves uc.is_digit no_digit (suc (left l)) l (omega arith)

  scan_fraction-Moves : (l : Lexer) → Returns (Moves 0 l) (scan_fraction uc l)
  unfolding scan_fraction
  scan_fraction-Moves l =
      if-Returns (peek l == b'.' && uc.is_digit (peek_next l))
        (λ _. Returns-map (scan_digits-Moves (advance l)) (λ _ n. Moves-trans (advance-Moves l) n))
        (λ _. returns (Moves-refl l))

  pub scan_number_or_duration-Scanned :
      (l : Lexer) → uc.is_digit (peek l) ≡ true → Returns (Scanned l) (scan_number_or_duration uc l)
  unfolding scan_number_or_duration scan_duration_unit scan_digits
  scan_number_or_duration-Scanned l e =
      Returns-bind _ (advance_while-Moves_one uc.is_digit no_digit l e) (λ d m.
        Returns-bind _ (scan_fraction-Moves d) (λ f n.
          let k = duration_unit uc (remaining f) in
          returns (
            since-Scanned (if ltb 0 k then tok_duration else tok_number) l _ (number_kind (ltb 0 k))
              (Moves-trans m (Moves-trans n (advance_n-Moves k f))))))

  pub scan_ident_or_keyword-Scanned :
      (l : Lexer)
      → is_ident_start uc (peek l) ≡ true
      → Returns (Scanned l) (scan_ident_or_keyword uc l)
  unfolding scan_ident_or_keyword
  scan_ident_or_keyword-Scanned l e =
      Returns-bind _
        (advance_while-Moves_one (is_ident_char uc) (ground (arith, no_digit, no_letter)) l
          (ground arith))
        (λ end m.
          let lit = since (position l) end in
          returns (since-Scanned (or_ident (keyword_kind lit)) l end (keyword_kind-code lit) m))
