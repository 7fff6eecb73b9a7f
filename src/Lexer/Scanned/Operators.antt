-- ===== src/Lexer/Scanned/Operators.antt =====
-- The tokens of `scanOperatorOrPunct` cover the bytes that they read.
use pipetest.Base.Text.{Text, has_prefix}
use pipetest.Base.Utf8.{Rune, decode_rune, decode_rune-ascii, decode_rune-one}
use pipetest.Base.{
  ◌≡◌, refl, sym, ◌∙◌, ap, ℕ, zero, suc, ◌+◌, ◌-◌, ◌<◌, Bool, true, false, Option, none, some, List,
  [], ◌∷◌, length, drop, length-drop, leb, ltb, ◌==◌, ◌||◌, ◌&&◌, arith, Bool-cases, inl, inr, all,
}
use pipetest.Lexer.Moves.{
  Moves, Moves-trans, Moves-refl, Moves-as, if-Moves, add_error-Moves, advance-Moves,
  advance-Moves_one, peek-inside,
}
use pipetest.Lexer.Scan.Kinds.{operators, find_prefix, two_char, punct, find_char, one_char}
use pipetest.Lexer.Scan.{token, bracket, one_token, operator_token, scan_operator_or_punct}
use pipetest.Lexer.Scanned.{is_code, Scanned, token-Scanned}
use pipetest.Lexer.State.{
  Lexer, remaining, position, slice, peek, advance, advance_rune, advance_n, add_error,
}
use pipetest.Lexer.Token.{
  tok_lparen, tok_rparen, tok_lbrace, tok_rbrace, tok_lbrack, tok_rbrack, Kind, LexPosition, Token,
}

bracket-Moves : (kind : Kind) (start : LexPosition) (l : Lexer) → Moves 0 l (bracket kind start l)
unfolding bracket
bracket-Moves tok_lparen start l = Moves-as _ (Moves-refl l) refl refl refl refl refl
bracket-Moves tok_lbrack start l = Moves-as _ (Moves-refl l) refl refl refl refl refl
bracket-Moves tok_lbrace start l =
    if-Moves l.pending_hook_brace (Moves-as _ (Moves-refl l) refl refl refl refl refl)
      (Moves-as _ (Moves-refl l) refl refl refl refl refl)
bracket-Moves tok_rparen start l =
    if-Moves (ltb 0 l.paren_depth) (Moves-as _ (Moves-refl l) refl refl refl refl refl)
      (add_error-Moves _ _ _ _ l)
bracket-Moves tok_rbrack start l =
    if-Moves (ltb 0 l.bracket_depth) (Moves-as _ (Moves-refl l) refl refl refl refl refl)
      (add_error-Moves _ _ _ _ l)
bracket-Moves tok_rbrace start l =
    if-Moves (ltb 0 l.brace_expr_depth) (Moves-as _ (Moves-refl l) refl refl refl refl refl) (
      if-Moves (ltb 0 l.hook_depth) (Moves-as _ (Moves-refl l) refl refl refl refl refl)
        (add_error-Moves _ _ _ _ l))
bracket-Moves _ start l = Moves-refl l

bracket-pos : (kind : Kind) (start : LexPosition) (l : Lexer) → (bracket kind start l).pos ≡ l.pos
unfolding bracket add_error
bracket-pos tok_lbrace start l = elim (Bool-cases l.pending_hook_brace) [
  | inl e ↦ rw e refl
  | inr e ↦ rw e refl
]
bracket-pos tok_rparen start l = elim (Bool-cases (ltb 0 l.paren_depth)) [
  | inl e ↦ rw e refl
  | inr e ↦ rw e refl
]
bracket-pos tok_rbrack start l = elim (Bool-cases (ltb 0 l.bracket_depth)) [
  | inl e ↦ rw e refl
  | inr e ↦ rw e refl
]
bracket-pos tok_rbrace start l = elim (Bool-cases (ltb 0 l.brace_expr_depth)) [
  | inl e ↦ rw e refl
  | inr e ↦ elim (Bool-cases (ltb 0 l.hook_depth)) [
    | inl f ↦ rw (e, f) refl
    | inr f ↦ rw (e, f) refl
  ]
]
bracket-pos _ start l = refl

advance_rune-pos : (r : Rune) (l : Lexer) → (advance_rune r l).pos ≡ l.pos + r.size
unfolding advance_rune
advance_rune-pos r l = elim (Bool-cases (r.rune == b'\n' || r.rune == b'\r')) [
  | inl e ↦ rw e refl
  | inr e ↦ rw e refl
]

pub remaining-inside : (l : Lexer) {b : ℕ} {bs : Text} → remaining l ≡ b ∷ bs → l.pos < length l.src
remaining-inside l e = omega (arith, length-drop {0} l.pos l.src, ap (λ xs. length {0} xs) e)

-- An ASCII byte is read on its own.
pub advance-ascii :
    (l : Lexer) (b : ℕ) (bs : Text) → remaining l ≡ b ∷ bs → b < 128 → (advance l).pos ≡ l.pos + 1
unfolding advance
advance-ascii l b bs e h =
    let inside = remaining-inside l e in
    let f : leb (length l.src) l.pos ≡ false = ground arith in
    let d : decode_rune (remaining l) ≡ record { rune = b; size = 1 } =
      rw e (decode_rune-ascii b bs h) in
    rw f (advance_rune-pos (decode_rune (remaining l)) l ∙ ap (λ (r : Rune). l.pos + r.size) d)

pub drop-next : (n : ℕ) (xs : Text) {b : ℕ} {bs : Text} → drop n xs ≡ b ∷ bs → drop (suc n) xs ≡ bs
drop-next zero [] e = absurd (cc)
drop-next zero (x ∷ xs) e = cc
drop-next (suc n) [] e = absurd (cc)
drop-next (suc n) (x ∷ xs) e = drop-next n xs e

slice_one :
    (src : Text) (p q b : ℕ) (bs : Text) → drop p src ≡ b ∷ bs → q ≡ p + 1 → b ∷ [] ≡ slice src p q
slice_one src p q b bs e h = let n : q - p ≡ 1 = omega (arith, h) in rw (n, e) refl

slice_two :
    (src : Text) (p q a b : ℕ) (bs : Text)
    → drop p src ≡ a ∷ b ∷ bs
    → q ≡ p + 2
    → a ∷ b ∷ [] ≡ slice src p q
slice_two src p q a b bs e h = let n : q - p ≡ 2 = omega (arith, h) in rw (n, e) refl

-- The entries of the two tables are ASCII, and of kinds that stand in the source.
abbrev is_char : ℕ × Kind → Bool
is_char e = ltb e.0 128 && is_code e.1

abbrev is_pair : Text × Kind → Bool
is_pair (a ∷ b ∷ [], kind) = (ltb a 128 && ltb b 128) && is_code kind
is_pair _ = false

find_char-found :
    (cs : List (ℕ × Kind)) (r : ℕ) {kind : Kind}
    → all is_char cs ≡ true
    → find_char cs r ≡ some kind
    → (r < 128) × (is_code kind ≡ true)
unfolding find_char
find_char-found [] r h e = absurd (cc)
find_char-found ((c, k) ∷ cs) r h e = elim (Bool-cases (r == c)) [
  | inl t ↦ ground arith
  | inr f ↦ find_char-found cs r (ground arith) (rw f at e)
]

-- The text begins with the two ASCII characters of `lit`.
record Begins (kind : Kind) (lit rest : Text) : Type 0 where
  first : ℕ
  second : ℕ
  others : Text
  lit_is : lit ≡ first ∷ second ∷ []
  rest_is : rest ≡ first ∷ second ∷ others
  first_ascii : first < 128
  second_ascii : second < 128
  code : is_code kind ≡ true

Begins-intro :
    (kind : Kind) (a b : ℕ) (rest : Text)
    → is_pair (a ∷ b ∷ [], kind) ≡ true
    → has_prefix (a ∷ b ∷ []) rest ≡ true
    → Begins kind (a ∷ b ∷ []) rest
unfolding has_prefix
Begins-intro kind a b [] h e = absurd (cc)
Begins-intro kind a b (c ∷ []) h e = ground arith
Begins-intro kind a b (c ∷ d ∷ ds) h e = record {
  first = a;
  second = b;
  others = ds;
  lit_is = refl;
  rest_is = ground arith;
  first_ascii = ground arith;
  second_ascii = ground arith;
  code = ground arith;
}

Begins-entry :
    (e : Text × Kind) (rest : Text)
    → is_pair e ≡ true
    → has_prefix e.0 rest ≡ true
    → Begins e.1 e.0 rest
Begins-entry (a ∷ b ∷ [], kind) rest h e = Begins-intro kind a b rest h e
Begins-entry ([], kind) rest h e = absurd (cc)
Begins-entry (a ∷ [], kind) rest h e = absurd (cc)
Begins-entry (a ∷ b ∷ c ∷ cs, kind) rest h e = absurd (cc)

find_prefix-Begins :
    (ps : List (Text × Kind)) (rest lit : Text) (kind : Kind)
    → all is_pair ps ≡ true
    → find_prefix ps rest ≡ some (kind, lit)
    → Begins kind lit rest
unfolding find_prefix
find_prefix-Begins [] rest lit kind h e = absurd (cc)
find_prefix-Begins ((p, k) ∷ ps) rest lit kind h e = elim (Bool-cases (has_prefix p rest)) [
  | inl t ↦
      let same : Path (Option (Kind × Text)) (some (k, p)) (some (kind, lit)) = rw t at e in
      let k_same : kind ≡ k = cc in
      let p_same : lit ≡ p = cc in rw (k_same, p_same) (Begins-entry (p, k) rest (ground arith) t)
  | inr f ↦ find_prefix-Begins ps rest lit kind (ground arith) (rw f at e)
]

Begins-Scanned :
    (kind : Kind) (lit : Text) (l : Lexer)
    → Begins kind lit (remaining l)
    → Scanned l (token kind lit (position l) (advance_n 2 l))
unfolding advance_n
Begins-Scanned kind lit l h =
    let m = advance-Moves_one l (remaining-inside l h.rest_is) in
    let p = advance-ascii l h.first (h.second ∷ h.others) h.rest_is h.first_ascii in
    let n : l.pos + 1 ≡ suc l.pos = omega arith in
    let r : remaining (advance l) ≡ h.second ∷ h.others =
      rw (m.same_src, p, n) (drop-next l.pos l.src h.rest_is) in
    let q = advance-ascii (advance l) h.second h.others r h.second_ascii in
    token-Scanned kind lit l (advance (advance l)) h.code
      (Moves-trans m (advance-Moves (advance l)))
      (h.lit_is
        ∙ slice_two l.src l.pos (advance (advance l)).pos h.first h.second h.others h.rest_is
            (omega (arith, p, q)))

-- What is scanned, if there is anything.
pub data Result (l : Lexer) : Option (Token × Lexer) → Type 0 where
  nothing : Result l none
  scanned : {r : Token × Lexer} → Scanned l r → Result l (some r)

one_covers :
    (l : Lexer) (bs : Text)
    → remaining l ≡ bs
    → l.pos < length l.src
    → peek l < 128
    → {q : ℕ} → q ≡ (advance l).pos
    → peek l ∷ [] ≡ slice l.src l.pos q
one_covers l [] e h a {q} p =
    absurd (omega (arith, length-drop {0} l.pos l.src, ap (λ xs. length {0} xs) e, h))
one_covers l (b ∷ bs) e h a {q} p =
    let r : peek l ≡ (decode_rune (b ∷ bs)).rune = rw (sym e) (peek-inside l h) in
    let d = decode_rune-one b bs (omega (arith, a, r)) in
    let c : peek l ≡ b = r ∙ ap (λ (r : Rune). r.rune) d in
    let n = advance-ascii l b bs e (omega (arith, a, c)) in
    rw c (slice_one l.src l.pos q b bs e (p ∙ n))

one_token-Result :
    (k : Option Kind) (l : Lexer)
    → l.pos < length l.src
    → one_char (peek l) ≡ k
    → Result l (one_token k l)
unfolding one_char is_code
one_token-Result none l h e = nothing
one_token-Result (some kind) l h e =
    let f = find_char-found punct (peek l) refl e in
    let m = advance-Moves_one l h in
    scanned (
      token-Scanned kind _ l (bracket kind (position l) (advance l)) f.1
        (Moves-trans m (bracket-Moves kind (position l) (advance l)))
        (one_covers l (remaining l) refl h f.0 (bracket-pos kind (position l) (advance l))))

operator_token-Result :
    (k : Option (Kind × Text)) (l : Lexer)
    → l.pos < length l.src
    → two_char (remaining l) ≡ k
    → Result l (operator_token k l)
unfolding two_char is_code
operator_token-Result none l h e = one_token-Result (one_char (peek l)) l h refl
operator_token-Result (some (kind, lit)) l h e =
    scanned (Begins-Scanned kind lit l (find_prefix-Begins operators (remaining l) lit kind refl e))

pub scan_operator_or_punct-Result :
    (l : Lexer) → l.pos < length l.src → Result l (scan_operator_or_punct l)
unfolding scan_operator_or_punct
scan_operator_or_punct-Result l h = operator_token-Result (two_char (remaining l)) l h refl
