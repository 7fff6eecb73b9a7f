-- ===== src/Lexer/Scanned/Literals.antt =====
-- `scanIdentOrKeyword` on a word, and `scanString` on the text of a string.
use pipetest.Base.Outcome.{Returns, returns, Returns-map, Returns-bind, if-Returns}
use pipetest.Base.Text.{Text}
use pipetest.Base.Utf8.{Unicode}
use pipetest.Base.{
  ◌≡◌, refl, ◌∙◌, ap, ℕ, zero, suc, ◌<◌, Bool, true, false, not, [], ◌∷◌, ◌++◌, length,
  length-append, length-drop, all, ltb, ◌==◌, ◌||◌, ◌&&◌, arith,
}
use pipetest.Lexer.Scan.Kinds.{keyword_kind, or_ident}
use pipetest.Lexer.Scan.{
  scan_raw, scan_quoted, quoted_char, scan_string, scan_ident_or_keyword, is_ident_char, rune_at,
}
use pipetest.Lexer.Scanned.Reads.{
  Reads, Lexes, Reads-trans, advance-Reads, peek-ascii, advance_while-Reads, token-Lexes,
  since-Reads,
}
use pipetest.Lexer.State.{Lexer, left, remaining, position, since, peek, advance}
use pipetest.Lexer.Token.{tok_string}

length-remaining :
    (l : Lexer) (bs rest : Text) → remaining l ≡ bs ++ rest → length bs < suc (left l)
length-remaining l bs rest e =
    omega
      (arith, length-drop {0} l.pos l.src, ap (λ xs. length {0} xs) e, length-append {0} bs rest)

-- A character that a raw string holds as it is.
abbrev pub is_raw_byte : ℕ → Bool
is_raw_byte b = ltb b 128 && not (b == 0 || b == b'`')

-- One that a quoted string holds as it is: no line break, quote or backslash.
abbrev pub is_plain_byte : ℕ → Bool
is_plain_byte b =
    ltb b 128 && not (b == 0 || (b == b'\n' || (b == b'\r' || (b == b'"' || b == b'\\'))))

-- What stands between the quotes: such characters, and any others behind a backslash.
pub data QuotedBody : Text → Type 0 where
  body_end : QuotedBody []
  plain : {b : ℕ} {bs : Text} → is_plain_byte b ≡ true → QuotedBody bs → QuotedBody (b ∷ bs)
  escaped :
      {b : ℕ} {bs : Text}
      → (ltb 0 b && ltb b 128) ≡ true
      → QuotedBody bs
      → QuotedBody (b'\\' ∷ b ∷ bs)

-- The text of a string, ASCII only, with its quotes or backticks.
pub data IsString : Text → Type 0 where
  raw : (body : Text) → all is_raw_byte body ≡ true → IsString (b'`' ∷ (body ++ b'`' ∷ []))
  quoted : (body : Text) → QuotedBody body → IsString (b'"' ∷ (body ++ b'"' ∷ []))

scan_raw-Reads :
    (rest body : Text) (k : ℕ) (l : Lexer)
    → all is_raw_byte body ≡ true
    → remaining l ≡ (body ++ b'`' ∷ []) ++ rest
    → length body < k
    → (start : _) → Returns (Reads (body ++ b'`' ∷ []) rest l) (scan_raw start k l)
unfolding scan_raw
scan_raw-Reads rest body zero l h e lt start = absurd (omega (arith, lt))
scan_raw-Reads rest [] (suc k) l h e lt start =
    let p = peek-ascii l b'`' rest e (omega arith) in
    if-Returns (peek l == 0) (λ z. absurd (ground (arith, z, p)))
      (λ _.
        if-Returns (peek l == b'`') (λ _. returns (advance-Reads l b'`' rest e (omega arith)))
          (λ z. absurd (ground (arith, z, p))))
scan_raw-Reads rest (b ∷ bs) (suc k) l h e lt start =
    let small : b < 128 = ground (arith, h) in
    let p = peek-ascii l b _ e small in
    let r = advance-Reads l b _ e small in
    if-Returns (peek l == 0) (λ z. absurd (ground (arith, z, p, h)))
      (λ _.
        if-Returns (peek l == b'`') (λ z. absurd (ground (arith, z, p, h)))
          (λ _.
            Returns-map
              (scan_raw-Reads rest bs k (advance l) (ground (arith, h)) r.rest_is
                (omega (arith, lt)) start)
              (λ _ q. Reads-trans r q)))

scan_quoted-Reads :
    (rest : Text) {body : Text}
    → QuotedBody body
    → (k : ℕ) (l : Lexer) → remaining l ≡ (body ++ b'"' ∷ []) ++ rest
    → length body < k
    → (start : _) → Returns (Reads (body ++ b'"' ∷ []) rest l) (scan_quoted start k l)
unfolding scan_quoted quoted_char
scan_quoted-Reads rest q zero l e lt start = absurd (omega (arith, lt))
scan_quoted-Reads rest body_end (suc k) l e lt start =
    let p = peek-ascii l b'"' rest e (omega arith) in
    if-Returns (peek l == 0 || (peek l == b'\n' || peek l == b'\r'))
      (λ z. absurd (ground (arith, z, p)))
      (λ _.
        if-Returns (peek l == b'"' || (peek l == b'\\' && peek (advance l) == 0))
          (λ _. returns (advance-Reads l b'"' rest e (omega arith)))
          (λ z. absurd (ground (arith, z, p))))
scan_quoted-Reads rest (plain {b} {bs} h q) (suc k) l e lt start =
    let small : b < 128 = ground (arith, h) in
    let p = peek-ascii l b _ e small in
    let r = advance-Reads l b _ e small in
    let n : (peek l == b'\\') ≡ false = ground (arith, p, h) in
    let c : quoted_char l ≡ advance l = rw n refl in
    if-Returns (peek l == 0 || (peek l == b'\n' || peek l == b'\r'))
      (λ z. absurd (ground (arith, z, p, h)))
      (λ _.
        if-Returns (peek l == b'"' || (peek l == b'\\' && peek (advance l) == 0))
          (λ z. absurd (ground (arith, z, p, h)))
          (λ _. rw c (
            Returns-map (scan_quoted-Reads rest q k (advance l) r.rest_is (omega (arith, lt)) start)
              (λ _ t. Reads-trans r t))))
scan_quoted-Reads rest (escaped {b} {bs} h q) (suc k) l e lt start =
    let small : b < 128 = ground (arith, h) in
    let p = peek-ascii l b'\\' _ e (omega arith) in
    let r = advance-Reads l b'\\' _ e (omega arith) in
    let p2 = peek-ascii (advance l) b _ r.rest_is small in
    let r2 = advance-Reads (advance l) b _ r.rest_is small in
    let n : (peek l == b'\\') ≡ true = ground (arith, p) in
    let c : quoted_char l ≡ advance (advance l) = rw n refl in
    if-Returns (peek l == 0 || (peek l == b'\n' || peek l == b'\r'))
      (λ z. absurd (ground (arith, z, p)))
      (λ _.
        if-Returns (peek l == b'"' || (peek l == b'\\' && peek (advance l) == 0))
          (λ z. absurd (ground (arith, z, p, p2, h)))
          (λ _. rw c (
            Returns-map
              (scan_quoted-Reads rest q k (advance (advance l)) r2.rest_is (omega (arith, lt))
                start)
              (λ _ t. Reads-trans r (Reads-trans r2 t)))))

-- Where the source goes on with the ASCII text of a string, a raw one without a backtick and the
-- character zero inside, or a quoted one that holds no line break, quote, backslash or zero but
-- behind a backslash, and no zero there, scanString ends and gives a token that begins at the
-- lexer and has the whole text as its literal; what follows the string is left.
pub scan_string-Lexes :
    (lit rest : Text) (l : Lexer)
    → IsString lit
    → remaining l ≡ lit ++ rest
    → Returns (Lexes tok_string lit rest l) (scan_string l)
unfolding scan_string
scan_string-Lexes lit rest l (raw body h) e =
    let p = peek-ascii l b'`' _ e (omega arith) in
    let r = advance-Reads l b'`' _ e (omega arith) in
    let lt = length-remaining (advance l) (body ++ b'`' ∷ []) rest r.rest_is in
    Returns-bind _
      (if-Returns (peek l == b'`')
        (λ _.
          Returns-map
            (scan_raw-Reads rest body (suc (left (advance l))) (advance l) h r.rest_is
              (omega (arith, lt, length-append {0} body (b'`' ∷ []))) (position l))
            (λ _ q. Reads-trans r q))
        (λ z. absurd (ground (arith, z, p))))
      (λ m q. returns (token-Lexes tok_string (b'`' ∷ (body ++ b'`' ∷ [])) rest e q))
scan_string-Lexes lit rest l (quoted body h) e =
    let p = peek-ascii l b'"' _ e (omega arith) in
    let r = advance-Reads l b'"' _ e (omega arith) in
    let lt = length-remaining (advance l) (body ++ b'"' ∷ []) rest r.rest_is in
    Returns-bind _
      (if-Returns (peek l == b'`') (λ z. absurd (ground (arith, z, p)))
        (λ _.
          Returns-map
            (scan_quoted-Reads rest h (suc (left (advance l))) (advance l) r.rest_is
              (omega (arith, lt, length-append {0} body (b'"' ∷ []))) (position l))
            (λ _ q. Reads-trans r q)))
      (λ m q. returns (token-Lexes tok_string (b'"' ∷ (body ++ b'"' ∷ [])) rest e q))

-- Where the source goes on with ASCII characters of identifiers, and no such character follows
-- them, scanIdentOrKeyword ends and gives a token that begins at the lexer and has all of them
-- as its literal, and the kind of the keyword that they spell, or else of an identifier; what
-- follows them is left.
pub scan_ident_or_keyword-Lexes :
    (uc : Unicode) (word rest : Text) (l : Lexer)
    → all (λ b. ltb b 128 && is_ident_char uc b) word ≡ true
    → is_ident_char uc (rune_at rest) ≡ false
    → remaining l ≡ word ++ rest
    → Returns (Lexes (or_ident (keyword_kind word)) word rest l) (scan_ident_or_keyword uc l)
unfolding scan_ident_or_keyword
scan_ident_or_keyword-Lexes uc word rest l h s e =
    Returns-bind _
      (advance_while-Reads (is_ident_char uc) rest s word (suc (left l)) l h e
        (length-remaining l word rest e))
      (λ m q.
        let lit = since (position l) m in
        let t = token-Lexes (or_ident (keyword_kind lit)) word rest e q in
        returns (record {
          kind_is = t.kind_is ∙ ap (λ w. or_ident (keyword_kind w)) (since-Reads word rest e q);
          lit_is = t.lit_is;
          begins = t.begins;
          rest_is = t.rest_is;
        }))
