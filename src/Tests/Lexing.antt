-- ===== src/Tests/Lexing.antt =====
-- The lexer on a small source.
use pipetest.Base.Outcome.{Outcome, ok, Returns}
use pipetest.Base.Text.{Text, text}
use pipetest.Base.Utf8.{Unicode, AsciiLaws, decode_rune, within}
use pipetest.Base.{
  ◌≡◌, refl, ℕ, ◌<◌, true, false, List, [], ◌∷◌, map, all, length, ltb, ◌==◌, ◌||◌, ◌&&◌, arith,
}
use pipetest.Lexer.Levels.{indents, dedents}
use pipetest.Lexer.Next.{lex, next}
use pipetest.Lexer.Progress.Emits.{Emits}
use pipetest.Lexer.Progress.Loop.{next-Gives}
use pipetest.Lexer.Scan.Kinds.{keyword_kind, or_ident}
use pipetest.Lexer.Scan.{scan_token, scan_string, scan_ident_or_keyword, is_ident_char, rune_at}
use pipetest.Lexer.Scanned.Literals.{
  IsString, raw, quoted, body_end, plain, escaped, scan_string-Lexes, scan_ident_or_keyword-Lexes,
}
use pipetest.Lexer.Scanned.Reads.{Lexes}
use pipetest.Lexer.Scanned.Whole.{scan_token-Scanned}
use pipetest.Lexer.Scanned.{Scanned}
use pipetest.Lexer.State.{Lexer, LexError, new_lexer}
use pipetest.Lexer.Stream.{lex-balanced, new_lexer-Sound}
use pipetest.Lexer.Token.{Token, kind_id, tok_string}

-- The classes of the ASCII characters.
abbrev ascii : Unicode
ascii = record {
  is_letter = λ r. within b'a' b'z' r || within b'A' b'Z' r;
  is_digit = within b'0' b'9';
  is_space = λ r. r == b' ' || within b'\t' b'\r' r;
}

ascii_laws : AsciiLaws ascii
ascii_laws = record { letter = λ r h. refl; digit = λ r h. refl; space = λ r h. refl }

abbrev file : Text
file = text "shop.pt"

abbrev source : Text
source = text "req login:\n\tGET /x # c\n\theader X-A = \"v\"\n\nflow f:\n\ta -> b"

abbrev start : Lexer
start = new_lexer file source

-- The kinds of the tokens, and the number of errors.
abbrev shown : Outcome (List Token × List LexError) → List ℕ × ℕ
shown (ok r) = (map (λ (t : Token). kind_id t.kind) r.0, length r.1)
shown _ = ([], 0)

lex_kinds : shown (lex ascii file source) ≡ (
  11 ∷ 5 ∷ 42 ∷ 2 ∷ 3 ∷ 31 ∷ 10 ∷ 2 ∷ 18 ∷ 6 ∷ 45 ∷ 7 ∷ 2 ∷ 2 ∷ 4 ∷ 12 ∷ 5 ∷ 42 ∷ 2 ∷ 3 ∷ 5 ∷ 38 ∷ 5
      ∷ 4 ∷ 0 ∷ [],
  0,
)
unfolding lex kind_id text
lex_kinds = refl

-- A raw string over two lines leaves the lexer at the start of a line, so that the rest of its last line
-- opens a level of indentation or, as here, is told that it must not be indented by a space.
lex_after_raw :
    shown (lex ascii file (text "let a = `x\ny` + b")) ≡ (14 ∷ 5 ∷ 45 ∷ 7 ∷ 65 ∷ 5 ∷ 0 ∷ [], 1)
unfolding lex kind_id text
lex_after_raw = refl

lex-balanced_example : Returns (λ r. indents r.0 ≡ dedents r.0) (lex ascii file source)
lex-balanced_example = lex-balanced ascii ascii_laws file source

next-Gives_example : Returns (Emits start) (next ascii start)
next-Gives_example = next-Gives ascii ascii_laws start (new_lexer-Sound file source)

start_inside : start.pos < length start.src
unfolding new_lexer text
start_inside = omega arith

scan_token-Scanned_example : Returns (Scanned start) (scan_token ascii start)
scan_token-Scanned_example = scan_token-Scanned ascii ascii_laws start start_inside

-- A string with an escaped quote, and a raw string, each with more source behind it.
abbrev at_quoted : Lexer
at_quoted = new_lexer file (text "\"a\\\"b\" + c")

abbrev at_raw : Lexer
at_raw = new_lexer file (text "`a\"` + c")

quoted_IsString : IsString (text "\"a\\\"b\"")
unfolding text
quoted_IsString = quoted (text "a\\\"b") (plain refl (escaped refl (plain refl body_end)))

scan_string-Lexes_example :
    Returns (Lexes tok_string (text "\"a\\\"b\"") (text " + c") at_quoted) (scan_string at_quoted)
unfolding new_lexer text
scan_string-Lexes_example =
    scan_string-Lexes (text "\"a\\\"b\"") (text " + c") at_quoted quoted_IsString refl

raw_IsString : IsString (text "`a\"`")
unfolding text
raw_IsString = raw (text "a\"") refl

raw_lexed : Returns (Lexes tok_string (text "`a\"`") (text " + c") at_raw) (scan_string at_raw)
unfolding new_lexer text
raw_lexed = scan_string-Lexes (text "`a\"`") (text " + c") at_raw raw_IsString refl

login_word : all (λ b. ltb b 128 && is_ident_char ascii b) (text "login") ≡ true
unfolding text
login_word = refl

after_login : is_ident_char ascii (rune_at (text ":")) ≡ false
unfolding text decode_rune
after_login = refl

abbrev at_word : Lexer
at_word = new_lexer file (text "login:")

scan_ident_or_keyword-Lexes_example :
    Returns
      (Lexes (or_ident (keyword_kind (text "login"))) (text "login") (text ":") at_word)
      (scan_ident_or_keyword ascii at_word)
unfolding new_lexer text
scan_ident_or_keyword-Lexes_example =
    scan_ident_or_keyword-Lexes ascii (text "login") (text ":") at_word login_word after_login refl
