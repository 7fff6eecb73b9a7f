-- ===== src/Lexer/Scan.antt =====
-- internal/lexer/lexer.go: `scanToken` and the scanners of one token. `uc` are the character classes
-- of `unicode`. A loop that reads characters has one unit of fuel for each byte that is
-- left, and one more.
pub mod Kinds
use pipetest.Base.Outcome.{Outcome, ok, out_of_fuel, ◌>>=◌}
use pipetest.Base.Text.{Text, text, has_prefix}
use pipetest.Base.Utf8.{Unicode, decode_rune}
use pipetest.Base.{
  ℕ, zero, suc, ◌-◌, Bool, false, not, Option, none, some, [], ◌∷◌, drop, if◌then◌else◌, ltb, ◌==◌,
  ◌||◌, ◌&&◌,
}
use pipetest.Lexer.Scan.Kinds.{
  hook_after, pending_after, is_method, is_key_directive, is_layout, two_char, one_char,
  keyword_kind, or_ident,
}
use pipetest.Lexer.State.{
  Lexer, left, remaining, position, since, span_since, peek, peek_next, add_error, advance,
  advance_n, advance_while, expr_depth,
}
use pipetest.Lexer.Token.{
  tok_illegal, tok_bare_key, tok_string, tok_number, tok_duration, tok_path, tok_colon, tok_lparen,
  tok_rparen, tok_lbrace, tok_rbrace, tok_lbrack, tok_rbrack, Kind, kind_eq, LexPosition, Token,
}

unfoldable pub after_token : Kind → Lexer → Lexer
unfolding hook_after pending_after is_method is_key_directive is_layout
after_token kind l = record l {
  allow_path = is_method kind || l.allow_path;
  allow_bare_key = is_key_directive kind || l.allow_bare_key;
  hook_candidate = hook_after kind l.hook_candidate;
  pending_hook_brace = pending_after kind l.hook_candidate l.pending_hook_brace;
  line_had_colon =
      (kind_eq kind tok_colon && (expr_depth l == 0 && l.hook_depth == 0))
      || (l.line_had_colon && is_layout kind);
}

-- The method `token`, with the state it leaves.
unfoldable pub token : Kind → Text → LexPosition → Lexer → Token × Lexer
unfolding after_token
token kind lit start l =
    (record { kind = kind; lit = lit; span = span_since start l }, after_token kind l)

-- The depth that a bracket changes, after it is read; `start` is where it stands.
unfoldable pub bracket : Kind → LexPosition → Lexer → Lexer
unfolding add_error text
bracket tok_lparen start l = record l { paren_depth = suc l.paren_depth }
bracket tok_rparen start l =
    if ltb 0 l.paren_depth
    then record l { paren_depth = l.paren_depth - 1 }
    else add_error (text "E_PARSE_UNMATCHED_BRACE") (text "unmatched ')'")
        (text "remove the extra parenthesis") (span_since start l) l
bracket tok_lbrack start l = record l { bracket_depth = suc l.bracket_depth }
bracket tok_rbrack start l =
    if ltb 0 l.bracket_depth
    then record l { bracket_depth = l.bracket_depth - 1 }
    else add_error (text "E_PARSE_UNMATCHED_BRACE") (text "unmatched ']'")
        (text "remove the extra bracket") (span_since start l) l
bracket tok_lbrace start l =
    if l.pending_hook_brace
    then record l { hook_depth = suc l.hook_depth; pending_hook_brace = false }
    else record l { brace_expr_depth = suc l.brace_expr_depth }
bracket tok_rbrace start l =
    if ltb 0 l.brace_expr_depth
    then record l { brace_expr_depth = l.brace_expr_depth - 1 }
    else (if ltb 0 l.hook_depth
        then record l { hook_depth = l.hook_depth - 1 }
        else add_error (text "E_PARSE_UNMATCHED_BRACE") (text "unmatched '}'")
            (text "remove the extra brace") (span_since start l) l)
bracket _ start l = l

abbrev pub one_token : Option Kind → Lexer → Option (Token × Lexer)
one_token none l = none
one_token (some kind) l =
    some (token kind (peek l ∷ []) (position l) (bracket kind (position l) (advance l)))

abbrev pub operator_token : Option (Kind × Text) → Lexer → Option (Token × Lexer)
operator_token none l = one_token (one_char (peek l)) l
operator_token (some (kind, lit)) l = some (token kind lit (position l) (advance_n 2 l))

-- The literal of a token of one character is that character.
unfoldable pub scan_operator_or_punct : Lexer → Option (Token × Lexer)
unfolding two_char one_char token bracket peek advance advance_n
scan_operator_or_punct l = operator_token (two_char (remaining l)) l

-- The rest of a raw string that began at `start`.
unfoldable pub scan_raw : LexPosition → ℕ → Lexer → Outcome Lexer
unfolding peek advance add_error text
scan_raw start zero l = out_of_fuel
scan_raw start (suc k) l =
    if peek l == 0
    then ok (
        add_error (text "E_PARSE_UNTERMINATED_RAW_STRING") (text "unterminated raw string")
          (text "close the string with a backtick") (span_since start l) l)
    else (if peek l == b'`' then ok (advance l) else scan_raw start k (advance l))

-- The state after the character at `l`; one after a backslash is read with it.
unfoldable pub quoted_char : Lexer → Lexer
unfolding peek advance
quoted_char l = if peek l == b'\\' then advance (advance l) else advance l

-- The rest of a quoted string that began at `start`. A source that ends after a backslash gives no
-- error.
unfoldable pub scan_quoted : LexPosition → ℕ → Lexer → Outcome Lexer
unfolding peek advance add_error text quoted_char
scan_quoted start zero l = out_of_fuel
scan_quoted start (suc k) l =
    if peek l == 0 || (peek l == b'\n' || peek l == b'\r')
    then ok (
        add_error (text "E_PARSE_UNTERMINATED_STRING") (text "unterminated string literal")
          (text "close the string with '\"'") (span_since start l) l)
    else (if peek l == b'"' || (peek l == b'\\' && peek (advance l) == 0)
        then ok (advance l)
        else scan_quoted start k (quoted_char l))

unfoldable pub scan_string : Lexer → Outcome (Token × Lexer)
unfolding peek advance scan_raw scan_quoted token
scan_string l =
    let start = position l in
    let body = advance l in
    (if peek l == b'`'
      then scan_raw start (suc (left body)) body
      else scan_quoted start (suc (left body)) body)
    >>= λ end. ok (token tok_string (since start end) start end)

-- The character at the start of the text, zero when it is empty.
abbrev pub rune_at : Text → ℕ
rune_at [] = 0
rune_at (b ∷ bs) = (decode_rune (b ∷ bs)).rune

abbrev is_unit : Text → Bool
is_unit (b ∷ bs) = b == b's' || (b == b'm' || (b == b'h' || b == b'd'))
is_unit [] = false

unfoldable pub peek_path_prefix : Lexer → Bool
unfolding has_prefix text
peek_path_prefix l =
    has_prefix (text "http://") (remaining l) || has_prefix (text "https://") (remaining l)

unfoldable pub scan_unknown : Lexer → Token × Lexer
unfolding advance add_error text
scan_unknown l =
    let end = advance l in
    let span = span_since (position l) end in
    (
      record { kind = tok_illegal; lit = since (position l) end; span = span },
      add_error (text "E_PARSE_UNEXPECTED_CHAR") (text "unexpected character")
          (text "remove or replace the character") span end,
    )

abbrev pub is_quote : ℕ → Bool
is_quote r = r == b'"' || r == b'`'

abbrev pub no_path : Lexer → Lexer
no_path l = record l { allow_path = false }

module _ (uc : Unicode) where
  abbrev pub is_ident_start : ℕ → Bool
  is_ident_start r = r == b'_' || uc.is_letter r

  abbrev pub is_ident_char : ℕ → Bool
  is_ident_char r = r == b'_' || (uc.is_letter r || uc.is_digit r)

  abbrev pub is_bare_key_char : ℕ → Bool
  is_bare_key_char r = r == b'-' || (r == b'_' || (uc.is_letter r || uc.is_digit r))

  abbrev pub is_path_char : ℕ → Bool
  is_path_char r = not (r == 0 || (r == b'\n' || (r == b'\r' || (uc.is_space r || r == b'#'))))

  -- The number of bytes of the unit, zero when there is none.
  unfoldable pub duration_unit : Text → ℕ
  unfolding has_prefix decode_rune
  duration_unit rest =
      if has_prefix (b'm' ∷ b's' ∷ []) rest && not (is_ident_char (rune_at (drop 2 rest)))
      then 2
      else (if is_unit rest && not (is_ident_char (rune_at (drop 1 rest))) then 1 else 0)

  unfoldable pub scan_duration_unit : Lexer → Bool × Lexer
  unfolding duration_unit advance_n
  scan_duration_unit l = let n = duration_unit (remaining l) in (ltb 0 n, advance_n n l)

  unfoldable pub scan_digits : Lexer → Outcome Lexer
  unfolding advance_while
  scan_digits l = advance_while uc.is_digit (suc (left l)) l

  unfoldable pub scan_fraction : Lexer → Outcome Lexer
  unfolding scan_digits peek peek_next advance
  scan_fraction l =
      if peek l == b'.' && uc.is_digit (peek_next l) then scan_digits (advance l) else ok l

  unfoldable pub scan_number_or_duration : Lexer → Outcome (Token × Lexer)
  unfolding scan_digits scan_fraction scan_duration_unit token
  scan_number_or_duration l =
      let start = position l in
      scan_digits l >>= λ d. scan_fraction d >>= λ f.
      let unit = scan_duration_unit f in
      ok (token (if unit.0 then tok_duration else tok_number) (since start unit.1) start unit.1)

  unfoldable pub scan_bare_key : Lexer → Outcome (Token × Lexer)
  unfolding advance_while token
  scan_bare_key l = advance_while is_bare_key_char (suc (left l)) l >>= λ end.
      ok (token tok_bare_key (since (position l) end) (position l) end)

  unfoldable pub scan_ident_or_keyword : Lexer → Outcome (Token × Lexer)
  unfolding advance_while token keyword_kind
  scan_ident_or_keyword l = advance_while is_ident_char (suc (left l)) l >>= λ end.
      let lit = since (position l) end in
      ok (token (or_ident (keyword_kind lit)) lit (position l) end)

  unfoldable pub scan_path : Lexer → Outcome (Token × Lexer)
  unfolding advance_while token
  scan_path l = advance_while is_path_char (suc (left l)) l >>= λ end.
      ok (token tok_path (since (position l) end) (position l) end)

  unfoldable pub scan_path_if_present : Lexer → Outcome (Option (Token × Lexer))
  unfolding scan_path peek
  scan_path_if_present l =
      if is_path_char (peek l) then (scan_path l >>= λ r. ok (some r)) else ok none

  abbrev pub operator_or : Option (Token × Lexer) → Lexer → Outcome (Token × Lexer)
  operator_or (some r) l = ok r
  operator_or none l =
      if is_quote (peek l)
      then scan_string l
      else (if uc.is_digit (peek l)
          then scan_number_or_duration l
          else (if peek_path_prefix l
              then scan_path l
              else (if is_ident_start (peek l)
                  then scan_ident_or_keyword l
                  else ok (scan_unknown l))))

  -- The part of `scanToken` after the path.
  unfoldable pub scan_plain : Lexer → Outcome (Token × Lexer)
  unfolding scan_operator_or_punct scan_string scan_number_or_duration peek_path_prefix scan_path
      scan_ident_or_keyword scan_unknown peek
  scan_plain l = operator_or (scan_operator_or_punct l) l

  abbrev pub path_or : Option (Token × Lexer) → Lexer → Outcome (Token × Lexer)
  path_or (some (tok, l')) l = ok (tok, no_path l')
  path_or none l = scan_plain (no_path l)

  -- The part of `scanToken` after the bare key.
  unfoldable pub scan_after_key : Lexer → Outcome (Token × Lexer)
  unfolding scan_path_if_present scan_plain
  scan_after_key l =
      if l.allow_path then (scan_path_if_present l >>= λ o. path_or o l) else scan_plain l

  unfoldable pub scan_key : Lexer → Outcome (Token × Lexer)
  unfolding scan_string scan_bare_key scan_after_key peek
  scan_key l =
      if is_quote (peek l)
      then scan_string l
      else (if is_bare_key_char (peek l) then scan_bare_key l else scan_after_key l)

  unfoldable pub scan_token : Lexer → Outcome (Token × Lexer)
  unfolding scan_key scan_after_key
  scan_token l =
      if l.allow_bare_key
      then scan_key (record l { line_start = false; allow_bare_key = false })
      else scan_after_key (record l { line_start = false })
