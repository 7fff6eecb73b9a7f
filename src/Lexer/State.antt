-- ===== src/Lexer/State.antt =====
-- internal/lexer/lexer.go: the lexer's state, and how it moves over the source. Offsets count
-- bytes. The indentation stack has its top first.
use pipetest.Base.Outcome.{Outcome, ok, out_of_fuel}
use pipetest.Base.Text.{Text, has_prefix}
use pipetest.Base.Utf8.{Rune, decode_rune}
use pipetest.Base.{
  ℕ, zero, suc, ◌+◌, ◌-◌, Bool, true, false, List, [], ◌∷◌, ◌++◌, length, drop, take, if◌then◌else◌,
  leb, ◌==◌, ◌||◌, ◌&&◌,
}
use pipetest.Lexer.Token.{Kind, tok_eof, LexPosition, LexSpan, Token}

pub record LexError : Type 0 where
  pub code : Text
  pub message : Text
  pub hint : Text
  pub file : Text
  pub span : LexSpan

pub record Lexer : Type 0 where
  pub path : Text
  pub src : Text
  pub pos : ℕ
  pub line : ℕ
  pub col : ℕ
  pub line_start : Bool
  pub line_start_pos : LexPosition
  pub indent_stack : List ℕ
  pub expect_indent : Bool
  pub line_had_colon : Bool
  -- the kind zero, which is EOF, when there is no candidate
  pub hook_candidate : Kind
  pub pending_hook_brace : Bool
  pub allow_path : Bool
  pub allow_bare_key : Bool
  pub hook_depth : ℕ
  pub paren_depth : ℕ
  pub bracket_depth : ℕ
  pub brace_expr_depth : ℕ
  pub queue : List Token
  pub errs : List LexError
  pub eof_processed : Bool

unfoldable pub new_lexer : Text → Text → Lexer
new_lexer path src = record {
  path = path;
  src = src;
  pos = 0;
  line = 1;
  col = 1;
  line_start = true;
  line_start_pos = record { offset = 0; line = 1; column = 1 };
  indent_stack = 0 ∷ [];
  expect_indent = false;
  line_had_colon = false;
  hook_candidate = tok_eof;
  pending_hook_brace = false;
  allow_path = false;
  allow_bare_key = false;
  hook_depth = 0;
  paren_depth = 0;
  bracket_depth = 0;
  brace_expr_depth = 0;
  queue = [];
  errs = [];
  eof_processed = false;
}

-- `l.pos >= len(l.src)`
abbrev pub at_end : Lexer → Bool
at_end l = leb (length l.src) l.pos

-- The number of bytes to read.
abbrev pub left : Lexer → ℕ
left l = length l.src - l.pos

abbrev pub remaining : Lexer → Text
remaining l = drop l.pos l.src

abbrev pub position : Lexer → LexPosition
position l = record { offset = l.pos; line = l.line; column = l.col }

abbrev pub span_at : LexPosition → LexSpan
span_at pos = record { start = pos; end = pos }

unfoldable pub indent_pos : ℕ → Lexer → LexPosition
indent_pos indent l = record {
  offset = l.line_start_pos.offset + indent;
  line = l.line_start_pos.line;
  column = 1 + indent;
}

-- `src[a:b]`
abbrev pub slice : Text → ℕ → ℕ → Text
slice src a b = take (b - a) (drop a src)

-- The source from `start` to where the lexer is.
abbrev pub since : LexPosition → Lexer → Text
since start l = slice l.src start.offset l.pos

abbrev pub span_since : LexPosition → Lexer → LexSpan
span_since start l = record { start = start; end = position l }

unfoldable pub peek : Lexer → ℕ
peek l = if at_end l then 0 else (decode_rune (remaining l)).rune

-- `peekN(1)`
unfoldable pub peek_next : Lexer → ℕ
peek_next l =
    if at_end l
    then 0
    else (let next = l.pos + (decode_rune (remaining l)).size in
        if leb (length l.src) next then 0 else (decode_rune (drop next l.src)).rune)

unfoldable pub add_error : Text → Text → Text → LexSpan → Lexer → Lexer
add_error code message hint span l = record l {
  errs =
      l.errs
      ++ record { code = code; message = message; hint = hint; file = l.path; span = span } ∷ [];
}

-- The state at the start of a new line at the offset `next`.
abbrev start_line : ℕ → Lexer → Lexer
start_line next l = record l {
  pos = next;
  line = suc l.line;
  col = 1;
  line_start = true;
  line_start_pos = record { offset = next; line = suc l.line; column = 1 };
}

unfoldable pub advance_rune : Rune → Lexer → Lexer
advance_rune r l =
    if r.rune == b'\n' || r.rune == b'\r'
    then start_line (l.pos + r.size) l
    else record l { pos = l.pos + r.size; col = suc l.col }

unfoldable pub advance : Lexer → Lexer
unfolding advance_rune
advance l = if at_end l then l else advance_rune (decode_rune (remaining l)) l

unfoldable pub advance_n : ℕ → Lexer → Lexer
unfolding advance
advance_n zero l = l
advance_n (suc n) l = advance_n n (advance l)

-- The bytes of the line break: two of "\r\n", or the one character.
unfoldable pub newline_size : Lexer → ℕ
unfolding has_prefix
newline_size l =
    let r = decode_rune (remaining l) in
    if has_prefix (b'\r' ∷ b'\n' ∷ []) (remaining l)
    then 2
    else (if r.rune == b'\r' || r.rune == b'\n' then r.size else 0)

unfoldable pub consume_newline : Lexer → Lexer
unfolding newline_size
consume_newline l = if at_end l then l else start_line (l.pos + newline_size l) l

-- `for p(l.peek()) { l.advance() }`, one unit of fuel for each test of the condition
unfoldable pub advance_while : (ℕ → Bool) → ℕ → Lexer → Outcome Lexer
unfolding peek advance
advance_while p zero l = out_of_fuel
advance_while p (suc k) l = if p (peek l) then advance_while p k (advance l) else ok l

abbrev pub expr_depth : Lexer → ℕ
expr_depth l = l.paren_depth + l.bracket_depth + l.brace_expr_depth

-- Neither in a hook nor in brackets: indentation counts.
abbrev pub in_layout : Lexer → Bool
in_layout l = l.hook_depth == 0 && expr_depth l == 0
