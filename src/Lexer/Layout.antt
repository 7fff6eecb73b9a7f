-- ===== src/Lexer/Layout.antt =====
-- internal/lexer/lexer.go: the layout of lines: indentation, line breaks, comments and the end of
-- the source.
use pipetest.Base.Outcome.{Outcome, ok, out_of_fuel, ◌>>=◌}
use pipetest.Base.Text.{text}
use pipetest.Base.Utf8.{Unicode}
use pipetest.Base.{
  ℕ, zero, suc, Bool, true, false, not, List, [], ◌∷◌, ◌++◌, if◌then◌else◌, ltb, ◌==◌, ◌||◌, ◌&&◌,
}
use pipetest.Lexer.State.{
  Lexer, left, position, span_at, indent_pos, peek, peek_next, add_error, advance, advance_while,
  consume_newline, expr_depth, in_layout,
}
use pipetest.Lexer.Token.{tok_eof, tok_nl, tok_indent, tok_dedent, Kind, LexSpan, Token}

abbrev pub layout_token : Kind → LexSpan → Token
layout_token kind span = record { kind = kind; lit = []; span = span }

-- The top of the stack, which is never empty.
abbrev pub top : List ℕ → ℕ
top [] = 0
top (n ∷ ns) = n

abbrev pub indent_span : ℕ → Lexer → LexSpan
indent_span indent l = record { start = l.line_start_pos; end = indent_pos indent l }

abbrev pub push_indent : ℕ → Lexer → Lexer
push_indent indent l = record l {
  indent_stack = indent ∷ l.indent_stack;
  queue = l.queue ++ layout_token tok_indent (indent_span indent l) ∷ [];
}

-- The stack and the queue after every level above `indent` is closed, down to the last.
unfoldable pub pop_dedents : ℕ → LexSpan → List ℕ → List Token → List ℕ × List Token
pop_dedents indent span [] queue = ([], queue)
pop_dedents indent span (n ∷ []) queue = (n ∷ [], queue)
pop_dedents indent span (n ∷ m ∷ ns) queue =
    if ltb indent n
    then pop_dedents indent span (m ∷ ns) (queue ++ layout_token tok_dedent span ∷ [])
    else (n ∷ m ∷ ns, queue)

unfoldable pub close_levels : ℕ → Lexer → Lexer
unfolding pop_dedents indent_pos
close_levels indent l =
    let r = pop_dedents indent (indent_span indent l) l.indent_stack l.queue in
    record l { indent_stack = r.0; queue = r.1 }

unfoldable pub check_level : ℕ → Lexer → Lexer
unfolding add_error indent_pos text
check_level indent l =
    if indent == top l.indent_stack
    then l
    else add_error (text "E_PARSE_DEDENT")
        (text "dedent does not match any outer indentation level")
        (text "align indentation with an existing block") (span_at (indent_pos indent l)) l

-- The part of `processIndent` after the check of the block that a colon opens; `n` is the top of
-- the stack.
unfoldable pub level : ℕ → ℕ → Lexer → Lexer
unfolding close_levels check_level add_error indent_pos text
level n indent l =
    if ltb n indent
    then push_indent indent (
        add_error (text "E_PARSE_INDENT") (text "unexpected indentation")
          (text "remove extra indentation or add ':' to open a block")
          (span_at (indent_pos indent l)) l)
    else (if ltb indent n then check_level indent (close_levels indent l) else l)

unfoldable pub process_indent : ℕ → Lexer → Lexer
unfolding level add_error indent_pos text
process_indent indent l =
    if l.expect_indent
    then (if ltb (top l.indent_stack) indent
        then push_indent indent l
        else level (top l.indent_stack) indent (
            add_error (text "E_PARSE_INDENT") (text "expected an indented block")
              (text "indent this line to start the block") (span_at (indent_pos indent l)) l))
    else level (top l.indent_stack) indent l

unfoldable pub is_blank : ℕ → Bool
is_blank r = r == b' ' || r == b'\t'

unfoldable pub is_line_end : ℕ → Bool
is_line_end r = r == 0 || (r == b'\n' || r == b'\r')

unfoldable pub consume_whitespace : Lexer → Outcome Lexer
unfolding advance_while is_blank
consume_whitespace l = advance_while is_blank (suc (left l)) l

-- One tab or space at the start of a line; where indentation counts, all the spaces that follow
-- each other.
unfoldable pub skip_blank : Lexer → Outcome Lexer
unfolding peek advance advance_while add_error text
skip_blank l =
    if peek l == b' ' && in_layout l
    then advance_while (λ r. r == b' ') (suc (left l))
        (add_error (text "E_PARSE_TAB") (text "space indentation is not allowed")
          (text "replace spaces with tabs") (span_at (position l)) l)
    else ok (advance l)

-- The tabs at the start of the line that count, and the state after all tabs and spaces there.
unfoldable pub measure_indent : ℕ → ℕ → Lexer → Outcome (ℕ × Lexer)
unfolding peek is_blank skip_blank
measure_indent zero indent l = out_of_fuel
measure_indent (suc k) indent l =
    if is_blank (peek l)
    then (skip_blank l
        >>= measure_indent k (if peek l == b'\t' && in_layout l then suc indent else indent))
    else ok (indent, l)

unfoldable pub skip_comment : Lexer → Outcome Lexer
unfolding advance_while is_line_end
skip_comment l = advance_while (λ r. not (is_line_end r)) (suc (left l)) l

unfoldable pub handle_newline : Lexer → Lexer
unfolding consume_newline
handle_newline l =
    let l' = record (consume_newline l) {
      allow_path = false;
      allow_bare_key = false;
      hook_candidate = tok_eof;
      pending_hook_brace = false;
    } in
    if expr_depth l' == 0
    then record l' {
      queue =
          l'.queue ++ layout_token tok_nl (record { start = position l; end = position l' }) ∷ [];
      expect_indent = l'.line_had_colon || l'.expect_indent;
      line_had_colon = false;
    }
    else l'

module _ (uc : Unicode) where
  unfoldable pub hash_starts_comment : Lexer → Bool
  unfolding peek_next is_line_end
  hash_starts_comment l = is_line_end (peek_next l) || uc.is_space (peek_next l)

  -- The line from its first character that is not a tab or space.
  unfoldable pub line_body : ℕ → Lexer → Outcome Lexer
  unfolding process_indent hash_starts_comment skip_comment is_line_end peek
  line_body indent l =
      if peek l == b'#' && hash_starts_comment l
      then skip_comment l
      else (if is_line_end (peek l)
          then ok l
          else (if in_layout l
              then ok
                  (record (process_indent indent l) { expect_indent = false; line_start = false })
              else ok (record l { line_start = false })))

  unfoldable pub handle_line_start : Lexer → Outcome Lexer
  unfolding measure_indent line_body
  handle_line_start l =
      if l.line_start then (measure_indent (suc (left l)) 0 l >>= λ m. line_body m.0 m.1) else ok l

-- The DEDENT tokens at the end of the source.
unfoldable pub close_all : LexSpan → List ℕ → List Token → List ℕ × List Token
close_all span [] queue = ([], queue)
close_all span (n ∷ []) queue = (n ∷ [], queue)
close_all span (n ∷ m ∷ ns) queue =
    close_all span (m ∷ ns) (queue ++ layout_token tok_dedent span ∷ [])

unfoldable pub close_hook : Lexer → Lexer
unfolding add_error text
close_hook l =
    if ltb 0 l.hook_depth
    then record (add_error (text "E_PARSE_UNTERMINATED_HOOK") (text "unterminated hook block")
        (text "close the hook block with '}'") (span_at (position l)) l) { hook_depth = 0 }
    else l

unfoldable pub close_brackets : Lexer → Lexer
unfolding add_error text
close_brackets l =
    if ltb 0 l.paren_depth || (ltb 0 l.bracket_depth || ltb 0 l.brace_expr_depth)
    then record (add_error (text "E_PARSE_UNTERMINATED_DELIM")
        (text "unterminated expression grouping") (text "close the open delimiter before EOF")
        (span_at (position l)) l) { paren_depth = 0; bracket_depth = 0; brace_expr_depth = 0 }
    else l

unfoldable pub close_stack : Lexer → Lexer
unfolding close_all
close_stack l =
    let r = close_all (span_at (position l)) l.indent_stack l.queue in
    record l { indent_stack = r.0; queue = r.1 }

abbrev pub begin_eof : Lexer → Lexer
begin_eof l = record l {
  eof_processed = true;
  allow_path = false;
  allow_bare_key = false;
  hook_candidate = tok_eof;
  pending_hook_brace = false;
}

-- The part of `emitEOF` that runs once.
unfoldable pub process_eof : Lexer → Lexer
unfolding close_hook close_brackets close_stack
process_eof l =
    if l.eof_processed then l else close_stack (close_brackets (close_hook (begin_eof l)))

abbrev pub pop_or_eof : List Token → Lexer → Token × Lexer
pop_or_eof [] l = (layout_token tok_eof (span_at (position l)), l)
pop_or_eof (t ∷ ts) l = (t, record l { queue = ts })

unfoldable pub emit_eof : Lexer → Token × Lexer
unfolding process_eof
emit_eof l = let l' = process_eof l in pop_or_eof l'.queue l'
