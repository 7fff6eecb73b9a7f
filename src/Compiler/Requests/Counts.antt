-- ===== src/Compiler/Requests/Counts.antt =====
-- What the counters of `passRequests` count, and which of its diagnostics can appear.
pub mod Effective
use pipetest.Ast.{
  Span, ReqLine, http_line, json_directive, hook_block, HookBlock, HookStmt, HookKind, hook_pre,
  hook_post, assign_stmt, expr_stmt, let_hook, print_stmt,
}
use pipetest.Base.Assoc.{member}
use pipetest.Base.Text.{Text, text, text_eq}
use pipetest.Base.{
  ◌≡◌, refl, ℕ, suc, ◌+◌, ◌≤◌, Bool, true, false, ◌&&◌, List, [], ◌∷◌, ◌++◌, count, count-append,
  ◌∙◌, option_list, if◌then◌else◌, ◌==◌, ltb, length, length-append, arith,
}
use pipetest.Compiler.Merge.Select.{select, as_http, as_json, as_pre, as_post, pre_only, post_only}
use pipetest.Compiler.Requests.{
  Counters, pre_hook_diag, pre_hook_diags, assign_diags, count_hook, count_lines, shape_diag,
  shape_diags,
}
use pipetest.Compiler.State.{ReqInfo, diag_at}
use pipetest.Diagnostics.{Diagnostic}

count_hook_counts :
    (file : Text) (k : HookKind) (l : HookBlock) (n : Counters)
    → ((count_hook file k l n).http_count ≡ n.http_count)
      × ((count_hook file k l n).json_count ≡ n.json_count)
      × ((count_hook file k l n).pre_hook ≡ n.pre_hook + length (option_list (pre_only k l)))
      × ((count_hook file k l n).post_hook ≡ n.post_hook + length (option_list (post_only k l)))
unfolding count_hook
count_hook_counts file hook_pre l n = (refl, refl, omega arith, omega arith)
count_hook_counts file hook_post l n = (refl, refl, omega arith, omega arith)

-- The loop over the lines lets each counter grow by the number of lines of its kind: HTTP lines,
-- bodies, pre hooks and post hooks.
pub count_lines_counts :
    (file : Text) (ls : List ReqLine) (n : Counters)
    → ((count_lines file ls n).http_count ≡ n.http_count + length (select as_http ls))
      × ((count_lines file ls n).json_count ≡ n.json_count + length (select as_json ls))
      × ((count_lines file ls n).pre_hook ≡ n.pre_hook + length (select as_pre ls))
      × ((count_lines file ls n).post_hook ≡ n.post_hook + length (select as_post ls))
unfolding count_lines select
count_lines_counts file [] n = (omega arith, omega arith, omega arith, omega arith)
count_lines_counts file (http_line l ∷ ls) n =
    let (a, b, c, d) = count_lines_counts file ls (record n { http_count = suc n.http_count }) in
    (omega arith, b, c, d)
count_lines_counts file (json_directive l ∷ ls) n =
    let (a, b, c, d) = count_lines_counts file ls (record n { json_count = suc n.json_count }) in
    (a, omega arith, c, d)
count_lines_counts file (hook_block l ∷ ls) n =
    let (a, b, c, d) = count_lines_counts file ls (count_hook file l.kind l n) in
    let (a', b', c', d') = count_hook_counts file l.kind l n in
    (
      omega arith,
      omega arith,
      omega (arith, length-append {0} (option_list (pre_only l.kind l)) (select as_pre ls)),
      omega (arith, length-append {0} (option_list (post_only l.kind l)) (select as_post ls)),
    )
count_lines_counts file (_ ∷ ls) n = count_lines_counts file ls n

unfoldable pub multiple_codes : List Text
unfolding text
multiple_codes =
    text "E_SEM_REQ_MULTIPLE_HTTP_LINES"
    ∷ text "E_SEM_DUPLICATE_PRE_HOOK"
    ∷ text "E_SEM_DUPLICATE_POST_HOOK"
    ∷ text "E_SEM_MULTIPLE_BODIES"
    ∷ []

-- How many diagnostics say that a line stands more than once.
unfoldable pub multiples : List Diagnostic → ℕ
unfolding multiple_codes member
multiples ds = count (λ d. member d.code multiple_codes) ds

pub multiples-append :
    (xs ys : List Diagnostic) → multiples (xs ++ ys) ≡ multiples xs + multiples ys
unfolding multiples
multiples-append xs ys = count-append (λ d. member d.code multiple_codes) xs ys

multiples-diag_at :
    (b : Bool) (code msg file : Text) (span : Span) (hint : Text)
    → member code multiple_codes ≡ false
    → multiples (if b then diag_at code msg file span hint ∷ [] else []) ≡ 0
unfolding multiples diag_at
multiples-diag_at true code msg file span hint h = rw h refl
multiples-diag_at false code msg file span hint h = refl

pre_hook_code : member (text "E_SEM_PRE_HOOK_REFERENCES_RES") multiple_codes ≡ false
unfolding multiple_codes member text_eq
pre_hook_code = refl

assign_code : member (text "E_SEM_ASSIGN_TO_RES_FORBIDDEN") multiple_codes ≡ false
unfolding multiple_codes member text_eq
assign_code = refl

missing_code : member (text "E_SEM_REQ_MISSING_HTTP_LINE") multiple_codes ≡ false
unfolding multiple_codes member text_eq
missing_code = refl

pre_hook_diags-multiples : (file : Text) (l : HookBlock) → multiples (pre_hook_diags file l) ≡ 0
unfolding pre_hook_diags pre_hook_diag
pre_hook_diags-multiples file l = simp (
  multiples-append,
  λ (b : Bool) (m f : Text) (s : Span) (h : Text). multiples-diag_at b _ m f s h pre_hook_code,
)

assign_diags-multiples :
    (file : Text) (stmts : List HookStmt) → multiples (assign_diags file stmts) ≡ 0
unfolding assign_diags
assign_diags-multiples file [] = unfold multiples in refl
assign_diags-multiples file (assign_stmt asn ∷ rest) =
    rw (multiples-append, multiples-diag_at _ _ _ _ _ _ assign_code)
      (omega (arith, assign_diags-multiples file rest))
assign_diags-multiples file (expr_stmt s ∷ rest) = assign_diags-multiples file rest
assign_diags-multiples file (print_stmt s ∷ rest) = assign_diags-multiples file rest
assign_diags-multiples file (let_hook s ∷ rest) = assign_diags-multiples file rest

ruleset no_multiples = (arith, multiples-append, pre_hook_diags-multiples, assign_diags-multiples)

count_hook-multiples :
    (file : Text) (k : HookKind) (l : HookBlock) (n : Counters)
    → multiples (count_hook file k l n).diags ≡ multiples n.diags
unfolding count_hook
count_hook-multiples file hook_pre l n = omega no_multiples
count_hook-multiples file hook_post l n = omega no_multiples

pub count_lines-multiples :
    (file : Text) (ls : List ReqLine) (n : Counters)
    → multiples (count_lines file ls n).diags ≡ multiples n.diags
unfolding count_lines
count_lines-multiples file [] n = refl
count_lines-multiples file (hook_block l ∷ ls) n =
    count_lines-multiples file ls _ ∙ count_hook-multiples file l.kind l n
count_lines-multiples file (http_line l ∷ ls) n = count_lines-multiples file ls _
count_lines-multiples file (json_directive l ∷ ls) n = count_lines-multiples file ls _
count_lines-multiples file (_ ∷ ls) n = count_lines-multiples file ls n

shape_diag-multiples :
    (test : Bool) (code msg hint : Text) (req : ReqInfo)
    → test && member code multiple_codes ≡ false
    → multiples (shape_diag test code msg hint req) ≡ 0
unfolding shape_diag
shape_diag-multiples true code msg hint req h =
    multiples-diag_at true code msg req.file req.decl.span hint h
shape_diag-multiples false code msg hint req h = unfold multiples in refl

-- The tests behind the loop, where no counter is above one.
pub shape_diags-multiples :
    (req : ReqInfo) (n : Counters)
    → n.http_count ≤ 1
    → n.json_count ≤ 1
    → n.pre_hook ≤ 1
    → n.post_hook ≤ 1
    → multiples (shape_diags req n) ≡ 0
unfolding shape_diags
shape_diags-multiples req n a b c d = omega (
  arith,
  multiples-append,
  shape_diag-multiples (n.http_count == 0) _ _ _ req (missing _),
  shape_diag-multiples (ltb 1 n.http_count) _ _ _ req (small n.http_count _ a),
  shape_diag-multiples (ltb 1 n.json_count) _ _ _ req (small n.json_count _ b),
  shape_diag-multiples (ltb 1 n.pre_hook) _ _ _ req (small n.pre_hook _ c),
  shape_diag-multiples (ltb 1 n.post_hook) _ _ _ req (small n.post_hook _ d),
)
  where
    missing : (b : Bool) → b && member (text "E_SEM_REQ_MISSING_HTTP_LINE") multiple_codes ≡ false
    missing b = rw missing_code (ground arith)

    small : (k : ℕ) (b : Bool) → k ≤ 1 → ltb 1 k && b ≡ false
    small k b h = ground arith
