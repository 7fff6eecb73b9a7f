-- ===== src/Compiler/Requests.antt =====
-- `passRequests`: the shape of each effective request, and what its hooks may name.
pub mod Counts
pub mod Missing
use pipetest.Ast.{
  ReqLine, http_line, json_directive, hook_block, HookBlock, HookStmt, HookKind, hook_pre,
  hook_post, assign_stmt, LValueRootKind, lvalue_res,
}
use pipetest.Base.Text.{Text, text}
use pipetest.Base.{ℕ, suc, ◌+◌, Bool, true, false, List, [], ◌∷◌, ◌++◌, if◌then◌else◌, ◌==◌, ltb}
use pipetest.Compiler.Idents.{refs_expr_in_hook, is_res_ref, is_hash_ref}
use pipetest.Compiler.State.{Compiler, ReqInfo, diag_at, lines_of}
use pipetest.Diagnostics.{Diagnostic}

-- The counters of the loop over the lines, and the diagnostics that it appends.
pub record Counters : Type 0 where
  pub http_count : ℕ
  pub json_count : ℕ
  pub pre_hook : ℕ
  pub post_hook : ℕ
  pub diags : List Diagnostic

unfoldable pub pre_hook_diag : Text → Text → HookBlock → Text → Diagnostic
unfolding diag_at text
pre_hook_diag file msg l hint = diag_at (text "E_SEM_PRE_HOOK_REFERENCES_RES") msg file l.span hint

-- The two tests that a pre hook has to pass.
unfoldable pub pre_hook_diags : Text → HookBlock → List Diagnostic
unfolding pre_hook_diag text refs_expr_in_hook is_res_ref is_hash_ref
pre_hook_diags file l =
    (if refs_expr_in_hook is_res_ref l.stmts
      then pre_hook_diag file (text "pre hook cannot reference res") l
          (text "use req or flow variables in pre hook")
        ∷ []
      else [])
    ++ (if refs_expr_in_hook is_hash_ref l.stmts
        then pre_hook_diag file (text "pre hook cannot reference #") l
            (text "move response access to post hook")
          ∷ []
        else [])

abbrev is_lvalue_res : LValueRootKind → Bool
is_lvalue_res lvalue_res = true
is_lvalue_res _ = false

unfoldable pub assign_diags : Text → List HookStmt → List Diagnostic
unfolding diag_at text
assign_diags file [] = []
assign_diags file (assign_stmt asn ∷ rest) =
    (if is_lvalue_res asn.target.root.kind
      then diag_at (text "E_SEM_ASSIGN_TO_RES_FORBIDDEN") (text "assignment to res is forbidden")
          file asn.span (text "assign to req or a variable instead")
        ∷ []
      else [])
    ++ assign_diags file rest
assign_diags file (_ ∷ rest) = assign_diags file rest

-- `case *ast.HookBlock`
unfoldable pub count_hook : Text → HookKind → HookBlock → Counters → Counters
unfolding pre_hook_diags assign_diags
count_hook file hook_pre l n = record n {
  pre_hook = suc n.pre_hook;
  diags = (n.diags ++ pre_hook_diags file l) ++ assign_diags file l.stmts;
}
count_hook file hook_post l n = record n {
  post_hook = suc n.post_hook;
  diags = n.diags ++ assign_diags file l.stmts;
}

unfoldable pub count_lines : Text → List ReqLine → Counters → Counters
unfolding count_hook
count_lines file [] n = n
count_lines file (http_line l ∷ ls) n =
    count_lines file ls (record n { http_count = suc n.http_count })
count_lines file (json_directive l ∷ ls) n =
    count_lines file ls (record n { json_count = suc n.json_count })
count_lines file (hook_block l ∷ ls) n = count_lines file ls (count_hook file l.kind l n)
count_lines file (_ ∷ ls) n = count_lines file ls n

-- One of the tests behind the loop.
unfoldable pub shape_diag : Bool → Text → Text → Text → ReqInfo → List Diagnostic
unfolding diag_at
shape_diag test code msg hint req =
    if test then diag_at code msg req.file req.decl.span hint ∷ [] else []

unfoldable pub shape_diags : ReqInfo → Counters → List Diagnostic
unfolding shape_diag text
shape_diags req n =
    shape_diag (n.http_count == 0) (text "E_SEM_REQ_MISSING_HTTP_LINE")
      (text "request must include exactly one HTTP line") (text "add GET/POST/etc line") req
    ++ (shape_diag (ltb 1 n.http_count) (text "E_SEM_REQ_MULTIPLE_HTTP_LINES")
          (text "request has multiple HTTP lines") (text "keep only one HTTP line") req
        ++ (shape_diag (ltb 1 n.pre_hook) (text "E_SEM_DUPLICATE_PRE_HOOK")
              (text "request has multiple pre hooks") (text "keep only one pre hook") req
            ++ (shape_diag (ltb 1 n.post_hook) (text "E_SEM_DUPLICATE_POST_HOOK")
                  (text "request has multiple post hooks") (text "keep only one post hook") req
                ++ shape_diag (ltb 1 n.json_count) (text "E_SEM_MULTIPLE_BODIES")
                    (text "request has multiple body directives")
                    (text "keep only one json body directive") req)))

abbrev pub no_counts : Counters
no_counts = record { http_count = 0; json_count = 0; pre_hook = 0; post_hook = 0; diags = [] }

-- What the body of the loop over the requests appends.
unfoldable pub request_diags : List (Text × List ReqLine) → ReqInfo → List Diagnostic
unfolding lines_of count_lines shape_diags
request_diags eff_reqs req =
    let n = count_lines req.file (lines_of req.decl.name eff_reqs) no_counts in
    n.diags ++ shape_diags req n

unfoldable pub requests_diags : List (Text × List ReqLine) → List (Text × ReqInfo) → List Diagnostic
unfolding request_diags
requests_diags eff_reqs [] = []
requests_diags eff_reqs ((_, req) ∷ rest) =
    request_diags eff_reqs req ++ requests_diags eff_reqs rest

unfoldable pub pass_requests : Compiler → Compiler
unfolding requests_diags
pass_requests c = record c { diags = c.diags ++ requests_diags c.eff_reqs c.reqs }
