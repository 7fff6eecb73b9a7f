-- ===== src/Compiler/Requests/Counts/Effective.antt =====
-- `passRequests` over effective lines: what it can and cannot report.
use pipetest.Ast.{ReqLine}
use pipetest.Base.Assoc.{lookup}
use pipetest.Base.Outcome.{ok, Returns-ok}
use pipetest.Base.Text.{Text}
use pipetest.Base.{
  ◌≡◌, refl, ◌≤◌, List, [], ◌∷◌, Option, none, some, option_list, Option-cases, inl, inr, arith,
  length,
}
use pipetest.Compiler.Inherit.Chain.{IsMerge}
use pipetest.Compiler.Inherit.Pass.{pass_request_inheritance_resolves}
use pipetest.Compiler.Inherit.{pass_request_inheritance}
use pipetest.Compiler.Merge.Select.{select, as_http, as_json, as_pre, as_post}
use pipetest.Compiler.Merge.Singles.{effective, merge_request_lines_singles}
use pipetest.Compiler.Requests.Counts.{
  multiples, multiples-append, count_lines_counts, count_lines-multiples, shape_diags-multiples,
}
use pipetest.Compiler.Requests.{count_lines, no_counts, request_diags, requests_diags}
use pipetest.Compiler.State.{Compiler, ReqInfo, lines_of}

length-option_list : {A : Type 0} (o : Option A) → length (option_list o) ≤ 1
length-option_list none = omega arith
length-option_list (some a) = omega arith

-- At most one line of each of the four kinds.
record AtMostOne (ls : List ReqLine) : Type 0 where
  one_http : length (select as_http ls) ≤ 1
  one_json : length (select as_json ls) ≤ 1
  one_pre : length (select as_pre ls) ≤ 1
  one_post : length (select as_post ls) ≤ 1

IsMerge-AtMostOne : (ls : List ReqLine) → IsMerge ls → AtMostOne ls
IsMerge-AtMostOne ls m =
    let (h, a, j, p, q) = merge_request_lines_singles m.parent m.own in
    record {
      one_http = rw (m.merged, h) (length-option_list (effective as_http m.parent m.own));
      one_json = rw (m.merged, j) (length-option_list (effective as_json m.parent m.own));
      one_pre = rw (m.merged, p) (length-option_list (effective as_pre m.parent m.own));
      one_post = rw (m.merged, q) (length-option_list (effective as_post m.parent m.own));
    }

request_diags-multiples :
    (eff : List (Text × List ReqLine)) (req : ReqInfo)
    → AtMostOne (lines_of req.decl.name eff)
    → multiples (request_diags eff req) ≡ 0
unfolding request_diags
request_diags-multiples eff req one =
    let ls = lines_of req.decl.name eff in
    let n = count_lines req.file ls no_counts in
    let (h, j, p, q) = count_lines_counts req.file ls no_counts in
    omega (
      arith,
      multiples-append,
      count_lines-multiples req.file ls no_counts,
      nothing,
      shape_diags-multiples req n (omega (arith, one.one_http)) (omega (arith, one.one_json))
          (omega (arith, one.one_pre)) (omega (arith, one.one_post)),
    )
  where
    nothing : multiples [] ≡ 0
    nothing = unfold multiples in refl

lines_of-AtMostOne :
    (eff : List (Text × List ReqLine)) (k : Text)
    → ((ls : List ReqLine) → lookup k eff ≡ some ls → IsMerge ls)
    → AtMostOne (lines_of k eff)
unfolding lines_of
lines_of-AtMostOne eff k h = elim (Option-cases (lookup k eff)) [
  | inl e ↦ rw (e, lines_of) (unfold select in (omega arith))
  | inr (ls, e) ↦ rw (e, lines_of) (IsMerge-AtMostOne ls (h ls e))
]

requests_diags-multiples :
    (eff : List (Text × List ReqLine)) (rs : List (Text × ReqInfo))
    → ((k : Text) (ls : List ReqLine) → lookup k eff ≡ some ls → IsMerge ls)
    → multiples (requests_diags eff rs) ≡ 0
unfolding requests_diags
requests_diags-multiples eff [] h = unfold multiples in refl
requests_diags-multiples eff ((k, req) ∷ rest) h = omega (
  arith,
  multiples-append,
  request_diags-multiples eff req (lines_of-AtMostOne eff req.decl.name (h req.decl.name)),
  requests_diags-multiples eff rest h,
)

-- After the inheritance pass, `passRequests` appends no diagnostic that says that a request has
-- several HTTP lines, pre hooks, post hooks or bodies, whatever the source has.
pub pass_requests_no_multiples :
    (c c' : Compiler)
    → pass_request_inheritance c ≡ ok c'
    → multiples (requests_diags c'.eff_reqs c'.reqs) ≡ 0
pass_requests_no_multiples c c' e =
    requests_diags-multiples c'.eff_reqs c'.reqs
      (Returns-ok (pass_request_inheritance_resolves c) e).merges
