-- ===== src/Compiler/Requests/Missing.antt =====
-- A request that `passRequests` does not report has an HTTP line.
use pipetest.Ast.{ReqLine}
use pipetest.Base.Text.{Text}
use pipetest.Base.{
  ◌≡◌, refl, ap, ◌<◌, ◌==◌, ◌≤◌, Bool, true, false, List, [], ◌∷◌, if◌then◌else◌, arith, length,
  length-append, In, here, there, not-In-nil,
}
use pipetest.Compiler.Merge.Select.{select, as_http}
use pipetest.Compiler.Requests.Counts.{count_lines_counts}
use pipetest.Compiler.Requests.{
  Counters, count_lines, no_counts, shape_diag, shape_diags, request_diags, requests_diags,
}
use pipetest.Compiler.State.{ReqInfo, lines_of}
use pipetest.Diagnostics.{Diagnostic}

shape_diag-length :
    (test : Bool) (code msg hint : Text) (req : ReqInfo)
    → length (shape_diag test code msg hint req) ≡ (if test then 1 else 0)
unfolding shape_diag
shape_diag-length true code msg hint req = refl
shape_diag-length false code msg hint req = refl

missing_reported :
    (req : ReqInfo) (n : Counters)
    → (if n.http_count == 0 then 1 else 0) ≤ length (shape_diags req n)
unfolding shape_diags
missing_reported req n = omega (arith, length-append {A = Diagnostic}, shape_diag-length)

request_diags-http :
    (eff : List (Text × List ReqLine)) (req : ReqInfo)
    → length (request_diags eff req) ≡ 0
    → 0 < length (select as_http (lines_of req.decl.name eff))
unfolding request_diags
request_diags-http eff req h =
    let ls = lines_of req.decl.name eff in
    let n = count_lines req.file ls no_counts in
    let counts = count_lines_counts req.file ls no_counts in
    ground
      (arith, h, counts.0, length-append {0} n.diags (shape_diags req n), missing_reported req n)

-- If `passRequests` appends nothing, every request has an HTTP line among its effective lines.
pub requests_diags-http :
    (eff : List (Text × List ReqLine)) (reqs : List (Text × ReqInfo))
    → length (requests_diags eff reqs) ≡ 0
    → (k : Text) (req : ReqInfo) → In (k, req) reqs
    → 0 < length (select as_http (lines_of req.decl.name eff))
unfolding requests_diags
requests_diags-http eff [] h k req m = absurd (not-In-nil m)
requests_diags-http eff ((j, r) ∷ rest) h k req (here e) =
    let same : req ≡ r = ap (λ x. x.1) e in
    rw same (
      request_diags-http eff r
        (omega (arith, h, length-append {0} (request_diags eff r) (requests_diags eff rest))))
requests_diags-http eff ((j, r) ∷ rest) h k req (there m) =
    requests_diags-http eff rest
      (omega (arith, h, length-append {0} (request_diags eff r) (requests_diags eff rest))) k req m
