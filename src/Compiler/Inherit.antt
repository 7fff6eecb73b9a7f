-- ===== src/Compiler/Inherit.antt =====
-- `passRequestInheritance`: the effective lines of every request, parents first.
pub mod View
pub mod Chain
pub mod Pass
use pipetest.Ast.{ReqLine}
use pipetest.Base.Assoc.{lookup, insert, keys}
use pipetest.Base.Order.{sort_by}
use pipetest.Base.Outcome.{Outcome, ok, out_of_fuel, ◌>>=◌}
use pipetest.Base.Text.{Text, text, text_lt}
use pipetest.Base.{
  ℕ, zero, suc, List, [], ◌∷◌, ◌++◌, Option, none, some, if◌then◌else◌, ◌==◌, length,
}
use pipetest.Base.Visits.{vis_of}
use pipetest.Compiler.Merge.{merge_request_lines}
use pipetest.Compiler.State.{Compiler, ReqInfo, diag_at, lines_of}
use pipetest.Diagnostics.{Diagnostic}

-- What `resolve` changes: `c.effReqs`, `state` and `c.diags`.
pub record Resolution : Type 0 where
  pub eff_reqs : List (Text × List ReqLine)
  pub state : List (Text × ℕ)
  pub diags : List Diagnostic

unfoldable pub inheritance_cycle : ReqInfo → Diagnostic
unfolding diag_at text
inheritance_cycle req =
    diag_at (text "E_SEM_INHERITANCE_CYCLE") (text "request inheritance cycle detected") req.file
      req.decl.span (text "remove circular parent chains")

abbrev pub Resolved : Type 0
Resolved = List ReqLine × Resolution

-- `if st == 1`
unfoldable pub on_stack : Option ReqInfo → Resolution → Resolved
unfolding inheritance_cycle
on_stack none r = ([], r)
on_stack (some req) r = ([], record r { diags = r.diags ++ inheritance_cycle req ∷ [] })

-- `if req.Decl.Parent != nil { parent = resolve(*req.Decl.Parent) }`
unfoldable pub resolve_parent :
    (Text → Resolution → Outcome Resolved) → Option Text → Resolution → Outcome Resolved
resolve_parent rec none r = ok ([], r)
resolve_parent rec (some p) r = rec p r

-- The rest of `resolve`, with the parent's lines at hand.
unfoldable pub settle : Text → ReqInfo → Resolved → Resolved
unfolding insert merge_request_lines
settle name req (parent, r) =
    let merged = merge_request_lines parent req.decl.lines in
    (merged, record r { eff_reqs = insert name merged r.eff_reqs; state = insert name 2 r.state })

-- `req := c.reqs[name]` and what follows, for a name that is met for the first time; `rec` is the
-- recursive call.
unfoldable pub resolve_fresh :
    (Text → Resolution → Outcome Resolved) → Text → Resolution → Option ReqInfo → Outcome Resolved
unfolding resolve_parent settle insert
resolve_fresh rec name r none = ok ([], r)
resolve_fresh rec name r (some req) =
    resolve_parent rec req.decl.parent (record r { state = insert name 1 r.state }) >>= λ p.
    ok (settle name req p)

module _ (reqs : List (Text × ReqInfo)) where
  -- The body of `resolve`, by what `c.effReqs` has for the name.
  unfoldable pub resolve_from :
      (Text → Resolution → Outcome Resolved)
      → Text
      → Resolution
      → Option (List ReqLine)
      → Outcome Resolved
  unfolding lookup vis_of lines_of on_stack resolve_fresh
  resolve_from rec name r (some lines) = ok (lines, r)
  resolve_from rec name r none =
      if vis_of name r.state == 1
      then ok (on_stack (lookup name reqs) r)
      else if vis_of name r.state == 2
      then ok (lines_of name r.eff_reqs, r)
      else resolve_fresh rec name r (lookup name reqs)

  -- `resolve(name)`, with one unit of fuel for each level of the stack.
  unfoldable pub resolve : ℕ → Text → Resolution → Outcome Resolved
  unfolding resolve_from lookup
  resolve zero name r = out_of_fuel
  resolve (suc fuel) name r = resolve_from (resolve fuel) name r (lookup name r.eff_reqs)

  unfoldable pub resolve_all : ℕ → List Text → Resolution → Outcome Resolution
  unfolding resolve
  resolve_all fuel [] r = ok r
  resolve_all fuel (name ∷ names) r = resolve fuel name r >>= λ (_, r'). resolve_all fuel names r'

unfoldable pub pass_request_inheritance : Compiler → Outcome Compiler
unfolding resolve_all sort_by
pass_request_inheritance c =
    resolve_all c.reqs (suc (length c.reqs)) (sort_by text_lt (keys c.reqs))
      (record { eff_reqs = []; state = []; diags = c.diags })
    >>= λ r. ok (record c { eff_reqs = r.eff_reqs; diags = r.diags })
