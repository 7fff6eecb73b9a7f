-- ===== src/Compiler/Inherit/View.antt =====
-- The cases of `resolve`, and how far its fuel goes.
use pipetest.Ast.{ReqLine}
use pipetest.Base.Assoc.{lookup, insert}
use pipetest.Base.Outcome.{Outcome, ok}
use pipetest.Base.Text.{Text}
use pipetest.Base.{
  ◌≡◌, refl, ◌≢◌, ℕ, suc, List, Option, none, some, ◌==◌, ==_iff, Bool-cases, inl, inr, arith,
}
use pipetest.Base.Visits.{vis_of}
use pipetest.Compiler.Inherit.{Resolution, Resolved, on_stack, resolve_fresh, resolve_from, resolve}
use pipetest.Compiler.State.{ReqInfo, lines_of}

module _ (reqs : List (Text × ReqInfo)) where
  abbrev pub mark : Text → Resolution → Resolution
  mark name r = record r { state = insert name 1 r.state }

  -- How `resolve` answers, case by case.
  pub data View (fuel : ℕ) (name : Text) (r : Resolution) : Outcome Resolved → Type 0 where
    cached :
        {lines : List ReqLine}
        → lookup name r.eff_reqs ≡ some lines
        → View fuel name r (ok (lines, r))
    stacked : vis_of name r.state ≡ 1 → View fuel name r (ok (on_stack (lookup name reqs) r))
    settled :
        lookup name r.eff_reqs ≡ none
        → vis_of name r.state ≡ 2
        → View fuel name r (ok (lines_of name r.eff_reqs, r))
    unvisited :
        vis_of name r.state ≢ 1
        → vis_of name r.state ≢ 2
        → View fuel name r (resolve_fresh (resolve reqs fuel) name r (lookup name reqs))

  resolve_from-View :
      (fuel : ℕ) (name : Text) (r : Resolution) (o : Option (List ReqLine))
      → lookup name r.eff_reqs ≡ o
      → View fuel name r (resolve_from reqs (resolve reqs fuel) name r o)
  unfolding resolve_from
  resolve_from-View fuel name r (some lines) e = cached e
  resolve_from-View fuel name r none e = elim (Bool-cases (vis_of name r.state == 1)) [
    | inl one ↦ rw one (stacked ((==_iff (vis_of name r.state) 1).0 one))
    | inr not_one ↦ rw not_one (elim (Bool-cases (vis_of name r.state == 2)) [
      | inl two ↦ rw two (settled e ((==_iff (vis_of name r.state) 2).0 two))
      | inr not_two ↦ rw not_two (unvisited (ground arith) (ground arith))
    ])
  ]

  pub resolve-View :
      (fuel : ℕ) (name : Text) (r : Resolution) → View fuel name r (resolve reqs (suc fuel) name r)
  unfolding resolve
  resolve-View fuel name r = resolve_from-View fuel name r (lookup name r.eff_reqs) refl
