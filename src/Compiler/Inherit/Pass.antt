-- ===== src/Compiler/Inherit/Pass.antt =====
-- What the whole inheritance pass promises.
use pipetest.Ast.{ReqLine}
use pipetest.Base.Assoc.{lookup, keys, member-keys}
use pipetest.Base.Names.{member-sort_by}
use pipetest.Base.Outcome.{Returns, returns, Returns-bind}
use pipetest.Base.Text.{Text}
use pipetest.Base.Visits.{vis_of}
use pipetest.Base.{◌≡◌, refl, ◌∙◌, ◌≤◌, true, List, [], Option, none, some, is_some, arith, length}
use pipetest.Compiler.Inherit.Chain.{Inherits, IsMerge, Fits, Entered, resolve_all-AdvanceAll}
use pipetest.Compiler.Inherit.{pass_request_inheritance}
use pipetest.Compiler.State.{Compiler}

-- The pass ends. It changes nothing but the effective lines and the diagnostics, which only grow.
-- Every effective entry is a merge of two lists of lines. If no diagnostic was added, every request
-- has effective lines, and they are those that it inherits along its chain of parents, which
-- therefore ends.
pub record Inherited (c c' : Compiler) : Type 0 where
  pub same_reqs : c'.reqs ≡ c.reqs
  pub same_rest :
      (c'.entry_path ≡ c.entry_path)
      × (c'.modules ≡ c.modules)
      × (c'.globals ≡ c.globals)
      × (c'.ordered ≡ c.ordered)
      × (c'.plan ≡ c.plan)
  pub grows : length c.diags ≤ length c'.diags
  pub merges : (k : Text) (ls : List ReqLine) → lookup k c'.eff_reqs ≡ some ls → IsMerge ls
  pub entries :
      length c'.diags ≡ length c.diags
      → (k : Text) → is_some (lookup k c.reqs) ≡ true
      → (ls : List ReqLine) × (lookup k c'.eff_reqs ≡ some ls) × Inherits c.reqs k ls

some_of : {A : Type 0} (o : Option A) → is_some o ≡ true → (a : A) × (o ≡ some a)
some_of none h = cc
some_of (some a) h = (a, refl)

start-Fits : (c : Compiler) → Fits c.reqs (record { eff_reqs = []; state = []; diags = c.diags })
unfolding lookup vis_of
start-Fits c = record {
  on_stack_known = λ k h. cc;
  done_entered = λ k h. cc;
  small = λ k. omega arith;
  all_merged = λ k ls e. cc;
}

start-Entered :
    (c : Compiler) → Entered c.reqs (record { eff_reqs = []; state = []; diags = c.diags })
unfolding lookup
start-Entered c k ls e = cc

-- passRequestInheritance ends, changes only the effective lines and the diagnostics, which do
-- not shrink, and enters only merged lines; if it adds no diagnostic, every request has
-- effective lines, and they are those inherited along its chain of parents, which ends.
pub pass_request_inheritance_resolves :
    (c : Compiler) → Returns (Inherited c) (pass_request_inheritance c)
unfolding pass_request_inheritance
pass_request_inheritance_resolves c =
    Returns-bind _ (resolve_all-AdvanceAll c.reqs _ _ (start-Fits c)) λ r a. returns (record {
      same_reqs = refl;
      same_rest = (refl, refl, refl, refl, refl);
      grows = a.reports;
      merges = a.fits.all_merged;
      entries = λ q k known.
          let (ls, e) = some_of (lookup k r.eff_reqs) (
            a.has_entries q k (member-sort_by k (keys c.reqs) ∙ member-keys k c.reqs ∙ known)
              known) in
          (ls, e, a.quiet q (start-Entered c) k ls e);
    })
