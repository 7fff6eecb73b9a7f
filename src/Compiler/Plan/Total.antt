-- ===== src/Compiler/Plan/Total.antt =====
-- When `Compile` answers, and when it panics.
use pipetest.Ast.{Program}
use pipetest.Base.Assoc.{lookup}
use pipetest.Base.Order.{All-sort_by}
use pipetest.Base.Outcome.{Outcome, panic, ◌>>=◌, Returns, returns, Returns-bind, Returns-map}
use pipetest.Base.Text.{Text, text_lt}
use pipetest.Base.Visits.{vis_of, unmet-le-length}
use pipetest.Base.{
  ◌≡◌, ◌≢◌, refl, sym, ap, ◌∙◌, suc, true, List, [], ◌∷◌, Option, none, some, is_some, Option-cases,
  inl, inr, arith, length, All,
}
use pipetest.Compiler.Flows.{pass_flows}
use pipetest.Compiler.Imports.{pass_imports}
use pipetest.Compiler.Imports.Fuel.{IsLoaded, import_dfs-Returns}
use pipetest.Compiler.Inherit.Pass.{pass_request_inheritance_resolves}
use pipetest.Compiler.Plan.Checks.{SameInput, Checked, stmts_at-loaded, pass_flows-Returns}
use pipetest.Compiler.Plan.{
  build_plan, passes, finish, run, new_compiler, answer, compile, add_modules,
}
use pipetest.Compiler.Requests.{pass_requests}
use pipetest.Compiler.State.{Compiler, Module, Plan, stmts_at, normalize_path}
use pipetest.Compiler.Symbols.Names.{Named, symbol_stmts-Named}
use pipetest.Compiler.Symbols.{SymbolTable, symbol_stmts, symbol_modules, pass_symbols}
use pipetest.Diagnostics.{Diagnostic, sort_and_dedupe}
use pipetest.Diagnostics.Output.{sort_and_dedupe-nonempty}

record Ordered (c c' : Compiler) : Type 0 where
  input : SameInput c c'
  loaded : All (IsLoaded c.modules) c'.ordered

pass_imports-Returns :
    (c : Compiler)
    → c.ordered ≡ []
    → IsLoaded c.modules c.entry_path
    → Returns (Ordered c) (pass_imports c)
unfolding pass_imports
pass_imports-Returns c o l = elim (Option-cases (lookup c.entry_path c.modules)) [
  | inl e ↦ absurd (cc)
  | inr (prog, e) ↦
      rw (e, pass_imports)
        (Returns-bind _
          (import_dfs-Returns c.modules (suc (length c.modules)) c.entry_path
            (record { vis = []; ordered = c.ordered; diags = c.diags })
            (omega (arith, unmet-le-length [] c.modules))
            (unfold vis_of lookup in ((λ k. omega arith), rw o _)) l)
          (λ w a. returns (record {
            input = record { same_entry = refl; same_modules = refl };
            loaded = All-sort_by text_lt (IsLoaded c.modules) w.ordered a.loaded;
          })))
]

no_reqs-Named : Named []
unfolding lookup
no_reqs-Named k r e = cc

symbol_modules-Returns :
    (entry : Text) (modules : List (Text × Program)) (paths : List Text) (t : SymbolTable)
    → All (IsLoaded modules) paths
    → Named t.reqs
    → Returns (λ t'. Named t'.reqs) (symbol_modules entry modules paths t)
unfolding symbol_modules
symbol_modules-Returns entry modules [] t h n = returns n
symbol_modules-Returns entry modules (path ∷ paths) t h n =
    let (prog, e) = stmts_at-loaded modules path h.0 in
    rw e (
      symbol_modules-Returns entry modules paths (symbol_stmts entry path prog.stmts t) h.1
        (symbol_stmts-Named entry path prog.stmts t n))

pub pass_symbols-Returns :
    (c : Compiler)
    → All (IsLoaded c.modules) c.ordered
    → Returns (λ c'. SameInput c c' × Named c'.reqs) (pass_symbols c)
unfolding pass_symbols
pass_symbols-Returns c h =
    Returns-bind _
      (symbol_modules-Returns c.entry_path c.modules c.ordered
        (record { reqs = []; flow_names = []; globals = []; diags = c.diags }) h no_reqs-Named)
      (λ t n. returns (record { same_entry = refl; same_modules = refl }, n))

SameInput-trans : (a b c : Compiler) → SameInput a b → SameInput b c → SameInput a c
SameInput-trans a b c h k = record {
  same_entry = k.same_entry ∙ h.same_entry;
  same_modules = k.same_modules ∙ h.same_modules;
}

pub IsLoaded-SameInput :
    (c c' : Compiler)
    → SameInput c c'
    → IsLoaded c.modules c.entry_path
    → IsLoaded c'.modules c'.entry_path
IsLoaded-SameInput c c' s l = rw (s.same_entry, s.same_modules) l

pass_requests-SameInput : (c : Compiler) → SameInput c (pass_requests c)
unfolding pass_requests
pass_requests-SameInput c = record { same_entry = refl; same_modules = refl }

pub passes-Returns :
    (c : Compiler)
    → c.ordered ≡ []
    → IsLoaded c.modules c.entry_path
    → Returns (λ c'. SameInput c c' × Checked c') (passes c)
unfolding passes
passes-Returns c o l = Returns-bind _ (pass_imports-Returns c o l) λ c₁ s₁.
    Returns-bind _ (pass_symbols-Returns c₁ (rw s₁.input.same_modules s₁.loaded)) λ c₂ s₂.
      Returns-bind _ (pass_request_inheritance_resolves c₂) λ c₃ i.
        let s₃ : SameInput c₂ c₃ = record {
          same_entry = i.same_rest.0;
          same_modules = i.same_rest.1;
        } in
        let s = SameInput-trans c c₁ _ s₁.input (
          SameInput-trans c₁ c₂ _ s₂.0 (SameInput-trans c₂ c₃ _ s₃ (pass_requests-SameInput c₃))) in
        Returns-map
          (pass_flows-Returns c₃ (λ k r e. s₂.1 k r (ap (lookup k) (sym i.same_reqs) ∙ e))
            (IsLoaded-SameInput c _ s l))
          (λ c₄ t. (SameInput-trans c _ c₄ s t.0, t.1))

-- A plan and no diagnostics, or diagnostics and no plan.
abbrev pub IsAnswer : Option Plan × List Diagnostic → Type 0
IsAnswer (none, []) = ⊥
IsAnswer (none, d ∷ ds) = Unit
IsAnswer (some p, []) = Unit
IsAnswer (some p, d ∷ ds) = ⊥

-- Either diagnostics, or the plan that was built.
record Finished (c : Compiler) : Type 0 where
  planned : c.diags ≡ [] → is_some c.plan ≡ true

finish-Returns :
    (c : Compiler) (ds : List Diagnostic)
    → c.diags ≡ ds
    → IsLoaded c.modules c.entry_path
    → Returns Finished (finish c ds)
unfolding finish build_plan
finish-Returns c [] e l =
    let (prog, h) = stmts_at-loaded c.modules c.entry_path l in
    rw h (returns (record { planned = λ _. refl }))
finish-Returns c (d ∷ ds) e l = returns (record { planned = λ n. absurd (cc) })

IsAnswer-plan : (o : Option Plan) → is_some o ≡ true → IsAnswer (o, [])
IsAnswer-plan none h = cc
IsAnswer-plan (some p) h = _

IsAnswer-diags : (ds : List Diagnostic) → ds ≢ [] → IsAnswer (none, ds)
IsAnswer-diags [] h = h refl
IsAnswer-diags (d ∷ ds) h = _

answer-IsAnswer :
    (c : Compiler) (ds : List Diagnostic)
    → (ds ≡ [] → is_some c.plan ≡ true)
    → IsAnswer (answer c ds)
unfolding answer
answer-IsAnswer c [] h = IsAnswer-plan c.plan (h refl)
answer-IsAnswer c (d ∷ ds) h =
    IsAnswer-diags (sort_and_dedupe (d ∷ ds)) (sort_and_dedupe-nonempty d ds)

-- Where the entry module is among the modules, `Compile` returns: it does not panic and no loop of
-- it runs out of fuel. It gives a plan and no diagnostic, or no plan and at least one diagnostic.
pub compile_answers :
    (entry : Text) (modules : List Module)
    → is_some (lookup (normalize_path entry) (add_modules modules [])) ≡ true
    → Returns IsAnswer (compile entry modules)
unfolding compile run new_compiler
compile_answers entry modules l =
    Returns-bind _
      (Returns-bind _ (passes-Returns (new_compiler entry modules) refl l) λ c s.
        finish-Returns c c.diags refl (IsLoaded-SameInput (new_compiler entry modules) c s.0 l))
      λ c f. returns (answer-IsAnswer c c.diags f.planned)

-- A missing entry module gets its diagnostic from `passImports`, and the walk does not start.
imports_missing :
    (c : Compiler)
    → lookup c.entry_path c.modules ≡ none
    → c.ordered ≡ []
    → Returns (Ordered c) (pass_imports c)
unfolding pass_imports
imports_missing c e o =
    rw (e, pass_imports)
      (returns
        (record { input = record { same_entry = refl; same_modules = refl }; loaded = rw o _ }))

bind-Returns-panic :
    {A : Type 0} {B : Type 0} {P : A → Type 0} {m : Outcome A} (f : A → Outcome B)
    → Returns P m
    → ((a : A) → P a → f a ≡ panic)
    → m >>= f ≡ panic
bind-Returns-panic f (returns {a} h) k = k a h

pass_flows-panic : (c : Compiler) → lookup c.entry_path c.modules ≡ none → pass_flows c ≡ panic
unfolding pass_flows stmts_at
pass_flows-panic c e = rw (e, stmts_at) refl

passes-panic :
    (c : Compiler) → lookup c.entry_path c.modules ≡ none → c.ordered ≡ [] → passes c ≡ panic
unfolding passes
passes-panic c e o = bind-Returns-panic _ (imports_missing c e o) λ c₁ s₁.
    bind-Returns-panic _ (pass_symbols-Returns c₁ (rw s₁.input.same_modules s₁.loaded)) λ c₂ s₂.
      bind-Returns-panic _ (pass_request_inheritance_resolves c₂) λ c₃ i.
        let s₃ : SameInput c₂ c₃ = record {
          same_entry = i.same_rest.0;
          same_modules = i.same_rest.1;
        } in
        let s = SameInput-trans c c₁ _ s₁.input (
          SameInput-trans c₁ c₂ _ s₂.0 (SameInput-trans c₂ c₃ _ s₃ (pass_requests-SameInput c₃))) in
        pass_flows-panic (pass_requests c₃) (rw (s.same_entry, s.same_modules) e)

-- Where the entry module is not among the modules, `Compile` panics: the diagnostic that
-- `passImports` adds is never returned.
pub compile_panics :
    (entry : Text) (modules : List Module)
    → lookup (normalize_path entry) (add_modules modules []) ≡ none
    → compile entry modules ≡ panic
unfolding compile run new_compiler
compile_panics entry modules e = rw (passes-panic (new_compiler entry modules) e refl) refl
