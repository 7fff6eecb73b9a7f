-- ===== src/Compiler/Flows/Chain.antt =====
-- What a flow has for which `passFlows` appends no diagnostic.
use pipetest.Ast.{
  FlowDecl, FlowStep, AssertStmt, ReqLine, Stmt, flow_decl, setting_stmt, import_stmt, let_stmt,
  req_decl,
}
use pipetest.Base.Assoc.{lookup, member, member-append}
use pipetest.Base.Text.{Text, text_eq_iff}
use pipetest.Base.{
  ◌≡◌, ◌≢◌, refl, sym, ◌∙◌, ap, ◌+◌, ◌≤◌, true, false, ◌||◌, List, [], ◌∷◌, ◌++◌, is_some,
  Bool-cases, Option-cases, inl, inr, arith, length, length-append, All, All-map, In, here, there,
  not-In-nil, Pairwise,
}
use pipetest.Compiler.Flows.{
  FlowScope, binding_of, bind_step, check_required, undefined_variable, define_prelude, check_step,
  check_chain, unknown_binding, check_idents, check_asserts, chain_diags, flows_diags,
  unknown_request, duplicate_binding, report,
}
use pipetest.Compiler.Idents.{collect_expr_idents}
use pipetest.Compiler.Vars.{required_vars}
use pipetest.Compiler.State.{Compiler, ReqInfo, lines_of}
use pipetest.Diagnostics.{Diagnostic}

-- The diagnostics only grow.
abbrev Grows : FlowScope → FlowScope → Type 0
Grows s s' = length s.diags ≤ length s'.diags

report-Grows : (d : Diagnostic) (s : FlowScope) → length (report d s).diags ≡ length s.diags + 1
report-Grows d s = omega (arith, length-append {0} s.diags (d ∷ []))

check_required-Grows :
    (req : ReqInfo) (lines : List ReqLine) (names : List Text) (s : FlowScope)
    → Grows s (check_required req lines names s)
      × ((check_required req lines names s).bindings ≡ s.bindings)
unfolding check_required
check_required-Grows req lines [] s = (omega arith, refl)
check_required-Grows req lines (name ∷ names) s = elim (Bool-cases (member name s.defined)) [
  | inl e ↦ rw (e, check_required) (check_required-Grows req lines names s)
  | inr e ↦
      rw (e, check_required)
        (let d = undefined_variable req lines name in
          let (g, b) = check_required-Grows req lines names (report d s) in
          (omega (arith, g, report-Grows d s), b))
]

check_idents-Grows :
    (c : Compiler) (as' : AssertStmt) (idents : List Text) (s : FlowScope)
    → Grows s (check_idents c as' idents s)
unfolding check_idents
check_idents-Grows c as' [] s = omega arith
check_idents-Grows c as' (ident ∷ idents) s =
    elim (Bool-cases (member ident s.defined || member ident s.bindings)) [
      | inl e ↦ rw (e, check_idents) (check_idents-Grows c as' idents s)
      | inr e ↦
          rw (e, check_idents)
            (let d = unknown_binding c as' ident in
              omega (arith, report-Grows d s, check_idents-Grows c as' idents (report d s)))
    ]

check_asserts-Grows :
    (c : Compiler) (asserts : List AssertStmt) (s : FlowScope) → Grows s (check_asserts c asserts s)
unfolding check_asserts
check_asserts-Grows c [] s = omega arith
check_asserts-Grows c (as' ∷ rest) s =
    let t = check_idents c as' (collect_expr_idents as'.expr) s in
    omega (
      arith,
      check_idents-Grows c as' (collect_expr_idents as'.expr) s,
      check_asserts-Grows c rest t,
    )

-- A step that adds no diagnostic.
record Quiet (c : Compiler) (step : FlowStep) (s s' : FlowScope) : Type 0 where
  known : is_some (lookup step.req_name c.reqs) ≡ true
  fresh : member (binding_of step) s.bindings ≡ false
  bound : s'.bindings ≡ s.bindings ++ binding_of step ∷ []

bind_step-Grows : (c : Compiler) (step : FlowStep) (s : FlowScope) → Grows s (bind_step c step s)
unfolding bind_step
bind_step-Grows c step s = ground (arith, report-Grows (duplicate_binding c step) s)

bind_step-quiet :
    (c : Compiler) (step : FlowStep) (s : FlowScope)
    → length (bind_step c step s).diags ≡ length s.diags
    → (member (binding_of step) s.bindings ≡ false)
      × ((bind_step c step s).bindings ≡ s.bindings ++ binding_of step ∷ [])
unfolding bind_step
bind_step-quiet c step s h = elim (Bool-cases (member (binding_of step) s.bindings)) [
  | inl e ↦ absurd (ground (arith, h, e, report-Grows (duplicate_binding c step) s))
  | inr e ↦ (e, rw (e, bind_step) refl)
]

-- The diagnostics grow, and the step is quiet if there are no more.
check_step_cases :
    (c : Compiler) (step : FlowStep) (s : FlowScope)
    → Grows s (check_step c step s)
      × (length (check_step c step s).diags ≡ length s.diags → Quiet c step s (check_step c step s))
unfolding check_step
check_step_cases c step s = elim (Option-cases (lookup step.req_name c.reqs)) [
  | inl e ↦
      rw (e, check_step)
        (
          omega (arith, report-Grows (unknown_request c step) s),
          λ h. absurd (omega (arith, h, report-Grows (unknown_request c step) s)),
        )
  | inr (req, e) ↦
      rw (e, check_step)
        (let lines = lines_of step.req_name c.eff_reqs in
          let b = bind_step c step s in
          let (g, keeps) = check_required-Grows req lines (required_vars lines) b in
          let bg = bind_step-Grows c step s in
          (
            omega (arith, g, bg),
            λ h.
                let (f, x) = bind_step-quiet c step s (omega (arith, h, g, bg)) in
                record { known = rw e refl; fresh = f; bound = keeps ∙ x },
          ))
]

check_chain-Grows :
    (c : Compiler) (steps : List FlowStep) (s : FlowScope) → Grows s (check_chain c steps s)
unfolding check_chain
check_chain-Grows c [] s = omega arith
check_chain-Grows c (step ∷ steps) s =
    omega (arith, (check_step_cases c step s).0, check_chain-Grows c steps (check_step c step s))

-- The steps name requests, under bindings that differ from each other and from those of `s`.
record StepsFit (c : Compiler) (bindings : List Text) (steps : List FlowStep) : Type 0 where
  all_known : All (λ st. is_some (lookup st.req_name c.reqs) ≡ true) steps
  all_fresh : All (λ st. member (binding_of st) bindings ≡ false) steps
  all_distinct : Pairwise (λ a b. binding_of a ≢ binding_of b) steps

fresh_of_append :
    (b k : Text) (bindings : List Text)
    → member k (bindings ++ b ∷ []) ≡ false
    → (member k bindings ≡ false) × (b ≢ k)
unfolding member
fresh_of_append b k bindings h =
    let e = member-append k bindings (b ∷ []) in
    (ground (arith, e, h), λ p. absurd (ground (arith, e, h, text_eq_iff b k, p)))

check_chain-fits :
    (c : Compiler) (steps : List FlowStep) (s : FlowScope)
    → length (check_chain c steps s).diags ≡ length s.diags
    → StepsFit c s.bindings steps
unfolding check_chain
check_chain-fits c [] s h = record { all_known = _; all_fresh = _; all_distinct = _ }
check_chain-fits c (step ∷ steps) s h =
    let s' = check_step c step s in
    let (g, quiet) = check_step_cases c step s in
    let g' = check_chain-Grows c steps s' in
    let q = quiet (omega (arith, g, g', h)) in
    let f = check_chain-fits c steps s' (omega (arith, g, g', h)) in
    let fresh =
      All-map steps
        (λ st m.
          fresh_of_append (binding_of step) (binding_of st) s.bindings
            (ap (member (binding_of st)) (sym q.bound) ∙ m))
        f.all_fresh in
    record {
      all_known = (q.known, f.all_known);
      all_fresh = (q.fresh, All-map steps (λ st m. m.0) fresh);
      all_distinct = (All-map steps (λ st m. m.1) fresh, f.all_distinct);
    }

-- A flow of a compiled program: a chain that is not empty, of known requests, under bindings that
-- differ.
pub record FlowFits (reqs : List (Text × ReqInfo)) (flow : FlowDecl) : Type 0 where
  pub not_empty : flow.chain ≢ []
  pub known : All (λ st. is_some (lookup st.req_name reqs) ≡ true) flow.chain
  pub distinct : Pairwise (λ a b. binding_of a ≢ binding_of b) flow.chain

chain_diags-fits :
    (c : Compiler) (flow : FlowDecl) (chain : List FlowStep)
    → flow.chain ≡ chain
    → length (chain_diags c flow chain) ≡ 0
    → FlowFits c.reqs flow
unfolding chain_diags
chain_diags-fits c flow [] e h = absurd (omega (arith, h))
chain_diags-fits c flow (step ∷ steps) e h =
    let start : FlowScope = record {
      bindings = [];
      defined = define_prelude flow.prelude c.globals;
      diags = [];
    } in
    let after = check_chain c (step ∷ steps) start in
    let f =
      check_chain-fits c (step ∷ steps) start
        (omega (arith, h, check_asserts-Grows c flow.asserts after)) in
    record {
      not_empty = λ n. absurd (cc);
      known = rw e f.all_known;
      distinct = rw e f.all_distinct;
    }

-- If `passFlows` appends nothing, every flow of the entry module fits.
pub flows_diags-fits :
    (c : Compiler) (stmts : List Stmt)
    → length (flows_diags c stmts) ≡ 0
    → (flow : FlowDecl) → In (flow_decl flow) stmts
    → FlowFits c.reqs flow
unfolding flows_diags
flows_diags-fits c [] h flow m = absurd (not-In-nil m)
flows_diags-fits c (flow_decl f ∷ ss) h flow (here e) =
    let same : flow ≡ f = cc in
    rw same (
      chain_diags-fits c f f.chain refl
        (omega (arith, h, length-append {0} (chain_diags c f f.chain) (flows_diags c ss))))
flows_diags-fits c (flow_decl f ∷ ss) h flow (there m) =
    flows_diags-fits c ss
      (omega (arith, h, length-append {0} (chain_diags c f f.chain) (flows_diags c ss))) flow m
flows_diags-fits c (setting_stmt _ ∷ ss) h flow (there m) = flows_diags-fits c ss h flow m
flows_diags-fits c (import_stmt _ ∷ ss) h flow (there m) = flows_diags-fits c ss h flow m
flows_diags-fits c (let_stmt _ ∷ ss) h flow (there m) = flows_diags-fits c ss h flow m
flows_diags-fits c (req_decl _ ∷ ss) h flow (there m) = flows_diags-fits c ss h flow m
flows_diags-fits c (setting_stmt _ ∷ ss) h flow (here e) = absurd (cc)
flows_diags-fits c (import_stmt _ ∷ ss) h flow (here e) = absurd (cc)
flows_diags-fits c (let_stmt _ ∷ ss) h flow (here e) = absurd (cc)
flows_diags-fits c (req_decl _ ∷ ss) h flow (here e) = absurd (cc)
