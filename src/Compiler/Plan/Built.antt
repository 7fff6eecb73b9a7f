-- ===== src/Compiler/Plan/Built.antt =====
-- What `buildPlan` puts in the plan.
use pipetest.Ast.{
  SettingKind, setting_base, setting_timeout, Expr, string_lit, duration_lit, Stmt, FlowDecl,
  ReqLine, http_line, json_directive, header_directive, query_directive, auth_directive, hook_block,
  assert_stmt, let_line, flow_decl, setting_stmt, import_stmt, let_stmt, req_decl,
}
use pipetest.Base.{
  ◌≡◌, refl, ◌∙◌, ◌<◌, List, [], ◌∷◌, ◌++◌, is_some, true, arith, length, In, here, there,
  not-In-nil,
}
use pipetest.Compiler.Merge.Select.{select, as_http}
use pipetest.Compiler.Plan.{set_setting, plan_settings, first_http, plan_flow, plan_flows}
use pipetest.Compiler.State.{Plan, PlanFlow}

set_setting-keeps :
    (k : SettingKind) (e : Expr) (p : Plan)
    → ((set_setting k e p).requests ≡ p.requests) × ((set_setting k e p).flows ≡ p.flows)
set_setting-keeps setting_base (string_lit _ _ _) p = (refl, refl)
set_setting-keeps setting_timeout (duration_lit _ _) p = (refl, refl)
set_setting-keeps _ _ p = (refl, refl)

pub plan_settings-keeps :
    (ss : List Stmt) (p : Plan)
    → ((plan_settings ss p).requests ≡ p.requests) × ((plan_settings ss p).flows ≡ p.flows)
unfolding plan_settings
plan_settings-keeps [] p = (refl, refl)
plan_settings-keeps (setting_stmt s ∷ ss) p =
    let (a, b) = plan_settings-keeps ss (set_setting s.kind s.value p) in
    let (c, d) = set_setting-keeps s.kind s.value p in (a ∙ c, b ∙ d)
plan_settings-keeps (let_stmt s ∷ ss) p =
    plan_settings-keeps ss (record p { globals = p.globals ++ s ∷ [] })
plan_settings-keeps (import_stmt s ∷ ss) p = plan_settings-keeps ss p
plan_settings-keeps (req_decl s ∷ ss) p = plan_settings-keeps ss p
plan_settings-keeps (flow_decl s ∷ ss) p = plan_settings-keeps ss p

pub plan_flows-In :
    (ss : List Stmt) (f : PlanFlow)
    → In f (plan_flows ss)
    → (flow : FlowDecl) × In (flow_decl flow) ss × (f ≡ plan_flow flow)
unfolding plan_flows
plan_flows-In [] f m = absurd (not-In-nil m)
plan_flows-In (flow_decl flow ∷ ss) f (here e) = (flow, here refl, e)
plan_flows-In (flow_decl flow ∷ ss) f (there m) =
    let (g, n, e) = plan_flows-In ss f m in (g, there n, e)
plan_flows-In (setting_stmt s ∷ ss) f m = let (g, n, e) = plan_flows-In ss f m in (g, there n, e)
plan_flows-In (import_stmt s ∷ ss) f m = let (g, n, e) = plan_flows-In ss f m in (g, there n, e)
plan_flows-In (let_stmt s ∷ ss) f m = let (g, n, e) = plan_flows-In ss f m in (g, there n, e)
plan_flows-In (req_decl s ∷ ss) f m = let (g, n, e) = plan_flows-In ss f m in (g, there n, e)

pub first_http-some :
    (ls : List ReqLine) → 0 < length (select as_http ls) → is_some (first_http ls) ≡ true
unfolding first_http select
first_http-some [] h = absurd (omega (arith, h))
first_http-some (http_line l ∷ ls) h = refl
first_http-some (json_directive l ∷ ls) h = first_http-some ls h
first_http-some (header_directive l ∷ ls) h = first_http-some ls h
first_http-some (query_directive l ∷ ls) h = first_http-some ls h
first_http-some (auth_directive l ∷ ls) h = first_http-some ls h
first_http-some (hook_block l ∷ ls) h = first_http-some ls h
first_http-some (assert_stmt l ∷ ls) h = first_http-some ls h
first_http-some (let_line l ∷ ls) h = first_http-some ls h
