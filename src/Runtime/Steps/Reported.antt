-- ===== src/Runtime/Steps/Reported.antt =====
-- The name of a step in the diagnostics of the runtime, and its name in the report.
use pipetest.Ast.{FlowStep}
use pipetest.Base.Text.{Text, text_eq, text_eq_iff, text_eq_refl}
use pipetest.Base.{
  ◌≡◌, ◌≢◌, ◌↔◌, refl, sym, ap, ℕ, Option, none, some, [], ◌∷◌, ◌++◌, length, length-append, arith,
  Bool-cases, inl, inr, ◌||◌, if◌then◌else◌,
}
use pipetest.Compiler.Flows.{alias_or}
use pipetest.Compiler.Plan.{plan_step}
use pipetest.Report.{canonical, with_alias}
use pipetest.Runtime.Steps.{step_display_name, is_empty}

-- An alias, if there is one, is not empty and is not the name of the request.
abbrev pub HasOwnAlias : FlowStep → Type 0
HasOwnAlias step = (a : Text) → step.alias ≡ some a → (a ≢ []) × (a ≢ step.req_name)

shown : Text → Text → Text
shown name binding =
    if is_empty binding || text_eq binding name then name else name ++ b':' ∷ binding

not_itself : (xs : Text) (b : ℕ) (ys : Text) → xs ≢ xs ++ b ∷ ys
not_itself xs b ys e = omega (arith, ap (λ zs. length {0} zs) e, length-append {0} xs (b ∷ ys))

alias_shown : (name a : Text) → (shown name a ≡ name ++ b':' ∷ a) ↔ ((a ≢ []) × (a ≢ name))
unfolding shown is_empty
alias_shown name [] = (λ e. absurd (not_itself name b':' [] e), λ h. absurd (h.0 refl))
alias_shown name (x ∷ a) = elim (Bool-cases (text_eq (x ∷ a) name)) [
  | inl e ↦ rw e (
    λ f. absurd (not_itself name b':' (x ∷ a) f),
    λ h. absurd (h.1 ((text_eq_iff (x ∷ a) name).0 e)),
  )
  | inr e ↦ rw e (
    λ _. (λ z. absurd (cc), λ z. absurd (ground (arith, e, (text_eq_iff (x ∷ a) name).1 z))),
    λ _. refl,
  )
]

own_name : (name : Text) → shown name name ≡ name
unfolding shown
own_name name = elim (Bool-cases (is_empty name)) [
  | inl e ↦ rw e refl
  | inr e ↦ rw (e, text_eq_refl name) refl
]

option_shown :
    (name : Text) (o : Option Text)
    → (shown name (alias_or o name) ≡ with_alias name o)
      ↔ ((a : Text) → o ≡ some a → (a ≢ []) × (a ≢ name))
option_shown name none = (λ _ a e. absurd (cc), λ _. own_name name)
option_shown name (some b) = (
  λ e a f. let g : b ≡ a = cc in rw (sym g) ((alias_shown name b).0 e),
  λ h. (alias_shown name b).1 (h b refl),
)

-- The name under which the runtime reports a step of a compiled flow is the one under which the
-- report looks for it, exactly when the step has no alias or one that is not empty and not the
-- request's name.
pub step_display_name-canonical :
    (step : FlowStep) → (step_display_name (plan_step step) ≡ canonical step) ↔ HasOwnAlias step
unfolding step_display_name shown
step_display_name-canonical step = option_shown step.req_name step.alias
