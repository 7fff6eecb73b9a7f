-- ===== src/Command/Exits.antt =====
-- The exit code of `eval`.
use pipetest.Base.Assoc.{lookup}
use pipetest.Base.Order.{sort_by}
use pipetest.Base.Outcome.{Outcome, ok, Returns, returns, Returns-value, ◌>>=◌}
use pipetest.Base.Text.{Text, text, text_eq}
use pipetest.Base.{
  ◌≡◌, ◌↔◌, refl, sym, ◌∙◌, true, Option, none, some, List, [], ◌∷◌, is_some, arith, Bool-cases,
  inl, inr,
}
use pipetest.Command.{
  Loaded, compiled, compile_unless, compile_program, is_format, print_command_result, Output, Exit,
  exit_code, conclude, eval_command,
}
use pipetest.Compiler.Plan.Total.{IsAnswer, compile_answers}
use pipetest.Compiler.Plan.{compile, add_modules}
use pipetest.Compiler.State.{Module, Plan, normalize_path}
use pipetest.Diagnostics.Output.{sort_and_dedupe-nonempty}
use pipetest.Diagnostics.{Diagnostic, sort_and_dedupe}

-- `Compile` gives a plan and no diagnostic.
abbrev pub Compiles : Text → List Module → Type 0
Compiles entry modules = (p : Plan) × (compile entry modules ≡ ok (some p, []))

print-some :
    (cmd format : Text) (ds : List Diagnostic)
    → is_format format ≡ true
    → is_some (print_command_result cmd format ds none) ≡ true
unfolding print_command_result is_format
print-some cmd format ds h = elim (Bool-cases (text_eq format (text "pretty"))) [
  | inl e ↦ rw e refl
  | inr e ↦ let f : text_eq format (text "json") ≡ true = ground (arith, h, e) in rw (e, f) refl
]

exit_code-zero :
    (o : Option Output) (ds : List Diagnostic) → is_some o ≡ true → (exit_code o ds ≡ 0) ↔ (ds ≡ [])
exit_code-zero none ds h = absurd (cc)
exit_code-zero (some o) [] h = (λ _. refl, λ _. refl)
exit_code-zero (some o) (d ∷ ds) h = (λ e. absurd (omega (arith, e)), λ e. absurd (cc))

conclude-zero :
    (cmd format : Text) (ds : List Diagnostic)
    → is_format format ≡ true
    → ((conclude cmd format (sort_and_dedupe ds) none).code ≡ 0) ↔ (sort_and_dedupe ds ≡ [])
unfolding conclude
conclude-zero cmd format ds h =
    exit_code-zero (print_command_result cmd format (sort_and_dedupe ds) none) (sort_and_dedupe ds)
      (print-some cmd format (sort_and_dedupe ds) h)

bind_known :
    {A B : Type 0} {P : B → Type 0} {m : Outcome A} {a : A} (f : A → Outcome B)
    → m ≡ ok a
    → Returns P (f a)
    → Returns P (m >>= f)
bind_known f e h = rw e h

compile_known :
    {m : Outcome (Option Plan × List Diagnostic)} {r : Option Plan × List Diagnostic}
    → m ≡ ok r
    → (m >>= λ r. ok (compiled r)) ≡ ok (compiled r)
compile_known e = rw e refl

no_diags : sort_and_dedupe [] ≡ []
unfolding sort_and_dedupe sort_by
no_diags = refl

module _ (format entry : Text) (modules : List Module) (valid : is_format format ≡ true) where
  -- The exit of `eval` on what `compileProgram` gives.
  abbrev eval_exit : Option Plan × List Diagnostic → Exit
  eval_exit r = conclude (text "eval") format (sort_and_dedupe r.1) none

  compiled_exit :
      (r : Option Plan × List Diagnostic)
      → compile entry modules ≡ ok r
      → IsAnswer r
      → ((eval_exit (compiled r)).code ≡ 0) ↔ Compiles entry modules
  compiled_exit (none, []) e a = absurd a
  compiled_exit (some p, d ∷ ds) e a = absurd a
  compiled_exit (some p, []) e a =
      (λ _. (p, e), λ _. (conclude-zero (text "eval") format [] valid).1 no_diags)
  compiled_exit (none, d ∷ ds) e a = (
    λ z.
        absurd
          (sort_and_dedupe-nonempty d ds ((conclude-zero (text "eval") format (d ∷ ds) valid).0 z)),
    λ c. absurd (let f = sym e ∙ c.1 in cc),
  )

  exit_of :
      (ds : List Diagnostic)
      → is_some (lookup (normalize_path entry) (add_modules modules [])) ≡ true
      → Returns
          (λ x. (x.code ≡ 0) ↔ ((ds ≡ []) × Compiles entry modules))
          (compile_unless ds entry modules >>= λ r. ok (eval_exit r))
  exit_of [] l =
      let (r, e, a) = Returns-value (compile_answers entry modules l) in
      let i = compiled_exit r e a in
      let g : compile_unless [] entry modules ≡ ok (compiled r) = compile_known e in
      bind_known (λ r. ok (eval_exit r)) g (returns (λ z. (refl, i.0 z), λ c. i.1 c.1))
  exit_of (d ∷ ds) l = returns (
    λ z.
        absurd
          (sort_and_dedupe-nonempty d ds ((conclude-zero (text "eval") format (d ∷ ds) valid).0 z)),
    λ c. absurd (let f = c.0 in cc),
  )

-- With a format that is known and the entry module among those loaded, eval returns, and its exit code is 0
-- exactly when loading gave no diagnostic and Compile gives a plan and no diagnostic.
pub eval_command-code :
    (format entry : Text) (loaded : Loaded)
    → is_format format ≡ true
    → is_some (lookup (normalize_path entry) (add_modules loaded.modules [])) ≡ true
    → Returns
        (λ x. (x.code ≡ 0) ↔ ((loaded.diags ≡ []) × Compiles entry loaded.modules))
        (eval_command format entry loaded)
unfolding eval_command compile_program
eval_command-code format entry loaded h l =
    rw h (exit_of format entry loaded.modules h loaded.diags l)
