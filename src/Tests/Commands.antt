-- ===== src/Tests/Commands.antt =====
-- The command line on the sample program.
use pipetest.Base.Assoc.{lookup}
use pipetest.Base.Outcome.{Returns}
use pipetest.Base.Text.{text}
use pipetest.Base.{◌≡◌, ◌↔◌, refl, true, none, some, [], is_some}
use pipetest.Command.Exits.{Compiles, eval_command-code}
use pipetest.Command.{Loaded, eval_command, is_format, pretty_output, conclude}
use pipetest.Compiler.Plan.{add_modules}
use pipetest.Compiler.State.{normalize_path}
use pipetest.Tests.Samples.{modules}

abbrev loaded : Loaded
loaded = record { modules = modules; diags = [] }

loaded_entry :
    is_some (lookup (normalize_path (text "./shop.pt")) (add_modules loaded.modules [])) ≡ true
unfolding lookup normalize_path add_modules text
loaded_entry = refl

pretty_known : is_format (text "pretty") ≡ true
unfolding is_format text
pretty_known = refl

eval_command-code_example :
    Returns
      (λ x. (x.code ≡ 0) ↔ ((loaded.diags ≡ []) × Compiles (text "./shop.pt") loaded.modules))
      (eval_command (text "pretty") (text "./shop.pt") loaded)
eval_command-code_example =
    eval_command-code (text "pretty") (text "./shop.pt") loaded pretty_known loaded_entry

eval_no_diags :
    (conclude (text "eval") (text "pretty") [] none).output ≡ some (pretty_output (text "OK\n"))
unfolding conclude text
eval_no_diags = refl
