-- ===== src/Command.antt =====
-- cmd/pipetest/main.go: what the command line makes of a program. Reading the files is not modelled: the
-- modules that are loaded, and the diagnostics of that, are given.
pub mod Exits
use pipetest.Base.Outcome.{Outcome, ok, ◌>>=◌}
use pipetest.Base.Text.{Text, text, text_eq}
use pipetest.Base.{
  ℕ, Bool, true, false, Option, none, some, List, [], ◌∷◌, ◌++◌, if◌then◌else◌, ◌||◌, length,
}
use pipetest.Compiler.Plan.{compile}
use pipetest.Compiler.State.{Module, Plan}
use pipetest.Diagnostics.{Diagnostic, Related, itoa, sort_and_dedupe}
use pipetest.Report.{Model}

-- What `loadModules` gives.
pub record Loaded : Type 0 where
  pub modules : List Module
  pub diags : List Diagnostic

abbrev pub compiled : Option Plan × List Diagnostic → Option Plan × List Diagnostic
compiled (plan, []) = (plan, [])
compiled (plan, d ∷ ds) = (none, d ∷ ds)

abbrev pub compile_unless :
    List Diagnostic → Text → List Module → Outcome (Option Plan × List Diagnostic)
compile_unless [] entry modules = compile entry modules >>= λ r. ok (compiled r)
compile_unless (d ∷ ds) entry modules = ok (none, d ∷ ds)

unfoldable pub compile_program : Text → Loaded → Outcome (Option Plan × List Diagnostic)
unfolding compile
compile_program entry loaded = compile_unless loaded.diags entry loaded.modules

unfoldable pub is_format : Text → Bool
unfolding text text_eq
is_format format = text_eq format (text "pretty") || text_eq format (text "json")

unfoldable pub is_hidden_pretty_diagnostic : Diagnostic → Bool
unfolding text text_eq
is_hidden_pretty_diagnostic d = text_eq d.code (text "E_ASSERT_EXPECTED_TRUE")

unfoldable pub place : Text → ℕ → ℕ → Text → Text
unfolding itoa text
place file line column message =
    file ++ b':' ∷ (itoa line ++ b':' ∷ (itoa column ++ b' ' ∷ (message ++ text "\n")))

abbrev pub hint_line : Text → Text
hint_line [] = []
hint_line (b ∷ bs) = text "  hint: " ++ ((b ∷ bs) ++ text "\n")

abbrev pub related_line : Option Related → Text
related_line none = []
related_line (some r) = text "  related: " ++ place r.file r.line r.column r.message

unfoldable pub pretty_diagnostic : Diagnostic → Text
unfolding is_hidden_pretty_diagnostic place text
pretty_diagnostic d =
    if is_hidden_pretty_diagnostic d
    then []
    else text "ERROR "
      ++ (d.code
          ++ b' '
            ∷ (place d.file d.line d.column d.message
                ++ (hint_line d.hint ++ related_line d.related)))

unfoldable pub pretty_diagnostics : List Diagnostic → Text
unfolding pretty_diagnostic
pretty_diagnostics [] = []
pretty_diagnostics (d ∷ ds) = pretty_diagnostic d ++ pretty_diagnostics ds

abbrev pub summary_line : Option Model → Text
summary_line none = []
summary_line (some m) =
    text "flows="
    ++ (itoa (length m.suites)
        ++ (text " tests="
            ++ (itoa m.summary.tests
                ++ (text " failures="
                    ++ (itoa m.summary.failures
                        ++ (text " errors=" ++ (itoa m.summary.errors ++ text "\n")))))))

abbrev pub ok_line : List Diagnostic → Text → Text
ok_line [] cmd = if text_eq cmd (text "eval") then text "OK\n" else []
ok_line (d ∷ ds) cmd = []

abbrev pub is_ok : List Diagnostic → Bool
is_ok [] = true
is_ok (d ∷ ds) = false

-- What is encoded as JSON.
pub record Payload : Type 0 where
  pub command : Text
  pub ok_flag : Bool
  pub diagnostics : List Diagnostic
  pub error_count : ℕ
  pub report : Option Model

pub data Output : Type 0 where
  pretty_output : Text → Output
  json_output : Payload → Output

-- `printCommandResult`, none for its error
unfoldable pub print_command_result : Text → Text → List Diagnostic → Option Model → Option Output
unfolding pretty_diagnostics itoa text text_eq
print_command_result cmd format diags model =
    if text_eq format (text "pretty")
    then some
        (pretty_output (pretty_diagnostics diags ++ (summary_line model ++ ok_line diags cmd)))
    else (if text_eq format (text "json")
        then some (
            json_output (record {
              command = cmd;
              ok_flag = is_ok diags;
              diagnostics = diags;
              error_count = length diags;
              report = model;
            }))
        else none)

-- The exit code, and what is printed before.
pub record Exit : Type 0 where
  pub code : ℕ
  pub output : Option Output

-- The end of a command: its result is printed, and the code is 1 when there are diagnostics.
abbrev pub exit_code : Option Output → List Diagnostic → ℕ
exit_code none diags = 1
exit_code (some o) [] = 0
exit_code (some o) (d ∷ ds) = 1

unfoldable pub conclude : Text → Text → List Diagnostic → Option Model → Exit
unfolding print_command_result
conclude cmd format diags model =
    let o = print_command_result cmd format diags model in
    record { code = exit_code o diags; output = o }

-- The command `eval`.
unfoldable pub eval_command : Text → Text → Loaded → Outcome Exit
unfolding is_format compile_program conclude sort_and_dedupe
eval_command format entry loaded =
    if is_format format
    then (compile_program entry loaded >>= λ r.
        ok (conclude (text "eval") format (sort_and_dedupe r.1) none))
    else ok (record { code = 2; output = none })
