-- ===== src/Compiler/Imports.antt =====
-- `passImports`: the depth-first walk over the import graph.
pub mod Fuel
use pipetest.Ast.{Program, Stmt, ImportStmt, import_stmt, zero_span}
use pipetest.Base.Assoc.{lookup, insert}
use pipetest.Base.FilePath.{dir, join}
use pipetest.Base.Order.{sort_by}
use pipetest.Base.Outcome.{Outcome, ok, out_of_fuel, ◌>>=◌}
use pipetest.Base.Text.{Text, text, text_lt}
use pipetest.Base.Visits.{vis_of}
use pipetest.Base.{ℕ, zero, suc, List, [], ◌∷◌, ◌++◌, none, some, if◌then◌else◌, ◌==◌, length}
use pipetest.Compiler.State.{Compiler, diag_at, normalize_path, stmts_at}
use pipetest.Diagnostics.{Diagnostic}

-- What the walk changes: `vis`, `c.ordered` and `c.diags`.
pub record ImportWalk : Type 0 where
  pub vis : List (Text × ℕ)
  pub ordered : List Text
  pub diags : List Diagnostic

unfoldable pub import_target : Text → ImportStmt → Text
unfolding normalize_path dir join
import_target path imp = normalize_path (join (dir path) imp.path.value)

unfoldable pub not_found : Text → ImportStmt → Diagnostic
unfolding diag_at text
not_found path imp =
    diag_at (text "E_IMPORT_NOT_FOUND") (text "import not found: " ++ imp.path.value) path imp.span
      (text "load the imported file")

unfoldable pub import_cycle : Text → Diagnostic
unfolding diag_at text
import_cycle path =
    diag_at (text "E_IMPORT_CYCLE") (text "import cycle detected") path zero_span
      (text "remove circular imports")

abbrev pub enter : Text → ImportWalk → ImportWalk
enter path w = record w { vis = insert path 1 w.vis }

abbrev pub leave : Text → ImportWalk → ImportWalk
leave path w = record w { vis = insert path 2 w.vis; ordered = w.ordered ++ path ∷ [] }

module _ (modules : List (Text × Program)) where
  -- One import of the module at `path`; `dfs` is the recursive call.
  unfoldable pub import_one :
      (Text → ImportWalk → Outcome ImportWalk) → Text → ImportStmt → ImportWalk → Outcome ImportWalk
  unfolding import_target not_found lookup
  import_one dfs path imp w = elim (lookup (import_target path imp) modules) [
    | none ↦ ok (record w { diags = w.diags ++ not_found path imp ∷ [] })
    | some _ ↦ dfs (import_target path imp) w
  ]

  -- The loop over the statements.
  unfoldable pub each_import :
      (Text → ImportWalk → Outcome ImportWalk) → Text → List Stmt → ImportWalk → Outcome ImportWalk
  unfolding import_one
  each_import dfs path [] w = ok w
  each_import dfs path (import_stmt imp ∷ stmts) w =
      import_one dfs path imp w >>= λ w'. each_import dfs path stmts w'
  each_import dfs path (_ ∷ stmts) w = each_import dfs path stmts w

  -- `dfs(path)`, with one unit of fuel for each level of the stack.
  unfoldable pub import_dfs : ℕ → Text → ImportWalk → Outcome ImportWalk
  unfolding vis_of import_cycle stmts_at each_import insert
  import_dfs zero path w = out_of_fuel
  import_dfs (suc fuel) path w =
      let walk = stmts_at modules path >>= λ stmts.
      each_import (import_dfs fuel) path stmts (enter path w) >>= λ w'. ok (leave path w') in
      if vis_of path w.vis == 1
      then ok (record w { diags = w.diags ++ import_cycle path ∷ [] })
      else if vis_of path w.vis == 2
      then ok w
      else walk

unfoldable pub entry_not_found : Text → Diagnostic
unfolding diag_at text
entry_not_found path =
    diag_at (text "E_IMPORT_NOT_FOUND") (text "entry module not found") path zero_span
      (text "ensure the entry file is loaded")

unfoldable pub pass_imports : Compiler → Outcome Compiler
unfolding import_dfs entry_not_found lookup sort_by
pass_imports c = elim (lookup c.entry_path c.modules) [
  | none ↦ ok (record c { diags = c.diags ++ entry_not_found c.entry_path ∷ [] })
  | some _ ↦
      import_dfs c.modules (suc (length c.modules)) c.entry_path
        (record { vis = []; ordered = c.ordered; diags = c.diags })
      >>= λ w. ok (record c { ordered = sort_by text_lt w.ordered; diags = w.diags })
]
