-- ===== src/Compiler/Imports/Fuel.antt =====
-- The walk over the imports ends, and never reads a module that is not there.
use pipetest.Ast.{
  Program, Stmt, ImportStmt, import_stmt, setting_stmt, let_stmt, req_decl, flow_decl,
}
use pipetest.Base.Assoc.{lookup}
use pipetest.Base.Outcome.{Outcome, ok, ◌>>=◌, Returns, returns, Returns-bind, Returns-map}
use pipetest.Base.Text.{Text}
use pipetest.Base.Visits.{vis_of, vis_of-insert, unmet, unmet-insert-lt, unmet-insert-le}
use pipetest.Base.{
  ◌≡◌, refl, ℕ, zero, suc, ◌≤◌, ◌<◌, true, List, [], ◌∷◌, is_some, ◌==◌, Bool-cases, Option-cases,
  inl, inr, arith, All, All-append,
}
use pipetest.Compiler.Imports.{
  ImportWalk, import_target, import_one, each_import, enter, leave, import_dfs,
}
use pipetest.Compiler.State.{stmts_at}

module _ (modules : List (Text × Program)) where
  abbrev pub IsLoaded : Text → Type 0
  IsLoaded path = is_some (lookup path modules) ≡ true

  -- What a call of `dfs` does from `w`: the modules not met get no more, and the order holds loaded
  -- modules.
  pub record WalkFrom (w w' : ImportWalk) : Type 0 where
    pub fewer : unmet w'.vis modules ≤ unmet w.vis modules
    pub small : (k : Text) → vis_of k w'.vis ≤ 2
    pub loaded : All IsLoaded w'.ordered

  abbrev IsWalk : ImportWalk → Type 0
  IsWalk w = ((k : Text) → vis_of k w.vis ≤ 2) × All IsLoaded w.ordered

  WalkFrom-refl : (w : ImportWalk) → IsWalk w → WalkFrom w w
  WalkFrom-refl w h = record { fewer = omega arith; small = h.0; loaded = h.1 }

  WalkFrom-trans : (u v w : ImportWalk) → WalkFrom u v → WalkFrom v w → WalkFrom u w
  WalkFrom-trans u v w a b = record {
    fewer = omega (arith, a.fewer, b.fewer);
    small = b.small;
    loaded = b.loaded;
  }

  import_one-Returns :
      (dfs : Text → ImportWalk → Outcome ImportWalk) (path : Text) (imp : ImportStmt)
      (w : ImportWalk)
      → IsWalk w
      → (IsLoaded (import_target path imp) → Returns (WalkFrom w) (dfs (import_target path imp) w))
      → Returns (WalkFrom w) (import_one modules dfs path imp w)
  unfolding import_one
  import_one-Returns dfs path imp w i call =
      elim (Option-cases (lookup (import_target path imp) modules)) [
        | inl e ↦
            rw (e, import_one) (returns (record { fewer = omega arith; small = i.0; loaded = i.1 }))
        | inr (prog, e) ↦ rw (e, import_one) (call (rw e refl))
      ]

  -- The loop, for any `dfs` that keeps to a bound.
  each_import-Returns :
      (dfs : Text → ImportWalk → Outcome ImportWalk) (bound : ℕ)
      → ((p : Text) (v : ImportWalk)
          → unmet v.vis modules < bound
          → IsWalk v
          → IsLoaded p
          → Returns (WalkFrom v) (dfs p v))
      → (path : Text) (stmts : List Stmt) (w : ImportWalk) → unmet w.vis modules < bound
      → IsWalk w
      → Returns (WalkFrom w) (each_import modules dfs path stmts w)
  unfolding each_import
  each_import-Returns dfs bound call path [] w h i = returns (WalkFrom-refl w i)
  each_import-Returns dfs bound call path (setting_stmt _ ∷ ss) w h i =
      each_import-Returns dfs bound call path ss w h i
  each_import-Returns dfs bound call path (let_stmt _ ∷ ss) w h i =
      each_import-Returns dfs bound call path ss w h i
  each_import-Returns dfs bound call path (req_decl _ ∷ ss) w h i =
      each_import-Returns dfs bound call path ss w h i
  each_import-Returns dfs bound call path (flow_decl _ ∷ ss) w h i =
      each_import-Returns dfs bound call path ss w h i
  each_import-Returns dfs bound call path (import_stmt imp ∷ ss) w h i =
      Returns-bind (λ w'. each_import modules dfs path ss w')
        (import_one-Returns dfs path imp w i (λ l. call (import_target path imp) w h i l))
        (λ w' a.
          Returns-map
            (each_import-Returns dfs bound call path ss w' (omega (arith, a.fewer))
              (a.small, a.loaded))
            (λ w'' b. WalkFrom-trans w w' w'' a b))

  enter-IsWalk : (path : Text) (w : ImportWalk) → IsWalk w → IsWalk (enter path w)
  enter-IsWalk path w i = (λ k. ground (arith, vis_of-insert path k 1 w.vis, i.0 k), i.1)

  leave-WalkFrom :
      (path : Text) (w w' : ImportWalk)
      → IsLoaded path
      → unmet w'.vis modules ≤ unmet w.vis modules
      → IsWalk w'
      → WalkFrom w (leave path w')
  leave-WalkFrom path w w' l h i = record {
    fewer = omega (arith, h, unmet-insert-le path 2 w'.vis modules (omega arith));
    small = λ k. ground (arith, vis_of-insert path k 2 w'.vis, i.0 k);
    loaded = All-append IsLoaded w'.ordered (path ∷ []) i.1 (l, _);
  }

  -- The body of `dfs` on a module that was not met, when the loop ends.
  walk_body-Returns :
      (path : Text) (w : ImportWalk) (run : List Stmt → Outcome ImportWalk)
      → IsLoaded path
      → ((stmts : List Stmt) → Returns (WalkFrom (enter path w)) (run stmts))
      → unmet (enter path w).vis modules ≤ unmet w.vis modules
      → Returns
          (WalkFrom w)
          (stmts_at modules path >>= λ stmts. run stmts >>= λ w'. ok (leave path w'))
  unfolding stmts_at
  walk_body-Returns path w run l h le = elim (Option-cases (lookup path modules)) [
    | inl e ↦ absurd (cc)
    | inr (prog, e) ↦
        rw (e, stmts_at)
          (Returns-bind (λ w'. ok (leave path w')) (h prog.stmts)
            (λ w' a.
              returns
                (leave-WalkFrom path w w' l (omega (arith, a.fewer, le)) (a.small, a.loaded))))
  ]

  entered :
      (path : Text) (w : ImportWalk)
      → vis_of path w.vis ≡ 0
      → IsLoaded path
      → unmet (enter path w).vis modules < unmet w.vis modules
  entered path w z l = elim (Option-cases (lookup path modules)) [
    | inl e ↦ absurd (cc)
    | inr (prog, e) ↦ unmet-insert-lt path 1 w.vis modules prog (omega arith) z e
  ]

  -- `dfs` on a loaded module returns, whenever the fuel is more than the number of modules not met,
  -- no mark is above 2 and the order holds loaded modules only. Afterwards no more modules are
  -- unmet, and the same holds of the marks and the order.
  pub import_dfs-Returns :
      (fuel : ℕ) (path : Text) (w : ImportWalk)
      → unmet w.vis modules < fuel
      → IsWalk w
      → IsLoaded path
      → Returns (WalkFrom w) (import_dfs modules fuel path w)
  unfolding import_dfs
  import_dfs-Returns zero path w h i l = absurd (omega (arith, h))
  import_dfs-Returns (suc fuel) path w h i l = elim (Bool-cases (vis_of path w.vis == 1)) [
    | inl one ↦
        rw (one, import_dfs) (returns (record { fewer = omega arith; small = i.0; loaded = i.1 }))
    | inr not_one ↦ elim (Bool-cases (vis_of path w.vis == 2)) [
      | inl two ↦ rw (not_one, two, import_dfs) (returns (WalkFrom-refl w i))
      | inr not_two ↦
          rw (not_one, not_two, import_dfs)
            (let less = entered path w (ground (arith, i.0 path, not_one, not_two)) l in
              walk_body-Returns path w
                (λ stmts. each_import modules (import_dfs modules fuel) path stmts (enter path w)) l
                (λ stmts.
                  each_import-Returns (import_dfs modules fuel) fuel (import_dfs-Returns fuel) path
                    stmts (enter path w) (omega (arith, less, h)) (enter-IsWalk path w i))
                (omega (arith, less)))
    ]
  ]
