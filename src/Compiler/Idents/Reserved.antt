-- ===== src/Compiler/Idents/Reserved.antt =====
-- No collector reports a reserved name or a builtin, and what follows for `isResRef`.
use pipetest.Ast.{
  Expr, Exprs, Pairs, ident_expr, array_lit, object_lit, unary_expr, binary_expr, call_expr,
  field_expr, index_expr, paren_expr, no_exprs, expr_cons, no_pairs, pair_cons, HookStmt, let_hook,
  assign_stmt, expr_stmt, print_stmt,
}
use pipetest.Base.Assoc.{member, member-add}
use pipetest.Base.Names.{member-sort_by}
use pipetest.Base.Text.{Text, text, text_eq, text_eq_iff}
use pipetest.Base.{◌≡◌, refl, ◌⊎◌, inl, inr, true, false, List, [], ◌∷◌, Bool-cases, arith}
use pipetest.Compiler.Idents.{
  builtins, reserved_names, add_ident, walk_idents, walk_idents_list, walk_idents_pairs,
  collect_expr_idents, is_res_ref, any_expr, refs_expr_in_hook,
}

-- The names that the walk passes over.
abbrev pub IsSkipped : Text → Type 0
IsSkipped name = (member name builtins ≡ true) ⊎ (member name reserved_names ≡ true)

module _ (k : Text) (skipped : IsSkipped k) where
  add_ident-skipped :
      (name : Text) (out : List Text) → member k out ≡ false → member k (add_ident name out) ≡ false
  unfolding add_ident
  add_ident-skipped name out h = elim (Bool-cases (text_eq name k)) [
    | inl e ↦ rw ((text_eq_iff name k).0 e) (ground arith)
    | inr e ↦ ground (arith, member-add name k out)
  ]

  mutual
    unfolding walk_idents

    walk-skipped :
        (e : Expr) (out : List Text) → member k out ≡ false → member k (walk_idents e out) ≡ false
    walk-skipped (ident_expr name _) out h = add_ident-skipped name out h
    walk-skipped (unary_expr _ x _) out h = walk-skipped x out h
    walk-skipped (binary_expr _ l r _) out h =
        walk-skipped r (walk_idents l out) (walk-skipped l out h)
    walk-skipped (call_expr f args _) out h =
        walk_list-skipped args (walk_idents f out) (walk-skipped f out h)
    walk-skipped (field_expr x _ _) out h = walk-skipped x out h
    walk-skipped (index_expr x i _) out h =
        walk-skipped i (walk_idents x out) (walk-skipped x out h)
    walk-skipped (paren_expr x _) out h = walk-skipped x out h
    walk-skipped (array_lit es _) out h = walk_list-skipped es out h
    walk-skipped (object_lit ps _) out h = walk_pairs-skipped ps out h
    walk-skipped _ out h = h

    walk_list-skipped :
        (es : Exprs) (out : List Text)
        → member k out ≡ false
        → member k (walk_idents_list es out) ≡ false
    walk_list-skipped no_exprs out h = h
    walk_list-skipped (expr_cons e es) out h =
        walk_list-skipped es (walk_idents e out) (walk-skipped e out h)

    walk_pairs-skipped :
        (ps : Pairs) (out : List Text)
        → member k out ≡ false
        → member k (walk_idents_pairs ps out) ≡ false
    walk_pairs-skipped no_pairs out h = h
    walk_pairs-skipped (pair_cons _ e _ ps) out h =
        walk_pairs-skipped ps (walk_idents e out) (walk-skipped e out h)

-- `collectExprIdents` never reports a builtin or a reserved name.
pub collect_expr_idents_skipped :
    (k : Text) → IsSkipped k → (e : Expr) → member k (collect_expr_idents e) ≡ false
unfolding collect_expr_idents
collect_expr_idents_skipped k skipped e =
    rw member-sort_by (walk-skipped k skipped e [] (unfold member in refl))

is_res_ref-eq_false : (e : Expr) → is_res_ref e ≡ false
unfolding is_res_ref
is_res_ref-eq_false e =
    collect_expr_idents_skipped (text "res") (inr (unfold reserved_names member text_eq in refl)) e

any_res_ref : (es : List Expr) → any_expr is_res_ref es ≡ false
unfolding any_expr
any_res_ref [] = refl
any_res_ref (e ∷ es) = rw is_res_ref-eq_false (any_res_ref es)

-- The search of a hook for references to `res` finds none, whatever the hook names: the identifiers
-- that it looks through have `res` taken out before.
pub refs_res_in_hook_never : (stmts : List HookStmt) → refs_expr_in_hook is_res_ref stmts ≡ false
unfolding refs_expr_in_hook
refs_res_in_hook_never [] = refl
refs_res_in_hook_never (assign_stmt s ∷ rest) = rw is_res_ref-eq_false (refs_res_in_hook_never rest)
refs_res_in_hook_never (expr_stmt s ∷ rest) = rw is_res_ref-eq_false (refs_res_in_hook_never rest)
refs_res_in_hook_never (print_stmt s ∷ rest) = rw any_res_ref (refs_res_in_hook_never rest)
refs_res_in_hook_never (let_hook s ∷ rest) = refs_res_in_hook_never rest
