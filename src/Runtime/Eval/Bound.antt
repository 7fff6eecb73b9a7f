-- ===== src/Runtime/Eval/Bound.antt =====
-- Which identifiers an evaluation can miss: those that the compiler collects from the expression, and
-- those that it takes for names of the language.
use pipetest.Ast.{
  Span, Expr, Exprs, Pairs, ident_expr, string_lit, number_lit, duration_lit, bool_lit, null_lit,
  dollar_expr, hash_expr, array_lit, object_lit, unary_expr, binary_expr, call_expr, field_expr,
  index_expr, paren_expr, bad_expr, no_exprs, expr_cons, no_pairs, pair_cons,
}
use mathlib.Core.Path.{subst}
use pipetest.Base.Assoc.{lookup, member, member-add}
use pipetest.Base.Names.{member-sort_by}
use pipetest.Base.Text.{Text, text_eq_refl}
use pipetest.Base.{
  ◌≡◌, Bool, true, Option, none, some, List, [], ◌||◌, arith, Option-cases, inl, inr,
}
use pipetest.Compiler.Idents.{
  builtins, reserved_names, add_ident, walk_idents, walk_idents_list, walk_idents_pairs,
  collect_expr_idents,
}
use pipetest.Runtime.Eval.{
  RequestContext, callee_name, reserved_value, eval_ident, call_or_fail, eval_expr, eval_exprs,
  eval_pairs,
}
use pipetest.Runtime.Eval.Misses.{
  Misses, no_error, missing, plain, no_function, no_json, Misses-bind, Misses-weaken,
  checked-Misses, or_fail-Misses,
}
use pipetest.Runtime.Eval.Misses.Calls.{
  apply_unary-Misses, apply_binary-Misses, access_field-Misses, access_index-Misses,
  apply_call-Misses,
}
use pipetest.Runtime.Value.{
  Values, Fields, Result, error, Library, normalize, undefined_identifier, set_field, no_fields,
}

-- The name is a builtin's, or one of the reserved names.
abbrev pub is_language_name : Text → Bool
is_language_name name = member name builtins || member name reserved_names

-- The name is among `names` or the language's, and is neither a variable of the flow nor a binding.
pub record Unbound (c : RequestContext) (names : List Text) (name : Text) : Type 0 where
  pub collected : (member name names || is_language_name name) ≡ true
  pub no_variable : lookup name c.flow_vars ≡ none
  pub no_view : lookup name c.flow_views ≡ none

module _ (n : Text) where
  add_ident-member :
      (name : Text) (out : List Text) → member n out ≡ true → member n (add_ident name out) ≡ true
  unfolding add_ident
  add_ident-member name out h = ground (arith, h, member-add name n out)

  mutual
    unfolding walk_idents

    walk-member :
        (e : Expr) (out : List Text) → member n out ≡ true → member n (walk_idents e out) ≡ true
    walk-member (ident_expr name _) out h = add_ident-member name out h
    walk-member (unary_expr _ x _) out h = walk-member x out h
    walk-member (binary_expr _ l r _) out h =
        walk-member r (walk_idents l out) (walk-member l out h)
    walk-member (call_expr f args _) out h =
        walk_list-member args (walk_idents f out) (walk-member f out h)
    walk-member (field_expr x _ _) out h = walk-member x out h
    walk-member (index_expr x i _) out h = walk-member i (walk_idents x out) (walk-member x out h)
    walk-member (paren_expr x _) out h = walk-member x out h
    walk-member (array_lit es _) out h = walk_list-member es out h
    walk-member (object_lit ps _) out h = walk_pairs-member ps out h
    walk-member _ out h = h

    walk_list-member :
        (es : Exprs) (out : List Text)
        → member n out ≡ true
        → member n (walk_idents_list es out) ≡ true
    walk_list-member no_exprs out h = h
    walk_list-member (expr_cons e es) out h =
        walk_list-member es (walk_idents e out) (walk-member e out h)

    walk_pairs-member :
        (ps : Pairs) (out : List Text)
        → member n out ≡ true
        → member n (walk_idents_pairs ps out) ≡ true
    walk_pairs-member no_pairs out h = h
    walk_pairs-member (pair_cons _ e _ ps) out h =
        walk_pairs-member ps (walk_idents e out) (walk-member e out h)

module _ (c : RequestContext) where
  grow :
      {names later : List Text} (name : Text)
      → (member name names ≡ true → member name later ≡ true)
      → Unbound c names name
      → Unbound c later name
  grow name g u = record {
    collected = ground (arith, g, u.collected);
    no_variable = u.no_variable;
    no_view = u.no_view;
  }

  module _ (lib : Library) where
    add_ident-collects :
        (name : Text) (out : List Text)
        → (member name (add_ident name out) || is_language_name name) ≡ true
    unfolding add_ident
    add_ident-collects name out = ground (arith, member-add name name out, text_eq_refl name)

    eval_ident-Misses :
        (name : Text) (out : List Text)
        → Misses (Unbound c (add_ident name out)) (eval_ident lib name c)
    unfolding eval_ident
    eval_ident-Misses name out = elim (Option-cases (reserved_value lib name c)) [
      | inr (v, e) ↦ rw e no_error
      | inl e ↦ elim (Option-cases (lookup name c.flow_vars)) [
        | inr (v, f) ↦ rw (e, f) no_error
        | inl f ↦ elim (Option-cases (lookup name c.flow_views)) [
          | inr (v, g) ↦ rw (e, f, g) no_error
          | inl g ↦
              rw (e, f, g)
                (missing (record {
                  collected = add_ident-collects name out;
                  no_variable = f;
                  no_view = g;
                }))
        ]
      ]
    ]

    call_or_fail-Misses :
        {P : Text → Type 0} (o : Option Text) (span : Span) {args : Result Values}
        → Misses P args
        → Misses P (call_or_fail lib o span args)
    call_or_fail-Misses none span h = plain
    call_or_fail-Misses (some name) span h =
        Misses-bind _ h (λ vs. apply_call-Misses lib name span vs)

    mutual
      unfolding walk_idents eval_expr

      eval-Misses :
          (e : Expr) (out : List Text) → Misses (Unbound c (walk_idents e out)) (eval_expr lib c e)
      eval-Misses (ident_expr name _) out = eval_ident-Misses name out
      eval-Misses (string_lit raw v _) out = no_error
      eval-Misses (number_lit raw _) out =
          Misses-bind _ (checked-Misses [] (lib.parse_float raw)) (λ n. no_error)
      eval-Misses (bool_lit b _) out = no_error
      eval-Misses (null_lit _) out = no_error
      eval-Misses (dollar_expr _) out = no_error
      eval-Misses (hash_expr _) out = no_error
      eval-Misses (duration_lit _ _) out = plain
      eval-Misses (bad_expr _) out = plain
      eval-Misses (paren_expr x _) out = eval-Misses x out
      eval-Misses (array_lit es _) out = Misses-bind _ (eval_exprs-Misses es out) (λ vs. no_error)
      eval-Misses (object_lit ps _) out =
          Misses-bind _ (eval_pairs-Misses ps no_fields out) (λ fs. no_error)
      eval-Misses (unary_expr op x _) out =
          Misses-bind _ (eval-Misses x out) (λ v. apply_unary-Misses lib op (normalize v))
      eval-Misses (binary_expr op l r _) out =
          Misses-bind _
            (Misses-weaken (λ n u. grow n (walk-member n r (walk_idents l out)) u)
              (eval-Misses l out))
            (λ a.
              Misses-bind _ (eval-Misses r (walk_idents l out))
                (λ b. apply_binary-Misses lib op (normalize a) (normalize b)))
      eval-Misses (field_expr x name _) out =
          Misses-bind _ (eval-Misses x out) (λ v. or_fail-Misses v (access_field-Misses lib v name))
      eval-Misses (index_expr x i _) out =
          Misses-bind _
            (Misses-weaken (λ n u. grow n (walk-member n i (walk_idents x out)) u)
              (eval-Misses x out))
            (λ v. or_fail-Misses v (
              Misses-bind _ (eval-Misses i (walk_idents x out))
                (λ idx. access_index-Misses lib v idx)))
      eval-Misses (call_expr f args span) out =
          call_or_fail-Misses (callee_name f) span (eval_exprs-Misses args (walk_idents f out))

      eval_exprs-Misses :
          (es : Exprs) (out : List Text)
          → Misses (Unbound c (walk_idents_list es out)) (eval_exprs lib c es)
      eval_exprs-Misses no_exprs out = no_error
      eval_exprs-Misses (expr_cons e es) out =
          Misses-bind _
            (Misses-weaken (λ n u. grow n (walk_list-member n es (walk_idents e out)) u)
              (eval-Misses e out))
            (λ v. Misses-bind _ (eval_exprs-Misses es (walk_idents e out)) (λ vs. no_error))

      eval_pairs-Misses :
          (ps : Pairs) (fs : Fields) (out : List Text)
          → Misses (Unbound c (walk_idents_pairs ps out)) (eval_pairs lib c ps fs)
      eval_pairs-Misses no_pairs fs out = no_error
      eval_pairs-Misses (pair_cons key e _ ps) fs out =
          Misses-bind _
            (Misses-weaken (λ n u. grow n (walk_pairs-member n ps (walk_idents e out)) u)
              (eval-Misses e out))
            (λ v. eval_pairs-Misses ps (set_field key.name v fs) (walk_idents e out))

    missing_name :
        {P : Text → Type 0} {A : Type 0} {r : Result A} {name : Text}
        → Misses P r
        → r ≡ error (undefined_identifier name)
        → P name
    missing_name no_error e = absurd (cc)
    missing_name {P} (missing p) e = subst P (cc) p
    missing_name no_function e = absurd (cc)
    missing_name plain e = absurd (cc)
    missing_name no_json e = absurd (cc)

    -- An evaluation ends with the error undefined identifier only on a name that is no variable of
    -- the flow and no binding, and that collectExprIdents collects from the expression, or that is
    -- a builtin's or a reserved name.
    pub undefined_identifier-collected :
        (e : Expr) (name : Text)
        → eval_expr lib c e ≡ error (undefined_identifier name)
        → Unbound c (collect_expr_idents e) name
    unfolding collect_expr_idents
    undefined_identifier-collected e name h =
        grow name (λ m. rw (member-sort_by name (walk_idents e [])) m)
          (missing_name (eval-Misses e []) h)
