-- ===== src/Compiler/Merge/Asserts.antt =====
-- The assertions of a merged request.
use mathlib.Core.List.{append-nil, append_assoc}
use pipetest.Ast.{
  ReqLine, http_line, json_directive, header_directive, query_directive, auth_directive, hook_block,
  assert_stmt, let_line, AssertStmt, HookBlock, HookKind, hook_pre, hook_post,
}
use pipetest.Base.{◌≡◌, refl, sym, ap, ◌∙◌, true, false, List, [], ◌∷◌, ◌++◌}
use pipetest.Compiler.Merge.Select.{
  select, select-append, select-map_same, select-map_other, as_assert,
}
use pipetest.Compiler.Merge.Singles.{merged_shape}
use pipetest.Compiler.Merge.{
  Shape, empty_shape, set_hook, apply_line, apply_assert, apply_each, apply_lines, override_asserts,
  shape_lines, merge_request_lines,
}

set_hook-asserts : (k : HookKind) (l : HookBlock) (s : Shape) → (set_hook k l s).asserts ≡ s.asserts
set_hook-asserts hook_pre l s = refl
set_hook-asserts hook_post l s = refl

apply_line-asserts : (l : ReqLine) (s : Shape) → (apply_line l s).asserts ≡ s.asserts
unfolding apply_line
apply_line-asserts (hook_block l) s = set_hook-asserts l.kind l s
apply_line-asserts _ s = refl

-- A child's pass gathers its assertions and leaves the parent's,
apply_each-child :
    (ls : List ReqLine) (s : Shape) (c : List AssertStmt)
    → ((apply_each true ls (s, c)).0.asserts ≡ s.asserts)
      × ((apply_each true ls (s, c)).1 ≡ c ++ select as_assert ls)
unfolding apply_each apply_assert select
apply_each-child [] s c = (refl, sym (append-nil c))
apply_each-child (assert_stmt a ∷ ls) s c =
    let (h, k) = apply_each-child ls (apply_line (assert_stmt a) s) (c ++ a ∷ []) in
    (h ∙ apply_line-asserts (assert_stmt a) s, k ∙ append_assoc c (a ∷ []) (select as_assert ls))
apply_each-child (http_line l ∷ ls) s c =
    let (h, k) = apply_each-child ls (apply_line (http_line l) s) c in
    (h ∙ apply_line-asserts (http_line l) s, k)
apply_each-child (l ∷ ls) s c =
    let (h, k) = apply_each-child ls (apply_line l s) c in (h ∙ apply_line-asserts l s, k)

-- a parent's pass appends them at once.
apply_each-parent :
    (ls : List ReqLine) (s : Shape) (c : List AssertStmt)
    → (apply_each false ls (s, c)).0.asserts ≡ s.asserts ++ select as_assert ls
unfolding apply_each apply_assert select
apply_each-parent [] s c = sym (append-nil s.asserts)
apply_each-parent (assert_stmt a ∷ ls) s c =
    apply_each-parent ls _ c
    ∙ append_assoc _ (a ∷ []) (select as_assert ls)
    ∙ ap (λ x. x ++ a ∷ select as_assert ls) (apply_line-asserts (assert_stmt a) s)
apply_each-parent (http_line l ∷ ls) s c =
    apply_each-parent ls _ c
    ∙ ap (λ x. x ++ select as_assert ls) (apply_line-asserts (http_line l) s)
apply_each-parent (l ∷ ls) s c =
    apply_each-parent ls _ c ∙ ap (λ x. x ++ select as_assert ls) (apply_line-asserts l s)

-- The assertions of a list, unless it has none.
abbrev pub asserts_or : List AssertStmt → List AssertStmt → List AssertStmt
asserts_or [] parents = parents
asserts_or (a ∷ as') parents = a ∷ as'

override_asserts-asserts :
    (s : Shape) (c : List AssertStmt)
    → (override_asserts true (s, c)).asserts ≡ asserts_or c s.asserts
override_asserts-asserts s [] = refl
override_asserts-asserts s (a ∷ as') = refl

merged-asserts :
    (parent child : List ReqLine)
    → (merged_shape parent child).asserts
      ≡ asserts_or (select as_assert child) (select as_assert parent)
unfolding apply_lines
merged-asserts parent child =
    let s = apply_lines parent false empty_shape in
    let (h, k) = apply_each-child child s [] in
    override_asserts-asserts (apply_each true child (s, [])).0 (apply_each true child (s, [])).1
    ∙ rw (h, k) (ap (asserts_or (select as_assert child)) (apply_each-parent parent empty_shape []))

select_asserts : (s : Shape) → select as_assert (shape_lines s) ≡ s.asserts
unfolding shape_lines
select_asserts s = simp (
  select-append,
  select-map_same as_assert assert_stmt (λ _. refl),
  select-map_other as_assert http_line (λ _. refl),
  select-map_other as_assert auth_directive (λ _. refl),
  select-map_other as_assert header_directive (λ _. refl),
  select-map_other as_assert query_directive (λ _. refl),
  select-map_other as_assert json_directive (λ _. refl),
  select-map_other as_assert hook_block (λ _. refl),
  select-map_other as_assert let_line (λ _. refl),
  append-nil,
)

-- The merged lines hold the child's assertions in their order, or the parent's if the child has
-- none.
pub merge_request_lines_asserts :
    (parent child : List ReqLine)
    → select as_assert (merge_request_lines parent child)
      ≡ asserts_or (select as_assert child) (select as_assert parent)
unfolding merge_request_lines
merge_request_lines_asserts parent child =
    select_asserts (merged_shape parent child) ∙ merged-asserts parent child
