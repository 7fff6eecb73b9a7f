-- ===== src/Compiler/Merge/Singles.antt =====
-- The lines that a request has at most once: HTTP line, auth, body, pre hook, post hook.
use pipetest.Ast.{
  ReqLine, http_line, json_directive, header_directive, query_directive, auth_directive, hook_block,
  assert_stmt, let_line, HookBlock, AssertStmt,
}
use mathlib.Core.List.{append-nil}
use pipetest.Base.{
  ◌≡◌, refl, ap, ◌∙◌, true, false, List, [], map, Option, none, option_list, or_else, arith,
}
use pipetest.Compiler.Merge.Select.{
  select, last_of, select-append, select-map_same, select-map_other, as_http, as_auth, as_json,
  as_pre, as_post,
}
use pipetest.Compiler.Merge.Shapes.{get-apply_lines, apply_lines-keeps}
use pipetest.Compiler.Merge.{
  Shape, empty_shape, set_hook, apply_line, apply_lines, shape_lines, merge_request_lines,
}

-- The child's last line of a kind, or else the parent's.
abbrev pub effective : {B : Type 0} → (ReqLine → Option B) → List ReqLine → List ReqLine → Option B
effective f parent child = or_else (last_of f child) (last_of f parent)

-- The shape from which the merged lines are built.
abbrev pub merged_shape : List ReqLine → List ReqLine → Shape
merged_shape parent child = apply_lines child true (apply_lines parent false empty_shape)

module _ {B : Type 0} (get : Shape → Option B) (f : ReqLine → Option B)
    (step : (l : ReqLine) (s : Shape) → get (apply_line l s) ≡ or_else (f l) (get s))
    (stable : (s : Shape) (as' : List AssertStmt) → get (record s { asserts = as' }) ≡ get s)
    (unset : get empty_shape ≡ none) where
  pub get-merged_shape :
      (parent child : List ReqLine) → get (merged_shape parent child) ≡ effective f parent child
  get-merged_shape parent child = ground (
    arith,
    get-apply_lines get f step stable true child (apply_lines parent false empty_shape),
    get-apply_lines get f step stable false parent empty_shape,
    unset,
  )

http_step : (l : ReqLine) (s : Shape) → (apply_line l s).http ≡ or_else (as_http l) s.http
unfolding apply_line
http_step (http_line l) s = refl
http_step _ s = ground arith

auth_step : (l : ReqLine) (s : Shape) → (apply_line l s).auth ≡ or_else (as_auth l) s.auth
unfolding apply_line
auth_step (http_line l) s = refl
auth_step _ s = ground arith

json_step : (l : ReqLine) (s : Shape) → (apply_line l s).json ≡ or_else (as_json l) s.json
unfolding apply_line
json_step (http_line l) s = refl
json_step _ s = ground arith

pre_step : (l : ReqLine) (s : Shape) → (apply_line l s).pre ≡ or_else (as_pre l) s.pre
unfolding apply_line
pre_step (http_line l) s = refl
pre_step _ s = ground arith

post_step : (l : ReqLine) (s : Shape) → (apply_line l s).post ≡ or_else (as_post l) s.post
unfolding apply_line
post_step (http_line l) s = refl
post_step _ s = ground arith

-- A hook stands in the field of its kind.
record HooksInPlace (s : Shape) : Type 0 where
  pre_in_pre : select as_pre (map hook_block (option_list s.pre)) ≡ option_list s.pre
  post_in_pre : select as_post (map hook_block (option_list s.pre)) ≡ []
  pre_in_post : select as_pre (map hook_block (option_list s.post)) ≡ []
  post_in_post : select as_post (map hook_block (option_list s.post)) ≡ option_list s.post

set_hook-HooksInPlace :
    (l : HookBlock) (s : Shape) → HooksInPlace s → HooksInPlace (set_hook l.kind l s)
unfolding select
set_hook-HooksInPlace l s h = ground arith

apply_line-HooksInPlace : (l : ReqLine) (s : Shape) → HooksInPlace s → HooksInPlace (apply_line l s)
unfolding apply_line
apply_line-HooksInPlace (hook_block l) s h = set_hook-HooksInPlace l s h
apply_line-HooksInPlace _ s h = record {
  pre_in_pre = h.pre_in_pre;
  post_in_pre = h.post_in_pre;
  pre_in_post = h.pre_in_post;
  post_in_post = h.post_in_post;
}

-- What the slice built from a shape holds of each of these kinds.
select_http : (s : Shape) → select as_http (shape_lines s) ≡ option_list s.http
unfolding shape_lines
select_http s = simp (
  select-append,
  select-map_same as_http http_line (λ _. refl),
  select-map_other as_http auth_directive (λ _. refl),
  select-map_other as_http header_directive (λ _. refl),
  select-map_other as_http query_directive (λ _. refl),
  select-map_other as_http json_directive (λ _. refl),
  select-map_other as_http hook_block (λ _. refl),
  select-map_other as_http assert_stmt (λ _. refl),
  select-map_other as_http let_line (λ _. refl),
  append-nil,
)

select_auth : (s : Shape) → select as_auth (shape_lines s) ≡ option_list s.auth
unfolding shape_lines
select_auth s = simp (
  select-append,
  select-map_same as_auth auth_directive (λ _. refl),
  select-map_other as_auth http_line (λ _. refl),
  select-map_other as_auth header_directive (λ _. refl),
  select-map_other as_auth query_directive (λ _. refl),
  select-map_other as_auth json_directive (λ _. refl),
  select-map_other as_auth hook_block (λ _. refl),
  select-map_other as_auth assert_stmt (λ _. refl),
  select-map_other as_auth let_line (λ _. refl),
  append-nil,
)

select_json : (s : Shape) → select as_json (shape_lines s) ≡ option_list s.json
unfolding shape_lines
select_json s = simp (
  select-append,
  select-map_same as_json json_directive (λ _. refl),
  select-map_other as_json http_line (λ _. refl),
  select-map_other as_json header_directive (λ _. refl),
  select-map_other as_json query_directive (λ _. refl),
  select-map_other as_json auth_directive (λ _. refl),
  select-map_other as_json hook_block (λ _. refl),
  select-map_other as_json assert_stmt (λ _. refl),
  select-map_other as_json let_line (λ _. refl),
  append-nil,
)

select_pre : (s : Shape) → HooksInPlace s → select as_pre (shape_lines s) ≡ option_list s.pre
unfolding shape_lines
select_pre s h = simp (
  select-append,
  h.pre_in_pre,
  h.pre_in_post,
  select-map_other as_pre http_line (λ _. refl),
  select-map_other as_pre header_directive (λ _. refl),
  select-map_other as_pre query_directive (λ _. refl),
  select-map_other as_pre auth_directive (λ _. refl),
  select-map_other as_pre json_directive (λ _. refl),
  select-map_other as_pre assert_stmt (λ _. refl),
  select-map_other as_pre let_line (λ _. refl),
  append-nil,
)

select_post : (s : Shape) → HooksInPlace s → select as_post (shape_lines s) ≡ option_list s.post
unfolding shape_lines
select_post s h = simp (
  select-append,
  h.post_in_pre,
  h.post_in_post,
  select-map_other as_post http_line (λ _. refl),
  select-map_other as_post header_directive (λ _. refl),
  select-map_other as_post query_directive (λ _. refl),
  select-map_other as_post auth_directive (λ _. refl),
  select-map_other as_post json_directive (λ _. refl),
  select-map_other as_post assert_stmt (λ _. refl),
  select-map_other as_post let_line (λ _. refl),
  append-nil,
)

asserts-HooksInPlace :
    (s : Shape) (as' : List AssertStmt) → HooksInPlace s → HooksInPlace (record s { asserts = as' })
asserts-HooksInPlace s as' h = record {
  pre_in_pre = h.pre_in_pre;
  post_in_pre = h.post_in_pre;
  pre_in_post = h.pre_in_post;
  post_in_post = h.post_in_post;
}

merged-HooksInPlace : (parent child : List ReqLine) → HooksInPlace (merged_shape parent child)
unfolding select
merged-HooksInPlace parent child =
    apply_lines-keeps HooksInPlace asserts-HooksInPlace child true _ apply_line-HooksInPlace (
      apply_lines-keeps HooksInPlace asserts-HooksInPlace parent false _ apply_line-HooksInPlace
        (record { pre_in_pre = refl; post_in_pre = refl; pre_in_post = refl; post_in_post = refl }))

-- The merged lines hold at most one HTTP line, auth directive, body, pre hook and post hook: the
-- child's last of the kind, or else the parent's last, or none if neither has one.
pub merge_request_lines_singles :
    (parent child : List ReqLine)
    → let merged = merge_request_lines parent child in
      (select as_http merged ≡ option_list (effective as_http parent child))
      × (select as_auth merged ≡ option_list (effective as_auth parent child))
      × (select as_json merged ≡ option_list (effective as_json parent child))
      × (select as_pre merged ≡ option_list (effective as_pre parent child))
      × (select as_post merged ≡ option_list (effective as_post parent child))
unfolding merge_request_lines
merge_request_lines_singles parent child =
    let s = merged_shape parent child in
    let h = merged-HooksInPlace parent child in
    (
      select_http s
          ∙ ap option_list
              (get-merged_shape (λ s. s.http) as_http http_step (λ _ _. refl) refl parent child),
      select_auth s
          ∙ ap option_list
              (get-merged_shape (λ s. s.auth) as_auth auth_step (λ _ _. refl) refl parent child),
      select_json s
          ∙ ap option_list
              (get-merged_shape (λ s. s.json) as_json json_step (λ _ _. refl) refl parent child),
      select_pre s h
          ∙ ap option_list
              (get-merged_shape (λ s. s.pre) as_pre pre_step (λ _ _. refl) refl parent child),
      select_post s h
          ∙ ap option_list
              (get-merged_shape (λ s. s.post) as_post post_step (λ _ _. refl) refl parent child),
    )
