-- ===== src/Compiler/Merge/KeyedLines.antt =====
-- The lines that a request has once for each key: headers, query parameters, lets.
use mathlib.Core.List.{append-nil}
use pipetest.Ast.{
  ReqLine, http_line, json_directive, header_directive, query_directive, auth_directive, hook_block,
  assert_stmt, let_line, HeaderDirective, QueryDirective, LetStmt, HookBlock, HookKind, hook_pre,
  hook_post,
}
use pipetest.Base.Assoc.{lookup, member}
use pipetest.Base.Keyed.{
  Keyed, no_entries, put, values, has_key, IsKeyed, IsDistinct, put-IsKeyed, put-IsDistinct,
  lookup-put, filter-values,
}
use pipetest.Base.Text.{Text, text_eq}
use pipetest.Base.{
  ◌≡◌, refl, ap, ◌∙◌, true, false, List, Option, none, some, if◌then◌else◌, filter, option_list,
  or_else, arith,
}
use pipetest.Compiler.Merge.Select.{
  select, select-append, select-map_same, select-map_other, as_header, as_query, as_let,
}
use pipetest.Compiler.Merge.Shapes.{apply_lines-keeps}
use pipetest.Compiler.Merge.Singles.{effective, merged_shape, get-merged_shape}
use pipetest.Compiler.Merge.{Shape, set_hook, apply_line, shape_lines, merge_request_lines}

abbrev pub header_name : HeaderDirective → Text
header_name l = l.key.name

abbrev pub query_name : QueryDirective → Text
query_name l = l.key.name

abbrev pub let_name : LetStmt → Text
let_name l = l.name

-- A line of one kind under one key.
abbrev pub under : {V : Type 0} → (ReqLine → Option V) → (V → Text) → Text → ReqLine → Option V
under f key k l = elim (f l) [ none ↦ none | some v ↦ if text_eq (key v) k then some v else none ]

record IsIndexed {V : Type 0} (key : V → Text) (t : Keyed V) : Type 0 where
  keyed : IsKeyed key t
  once : IsDistinct t.order

-- The three maps of a shape are in order.
abbrev Indexed : Shape → Type 0
Indexed s =
    IsIndexed header_name s.headers × IsIndexed query_name s.queries × IsIndexed let_name s.lets

put-IsIndexed :
    {V : Type 0} (key : V → Text) (v : V) (t : Keyed V)
    → IsIndexed key t
    → IsIndexed key (put (key v) v t)
put-IsIndexed key v t h = record {
  keyed = put-IsKeyed key v t h.keyed;
  once = put-IsDistinct key (key v) v t h.keyed h.once;
}

no_entries-IsIndexed : {V : Type 0} (key : V → Text) → IsIndexed key no_entries
unfolding lookup member
no_entries-IsIndexed key = record {
  keyed = record { in_step = λ k. refl; own_key = λ k v e. cc };
  once = tt;
}

set_hook-Indexed : (k : HookKind) (l : HookBlock) (s : Shape) → Indexed s → Indexed (set_hook k l s)
set_hook-Indexed hook_pre l s h = h
set_hook-Indexed hook_post l s h = h

apply_line-Indexed : (l : ReqLine) (s : Shape) → Indexed s → Indexed (apply_line l s)
unfolding apply_line
apply_line-Indexed (header_directive l) s h = (put-IsIndexed header_name l s.headers h.0, h.1, h.2)
apply_line-Indexed (query_directive l) s h = (h.0, put-IsIndexed query_name l s.queries h.1, h.2)
apply_line-Indexed (let_line l) s h = (h.0, h.1, put-IsIndexed let_name l s.lets h.2)
apply_line-Indexed (hook_block l) s h = set_hook-Indexed l.kind l s h
apply_line-Indexed _ s h = h

merged-Indexed : (parent child : List ReqLine) → Indexed (merged_shape parent child)
merged-Indexed parent child =
    apply_lines-keeps Indexed (λ s as' h. h) child true _ apply_line-Indexed
      (apply_lines-keeps Indexed (λ s as' h. h) parent false _ apply_line-Indexed
        (
          no_entries-IsIndexed header_name,
          no_entries-IsIndexed query_name,
          no_entries-IsIndexed let_name,
        ))

-- An entry is overwritten by each later line under its key.
header_step :
    (k : Text) (l : ReqLine) (s : Shape)
    → lookup k (apply_line l s).headers.entries
      ≡ or_else (under as_header header_name k l) (lookup k s.headers.entries)
unfolding apply_line
header_step k (header_directive l) s = rw lookup-put (ground arith)
header_step k _ s = ground arith

query_step :
    (k : Text) (l : ReqLine) (s : Shape)
    → lookup k (apply_line l s).queries.entries
      ≡ or_else (under as_query query_name k l) (lookup k s.queries.entries)
unfolding apply_line
query_step k (query_directive l) s = rw lookup-put (ground arith)
query_step k _ s = ground arith

let_step :
    (k : Text) (l : ReqLine) (s : Shape)
    → lookup k (apply_line l s).lets.entries
      ≡ or_else (under as_let let_name k l) (lookup k s.lets.entries)
unfolding apply_line
let_step k (let_line l) s = rw lookup-put (ground arith)
let_step k _ s = ground arith

-- What the slice built from a shape holds of each of these kinds.
select_headers : (s : Shape) → select as_header (shape_lines s) ≡ values s.headers
unfolding shape_lines
select_headers s = simp (
  select-append,
  select-map_same as_header header_directive (λ _. refl),
  select-map_other as_header http_line (λ _. refl),
  select-map_other as_header auth_directive (λ _. refl),
  select-map_other as_header query_directive (λ _. refl),
  select-map_other as_header json_directive (λ _. refl),
  select-map_other as_header hook_block (λ _. refl),
  select-map_other as_header assert_stmt (λ _. refl),
  select-map_other as_header let_line (λ _. refl),
  append-nil,
)

select_queries : (s : Shape) → select as_query (shape_lines s) ≡ values s.queries
unfolding shape_lines
select_queries s = simp (
  select-append,
  select-map_same as_query query_directive (λ _. refl),
  select-map_other as_query http_line (λ _. refl),
  select-map_other as_query auth_directive (λ _. refl),
  select-map_other as_query header_directive (λ _. refl),
  select-map_other as_query json_directive (λ _. refl),
  select-map_other as_query hook_block (λ _. refl),
  select-map_other as_query assert_stmt (λ _. refl),
  select-map_other as_query let_line (λ _. refl),
  append-nil,
)

select_lets : (s : Shape) → select as_let (shape_lines s) ≡ values s.lets
unfolding shape_lines
select_lets s = simp (
  select-append,
  select-map_same as_let let_line (λ _. refl),
  select-map_other as_let http_line (λ _. refl),
  select-map_other as_let auth_directive (λ _. refl),
  select-map_other as_let header_directive (λ _. refl),
  select-map_other as_let query_directive (λ _. refl),
  select-map_other as_let json_directive (λ _. refl),
  select-map_other as_let hook_block (λ _. refl),
  select-map_other as_let assert_stmt (λ _. refl),
)

-- Under each key the merged lines hold one line of a kind, the child's last under it or else the
-- parent's last, and none if neither has one.
abbrev pub KeyedOnce :
    {V : Type 0} → (ReqLine → Option V) → (V → Text) → Text → List ReqLine → List ReqLine → Type 0
KeyedOnce f key k parent child =
    filter (has_key key k) (select f (merge_request_lines parent child))
    ≡ option_list (effective (under f key k) parent child)

-- For each key, the merged lines hold exactly one header directive, query directive or let under
-- it, if parent or child has one: the child's last under the key, or else the parent's last.
pub merge_request_lines_keyed :
    (parent child : List ReqLine) (k : Text)
    → KeyedOnce as_header header_name k parent child
      × KeyedOnce as_query query_name k parent child
      × KeyedOnce as_let let_name k parent child
unfolding merge_request_lines lookup
merge_request_lines_keyed parent child k =
    let s = merged_shape parent child in
    let (h, q, l) = merged-Indexed parent child in
    (
      ap (filter (has_key header_name k)) (select_headers s)
          ∙ filter-values header_name k s.headers h.keyed h.once
          ∙ ap option_list (
              get-merged_shape (λ t. lookup k t.headers.entries) (under as_header header_name k)
                (header_step k) (λ _ _. refl) refl parent child),
      ap (filter (has_key query_name k)) (select_queries s)
          ∙ filter-values query_name k s.queries q.keyed q.once
          ∙ ap option_list (
              get-merged_shape (λ t. lookup k t.queries.entries) (under as_query query_name k)
                (query_step k) (λ _ _. refl) refl parent child),
      ap (filter (has_key let_name k)) (select_lets s)
          ∙ filter-values let_name k s.lets l.keyed l.once
          ∙ ap option_list (
              get-merged_shape (λ t. lookup k t.lets.entries) (under as_let let_name k) (let_step k)
                (λ _ _. refl) refl parent child),
    )
