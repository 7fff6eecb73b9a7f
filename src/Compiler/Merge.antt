-- ===== src/Compiler/Merge.antt =====
-- `mergeRequestLines`: the effective lines of a request, from its parent's and its own.
pub mod Select
pub mod Shapes
pub mod Singles
pub mod KeyedLines
pub mod Asserts
use pipetest.Ast.{
  ReqLine, http_line, json_directive, header_directive, query_directive, auth_directive, hook_block,
  assert_stmt, let_line, HttpLine, JsonDirective, HeaderDirective, QueryDirective, AuthDirective,
  HookBlock, AssertStmt, LetStmt, HookKind, hook_pre, hook_post,
}
use pipetest.Base.{Bool, true, false, List, [], ◌∷◌, ◌++◌, map, Option, none, some, option_list}
use pipetest.Base.Keyed.{Keyed, no_entries, put, values}

-- `shape`; each pair of a map and its key slice is a `Keyed`.
pub record Shape : Type 0 where
  pub http : Option HttpLine
  pub auth : Option AuthDirective
  pub json : Option JsonDirective
  pub pre : Option HookBlock
  pub post : Option HookBlock
  pub headers : Keyed HeaderDirective
  pub queries : Keyed QueryDirective
  pub asserts : List AssertStmt
  pub lets : Keyed LetStmt

abbrev pub empty_shape : Shape
empty_shape = record {
  http = none;
  auth = none;
  json = none;
  pre = none;
  post = none;
  headers = no_entries;
  queries = no_entries;
  asserts = [];
  lets = no_entries;
}

abbrev pub set_hook : HookKind → HookBlock → Shape → Shape
set_hook hook_pre l s = record s { pre = some l }
set_hook hook_post l s = record s { post = some l }

-- The body of the loop over the lines, but for its `AssertStmt` case.
unfoldable pub apply_line : ReqLine → Shape → Shape
unfolding put
apply_line (http_line l) s = record s { http = some l }
apply_line (auth_directive l) s = record s { auth = some l }
apply_line (json_directive l) s = record s { json = some l }
apply_line (hook_block l) s = set_hook l.kind l s
apply_line (header_directive l) s = record s { headers = put l.key.name l s.headers }
apply_line (query_directive l) s = record s { queries = put l.key.name l s.queries }
apply_line (assert_stmt l) s = s
apply_line (let_line l) s = record s { lets = put l.name l s.lets }

-- `case *ast.AssertStmt`: a child's assertions are gathered apart.
unfoldable pub apply_assert : Bool → ReqLine → Shape × List AssertStmt → Shape × List AssertStmt
apply_assert true (assert_stmt l) (s, child_asserts) = (s, child_asserts ++ l ∷ [])
apply_assert false (assert_stmt l) (s, child_asserts) =
    (record s { asserts = s.asserts ++ l ∷ [] }, child_asserts)
apply_assert _ _ p = p

-- The loop of `applyLines`.
unfoldable pub apply_each : Bool → List ReqLine → Shape × List AssertStmt → Shape × List AssertStmt
unfolding apply_line apply_assert
apply_each is_child [] p = p
apply_each is_child (l ∷ ls) (s, child_asserts) =
    apply_each is_child ls (apply_assert is_child l (apply_line l s, child_asserts))

abbrev override_asserts : Bool → Shape × List AssertStmt → Shape
override_asserts true (s, a ∷ as') = record s { asserts = a ∷ as' }
override_asserts _ (s, _) = s

-- `applyLines(lines, isChild)`
unfoldable pub apply_lines : List ReqLine → Bool → Shape → Shape
unfolding apply_each
apply_lines lines is_child s = override_asserts is_child (apply_each is_child lines (s, []))

-- The slice that is built from the shape.
unfoldable pub shape_lines : Shape → List ReqLine
unfolding values
shape_lines s =
    map http_line (option_list s.http)
    ++ (map auth_directive (option_list s.auth)
        ++ (map header_directive (values s.headers)
            ++ (map query_directive (values s.queries)
                ++ (map json_directive (option_list s.json)
                    ++ (map hook_block (option_list s.pre)
                        ++ (map hook_block (option_list s.post)
                            ++ (map assert_stmt s.asserts ++ map let_line (values s.lets))))))))

unfoldable pub merge_request_lines : List ReqLine → List ReqLine → List ReqLine
unfolding apply_lines shape_lines
merge_request_lines parent child =
    shape_lines (apply_lines child true (apply_lines parent false empty_shape))
