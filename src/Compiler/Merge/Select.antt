-- ===== src/Compiler/Merge/Select.antt =====
-- The lines of one kind in a list of request lines, and the last of them.
use pipetest.Ast.{
  ReqLine, http_line, json_directive, header_directive, query_directive, auth_directive, hook_block,
  assert_stmt, let_line, HttpLine, JsonDirective, HeaderDirective, QueryDirective, AuthDirective,
  HookBlock, AssertStmt, LetStmt, HookKind, hook_pre, hook_post,
}
use pipetest.Base.{
  ◌≡◌, refl, ap, List, [], ◌∷◌, ◌++◌, map, Option, none, some, option_list, or_else, arith,
}

abbrev pub as_http : ReqLine → Option HttpLine
as_http (http_line l) = some l
as_http _ = none

abbrev pub as_auth : ReqLine → Option AuthDirective
as_auth (auth_directive l) = some l
as_auth _ = none

abbrev pub as_json : ReqLine → Option JsonDirective
as_json (json_directive l) = some l
as_json _ = none

abbrev pub pre_only : HookKind → HookBlock → Option HookBlock
pre_only hook_pre l = some l
pre_only hook_post l = none

abbrev pub post_only : HookKind → HookBlock → Option HookBlock
post_only hook_pre l = none
post_only hook_post l = some l

abbrev pub as_pre : ReqLine → Option HookBlock
as_pre (hook_block l) = pre_only l.kind l
as_pre _ = none

abbrev pub as_post : ReqLine → Option HookBlock
as_post (hook_block l) = post_only l.kind l
as_post _ = none

abbrev pub as_header : ReqLine → Option HeaderDirective
as_header (header_directive l) = some l
as_header _ = none

abbrev pub as_query : ReqLine → Option QueryDirective
as_query (query_directive l) = some l
as_query _ = none

abbrev pub as_assert : ReqLine → Option AssertStmt
as_assert (assert_stmt l) = some l
as_assert _ = none

abbrev pub as_let : ReqLine → Option LetStmt
as_let (let_line l) = some l
as_let _ = none

module _ {A B : Type 0} (f : A → Option B) where
  -- The values of one kind, in order.
  unfoldable pub select : List A → List B
  select [] = []
  select (x ∷ xs) = option_list (f x) ++ select xs

  -- The last value of one kind.
  unfoldable pub last_of : List A → Option B
  last_of [] = none
  last_of (x ∷ xs) = or_else (last_of xs) (f x)

  pub select-append : (xs ys : List A) → select (xs ++ ys) ≡ select xs ++ select ys
  unfolding select
  select-append [] ys = refl
  select-append (x ∷ xs) ys = rw (select-append xs ys) (head (f x))
    where
      head :
          (o : Option B)
          → option_list o ++ (select xs ++ select ys) ≡ (option_list o ++ select xs) ++ select ys
      head none = refl
      head (some b) = refl

  pub last_of-append : (xs ys : List A) → last_of (xs ++ ys) ≡ or_else (last_of ys) (last_of xs)
  unfolding last_of
  last_of-append [] ys = ground arith
  last_of-append (x ∷ xs) ys = ground (arith, last_of-append xs ys)

  -- A group of another kind gives nothing; one of this kind gives itself.
  pub select-map_other :
      {C : Type 0} (g : C → A) (h : (c : C) → f (g c) ≡ none) (cs : List C) → select (map g cs) ≡ []
  unfolding select
  select-map_other g h [] = refl
  select-map_other g h (c ∷ cs) = rw (h c) (select-map_other g h cs)

  pub select-map_same :
      (g : B → A) (h : (b : B) → f (g b) ≡ some b) (bs : List B) → select (map g bs) ≡ bs
  unfolding select
  select-map_same g h [] = refl
  select-map_same g h (b ∷ bs) = rw (h b) (ap (◌∷◌ b) (select-map_same g h bs))
