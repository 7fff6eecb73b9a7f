-- ===== src/Ast.antt =====
-- internal/ast/ast.go: the syntax tree. A Go interface is a data type with a constructor for each
-- struct that implements it; a pointer that may be nil is an option. Integers are never negative
-- here, and a literal that stands in an expression is the constructor of that struct.
use pipetest.Base.{ℕ, Bool, List, Option}
use pipetest.Base.Text.{Text}

pub record Position : Type 0 where
  pub offset : ℕ
  pub line : ℕ
  pub column : ℕ

pub record Span : Type 0 where
  pub start : Position
  pub end : Position

pub data PrintKind : Type 0 where
  print println printf : PrintKind

pub data SettingKind : Type 0 where
  setting_base setting_timeout : SettingKind

pub data HttpMethod : Type 0 where
  method_get method_post method_put method_patch method_delete method_head : HttpMethod
  method_options : HttpMethod

pub data AuthScheme : Type 0 where
  auth_bearer : AuthScheme

pub data HookKind : Type 0 where
  hook_pre hook_post : HookKind

pub data KeyKind : Type 0 where
  key_ident key_bare key_string : KeyKind

pub data ObjectKeyKind : Type 0 where
  object_key_ident object_key_string : ObjectKeyKind

pub data LValueRootKind : Type 0 where
  lvalue_ident lvalue_req lvalue_res lvalue_dollar : LValueRootKind

pub data LValuePostfixKind : Type 0 where
  lvalue_field lvalue_index : LValuePostfixKind

pub data UnaryOp : Type 0 where
  unary_not unary_plus unary_minus : UnaryOp

pub data BinaryOp : Type 0 where
  binary_or binary_and binary_eq binary_ne binary_lt binary_lte binary_gt binary_gte : BinaryOp
  binary_in binary_contains binary_match binary_add binary_sub binary_mul : BinaryOp
  binary_div binary_mod : BinaryOp

pub record Key : Type 0 where
  pub kind : KeyKind
  pub name : Text
  pub raw : Text
  pub span : Span

pub record ObjectKey : Type 0 where
  pub kind : ObjectKeyKind
  pub name : Text
  pub raw : Text
  pub span : Span

-- `Exprs` is the slice of expressions in a call or an array, `Pairs` that of an object.
mutual
  pub data Expr : Type 0 where
    ident_expr : Text → Span → Expr
    string_lit : Text → Text → Span → Expr
    number_lit : Text → Span → Expr
    duration_lit : Text → Span → Expr
    bool_lit : Bool → Span → Expr
    null_lit : Span → Expr
    dollar_expr : Span → Expr
    hash_expr : Span → Expr
    array_lit : Exprs → Span → Expr
    object_lit : Pairs → Span → Expr
    unary_expr : UnaryOp → Expr → Span → Expr
    binary_expr : BinaryOp → Expr → Expr → Span → Expr
    call_expr : Expr → Exprs → Span → Expr
    field_expr : Expr → Text → Span → Expr
    index_expr : Expr → Expr → Span → Expr
    paren_expr : Expr → Span → Expr
    bad_expr : Span → Expr

  pub data Exprs : Type 0 where
    no_exprs : Exprs
    expr_cons : Expr → Exprs → Exprs

  pub data Pairs : Type 0 where
    no_pairs : Pairs
    pair_cons : ObjectKey → Expr → Span → Pairs → Pairs

pub record StringLit : Type 0 where
  pub raw : Text
  pub value : Text
  pub span : Span

pub record ObjectLit : Type 0 where
  pub pairs : Pairs
  pub span : Span

pub record SettingStmt : Type 0 where
  pub kind : SettingKind
  pub value : Expr
  pub span : Span

pub record ImportStmt : Type 0 where
  pub path : StringLit
  pub span : Span

pub record LetStmt : Type 0 where
  pub name : Text
  pub value : Expr
  pub span : Span

pub record HttpLine : Type 0 where
  pub method : HttpMethod
  pub path : Text
  pub span : Span

pub record JsonDirective : Type 0 where
  pub value : ObjectLit
  pub span : Span

pub record HeaderDirective : Type 0 where
  pub key : Key
  pub value : Expr
  pub span : Span

pub record QueryDirective : Type 0 where
  pub key : Key
  pub value : Expr
  pub span : Span

pub record AuthDirective : Type 0 where
  pub scheme : AuthScheme
  pub value : Expr
  pub span : Span

pub record LValueRoot : Type 0 where
  pub kind : LValueRootKind
  pub name : Text
  pub span : Span

-- `index` is nil in a field postfix.
pub record LValuePostfix : Type 0 where
  pub kind : LValuePostfixKind
  pub name : Text
  pub index : Option Expr
  pub span : Span

pub record LValue : Type 0 where
  pub root : LValueRoot
  pub postfix : List LValuePostfix
  pub span : Span

pub record AssignStmt : Type 0 where
  pub target : LValue
  pub value : Expr
  pub span : Span

pub record ExprStmt : Type 0 where
  pub expr : Expr
  pub span : Span

pub record PrintStmt : Type 0 where
  pub kind : PrintKind
  pub args : List Expr
  pub span : Span

pub data HookStmt : Type 0 where
  let_hook : LetStmt → HookStmt
  assign_stmt : AssignStmt → HookStmt
  expr_stmt : ExprStmt → HookStmt
  print_stmt : PrintStmt → HookStmt

pub record HookBlock : Type 0 where
  pub kind : HookKind
  pub stmts : List HookStmt
  pub span : Span

pub record AssertStmt : Type 0 where
  pub expr : Expr
  pub span : Span

pub data ReqLine : Type 0 where
  http_line : HttpLine → ReqLine
  json_directive : JsonDirective → ReqLine
  header_directive : HeaderDirective → ReqLine
  query_directive : QueryDirective → ReqLine
  auth_directive : AuthDirective → ReqLine
  hook_block : HookBlock → ReqLine
  assert_stmt : AssertStmt → ReqLine
  let_line : LetStmt → ReqLine

pub record ReqDecl : Type 0 where
  pub name : Text
  pub parent : Option Text
  pub lines : List ReqLine
  pub span : Span

pub record FlowStep : Type 0 where
  pub req_name : Text
  pub alias : Option Text
  pub span : Span

pub record FlowDecl : Type 0 where
  pub name : StringLit
  pub prelude : List LetStmt
  pub chain : List FlowStep
  pub asserts : List AssertStmt
  pub span : Span

pub data Stmt : Type 0 where
  setting_stmt : SettingStmt → Stmt
  import_stmt : ImportStmt → Stmt
  let_stmt : LetStmt → Stmt
  req_decl : ReqDecl → Stmt
  flow_decl : FlowDecl → Stmt

pub record Program : Type 0 where
  pub stmts : List Stmt
  pub span : Span

-- The zero value of a struct.
abbrev pub zero_position : Position
zero_position = record { offset = 0; line = 0; column = 0 }

abbrev pub zero_span : Span
zero_span = record { start = zero_position; end = zero_position }
