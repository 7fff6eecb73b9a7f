-- ===== src/Parser/Expr/Operators.antt =====
-- Operators and their precedence.
use pipetest.Ast.{
  UnaryOp, BinaryOp, unary_not, unary_plus, unary_minus, binary_or, binary_and, binary_eq,
  binary_ne, binary_lt, binary_lte, binary_gt, binary_gte, binary_in, binary_contains, binary_match,
  binary_add, binary_sub, binary_mul, binary_div, binary_mod,
}
use pipetest.Base.{ℕ, Option, none, some}
use pipetest.Lexer.Token.{
  op_or, op_and, op_not, op_eq, op_ne, op_lt, op_lte, op_gt, op_gte, op_in, op_contains, op_tilde,
  op_plus, op_minus, op_mul, op_div, op_mod, Kind,
}

-- `type prec int`
abbrev pub Prec : Type 0
Prec = ℕ

abbrev pub prec_lowest : Prec
prec_lowest = 0

abbrev pub prec_or : Prec
prec_or = 1

abbrev pub prec_and : Prec
prec_and = 2

abbrev pub prec_compare : Prec
prec_compare = 3

abbrev pub prec_add : Prec
prec_add = 4

abbrev pub prec_mul : Prec
prec_mul = 5

abbrev pub prec_prefix : Prec
prec_prefix = 6

unfoldable pub infix_prec : Kind → Option Prec
infix_prec op_or = some prec_or
infix_prec op_and = some prec_and
infix_prec op_eq = some prec_compare
infix_prec op_ne = some prec_compare
infix_prec op_lt = some prec_compare
infix_prec op_lte = some prec_compare
infix_prec op_gt = some prec_compare
infix_prec op_gte = some prec_compare
infix_prec op_in = some prec_compare
infix_prec op_contains = some prec_compare
infix_prec op_tilde = some prec_compare
infix_prec op_plus = some prec_add
infix_prec op_minus = some prec_add
infix_prec op_mul = some prec_mul
infix_prec op_div = some prec_mul
infix_prec op_mod = some prec_mul
infix_prec _ = none

unfoldable pub to_unary_op : Kind → UnaryOp
to_unary_op op_not = unary_not
to_unary_op op_minus = unary_minus
to_unary_op _ = unary_plus

unfoldable pub to_binary_op : Kind → BinaryOp
to_binary_op op_or = binary_or
to_binary_op op_and = binary_and
to_binary_op op_eq = binary_eq
to_binary_op op_ne = binary_ne
to_binary_op op_lt = binary_lt
to_binary_op op_lte = binary_lte
to_binary_op op_gt = binary_gt
to_binary_op op_gte = binary_gte
to_binary_op op_in = binary_in
to_binary_op op_contains = binary_contains
to_binary_op op_tilde = binary_match
to_binary_op op_plus = binary_add
to_binary_op op_minus = binary_sub
to_binary_op op_mul = binary_mul
to_binary_op op_div = binary_div
to_binary_op op_mod = binary_mod
to_binary_op _ = binary_add
