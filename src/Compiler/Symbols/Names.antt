-- ===== src/Compiler/Symbols/Names.antt =====
-- The request table of `passSymbols` has every request under its own name.
use pipetest.Ast.{Stmt, import_stmt, setting_stmt, let_stmt, req_decl, flow_decl}
use pipetest.Base.Assoc.{lookup, insert, lookup-insert}
use pipetest.Base.Text.{Text, text_eq, text_eq_iff}
use pipetest.Base.{
  ◌≡◌, sym, ◌∙◌, ap, List, [], ◌∷◌, some, if◌then◌else◌, Bool-cases, Option-cases, inl, inr,
}
use pipetest.Compiler.State.{ReqInfo}
use pipetest.Compiler.Symbols.{SymbolTable, symbol_stmt, symbol_stmts}

abbrev pub Named : List (Text × ReqInfo) → Type 0
Named reqs = (k : Text) (req : ReqInfo) → lookup k reqs ≡ some req → req.decl.name ≡ k

insert-Named :
    (reqs : List (Text × ReqInfo)) (req : ReqInfo)
    → Named reqs
    → Named (insert req.decl.name req reqs)
insert-Named reqs req h k r e = elim (Bool-cases (text_eq req.decl.name k)) [
  | inl same ↦
      let found : some req ≡ some r =
        rw (ap (λ b. if b then some req else lookup k reqs) (sym same))
          (sym (lookup-insert req.decl.name k req reqs) ∙ e) in
      let eq : req ≡ r = cc in ap (λ x. x.decl.name) (sym eq) ∙ (text_eq_iff req.decl.name k).0 same
  | inr other ↦ h k r (
      ap (λ b. if b then some req else lookup k reqs) (sym other)
      ∙ sym (lookup-insert req.decl.name k req reqs)
      ∙ e)
]

symbol_stmt-Named :
    (entry path : Text) (s : Stmt) (t : SymbolTable)
    → Named t.reqs
    → Named (symbol_stmt entry path s t).reqs
unfolding symbol_stmt
symbol_stmt-Named entry path (flow_decl s) t h =
    elim (Option-cases (lookup s.name.value t.flow_names)) [
      | inl e ↦ rw (e, symbol_stmt) h
      | inr (prev, e) ↦ rw (e, symbol_stmt) h
    ]
symbol_stmt-Named entry path (req_decl s) t h = elim (Option-cases (lookup s.name t.reqs)) [
  | inl e ↦ rw (e, symbol_stmt) (insert-Named t.reqs (record { decl = s; file = path }) h)
  | inr (prev, e) ↦ rw (e, symbol_stmt) h
]
symbol_stmt-Named entry path (let_stmt s) t h = h
symbol_stmt-Named entry path (import_stmt s) t h = h
symbol_stmt-Named entry path (setting_stmt s) t h = h

pub symbol_stmts-Named :
    (entry path : Text) (ss : List Stmt) (t : SymbolTable)
    → Named t.reqs
    → Named (symbol_stmts entry path ss t).reqs
unfolding symbol_stmts
symbol_stmts-Named entry path [] t h = h
symbol_stmts-Named entry path (s ∷ ss) t h =
    symbol_stmts-Named entry path ss (symbol_stmt entry path s t)
      (symbol_stmt-Named entry path s t h)
