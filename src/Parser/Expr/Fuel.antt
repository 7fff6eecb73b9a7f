-- ===== src/Parser/Expr/Fuel.antt =====
-- The expression parser ends on every list of tokens.
use pipetest.Ast.{no_pairs, Expr}
use pipetest.Base.Outcome.{Returns, returns, Returns-map}
use pipetest.Base.Text.{Text}
use pipetest.Base.{
  ◌≡◌, ◌≢◌, refl, ap, ℕ, zero, suc, ◌+◌, ◌<◌, Bool, true, false, List, [], ◌∷◌, Option, none, some,
  if◌then◌else◌, Bool-cases, inl, inr, arith, length, ltb,
}
use pipetest.Lexer.Token.{
  tok_eof, tok_colon, tok_comma, tok_dot, tok_lparen, tok_rparen, tok_lbrace, tok_rbrace,
  tok_lbrack, tok_rbrack, op_not, op_plus, op_minus, Kind, kind_id, kind_eq, Token,
}
use pipetest.Parser.Expr.Operators.{Prec, prec_lowest, prec_prefix, infix_prec}
use pipetest.Parser.Expr.{
  parse_elements, parse_list, parse_call, parse_field, parse_index, parse_array_lit, parse_pairs,
  parse_object_lit, parse_paren, parse_primary, parse_unary, parse_prefix, postfix_round,
  parse_postfix, infix_round, parse_infix, parse_expr,
}
use pipetest.Parser.State.{Parser, Parse, pure, cur, advance, add_error, first_token, rest_tokens}
use pipetest.Parser.Expr.Steps.{
  size, AtEof, Steps, Steps-trans, Ends, then_Ends, Takes, Takes-then, advance-Takes, Steps-refl,
  at_eof, expect-Takes, nonempty, match_kind-Takes, expect_field_name-Ends, parse_object_key-Ends,
}

comma_not_eof : kind_eq tok_eof tok_comma ≡ false
unfolding kind_id
comma_not_eof = refl

module _ (unquote : Text → Option Text) (bound : ℕ) (rec : Prec → Parse Expr)
    (rec-Ends : (m : Prec) (q : Parser) → AtEof q → size q + 1 < bound → Ends q (rec m q)) where
  -- The list after a comma or an opening token, with a round left for each token.
  parse_elements-Ends :
      (k : ℕ) (close : Kind) (p : Parser)
      → AtEof p
      → size p + 1 < bound
      → size p < k
      → Ends p (parse_elements unquote rec k close p)
  unfolding parse_elements cur
  parse_elements-Ends zero close p z b h = absurd (omega (arith, h))
  parse_elements-Ends (suc k) close p z b h = then_Ends _ (rec-Ends prec_lowest p z b) λ e q s.
      then_Ends _ (match_kind-Takes tok_comma q (at_eof s z) comma_not_eof) λ comma r t.
        let u = Steps-trans s t.0 in
        elim (Bool-cases comma) [
          | inl is_comma ↦
              rw is_comma (elim (Bool-cases (kind_eq (first_token r.tokens r.eof).kind close)) [
                | inl closed ↦ rw closed (returns u)
                | inr more ↦ rw more (
                    then_Ends _
                      (parse_elements-Ends k close r (at_eof u z) (omega (arith, u.fewer, b))
                        (omega (arith, s.fewer, t.1 is_comma, h)))
                      (λ es w v. returns (Steps-trans u v)))
              ])
          | inr other ↦ rw other (returns u)
        ]

  parse_list-Ends :
      (k : ℕ) (close : Kind) (p : Parser)
      → AtEof p
      → size p + 1 < bound
      → size p < k
      → Ends p (parse_list unquote rec k close p)
  unfolding parse_list cur
  parse_list-Ends k close p z b h =
      elim (Bool-cases (kind_eq (first_token p.tokens p.eof).kind close)) [
        | inl e ↦ rw e (returns (Steps-refl p))
        | inr e ↦ rw e (parse_elements-Ends k close p z b h)
      ]

  -- What is left after an opening token that is there.
  parse_call-Ends :
      (k : ℕ) (callee : Expr) (p : Parser)
      → AtEof p
      → 0 < size p
      → size p < bound
      → size p < suc k
      → Returns (λ r. Takes p r.1) (parse_call unquote rec k callee p)
  unfolding parse_call
  parse_call-Ends k callee p z n b h = then_Ends _ (expect-Takes tok_lparen _ _ p) λ o q t.
      then_Ends _
        (parse_list-Ends k tok_rparen q (at_eof t.steps z) (omega (arith, t.strict n, b))
          (omega (arith, t.strict n, h)))
        λ args r u.
          then_Ends _ (expect-Takes tok_rparen _ _ r)
            λ c w v. returns (Takes-then t (Steps-trans u v.steps))

  parse_array_lit-Ends :
      (k : ℕ) (p : Parser)
      → AtEof p
      → 0 < size p
      → size p < bound
      → size p < suc k
      → Ends p (parse_array_lit unquote rec k p)
  unfolding parse_array_lit
  parse_array_lit-Ends k p z n b h = then_Ends _ (expect-Takes tok_lbrack _ _ p) λ o q t.
      then_Ends _
        (parse_list-Ends k tok_rbrack q (at_eof t.steps z) (omega (arith, t.strict n, b))
          (omega (arith, t.strict n, h)))
        λ args r u.
          then_Ends _ (expect-Takes tok_rbrack _ _ r)
            λ c w v. returns (Steps-trans t.steps (Steps-trans u v.steps))

  parse_index-Ends :
      (left : Expr) (p : Parser)
      → AtEof p
      → 0 < size p
      → size p < bound
      → Returns (λ r. Takes p r.1) (parse_index unquote rec left p)
  unfolding parse_index
  parse_index-Ends left p z n b = then_Ends _ (expect-Takes tok_lbrack _ _ p) λ o q t.
      then_Ends _ (rec-Ends prec_lowest q (at_eof t.steps z) (omega (arith, t.strict n, b)))
        λ idx r u.
          then_Ends _ (expect-Takes tok_rbrack _ _ r)
            λ c w v. returns (Takes-then t (Steps-trans u v.steps))

  parse_paren-Ends :
      (p : Parser) → AtEof p → 0 < size p → size p < bound → Ends p (parse_paren unquote rec p)
  unfolding parse_paren advance
  parse_paren-Ends p z n b =
      let t = advance-Takes p in
      let q : Parser = record p { tokens = rest_tokens p.tokens } in
      then_Ends _ (rec-Ends prec_lowest q z (omega (arith, t.strict n, b))) λ e r u.
        then_Ends _ (expect-Takes tok_rparen _ _ r)
          λ c w v. returns (Steps-trans t.steps (Steps-trans u v.steps))

  parse_unary-Ends :
      (p : Parser) → AtEof p → 0 < size p → size p < bound → Ends p (parse_unary unquote rec p)
  unfolding parse_unary advance
  parse_unary-Ends p z n b =
      let t = advance-Takes p in
      let q : Parser = record p { tokens = rest_tokens p.tokens } in
      then_Ends _ (rec-Ends prec_prefix q z (omega (arith, t.strict n, b)))
        λ e r u. returns (Steps-trans t.steps u)

  parse_field-Ends :
      (left : Expr) (p : Parser) → Returns (λ r. Takes p r.1) (parse_field unquote rec left p)
  unfolding parse_field
  parse_field-Ends left p =
      then_Ends _ (expect-Takes tok_dot _ _ p)
        λ o q t. then_Ends _ (expect_field_name-Ends q) λ c r u. returns (Takes-then t u)

  parse_pairs-Ends :
      (k : ℕ) (p : Parser)
      → AtEof p
      → size p + 1 < bound
      → size p < k
      → Ends p (parse_pairs unquote rec k p)
  unfolding parse_pairs cur
  parse_pairs-Ends zero p z b h = absurd (omega (arith, h))
  parse_pairs-Ends (suc k) p z b h = then_Ends _ (parse_object_key-Ends unquote p) λ key q s.
      then_Ends _ (expect-Takes tok_colon _ _ q) λ o q' s'.
        let v = Steps-trans s s'.steps in
        then_Ends _ (rec-Ends prec_lowest q' (at_eof v z) (omega (arith, v.fewer, b))) λ e r u.
          let w = Steps-trans v u in
          then_Ends _ (match_kind-Takes tok_comma r (at_eof w z) comma_not_eof) λ comma r' t.
            let x = Steps-trans w t.0 in
            elim (Bool-cases comma) [
              | inl is_comma ↦
                  rw is_comma
                    (elim (Bool-cases (kind_eq (first_token r'.tokens r'.eof).kind tok_rbrace)) [
                      | inl closed ↦ rw closed (returns x)
                      | inr more ↦ rw more (
                          then_Ends _
                            (parse_pairs-Ends k r' (at_eof x z) (omega (arith, x.fewer, b))
                              (omega (arith, w.fewer, t.1 is_comma, h)))
                            (λ es y l. returns (Steps-trans x l)))
                    ])
              | inr other ↦ rw other (returns x)
            ]

  maybe_pairs-Ends :
      (k : ℕ) (b : Bool) (p : Parser)
      → AtEof p
      → size p + 1 < bound
      → size p < k
      → Ends p ((if b then pure no_pairs else parse_pairs unquote rec k) p)
  maybe_pairs-Ends k true p z b h = returns (Steps-refl p)
  maybe_pairs-Ends k false p z b h = parse_pairs-Ends k p z b h

  parse_object_lit-Ends :
      (k : ℕ) (p : Parser)
      → AtEof p
      → 0 < size p
      → size p < bound
      → size p < suc k
      → Ends p (parse_object_lit unquote rec k p)
  unfolding parse_object_lit cur
  parse_object_lit-Ends k p z n b h = then_Ends _ (expect-Takes tok_lbrace _ _ p) λ o q t.
      then_Ends _
        (maybe_pairs-Ends k (kind_eq (first_token q.tokens q.eof).kind tok_rbrace) q
          (at_eof t.steps z) (omega (arith, t.strict n, b)) (omega (arith, t.strict n, h)))
        λ pairs r u.
          then_Ends _ (expect-Takes tok_rbrace _ _ r)
            λ c w v. returns (Steps-trans t.steps (Steps-trans u v.steps))

  -- The token that is `cur` is there unless it is the last.
  parse_primary-Ends :
      (k : ℕ) (kind : Kind) (p : Parser)
      → AtEof p
      → (first_token p.tokens p.eof).kind ≡ kind
      → size p < bound
      → size p < suc k
      → Ends p (parse_primary unquote rec k kind p)
  unfolding parse_primary advance add_error
  parse_primary-Ends k tok_lparen p z e b h =
      parse_paren-Ends p z (nonempty p.tokens p.eof tok_lparen z e (λ n. absurd (cc))) b
  parse_primary-Ends k tok_lbrack p z e b h =
      parse_array_lit-Ends k p z (nonempty p.tokens p.eof tok_lbrack z e (λ n. absurd (cc))) b h
  parse_primary-Ends k tok_lbrace p z e b h =
      then_Ends _
        (parse_object_lit-Ends k p z (nonempty p.tokens p.eof tok_lbrace z e (λ n. absurd (cc))) b
          h)
        λ obj q s. returns s
  parse_primary-Ends k _ p z e b h =
      returns (record { fewer = (advance-Takes p).steps.fewer; same_eof = refl })

  parse_prefix-Ends :
      (k : ℕ) (kind : Kind) (p : Parser)
      → AtEof p
      → (first_token p.tokens p.eof).kind ≡ kind
      → size p < bound
      → size p < suc k
      → Ends p (parse_prefix unquote rec k kind p)
  unfolding parse_prefix
  parse_prefix-Ends k op_not p z e b h =
      parse_unary-Ends p z (nonempty p.tokens p.eof op_not z e (λ n. absurd (cc))) b
  parse_prefix-Ends k op_plus p z e b h =
      parse_unary-Ends p z (nonempty p.tokens p.eof op_plus z e (λ n. absurd (cc))) b
  parse_prefix-Ends k op_minus p z e b h =
      parse_unary-Ends p z (nonempty p.tokens p.eof op_minus z e (λ n. absurd (cc))) b
  parse_prefix-Ends k kind p z e b h = parse_primary-Ends k kind p z e b h

  postfix_round-Ends :
      (again : Expr → Parse Expr) (k : ℕ) (kind : Kind) (left : Expr) (p : Parser)
      → AtEof p
      → (first_token p.tokens p.eof).kind ≡ kind
      → size p < bound
      → size p < suc k
      → ((left' : Expr) (q : Parser)
          → AtEof q
          → size q < bound
          → size q < k
          → Ends q (again left' q))
      → Ends p (postfix_round unquote rec again k kind left p)
  unfolding postfix_round
  postfix_round-Ends again k tok_lparen left p z e b h ih =
      let n = nonempty p.tokens p.eof tok_lparen z e (λ n. absurd (cc)) in
      then_Ends _ (parse_call-Ends k left p z n b h) λ l q t.
        Returns-map
          (ih l q (at_eof t.steps z) (omega (arith, t.strict n, b)) (omega (arith, t.strict n, h)))
          (λ r s. Steps-trans t.steps s)
  postfix_round-Ends again k tok_dot left p z e b h ih =
      let n = nonempty p.tokens p.eof tok_dot z e (λ n. absurd (cc)) in
      then_Ends _ (parse_field-Ends left p) λ l q t.
        Returns-map
          (ih l q (at_eof t.steps z) (omega (arith, t.strict n, b)) (omega (arith, t.strict n, h)))
          (λ r s. Steps-trans t.steps s)
  postfix_round-Ends again k tok_lbrack left p z e b h ih =
      let n = nonempty p.tokens p.eof tok_lbrack z e (λ n. absurd (cc)) in
      then_Ends _ (parse_index-Ends left p z n b) λ l q t.
        Returns-map
          (ih l q (at_eof t.steps z) (omega (arith, t.strict n, b)) (omega (arith, t.strict n, h)))
          (λ r s. Steps-trans t.steps s)
  postfix_round-Ends again k _ left p z e b h ih = returns (Steps-refl p)

  parse_postfix-Ends :
      (k : ℕ) (left : Expr) (p : Parser)
      → AtEof p
      → size p < bound
      → size p < k
      → Ends p (parse_postfix unquote rec k left p)
  unfolding parse_postfix cur
  parse_postfix-Ends zero left p z b h = absurd (omega (arith, h))
  parse_postfix-Ends (suc k) left p z b h =
      postfix_round-Ends (parse_postfix unquote rec k) k (first_token p.tokens p.eof).kind left p z
        refl b h (parse_postfix-Ends k)

  infix_round-Ends :
      (again : Expr → Parse Expr) (k : ℕ) (min : Prec) (left : Expr) (o : Option Prec) (p : Parser)
      → AtEof p
      → (o ≢ none → 0 < size p)
      → size p < bound
      → size p < suc k
      → ((left' : Expr) (q : Parser)
          → AtEof q
          → size q < bound
          → size q < k
          → Ends q (again left' q))
      → Ends p (infix_round unquote rec again k min left o p)
  unfolding infix_round advance
  infix_round-Ends again k min left none p z n b h ih = returns (Steps-refl p)
  infix_round-Ends again k min left (some prec) p z n b h ih = elim (Bool-cases (ltb prec min)) [
    | inl low ↦ rw low (returns (Steps-refl p))
    | inr high ↦ rw high (
        let t = advance-Takes p in
        let m = t.strict (n (λ e. absurd (cc))) in
        let q : Parser = record p { tokens = rest_tokens p.tokens } in
        then_Ends _ (rec-Ends (suc prec) q z (omega (arith, m, b))) λ right r u.
          let v = Steps-trans t.steps u in
          then_Ends _
            (parse_postfix-Ends k _ r (at_eof v z) (omega (arith, u.fewer, m, b))
              (omega (arith, u.fewer, m, h)))
            λ l w x.
              Returns-map
                (ih l w (at_eof (Steps-trans v x) z) (omega (arith, x.fewer, u.fewer, m, b))
                  (omega (arith, x.fewer, u.fewer, m, h)))
                (λ _ y. Steps-trans v (Steps-trans x y)))
  ]

  -- A token with a precedence is there.
  infix_nonempty :
      (ts : List Token) (eof : Token)
      → eof.kind ≡ tok_eof
      → infix_prec (first_token ts eof).kind ≢ none
      → 0 < length ts
  unfolding infix_prec
  infix_nonempty [] eof z n = absurd (n (ap infix_prec z))
  infix_nonempty (t ∷ ts) eof z n = omega arith

  parse_infix-Ends :
      (k : ℕ) (min : Prec) (left : Expr) (p : Parser)
      → AtEof p
      → size p < bound
      → size p < k
      → Ends p (parse_infix unquote rec k min left p)
  unfolding parse_infix cur
  parse_infix-Ends zero min left p z b h = absurd (omega (arith, h))
  parse_infix-Ends (suc k) min left p z b h =
      infix_round-Ends (parse_infix unquote rec k min) k min left
        (infix_prec (first_token p.tokens p.eof).kind) p z (infix_nonempty p.tokens p.eof z) b h
        (parse_infix-Ends k min)

-- `parseExpr` ends with an expression on every list of tokens that ends in EOF, if the fuel is more
-- than one above the number of tokens; it leaves no more tokens than there were, and the same end.
pub parse_expr-Returns :
    (unquote : Text → Option Text) (fuel : ℕ) (min : Prec) (p : Parser)
    → p.eof.kind ≡ tok_eof
    → length p.tokens + 1 < fuel
    → Returns (λ r. Steps p r.1) (parse_expr unquote fuel min p)
unfolding parse_expr cur
parse_expr-Returns unquote zero min p z h = absurd (omega (arith, h))
parse_expr-Returns unquote (suc k) min p z h =
    let rec = parse_expr unquote k in
    let safe = parse_expr-Returns unquote k in
    let b : length p.tokens < k = omega (arith, h) in
    let b' : length p.tokens < suc k = omega (arith, h) in
    then_Ends _
      (parse_prefix-Ends unquote k rec safe k (first_token p.tokens p.eof).kind p z refl b b')
      λ left q s.
        then_Ends _
          (parse_postfix-Ends unquote k rec safe k left q (at_eof s z) (omega (arith, s.fewer, b))
            (omega (arith, s.fewer, b)))
          λ left' r t.
            let u = Steps-trans s t in
            Returns-map
              (parse_infix-Ends unquote k rec safe k min left' r (at_eof u z)
                (omega (arith, u.fewer, b)) (omega (arith, u.fewer, b)))
              (λ _ v. Steps-trans u v)
