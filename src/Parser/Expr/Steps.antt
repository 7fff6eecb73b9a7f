-- ===== src/Parser/Expr/Steps.antt =====
-- How the parser's helpers use the tokens: no token comes back, and an expected one is taken.
use pipetest.Base.Outcome.{Outcome, Returns, returns, Returns-map}
use pipetest.Base.Text.{Text}
use pipetest.Base.{
  ◌≡◌, ◌≢◌, refl, sym, ◌∙◌, ap, ℕ, ◌≤◌, ◌<◌, true, false, ◌||◌, List, [], ◌∷◌, Option, Bool-cases,
  inl, inr, arith, length,
}
use pipetest.Lexer.Token.{
  tok_eof, tok_ident, tok_string, kw_req, kw_header, kw_query, Kind, kind_eq, Token,
}
use pipetest.Parser.Expr.{expect_field_name, parse_object_key, object_key_of}
use pipetest.Parser.State.{
  Parser, Parse, cur, advance, match_kind, add_error, expect, first_token, rest_tokens, continue,
}

abbrev pub size : Parser → ℕ
size p = length p.tokens

-- The token that ends the list is of kind EOF.
abbrev pub AtEof : Parser → Type 0
AtEof p = p.eof.kind ≡ tok_eof

-- No token comes back.
pub record Steps (p q : Parser) : Type 0 where
  pub fewer : size q ≤ size p
  pub same_eof : q.eof ≡ p.eof

pub Steps-trans : {p q r : Parser} → Steps p q → Steps q r → Steps p r
Steps-trans a b = record {
  fewer = omega (arith, a.fewer, b.fewer);
  same_eof = b.same_eof ∙ a.same_eof;
}

-- The run gives a value and a state with no more tokens than `p`.
abbrev pub Ends : {A : Type 0} → Parser → Outcome (A × Parser) → Type 0
Ends p m = Returns (λ r. Steps p r.1) m

pub then_Ends :
    {A B : Type 0} {m : Outcome (A × Parser)} (f : A → Parse B) {P : A × Parser → Type 0}
    {Q : B × Parser → Type 0}
    → Returns P m
    → ((a : A) (r : Parser) → P (a, r) → Returns Q (f a r))
    → Returns Q (continue m f)
then_Ends f (returns {a} h) k = k a.0 a.1 h

pub length-rest_tokens :
    (ts : List Token)
    → (length (rest_tokens ts) ≤ length ts) × (0 < length ts → length (rest_tokens ts) < length ts)
length-rest_tokens [] = (omega arith, λ h. h)
length-rest_tokens (t ∷ ts) = (omega arith, λ h. omega arith)

-- A step that may take a token, and takes one if there is one.
pub record Takes (p q : Parser) : Type 0 where
  pub steps : Steps p q
  pub strict : 0 < size p → size q < size p

pub Takes-then : {p q r : Parser} → Takes p q → Steps q r → Takes p r
Takes-then t s = record {
  steps = Steps-trans t.steps s;
  strict = λ n. omega (arith, t.strict n, s.fewer);
}

pub advance-Takes : (p : Parser) → Takes p (record p { tokens = rest_tokens p.tokens })
advance-Takes p =
    let (a, b) = length-rest_tokens p.tokens in
    record { steps = record { fewer = a; same_eof = refl }; strict = b }

pub Steps-refl : (p : Parser) → Steps p p
Steps-refl p = record { fewer = omega arith; same_eof = refl }

pub at_eof : {p q : Parser} → Steps p q → AtEof p → AtEof q
at_eof s z = ap (λ t. t.kind) s.same_eof ∙ z

-- Reporting an error leaves the tokens.
pub expect-Takes :
    (kind : Kind) (msg hint : Text) (p : Parser)
    → Returns (λ r. Takes p r.1) (expect kind msg hint p)
unfolding expect cur advance add_error
expect-Takes kind msg hint p =
    let t = advance-Takes p in
    elim (Bool-cases (kind_eq (first_token p.tokens p.eof).kind kind)) [
      | inl e ↦ rw e (returns t)
      | inr e ↦ rw e (
          returns (record {
            steps = record { fewer = t.steps.fewer; same_eof = refl };
            strict = t.strict;
          }))
    ]

pub nonempty :
    (ts : List Token) (eof : Token) (k : Kind)
    → eof.kind ≡ tok_eof
    → (first_token ts eof).kind ≡ k
    → tok_eof ≢ k
    → 0 < length ts
nonempty [] eof k z e n = absurd (n (sym z ∙ e))
nonempty (t ∷ ts) eof k z e n = omega arith

pub matched :
    (ts : List Token) (eof : Token) (k : Kind)
    → eof.kind ≡ tok_eof
    → kind_eq (first_token ts eof).kind k ≡ true
    → kind_eq tok_eof k ≡ false
    → 0 < length ts
matched [] eof k z e n = absurd (ground (arith, e, n, ap (λ x. kind_eq x k) z))
matched (t ∷ ts) eof k z e n = omega arith

pub match_kind-Takes :
    (kind : Kind) (p : Parser)
    → AtEof p
    → kind_eq tok_eof kind ≡ false
    → Returns (λ r. Steps p r.1 × (r.0 ≡ true → size r.1 < size p)) (match_kind kind p)
unfolding match_kind cur advance
match_kind-Takes kind p z n =
    let t = advance-Takes p in
    elim (Bool-cases (kind_eq (first_token p.tokens p.eof).kind kind)) [
      | inl e ↦ rw e (returns (t.steps, λ _. t.strict (matched p.tokens p.eof kind z e n)))
      | inr e ↦ rw e (returns (record { fewer = omega arith; same_eof = refl }, λ h. absurd (cc)))
    ]

pub expect_field_name-Ends : (p : Parser) → Ends p (expect_field_name p)
unfolding expect_field_name advance add_error
expect_field_name-Ends p =
    let t = advance-Takes p in
    let k = (first_token p.tokens p.eof).kind in
    elim (Bool-cases
      (kind_eq k tok_ident || (kind_eq k kw_req || (kind_eq k kw_header || kind_eq k kw_query)))) [
        | inl e ↦ rw e (returns t.steps)
        | inr e ↦ rw e (returns (record { fewer = t.steps.fewer; same_eof = refl }))
      ]

pub object_key_of-Ends :
    (unquote : Text → Option Text) (k : Kind) (tok : Token) (p : Parser)
    → Ends p (object_key_of unquote k tok p)
unfolding add_error
object_key_of-Ends unquote tok_ident tok p = returns (Steps-refl p)
object_key_of-Ends unquote tok_string tok p = returns (Steps-refl p)
object_key_of-Ends unquote _ tok p = returns (record { fewer = omega arith; same_eof = refl })

pub parse_object_key-Ends :
    (unquote : Text → Option Text) (p : Parser) → Ends p (parse_object_key unquote p)
unfolding parse_object_key advance add_error
parse_object_key-Ends unquote p =
    let t = advance-Takes p in
    let tok = first_token p.tokens p.eof in
    Returns-map
      (object_key_of-Ends unquote tok.kind tok (record p { tokens = rest_tokens p.tokens }))
      (λ r s. Steps-trans t.steps s)
