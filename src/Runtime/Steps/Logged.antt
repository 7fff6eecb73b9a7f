-- ===== src/Runtime/Steps/Logged.antt =====
-- What the log of assertions gets for two assertions of one step.
use pipetest.Ast.{Expr}
use pipetest.Base.Text.{Text, text, text_eq, text_eq_iff, text_eq_refl}
use pipetest.Base.{
  ◌≡◌, refl, sym, ap, ◌∙◌, Bool, true, false, Option, none, some, [], ◌∷◌, ◌++◌, ◌||◌, ◌&&◌, arith,
  Bool-cases, inl, inr,
}
use pipetest.Runtime.Steps.{
  AssertionLogger, status_mark, is_empty, enter_flow, enter_request, log_line, log, format_expr,
}

-- The line on an assertion, further in when it belongs to a step.
abbrev pub line_text : Text → Text → Bool → Text
line_text [] shown passed =
    text "  - assertion " ++ (shown ++ b' ' ∷ (status_mark passed ++ text "\n"))
line_text (b ∷ bs) shown passed =
    text "    - assertion " ++ (shown ++ b' ' ∷ (status_mark passed ++ text "\n"))

abbrev pub written : Option AssertionLogger → Text
written none = []
written (some l) = l.written

-- The log stands in the flow and at the step.
record At (flow target : Text) (l : AssertionLogger) : Type 0 where
  in_flow : (is_empty flow || text_eq flow l.current_flow_name) ≡ true
  at_target : l.current_request_target ≡ target

enter_flow-in_flow :
    (flow : Text) (l : AssertionLogger)
    → (is_empty flow || text_eq flow (enter_flow flow l).current_flow_name) ≡ true
unfolding enter_flow
enter_flow-in_flow flow l = elim (Bool-cases (is_empty flow || text_eq flow l.current_flow_name)) [
  | inl e ↦ rw e e
  | inr e ↦ rw e (ground (arith, text_eq_refl flow))
]

enter_flow-suppress :
    (flow : Text) (l : AssertionLogger) → (enter_flow flow l).suppress_passing ≡ l.suppress_passing
unfolding enter_flow
enter_flow-suppress flow l = elim (Bool-cases (is_empty flow || text_eq flow l.current_flow_name)) [
  | inl e ↦ rw e refl
  | inr e ↦ rw e refl
]

-- A line leaves the log in its flow and at its step.
log_line-At :
    (flow target shown : Text) (passed : Bool) (l : AssertionLogger)
    → (is_empty flow || text_eq flow l.current_flow_name) ≡ true
    → At flow target (log_line target shown passed l)
unfolding log_line enter_request is_empty text_eq
log_line-At flow [] shown passed l h = record { in_flow = h; at_target = refl }
log_line-At flow (b ∷ bs) shown passed l h =
    elim (Bool-cases (text_eq (b ∷ bs) l.current_request_target)) [
      | inl e ↦ rw e (record {
        in_flow = h;
        at_target = sym ((text_eq_iff (b ∷ bs) l.current_request_target).0 e);
      })
      | inr e ↦ rw e (record { in_flow = h; at_target = refl })
    ]

log_line-suppress :
    (target shown : Text) (passed : Bool) (l : AssertionLogger)
    → (log_line target shown passed l).suppress_passing ≡ l.suppress_passing
unfolding log_line enter_request is_empty text_eq
log_line-suppress [] shown passed l = refl
log_line-suppress (b ∷ bs) shown passed l =
    elim (Bool-cases (text_eq (b ∷ bs) l.current_request_target)) [
      | inl e ↦ rw e refl
      | inr e ↦ rw e refl
    ]

-- There a line is all that is written.
log_line-written :
    (target shown : Text) (passed : Bool) (l : AssertionLogger)
    → l.current_request_target ≡ target
    → (log_line target shown passed l).written ≡ l.written ++ line_text target shown passed
unfolding log_line enter_request is_empty
log_line-written [] shown passed l h = refl
log_line-written (b ∷ bs) shown passed l h = rw (h, text_eq_refl (b ∷ bs)) refl

-- At a step that the log does not stand at, its heading comes first.
log_line-new :
    (target shown : Text) (passed : Bool) (l : AssertionLogger)
    → l.current_request_target ≡ []
    → is_empty target ≡ false
    → (log_line target shown passed l).written
      ≡ l.written ++ (text "  - " ++ (target ++ text "\n")) ++ line_text target shown passed
unfolding log_line enter_request is_empty text_eq
log_line-new [] shown passed l h n = absurd (cc)
log_line-new (b ∷ bs) shown passed l h n = rw h refl

module _ (quote : Text → Text) where
  log-again :
      (flow target : Text) (expr : Expr) (passed : Bool) (l : AssertionLogger)
      → l.suppress_passing ≡ false
      → At flow target l
      → written (log quote flow target expr passed (some l))
        ≡ l.written ++ line_text target (format_expr quote expr) passed
  unfolding log enter_flow
  log-again flow target expr passed l s a =
      let u : (passed && l.suppress_passing) ≡ false = ground (arith, s) in
      rw (u, a.in_flow) (log_line-written target (format_expr quote expr) passed l a.at_target)

  -- The first assertion in a flow writes both headings.
  log-first :
      (flow target : Text) (expr : Expr) (passed : Bool) (l : AssertionLogger)
      → l.suppress_passing ≡ false
      → is_empty flow ≡ false
      → text_eq flow l.current_flow_name ≡ false
      → is_empty target ≡ false
      → written (log quote flow target expr passed (some l))
        ≡ l.written
          ++ (text "- flow " ++ (flow ++ text "\n"))
          ++ (text "  - " ++ (target ++ text "\n"))
          ++ line_text target (format_expr quote expr) passed
  unfolding log enter_flow
  log-first flow target expr passed l s nf nc nt =
      let u : (passed && l.suppress_passing) ≡ false = ground (arith, s) in
      let v : (is_empty flow || text_eq flow l.current_flow_name) ≡ false =
        ground (arith, nf, nc) in
      rw (u, v) (log_line-new target (format_expr quote expr) passed _ refl nt)

  -- Where passing assertions are shown, a second assertion of the same step is one line more.
  log-once :
      (flow target : Text) (first second : Expr) (p q : Bool) (l : AssertionLogger)
      → l.suppress_passing ≡ false
      → written (log quote flow target second q (log quote flow target first p (some l)))
        ≡ written (log quote flow target first p (some l))
          ++ line_text target (format_expr quote second) q
  unfolding log
  log-once flow target first second p q l s =
      let u : (p && l.suppress_passing) ≡ false = ground (arith, s) in
      let m = log_line target (format_expr quote first) p (enter_flow flow l) in
      rw u (
        log-again flow target second q m
          (log_line-suppress target (format_expr quote first) p (enter_flow flow l)
            ∙ (enter_flow-suppress flow l ∙ s))
          (log_line-At flow target (format_expr quote first) p (enter_flow flow l)
            (enter_flow-in_flow flow l)))

  -- Where passing assertions are shown, two assertions in a row of one step of a flow in which
  -- the log does not stand, flow and step both with a name, write one heading of the flow, then
  -- one of the step, then the line of the first and that of the second assertion.
  pub written-log :
      (flow target : Text) (first second : Expr) (p q : Bool) (l : AssertionLogger)
      → l.suppress_passing ≡ false
      → is_empty flow ≡ false
      → text_eq flow l.current_flow_name ≡ false
      → is_empty target ≡ false
      → written (log quote flow target second q (log quote flow target first p (some l)))
        ≡ l.written
          ++ (text "- flow " ++ (flow ++ text "\n"))
          ++ (text "  - " ++ (target ++ text "\n"))
          ++ line_text target (format_expr quote first) p
          ++ line_text target (format_expr quote second) q
  written-log flow target first second p q l s nf nc nt =
      log-once flow target first second p q l s
      ∙ ap (λ w. w ++ line_text target (format_expr quote second) q)
          (log-first flow target first p l s nf nc nt)
