-- ===== src/Compiler/Inherit/Chain.antt =====
-- The pass resolves every request, and does so along its parent chain unless it reports a cycle.
use mathlib.Core.Path.{subst, subst₂}
use pipetest.Ast.{ReqLine}
use pipetest.Base.Assoc.{lookup, lookup-insert, member}
use pipetest.Base.Outcome.{Outcome, ok, ◌>>=◌, Returns, returns, Returns-bind, Returns-map}
use pipetest.Base.Text.{Text, text_eq, text_eq_iff, text_eq_refl}
use pipetest.Base.Visits.{vis_of, vis_of-insert, unmet, unmet-insert-lt, unmet-le-length}
use pipetest.Base.{
  ◌≡◌, refl, sym, ℕ, zero, suc, ◌≤◌, ◌<◌, true, List, [], ◌∷◌, Option, none, some, is_some,
  Bool-cases, inl, inr, arith, length, length-append,
}
use pipetest.Compiler.Inherit.View.{View, cached, stacked, settled, unvisited, resolve-View, mark}
use pipetest.Compiler.Inherit.{
  Resolution, Resolved, on_stack, resolve_parent, resolve_fresh, settle, resolve, resolve_all,
  inheritance_cycle,
}
use pipetest.Compiler.Merge.{merge_request_lines}
use pipetest.Compiler.State.{ReqInfo}

-- The lines that a request inherits along its parents: those of its parent, merged with its own.
-- A parent that does not exist has no lines.
pub data Inherits (reqs : List (Text × ReqInfo)) : Text → List ReqLine → Type 0 where
  unknown : {name : Text} → lookup name reqs ≡ none → Inherits reqs name []
  root :
      {name : Text} {req : ReqInfo}
      → lookup name reqs ≡ some req
      → req.decl.parent ≡ none
      → Inherits reqs name (merge_request_lines [] req.decl.lines)
  child :
      {name p : Text} {req : ReqInfo} {lines : List ReqLine}
      → lookup name reqs ≡ some req
      → req.decl.parent ≡ some p
      → Inherits reqs p lines
      → Inherits reqs name (merge_request_lines lines req.decl.lines)

-- An effective entry is a merge whatever the graph is.
pub record IsMerge (lines : List ReqLine) : Type 0 where
  pub parent : List ReqLine
  pub own : List ReqLine
  pub merged : lines ≡ merge_request_lines parent own

module _ (reqs : List (Text × ReqInfo)) where
  -- Marks and entries fit together.
  pub record Fits (r : Resolution) : Type 0 where
    pub on_stack_known : (k : Text) → vis_of k r.state ≡ 1 → is_some (lookup k reqs) ≡ true
    pub done_entered : (k : Text) → vis_of k r.state ≡ 2 → is_some (lookup k r.eff_reqs) ≡ true
    pub small : (k : Text) → vis_of k r.state ≤ 2
    pub all_merged : (k : Text) (ls : List ReqLine) → lookup k r.eff_reqs ≡ some ls → IsMerge ls

  abbrev pub Entered : Resolution → Type 0
  Entered r = (k : Text) (ls : List ReqLine) → lookup k r.eff_reqs ≡ some ls → Inherits reqs k ls

  -- What a call of `resolve` on `name` does, from `r` to the result.
  record Advance (name : Text) (r : Resolution) (p : Resolved) : Type 0 where
    fits : Fits p.1
    reports : length r.diags ≤ length p.1.diags
    quiet : length p.1.diags ≡ length r.diags → Entered r → Entered p.1 × Inherits reqs name p.0
    grows :
        (k : Text) → is_some (lookup k r.eff_reqs) ≡ true → is_some (lookup k p.1.eff_reqs) ≡ true
    has_entry :
        length p.1.diags ≡ length r.diags
        → is_some (lookup name reqs) ≡ true
        → is_some (lookup name p.1.eff_reqs) ≡ true

  mark-Fits :
      (name : Text) (r : Resolution)
      → is_some (lookup name reqs) ≡ true
      → Fits r
      → Fits (mark reqs name r)
  mark-Fits name r known f = record {
    on_stack_known = λ k h.
        ground (arith, vis_of-insert name k 1 r.state, text_eq_iff name k, f.on_stack_known k);
    done_entered = λ k h. ground (arith, vis_of-insert name k 1 r.state, f.done_entered k);
    small = λ k. ground (arith, vis_of-insert name k 1 r.state, f.small k);
    all_merged = f.all_merged;
  }

  settle-Fits : (name : Text) (req : ReqInfo) (p : Resolved) → Fits p.1 → Fits (settle name req p).1
  unfolding settle
  settle-Fits name req (lines, r) f = record {
    on_stack_known = λ k h. ground (arith, vis_of-insert name k 2 r.state, f.on_stack_known k);
    done_entered = λ k h. ground (
      arith,
      vis_of-insert name k 2 r.state,
      lookup-insert name k (merge_request_lines lines req.decl.lines) r.eff_reqs,
      f.done_entered k,
    );
    small = λ k. ground (arith, vis_of-insert name k 2 r.state, f.small k);
    all_merged = λ k ls e. elim (Bool-cases (text_eq name k)) [
      | inl same ↦ record {
        parent = lines;
        own = req.decl.lines;
        merged =
            ground
              (arith, lookup-insert name k (merge_request_lines lines req.decl.lines) r.eff_reqs);
      }
      | inr other ↦ f.all_merged k ls (
          ground
            (arith, lookup-insert name k (merge_request_lines lines req.decl.lines) r.eff_reqs))
    ];
  }

  -- With the parent's lines at hand the request is entered.
  settle-quiet :
      (name : Text) (req : ReqInfo) (lines : List ReqLine) (r : Resolution)
      → Entered r
      → Inherits reqs name (merge_request_lines lines req.decl.lines)
      → Entered (settle name req (lines, r)).1
  unfolding settle
  settle-quiet name req lines r old new k ls e = elim (Bool-cases (text_eq name k)) [
    | inl same ↦
        moved ((text_eq_iff name k).0 same) (
          ground
            (arith, lookup-insert name k (merge_request_lines lines req.decl.lines) r.eff_reqs))
    | inr other ↦
        old k ls (
          ground
            (arith, lookup-insert name k (merge_request_lines lines req.decl.lines) r.eff_reqs))
  ]
    where
      moved : name ≡ k → merge_request_lines lines req.decl.lines ≡ ls → Inherits reqs k ls
      moved p q = subst₂ (λ a b. Inherits reqs a b) p q new

  abbrev Advances : Text → Resolution → Outcome Resolved → Type 0
  Advances name r = Returns (Advance name r)

  settle-Advance :
      (name : Text) (req : ReqInfo) (lines : List ReqLine) (r r' : Resolution)
      → Fits r'
      → length r.diags ≤ length r'.diags
      → (length r'.diags ≡ length r.diags
          → Entered r
          → Entered r' × Inherits reqs name (merge_request_lines lines req.decl.lines))
      → ((k : Text) → is_some (lookup k r.eff_reqs) ≡ true → is_some (lookup k r'.eff_reqs) ≡ true)
      → Advance name r (settle name req (lines, r'))
  unfolding settle
  settle-Advance name req lines r r' f h q g = record {
    fits = settle-Fits name req (lines, r') f;
    reports = h;
    quiet = λ e old. let (old', new) = q e old in (settle-quiet name req lines r' old' new, new);
    grows = λ k e.
        ground (
          arith,
          lookup-insert name k (merge_request_lines lines req.decl.lines) r'.eff_reqs,
          g k e,
        );
    has_entry = λ q' k. ground (
      arith,
      text_eq_refl name,
      lookup-insert name name (merge_request_lines lines req.decl.lines) r'.eff_reqs,
    );
  }

  -- The parent of a request that is entered: none, or a call of `resolve`.
  resolve_fresh-Advances :
      (rec : Text → Resolution → Outcome Resolved) (name : Text) (req : ReqInfo) (r : Resolution)
      → lookup name reqs ≡ some req
      → Fits r
      → ((p : Text) → Advances p (mark reqs name r) (rec p (mark reqs name r)))
      → (parent : Option Text) → req.decl.parent ≡ parent
      → Advances name r
          (resolve_parent rec parent (mark reqs name r) >>= λ p. ok (settle name req p))
  unfolding resolve_parent
  resolve_fresh-Advances rec name req r found f call none e = returns (
      settle-Advance name req [] r (mark reqs name r) (mark-Fits name r (rw found refl) f)
        (omega arith) (λ q old. (old, root found e)) (λ k e'. e'))
  resolve_fresh-Advances rec name req r found f call (some p) e =
      Returns-bind _ (call p) λ (lines, r') a. returns (
        settle-Advance name req lines r r' a.fits a.reports
          (λ q old. let (old', up) = a.quiet q old in (old', child found e up)) a.grows)

  on_stack-Advance :
      (name : Text) (r : Resolution)
      → Fits r
      → vis_of name r.state ≡ 1
      → (o : Option ReqInfo) → lookup name reqs ≡ o
      → Advance name r (on_stack o r)
  unfolding on_stack
  on_stack-Advance name r f v none e = absurd (ground (arith, f.on_stack_known name v))
  on_stack-Advance name r f v (some req) e = record {
    fits = record {
      on_stack_known = f.on_stack_known;
      done_entered = f.done_entered;
      small = f.small;
      all_merged = f.all_merged;
    };
    reports = omega (arith, length-append {0} r.diags (inheritance_cycle req ∷ []));
    quiet = λ q old. absurd (omega (arith, length-append {0} r.diags (inheritance_cycle req ∷ [])));
    grows = λ k h. h;
    has_entry =
        λ q k. absurd (omega (arith, length-append {0} r.diags (inheritance_cycle req ∷ [])));
  }

  -- With more fuel than there are requests not met, `resolve` ends, keeps the marks in order, and
  -- unless it reports a cycle gives the inherited lines.
  resolve-Advances :
      (fuel : ℕ) (name : Text) (r : Resolution)
      → unmet r.state reqs < fuel
      → Fits r
      → Advances name r (resolve reqs fuel name r)
  resolve-Advances zero name r h f = absurd (omega arith)
  resolve-Advances (suc fuel) name r h f =
      by_view (resolve reqs (suc fuel) name r) (resolve-View reqs fuel name r)
        (λ p s k g. resolve-Advances fuel p s k g)
    where
      unchanged :
          (lines : List ReqLine)
          → (Entered r → Inherits reqs name lines)
          → (is_some (lookup name reqs) ≡ true → is_some (lookup name r.eff_reqs) ≡ true)
          → Advance name r (lines, r)
      unchanged lines i k = record {
        fits = f;
        reports = omega arith;
        quiet = λ q old. (old, i old);
        grows = λ j e. e;
        has_entry = λ q. k;
      }

      fresh :
          ((p : Text) (s : Resolution)
            → unmet s.state reqs < fuel
            → Fits s
            → Advances p s (resolve reqs fuel p s))
          → vis_of name r.state ≡ 0
          → (o : Option ReqInfo) → lookup name reqs ≡ o
          → Advances name r (resolve_fresh (resolve reqs fuel) name r o)
      fresh ih v none e =
          unfold resolve_fresh in returns (unchanged [] (λ old. unknown e) (λ k. ground arith))
      fresh ih v (some req) e =
          unfold resolve_fresh in
          resolve_fresh-Advances (resolve reqs fuel) name req r e f
            (λ p.
              ih p (mark reqs name r)
                (omega (arith, unmet-insert-lt name 1 r.state reqs req (omega arith) v e))
                (mark-Fits name r (rw e refl) f))
            req.decl.parent refl

      by_view :
          (m : Outcome Resolved)
          → View reqs fuel name r m
          → ((p : Text) (s : Resolution)
              → unmet s.state reqs < fuel
              → Fits s
              → Advances p s (resolve reqs fuel p s))
          → Advances name r m
      by_view m (cached {lines} e) ih =
          returns (unchanged lines (λ old. old name lines e) (λ k. rw e refl))
      by_view m (stacked v) ih = returns (on_stack-Advance name r f v (lookup name reqs) refl)
      by_view m (settled e v) ih = absurd (ground (arith, f.done_entered name v))
      by_view m (unvisited a b) ih = fresh ih (omega (arith, f.small name)) (lookup name reqs) refl

  -- What resolving a list of names does.
  pub record AdvanceAll (names : List Text) (r r' : Resolution) : Type 0 where
    pub fits : Fits r'
    pub reports : length r.diags ≤ length r'.diags
    pub quiet : length r'.diags ≡ length r.diags → Entered r → Entered r'
    pub grows :
        (k : Text) → is_some (lookup k r.eff_reqs) ≡ true → is_some (lookup k r'.eff_reqs) ≡ true
    pub has_entries :
        length r'.diags ≡ length r.diags
        → (k : Text) → member k names ≡ true
        → is_some (lookup k reqs) ≡ true
        → is_some (lookup k r'.eff_reqs) ≡ true

  AdvanceAll-cons :
      (name : Text) (names : List Text) (r r' : Resolution) (p : Resolved)
      → Advance name r p
      → AdvanceAll names p.1 r'
      → AdvanceAll (name ∷ names) r r'
  AdvanceAll-cons name names r r' p a b = record {
    fits = b.fits;
    reports = omega (arith, a.reports, b.reports);
    quiet = λ q old.
        b.quiet (omega (arith, a.reports, b.reports))
          (a.quiet (omega (arith, a.reports, b.reports)) old).0;
    grows = λ k e. b.grows k (a.grows k e);
    has_entries = λ q k m known. elim (Bool-cases (text_eq name k)) [
      | inl same ↦ b.grows k (
          subst (λ j. is_some (lookup j p.1.eff_reqs) ≡ true) ((text_eq_iff name k).0 same)
            (a.has_entry (omega (arith, a.reports, b.reports)) (
              subst (λ j. is_some (lookup j reqs) ≡ true) (sym ((text_eq_iff name k).0 same))
                known)))
      | inr other ↦
          b.has_entries (omega (arith, a.reports, b.reports)) k (unfold member in ground arith)
            known
    ];
  }

  pub resolve_all-AdvanceAll :
      (names : List Text) (r : Resolution)
      → Fits r
      → Returns (AdvanceAll names r) (resolve_all reqs (suc (length reqs)) names r)
  unfolding resolve_all
  resolve_all-AdvanceAll [] r f = returns (record {
    fits = f;
    reports = omega arith;
    quiet = λ q old. old;
    grows = λ k e. e;
    has_entries = λ q k m. absurd (no_member k m);
  })
    where
      no_member : (k : Text) → ¬ (member k [] ≡ true)
      no_member k m = unfold member in cc
  resolve_all-AdvanceAll (name ∷ names) r f =
      Returns-bind (λ (_, r'). resolve_all reqs (suc (length reqs)) names r')
        (resolve-Advances (suc (length reqs)) name r (omega (arith, unmet-le-length r.state reqs))
          f)
        λ (lines, s) a.
          Returns-map (resolve_all-AdvanceAll names s a.fits)
            (λ r' b. AdvanceAll-cons name names r r' (lines, s) a b)
