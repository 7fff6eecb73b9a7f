-- ===== src/Base/Keyed.antt =====
-- A map with the order in which its keys came, as the source keeps it in two variables.
use mathlib.Core.Path.{◌≡◌, refl, ◌∙◌, subst}
use mathlib.Core.Logic.{inl, inr}
use mathlib.Core.Bool.{Bool, false}
use mathlib.Core.List.{List, [], ◌∷◌, ◌++◌, append-nil}
use mathlib.Core.Option.{Option, none, some}
use native.Mathlib.Omega.{arith}
use pipetest.Base.Tests.{if◌then◌else◌, is_some, Bool-cases, Option-cases}
use pipetest.Base.Lists.{filter, filter-append, option_list}
use pipetest.Base.Text.{Text, text_eq, text_eq_iff}
use pipetest.Base.Assoc.{lookup, insert, lookup-insert, member, member-append}

pub record Keyed (V : Type 0) : Type 0 where
  pub entries : List (Text × V)
  pub order : List Text

abbrev pub no_entries : {V : Type 0} → Keyed V
no_entries = record { entries = []; order = [] }

-- No key stands twice.
abbrev pub IsDistinct : List Text → Type 0
IsDistinct [] = Unit
IsDistinct (k ∷ ks) = (member k ks ≡ false) × IsDistinct ks

IsDistinct-concat :
    (k : Text) (ks : List Text) → IsDistinct ks → member k ks ≡ false → IsDistinct (ks ++ k ∷ [])
unfolding member
IsDistinct-concat k [] d h = (refl, tt)
IsDistinct-concat k (j ∷ ks) d h = (
  ground (arith, member-append j ks (k ∷ []), text_eq_iff j k, text_eq_iff k j),
  IsDistinct-concat k ks d.1 (ground arith),
)

module _ {V : Type 0} where
  -- `if _, ok := m[k]; !ok { order = append(order, k) }; m[k] = v`
  unfoldable pub put : Text → V → Keyed V → Keyed V
  unfolding lookup insert
  put k v t = record {
    entries = insert k v t.entries;
    order = if is_some (lookup k t.entries) then t.order else t.order ++ k ∷ [];
  }

  values_at : List Text → List (Text × V) → List V
  values_at [] m = []
  values_at (k ∷ ks) m = option_list (lookup k m) ++ values_at ks m

  -- `for _, k := range order { out = append(out, m[k]) }`; a key of `order` is always in `m`.
  unfoldable pub values : Keyed V → List V
  unfolding values_at lookup
  values t = values_at t.order t.entries

  -- The keys are in step, each once, and a value stands under its own key.
  pub record IsKeyed (key : V → Text) (t : Keyed V) : Type 0 where
    pub in_step : (k : Text) → member k t.order ≡ is_some (lookup k t.entries)
    pub own_key : (k : Text) (v : V) → lookup k t.entries ≡ some v → key v ≡ k

  pub put-IsKeyed :
      (key : V → Text) (v : V) (t : Keyed V) → IsKeyed key t → IsKeyed key (put (key v) v t)
  unfolding put
  put-IsKeyed key v t h = record { in_step = λ k. in_step k; own_key = λ k w e. own k w e }
    where
      in_step :
          (k : Text)
          → member k (put (key v) v t).order ≡ is_some (lookup k (put (key v) v t).entries)
      in_step k = rw lookup-insert (
          unfold member in
          ground (
            arith,
            h.in_step k,
            h.in_step (key v),
            text_eq_iff (key v) k,
            member-append k t.order (key v ∷ []),
          ))

      own : (k : Text) (w : V) → lookup k (put (key v) v t).entries ≡ some w → key w ≡ k
      own k w e = ground (arith, rw lookup-insert at e, text_eq_iff (key v) k, h.own_key k w)

  pub put-IsDistinct :
      (key : V → Text) (k : Text) (v : V) (t : Keyed V)
      → IsKeyed key t
      → IsDistinct t.order
      → IsDistinct (put k v t).order
  unfolding put
  put-IsDistinct key k v t h d = elim (Bool-cases (is_some (lookup k t.entries))) [
    | inl e ↦ rw e d
    | inr e ↦ rw e (IsDistinct-concat k t.order d (h.in_step k ∙ e))
  ]

  pub lookup-put :
      (k j : Text) (v : V) (t : Keyed V)
      → lookup j (put k v t).entries ≡ (if text_eq k j then some v else lookup j t.entries)
  unfolding put
  lookup-put k j v t = lookup-insert k j v t.entries

  module _ (key : V → Text) (k : Text) where
    abbrev pub has_key : V → Bool
    has_key v = text_eq (key v) k

    head_key :
        (j : Text) (t : Keyed V)
        → IsKeyed key t
        → filter has_key (option_list (lookup j t.entries))
          ≡ (if text_eq j k then option_list (lookup j t.entries) else [])
    head_key j t h = elim (Option-cases (lookup j t.entries)) [
      | inl e ↦ rw e (ground arith)
      | inr (v, e) ↦ rw (e, h.own_key j v e) (ground arith)
    ]

    values_at_other :
        (ks : List Text) (t : Keyed V)
        → IsKeyed key t
        → member k ks ≡ false
        → filter has_key (values_at ks t.entries) ≡ []
    unfolding values_at member
    values_at_other [] t h n = refl
    values_at_other (j ∷ ks) t h n =
        rw (filter-append, head_key j t h) (ground (arith, values_at_other ks t h))

    values_at_key :
        (ks : List Text) (t : Keyed V)
        → IsKeyed key t
        → IsDistinct ks
        → filter has_key (values_at ks t.entries)
          ≡ (if member k ks then option_list (lookup k t.entries) else [])
    unfolding values_at member
    values_at_key [] t h d = refl
    values_at_key (j ∷ ks) t h d = elim (Bool-cases (text_eq j k)) [
      | inl e ↦ rw (filter-append, head_key j t h, e) (first ((text_eq_iff j k).0 e))
      | inr e ↦ rw (filter-append, head_key j t h, e) (values_at_key ks t h d.1)
    ]
      where
        first :
            j ≡ k
            → option_list (lookup j t.entries) ++ filter has_key (values_at ks t.entries)
              ≡ option_list (lookup k t.entries)
        first p =
            rw (p, values_at_other ks t h (subst (λ i. member i ks ≡ false) p d.0)) (append-nil _)

    -- Under each key that is present the values hold that key's entry and nothing else.
    pub filter-values :
        (t : Keyed V)
        → IsKeyed key t
        → IsDistinct t.order
        → filter has_key (values t) ≡ option_list (lookup k t.entries)
    unfolding values
    filter-values t h d =
        rw (values_at_key t.order t h d, h.in_step k) (absent (lookup k t.entries))
      where
        absent : (o : Option V) → (if is_some o then option_list o else []) ≡ option_list o
        absent none = refl
        absent (some v) = refl
