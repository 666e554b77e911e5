-- ===== src/Store/Steps.antt =====
-- The repositories' operations as steps from a state to a state, and what a step does to one ID.
use text.Mathlib.TextLemmas.{append_cancel_left, nil-append, cons-append}
use mathlib.Core.Path.{subst}
use kompox.Prelude.{
  ℕ, ◌+◌, ◌≤◌, ◌≡◌, ◌≢◌, ◌⊎◌, refl, sym, ap, ◌∙◌, inl, inr, String, Bool-cases, Option-cases, ◌==◌,
  eq_iff, ne_of_eq-false, lookup, append, decimal, decimal_inj, decimal-NoDash, dash, dash_inj, ok,
  err, arith,
}
use kompox.Store.{
  Entity, workspace_entity, Repository, format_id, create, next_id, get, update, delete,
}
use kompox.Store.Laws.{
  create_given, get-create_given, create_fresh, get-create, get-update, get-delete,
}

dash-append : (s : String) → append "-" s ≡ String.◌∷◌ dash s
dash-append s = cons-append dash "" s ∙ ap (String.◌∷◌ dash) (nil-append s)

-- The counter can be read off an ID, whatever the times are.
pub format_id_inj :
    (prefix : String) (now m later n : ℕ)
    → format_id prefix now m ≡ format_id prefix later n
    → m ≡ n
unfolding format_id
format_id_inj prefix now m later n h =
    let tail = append_cancel_left prefix _ _ h in
    let rest = append_cancel_left "-" _ _ tail in
    let (same, last) =
      dash_inj (decimal now) (decimal later) (decimal-NoDash now) (decimal-NoDash later) (
        ap (append (decimal now)) (sym (dash-append (decimal m)))
        ∙ rest
        ∙ ap (append (decimal later)) (dash-append (decimal n))) in
    decimal_inj m n last

module _ {E : Type 0} ⦃e : Entity E⦄ where
  -- The operations on a repository. Create is called without an ID, as the use cases call it, or
  -- with the caller's, as ToModels and LoadFromConfig call it.
  pub data Step : Repository E → Repository E → Type 0 where
    created : (now : ℕ) (x : E) (r : Repository E) → Step r (create now x r).1
    updated : (x : E) (r : Repository E) → Step r (update x r).1
    deleted : (id : String) (r : Repository E) → Step r (delete id r).1

  pub data Steps : Repository E → Repository E → Type 0 where
    done : (r : Repository E) → Steps r r
    next : {r s t : Repository E} → Steps r s → Step s t → Steps r t

  -- The step is a Create to which the caller gives the ID, or one of the steps is.
  abbrev pub Gives : {r s : Repository E} → String → Step r s → Type 0
  Gives j (created now x r) = (j ≢ "") × (e.id_of x ≡ j)
  Gives j (updated x r) = ⊥
  Gives j (deleted id r) = ⊥

  abbrev pub Given : {r s : Repository E} → String → Steps r s → Type 0
  Given j (done r) = ⊥
  Given j (next steps step) = Given j steps ⊎ Gives j step

  pub created_id :
      (now : ℕ) (x : E) (r : Repository E)
      → e.id_of x ≡ ""
      → (e.id_of (create now x r).0 ≡ format_id e.prefix now (r.seq + 1))
        × ((create now x r).1.seq ≡ r.seq + 1)
  unfolding next_id
  created_id now x r h =
      let made = create_fresh now x r ((eq_iff (e.id_of x) "").1 h) in
      (
        ap (λ out. e.id_of out.0) made ∙ e.id-with_id (format_id e.prefix now (r.seq + 1)) x,
        ap (λ out. out.1.seq) made,
      )

  seq-update : (x : E) (r : Repository E) → (update x r).1.seq ≡ r.seq
  unfolding update
  seq-update x r = elim (Option-cases (lookup (e.id_of x) r.items)) [
    | inl missing ↦ rw (missing, update) refl
    | inr (old, there) ↦ rw (there, update) refl
  ]

  seq-delete : (id : String) (r : Repository E) → (delete id r).1.seq ≡ r.seq
  unfolding delete
  seq-delete id r = elim (Option-cases (lookup id r.items)) [
    | inl missing ↦ rw (missing, delete) refl
    | inr (old, there) ↦ rw (there, delete) refl
  ]

  -- What one operation does to one ID.
  pub data Fate (G : Type 0) (j : String) (r s : Repository E) : Type 0 where
    kept : get j s ≡ get j r → Fate G j r s
    given : (y : E) → G → e.id_of y ≡ j → get j s ≡ ok y → Fate G j r s
    made :
        (now : ℕ) (y : E)
        → s.seq ≡ r.seq + 1
        → j ≡ format_id e.prefix now s.seq
        → e.id_of y ≡ j
        → get j s ≡ ok y
        → Fate G j r s
    replaced :
        (old x : E)
        → e.id_of x ≡ j
        → get j r ≡ ok old
        → get j s ≡ ok (e.stored old x)
        → Fate G j r s
    gone : get j s ≡ err e.not_found → Fate G j r s

  create-Fate :
      (now : ℕ) (x : E) (r : Repository E) (j : String)
      → e.id_of x ≡ ""
      → Fate (Gives j (created now x r)) j r (create now x r).1
  create-Fate now x r j h =
      let (own, others, rest, _) = get-create now x r in
      let (id, grown) = created_id now x r h in
      let i = e.id_of (create now x r).0 in
      elim (Bool-cases (i == j)) [
        | inl same ↦
            let here = (eq_iff i j).0 same in
            made now (create now x r).0 grown
              (sym here ∙ id ∙ ap (format_id e.prefix now) (sym grown)) here
              (subst (λ k. get k (create now x r).1 ≡ ok (create now x r).0) here own)
        | inr differs ↦ kept (others j (ne_of_eq-false i j differs))
      ]

  given-Fate :
      (now : ℕ) (x : E) (r : Repository E) (j : String)
      → e.id_of x ≢ ""
      → Fate (Gives j (created now x r)) j r (create now x r).1
  given-Fate now x r j named =
      let (own, others) = get-create_given now x r named in
      elim (Bool-cases (e.id_of x == j)) [
        | inl same ↦
            let here = (eq_iff (e.id_of x) j).0 same in
            given x (λ empty. named (here ∙ empty), here) here
              (subst (λ k. get k (create now x r).1 ≡ ok x) here own)
        | inr differs ↦ kept (others j (ne_of_eq-false (e.id_of x) j differs))
      ]

  update-Fate : (x : E) (r : Repository E) (j : String) → Fate ⊥ j r (update x r).1
  update-Fate x r j = elim (get-update x r) [
    | inl (old, there, succeeds, then_get) ↦ elim (Bool-cases (e.id_of x == j)) [
      | inl same ↦
          let here = (eq_iff (e.id_of x) j).0 same in
          replaced old x here (subst (λ k. get k r ≡ ok old) here there) (then_get j ∙ rw same refl)
      | inr differs ↦ kept (then_get j ∙ rw differs refl)
    ]
    | inr (missing, same) ↦ kept (ap (λ out. get j out.1) same)
  ]

  delete-Fate : (id : String) (r : Repository E) (j : String) → Fate ⊥ j r (delete id r).1
  delete-Fate id r j = elim (get-delete id r) [
    | inl (old, there, succeeds, then_get) ↦ elim (Bool-cases (id == j)) [
      | inl same ↦ gone (then_get j ∙ rw same refl)
      | inr differs ↦ kept (then_get j ∙ rw differs refl)
    ]
    | inr (missing, same) ↦ kept (ap (λ out. get j out.1) same)
  ]

  pub Step-Fate : {r s : Repository E} (step : Step r s) (j : String) → Fate (Gives j step) j r s
  Step-Fate (created now x r) j = elim (Bool-cases (e.id_of x == "")) [
    | inl fresh ↦ create-Fate now x r j ((eq_iff (e.id_of x) "").0 fresh)
    | inr named ↦ given-Fate now x r j (ne_of_eq-false (e.id_of x) "" named)
  ]
  Step-Fate (updated x r) j = update-Fate x r j
  Step-Fate (deleted id r) j = delete-Fate id r j

  pub Step-seq : {r s : Repository E} → Step r s → r.seq ≤ s.seq
  Step-seq (created now x r) = elim (Bool-cases (e.id_of x == "")) [
    | inl fresh ↦ omega (arith, (created_id now x r ((eq_iff (e.id_of x) "").0 fresh)).1)
    | inr named ↦ omega (arith, ap (λ out. out.1.seq) (create_given now x r named))
  ]
  Step-seq (updated x r) = omega (arith, seq-update x r)
  Step-seq (deleted id r) = omega (arith, seq-delete id r)
