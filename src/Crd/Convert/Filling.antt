-- ===== src/Crd/Convert/Filling.antt =====
-- What a loop of Sink.ToModels leaves in one repository in memory.
use mathlib.Core.Path.{subst}
use kompox.Prelude.{
  ℕ, ◌≡◌, ◌≢◌, ◌↔◌, refl, sym, ap, ◌∙◌, inl, inr, String, false, Bool-cases, none, some, some_inj,
  List, [], ◌∷◌, All, Succeeds, map, Map, lookup, ◌==◌, eq_iff, eq_refl, Result, ok, Result-cases,
}
use kompox.Prelude.Actions.{Action}
use kompox.Store.{Entity, Repository, create, get}
use kompox.Store.Laws.{get-create_given}
use kompox.Crd.Convert.{Error}
use kompox.Crd.Convert.Stores.{store_all}

-- No two entries have one key.
abbrev pub HasKeys : {V : Type 0} → Map V → Type 0
HasKeys [] = Unit
HasKeys ((k, x) ∷ m) = (lookup k m ≡ none) × HasKeys m

abbrev pub values {ℓ} : {V : Type ℓ} → Map V → List V
values m = map (λ e. e.1) m

module _ {A : Type 0} where
  lookup-there : (k : String) (x : A) (m : Map A) → lookup k ((k, x) ∷ m) ≡ some x
  unfolding lookup
  lookup-there k x m = rw (eq_refl k) refl

  lookup-later :
      (k f : String) (x : A) (m : Map A) → (k == f) ≡ false → lookup f ((k, x) ∷ m) ≡ lookup f m
  unfolding lookup
  lookup-later k f x m h = rw h refl

  lookup-rest :
      (k : String) (x : A) (m : Map A)
      → lookup k m ≡ none
      → (f : String) (z : A) → lookup f m ≡ some z
      → lookup f ((k, x) ∷ m) ≡ some z
  lookup-rest k x m fresh f z h = elim (Bool-cases (k == f)) [
    | inl same ↦ absurd (cc (sym fresh ∙ ap (λ j. lookup j m) ((eq_iff k f).0 same) ∙ h))
    | inr differ ↦ lookup-later k f x m differ ∙ h
  ]

  -- What holds of every entry that a key gives holds of all values.
  pub values-All :
      (P : A → Type 0) (m : Map A)
      → HasKeys m
      → ((f : String) (x : A) → lookup f m ≡ some x → P x)
      → All P (values m)
  values-All P [] keys h = tt
  values-All P ((k, x) ∷ m) (fresh, keys) h = (
    h k x (lookup-there k x m),
    values-All P m keys (λ f z there. h f z (lookup-rest k x m fresh f z there)),
  )

module _ {A E : Type 0} ⦃e : Entity E⦄ (convert : A → Result Error E) (now : ℕ) where
  -- One of the loops, on its own repository.
  abbrev pub add : E → Action (Repository E) Error (Unit {0})
  add x r = (ok tt, (create now x r).1)

  abbrev pub fill : List A → Action (Repository E) Error (Unit {0})
  fill xs = store_all convert add xs

  -- A conversion gives the entity the ID that the document stands under.
  abbrev pub KeepsIds : Map A → Type 0
  KeepsIds m =
      (f : String) (x : A) (y : E)
      → lookup f m ≡ some x
      → convert x ≡ ok y
      → (e.id_of y ≡ f) × (f ≢ "")

  -- Under one ID: the conversion of the document that stands there, or what was there before.
  abbrev FilledAt : Map A → Repository E → Repository E → String → Type 0
  FilledAt m r s f =
      ((x : A) → lookup f m ≡ some x → (y : E) × (convert x ≡ ok y) × (get f s ≡ ok y))
      × (lookup f m ≡ none → get f s ≡ get f r)

  abbrev pub Filled : Map A → Repository E → Repository E → Type 0
  Filled m r s = (f : String) → FilledAt m r s f

  fill-step :
      (k : String) (x : A) (m : Map A) (r : Repository E)
      → (fill (values ((k, x) ∷ m)) r).0 ≡ ok tt
      → (y : E) × (convert x ≡ ok y)
        × (fill (values ((k, x) ∷ m)) r ≡ fill (values m) (create now y r).1)
  fill-step k x m r done = elim (Result-cases (convert x)) [
    | inl (y, converted) ↦ (y, converted, rw converted refl)
    | inr (b, failed) ↦ absurd (cc (rw failed at done))
  ]

  FilledAt-here :
      (k : String) (x : A) (m : Map A) (y : E) (r s : Repository E)
      → convert x ≡ ok y
      → get k s ≡ ok y
      → FilledAt ((k, x) ∷ m) r s k
  FilledAt-here k x m y r s converted there = (
    λ z h. (y, ap convert (some_inj (sym h ∙ lookup-there k x m)) ∙ converted, there),
    λ h. absurd (cc (sym (lookup-there k x m) ∙ h)),
  )

  FilledAt-later :
      (k f : String) (x : A) (m : Map A) (r q s : Repository E)
      → (k == f) ≡ false
      → get f q ≡ get f r
      → FilledAt m q s f
      → FilledAt ((k, x) ∷ m) r s f
  FilledAt-later k f x m r q s differ same (found, missing) =
      let later = lookup-later k f x m differ in
      (λ z h. found z (sym later ∙ h), λ h. missing (sym later ∙ h) ∙ same)

  -- After the loop a repository has, under each ID, the conversion of the document that stands
  -- there, and is unchanged under the others.
  pub fill-Filled :
      (m : Map A) (r : Repository E)
      → HasKeys m
      → KeepsIds m
      → (fill (values m) r).0 ≡ ok tt
      → Filled m r (fill (values m) r).1
  unfolding lookup
  fill-Filled [] r keys ids done = λ f. (λ x h. absurd (cc h), λ h. refl)
  fill-Filled ((k, x) ∷ m) r (fresh, keys) ids done =
      let (y, converted, out) = fill-step k x m r done in
      let (own, given) = ids k x y (lookup-there k x m) converted in
      let (there, others) = get-create_given now y r (λ h. given (sym own ∙ h)) in
      let rest =
        fill-Filled m (create now y r).1 keys
          (λ f z w found. ids f z w (lookup-rest k x m fresh f z found))
          (ap (λ o. o.0) (sym out) ∙ done) in
      let here =
        FilledAt-here k x m y r _ converted
          ((rest k).1 fresh ∙ ap (λ i. get i (create now y r).1) (sym own) ∙ there) in
      subst (λ o. Filled ((k, x) ∷ m) r o.1) (sym out)
        (λ f. elim (Bool-cases (k == f)) [
          | inl same ↦ subst (FilledAt ((k, x) ∷ m) r _) ((eq_iff k f).0 same) here
          | inr differ ↦
              FilledAt-later k f x m r _ _ differ
                (others f (λ h. absurd (cc (sym ((eq_iff k f).1 (sym own ∙ h)) ∙ differ)))) (rest f)
        ])

  -- The loop succeeds exactly if every document converts.
  pub fill-Succeeds_iff :
      (xs : List A) (r : Repository E)
      → ((fill xs r).0 ≡ ok tt) ↔ All (λ x. Succeeds (convert x)) xs
  fill-Succeeds_iff [] r = (λ h. tt, λ h. refl)
  fill-Succeeds_iff (x ∷ xs) r = elim (Result-cases (convert x)) [
    | inl (y, converted) ↦
        let rest = fill-Succeeds_iff xs (create now y r).1 in
        (λ h. ((y, converted), rest.0 (rw converted at h)), λ (p, ps). rw converted (rest.1 ps))
    | inr (b, failed) ↦ (
      λ h. absurd (cc (rw failed at h)),
      λ ((y, converted), ps). absurd (cc (sym failed ∙ converted)),
    )
  ]
