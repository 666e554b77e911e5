-- ===== src/UseCases/Editing.antt =====
-- What the use cases of workspaces, providers and apps do to the repository.
use mathlib.Core.Path.{subst}
use kompox.Prelude.{
  ℕ, ◌≡◌, ◌≢◌, ◌⊎◌, refl, sym, ap, ◌∙◌, inl, inr, String, true, false, Option, none, some,
  Bool-cases, eq_refl, eq-false_of_ne, Result, ok, ok_inj, arith,
}
use kompox.Domain.Model.{Error}
use kompox.Store.{Entity, Repository, workspace_entity, provider_entity, app_entity, get}
use kompox.Store
use kompox.Store.Laws.{get-update}
use kompox.UseCases.{
  Package, is_change, changed_to, is_move, moved_to, find, write_back, update, workspace_package,
  provider_package, app_package,
}

-- What an Update must keep for the repository to have what it returns.
pub record IsEditing {E C U : Type 0} ⦃e : Entity E⦄ (p : Package E C U) : Type 0 where
  pub id-edit : (u : U) (x : E) → e.id_of (p.edit u x).0 ≡ e.id_of x
  pub id-touch : (now : ℕ) (x : E) → e.id_of (p.touch now x) ≡ e.id_of x
  pub same : (u : U) (x : E) → (p.edit u x).1 ≡ false → (p.edit u x).0 ≡ x
  pub stored :
      (now : ℕ) (u : U) (x : E)
      → e.stored x (p.touch now (p.edit u x).0) ≡ p.touch now (p.edit u x).0

pub changed_to-same :
    (n : Option String) (old : String) → is_change n old ≡ false → changed_to n old ≡ old
changed_to-same none old h = refl
changed_to-same (some new) old h = ground arith

pub moved_to-same :
    (n : Option String) (old : String) → is_move n old ≡ false → moved_to n old ≡ old
moved_to-same none old h = refl
moved_to-same (some new) old h = ground arith

pub workspace-IsEditing : IsEditing workspace_package
workspace-IsEditing = record {
  id-edit = λ u x. refl;
  id-touch = λ now x. refl;
  same = λ u x h. ap (λ n. record x { name = n }) (changed_to-same u x.name h);
  stored = λ now u x. refl;
}

pub provider-IsEditing : IsEditing provider_package
provider-IsEditing = record {
  id-edit = λ u x. refl;
  id-touch = λ now x. refl;
  same = λ u x h.
      ap (λ n. record x { name = n; driver = changed_to u.1 x.driver })
        (changed_to-same u.0 x.name (ground arith))
      ∙ ap (λ d. record x { driver = d }) (changed_to-same u.1 x.driver (ground arith));
  stored = λ now u x. refl;
}

pub app-IsEditing : IsEditing app_package
app-IsEditing = record {
  id-edit = λ u x. refl;
  id-touch = λ now x. refl;
  same = λ u x h.
      ap (λ n. record x { name = n; cluster_id = moved_to u.1 x.cluster_id })
        (changed_to-same u.0 x.name (ground arith))
      ∙ ap (λ d. record x { cluster_id = d }) (moved_to-same u.1 x.cluster_id (ground arith));
  stored = λ now u x. refl;
}

module _ {E C U : Type 0} ⦃e : Entity E⦄ (p : Package E C U) where
  -- The result is stored; if nothing was asked to change, nothing does.
  abbrev pub Edits : ℕ → String → U → E → Repository E → Result Error E × Repository E → Type 0
  Edits now id u x r (result, r') =
      (y : E) × (result ≡ ok y)
      × (get id r' ≡ ok y)
      × ((j : String) → id ≢ j → get j r' ≡ get j r)
      × ((((p.edit u x).1 ≡ true) × (y ≡ p.touch now (p.edit u x).0))
          ⊎ (((p.edit u x).1 ≡ false) × (y ≡ x) × (r' ≡ r)))

  -- Store.Update on a stored entity.
  written :
      (id : String) (x z : E) (r : Repository E)
      → get id r ≡ ok x
      → e.id_of z ≡ id
      → e.stored x z ≡ z
      → ((Store.update z r).0 ≡ ok tt)
        × (get id (Store.update z r).1 ≡ ok z)
        × ((j : String) → id ≢ j → get j (Store.update z r).1 ≡ get j r)
  written id x z r there own keeps = elim (get-update z r) [
    | inl (old, was, succeeds, then_get) ↦
        let old≡x : old ≡ x = ok_inj (sym was ∙ ap (λ i. get i r) own ∙ there) in
        (
          succeeds,
          ap (λ i. get i (Store.update z r).1) (sym own)
              ∙ then_get (e.id_of z)
              ∙ rw (eq_refl (e.id_of z)) (ap ok (ap (λ o. e.stored o z) old≡x ∙ keeps)),
          λ j ne. then_get j ∙ rw (eq-false_of_ne (e.id_of z) j (λ h. ne (sym own ∙ h))) refl,
        )
    | inr (missing, _) ↦ absurd (cc (sym missing ∙ ap (λ i. get i r) own ∙ there))
  ]

  write_back-Edits :
      (now : ℕ) (id : String) (u : U) (x : E) (r : Repository E)
      → IsEditing p
      → e.id_of x ≡ id
      → get id r ≡ ok x
      → Edits now id u x r (write_back p now (p.edit u x) r)
  write_back-Edits now id u x r laws own there = elim (Bool-cases (p.edit u x).1) [
    | inl changed ↦
        let y = (p.edit u x).0 in
        let z = p.touch now y in
        let (succeeds, found, others) =
          written id x z r there (laws.id-touch now y ∙ laws.id-edit u x ∙ own)
            (laws.stored now u x) in
        subst (λ b. Edits now id u x r (write_back p now (y, b) r)) (sym changed)
          (z, rw (succeeds, write_back) refl, found, others, inl (changed, refl))
    | inr left ↦
        let y = (p.edit u x).0 in
        let same = laws.same u x left in
        subst (λ b. Edits now id u x r (write_back p now (y, b) r)) (sym left)
          (y, refl, there ∙ ap ok (sym same), λ j ne. refl, inr (left, same, refl))
  ]

  pub edit-Edits :
      (now : ℕ) (id : String) (u : U) (x : E) (r : Repository E)
      → IsEditing p
      → id ≢ ""
      → e.id_of x ≡ id
      → get id r ≡ ok x
      → Edits now id u x r (update p now (some (id, u)) r)
  unfolding update
  edit-Edits now id u x r laws named own there =
      let found : find p (some id) r ≡ ok x = rw (eq-false_of_ne id "" named, find) there in
      subst (Edits now id u x r) (sym (rw (found, update) refl))
        (write_back-Edits now id u x r laws own there)
