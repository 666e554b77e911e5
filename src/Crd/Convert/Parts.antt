-- ===== src/Crd/Convert/Parts.antt =====
-- One of the loops of Sink.ToModels on the store of all repositories: it fills one of them.
use kompox.Prelude.{
  ℕ, ◌≡◌, refl, sym, ap, ◌∙◌, inl, inr, List, [], ◌∷◌, Result, ok, err, Result-cases,
}
use kompox.Prelude.Actions.{Action, bind-ok, bind-found, wrapped, ◌>>◌}
use kompox.Domain.Model
use kompox.Store.{
  Entity, Repository, workspace_entity, provider_entity, cluster_entity, app_entity, box_entity,
  create,
}
use kompox.Store.Memory.{Store}
use kompox.Crd.Convert.{Error}
use kompox.Crd.Convert.Stores.{store_all}
use kompox.Crd.Convert.Filling.{fill}

-- One repository of the store.
pub record Part (E : Type 0) : Type 0 where
  pub part : Store → Repository E
  pub with_part : Repository E → Store → Store
  pub part-with : (r : Repository E) (m : Store) → part (with_part r m) ≡ r
  pub with-with : (r s : Repository E) (m : Store) → with_part r (with_part s m) ≡ with_part r m
  pub with-part : (m : Store) → with_part (part m) m ≡ m

module _ {A E : Type 0} ⦃e : Entity E⦄ (p : Part E) (convert : A → Result Error E) (now : ℕ)
    (wrap : E → Model.Error → Error) where
  abbrev pub add_part : E → Action Store Model.Error (Unit {0})
  add_part x m = (ok tt, p.with_part (create now x (p.part m)).1 m)

  abbrev pub loop : List A → Action Store Error (Unit {0})
  loop xs = store_all convert (λ x. wrapped (wrap x) (add_part x)) xs

  abbrev pub fill_part : List A → Store → Result Error (Unit {0}) × Store
  fill_part xs m = let (r, s) = fill convert now xs (p.part m) in (r, p.with_part s m)

  pub loop-eq : (xs : List A) (m : Store) → loop xs m ≡ fill_part xs m
  loop-eq [] m = ap (λ s. (ok tt, s)) (sym (p.with-part m))
  loop-eq (x ∷ xs) m = elim (Result-cases (convert x)) [
    | inl (y, converted) ↦ rw converted (
        let r = (create now y (p.part m)).1 in
        let rest = fill convert now xs r in
        loop-eq xs (p.with_part r m)
        ∙ rw (p.part-with r m) (ap (λ t. (rest.0, t)) (p.with-with rest.1 r m)))
    | inr (b, failed) ↦ rw failed (ap (λ s. (err b, s)) (sym (p.with-part m)))
  ]

  -- A loop that succeeds, before the rest of the block.
  pub loop-step :
      (xs : List A) (k : Action Store Error (Unit {0})) (m : Store)
      → ((loop xs >> k) m).0 ≡ ok tt
      → ((fill convert now xs (p.part m)).0 ≡ ok tt)
        × ((loop xs >> k) m ≡ k (p.with_part (fill convert now xs (p.part m)).1 m))
  loop-step xs k m done =
      let (u, first, rest) = bind-ok (loop xs) (λ _. k) done in
      let out = loop-eq xs m in (ap (λ o. o.0) (sym out) ∙ first, rest ∙ ap (λ o. k o.1) out)

  pub loop-end :
      (xs : List A) (m : Store)
      → (loop xs m).0 ≡ ok tt
      → ((fill convert now xs (p.part m)).0 ≡ ok tt)
        × (loop xs m ≡ (ok tt, p.with_part (fill convert now xs (p.part m)).1 m))
  loop-end xs m done =
      let out = loop-eq xs m in
      let first = ap (λ o. o.0) (sym out) ∙ done in
      (first, out ∙ ap (λ r. (r, (fill_part xs m).1)) first)

  -- A loop whose items all convert, before the rest of the block.
  pub loop-run :
      (xs : List A) (k : Action Store Error (Unit {0})) (m : Store)
      → (fill convert now xs (p.part m)).0 ≡ ok tt
      → (loop xs >> k) m ≡ k (p.with_part (fill convert now xs (p.part m)).1 m)
  loop-run xs k m done =
      bind-found (loop xs) (λ _. k) m (p.with_part (fill convert now xs (p.part m)).1 m) tt
        (loop-eq xs m ∙ ap (λ r. (r, (fill_part xs m).1)) done)

abbrev pub workspace_part : Part Model.Workspace
workspace_part = record {
  part = λ m. m.workspaces;
  with_part = λ r m. record m { workspaces = r };
  part-with = λ r m. refl;
  with-with = λ r s m. refl;
  with-part = λ m. refl;
}

abbrev pub provider_part : Part Model.Provider
provider_part = record {
  part = λ m. m.providers;
  with_part = λ r m. record m { providers = r };
  part-with = λ r m. refl;
  with-with = λ r s m. refl;
  with-part = λ m. refl;
}

abbrev pub cluster_part : Part Model.Cluster
cluster_part = record {
  part = λ m. m.clusters;
  with_part = λ r m. record m { clusters = r };
  part-with = λ r m. refl;
  with-with = λ r s m. refl;
  with-part = λ m. refl;
}

abbrev pub app_part : Part Model.App
app_part = record {
  part = λ m. m.apps;
  with_part = λ r m. record m { apps = r };
  part-with = λ r m. refl;
  with-with = λ r s m. refl;
  with-part = λ m. refl;
}

abbrev pub box_part : Part Model.Box
box_part = record {
  part = λ m. m.boxes;
  with_part = λ r m. record m { boxes = r };
  part-with = λ r m. refl;
  with-with = λ r s m. refl;
  with-part = λ m. refl;
}
