-- ===== src/Config/Loading.antt =====
-- What LoadFromConfig leaves in the repositories of a store.
use kompox.Prelude.{
  ℕ, ◌+◌, ◌≡◌, ◌≢◌, refl, sym, ap, ◌∙◌, inl, inr, String, none, some, List, [], ◌∷◌, All, ok,
  Result-cases, found, each, Bool-cases, ◌==◌, eq_iff, bind-eq-ok, ok_inj, lookup,
}
use mathlib.Core.Path.{subst}
use kompox.Domain.Model
use kompox.Store.{
  Entity, new_repository, create, get, workspace_entity, provider_entity, cluster_entity,
  app_entity, box_entity,
}
use kompox.Store.Laws.{get-create_given}
use kompox.Store.Memory.{Store, new_store}
use kompox.Volume.Bootstrap.Assigned.{DistinctVolumes}
use kompox.Crd.Convert.Closed.{IsClosed}
use kompox.Config.{
  Root, AppVolume, Error, Library, validate, compose_to_string, config_ref_base, to_model_volume,
  to_models, load_from_config,
}
use kompox.Config.Checks.{DistinctNames, validate_iff}

found-some : {E A : Type 0} (o : _) (e : E) (a : A) → found o e ≡ ok a → o ≡ some a
found-some none e a h = absurd (cc h)
found-some (some b) e a h = ap some (ok_inj h)

module _ (lib : Library) where
  -- A converted volume keeps its name.
  to_model_volume-name :
      (i : ℕ) (v : AppVolume) (y : Model.AppVolume)
      → to_model_volume lib i v ≡ ok y
      → y.name ≡ v.name
  unfolding to_model_volume
  to_model_volume-name i v y h =
      let (n, _, e) = bind-eq-ok (found (lib.quantity v.size) _) _ y h in
      sym (ap (λ z. z.name) (ok_inj e))

  each-apart :
      (i : ℕ) (name : String) (vs : List AppVolume) (ys : List Model.AppVolume)
      → each (to_model_volume lib) i vs ≡ ok ys
      → All (λ u. u.name ≢ name) vs
      → All (λ u. u.name ≢ name) ys
  each-apart i name [] ys h apart = subst (λ zs. All (λ u. u.name ≢ name) zs) (ok_inj h) tt
  each-apart i name (v ∷ vs) ys h (ne, apart) =
      let (y, first, h1) = bind-eq-ok (to_model_volume lib i v) _ ys h in
      let (zs, rest, e) = bind-eq-ok (each (to_model_volume lib) (i + 1) vs) _ ys h1 in
      subst (λ zs. All (λ u. u.name ≢ name) zs) (ok_inj e)
        (
          (λ same. ne (sym (to_model_volume-name i v y first) ∙ same)),
          each-apart (i + 1) name vs zs rest apart,
        )

  each-DistinctVolumes :
      (i : ℕ) (vs : List AppVolume) (ys : List Model.AppVolume)
      → each (to_model_volume lib) i vs ≡ ok ys
      → DistinctNames vs
      → DistinctVolumes ys
  each-DistinctVolumes i [] ys h distinct = subst DistinctVolumes (ok_inj h) tt
  each-DistinctVolumes i (v ∷ vs) ys h (apart, distinct) =
      let (y, first, h1) = bind-eq-ok (to_model_volume lib i v) _ ys h in
      let (zs, rest, e) = bind-eq-ok (each (to_model_volume lib) (i + 1) vs) _ ys h1 in
      let own = to_model_volume-name i v y first in
      subst DistinctVolumes (ok_inj e) (
        subst (λ n. All (λ u. u.name ≢ n) zs) (sym own)
            (each-apart (i + 1) v.name vs zs rest apart),
        each-DistinctVolumes (i + 1) vs zs rest distinct,
      )

  abbrev Models : Type 0
  Models = Model.Workspace × Model.Provider × Model.Cluster × Model.App

  -- The four models refer to each other in a chain, with IDs from the random source.
  record IsChain (out : Models) : Type 0 where
    provider_parent : out.1.workspace_id ≡ out.0.id
    cluster_parent : out.2.provider_id ≡ out.1.id
    app_parent : out.3.cluster_id ≡ out.2.id
    workspace_id : lib.random_id 0 ≡ some out.0.id
    provider_id : lib.random_id 1 ≡ some out.1.id
    cluster_id : lib.random_id 2 ≡ some out.2.id
    app_id : lib.random_id 3 ≡ some out.3.id
    volumes : DistinctVolumes out.3.volumes

  to_models-IsChain :
      (now : ℕ) (r : Root) (path : String) (out : Models)
      → to_models lib now r path ≡ ok out
      → IsChain out
  unfolding to_models
  to_models-IsChain now r path out h =
      let (_, valid, h0) = bind-eq-ok (validate lib r) _ out h in
      let (i, wi, h1) = bind-eq-ok (found (lib.random_id 0) Error.no_id) _ out h0 in
      let (j, pi, h2) = bind-eq-ok (found (lib.random_id 1) Error.no_id) _ out h1 in
      let (k, ci, h3) = bind-eq-ok (found (lib.random_id 2) Error.no_id) _ out h2 in
      let (l, ai, h4) = bind-eq-ok (found (lib.random_id 3) Error.no_id) _ out h3 in
      let (_, _, h5) = bind-eq-ok (compose_to_string lib r.app.compose) _ out h4 in
      let (_, _, h6) = bind-eq-ok (config_ref_base lib path) _ out h5 in
      let (vs, converted, e) = bind-eq-ok (each (to_model_volume lib) 0 r.app.volumes) _ out h6 in
      let (_, distinct, _) = (validate_iff lib r).0 valid in
      subst IsChain (ok_inj e) (record {
        provider_parent = refl;
        cluster_parent = refl;
        app_parent = refl;
        workspace_id = found-some _ _ _ wi;
        provider_id = found-some _ _ _ pi;
        cluster_id = found-some _ _ _ ci;
        app_id = found-some _ _ _ ai;
        volumes = each-DistinctVolumes 0 r.app.volumes vs converted distinct;
      })

  module _ {E : Type 0} ⦃e : Entity E⦄ where
    -- One entity with an ID, created in an empty repository.
    create_one :
        (tick : ℕ) (x : E)
        → e.id_of x ≢ ""
        → (get (e.id_of x) (create tick x new_repository).1 ≡ ok x)
          × ((f : String) (y : E) → get f (create tick x new_repository).1 ≡ ok y → y ≡ x)
    unfolding get lookup
    create_one tick x given =
        let (there, others) = get-create_given tick x new_repository given in
        (
          there,
          λ f y h. elim (Bool-cases (e.id_of x == f)) [
            | inl same ↦ ok_inj (
                sym h
                ∙ ap (λ i. get i (create tick x new_repository).1)
                    (sym ((eq_iff (e.id_of x) f).0 same))
                ∙ there)
            | inr differ ↦
                absurd
                  (cc (sym (others f (λ s. absurd (cc ((eq_iff (e.id_of x) f).1 s, differ)))) ∙ h))
          ],
        )

  -- What a store has after loading.
  pub record IsLoaded (m : Store) : Type 0 where
    pub workspace : Model.Workspace
    pub provider : Model.Provider
    pub cluster : Model.Cluster
    pub app : Model.App
    pub has_workspace : get workspace.id m.workspaces ≡ ok workspace
    pub has_provider : get provider.id m.providers ≡ ok provider
    pub has_cluster : get cluster.id m.clusters ≡ ok cluster
    pub has_app : get app.id m.apps ≡ ok app
    pub closed : IsClosed m
    pub volumes : DistinctVolumes app.volumes

  -- The store after the four calls of Create.
  abbrev loaded_store : ℕ → Models → Store
  loaded_store tick out = record new_store {
    workspaces = (create tick out.0 new_repository).1;
    providers = (create tick out.1 new_repository).1;
    clusters = (create tick out.2 new_repository).1;
    apps = (create tick out.3 new_repository).1;
  }

  loaded_store-IsLoaded :
      (tick : ℕ) (out : Models)
      → IsChain out
      → ((k : ℕ) → lib.random_id k ≢ some "")
      → IsLoaded (loaded_store tick out)
  unfolding get lookup
  loaded_store-IsLoaded tick out chain given =
      let (w, only_w) = create_one tick out.0 (λ h. given 0 (chain.workspace_id ∙ ap some h)) in
      let (p, only_p) = create_one tick out.1 (λ h. given 1 (chain.provider_id ∙ ap some h)) in
      let (c, only_c) = create_one tick out.2 (λ h. given 2 (chain.cluster_id ∙ ap some h)) in
      let (a, only_a) = create_one tick out.3 (λ h. given 3 (chain.app_id ∙ ap some h)) in
      record {
        workspace = out.0;
        provider = out.1;
        cluster = out.2;
        app = out.3;
        has_workspace = w;
        has_provider = p;
        has_cluster = c;
        has_app = a;
        closed = record {
          providers = λ f x h.
              let own = ap (λ y. y.workspace_id) (only_p f x h) ∙ chain.provider_parent in
              (out.0, ap (λ i. get i (create tick out.0 new_repository).1) own ∙ w);
          clusters = λ f x h.
              let own = ap (λ y. y.provider_id) (only_c f x h) ∙ chain.cluster_parent in
              (out.1, ap (λ i. get i (create tick out.1 new_repository).1) own ∙ p);
          apps = λ f x h.
              let own = ap (λ y. y.cluster_id) (only_a f x h) ∙ chain.app_parent in
              (out.2, ap (λ i. get i (create tick out.2 new_repository).1) own ∙ c);
          boxes = λ f x h. absurd (cc h);
        };
        volumes = chain.volumes;
      }

  -- If the random source gives no empty ID and LoadFromConfig succeeds on a new store, the store
  -- returns a workspace, a provider, a cluster and an app under their IDs, each entity's parent ID
  -- is that of a stored entity, and no two volumes of the app have one name, as the bootstrap of
  -- its disks needs.
  pub load_from_config-IsLoaded :
      (now tick : ℕ) (r : Root) (path : String)
      → ((k : ℕ) → lib.random_id k ≢ some "")
      → (load_from_config lib now tick r path new_store).0 ≡ ok tt
      → IsLoaded (load_from_config lib now tick r path new_store).1
  unfolding load_from_config
  load_from_config-IsLoaded now tick r path given done =
      elim (Result-cases (to_models lib now r path)) [
        | inr (e, failed) ↦ absurd (cc (rw (failed, load_from_config) at done))
        | inl (out, made) ↦
            rw (made, load_from_config)
              (loaded_store-IsLoaded tick out (to_models-IsChain now r path out made) given)
      ]
