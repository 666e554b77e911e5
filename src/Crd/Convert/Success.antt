-- ===== src/Crd/Convert/Success.antt =====
-- When ToModels succeeds on a validated sink.
use kompox.Prelude.{ℕ, ◌≡◌, ◌↔◌, refl, String, List, [], ◌∷◌, Map, All, ok, Succeeds, Result}
use kompox.Store.{
  Entity, new_repository, workspace_entity, provider_entity, cluster_entity, app_entity, box_entity,
}
use kompox.Store.Memory.{new_store}
use kompox.Crd.Types.{
  Kind, ObjectMeta, of_workspace, of_provider, of_cluster, of_app, of_box, Object, Document,
}
use kompox.Crd.Policy.WellFormed.{IsPolicy}
use kompox.Crd.Sink.{
  Sink, new_sink, list_workspaces, list_providers, list_clusters, list_apps, list_boxes,
}
use kompox.Crd.Sink.Storing.{object_kind}
use kompox.Crd.Convert.{
  Error, Library, id_of, convert_workspace, convert_provider, convert_cluster, convert_app,
  convert_box,
}
use kompox.Crd.Convert.Stores.{to_models, in_memory}
use kompox.Crd.Convert.Filling.{values, values-All, fill, fill-Succeeds_iff}
use kompox.Crd.Convert.Loops.{AllFill, to_models-filled, filled-to_models}
use kompox.Crd.Convert.Sources.{object_meta, Indexed}
use kompox.Crd.Convert.Results.{HasId}
use kompox.Crd.Convert.Facts.{Loaded, Facts, Facts-of, entry-HasId}
use kompox.Crd.Convert.Accepts.{
  IsProtection, IsApp, workspace_iff, provider_iff, cluster_iff, app_iff, box_iff,
}
use kompox.Crd.Validator.{sort_by_topology}

module _ {A : Type 0} where
  All-unit : (xs : List A) → All (λ x. Unit {0}) xs
  All-unit [] = tt
  All-unit (x ∷ xs) = (tt, All-unit xs)

  All-iff :
      (P Q R : A → Type 0)
      → ((x : A) → P x ↔ (Q x × R x))
      → (xs : List A) → All Q xs
      → All P xs ↔ All R xs
  All-iff P Q R one [] qs = (λ h. tt, λ h. tt)
  All-iff P Q R one (x ∷ xs) (q, qs) =
      let rest = All-iff P Q R one xs qs in
      (λ (p, ps). (((one x).0 p).1, rest.0 ps), λ (r, rs). ((one x).1 (q, r), rest.1 rs))

module _ (lib : Library) (now : ℕ) (app_file : String) (docs : List Document) (s : Sink) where
  HasId-Succeeds :
      (kind : Kind) (m : ObjectMeta) (f : String) → HasId lib kind m f → Succeeds (id_of lib kind m)
  HasId-Succeeds kind m f h = (f, rw h refl)

  -- Every entry has its ID.
  entries_ids :
      {X : Type 0} (wrap : X → Object) (m : Map X)
      → Facts lib docs s
      → Indexed wrap (sort_by_topology docs) m
      → All (λ x. Succeeds (id_of lib (object_kind (wrap x)) (object_meta (wrap x)))) (values m)
  entries_ids wrap m facts i =
      values-All (λ x. Succeeds (id_of lib (object_kind (wrap x)) (object_meta (wrap x)))) m i.keys
        (λ f x h.
          HasId-Succeeds (object_kind (wrap x)) (object_meta (wrap x)) f
            (entry-HasId lib docs s facts wrap m f x i h))

  -- One of the loops, over the entries of one kind.
  part_iff :
      {X E : Type 0} ⦃e : Entity E⦄ (wrap : X → Object) (m : Map X) (convert : X → Result Error E)
      (R : X → Type 0)
      → ((x : X)
          → Succeeds (convert x)
            ↔ (Succeeds (id_of lib (object_kind (wrap x)) (object_meta (wrap x))) × R x))
      → Facts lib docs s
      → Indexed wrap (sort_by_topology docs) m
      → ((fill convert now (values m) new_repository).0 ≡ ok tt) ↔ All R (values m)
  part_iff wrap m convert R one facts i =
      let (to, from) = fill-Succeeds_iff convert now (values m) new_repository in
      let (down, up) =
        All-iff (λ x. Succeeds (convert x))
          (λ x. Succeeds (id_of lib (object_kind (wrap x)) (object_meta (wrap x)))) R one (values m)
          (entries_ids wrap m facts i) in
      (λ h. down (to h), λ h. from (up h))

  -- The documents that ToModels checks: levels of protection, apps, and policies of boxes.
  abbrev pub AllAccepted : Type 0
  AllAccepted =
      All (λ c. IsProtection c.spec.protection) (list_clusters s)
      × All (IsApp lib) (list_apps s)
      × All (λ b. IsPolicy b.spec.network_policy) (list_boxes s)

  AllFill-iff : Facts lib docs s → AllFill lib now app_file s new_store ↔ AllAccepted
  unfolding list_workspaces list_providers list_clusters list_apps list_boxes
  AllFill-iff facts =
      let ws =
        part_iff of_workspace s.workspaces (convert_workspace lib) (λ w. Unit) (workspace_iff lib)
          facts facts.indexed.workspaces in
      let ps =
        part_iff of_provider s.providers (convert_provider lib) (λ p. Unit) (provider_iff lib) facts
          facts.indexed.providers in
      let cs =
        part_iff of_cluster s.clusters (convert_cluster lib) (λ c. IsProtection c.spec.protection)
          (cluster_iff lib) facts facts.indexed.clusters in
      let hs =
        part_iff of_app s.apps (convert_app lib app_file) (IsApp lib) (app_iff lib app_file) facts
          facts.indexed.apps in
      let bs =
        part_iff of_box s.boxes (convert_box lib) (λ b. IsPolicy b.spec.network_policy)
          (box_iff lib) facts facts.indexed.boxes in
      (
        λ a. (cs.0 a.clusters, hs.0 a.apps, bs.0 a.boxes),
        λ (c, h, b). record {
          workspaces = ws.1 (All-unit _);
          providers = ps.1 (All-unit _);
          clusters = cs.1 c;
          apps = hs.1 h;
          boxes = bs.1 b;
        },
      )

  -- Of a sink that NewSink made of documents as the loader makes them, ToModels fails on empty
  -- repositories in memory only for what it checks itself: it succeeds exactly if each cluster's
  -- levels of protection are empty, "none", "cannotDelete" or "readOnly", each app's volumes have
  -- sizes, each app's deployment names no pool beside pools, no zone beside zones and no selectors,
  -- and the network policies of apps and boxes are well formed.
  pub to_models_succeeds_iff :
      All (Loaded lib) docs
      → new_sink lib.labels.is_label docs ≡ ok s
      → ((to_models lib (in_memory now) app_file s new_store).0 ≡ ok tt) ↔ AllAccepted
  to_models_succeeds_iff loaded made =
      let (to, from) = AllFill-iff (Facts-of lib docs s loaded made) in
      (
        λ done. to (to_models-filled lib now app_file s new_store done).0,
        λ h. filled-to_models lib now app_file s new_store (from h),
      )
