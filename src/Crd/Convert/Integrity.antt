-- ===== src/Crd/Convert/Integrity.antt =====
-- Validating documents and converting them: what the repositories in memory hold at the end.
use kompox.Prelude.{ℕ, ◌≡◌, ◌≢◌, sym, ◌∙◌, String, List, All, ok, ok_inj}
use mathlib.Core.Path.{subst}
use kompox.Store.{
  new_repository, workspace_entity, provider_entity, cluster_entity, app_entity, box_entity,
}
use kompox.Store.Memory.{Store, new_store}
use kompox.Crd.Types.{
  Kind, workspace, provider, cluster, app, box, ObjectMeta, of_workspace, of_provider, of_cluster,
  of_app, of_box, Document,
}
use kompox.Crd.Sink.{
  Sink, new_sink, list_workspaces, list_providers, list_clusters, list_apps, list_boxes,
}
use kompox.Crd.Convert.{
  Library, convert_workspace, convert_provider, convert_cluster, convert_app, convert_box,
}
use kompox.Crd.Convert.Stores.{to_models, in_memory}
use kompox.Crd.Convert.Filling.{KeepsIds, Filled, fill-Filled}
use kompox.Crd.Convert.Loops.{filled, AllFill, to_models-filled}
use kompox.Crd.Convert.Parents.{extract-IsResource}
use kompox.Crd.Convert.Results.{
  HasId, convert_workspace-id, convert_provider-id, convert_cluster-id, convert_app-id,
  convert_box-id,
}
use kompox.Crd.Convert.Facts.{Loaded, Facts, Facts-of, entry-HasId}

module _ (lib : Library) (now : ℕ) (app_file : String) where
  -- Each repository has the conversions of the sink's documents under their IDs, and nothing else.
  pub record IsConverted (s : Sink) (m : Store) : Type 0 where
    pub workspaces : Filled (convert_workspace lib) now s.workspaces new_repository m.workspaces
    pub providers : Filled (convert_provider lib) now s.providers new_repository m.providers
    pub clusters : Filled (convert_cluster lib) now s.clusters new_repository m.clusters
    pub apps : Filled (convert_app lib app_file) now s.apps new_repository m.apps
    pub boxes : Filled (convert_box lib) now s.boxes new_repository m.boxes

  HasId-same :
      (kind : Kind) (m : ObjectMeta) (f g : String)
      → HasId lib kind m f
      → HasId lib kind m g
      → (g ≡ f) × (f ≢ "")
  HasId-same kind m f g h k =
      let r = extract-IsResource lib.labels kind m.name f m.annotations h in
      (ok_inj (sym k ∙ h), λ e. absurd (cc (e, r.printed)))

  module _ (docs : List Document) (s : Sink) (facts : Facts lib docs s) where
    pub workspaces-KeepsIds : KeepsIds (convert_workspace lib) now s.workspaces
    workspaces-KeepsIds f x y h e =
        HasId-same workspace x.meta f y.id
          (entry-HasId lib docs s facts of_workspace s.workspaces f x facts.indexed.workspaces h)
          (convert_workspace-id lib x y e)

    pub providers-KeepsIds : KeepsIds (convert_provider lib) now s.providers
    providers-KeepsIds f x y h e =
        HasId-same provider x.meta f y.id
          (entry-HasId lib docs s facts of_provider s.providers f x facts.indexed.providers h)
          (convert_provider-id lib x y e).0

    pub clusters-KeepsIds : KeepsIds (convert_cluster lib) now s.clusters
    clusters-KeepsIds f x y h e =
        HasId-same cluster x.meta f y.id
          (entry-HasId lib docs s facts of_cluster s.clusters f x facts.indexed.clusters h)
          (convert_cluster-id lib x y e).0

    pub apps-KeepsIds : KeepsIds (convert_app lib app_file) now s.apps
    apps-KeepsIds f x y h e =
        HasId-same app x.meta f y.id
          (entry-HasId lib docs s facts of_app s.apps f x facts.indexed.apps h)
          (convert_app-id lib app_file x y e).0

    pub boxes-KeepsIds : KeepsIds (convert_box lib) now s.boxes
    boxes-KeepsIds f x y h e =
        HasId-same box x.meta f y.id
          (entry-HasId lib docs s facts of_box s.boxes f x facts.indexed.boxes h)
          (convert_box-id lib x y e).0

    filled-IsConverted :
        AllFill lib now app_file s new_store → IsConverted s (filled lib now app_file s new_store)
    unfolding list_workspaces list_providers list_clusters list_apps list_boxes
    filled-IsConverted a = record {
      workspaces =
          fill-Filled (convert_workspace lib) now s.workspaces new_repository
            facts.indexed.workspaces.keys workspaces-KeepsIds a.workspaces;
      providers =
          fill-Filled (convert_provider lib) now s.providers new_repository
            facts.indexed.providers.keys providers-KeepsIds a.providers;
      clusters =
          fill-Filled (convert_cluster lib) now s.clusters new_repository
            facts.indexed.clusters.keys clusters-KeepsIds a.clusters;
      apps =
          fill-Filled (convert_app lib app_file) now s.apps new_repository facts.indexed.apps.keys
            apps-KeepsIds a.apps;
      boxes =
          fill-Filled (convert_box lib) now s.boxes new_repository facts.indexed.boxes.keys
            boxes-KeepsIds a.boxes;
    }

  -- If NewSink accepts documents as the loader makes them, and ToModels then succeeds on empty
  -- repositories in memory, each repository returns, under each ID, the conversion of the sink's
  -- document of that ID and kind, and is without the IDs that the sink has no such document for.
  pub to_models-IsConverted :
      (docs : List Document) (s : Sink)
      → All (Loaded lib) docs
      → new_sink lib.labels.is_label docs ≡ ok s
      → (to_models lib (in_memory now) app_file s new_store).0 ≡ ok tt
      → IsConverted s (to_models lib (in_memory now) app_file s new_store).1
  to_models-IsConverted docs s loaded made done =
      let facts = Facts-of lib docs s loaded made in
      let (a, out) = to_models-filled lib now app_file s new_store done in
      subst (IsConverted s) (sym out) (filled-IsConverted docs s facts a)
