-- ===== src/Crd/Convert/Closed.antt =====
-- Every parent ID that ToModels stores refers to a stored entity.
use kompox.Prelude.{
  ℕ, ◌≡◌, sym, ap, ◌∙◌, inl, inr, String, some, Option-cases, lookup, List, All, ok, ok_inj,
}
use kompox.Domain.Model
use kompox.Store.{
  Entity, Repository, new_repository, get, workspace_entity, provider_entity, cluster_entity,
  app_entity, box_entity,
}
use kompox.Store.Memory.{Store, new_store}
use kompox.Crd.Types.{of_provider, of_cluster, of_app, of_box, Document}
use kompox.Crd.Fqn.{parent_fqn}
use kompox.Crd.Sink.{Sink, new_sink}
use kompox.Prelude.{Map, Result}
use kompox.Crd.Convert.{
  Error, Library, convert_workspace, convert_provider, convert_cluster, convert_app, convert_box,
}
use kompox.Crd.Convert.Stores.{to_models, in_memory}
use kompox.Crd.Convert.Filling.{Filled}
use kompox.Crd.Convert.Results.{
  convert_provider-id, convert_cluster-id, convert_app-id, convert_box-id,
}
use kompox.Crd.Convert.Facts.{
  Loaded, Facts, Facts-of, entry_parent, held_workspace, held_provider, held_cluster, held_app,
}
use kompox.Crd.Convert.Integrity.{
  IsConverted, to_models-IsConverted, providers-KeepsIds, clusters-KeepsIds, apps-KeepsIds,
  boxes-KeepsIds,
}

-- The five repositories refer to each other only by IDs that are stored.
pub record IsClosed (m : Store) : Type 0 where
  pub providers :
      (f : String) (p : Model.Provider)
      → get f m.providers ≡ ok p
      → (w : Model.Workspace) × (get p.workspace_id m.workspaces ≡ ok w)
  pub clusters :
      (f : String) (c : Model.Cluster)
      → get f m.clusters ≡ ok c
      → (p : Model.Provider) × (get c.provider_id m.providers ≡ ok p)
  pub apps :
      (f : String) (a : Model.App)
      → get f m.apps ≡ ok a
      → (c : Model.Cluster) × (get a.cluster_id m.clusters ≡ ok c)
  pub boxes :
      (f : String) (b : Model.Box)
      → get f m.boxes ≡ ok b
      → (a : Model.App) × (get b.app_id m.apps ≡ ok a)

module _ {A E : Type 0} ⦃e : Entity E⦄ (convert : A → Result Error E) (now : ℕ) where
  -- What a filled repository returns is the conversion of an entry.
  Filled-inv :
      (m : Map A) (s : Repository E) (f : String) (y : E)
      → Filled convert now m new_repository s
      → get f s ≡ ok y
      → (x : A) × (lookup f m ≡ some x) × (convert x ≡ ok y)
  unfolding get lookup
  Filled-inv m s f y full h = elim (Option-cases (lookup f m)) [
    | inl missing ↦ absurd (cc (sym ((full f).1 missing) ∙ h))
    | inr (x, there) ↦
        let (z, converted, stored) = (full f).0 x there in
        (x, there, converted ∙ ap ok (ok_inj (sym stored ∙ h)))
  ]

  -- And an entry's conversion is what it returns.
  Filled-there :
      (m : Map A) (s : Repository E) (f g : String)
      → Filled convert now m new_repository s
      → f ≡ g
      → (x : A) × (lookup g m ≡ some x)
      → (y : E) × (get f s ≡ ok y)
  Filled-there m s f g full same (x, there) =
      let (y, _, stored) = (full g).0 x there in (y, ap (λ i. get i s) same ∙ stored)

module _ (lib : Library) (now : ℕ) (app_file : String) where
  IsConverted-IsClosed :
      (docs : List Document) (s : Sink) (m : Store)
      → Facts lib docs s
      → IsConverted lib now app_file s m
      → IsClosed m
  IsConverted-IsClosed docs s m facts full = record {
    providers = λ f y h.
        let (x, there, converted) =
          Filled-inv (convert_provider lib) now s.providers m.providers f y full.providers h in
        let (d, _, holds, kind) =
          entry_parent lib docs s facts of_provider s.providers f x facts.indexed.providers there
            (cc) in
        let own = (providers-KeepsIds lib now app_file docs s facts f x y there converted).0 in
        Filled-there (convert_workspace lib) now s.workspaces m.workspaces y.workspace_id
          (parent_fqn f) full.workspaces
          ((convert_provider-id lib x y converted).1 ∙ ap parent_fqn own)
          (held_workspace s (parent_fqn f) d.object kind holds);
    clusters = λ f y h.
        let (x, there, converted) =
          Filled-inv (convert_cluster lib) now s.clusters m.clusters f y full.clusters h in
        let (d, _, holds, kind) =
          entry_parent lib docs s facts of_cluster s.clusters f x facts.indexed.clusters there
            (cc) in
        let own = (clusters-KeepsIds lib now app_file docs s facts f x y there converted).0 in
        Filled-there (convert_provider lib) now s.providers m.providers y.provider_id (parent_fqn f)
          full.providers ((convert_cluster-id lib x y converted).1 ∙ ap parent_fqn own)
          (held_provider s (parent_fqn f) d.object kind holds);
    apps = λ f y h.
        let (x, there, converted) =
          Filled-inv (convert_app lib app_file) now s.apps m.apps f y full.apps h in
        let (d, _, holds, kind) =
          entry_parent lib docs s facts of_app s.apps f x facts.indexed.apps there (cc) in
        let own = (apps-KeepsIds lib now app_file docs s facts f x y there converted).0 in
        Filled-there (convert_cluster lib) now s.clusters m.clusters y.cluster_id (parent_fqn f)
          full.clusters ((convert_app-id lib app_file x y converted).1 ∙ ap parent_fqn own)
          (held_cluster s (parent_fqn f) d.object kind holds);
    boxes = λ f y h.
        let (x, there, converted) =
          Filled-inv (convert_box lib) now s.boxes m.boxes f y full.boxes h in
        let (d, _, holds, kind) =
          entry_parent lib docs s facts of_box s.boxes f x facts.indexed.boxes there (cc) in
        let own = (boxes-KeepsIds lib now app_file docs s facts f x y there converted).0 in
        Filled-there (convert_app lib app_file) now s.apps m.apps y.app_id (parent_fqn f) full.apps
          ((convert_box-id lib x y converted).1 ∙ ap parent_fqn own)
          (held_app s (parent_fqn f) d.object kind holds);
  }

  -- If NewSink accepts documents as the loader makes them, and ToModels then succeeds on empty
  -- repositories in memory, each stored provider's workspace, cluster's provider, app's cluster and
  -- box's app is stored too: the workspace repository returns the entity of a provider's workspace
  -- ID, and so on down.
  pub to_models-IsClosed :
      (docs : List Document) (s : Sink)
      → All (Loaded lib) docs
      → new_sink lib.labels.is_label docs ≡ ok s
      → (to_models lib (in_memory now) app_file s new_store).0 ≡ ok tt
      → IsClosed (to_models lib (in_memory now) app_file s new_store).1
  to_models-IsClosed docs s loaded made done =
      IsConverted-IsClosed docs s (to_models lib (in_memory now) app_file s new_store).1
        (Facts-of lib docs s loaded made)
        (to_models-IsConverted lib now app_file docs s loaded made done)
