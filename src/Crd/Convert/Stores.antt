-- ===== src/Crd/Convert/Stores.antt =====
-- config/crd/ops/v1alpha1/sink_tomodels.go: Sink.ToModels, over any repositories, and over those in
-- memory. ToModels calls no List of a repository, so the interface is their Create.
use kompox.Prelude.{ℕ, String, List, [], ◌∷◌, Result, ok}
use kompox.Prelude.Actions.{Action, lift, wrapped, pure, ◌>>=◌, ◌>>◌}
use kompox.Domain.Model
use kompox.Store.Memory.{Store}
use kompox.Store.{workspace_entity, provider_entity, cluster_entity, app_entity, box_entity, create}
use kompox.Crd.Types.{workspace, provider, cluster, app, box}
use kompox.Crd.Sink.{Sink, list_workspaces, list_providers, list_clusters, list_apps, list_boxes}
use kompox.Crd.Convert.{
  Error, not_created, Library, convert_workspace, convert_provider, convert_cluster, convert_app,
  convert_box,
}

pub record Repositories (W : Type 0) : Type 0 where
  pub create_workspace : Model.Workspace → Action W Model.Error (Unit {0})
  pub create_provider : Model.Provider → Action W Model.Error (Unit {0})
  pub create_cluster : Model.Cluster → Action W Model.Error (Unit {0})
  pub create_app : Model.App → Action W Model.Error (Unit {0})
  pub create_box : Model.Box → Action W Model.Error (Unit {0})

-- One of the five loops: convert, create, and stop at the first error.
abbrev pub store_all :
    {W A E : Type 0}
    → (A → Result Error E)
    → (E → Action W Error (Unit {0}))
    → List A
    → Action W Error (Unit {0})
store_all convert make [] = pure tt
store_all convert make (x ∷ xs) = do e ← lift (convert x); make e; store_all convert make xs

unfoldable pub to_models :
    {W : Type 0} → Library → Repositories W → String → Sink → Action W Error (Unit {0})
to_models lib repos app_file s = do
  store_all (convert_workspace lib)
      (λ e. wrapped (not_created workspace e.name) (repos.create_workspace e)) (list_workspaces s)
  store_all (convert_provider lib)
      (λ e. wrapped (not_created provider e.name) (repos.create_provider e)) (list_providers s)
  store_all (convert_cluster lib)
      (λ e. wrapped (not_created cluster e.name) (repos.create_cluster e)) (list_clusters s)
  store_all (convert_app lib app_file) (λ e. wrapped (not_created app e.name) (repos.create_app e))
      (list_apps s)
  store_all (convert_box lib) (λ e. wrapped (not_created box e.name) (repos.create_box e))
      (list_boxes s)

-- The repositories of adapters/store/inmem, whose Create never fails. `now` is time.Now.
abbrev pub in_memory : ℕ → Repositories Store
in_memory now = record {
  create_workspace = λ e m. (ok tt, record m { workspaces = (create now e m.workspaces).1 });
  create_provider = λ e m. (ok tt, record m { providers = (create now e m.providers).1 });
  create_cluster = λ e m. (ok tt, record m { clusters = (create now e m.clusters).1 });
  create_app = λ e m. (ok tt, record m { apps = (create now e m.apps).1 });
  create_box = λ e m. (ok tt, record m { boxes = (create now e m.boxes).1 });
}
