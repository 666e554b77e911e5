-- ===== src/Crd/Convert/Loops.antt =====
-- Sink.ToModels on the repositories in memory: each of its loops fills one of them.
use kompox.Prelude.{ℕ, ◌≡◌, sym, ap, ◌∙◌, String, ok}
use kompox.Prelude.Actions.{Action, ◌>>◌}
use kompox.Store.{workspace_entity, provider_entity, cluster_entity, app_entity, box_entity}
use kompox.Store.Memory.{Store}
use kompox.Crd.Types.{workspace, provider, cluster, app, box}
use kompox.Crd.Sink.{Sink, list_workspaces, list_providers, list_clusters, list_apps, list_boxes}
use kompox.Crd.Convert.{
  Error, not_created, Library, convert_workspace, convert_provider, convert_cluster, convert_app,
  convert_box,
}
use kompox.Crd.Convert.Stores.{to_models, in_memory}
use kompox.Crd.Convert.Filling.{fill}
use kompox.Crd.Convert.Parts.{
  workspace_part, provider_part, cluster_part, app_part, box_part, loop, loop-eq, loop-step,
  loop-end, loop-run,
}

module _ (lib : Library) (now : ℕ) (app_file : String) where
  -- Each repository, filled by its loop.
  abbrev pub filled : Sink → Store → Store
  filled s m = record {
    workspaces = (fill (convert_workspace lib) now (list_workspaces s) m.workspaces).1;
    providers = (fill (convert_provider lib) now (list_providers s) m.providers).1;
    clusters = (fill (convert_cluster lib) now (list_clusters s) m.clusters).1;
    apps = (fill (convert_app lib app_file) now (list_apps s) m.apps).1;
    boxes = (fill (convert_box lib) now (list_boxes s) m.boxes).1;
  }

  -- Every loop succeeds.
  pub record AllFill (s : Sink) (m : Store) : Type 0 where
    pub workspaces : (fill (convert_workspace lib) now (list_workspaces s) m.workspaces).0 ≡ ok tt
    pub providers : (fill (convert_provider lib) now (list_providers s) m.providers).0 ≡ ok tt
    pub clusters : (fill (convert_cluster lib) now (list_clusters s) m.clusters).0 ≡ ok tt
    pub apps : (fill (convert_app lib app_file) now (list_apps s) m.apps).0 ≡ ok tt
    pub boxes : (fill (convert_box lib) now (list_boxes s) m.boxes).0 ≡ ok tt

  -- The block from each loop on.
  abbrev boxes_on : Sink → Action Store Error (Unit {0})
  boxes_on s = loop box_part (convert_box lib) now (λ e. not_created box e.name) (list_boxes s)

  abbrev apps_on : Sink → Action Store Error (Unit {0})
  apps_on s =
      loop app_part (convert_app lib app_file) now (λ e. not_created app e.name) (list_apps s)
      >> boxes_on s

  abbrev clusters_on : Sink → Action Store Error (Unit {0})
  clusters_on s =
      loop cluster_part (convert_cluster lib) now (λ e. not_created cluster e.name)
        (list_clusters s)
      >> apps_on s

  abbrev providers_on : Sink → Action Store Error (Unit {0})
  providers_on s =
      loop provider_part (convert_provider lib) now (λ e. not_created provider e.name)
        (list_providers s)
      >> clusters_on s

  -- If ToModels succeeds, every loop has, and each repository is the one that its loop fills.
  pub to_models-filled :
      (s : Sink) (m : Store)
      → (to_models lib (in_memory now) app_file s m).0 ≡ ok tt
      → AllFill s m × ((to_models lib (in_memory now) app_file s m).1 ≡ filled s m)
  unfolding to_models
  to_models-filled s m done =
      let m1 : Store = record m { workspaces = (filled s m).workspaces } in
      let m2 : Store = record m1 { providers = (filled s m).providers } in
      let m3 : Store = record m2 { clusters = (filled s m).clusters } in
      let m4 : Store = record m3 { apps = (filled s m).apps } in
      let (ws, first) =
        loop-step workspace_part (convert_workspace lib) now (λ e. not_created workspace e.name)
          (list_workspaces s) (providers_on s) m done in
      let (ps, second) =
        loop-step provider_part (convert_provider lib) now (λ e. not_created provider e.name)
          (list_providers s) (clusters_on s) m1 (ap (λ o. o.0) (sym first) ∙ done) in
      let two = first ∙ second in
      let (cs, third) =
        loop-step cluster_part (convert_cluster lib) now (λ e. not_created cluster e.name)
          (list_clusters s) (apps_on s) m2 (ap (λ o. o.0) (sym two) ∙ done) in
      let three = two ∙ third in
      let (hs, fourth) =
        loop-step app_part (convert_app lib app_file) now (λ e. not_created app e.name)
          (list_apps s) (boxes_on s) m3 (ap (λ o. o.0) (sym three) ∙ done) in
      let four = three ∙ fourth in
      let (bs, last) =
        loop-end box_part (convert_box lib) now (λ e. not_created box e.name) (list_boxes s) m4
          (ap (λ o. o.0) (sym four) ∙ done) in
      (
        record { workspaces = ws; providers = ps; clusters = cs; apps = hs; boxes = bs },
        ap (λ o. o.1) (four ∙ last),
      )

  -- If every loop succeeds, so does ToModels.
  pub filled-to_models :
      (s : Sink) (m : Store) → AllFill s m → (to_models lib (in_memory now) app_file s m).0 ≡ ok tt
  unfolding to_models
  filled-to_models s m a =
      let m1 : Store = record m { workspaces = (filled s m).workspaces } in
      let m2 : Store = record m1 { providers = (filled s m).providers } in
      let m3 : Store = record m2 { clusters = (filled s m).clusters } in
      let m4 : Store = record m3 { apps = (filled s m).apps } in
      let out =
        loop-run workspace_part (convert_workspace lib) now (λ e. not_created workspace e.name)
          (list_workspaces s) (providers_on s) m a.workspaces
        ∙ loop-run provider_part (convert_provider lib) now (λ e. not_created provider e.name)
            (list_providers s) (clusters_on s) m1 a.providers
        ∙ loop-run cluster_part (convert_cluster lib) now (λ e. not_created cluster e.name)
            (list_clusters s) (apps_on s) m2 a.clusters
        ∙ loop-run app_part (convert_app lib app_file) now (λ e. not_created app e.name)
            (list_apps s) (boxes_on s) m3 a.apps
        ∙ loop-eq box_part (convert_box lib) now (λ e. not_created box e.name) (list_boxes s) m4 in
      ap (λ o. o.0) out ∙ a.boxes
