-- ===== src/UseCases/Tests.antt =====
-- The use cases at work, and an instance of the theorem.
use kompox.Prelude.{◌⊎◌, ◌≢◌, ◌≡◌, refl, none, some, [], ok, err, lookup, insert, remove, decimal}
use kompox.Domain.Model.{
  Workspace, Provider, App, provider_invalid, workspace_not_found, app_invalid,
}
use kompox.Store.{
  workspace_entity, provider_entity, app_entity, Repository, new_repository, format_id, next_id,
  get,
}
use kompox.Store
use kompox.UseCases.{
  create, update, delete, get_entity, workspace_package, provider_package, app_package,
}
use kompox.UseCases.Updating.{Updated, WorkspaceWants, ProviderWants, AppWants, updates-Updated}

all_of : Unit {0}
unfolding create update delete get_entity Store.create Store.update Store.delete next_id format_id
    get lookup insert remove decimal
all_of = tt

guard_tests :
    ((create provider_package 5 6 (some ("p", "")) new_repository).0 ≡ err provider_invalid)
    × ((get_entity app_package none new_repository) ≡ err app_invalid)
    × ((delete workspace_package (some "") new_repository).0 ≡ ok tt)
    × ((delete workspace_package (some "x") new_repository).0 ≡ err workspace_not_found)
unfolding all_of
guard_tests = (refl, refl, refl, refl)

abbrev a_workspace : Workspace
a_workspace = record { id = "x"; name = "w"; created_at = 1; updated_at = 1 }

abbrev a_provider : Provider
a_provider = record (provider_package.new_entity 1 ("p", "k3s")) { id = "x" }

abbrev an_app : App
an_app = record (app_package.new_entity 1 ("a", "c")) { id = "x" }

abbrev workspaces : Repository Workspace
workspaces = record { items = insert "x" a_workspace []; seq = 0 }

abbrev providers : Repository Provider
providers = record { items = insert "x" a_provider []; seq = 0 }

abbrev apps : Repository App
apps = record { items = insert "x" an_app []; seq = 0 }

stored :
    (get "x" workspaces ≡ ok a_workspace)
    × (get "x" providers ≡ ok a_provider)
    × (get "x" apps ≡ ok an_app)
unfolding all_of
stored = (refl, refl, refl)

updates-Updated_example :
    Updated
      (WorkspaceWants (some "v"))
      (λ x y. y.name ≢ x.name)
      (λ y. y.updated_at)
      9
      "x"
      a_workspace
      workspaces
      (update workspace_package 9 (some ("x", some "v")) workspaces)
    × Updated
        (ProviderWants (some "v") none)
        (λ x y. (y.name ≢ x.name) ⊎ (y.driver ≢ x.driver))
        (λ y. y.updated_at)
        9
        "x"
        a_provider
        providers
        (update provider_package 9 (some ("x", (some "v", none))) providers)
    × Updated
        (AppWants (some "v") (some ""))
        (λ x y. (y.name ≢ x.name) ⊎ (y.cluster_id ≢ x.cluster_id))
        (λ y. y.updated_at)
        9
        "x"
        an_app
        apps
        (update app_package 9 (some ("x", (some "v", some ""))) apps)
updates-Updated_example =
    let (w, p, a) = stored in
    updates-Updated 9 "x" a_workspace a_provider an_app workspaces providers apps (some "v") none
      (some "") (cc) refl refl refl w p a
