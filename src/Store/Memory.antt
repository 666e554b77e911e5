-- ===== src/Store/Memory.antt =====
-- adapters/store/inmem/store.go: the five repositories of one store.
use kompox.Domain.Model.{Workspace, Provider, Cluster, App, Box}
use kompox.Store.{
  Repository, new_repository, workspace_entity, provider_entity, cluster_entity, app_entity,
  box_entity,
}

pub record Store : Type 0 where
  pub workspaces : Repository Workspace
  pub providers : Repository Provider
  pub clusters : Repository Cluster
  pub apps : Repository App
  pub boxes : Repository Box

abbrev pub new_store : Store
new_store = record {
  workspaces = new_repository;
  providers = new_repository;
  clusters = new_repository;
  apps = new_repository;
  boxes = new_repository;
}
