-- ===== src/Crd/Sink/Storing.antt =====
-- What storing one object does to what a sink holds.
use kompox.Prelude.{
  ◌+◌, ◌≡◌, ◌∙◌, String, false, none, some, lookup-insert_self, lookup-insert_other,
  length-insert_fresh, arith, ◌==◌,
}
use kompox.Crd.Types.{
  Kind, workspace, provider, cluster, app, box, Object, of_workspace, of_provider, of_cluster,
  of_app, of_box, Document,
}
use kompox.Crd.Sink.{
  Sink, store_object, get_workspace, get_provider, get_cluster, get_app, get_box, count,
}

abbrev pub object_kind : Object → Kind
object_kind (of_workspace w) = workspace
object_kind (of_provider p) = provider
object_kind (of_cluster c) = cluster
object_kind (of_app a) = app
object_kind (of_box b) = box

-- The object has the type that its kind names, as the loader makes them.
abbrev pub IsTyped : Document → Type 0
IsTyped d = d.kind ≡ object_kind d.object

-- The sink returns the object at the ID.
abbrev pub Holds : Sink → String → Object → Type 0
Holds s f (of_workspace w) = get_workspace s f ≡ some w
Holds s f (of_provider p) = get_provider s f ≡ some p
Holds s f (of_cluster c) = get_cluster s f ≡ some c
Holds s f (of_app a) = get_app s f ≡ some a
Holds s f (of_box b) = get_box s f ≡ some b

-- The ID has no object of any kind.
pub record IsFree (s : Sink) (f : String) : Type 0 where
  pub workspace : get_workspace s f ≡ none
  pub provider : get_provider s f ≡ none
  pub cluster : get_cluster s f ≡ none
  pub app : get_app s f ≡ none
  pub box : get_box s f ≡ none

pub store-Holds :
    (o : Object) (f : String) (s : Sink) → Holds (store_object (object_kind o) o f s) f o
unfolding store_object get_workspace get_provider get_cluster get_app get_box
store-Holds (of_workspace w) f s = lookup-insert_self f w s.workspaces
store-Holds (of_provider p) f s = lookup-insert_self f p s.providers
store-Holds (of_cluster c) f s = lookup-insert_self f c s.clusters
store-Holds (of_app a) f s = lookup-insert_self f a s.apps
store-Holds (of_box b) f s = lookup-insert_self f b s.boxes

-- Storing under one ID leaves what is held under another.
pub store-Holds_other :
    (o : Object) (g f : String) (s : Sink) (x : Object)
    → (g == f) ≡ false
    → Holds s f x
    → Holds (store_object (object_kind o) o g s) f x
unfolding store_object get_workspace get_provider get_cluster get_app get_box
store-Holds_other (of_workspace w) g f s (of_workspace x) differ h =
    lookup-insert_other g f w s.workspaces differ ∙ h
store-Holds_other (of_workspace w) g f s _ differ h = h
store-Holds_other (of_provider p) g f s (of_provider x) differ h =
    lookup-insert_other g f p s.providers differ ∙ h
store-Holds_other (of_provider p) g f s _ differ h = h
store-Holds_other (of_cluster c) g f s (of_cluster x) differ h =
    lookup-insert_other g f c s.clusters differ ∙ h
store-Holds_other (of_cluster c) g f s _ differ h = h
store-Holds_other (of_app a) g f s (of_app x) differ h = lookup-insert_other g f a s.apps differ ∙ h
store-Holds_other (of_app a) g f s _ differ h = h
store-Holds_other (of_box b) g f s (of_box x) differ h =
    lookup-insert_other g f b s.boxes differ ∙ h
store-Holds_other (of_box b) g f s _ differ h = h

pub store-IsFree :
    (o : Object) (g f : String) (s : Sink)
    → (g == f) ≡ false
    → IsFree s f
    → IsFree (store_object (object_kind o) o g s) f
unfolding store_object get_workspace get_provider get_cluster get_app get_box
store-IsFree (of_workspace w) g f s differ h = record {
  workspace = lookup-insert_other g f w s.workspaces differ ∙ h.workspace;
  provider = h.provider;
  cluster = h.cluster;
  app = h.app;
  box = h.box;
}
store-IsFree (of_provider p) g f s differ h = record {
  workspace = h.workspace;
  provider = lookup-insert_other g f p s.providers differ ∙ h.provider;
  cluster = h.cluster;
  app = h.app;
  box = h.box;
}
store-IsFree (of_cluster c) g f s differ h = record {
  workspace = h.workspace;
  provider = h.provider;
  cluster = lookup-insert_other g f c s.clusters differ ∙ h.cluster;
  app = h.app;
  box = h.box;
}
store-IsFree (of_app a) g f s differ h = record {
  workspace = h.workspace;
  provider = h.provider;
  cluster = h.cluster;
  app = lookup-insert_other g f a s.apps differ ∙ h.app;
  box = h.box;
}
store-IsFree (of_box b) g f s differ h = record {
  workspace = h.workspace;
  provider = h.provider;
  cluster = h.cluster;
  app = h.app;
  box = lookup-insert_other g f b s.boxes differ ∙ h.box;
}

pub store-count :
    (o : Object) (f : String) (s : Sink)
    → IsFree s f
    → count (store_object (object_kind o) o f s) ≡ count s + 1
unfolding store_object count get_workspace get_provider get_cluster get_app get_box
store-count (of_workspace w) f s h = omega (arith, length-insert_fresh f w s.workspaces h.workspace)
store-count (of_provider p) f s h = omega (arith, length-insert_fresh f p s.providers h.provider)
store-count (of_cluster c) f s h = omega (arith, length-insert_fresh f c s.clusters h.cluster)
store-count (of_app a) f s h = omega (arith, length-insert_fresh f a s.apps h.app)
store-count (of_box b) f s h = omega (arith, length-insert_fresh f b s.boxes h.box)
