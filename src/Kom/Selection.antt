-- ===== src/Kom/Selection.antt =====
-- The default app of a project: the one that Defaults names, or the only one of kompoxapp.yml.
use kompox.Prelude.{Option, ◌≡◌, ◌⊎◌, String, none, some, List}
use kompox.Crd.Types.{Kind, App, Cluster, Defaults, Document}
use kompox.Crd.Fqn.{parent_fqn}
use kompox.Crd.Fqn.Parse.{IsPath}
use kompox.Labels.{LabelRules}
use kompox.Crd.Sink.{Sink, get_app, get_cluster}
use kompox.Crd.Convert.Facts
use kompox.Kom.Counting.{OnlyApp}

-- The sink holds the app and the cluster.
abbrev pub AreStored : Sink → String × String → Type 0
AreStored s (app_id, cluster_id) =
    ((a : App) × (get_app s app_id ≡ some a))
    × ((c : Cluster) × (get_cluster s cluster_id ≡ some c))

-- The default is the only App of the documents, with its cluster, both held by the sink; where they
-- have no App or several, there is none.
abbrev pub IsFallback : List Document → Sink → String × String → Type 0
IsFallback docs s ids =
    ((x : Document) × OnlyApp x docs × (ids ≡ (x.fqn, parent_fqn x.fqn)) × AreStored s ids)
    ⊎ (((x : Document) → OnlyApp x docs → ⊥) × (ids ≡ ("", "")))

-- What the ID of the Defaults makes of the default, if there is one.
abbrev pub HasDefault :
    LabelRules → List Document → Sink → Option Defaults → String × String → Type 0
HasDefault labels docs s none ids = IsFallback docs s ids
HasDefault labels docs s (some d) ids =
    ((d.spec.app_id ≡ "") × IsFallback docs s ids)
    ⊎ (((kind : Kind) × IsPath labels d.spec.app_id kind)
        × (ids ≡ (d.spec.app_id, parent_fqn d.spec.app_id)))
