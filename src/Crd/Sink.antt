-- ===== src/Crd/Sink.antt =====
-- config/crd/ops/v1alpha1/sink.go: the index of validated documents, by kind and ID.
pub mod Storing
pub mod Contents
mod Tests
use kompox.Prelude.{
  ℕ, ◌+◌, String, Bool, true, false, Option, List, [], ◌∷◌, map, length, Map, lookup, insert,
  Result, ok, err, if◌then◌else◌,
}
use kompox.Crd.Types.{
  Kind, workspace, provider, cluster, app, box, Workspace, Provider, Cluster, App, Box, Object,
  of_workspace, of_provider, of_cluster, of_app, of_box, Document,
}
use kompox.Crd.Validator.{ValidationError, has_errors, validate}

pub record Sink : Type 0 where
  pub workspaces : Map Workspace
  pub providers : Map Provider
  pub clusters : Map Cluster
  pub apps : Map App
  pub boxes : Map Box

abbrev pub empty : Sink
empty = record { workspaces = []; providers = []; clusters = []; apps = []; boxes = [] }

-- The switch on the kind, with its type assertions.
unfoldable pub store_object : Kind → Object → String → Sink → Sink
store_object workspace (of_workspace w) f s = record s { workspaces = insert f w s.workspaces }
store_object provider (of_provider p) f s = record s { providers = insert f p s.providers }
store_object cluster (of_cluster c) f s = record s { clusters = insert f c s.clusters }
store_object app (of_app a) f s = record s { apps = insert f a s.apps }
store_object box (of_box b) f s = record s { boxes = insert f b s.boxes }
store_object _ _ f s = s

unfoldable pub populate : Sink → List Document → Sink
populate s [] = s
populate s (d ∷ docs) = populate (store_object d.kind d.object d.fqn s) docs

-- A failure carries the validation errors.
unfoldable pub new_sink : (String → Bool) → List Document → Result (List ValidationError) Sink
new_sink is_label docs =
    let validated = validate is_label docs in
    if has_errors validated
    then err validated.errors
    else ok (populate empty validated.valid_documents)

unfoldable pub get_workspace : Sink → String → Option Workspace
get_workspace s f = lookup f s.workspaces

unfoldable pub get_provider : Sink → String → Option Provider
get_provider s f = lookup f s.providers

unfoldable pub get_cluster : Sink → String → Option Cluster
get_cluster s f = lookup f s.clusters

unfoldable pub get_app : Sink → String → Option App
get_app s f = lookup f s.apps

unfoldable pub get_box : Sink → String → Option Box
get_box s f = lookup f s.boxes

abbrev values {ℓ} : {V : Type ℓ} → Map V → List V
values m = map (λ e. e.1) m

unfoldable pub list_workspaces : Sink → List Workspace
list_workspaces s = values s.workspaces

unfoldable pub list_providers : Sink → List Provider
list_providers s = values s.providers

unfoldable pub list_clusters : Sink → List Cluster
list_clusters s = values s.clusters

unfoldable pub list_apps : Sink → List App
list_apps s = values s.apps

unfoldable pub list_boxes : Sink → List Box
list_boxes s = values s.boxes

unfoldable pub count : Sink → ℕ
count s =
    length s.workspaces + length s.providers + length s.clusters + length s.apps + length s.boxes
