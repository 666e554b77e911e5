-- ===== src/Kom.antt =====
-- cmd/kompoxops/kom_loader.go and repos_builder_kom.go: the documents of a project, loaded, indexed
-- and stored in new repositories, and its default app. How the paths to search are chosen
-- and resolved is not modelled: they are an argument. An error ends the command,
-- so what one leaves in the variable komMode is left out.
pub mod Scan
pub mod Pipeline
pub mod Counting
pub mod Selection
pub mod Sample
mod Tests
use kompox.Prelude.{
  ℕ, ◌+◌, nat_eq, String, Bool, true, false, not, ◌&&◌, Option, is_empty, none, some, List, [], ◌∷◌,
  ◌++◌, lookup, if◌then◌else◌, ◌==◌, Result, ok, err, ◌>>=◌, ◌>>◌, guard, relabel,
}
use kompox.Crd.Types.{Kind, app, kind_eq, Defaults, Object, of_app, Document}
use kompox.Crd.Fqn
use kompox.Crd.Fqn.{annotation_id, parse_resource_id, parent_fqn}
use kompox.Crd.Validator.{ValidationError}
use kompox.Crd.Sink.{Sink, new_sink}
use kompox.Crd.Loader.{
  FileError, LoadError, Loaded, resource, defaults, LoaderResult, Structs, FileSystem,
  append_result, load,
}
use kompox.Crd.Convert.{Error, Library}
use kompox.Crd.Convert.Stores.{to_models, in_memory}
use kompox.Kom.Scan.{ScanError, find_kom_files}
use kompox.Store.Memory.{Store, new_store}

pub data KomError : Type 0 where
  not_loaded : String → FileError → KomError
  app_file_errors load_errors : List LoadError → KomError
  many_defaults : String → KomError
  not_scanned : ScanError → KomError
  not_valid : List ValidationError → KomError
  bad_app_id : String → Fqn.Error → KomError

-- The variable komMode, when it is enabled.
pub record Mode : Type 0 where
  pub sink : Sink
  pub kompox_app_file_path : String
  pub default_app_id : String
  pub default_cluster_id : String

-- The loop over the documents of kompoxapp.yml: at most one Defaults, and the others.
unfoldable pub split_defaults :
    String → Option Defaults → List Loaded → Result KomError (Option Defaults × List Document)
split_defaults path seen [] = ok (seen, [])
split_defaults path seen (resource d ∷ docs) = do
  (given, rest) ← split_defaults path seen docs
  ok (given, d ∷ rest)
split_defaults path none (defaults d p i ∷ docs) = split_defaults path (some d) docs
split_defaults path (some e) (defaults d p i ∷ docs) = err (many_defaults path)

-- Defaults of other files are skipped.
unfoldable pub resources_of : List Loaded → List Document
resources_of [] = []
resources_of (resource d ∷ docs) = d ∷ resources_of docs
resources_of (defaults d p i ∷ docs) = resources_of docs

-- The ID of an App's annotations. Those of a loaded document are never nil.
abbrev pub app_annotation : String → Object → String
app_annotation id (of_app a) = elim (lookup annotation_id a.meta.annotations) [
  | some own ↦ own
  | none ↦ ""
]
app_annotation id _ = id

-- The loop that counts apps: how many, and the ID of the last.
unfoldable pub count_apps : ℕ → String → List Document → ℕ × String
count_apps n id [] = (n, id)
count_apps n id (d ∷ docs) = elim (kind_eq d.kind app) [
  | true ↦ count_apps (n + 1) (app_annotation id d.object) docs
  | false ↦ count_apps n id docs
]

module _ (lib : Library) (structs : Structs) (files : FileSystem) where
  abbrev pub is_label : String → Bool
  is_label = lib.labels.is_label

  -- The default app and its cluster, or empty texts.
  abbrev pub ids_of : Result Fqn.Error (String × Kind) → String × String
  ids_of (ok (f, kind)) = (f, parent_fqn f)
  ids_of (err e) = ("", "")

  abbrev pub only_app : ℕ × String → String × String
  only_app (n, id) =
      if nat_eq n 1 && not (id == "") then ids_of (parse_resource_id is_label id) else ("", "")

  abbrev pub fallback : List Document → String × String
  fallback docs = only_app (count_apps 0 "" docs)

  unfoldable pub default_ids : Option Defaults → List Document → Result KomError (String × String)
  default_ids none docs = ok (fallback docs)
  default_ids (some d) docs =
      if not (d.spec.app_id == "")
      then relabel (bad_app_id d.spec.app_id) (parse_resource_id is_label d.spec.app_id)
        >>= (λ (f, kind). ok (f, parent_fqn f))
      else ok (fallback docs)

  abbrev pub app_documents :
      String → LoaderResult → Result KomError (Option Defaults × List Document)
  app_documents path r = do
    guard (is_empty r.errors) (app_file_errors r.errors)
    split_defaults path none r.documents

  -- kompoxapp.yml, if there is one.
  unfoldable pub load_app_file : String → Result KomError (Option Defaults × List Document)
  load_app_file path = if path == "" then ok (none, []) else elim (files.stat path) [
    | none ↦ ok (none, [])
    | some info ↦
        relabel (not_loaded path) (load is_label structs files path) >>= app_documents path
  ]

  unfoldable pub load_all : List String → Result KomError LoaderResult
  load_all [] = ok (record { documents = []; errors = [] })
  load_all (path ∷ paths) = do
    r ← relabel (not_loaded path) (load is_label structs files path)
    rest ← load_all paths
    ok (append_result r rest)

  abbrev pub abs_or_empty : String → String
  abs_or_empty path = if path == "" then "" else elim (lib.abs path) [ some a ↦ a | none ↦ "" ]

  -- NewSink and what follows, once the documents are loaded.
  unfoldable pub enable :
      String → Option Defaults → List Document → List Document → Result KomError (Option Mode)
  enable app_path given app_docs [] = ok none
  enable app_path given app_docs (d ∷ docs) = do
    sink ← relabel not_valid (new_sink is_label (d ∷ docs))
    (app_id, cluster_id) ← default_ids given app_docs
    ok (
        some (record {
          sink = sink;
          kompox_app_file_path = abs_or_empty app_path;
          default_app_id = app_id;
          default_cluster_id = cluster_id;
        }))

  -- initializeKOMMode: none if KOM mode is not applicable.
  unfoldable pub initialize_kom_mode : String → List String → Result KomError (Option Mode)
  initialize_kom_mode app_path paths = do
    (given, app_docs) ← load_app_file app_path
    found_files ← relabel not_scanned (find_kom_files files paths)
    loaded ← load_all found_files
    guard (is_empty loaded.errors) (load_errors loaded.errors)
    enable app_path given app_docs (resources_of loaded.documents ++ app_docs)

  unfoldable pub build_repos_from_kom : ℕ → Mode → Result Error (Unit {0}) × Store
  build_repos_from_kom now mode =
      to_models lib (in_memory now) mode.kompox_app_file_path mode.sink new_store
