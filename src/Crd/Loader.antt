-- ===== src/Crd/Loader.antt =====
-- config/crd/ops/v1alpha1/loader.go: the documents in files and directories. The file system, the
-- YAML decoder and the copying of a map into a struct (mapToStruct) are parameters. A Document of
-- kind Defaults, which has no FQN, has a constructor of its own.
pub mod Sourcing
use kompox.Prelude.{
  ℕ, ◌+◌, ltb, String, Bool, true, false, not, Option, none, some, List, [], ◌∷◌, ◌++◌, insert,
  decimal, if◌then◌else◌, ◌==◌, ◌||◌, Result, ok, err, ◌>>=◌, ◌>>◌, guard, found, relabel,
}
use kompox.Crd.Types.{
  Kind, workspace, provider, cluster, app, box, other, StringMap, Value, Members, ObjectMeta,
  Workspace, Provider, Cluster, App, Box, Defaults, Object, of_workspace, of_provider, of_cluster,
  of_app, of_box, Document, annotation_doc_path, annotation_doc_index,
}
use kompox.Crd.Fqn
use kompox.Crd.Fqn.{extract_resource_id}

pub data DocumentError : Type 0 where
  no_metadata no_name : DocumentError
  not_parsed : Kind → DocumentError
  bad_id : Fqn.Error → DocumentError
  unsupported : String → DocumentError

pub data FileError : Type 0 where
  no_stat no_file no_walk : String → FileError
  too_large : String → ℕ → FileError

-- The numbers are those of the documents in their files.
pub data LoadError : Type 0 where
  not_decoded no_api_version no_kind : ℕ → String → LoadError
  bad_document : ℕ → String → DocumentError → LoadError
  not_walked : String → LoadError
  not_loaded : String → FileError → LoadError

pub data Loaded : Type 0 where
  resource : Document → Loaded
  defaults : Defaults → String → ℕ → Loaded

pub record LoaderResult : Type 0 where
  pub documents : List Loaded
  pub errors : List LoadError

-- mapToStruct, for each type of target.
pub record Structs : Type 0 where
  pub to_defaults : Members → Option Defaults
  pub to_workspace : Members → Option Workspace
  pub to_provider : Members → Option Provider
  pub to_cluster : Members → Option Cluster
  pub to_app : Members → Option App
  pub to_box : Members → Option Box

-- An entry of os.ReadDir: whether it is a directory, and its size, unless Info fails.
pub record Entry : Type 0 where
  pub name : String
  pub is_dir : Bool
  pub size : Option ℕ

-- os.Stat, as whether the path is a directory and its size; os.Open, as a file's size and what its
-- decoder gives up to the end of the file, a map or an error; the visits of filepath.Walk, an error
-- or a path that may be a directory; os.ReadDir; filepath.EvalSymlinks, Join and Ext, and
-- strings.ToLower.
pub record FileSystem : Type 0 where
  pub stat : String → Option (Bool × ℕ)
  pub open_file : String → Option (ℕ × List (Option Members))
  pub walk : String → Result String (List (String × Option Bool))
  pub read_dir : String → Option (List Entry)
  pub eval_symlinks : String → Option String
  pub join : String → String → String
  pub ext : String → String
  pub lower : String → String

abbrev pub field : String → Members → Option Value
field key Members.end = none
field key (Members.member k v m) = let rest = field key m in if k == key then some v else rest

abbrev pub as_string : Option Value → Option String
as_string (some (Value.str s)) = some s
as_string _ = none

abbrev pub as_object : Option Value → Option Members
as_object (some (Value.object m)) = some m
as_object _ = none

-- The entries that are texts.
unfoldable pub strings_of : Members → StringMap
strings_of Members.end = []
strings_of (Members.member k (Value.str s) m) = (k, s) ∷ strings_of m
strings_of (Members.member k _ m) = strings_of m

abbrev pub annotations_of : Option Members → StringMap
annotations_of none = []
annotations_of (some m) = strings_of m

unfoldable pub kind_of : String → Kind
kind_of s =
    if s == "Workspace"
    then workspace
    else if s == "Provider"
    then provider
    else if s == "Cluster"
    then cluster
    else if s == "App"
    then app
    else if s == "Box"
    then box
    else other s

unfoldable pub set_document_annotations : String → ℕ → ObjectMeta → ObjectMeta
set_document_annotations path i m = record m {
  annotations =
      insert annotation_doc_index (decimal i) (insert annotation_doc_path path m.annotations);
}

-- A document, an error or neither, before the others.
abbrev pub add : Result LoadError (Option Loaded) → LoaderResult → LoaderResult
add (err e) r = record r { errors = e ∷ r.errors }
add (ok none) r = r
add (ok (some d)) r = record r { documents = d ∷ r.documents }

abbrev pub append_result : LoaderResult → LoaderResult → LoaderResult
append_result r s = record { documents = r.documents ++ s.documents; errors = r.errors ++ s.errors }

module _ (is_label : String → Bool) (structs : Structs) where
  -- The `switch kind` of parseKindDocument.
  unfoldable pub parse_object : Kind → Members → String → ℕ → Result DocumentError Object
  parse_object workspace raw path i = do
    w ← found (structs.to_workspace raw) (not_parsed workspace)
    ok (of_workspace (record w { meta = set_document_annotations path i w.meta }))
  parse_object provider raw path i = do
    p ← found (structs.to_provider raw) (not_parsed provider)
    ok (of_provider (record p { meta = set_document_annotations path i p.meta }))
  parse_object cluster raw path i = do
    c ← found (structs.to_cluster raw) (not_parsed cluster)
    ok (of_cluster (record c { meta = set_document_annotations path i c.meta }))
  parse_object app raw path i = do
    a ← found (structs.to_app raw) (not_parsed app)
    ok (of_app (record a { meta = set_document_annotations path i a.meta }))
  parse_object box raw path i = do
    b ← found (structs.to_box raw) (not_parsed box)
    ok (of_box (record b { meta = set_document_annotations path i b.meta }))
  parse_object (other kind) raw path i = err (unsupported kind)

  abbrev pub parse_defaults : Members → String → ℕ → Result DocumentError Loaded
  parse_defaults raw path i = do
    d ← found (structs.to_defaults raw) (not_parsed (other "Defaults"))
    ok (defaults (record d { meta = set_document_annotations path i d.meta }) path i)

  abbrev pub parse_resource :
      Kind → Members → String → StringMap → String → ℕ → Result DocumentError Loaded
  parse_resource kind raw name annotations path i = do
    fqn ← relabel bad_id (extract_resource_id is_label kind name annotations)
    object ← parse_object kind raw path i
    ok (resource (record { kind = kind; fqn = fqn; object = object; path = path; index = i }))

  unfoldable pub parse_kind_document : Members → String → String → ℕ → Result DocumentError Loaded
  parse_kind_document raw kind path i = do
    metadata ← found (as_object (field "metadata" raw)) no_metadata
    name ← found (as_string (field "name" metadata)) no_name
    guard (not (name == "")) no_name
    (if kind == "Defaults"
        then parse_defaults raw path i
        else parse_resource (kind_of kind) raw name
            (annotations_of (as_object (field "annotations" metadata))) path i)

  -- Documents of other APIs, and empty ones, are skipped.
  unfoldable pub decode_document : String → ℕ → Option Members → Result LoadError (Option Loaded)
  decode_document path i none = err (not_decoded i path)
  decode_document path i (some Members.end) = ok none
  decode_document path i (some (Members.member k v m)) = do
    let raw = Members.member k v m
    version ← found (as_string (field "apiVersion" raw)) (no_api_version i path)
    kind ← found (as_string (field "kind" raw)) (no_kind i path)
    (if version == "ops.kompox.dev/v1alpha1"
        then relabel (bad_document i path) (parse_kind_document raw kind path i)
          >>= (λ d. ok (some d))
        else ok none)

  -- The loop of loadFile, from the document of a number on. The stream ends: a decoder that fails
  -- without end, on which the loop would not end either, is not modelled.
  unfoldable pub decode_all : String → ℕ → List (Option Members) → LoaderResult
  decode_all path i [] = record { documents = []; errors = [] }
  decode_all path i (x ∷ xs) = add (decode_document path i x) (decode_all path (i + 1) xs)

  module _ (files : FileSystem) where
    -- The greatest size is that of NewLoader, 10 MB.
    unfoldable pub load_file : String → Result FileError LoaderResult
    load_file path = do
      (size, stream) ← found (files.open_file path) (no_file path)
      guard (not (ltb 10485760 size)) (too_large path 10485760)
      ok (decode_all path 1 stream)

    -- One visit of the walk, which goes on after an error.
    unfoldable pub visit : String × Option Bool → LoaderResult
    visit (path, none) = record { documents = []; errors = not_walked path ∷ [] }
    visit (path, some true) = record { documents = []; errors = [] }
    visit (path, some false) =
        if files.lower (files.ext path) == ".yml" || files.lower (files.ext path) == ".yaml"
        then elim (load_file path) [
          | ok r ↦ r
          | err e ↦ record { documents = []; errors = not_loaded path e ∷ [] }
        ]
        else record { documents = []; errors = [] }

    unfoldable pub visit_all : List (String × Option Bool) → LoaderResult
    visit_all [] = record { documents = []; errors = [] }
    visit_all (v ∷ visits) = append_result (visit v) (visit_all visits)

    unfoldable pub load_directory : String → Result FileError LoaderResult
    load_directory dir = do visits ← relabel no_walk (files.walk dir); ok (visit_all visits)

    unfoldable pub load : String → Result FileError LoaderResult
    load path = do
      (directory, size) ← found (files.stat path) (no_stat path)
      (if directory then load_directory path else load_file path)
