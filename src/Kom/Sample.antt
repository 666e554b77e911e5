-- ===== src/Kom/Sample.antt =====
-- A project of one file, and a function that copies maps into structs.
use kompox.Prelude.{
  true, append, ◌==◌, if◌then◌else◌, refl, String, false, Option, none, some, some_inj, List, [],
  ◌∷◌, ok,
}
use mathlib.Core.Path.{subst}
use kompox.Crd.Types.{Value, Members, ObjectMeta}
use kompox.Crd.Fqn.{annotation_id}
use kompox.Crd.Loader.{Structs, FileSystem, Entry, field, as_string, as_object, annotations_of}
use kompox.Crd.Loader.Sourcing.{HasMetadata, KeepsMetadata}

-- Structs with the metadata of the map, and the zero values elsewhere.
abbrev or_empty : Option String → String
or_empty none = ""
or_empty (some s) = s

abbrev meta_at : Option Members → ObjectMeta
meta_at none = record { name = ""; annotations = [] }
meta_at (some m) = record {
  name = or_empty (as_string (field "name" m));
  annotations = annotations_of (as_object (field "annotations" m));
}

abbrev meta_of : Members → ObjectMeta
meta_of raw = meta_at (as_object (field "metadata" raw))

abbrev pub structs : Structs
structs = record {
  to_defaults =
      λ raw. some (record { meta = meta_of raw; spec = record { kom_path = []; app_id = "" } });
  to_workspace = λ raw.
      some (record { meta = meta_of raw; spec = record { settings = [] }; ops_namespace = "" });
  to_provider = λ raw. some (record {
    meta = meta_of raw;
    spec = record { driver = "k3s"; settings = [] };
    ops_namespace = "";
  });
  to_cluster = λ raw. some (record {
    meta = meta_of raw;
    spec = record { existing = false; ingress = none; protection = none; settings = [] };
    ops_namespace = "";
  });
  to_app = λ raw. some (record {
    meta = meta_of raw;
    spec = record {
      compose = "";
      ingress = none;
      volumes = [];
      deployment = none;
      network_policy = none;
      resources = [];
      settings = [];
    };
    ops_namespace = "";
  });
  to_box = λ raw. none;
}

meta_of-HasMetadata : (raw : Members) → HasMetadata raw (meta_of raw)
meta_of-HasMetadata raw = record {
  named = λ metadata name h i. rw h (rw i refl);
  identified = λ metadata id h i. rw h i;
}

pub keeps : KeepsMetadata structs
keeps = record {
  workspaces =
      λ raw w h. subst (λ x. HasMetadata raw x.meta) (some_inj h) (meta_of-HasMetadata raw);
  providers = λ raw w h. subst (λ x. HasMetadata raw x.meta) (some_inj h) (meta_of-HasMetadata raw);
  clusters = λ raw w h. subst (λ x. HasMetadata raw x.meta) (some_inj h) (meta_of-HasMetadata raw);
  apps = λ raw w h. subst (λ x. HasMetadata raw x.meta) (some_inj h) (meta_of-HasMetadata raw);
  boxes = λ raw w h. absurd (cc h);
}

abbrev document : String → String → String → Option Members
document kind name id = some (
    Members.member "apiVersion" (Value.str "ops.kompox.dev/v1alpha1") (
      Members.member "kind" (Value.str kind) (
        Members.member "metadata"
          (Value.object (
            Members.member "name" (Value.str name) (
              Members.member "annotations"
                (Value.object (Members.member annotation_id (Value.str id) Members.end))
                Members.end)))
          Members.end)))

-- One file, with a Defaults and an empty document between the others.
abbrev pub stream : List (Option Members)
stream =
    document "Workspace" "w" "/ws/w"
    ∷ document "Defaults" "d" ""
    ∷ some Members.end
    ∷ document "Provider" "p" "/ws/w/prv/p"
    ∷ document "Cluster" "c" "/ws/w/prv/p/cls/c"
    ∷ document "App" "a" "/ws/w/prv/p/cls/c/app/a"
    ∷ []

abbrev pub files : FileSystem
files = record {
  stat = λ path. some (false, 900);
  open_file = λ path. some (900, stream);
  walk = λ path. ok [];
  read_dir = λ dir. none;
  eval_symlinks = λ path. some path;
  join = λ dir name. name;
  ext = λ path. ".yml";
  lower = λ text. text;
}

-- A directory with one subdirectory that is ignored, one that is not, and two files.
abbrev entries_of : String → List Entry
entries_of dir =
    if dir == "kom"
    then (record { name = ".git"; is_dir = true; size = none })
      ∷ (record { name = "more"; is_dir = true; size = none })
      ∷ (record { name = "a.yml"; is_dir = false; size = some 900 })
      ∷ (record { name = "notes.txt"; is_dir = false; size = some 10 })
      ∷ []
    else (record { name = "b.yaml"; is_dir = false; size = some 20 }) ∷ []

abbrev ext_of : String → String
ext_of name = if name == "b.yaml" then ".yaml" else if name == "notes.txt" then ".txt" else ".yml"

abbrev pub tree : FileSystem
tree = record files {
  stat = λ path. some (if path == "kom" then (true, 0) else (false, 900));
  read_dir = λ dir. some (entries_of dir);
  join = λ dir name. append dir (append "/" name);
  ext = ext_of;
}
