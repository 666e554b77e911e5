-- ===== src/Crd/Convert.antt =====
-- config/crd/ops/v1alpha1/sink_tomodels.go: the documents of a sink, converted to models and stored
-- in the repositories. Numbers of a document are those of ℕ.
pub mod Stores
pub mod Filling
pub mod Parts
pub mod Loops
pub mod Sources
pub mod Parents
pub mod Results
pub mod Facts
pub mod Integrity
pub mod Closed
pub mod Accepts
pub mod Success
pub mod Sample
mod Tests
use kompox.Prelude.{
  ℕ, String, Bool, true, false, not, ◌&&◌, ◌||◌, Option, is_empty, none, some, List, [], map,
  lookup, append, if◌then◌else◌, ◌==◌, Result, ok, err, ◌>>=◌, ◌>>◌, guard, relabel, each,
}
use kompox.Prelude.Actions.{Action, lift, wrapped, pure}
use kompox.Prelude.Actions
use kompox.Domain.Model.{Level}
use kompox.Domain.Model
use kompox.Crd.Types.{
  Kind, Value, StringMap, workspace, provider, cluster, app, box, annotation_doc_path,
}
use kompox.Crd.Types
use kompox.Crd.Fqn.{extract_resource_id, parent_fqn}
use kompox.Crd.Fqn
use kompox.Labels.{LabelRules}
use kompox.Crd.Policy.{PolicyError, convert_policy}

pub data SizeError : Type 0 where
  bad_quantity too_large : String → SizeError
  unsupported : SizeError

pub data Error : Type 0 where
  -- The ID of a document, by its kind and name, or its Create.
  bad_id : Kind → String → Fqn.Error → Error
  not_created : Kind → String → Model.Error → Error
  bad_provisioning bad_installation : String → String → Error
  bad_size : String → SizeError → Error
  pool_and_pools zone_and_zones selectors_reserved : String → Error
  bad_policy : Kind → String → PolicyError → Error

-- The library functions: IsDNS1123Label, filepath.Abs and Dir, and ParseQuantity with AsInt64,
-- which may refuse the text, or find the quantity too large.
pub record Library : Type 0 where
  pub labels : LabelRules
  pub abs : String → Option String
  pub dir : String → String
  pub quantity_bytes : String → Option (Option ℕ)

-- A text as a model.ClusterProtectionLevel.
unfoldable pub level_of : String → Level
level_of s =
    if s == ""
    then Level.unset
    else if s == "none"
    then Level.none
    else if s == "cannotDelete"
    then Level.cannot_delete
    else if s == "readOnly"
    then Level.read_only
    else Level.other s

unfoldable pub is_valid_protection_level : Level → Bool
is_valid_protection_level Level.none = true
is_valid_protection_level Level.cannot_delete = true
is_valid_protection_level Level.read_only = true
is_valid_protection_level _ = false

-- The level of one field: none by default.
unfoldable pub convert_level : (String → Error) → String → Result Error Level
convert_level bad s =
    if s == ""
    then ok Level.none
    else if is_valid_protection_level (level_of s)
    then ok (level_of s)
    else err (bad s)

unfoldable pub convert_protection :
    String → Option Types.ClusterProtectionSpec → Result Error (Option Model.ClusterProtection)
convert_protection name none = ok none
convert_protection name (some p) = do
  provisioning ← convert_level (λ s. bad_provisioning s name) p.provisioning
  installation ← convert_level (λ s. bad_installation s name) p.installation
  ok (some (record { provisioning = provisioning; installation = installation }))

abbrev convert_ingress : Types.ClusterIngressSpec → Model.ClusterIngress
convert_ingress i = record {
  namespace = i.namespace;
  controller = i.controller;
  service_account = i.service_account;
  domain = i.domain;
  cert_resolver = i.cert_resolver;
  cert_email = i.cert_email;
  certificates = map (λ c. record { name = c.name; source = c.source }) i.certificates;
}

abbrev convert_app_ingress : Option Types.AppIngressSpec → Model.AppIngress
convert_app_ingress none = record { cert_resolver = ""; rules = [] }
convert_app_ingress (some i) = record {
  cert_resolver = i.cert_resolver;
  rules = map (λ r. record { name = r.name; port = r.port; hosts = r.hosts }) i.rules;
}

unfoldable pub validate_app_deployment_spec :
    String → Option Types.AppDeploymentSpec → Result Error (Unit {0})
validate_app_deployment_spec name none = ok tt
validate_app_deployment_spec name (some d) = do
  guard (not (not (d.pool == "") && not (is_empty d.pools))) (pool_and_pools name)
  guard (not (not (d.zone == "") && not (is_empty d.zones))) (zone_and_zones name)
  guard (is_empty d.selectors) (selectors_reserved name)

abbrev copy_deployment : Option Types.AppDeploymentSpec → Model.AppDeployment
copy_deployment none = record { pool = ""; pools = []; zone = ""; zones = []; selectors = [] }
copy_deployment (some d) = record {
  pool = d.pool;
  pools = d.pools;
  zone = d.zone;
  zones = d.zones;
  selectors = d.selectors;
}

-- `fmt.Errorf` around an error of another type.

module _ (lib : Library) where
  abbrev quantity : String → Option (Option ℕ) → Result SizeError ℕ
  quantity s none = err (bad_quantity s)
  quantity s (some none) = err (too_large s)
  quantity s (some (some bytes)) = ok bytes

  unfoldable pub parse_volume_size : Value → Result SizeError ℕ
  parse_volume_size (Value.num n) = ok n
  parse_volume_size (Value.str s) = quantity s (lib.quantity_bytes s)
  parse_volume_size _ = err unsupported

  unfoldable pub convert_volume : ℕ → Types.AppVolumeSpec → Result Error Model.AppVolume
  convert_volume i v = do
    size ← relabel (bad_size v.name) (parse_volume_size v.size)
    ok (record {
      name = v.name;
      size = size;
      type = if v.type == "" then "disk" else v.type;
      options = v.options;
    })

  -- RefBase: the directory of the app's file, if that is the Kompox app file.
  abbrev doc_path : StringMap → String
  doc_path annotations = elim (lookup annotation_doc_path annotations) [ some p ↦ p | none ↦ "" ]

  abbrev same_file : Option String → Option String → String
  same_file (some a) (some b) = if a == b then append "file://" (append (lib.dir a) "/") else ""
  same_file _ _ = ""

  unfoldable pub ref_base_of : String → StringMap → String
  ref_base_of app_file annotations =
      if not (app_file == "") && not (doc_path annotations == "")
      then same_file (lib.abs (doc_path annotations)) (lib.abs app_file)
      else ""

  abbrev pub id_of : Kind → Types.ObjectMeta → Result Error String
  id_of kind m =
      relabel (bad_id kind m.name)
        (extract_resource_id lib.labels.is_label kind m.name m.annotations)

  unfoldable pub convert_workspace : Types.Workspace → Result Error Model.Workspace
  convert_workspace w = do
    fqn ← id_of workspace w.meta
    ok (record { id = fqn; name = w.meta.name; created_at = 0; updated_at = 0 })

  unfoldable pub convert_provider : Types.Provider → Result Error Model.Provider
  convert_provider p = do
    fqn ← id_of provider p.meta
    ok (record {
      id = fqn;
      name = p.meta.name;
      workspace_id = parent_fqn fqn;
      driver = p.spec.driver;
      settings = p.spec.settings;
      created_at = 0;
      updated_at = 0;
    })

  unfoldable pub convert_cluster : Types.Cluster → Result Error Model.Cluster
  convert_cluster c = do
    fqn ← id_of cluster c.meta
    protection ← convert_protection c.meta.name c.spec.protection
    ok (record {
      id = fqn;
      name = c.meta.name;
      provider_id = parent_fqn fqn;
      existing = c.spec.existing;
      ingress = elim c.spec.ingress [ some i ↦ some (convert_ingress i) | none ↦ none ];
      protection = protection;
      settings = c.spec.settings;
      created_at = 0;
      updated_at = 0;
    })

  unfoldable pub convert_app : String → Types.App → Result Error Model.App
  convert_app app_file a = do
    fqn ← id_of app a.meta
    volumes ← each convert_volume 0 a.spec.volumes
    validate_app_deployment_spec a.meta.name a.spec.deployment
    rules ← relabel (bad_policy app a.meta.name) (convert_policy a.spec.network_policy)
    ok (record {
      id = fqn;
      name = a.meta.name;
      cluster_id = parent_fqn fqn;
      compose = a.spec.compose;
      ingress = convert_app_ingress a.spec.ingress;
      volumes = volumes;
      deployment = copy_deployment a.spec.deployment;
      network_policy = rules;
      resources = a.spec.resources;
      settings = a.spec.settings;
      created_at = 0;
      updated_at = 0;
      ref_base = ref_base_of app_file a.meta.annotations;
    })

  unfoldable pub convert_box : Types.Box → Result Error Model.Box
  convert_box b = do
    fqn ← id_of box b.meta
    rules ← relabel (bad_policy box b.meta.name) (convert_policy b.spec.network_policy)
    ok (record {
      id = fqn;
      name = b.meta.name;
      app_id = parent_fqn fqn;
      component = b.spec.component;
      image = b.spec.image;
      command = b.spec.command;
      args = b.spec.args;
      network_policy = rules;
      created_at = 0;
      updated_at = 0;
    })
