-- ===== src/Config.antt =====
-- config/kompoxopscfg: the single-file configuration kompoxops.yml, its validation and its
-- conversion to models. Numbers are those of ℕ.
pub mod Checks
pub mod Loading
mod Tests
use kompox.Prelude.{
  ℕ, ◌+◌, String, Bool, true, false, not, ◌&&◌, ◌||◌, Option, is_empty, none, some, List, [], ◌∷◌,
  map, Map, append, if◌then◌else◌, ◌==◌, Result, ok, err, ◌>>=◌, ◌>>◌, guard, found, each,
}
use kompox.Domain.Model
use kompox.Crd.Types.{Value, Members}
use kompox.Naming.{NameError, validate_volume_name}
use kompox.Store.{Repository, workspace_entity, provider_entity, cluster_entity, app_entity, create}
use kompox.Store.Memory.{Store}

pub record Workspace : Type 0 where
  pub name : String

pub record Provider : Type 0 where
  pub name : String
  pub driver : String
  pub settings : Map String

pub record ClusterIngress : Type 0 where
  pub namespace : String
  pub controller : String
  pub service_account : String
  pub domain : String
  pub cert_resolver : String
  pub cert_email : String
  pub certificates : List Model.ClusterIngressCertificate

pub record Cluster : Type 0 where
  pub name : String
  pub existing : Bool
  pub ingress : ClusterIngress
  pub settings : Map String

pub record AppVolume : Type 0 where
  pub name : String
  pub size : String
  pub type : String
  pub options : Members

-- The structs of ingress rules and of the deployment have the fields of the models'.
pub record App : Type 0 where
  pub name : String
  pub compose : Value
  pub ingress : Model.AppIngress
  pub volumes : List AppVolume
  pub deployment : Model.AppDeployment
  pub resources : Map String
  pub settings : Map String

pub record Root : Type 0 where
  pub version : String
  pub workspace : Workspace
  pub provider : Provider
  pub cluster : Cluster
  pub app : App

pub data Error : Type 0 where
  bad_name : ℕ → NameError → Error
  duplicate_name bad_type : ℕ → String → Error
  pool_and_pools zone_and_zones selectors_reserved : Error
  no_id no_compose no_marshal no_path : Error
  -- No error: toModelVolumes panics at a size that ParseQuantity refuses.
  panics : String → Error

-- The library functions: IsDNS1123Label, the k-th call of rand.Read, ParseQuantity with Value,
-- yaml.Marshal, and filepath.Abs and Dir.
pub record Library : Type 0 where
  pub is_label : String → Bool
  pub random_id : ℕ → Option String
  pub quantity : String → Option ℕ
  pub marshal : Value → Option String
  pub abs : String → Option String
  pub dir : String → String

-- `_, exists := seen[name]`
unfoldable pub is_seen : String → List String → Bool
is_seen name [] = false
is_seen name (n ∷ seen) = if n == name then true else is_seen name seen

unfoldable pub validate_deployment : App → Result Error (Unit {0})
validate_deployment a = do
  guard (not (not (a.deployment.pool == "") && not (is_empty a.deployment.pools))) pool_and_pools
  guard (not (not (a.deployment.zone == "") && not (is_empty a.deployment.zones))) zone_and_zones
  guard (is_empty a.deployment.selectors) selectors_reserved

abbrev convert_certificate : Model.ClusterIngressCertificate → Model.ClusterIngressCertificate
convert_certificate c = record { name = c.name; source = c.source }

-- Nothing is given if all fields are empty.
unfoldable pub to_model_cluster_ingress : ClusterIngress → Option Model.ClusterIngress
to_model_cluster_ingress i =
    if i.namespace == ""
      && i.controller == ""
      && i.service_account == ""
      && i.domain == ""
      && i.cert_resolver == ""
      && i.cert_email == ""
      && is_empty i.certificates
    then none
    else some (record {
      namespace = i.namespace;
      controller = i.controller;
      service_account = i.service_account;
      domain = i.domain;
      cert_resolver = i.cert_resolver;
      cert_email = i.cert_email;
      certificates = map convert_certificate i.certificates;
    })

abbrev to_model_app_ingress : Model.AppIngress → Model.AppIngress
to_model_app_ingress i = record {
  cert_resolver = i.cert_resolver;
  rules = map (λ r. record { name = r.name; port = r.port; hosts = r.hosts }) i.rules;
}

abbrev wrap_name : ℕ → Result NameError (Unit {0}) → Result Error (Unit {0})
wrap_name i (ok u) = ok u
wrap_name i (err e) = err (bad_name i e)

module _ (lib : Library) where
  -- The loop of validateVolumes, with the names that it has seen.
  unfoldable pub validate_from : ℕ → List String → List AppVolume → Result Error (Unit {0})
  validate_from i seen [] = ok tt
  validate_from i seen (v ∷ volumes) = do
    wrap_name i (validate_volume_name lib.is_label v.name)
    guard (not (is_seen v.name seen)) (duplicate_name i v.name)
    guard (v.type == "" || v.type == "disk" || v.type == "files") (bad_type i v.type)
    validate_from (i + 1) (v.name ∷ seen) volumes

  unfoldable pub validate_volumes : App → Result Error (Unit {0})
  validate_volumes a = validate_from 0 [] a.volumes

  -- Root.Validate, which only validates the app.
  unfoldable pub validate : Root → Result Error (Unit {0})
  validate r = do validate_volumes r.app; validate_deployment r.app

  unfoldable pub to_model_volume : ℕ → AppVolume → Result Error Model.AppVolume
  to_model_volume i v = do
    size ← found (lib.quantity v.size) (panics v.name)
    ok (record {
      name = v.name;
      size = size;
      type = if v.type == "" then "disk" else v.type;
      options = v.options;
    })

  unfoldable pub compose_to_string : Value → Result Error String
  compose_to_string Value.null = err no_compose
  compose_to_string (Value.str s) = ok s
  compose_to_string v = found (lib.marshal v) no_marshal

  unfoldable pub config_ref_base : String → Result Error String
  config_ref_base path =
      if path == ""
      then ok ""
      else (do p ← found (lib.abs path) no_path; ok (append "file://" (append (lib.dir p) "/")))

  unfoldable pub to_models :
      ℕ
      → Root
      → String
      → Result Error (Model.Workspace × Model.Provider × Model.Cluster × Model.App)
  to_models now r path = do
    validate r
    workspace_id ← found (lib.random_id 0) no_id
    provider_id ← found (lib.random_id 1) no_id
    cluster_id ← found (lib.random_id 2) no_id
    app_id ← found (lib.random_id 3) no_id
    compose ← compose_to_string r.app.compose
    ref_base ← config_ref_base path
    volumes ← each to_model_volume 0 r.app.volumes
    ok (
      record { id = workspace_id; name = r.workspace.name; created_at = now; updated_at = now },
      record {
        id = provider_id;
        name = r.provider.name;
        workspace_id = workspace_id;
        driver = r.provider.driver;
        settings = r.provider.settings;
        created_at = now;
        updated_at = now;
      },
      record {
        id = cluster_id;
        name = r.cluster.name;
        provider_id = provider_id;
        existing = r.cluster.existing;
        ingress = to_model_cluster_ingress r.cluster.ingress;
        protection = none;
        settings = r.cluster.settings;
        created_at = now;
        updated_at = now;
      },
      record {
        id = app_id;
        name = r.app.name;
        cluster_id = cluster_id;
        compose = compose;
        ingress = to_model_app_ingress r.app.ingress;
        volumes = volumes;
        deployment = r.app.deployment;
        network_policy = [];
        resources = r.app.resources;
        settings = r.app.settings;
        created_at = now;
        updated_at = now;
        ref_base = ref_base;
      },
    )

  -- adapters/store/inmem/store.go: LoadFromConfig. The Create of these repositories never fails.
  unfoldable pub load_from_config : ℕ → ℕ → Root → String → Store → Result Error (Unit {0}) × Store
  load_from_config now tick r path m = elim (to_models now r path) [
    | err e ↦ (err e, m)
    | ok entities ↦
        let (w, p, c, a) = entities in
        (
          ok tt,
          record m {
            workspaces = (create tick w m.workspaces).1;
            providers = (create tick p m.providers).1;
            clusters = (create tick c m.clusters).1;
            apps = (create tick a m.apps).1;
          },
        )
  ]
