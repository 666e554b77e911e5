-- ===== src/Config/Tests.antt =====
-- A configuration loaded, and instances of the theorems.
use kompox.Prelude.{
  ◌≡◌, ◌↔◌, refl, String, ◌==◌, if◌then◌else◌, none, some, [], ◌∷◌, All, lookup, insert, ok, err,
  false,
}
use kompox.Labels.Sample.{sample, sample_label}
use kompox.Store.{create, get, next_id, list, app_entity}
use kompox.Store.Memory.{new_store}
use kompox.Naming.{validate_dns1123_label, validate_volume_name}
use kompox.Crd.Types.{Value, Members}
use kompox.Config.{
  Root, AppVolume, Library, duplicate_name, panics, is_seen, validate_deployment,
  to_model_cluster_ingress, validate_from, validate_volumes, validate, to_model_volume,
  compose_to_string, config_ref_base, to_models, load_from_config,
}
use kompox.Config.Checks.{IsVolume, DistinctNames, IsDeployment, validate_iff}
use kompox.Config.Loading.{IsLoaded, load_from_config-IsLoaded}

all_of : Unit {0}
unfolding is_seen validate_deployment to_model_cluster_ingress validate_from validate_volumes
    validate to_model_volume compose_to_string config_ref_base to_models load_from_config
    validate_dns1123_label validate_volume_name sample_label lookup insert create get next_id list
all_of = tt

abbrev library : Library
library = record {
  is_label = sample.is_label;
  random_id = λ k. some "1f";
  quantity = λ s. if s == "1Ki" then some 1024 else none;
  marshal = λ v. none;
  abs = λ p. some p;
  dir = λ p. "/srv";
}

abbrev volume : String → String → AppVolume
volume name size = record { name = name; size = size; type = ""; options = Members.end }

abbrev config_of : AppVolume → Root
config_of v = record {
  version = "v1";
  workspace = record { name = "w" };
  provider = record { name = "p"; driver = "k3s"; settings = [] };
  cluster = record {
    name = "c";
    existing = false;
    ingress = record {
      namespace = "";
      controller = "";
      service_account = "";
      domain = "";
      cert_resolver = "";
      cert_email = "";
      certificates = [];
    };
    settings = [];
  };
  app = record {
    name = "a";
    compose = Value.str "file:compose.yml";
    ingress = record { cert_resolver = ""; rules = [] };
    volumes = volume "data" "1Ki" ∷ v ∷ [];
    deployment = record { pool = "main"; pools = []; zone = ""; zones = []; selectors = [] };
    resources = [];
    settings = [];
  };
}

refused_test : validate library (config_of (volume "data" "1Ki")) ≡ err (duplicate_name 1 "data")
unfolding all_of
refused_test = refl

-- Validate does not look at sizes.
panic_test :
    (validate library (config_of (volume "logs" "many")) ≡ ok tt)
    × (to_models library 0 (config_of (volume "logs" "many")) "" ≡ err (panics "logs"))
unfolding all_of
panic_test = (refl, refl)

validate_iff_example : (validate library (config_of (volume "logs" "1Ki")) ≡ ok tt) ↔ (
    All (IsVolume library) (config_of (volume "logs" "1Ki")).app.volumes
    × DistinctNames (config_of (volume "logs" "1Ki")).app.volumes
    × IsDeployment (config_of (volume "logs" "1Ki")).app.deployment)
validate_iff_example = validate_iff library (config_of (volume "logs" "1Ki"))

loads :
    (load_from_config library 0 0
      (config_of (volume "logs" "1Ki"))
      "/srv/kompoxops.yml"
      new_store).0
    ≡ ok tt
unfolding all_of
loads = refl

load_from_config-IsLoaded_example :
    IsLoaded library
      (load_from_config library 0 0
        (config_of (volume "logs" "1Ki"))
        "/srv/kompoxops.yml"
        new_store).1
load_from_config-IsLoaded_example =
    load_from_config-IsLoaded library 0 0 (config_of (volume "logs" "1Ki")) "/srv/kompoxops.yml"
      (λ k h. absurd (cc h)) loads
