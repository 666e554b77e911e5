-- ===== src/Domain/Model.antt =====
-- domain/model: the entities and their errors. A time is a number of nanoseconds.
use kompox.Crd.Types.{Members}
use kompox.Prelude.{
  ℕ, String, Bool, not, Option, List, [], ◌∷◌, ◌==◌, Map, Result, ok, err, if◌then◌else◌,
}

-- domain/model/errors.go, and the other errors of the use cases.
pub data Error : Type 0 where
  workspace_not_found workspace_invalid provider_not_found provider_invalid : Error
  cluster_not_found cluster_invalid app_not_found app_invalid box_not_found box_invalid : Error
  cluster_protected not_supported : Error
  -- An error of a port, which the code passes on.
  port : String → Error
  volume_not_found : String → Error
  -- No error: the code reads a nil pointer here, and panics.
  nil_dereference : Error

pub record Workspace : Type 0 where
  pub id : String
  pub name : String
  pub created_at : ℕ
  pub updated_at : ℕ

pub record Provider : Type 0 where
  pub id : String
  pub name : String
  pub workspace_id : String
  pub driver : String
  pub settings : Map String
  pub created_at : ℕ
  pub updated_at : ℕ

-- "none", "", "cannotDelete", "readOnly", or any other text.
pub data Level : Type 0 where
  unset none cannot_delete read_only : Level
  other : String → Level

pub record ClusterProtection : Type 0 where
  pub provisioning : Level
  pub installation : Level

pub record ClusterIngressCertificate : Type 0 where
  pub name : String
  pub source : String

pub record ClusterIngress : Type 0 where
  pub namespace : String
  pub controller : String
  pub service_account : String
  pub domain : String
  pub cert_resolver : String
  pub cert_email : String
  pub certificates : List ClusterIngressCertificate

pub record Cluster : Type 0 where
  pub id : String
  pub name : String
  pub provider_id : String
  pub existing : Bool
  pub ingress : Option ClusterIngress
  pub protection : Option ClusterProtection
  pub settings : Map String
  pub created_at : ℕ
  pub updated_at : ℕ

pub record AppIngressRule : Type 0 where
  pub name : String
  pub port : ℕ
  pub hosts : List String

pub record AppIngress : Type 0 where
  pub cert_resolver : String
  pub rules : List AppIngressRule

pub record AppVolume : Type 0 where
  pub name : String
  pub size : ℕ
  pub type : String
  pub options : Members

pub record AppDeployment : Type 0 where
  pub pool : String
  pub pools : List String
  pub zone : String
  pub zones : List String
  pub selectors : Map String

pub record LabelSelectorRequirement : Type 0 where
  pub key : String
  pub operator : String
  pub values : List String

pub record LabelSelector : Type 0 where
  pub match_labels : Map String
  pub match_expressions : List LabelSelectorRequirement

pub record AppNetworkPolicyPort : Type 0 where
  pub protocol : String
  pub port : ℕ

pub record AppNetworkPolicyIngressRule : Type 0 where
  pub sources : List (Option LabelSelector)
  pub ports : List AppNetworkPolicyPort

pub record App : Type 0 where
  pub id : String
  pub name : String
  pub cluster_id : String
  pub compose : String
  pub ingress : AppIngress
  pub volumes : List AppVolume
  pub deployment : AppDeployment
  pub network_policy : List AppNetworkPolicyIngressRule
  pub resources : Map String
  pub settings : Map String
  pub created_at : ℕ
  pub updated_at : ℕ
  pub ref_base : String

-- The loop of App.FindVolume.
unfoldable pub find_volume : List AppVolume → String → Result Error AppVolume
find_volume [] name = err (volume_not_found name)
find_volume (v ∷ volumes) name = if v.name == name then ok v else find_volume volumes name

pub record Box : Type 0 where
  pub id : String
  pub name : String
  pub app_id : String
  pub component : String
  pub image : String
  pub command : List String
  pub args : List String
  pub network_policy : List AppNetworkPolicyIngressRule
  pub created_at : ℕ
  pub updated_at : ℕ

unfoldable pub component_name : Box → String
component_name b = if not (b.component == "") then b.component else b.name

unfoldable pub is_standalone : Box → Bool
is_standalone b = not (b.image == "")

unfoldable pub is_compose : Box → Bool
is_compose b = b.image == ""
