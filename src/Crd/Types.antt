-- ===== src/Crd/Types.antt =====
-- config/crd/ops/v1alpha1/types.go: the kinds of resources and their documents. metav1.TypeMeta and
-- metav1.ObjectMeta are reduced to the fields that the program reads: the name and the annotations.
use kompox.Prelude.{ℕ, String, Bool, true, false, ◌==◌, Option, List}

-- A document's kind is a string; the five that the code knows have constructors.
pub data Kind : Type 0 where
  workspace provider cluster app box : Kind
  other : String → Kind

unfoldable pub kind_eq : Kind → Kind → Bool
kind_eq workspace workspace = true
kind_eq provider provider = true
kind_eq cluster cluster = true
kind_eq app app = true
kind_eq box box = true
kind_eq (other s) (other t) = s == t
kind_eq _ _ = false

abbrev pub StringMap : Type 0
StringMap = List (String × String)

abbrev pub annotation_doc_path : String
annotation_doc_path = "ops.kompox.dev/doc-path"

abbrev pub annotation_doc_index : String
annotation_doc_index = "ops.kompox.dev/doc-index"

-- What a field of type `any` holds after parsing YAML.
mutual
  pub data Value : Type 0 where
    null : Value
    bool : Bool → Value
    num : ℕ → Value
    str : String → Value
    seq : Values → Value
    object : Members → Value

  pub data Values : Type 0 where
    nil : Values
    cons : Value → Values → Values

  pub data Members : Type 0 where
    end : Members
    member : String → Value → Members → Members

pub record ObjectMeta : Type 0 where
  pub name : String
  pub annotations : StringMap

pub record WorkspaceSpec : Type 0 where
  pub settings : StringMap

pub record Workspace : Type 0 where
  pub meta : ObjectMeta
  pub spec : WorkspaceSpec
  pub ops_namespace : String

pub record DefaultsSpec : Type 0 where
  pub kom_path : List String
  pub app_id : String

pub record Defaults : Type 0 where
  pub meta : ObjectMeta
  pub spec : DefaultsSpec

pub record ProviderSpec : Type 0 where
  pub driver : String
  pub settings : StringMap

pub record Provider : Type 0 where
  pub meta : ObjectMeta
  pub spec : ProviderSpec
  pub ops_namespace : String

pub record ClusterProtectionSpec : Type 0 where
  pub provisioning : String
  pub installation : String

pub record ClusterIngressCertificate : Type 0 where
  pub name : String
  pub source : String

pub record ClusterIngressSpec : Type 0 where
  pub namespace : String
  pub controller : String
  pub service_account : String
  pub domain : String
  pub cert_resolver : String
  pub cert_email : String
  pub certificates : List ClusterIngressCertificate

pub record ClusterSpec : Type 0 where
  pub existing : Bool
  pub ingress : Option ClusterIngressSpec
  pub protection : Option ClusterProtectionSpec
  pub settings : StringMap

pub record Cluster : Type 0 where
  pub meta : ObjectMeta
  pub spec : ClusterSpec
  pub ops_namespace : String

pub record AppIngressRule : Type 0 where
  pub name : String
  pub port : ℕ
  pub hosts : List String

pub record AppIngressSpec : Type 0 where
  pub cert_resolver : String
  pub rules : List AppIngressRule

pub record AppVolumeSpec : Type 0 where
  pub name : String
  pub size : Value
  pub type : String
  pub options : Members

pub record AppDeploymentSpec : Type 0 where
  pub pool : String
  pub pools : List String
  pub zone : String
  pub zones : List String
  pub selectors : StringMap

pub record LabelSelectorRequirement : Type 0 where
  pub key : String
  pub operator : String
  pub values : List String

pub record LabelSelector : Type 0 where
  pub match_labels : StringMap
  pub match_expressions : List LabelSelectorRequirement

pub record AppNetworkPolicyPeer : Type 0 where
  pub namespace_selector : Option LabelSelector

pub record AppNetworkPolicyPort : Type 0 where
  pub protocol : String
  pub port : ℕ

pub record AppNetworkPolicyIngressRule : Type 0 where
  pub sources : List AppNetworkPolicyPeer
  pub ports : List AppNetworkPolicyPort

pub record AppNetworkPolicySpec : Type 0 where
  pub ingress_rules : List AppNetworkPolicyIngressRule

pub record AppSpec : Type 0 where
  pub compose : String
  pub ingress : Option AppIngressSpec
  pub volumes : List AppVolumeSpec
  pub deployment : Option AppDeploymentSpec
  pub network_policy : Option AppNetworkPolicySpec
  pub resources : StringMap
  pub settings : StringMap

pub record App : Type 0 where
  pub meta : ObjectMeta
  pub spec : AppSpec
  pub ops_namespace : String

-- spec.ingress of a Box has no fields: `true` if it is given.
pub record BoxSpec : Type 0 where
  pub component : String
  pub image : String
  pub command : List String
  pub args : List String
  pub ingress : Bool
  pub network_policy : Option AppNetworkPolicySpec

pub record Box : Type 0 where
  pub meta : ObjectMeta
  pub spec : BoxSpec

-- The dynamic type of a document's object.
pub data Object : Type 0 where
  of_workspace : Workspace → Object
  of_provider : Provider → Object
  of_cluster : Cluster → Object
  of_app : App → Object
  of_box : Box → Object

-- config/crd/ops/v1alpha1/loader.go: a parsed document.
pub record Document : Type 0 where
  pub kind : Kind
  pub fqn : String
  pub object : Object
  pub path : String
  pub index : ℕ
