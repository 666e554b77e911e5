-- ===== src/Aks.antt =====
-- adapters/drivers/provider/aks/naming.go: the names of Azure resources.
pub mod Bounds
mod Tests
use Prim.Native.String.{len, slice}
use kompox.Prelude.{
  ℕ, ◌+◌, ◌-◌, String, Bool, true, false, Option, none, some, ltb, leb, Map, lookup, append, ◌==◌,
  Result, ok, err, guard, ◌>>=◌, ◌>>◌, if◌then◌else◌,
}
use kompox.Domain.Model.{Cluster, App}
use kompox.Naming.Hashes.{Digest, Hashes, new_hashes}

pub data Error : Type 0 where
  hash_too_long : ℕ → Error
  cluster_nil app_nil : Error
  volume_name_too_long disk_name_too_long snapshot_name_too_long : String → Error
  -- The name of what, as the message has it.
  in_name : String → Error → Error

abbrev pub max_resource_name : ℕ
max_resource_name = 72

abbrev pub key_resource_group_name : String
key_resource_group_name = "AZURE_RESOURCE_GROUP_NAME"

-- Where the maximum less the hash is below 0 in the code, it is 0 here, and below 1 all the same.
unfoldable pub safe_truncate : String → String → Result Error String
safe_truncate base hash = do
  let max_base_len = max_resource_name - (len hash + 1)
  guard (ltb 0 max_base_len) (hash_too_long (len hash))
  let base' = if ltb max_base_len (len base) then slice base 0 max_base_len else base
  ok (append base' (append "_" hash))

-- The fields of the driver that its names use.
pub record Driver : Type 0 where
  pub workspace_name : String
  pub provider_name : String
  pub resource_prefix : String

abbrev pub named : String → Result Error String → Result Error String
named what (ok s) = ok s
named what (err e) = err (in_name what e)

-- fmt.Sprintf("%s_cls_%s", s, t), and with app, disk and snap.
abbrev pub joined : String → String → String → String
joined s middle t = append s (append middle t)

-- The name that the settings give, or "".
abbrev pub configured : Map String → String
configured settings = elim (lookup key_resource_group_name settings) [ none ↦ "" | some v ↦ v ]

-- h[:6] where h is longer.
abbrev pub first_six : String → String
first_six h = if ltb 6 (len h) then slice h 0 6 else h

module _ (sha : Digest) (d : Driver) where
  abbrev pub hashes_of : String → String → Hashes
  hashes_of cluster app = new_hashes sha d.workspace_name d.provider_name cluster app

  unfoldable pub cluster_resource_group_name : Option Cluster → Result Error String
  cluster_resource_group_name none = err cluster_nil
  cluster_resource_group_name (some c) =
      if configured c.settings == ""
      then named "cluster resource group name"
          (safe_truncate (joined d.resource_prefix "_cls_" c.name) (hashes_of c.name "").cluster)
      else ok (configured c.settings)

  unfoldable pub azure_deployment_name : Option Cluster → Result Error String
  azure_deployment_name c = cluster_resource_group_name c

  unfoldable pub app_resource_group_name : Option App → Result Error String
  app_resource_group_name none = err app_nil
  app_resource_group_name (some a) =
      if configured a.settings == ""
      then named "app resource group name"
          (safe_truncate (joined d.resource_prefix "_app_" a.name) (hashes_of "" a.name).app_id)
      else ok (configured a.settings)

  unfoldable pub app_disk_name : App → String → String → Result Error String
  app_disk_name a vol_name disk_name = do
    guard (leb (len vol_name) 16) (volume_name_too_long vol_name)
    guard (leb (len disk_name) 24) (disk_name_too_long disk_name)
    named "disk name" (
        safe_truncate (joined d.resource_prefix "_disk_" (joined vol_name "_" disk_name))
          (hashes_of "" a.name).app_id)

  unfoldable pub app_snapshot_name : App → String → String → Result Error String
  app_snapshot_name a vol_name snapshot_name = do
    guard (leb (len vol_name) 16) (volume_name_too_long vol_name)
    guard (leb (len snapshot_name) 24) (snapshot_name_too_long snapshot_name)
    named "snapshot name" (
        safe_truncate (joined d.resource_prefix "_snap_" (joined vol_name "_" snapshot_name))
          (hashes_of "" a.name).app_id)

  unfoldable pub app_storage_account_name : Option App → Result Error String
  app_storage_account_name none = err app_nil
  app_storage_account_name (some a) =
      let h = hashes_of "" a.name in
      ok (append "k4x" (append (first_six h.provider) (first_six h.app_id)))
