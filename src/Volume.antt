-- ===== src/Volume.antt =====
-- usecase/volume: the use cases of disks and snapshots, over the repositories and a port to the
-- cloud.
pub mod Owner
pub mod Guarded
pub mod Bootstrap
pub mod Deleting
pub mod Sample
mod Tests
use kompox.Prelude.{
  ℕ, String, Bool, true, false, not, ◌&&◌, ◌||◌, Option, none, some, List, [], ◌∷◌, ◌==◌, Result,
  ok, err, if◌then◌else◌,
}
use kompox.Prelude.Actions.{Action, ◌>>=◌, ◌>>◌, pure, lift, require, wrapped}
use kompox.Crd.Types.{Members}
use kompox.Domain.Model
use kompox.Domain.Model.{Cluster, App, AppVolume, find_volume}
use kompox.Naming.{NameError, validate_volume_name, validate_disk_name, validate_snapshot_name}
use kompox.Store.{Repository, cluster_entity, app_entity, get}

-- How many disks of a volume are assigned, and how many it has.
pub record VolState : Type 0 where
  pub name : String
  pub assigned : ℕ
  pub total : ℕ

pub data Error : Type 0 where
  missing_parameters : Error
  bad_volume_name bad_disk_name bad_snapshot_name : NameError → Error
  -- An error of a repository or of the port, as it is.
  model : Model.Error → Error
  volume_not_defined : Model.Error → Error
  disk_is_assigned disk_not_found concurrent_assignment : String → Error
  lookup_failed recheck_failed create_failed assign_failed : String → Error → Error
  invalid_state : List VolState → Error

pub record VolumeDisk : Type 0 where
  pub name : String
  pub volume_name : String
  pub assigned : Bool
  pub size : ℕ
  pub zone : String
  pub options : Members
  pub handle : String
  pub created_at : ℕ
  pub updated_at : ℕ

pub record VolumeSnapshot : Type 0 where
  pub name : String
  pub volume_name : String
  pub size : ℕ
  pub handle : String
  pub created_at : ℕ
  pub updated_at : ℕ

-- "" and nil are what the code leaves out.
pub record CreateOptions : Type 0 where
  pub zone : String
  pub options : Option Members

-- VolumePort of domain/model/volume_port.go, without the options that no use case passes. The
-- texts of DiskCreate are the volume's, the disk's and the source; a disk that it returns is no
-- nil pointer.
pub record VolumePort (W : Type 0) : Type 0 where
  pub disk_list : Cluster → App → String → Action W Model.Error (List VolumeDisk)
  pub disk_create :
      Cluster → App → String → String → String → CreateOptions → Action W Model.Error VolumeDisk
  pub disk_delete : Cluster → App → String → String → Action W Model.Error (Unit {0})
  pub disk_assign : Cluster → App → String → String → Action W Model.Error (Unit {0})
  pub snapshot_list : Cluster → App → String → Action W Model.Error (List VolumeSnapshot)
  pub snapshot_create :
      Cluster → App → String → String → String → Action W Model.Error VolumeSnapshot
  pub snapshot_delete : Cluster → App → String → String → Action W Model.Error (Unit {0})

pub record Repos : Type 0 where
  pub clusters : Repository Cluster
  pub apps : Repository App

pub record DiskInput : Type 0 where
  pub app_id : String
  pub volume_name : String
  pub disk_name : String

pub record DiskCreateInput : Type 0 where
  pub app_id : String
  pub volume_name : String
  pub disk_name : String
  pub zone : String
  pub options : Option Members
  pub source : String

pub record SnapshotInput : Type 0 where
  pub app_id : String
  pub volume_name : String
  pub snapshot_name : String
  pub source : String

abbrev pub rewrap : {E F A : Type 0} → (E → F) → Result E A → Result F A
rewrap f (ok a) = ok a
rewrap f (err e) = err (f e)

-- A name that is checked only if it is given.
abbrev pub optional : {E : Type 0} → String → Result E (Unit {0}) → Result E (Unit {0})
optional name check = if name == "" then ok tt else check

module _ {W : Type 0} (r : Repos) where
  -- The app, its cluster and the volume's definition.
  unfoldable pub owner : String → Action W Error (Cluster × App)
  owner app_id = do
    app ← lift (rewrap model (get app_id r.apps))
    cluster ← lift (rewrap model (get app.cluster_id r.clusters))
    pure (cluster, app)

  unfoldable pub target : String → String → Action W Error (Cluster × App)
  target app_id volume_name = do
    (cluster, app) ← owner app_id
    v ← lift (rewrap volume_not_defined (find_volume app.volumes volume_name))
    pure (cluster, app)

-- The loop of DiskDelete over the listing: the first disk of the name decides.
unfoldable pub check_deletable : String → List VolumeDisk → Result Error (Unit {0})
check_deletable name [] = err (disk_not_found name)
check_deletable name (d ∷ disks) =
    let rest = check_deletable name disks in
    if d.name == name then (if d.assigned then err (disk_is_assigned name) else ok tt) else rest

abbrev pub given : String → Bool
given s = not (s == "")

module _ {W : Type 0} (is_label : String → Bool) (r : Repos) (p : VolumePort W) where
  -- The guards that all but the bootstrap begin with.
  abbrev pub check_names : Bool → String → Result Error (Unit {0}) → Action W Error (Unit {0})
  check_names complete volume_name check_other = do
    require complete missing_parameters
    lift (rewrap bad_volume_name (validate_volume_name is_label volume_name))
    lift check_other

  unfoldable pub disk_list : DiskInput → Action W Error (List VolumeDisk)
  disk_list i = do
    check_names (given i.app_id && given i.volume_name) i.volume_name (ok tt)
    (cluster, app) ← target r i.app_id i.volume_name
    wrapped model (p.disk_list cluster app i.volume_name)

  unfoldable pub disk_create : DiskCreateInput → Action W Error VolumeDisk
  disk_create i = do
    check_names (given i.app_id && given i.volume_name) i.volume_name
        (optional i.disk_name (rewrap bad_disk_name (validate_disk_name is_label i.disk_name)))
    (cluster, app) ← target r i.app_id i.volume_name
    wrapped model (
        p.disk_create cluster app i.volume_name i.disk_name i.source
          (record { zone = i.zone; options = i.options }))

  unfoldable pub disk_assign : DiskInput → Action W Error (Unit {0})
  disk_assign i = do
    check_names (given i.app_id && given i.volume_name && given i.disk_name) i.volume_name
        (rewrap bad_disk_name (validate_disk_name is_label i.disk_name))
    (cluster, app) ← target r i.app_id i.volume_name
    wrapped model (p.disk_assign cluster app i.volume_name i.disk_name)

  unfoldable pub delete_listed : Cluster × App → DiskInput → Action W Error (Unit {0})
  delete_listed (cluster, app) i = do
    items ← wrapped model (p.disk_list cluster app i.volume_name)
    lift (check_deletable i.disk_name items)
    wrapped model (p.disk_delete cluster app i.volume_name i.disk_name)

  unfoldable pub disk_delete : DiskInput → Action W Error (Unit {0})
  disk_delete i = do
    check_names (given i.app_id && given i.volume_name && given i.disk_name) i.volume_name
        (rewrap bad_disk_name (validate_disk_name is_label i.disk_name))
    at ← target r i.app_id i.volume_name
    delete_listed at i

  unfoldable pub snapshot_list : SnapshotInput → Action W Error (List VolumeSnapshot)
  snapshot_list i = do
    check_names (given i.app_id && given i.volume_name) i.volume_name (ok tt)
    (cluster, app) ← target r i.app_id i.volume_name
    wrapped model (p.snapshot_list cluster app i.volume_name)

  unfoldable pub snapshot_create : SnapshotInput → Action W Error VolumeSnapshot
  snapshot_create i = do
    check_names (given i.app_id && given i.volume_name) i.volume_name (
        optional i.snapshot_name
          (rewrap bad_snapshot_name (validate_snapshot_name is_label i.snapshot_name)))
    (cluster, app) ← target r i.app_id i.volume_name
    wrapped model (p.snapshot_create cluster app i.volume_name i.snapshot_name i.source)

  unfoldable pub snapshot_delete : SnapshotInput → Action W Error (Unit {0})
  snapshot_delete i = do
    check_names (given i.app_id && given i.volume_name && given i.snapshot_name) i.volume_name
        (rewrap bad_snapshot_name (validate_snapshot_name is_label i.snapshot_name))
    (cluster, app) ← target r i.app_id i.volume_name
    wrapped model (p.snapshot_delete cluster app i.volume_name i.snapshot_name)
