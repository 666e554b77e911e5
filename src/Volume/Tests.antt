-- ===== src/Volume/Tests.antt =====
-- The volume use cases on the world of Volume/Sample.antt, and instances of the theorems.
use kompox.Prelude.{◌⊎◌, ◌≡◌, refl, String, false, none, [], ◌∷◌, ok, err, lookup, inl}
use kompox.Crd.Types.{end}
use kompox.Labels.Sample.{sample, sample_label}
use kompox.Domain.Model.{Cluster, App, AppVolume, find_volume}
use kompox.Naming.{validate_dns1123_label, validate_volume_name, validate_disk_name}
use kompox.Store.{cluster_entity, app_entity, get}
use kompox.Volume.{
  disk_is_assigned, disk_not_found, VolumeDisk, Repos, DiskInput, check_deletable, delete_listed,
  disk_delete, disk_assign, owner, target,
}
use kompox.Volume.{DiskCreateInput, SnapshotInput, disk_create, snapshot_create, snapshot_delete}
use kompox.Volume.Guarded.{
  Guarded, creates, assigns, snapshots, drops, IsDiskName, IsSnapshotName, volume_use_cases-Guarded,
}
use kompox.Volume.Owner.{IsStored}
use kompox.Volume.Bootstrap.{
  BootstrapInput, BootstrapOutput, count_assigned, all_assigned, insert_state, sort_states, skip,
  gather, create_one, create_all, decide, bootstrap_volumes, disk_create_bootstrap,
}
use kompox.Volume.Bootstrap.Assigned.{DistinctVolumes, Assigned}
use kompox.Volume.Bootstrap.Outcome.{Leaves, bootstrap-Assigned, bootstrap-Leaves}
use kompox.Volume.Deleting.{Holds, DistinctDisks, disk_delete-Holds}
use kompox.Volume.Sample.{
  World, new_disk, unassign, assign_first, remove_named, sample_port, sample_driver, sample_keeper,
}

abbrev volume_of : String → AppVolume
volume_of name = record { name = name; size = 1; type = "disk"; options = end }

abbrev test_app : App
test_app = record {
  id = "a1";
  name = "a";
  cluster_id = "c1";
  compose = "";
  ingress = record { cert_resolver = ""; rules = [] };
  volumes = volume_of "db" ∷ volume_of "log" ∷ [];
  deployment = record { pool = ""; pools = []; zone = ""; zones = []; selectors = [] };
  network_policy = [];
  resources = [];
  settings = [];
  created_at = 1;
  updated_at = 1;
  ref_base = "";
}

abbrev test_cluster : Cluster
test_cluster = record {
  id = "c1";
  name = "c";
  provider_id = "p1";
  existing = false;
  ingress = none;
  protection = none;
  settings = [];
  created_at = 1;
  updated_at = 1;
}

abbrev repos : Repos
repos = record {
  clusters = record { items = ("c1", test_cluster) ∷ []; seq = 1 };
  apps = record { items = ("a1", test_app) ∷ []; seq = 1 };
}

abbrev no_disks : World
no_disks v = []

abbrev start : BootstrapInput
start = record { app_id = "a1"; zone = ""; options = none }

abbrev after_start : World
after_start = (disk_create_bootstrap repos sample_port start no_disks).1

abbrev to_delete : DiskInput
to_delete = record { app_id = "a1"; volume_name = "db"; disk_name = "db1" }

abbrev db_disk : VolumeDisk
db_disk = new_disk "db" "" []

all_of : Unit {0}
unfolding validate_dns1123_label validate_volume_name validate_disk_name get lookup sample_label
    find_volume check_deletable delete_listed disk_delete disk_assign owner target count_assigned
    all_assigned insert_state sort_states gather create_one create_all decide bootstrap_volumes
    disk_create_bootstrap unassign assign_first remove_named
all_of = tt

abbrev created : BootstrapOutput
created = record {
  created = new_disk "db" "" [] ∷ new_disk "log" "" [] ∷ [];
  skipped = false;
  reason = "";
}

bootstrap_test : (disk_create_bootstrap repos sample_port start no_disks).0 ≡ ok created
unfolding all_of
bootstrap_test = refl

again_test :
    (disk_create_bootstrap repos sample_port start after_start).0 ≡ ok (skip "already initialized")
unfolding all_of
again_test = refl

delete_tests :
    ((disk_delete sample.is_label repos sample_port to_delete after_start).0
      ≡ err (disk_is_assigned "db1"))
    × ((disk_delete sample.is_label repos sample_port to_delete no_disks).0
        ≡ err (disk_not_found "db1"))
unfolding all_of
delete_tests = (refl, refl)

stored : IsStored repos "a1" test_cluster test_app
unfolding all_of
stored = (refl, refl)

differ : DistinctVolumes test_app.volumes
differ = ((λ h. cc h, tt), (tt, tt))

bootstrap-Assigned_example :
    Assigned sample_port sample_driver test_cluster test_app 1 after_start test_app.volumes
bootstrap-Assigned_example =
    bootstrap-Assigned repos sample_port sample_driver start test_cluster test_app no_disks created
      stored differ bootstrap_test

one_left :
    Assigned sample_port sample_driver test_cluster test_app 0 after_start test_app.volumes → ⊥
unfolding all_of
one_left h = absurd (cc h.0)

bootstrap-Leaves_example :
    Leaves sample_port test_cluster test_app sample_driver
      (disk_create_bootstrap repos sample_port start after_start)
      after_start
bootstrap-Leaves_example =
    bootstrap-Leaves repos sample_port sample_driver start test_cluster test_app after_start stored
      one_left

alone : DistinctDisks (after_start "db")
unfolding all_of
alone = (λ d h. elim h [ ], tt)

there : Holds db_disk (after_start "db")
unfolding all_of
there = inl refl

disk_delete-Holds_example :
    Holds db_disk ((disk_delete sample.is_label repos sample_port to_delete after_start).1 "db")
disk_delete-Holds_example =
    disk_delete-Holds sample.is_label repos sample_port sample_keeper test_cluster test_app
      to_delete db_disk after_start stored refl alone there

abbrev new_db : DiskCreateInput
new_db = record {
  app_id = "a1";
  volume_name = "db";
  disk_name = "";
  zone = "";
  options = none;
  source = "";
}

abbrev of_db : SnapshotInput
of_db = record { app_id = "a1"; volume_name = "db"; snapshot_name = "s1"; source = "" }

volume_use_cases-Guarded_example :
    Guarded sample.is_label repos sample_port "a1" "db"
      ((new_db.disk_name ≡ "") ⊎ IsDiskName sample.is_label repos sample_port new_db.disk_name)
      (creates sample.is_label repos sample_port new_db)
      (disk_create sample.is_label repos sample_port new_db)
      no_disks
    × Guarded sample.is_label repos sample_port "a1" "db"
        (IsDiskName sample.is_label repos sample_port "db1")
        (assigns sample.is_label repos sample_port to_delete)
        (disk_assign sample.is_label repos sample_port to_delete)
        no_disks
    × Guarded sample.is_label repos sample_port "a1" "db"
        ((of_db.snapshot_name ≡ "") ⊎ IsSnapshotName sample.is_label repos sample_port "s1")
        (snapshots sample.is_label repos sample_port of_db)
        (snapshot_create sample.is_label repos sample_port of_db)
        no_disks
    × Guarded sample.is_label repos sample_port "a1" "db"
        (IsSnapshotName sample.is_label repos sample_port "s1")
        (drops sample.is_label repos sample_port of_db)
        (snapshot_delete sample.is_label repos sample_port of_db)
        no_disks
volume_use_cases-Guarded_example =
    volume_use_cases-Guarded sample.is_label repos sample_port new_db to_delete of_db no_disks
