-- ===== src/Cluster/Tests.antt =====
-- The cluster use cases on a small world, and instances of the theorems.
use kompox.Prelude.{
  ◌≡◌, ◌≢◌, refl, String, Bool, true, false, Option, none, some, List, [], ◌∷◌, ok, err, lookup,
  insert, remove, decimal, arith,
}
use kompox.Domain.Model.{cluster_protected, Error, Level, Cluster}
use kompox.Domain.Protection.{
  check_level, check_provisioning_protection, check_installation_protection,
}
use kompox.Store.{cluster_entity, new_repository, format_id, next_id, get}
use kompox.Store
use kompox.Cluster.{
  ClusterPort, ClusterStatus, State, ForceInput, UpdateInput, new_cluster, provision_cluster,
  deprovision_cluster, install_cluster, uninstall_cluster, provision, deprovision, install,
  uninstall, status, create, update, delete, get_cluster,
}
use kompox.Cluster.Guarded.{
  Command, provisions, deprovisions, installs, uninstalls, run, run_all, Every, IsUndeletable,
  IsFixed, run_all-undeletable,
}
use kompox.Cluster.Fixed.{Outcome, IsInPlace, provision_install-Outcome, run-fixed}
use kompox.Cluster.Editing.{Updates, update-Updates}
use kompox.Cluster.Lifecycle.{Creates, create-Creates, Deletes, delete-Deletes}

-- The world is whether the one cluster is provisioned and installed.
abbrev World : Type 0
World = Bool × Bool

abbrev status_of : World → ClusterStatus
status_of (provisioned, installed) = record {
  existing = false;
  provisioned = provisioned;
  installed = installed;
  ingress_global_ip = "";
  ingress_fqdn = "";
}

abbrev test_port : ClusterPort World
test_port = record {
  status = λ c w. (ok (some (status_of w)), w);
  provision = λ c force w. (ok tt, (true, w.1));
  deprovision = λ c force w. (ok tt, (false, false));
  install = λ c force w. (ok tt, (w.0, true));
  uninstall = λ c force w. (ok tt, (w.0, false));
}

abbrev guarded : Level → Cluster
guarded l = record (new_cluster 5 (record { name = "c"; provider_id = "p" })) {
  id = "c1";
  protection = some (record { provisioning = l; installation = l });
}

abbrev state_of : Level → World → State World
state_of l w = record { clusters = record { items = ("c1", guarded l) ∷ []; seq = 1 }; world = w }

abbrev forced : Option ForceInput
forced = some (record { cluster_id = "c1"; force = true })

all_of : Unit {0}
unfolding provision_cluster deprovision_cluster install_cluster uninstall_cluster provision
    deprovision install uninstall status create update delete get_cluster check_level
    check_provisioning_protection check_installation_protection get Store.create Store.update
    Store.delete next_id format_id lookup insert remove decimal
all_of = tt

port_tests :
    (provision test_port forced (state_of Level.read_only (false, false))
      ≡ (ok tt, state_of Level.read_only (true, false)))
    × (deprovision test_port forced (state_of Level.unset (true, false))
        ≡ (ok tt, state_of Level.unset (false, false)))
    × ((uninstall test_port forced (state_of Level.cannot_delete (true, true))).0
        ≡ err cluster_protected)
unfolding all_of
port_tests = (refl, refl, refl)

stored_c1 :
    (l : Level) (w : World) (id : String) (c : Cluster)
    → get id (state_of l w).clusters ≡ ok c
    → c ≡ guarded l
unfolding all_of
stored_c1 l w id c h = ground arith

abbrev commands : List Command
commands = deprovisions forced ∷ installs forced ∷ uninstalls forced ∷ provisions forced ∷ []

all-IsUndeletable : Every IsUndeletable (state_of Level.cannot_delete (true, false))
unfolding all_of
all-IsUndeletable id c stored =
    rw (stored_c1 Level.cannot_delete (true, false) id c stored) (refl, refl)

run_all-undeletable_example :
    ((run_all test_port commands (state_of Level.cannot_delete (true, false))).clusters
      ≡ (state_of Level.cannot_delete (true, false)).clusters)
    × ((run_all test_port commands (state_of Level.cannot_delete (true, false))).world.0 ≡ true)
run_all-undeletable_example =
    run_all-undeletable test_port (λ w. w.0 ≡ true) (λ c w h. h) (λ c force w h. refl)
      (λ c force w h. h) commands (state_of Level.cannot_delete (true, false)) all-IsUndeletable
      refl

all-IsFixed :
    Every
      (λ c. IsFixed c × IsInPlace test_port (state_of Level.read_only (true, true)) c)
      (state_of Level.read_only (true, true))
unfolding all_of
all-IsFixed id c stored =
    rw (stored_c1 Level.read_only (true, true) id c stored)
      (((refl, refl), refl, refl), (status_of (true, true), refl, refl, refl))

run-fixed_example :
    (e : Error) × (run test_port (provisions forced) (state_of Level.read_only (true, true))
      ≡ (err e, state_of Level.read_only (true, true)))
run-fixed_example =
    run-fixed test_port (provisions forced) (state_of Level.read_only (true, true)) all-IsFixed

found_c1 : get "c1" (state_of Level.read_only (false, true)).clusters ≡ ok (guarded Level.read_only)
unfolding all_of
found_c1 = refl

found_unset : get "c1" (state_of Level.unset (true, true)).clusters ≡ ok (guarded Level.unset)
unfolding all_of
found_unset = refl

c1_named : ◌≢◌ {A = String} "c1" ""
c1_named h = cc h

provision_install-Outcome_example :
    Outcome test_port
      (provision test_port)
      (λ s. s.provisioned)
      (λ l. l.provisioning)
      test_port.provision
      (record { cluster_id = "c1"; force = true })
      (guarded Level.read_only)
      (state_of Level.read_only (false, true))
    × Outcome test_port
        (install test_port)
        (λ s. s.installed)
        (λ l. l.installation)
        test_port.install
        (record { cluster_id = "c1"; force = true })
        (guarded Level.read_only)
        (state_of Level.read_only (false, true))
provision_install-Outcome_example =
    provision_install-Outcome test_port (record { cluster_id = "c1"; force = true })
      (guarded Level.read_only) (state_of Level.read_only (false, true)) c1_named found_c1

abbrev to_d : UpdateInput
to_d = record { cluster_id = "c1"; name = some "d"; provider_id = none }

update-Updates_example :
    Updates 9 to_d
      (guarded Level.read_only)
      (state_of Level.read_only (false, true)).clusters
      (update 9 (some to_d) (state_of Level.read_only (false, true)).clusters)
update-Updates_example =
    update-Updates 9 to_d (guarded Level.read_only)
      (state_of Level.read_only (false, true)).clusters c1_named refl found_c1

create-Creates_example :
    Creates 5
      (record { name = "c"; provider_id = "p" })
      new_repository
      (create 5 7 (some (record { name = "c"; provider_id = "p" })) new_repository)
create-Creates_example =
    create-Creates 5 7 (record { name = "c"; provider_id = "p" }) new_repository

delete-Deletes_example : Deletes "c1" (state_of Level.unset (true, true)).clusters
delete-Deletes_example = delete-Deletes "c1" (state_of Level.unset (true, true)).clusters

-- Deleting the empty ID is not looked up.
empty_test : (delete (some "") (state_of Level.unset (true, true)).clusters).0 ≡ ok tt
unfolding delete
empty_test = refl
