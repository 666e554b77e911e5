-- ===== src/Validations/Tests.antt =====
-- Apps validated, and an instance of the theorem.
use kompox.Prelude.{◌≡◌, refl, ok, some, none, [], ◌∷◌, List, true, false, decimal, map}
use kompox.Domain.Model.{App, Cluster}
use kompox.Crd.Types.{end}
use kompox.Volume.{VolumeDisk}
use kompox.Volume.Sample.{World, new_disk, sample_port}
use kompox.Validations.{
  error, Issue, Driver, severity_eq, severity_weight, has_issues_at_or_above,
  count_issues_by_severity, issue_messages_by_severity, split_issues, is_space, is_blank,
  assigned_disks, bind_volume, bind_volumes, count_ready, validate_app_volumes,
}
use kompox.Validations.Bound.{Validated, validate_app_volumes-Validated}

all_of : Unit {0}
unfolding severity_eq severity_weight has_issues_at_or_above count_issues_by_severity
    issue_messages_by_severity split_issues is_space is_blank assigned_disks bind_volume
    bind_volumes count_ready validate_app_volumes decimal
all_of = tt

abbrev an_app : App
an_app = record {
  id = "a1";
  name = "a";
  cluster_id = "c1";
  compose = "";
  ingress = record { cert_resolver = ""; rules = [] };
  volumes = (record { name = "db"; size = 1; type = "disk"; options = end }) ∷ [];
  deployment = record { pool = ""; pools = []; zone = ""; zones = []; selectors = [] };
  network_policy = [];
  resources = [];
  settings = [];
  created_at = 1;
  updated_at = 1;
  ref_base = "";
}

abbrev a_cluster : Cluster
a_cluster = record {
  id = "c1";
  name = "c";
  provider_id = "p1";
  existing = false;
  ingress = none;
  protection = none;
  settings = [];
  created_at = 1;
  updated_at = 1;
}

abbrev a_driver : Driver World
a_driver = record {
  volume_class = λ c a v w. (ok (record { csi_driver = "disk.csi"; storage_class_name = "" }), w);
}

abbrev disk : VolumeDisk
disk = record (new_disk "db" "db-1" []) { handle = "/disks/1" }

-- One assigned disk beside one that is not.
abbrev one_assigned : World
one_assigned v = new_disk "db" "db-2" (disk ∷ []) ∷ disk ∷ []

abbrev two_assigned : World
two_assigned v = disk ∷ disk ∷ []

bound_test :
    (validate_app_volumes (some sample_port) (some a_driver) a_cluster an_app one_assigned).0 ≡ (
      some (record {
        name = "db";
        volume_disk = disk;
        volume_class = record { csi_driver = "disk.csi"; storage_class_name = "" };
      })
          ∷ [],
      [],
      true,
    )
unfolding all_of
bound_test = refl

abbrev issues_of : World → List Issue
issues_of w = (validate_app_volumes (some sample_port) (some a_driver) a_cluster an_app w).0.1

issue_tests :
    (map (λ i. i.code) (issues_of two_assigned) ≡ "volume_assignment_invalid" ∷ [])
    × (has_issues_at_or_above (issues_of two_assigned) error ≡ true)
    × (has_issues_at_or_above (issues_of (λ v. [])) error ≡ false)
    × (count_issues_by_severity (issues_of (λ v. [])) ≡ (0, 1, 0))
unfolding all_of
issue_tests = (refl, refl, refl, refl)

validate_app_volumes-Validated_example :
    Validated
      (some sample_port)
      (some a_driver)
      a_cluster
      an_app
      (validate_app_volumes (some sample_port) (some a_driver) a_cluster an_app one_assigned).0
validate_app_volumes-Validated_example =
    validate_app_volumes-Validated (some sample_port) (some a_driver) a_cluster an_app one_assigned
