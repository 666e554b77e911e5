-- ===== src/Domain/Tests.antt =====
-- Protection of a cluster at work, and an instance of the theorem.
use kompox.Prelude.{◌≡◌, refl, [], false, none, some, ok, err}
use kompox.Domain.Model.{cluster_protected, Level, Cluster}
use kompox.Domain.Protection.{
  Operation, check_level, check_provisioning_protection, check_installation_protection,
}
use kompox.Domain.Protection.Enforcing.{Enforces, protection-Enforces}

abbrev half_guarded : Cluster
half_guarded = record {
  id = "c1";
  name = "c";
  provider_id = "p";
  existing = false;
  ingress = none;
  protection = some (record { provisioning = Level.cannot_delete; installation = Level.unset });
  settings = [];
  created_at = 1;
  updated_at = 1;
}

protection_tests :
    (check_provisioning_protection half_guarded Operation.delete ≡ err cluster_protected)
    × (check_provisioning_protection half_guarded Operation.update ≡ ok tt)
    × (check_installation_protection half_guarded Operation.delete ≡ ok tt)
unfolding check_provisioning_protection check_installation_protection check_level
protection_tests = (refl, refl, refl)

protection-Enforces_example :
    Enforces (λ p. p.provisioning) check_provisioning_protection half_guarded Operation.delete
    × Enforces (λ p. p.installation) check_installation_protection half_guarded Operation.delete
protection-Enforces_example = protection-Enforces half_guarded Operation.delete
