-- ===== src/Crd/Policy/Tests.antt =====
-- A policy and one that is refused, and an instance of the theorem.
use kompox.Prelude.{◌≡◌, ◌↔◌, refl, some, [], ◌∷◌, ok, err}
use kompox.Crd.Types.{AppNetworkPolicySpec}
use kompox.Crd.Policy.{no_sources, convert_rule, convert_policy}
use kompox.Crd.Policy.WellFormed.{IsPolicy, policy_of, convert_policy_iff}

abbrev all_ports : AppNetworkPolicySpec
all_ports = record {
  ingress_rules =
      (record { sources = []; ports = (record { protocol = "UDP"; port = 53 }) ∷ [] }) ∷ [];
}

refused_test : convert_policy (some all_ports) ≡ err (no_sources 0)
unfolding convert_policy convert_rule
refused_test = refl

convert_policy_iff_example :
    (convert_policy (some all_ports) ≡ ok (policy_of (some all_ports)))
    ↔ (IsPolicy (some all_ports) × (policy_of (some all_ports) ≡ policy_of (some all_ports)))
convert_policy_iff_example = convert_policy_iff (some all_ports) (policy_of (some all_ports))
