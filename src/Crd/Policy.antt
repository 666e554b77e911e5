-- ===== src/Crd/Policy.antt =====
-- config/crd/ops/v1alpha1/sink_tomodels.go: the network policy of an App or a Box, checked and
-- converted. The code is written out twice there, for both kinds; an error names its owner.
mod Tests
pub mod WellFormed
use kompox.Prelude.{
  ℕ, ◌+◌, String, Bool, true, false, not, ◌&&◌, ◌||◌, Option, is_empty, none, some, List, [], ◌∷◌,
  length, leb, ltb, nat_eq, if◌then◌else◌, ◌==◌, Result, ok, err, ◌>>=◌, ◌>>◌, guard, found, each,
}
use kompox.Crd.Types
use kompox.Domain.Model

-- The places are those of the messages: rule, peer or port, expression.
pub data PolicyError : Type 0 where
  empty_rule no_sources : ℕ → PolicyError
  no_selector empty_selector : ℕ → ℕ → PolicyError
  bad_operator unwanted_values no_values : ℕ → ℕ → ℕ → String → PolicyError
  bad_protocol : ℕ → ℕ → String → PolicyError
  bad_port : ℕ → ℕ → ℕ → PolicyError

unfoldable pub convert_expression :
    ℕ → ℕ → ℕ → Types.LabelSelectorRequirement → Result PolicyError Model.LabelSelectorRequirement
convert_expression i j k expr = do
  let op = expr.operator
  guard (op == "In" || op == "NotIn" || op == "Exists" || op == "DoesNotExist")
      (bad_operator i j k op)
  guard (not ((op == "Exists" || op == "DoesNotExist") && not (is_empty expr.values)))
      (unwanted_values i j k op)
  guard (not ((op == "In" || op == "NotIn") && is_empty expr.values)) (no_values i j k op)
  ok (record { key = expr.key; operator = op; values = expr.values })

unfoldable pub convert_selector :
    ℕ → ℕ → Option Types.LabelSelector → Result PolicyError (Option Model.LabelSelector)
convert_selector i j none = err (no_selector i j)
convert_selector i j (some selector) = do
  guard (not (is_empty selector.match_labels && is_empty selector.match_expressions))
      (empty_selector i j)
  expressions ← each (convert_expression i j) 0 selector.match_expressions
  ok (some (record { match_labels = selector.match_labels; match_expressions = expressions }))

unfoldable pub convert_peer :
    ℕ → ℕ → Types.AppNetworkPolicyPeer → Result PolicyError (Option Model.LabelSelector)
convert_peer i j peer = convert_selector i j peer.namespace_selector

-- The protocol, TCP by default.
abbrev pub protocol_of : String → String
protocol_of p = if p == "" then "TCP" else p

unfoldable pub convert_port :
    ℕ → ℕ → Types.AppNetworkPolicyPort → Result PolicyError Model.AppNetworkPolicyPort
convert_port i j p = do
  guard (p.protocol == "" || p.protocol == "TCP" || p.protocol == "UDP" || p.protocol == "SCTP")
      (bad_protocol i j p.protocol)
  guard (not (ltb p.port 1 || ltb 65535 p.port)) (bad_port i j p.port)
  ok (record { protocol = protocol_of p.protocol; port = p.port })

unfoldable pub convert_rule :
    ℕ → Types.AppNetworkPolicyIngressRule → Result PolicyError Model.AppNetworkPolicyIngressRule
convert_rule i rule = do
  guard (not (is_empty rule.sources && is_empty rule.ports)) (empty_rule i)
  guard (not (not (is_empty rule.ports) && is_empty rule.sources)) (no_sources i)
  sources ← each (convert_peer i) 0 rule.sources
  ports ← each (convert_port i) 0 rule.ports
  ok (record { sources = sources; ports = ports })

-- A policy that is missing has no rules.
unfoldable pub convert_policy :
    Option Types.AppNetworkPolicySpec → Result PolicyError (List Model.AppNetworkPolicyIngressRule)
convert_policy none = ok []
convert_policy (some policy) = each convert_rule 0 policy.ingress_rules
