-- ===== src/Crd/Policy/WellFormed.antt =====
-- Which network policies are converted, and to what.
use kompox.Prelude.{
  ℕ, ◌≤◌, ◌≡◌, ◌≢◌, ◌↔◌, ◌⊎◌, refl, sym, ap, ◌∙◌, inl, inr, String, Bool, true, false, not, ◌&&◌,
  ◌||◌, Option, none, some, List, [], ◌∷◌, map, ◌==◌, eq_iff, All, ok, each, each_iff, guard_iff,
  bind-eq-ok, ok_inj, arith, is_empty, is_empty_iff, is_empty_ne, if◌then◌else◌,
}
use kompox.Crd.Types
use kompox.Domain.Model
use kompox.Crd.Policy.{
  convert_expression, convert_selector, convert_peer, convert_port, convert_rule, convert_policy,
}

-- In and NotIn have values, Exists and DoesNotExist have none.
abbrev pub IsExpression : Types.LabelSelectorRequirement → Type 0
IsExpression e =
    (((e.operator ≡ "In") ⊎ (e.operator ≡ "NotIn")) × (e.values ≢ []))
    ⊎ (((e.operator ≡ "Exists") ⊎ (e.operator ≡ "DoesNotExist")) × (e.values ≡ []))

abbrev pub expression_of : Types.LabelSelectorRequirement → Model.LabelSelectorRequirement
expression_of e = record { key = e.key; operator = e.operator; values = e.values }

abbrev IsProtocol : String → Type 0
IsProtocol s = (s ≡ "") ⊎ (s ≡ "TCP") ⊎ (s ≡ "UDP") ⊎ (s ≡ "SCTP")

abbrev IsPort : Types.AppNetworkPolicyPort → Type 0
IsPort p = IsProtocol p.protocol × (1 ≤ p.port) × (p.port ≤ 65535)

abbrev port_of : Types.AppNetworkPolicyPort → Model.AppNetworkPolicyPort
port_of p = record { protocol = if p.protocol == "" then "TCP" else p.protocol; port = p.port }

-- The three tests on an expression, with `b` for no values.
abbrev fits : String → Bool → Bool
fits op b =
    (op == "In" || op == "NotIn" || op == "Exists" || op == "DoesNotExist")
    && not ((op == "Exists" || op == "DoesNotExist") && not b)
    && not ((op == "In" || op == "NotIn") && b)

fits_sound :
    (op : String) (b : Bool)
    → fits op b ≡ true
    → (((op ≡ "In") ⊎ (op ≡ "NotIn")) × (b ≡ false))
      ⊎ (((op ≡ "Exists") ⊎ (op ≡ "DoesNotExist")) × (b ≡ true))
fits_sound op b h =
    ground (arith, eq_iff op "In", eq_iff op "NotIn", eq_iff op "Exists", eq_iff op "DoesNotExist")

fits_complete :
    (op : String) (b : Bool)
    → ((((op ≡ "In") ⊎ (op ≡ "NotIn")) × (b ≡ false))
        ⊎ (((op ≡ "Exists") ⊎ (op ≡ "DoesNotExist")) × (b ≡ true)))
    → fits op b ≡ true
fits_complete op b (inl (inl e, f)) = rw (e, f) refl
fits_complete op b (inl (inr e, f)) = rw (e, f) refl
fits_complete op b (inr (inl e, f)) = rw (e, f) refl
fits_complete op b (inr (inr e, f)) = rw (e, f) refl

expression_fits :
    (i j k : ℕ) (e : Types.LabelSelectorRequirement) (y : Model.LabelSelectorRequirement)
    → (convert_expression i j k e ≡ ok y)
      ↔ ((fits e.operator (is_empty e.values) ≡ true) × (y ≡ expression_of e))
unfolding convert_expression
expression_fits i j k e y = (λ h. ground arith, λ h. ground arith)

IsExpression-iff :
    (i j k : ℕ) (e : Types.LabelSelectorRequirement) (y : Model.LabelSelectorRequirement)
    → (convert_expression i j k e ≡ ok y) ↔ (IsExpression e × (y ≡ expression_of e))
IsExpression-iff i j k e y =
    let empty = is_empty_iff e.values in
    let fits = expression_fits i j k e y in
    (
      λ h.
          let (f, same) = fits.0 h in
          (
            elim (fits_sound e.operator (is_empty e.values) f) [
              | inl (op, b) ↦ inl (op, λ bare. absurd (cc (sym (empty.1 bare) ∙ b)))
              | inr (op, b) ↦ inr (op, empty.0 b)
            ],
            same,
          ),
      λ (p, same). fits.1 (
        fits_complete e.operator (is_empty e.values) (elim p [
          | inl (op, filled) ↦ inl (op, is_empty_ne e.values filled)
          | inr (op, bare) ↦ inr (op, empty.1 bare)
        ]),
        same,
      ),
    )

IsPort-iff :
    (i j : ℕ) (p : Types.AppNetworkPolicyPort) (y : Model.AppNetworkPolicyPort)
    → (convert_port i j p ≡ ok y) ↔ (IsPort p × (y ≡ port_of p))
unfolding convert_port
IsPort-iff i j p y = (
  λ h. ground (
    arith,
    eq_iff p.protocol "",
    eq_iff p.protocol "TCP",
    eq_iff p.protocol "UDP",
    eq_iff p.protocol "SCTP",
  ),
  λ h. ground (
    arith,
    eq_iff p.protocol "",
    eq_iff p.protocol "TCP",
    eq_iff p.protocol "UDP",
    eq_iff p.protocol "SCTP",
  ),
)

-- A selector is given, and selects by something.
abbrev IsSelector : Option Types.LabelSelector → Type 0
IsSelector none = ⊥
IsSelector (some s) =
    ((s.match_labels ≢ []) ⊎ (s.match_expressions ≢ [])) × All IsExpression s.match_expressions

abbrev selector_of : Option Types.LabelSelector → Option Model.LabelSelector
selector_of none = none
selector_of (some s) = some (record {
  match_labels = s.match_labels;
  match_expressions = map expression_of s.match_expressions;
})

-- Not both of two lists are empty.
either_iff :
    {A B : Type 0} (xs : List A) (ys : List B)
    → (not (is_empty xs && is_empty ys) ≡ true) ↔ ((xs ≢ []) ⊎ (ys ≢ []))
either_iff (x ∷ xs) ys = (λ h. inl (cc), λ h. refl)
either_iff [] (y ∷ ys) = (λ h. inr (cc), λ h. refl)
either_iff [] [] = (λ h. absurd (cc h), elim [ inl h ↦ absurd (h refl) | inr h ↦ absurd (h refl) ])

IsSelector-iff :
    (i j : ℕ) (s : Option Types.LabelSelector) (y : Option Model.LabelSelector)
    → (convert_selector i j s ≡ ok y) ↔ (IsSelector s × (y ≡ selector_of s))
unfolding convert_selector
IsSelector-iff i j none y = (λ h. absurd (cc h), λ (h, _). absurd h)
IsSelector-iff i j (some s) y =
    let guarded = guard_iff (not (is_empty s.match_labels && is_empty s.match_expressions)) _ _ y in
    let filled = either_iff s.match_labels s.match_expressions in
    let loop =
      each_iff (convert_expression i j) IsExpression expression_of (λ k. IsExpression-iff i j k) 0
        s.match_expressions in
    (
      λ h.
          let (test, h') = guarded.0 h in
          let (es, converted, e) =
            bind-eq-ok (each (convert_expression i j) 0 s.match_expressions) _ y h' in
          let (good, same) = (loop es).0 converted in
          (
            (filled.0 test, good),
            sym (ok_inj e)
                ∙ ap (λ x. some (record { match_labels = s.match_labels; match_expressions = x }))
                    same,
          ),
      λ ((names, good), same).
          guarded.1 (filled.1 names, rw ((loop _).1 (good, refl)) (ap ok (sym same))),
    )

abbrev IsPeer : Types.AppNetworkPolicyPeer → Type 0
IsPeer p = IsSelector p.namespace_selector

-- A rule allows some sources, and its parts are well formed.
abbrev pub IsRule : Types.AppNetworkPolicyIngressRule → Type 0
IsRule r = (r.sources ≢ []) × All IsPeer r.sources × All IsPort r.ports

abbrev pub rule_of : Types.AppNetworkPolicyIngressRule → Model.AppNetworkPolicyIngressRule
rule_of r = record {
  sources = map (λ p. selector_of p.namespace_selector) r.sources;
  ports = map port_of r.ports;
}

sources_iff :
    {A B : Type 0} (xs : List A) (ys : List B)
    → ((not (is_empty xs && is_empty ys) ≡ true) × (not (not (is_empty ys) && is_empty xs) ≡ true))
      ↔ (xs ≢ [])
sources_iff (x ∷ xs) [] = (λ h. cc, λ h. (refl, refl))
sources_iff (x ∷ xs) (y ∷ ys) = (λ h. cc, λ h. (refl, refl))
sources_iff [] (y ∷ ys) = (λ (_, h). absurd (cc h), λ h. absurd (h refl))
sources_iff [] [] = (λ (h, _). absurd (cc h), λ h. absurd (h refl))

IsRule-iff :
    (i : ℕ) (r : Types.AppNetworkPolicyIngressRule) (y : Model.AppNetworkPolicyIngressRule)
    → (convert_rule i r ≡ ok y) ↔ (IsRule r × (y ≡ rule_of r))
unfolding convert_rule convert_peer
IsRule-iff i r y =
    let first = guard_iff (not (is_empty r.sources && is_empty r.ports)) _ _ y in
    let second = guard_iff (not (not (is_empty r.ports) && is_empty r.sources)) _ _ y in
    let filled = sources_iff r.sources r.ports in
    let peers =
      each_iff (convert_peer i) IsPeer (λ p. selector_of p.namespace_selector)
        (λ j p. IsSelector-iff i j p.namespace_selector) 0 r.sources in
    let ports = each_iff (convert_port i) IsPort port_of (IsPort-iff i) 0 r.ports in
    (
      λ h.
          let (t, h') = first.0 h in
          let (u, h'') = second.0 h' in
          let (ss, s, rest) = bind-eq-ok (each (convert_peer i) 0 r.sources) _ y h'' in
          let (ps, p, e) = bind-eq-ok (each (convert_port i) 0 r.ports) _ y rest in
          let (good, same) = (peers ss).0 s in
          let (fine, equal) = (ports ps).0 p in
          ((filled.0 (t, u), good, fine), sym (ok_inj e) ∙ cc (same, equal)),
      λ ((h, good, fine), same).
          let (t, u) = filled.1 h in
          first.1 (
            t,
            second.1 (
              u,
              rw ((peers _).1 (good, refl)) (rw ((ports _).1 (fine, refl)) (ap ok (sym same))),
            ),
          ),
    )

abbrev pub IsPolicy : Option Types.AppNetworkPolicySpec → Type 0
IsPolicy none = Unit
IsPolicy (some p) = All IsRule p.ingress_rules

abbrev pub policy_of : Option Types.AppNetworkPolicySpec → List Model.AppNetworkPolicyIngressRule
policy_of none = []
policy_of (some p) = map rule_of p.ingress_rules

-- A network policy is converted exactly if each of its rules names a source, each source has a
-- selector that is not empty and whose expressions have values where their operator (one of the
-- four) takes them and none where it does not, and each port is one from 1 to 65535 with a protocol
-- that is TCP, UDP, SCTP or left out. The result has the same rules, with TCP where it was left out.
pub convert_policy_iff :
    (p : Option Types.AppNetworkPolicySpec) (out : List Model.AppNetworkPolicyIngressRule)
    → (convert_policy p ≡ ok out) ↔ (IsPolicy p × (out ≡ policy_of p))
unfolding convert_policy
convert_policy_iff none out = (λ h. (tt, sym (ok_inj h)), λ (_, e). ap ok (sym e))
convert_policy_iff (some p) out =
    each_iff convert_rule IsRule rule_of IsRule-iff 0 p.ingress_rules out
