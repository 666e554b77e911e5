-- ===== src/Crd/Convert/Accepts.antt =====
-- Which sinks ToModels converts.
use kompox.Prelude.{relabel, is_empty, is_empty_iff}
use kompox.Prelude.{
  ℕ, ◌≡◌, ◌↔◌, ◌⊎◌, refl, inl, inr, String, true, not, ◌&&◌, Option, none, some, List, [], ◌∷◌, All,
  ok, err, Result, ◌==◌, eq_iff, guard, ◌>>=◌, each, Succeeds, bind-Succeeds_iff, each-Succeeds_iff,
  guard-Succeeds_iff, guard-Succeeds, arith,
}
use kompox.Domain.Model
use kompox.Crd.Types
use kompox.Crd.Types.{Kind, ObjectMeta, workspace, provider, cluster, app, box}
use kompox.Crd.Policy
use kompox.Crd.Policy.{convert_policy}
use kompox.Crd.Policy.WellFormed.{IsPolicy, policy_of, convert_policy_iff}
use kompox.Crd.Convert.{
  Error, Library, level_of, is_valid_protection_level, convert_level, convert_protection,
  validate_app_deployment_spec, parse_volume_size, convert_volume, convert_workspace,
  convert_provider, convert_cluster, convert_app, convert_box, id_of,
}

abbrev pub IsLevel : String → Type 0
IsLevel s = (s ≡ "") ⊎ (s ≡ "none") ⊎ (s ≡ "cannotDelete") ⊎ (s ≡ "readOnly")

IsLevel-iff : (bad : String → Error) (s : String) → Succeeds (convert_level bad s) ↔ IsLevel s
unfolding convert_level level_of is_valid_protection_level
IsLevel-iff bad s = (
  λ (l, h).
      ground (arith, eq_iff s "", eq_iff s "none", eq_iff s "cannotDelete", eq_iff s "readOnly"),
  λ h. elim h [
    | inl e ↦ rw e (Model.Level.none, refl)
    | inr (inl e) ↦ rw e (Model.Level.none, refl)
    | inr (inr (inl e)) ↦ rw e (Model.Level.cannot_delete, refl)
    | inr (inr (inr e)) ↦ rw e (Model.Level.read_only, refl)
  ],
)

abbrev pub IsProtection : Option Types.ClusterProtectionSpec → Type 0
IsProtection none = Unit
IsProtection (some p) = IsLevel p.provisioning × IsLevel p.installation

IsProtection-iff :
    (name : String) (p : Option Types.ClusterProtectionSpec)
    → Succeeds (convert_protection name p) ↔ IsProtection p
unfolding convert_protection
IsProtection-iff name none = (λ h. tt, λ h. (none, refl))
IsProtection-iff name (some p) =
    let first = IsLevel-iff (λ s. Error.bad_provisioning s name) p.provisioning in
    let second = IsLevel-iff (λ s. Error.bad_installation s name) p.installation in
    let block =
      bind-Succeeds_iff (IsLevel p.installation)
        (convert_level (λ s. Error.bad_provisioning s name) p.provisioning) _
        (λ a.
          let rest =
            bind-Succeeds_iff (Unit {0})
              (convert_level (λ s. Error.bad_installation s name) p.installation)
              (λ b. ok (some (record { provisioning = a; installation = b })))
              (λ b. (λ h. tt, λ h. (_, refl))) in
          (λ h. second.0 (rest.0 h).0, λ h. rest.1 (second.1 h, tt))) in
    (λ h. let (a, b) = block.0 h in (first.0 a, b), λ (a, b). block.1 (first.1 a, b))

abbrev pub IsDeployment : Option Types.AppDeploymentSpec → Type 0
IsDeployment none = Unit
IsDeployment (some d) =
    ((d.pool ≡ "") ⊎ (d.pools ≡ [])) × ((d.zone ≡ "") ⊎ (d.zones ≡ [])) × (d.selectors ≡ [])

one_iff :
    {A : Type 0} (s : String) (xs : List A)
    → (not (not (s == "") && not (is_empty xs)) ≡ true) ↔ ((s ≡ "") ⊎ (xs ≡ []))
one_iff s [] = (λ h. inr refl, λ h. ground arith)
one_iff s (x ∷ xs) =
    (λ h. inl ((eq_iff s "").0 (ground arith)), elim [ inl h ↦ rw h refl | inr h ↦ absurd (cc h) ])

IsDeployment-iff :
    (name : String) (d : Option Types.AppDeploymentSpec)
    → Succeeds (validate_app_deployment_spec name d) ↔ IsDeployment d
unfolding validate_app_deployment_spec
IsDeployment-iff name none = (λ h. tt, λ h. (tt, refl))
IsDeployment-iff name (some d) =
    let last = guard-Succeeds (is_empty d.selectors) (Error.selectors_reserved name) in
    let second =
      guard-Succeeds_iff (not (not (d.zone == "") && not (is_empty d.zones)))
        (Error.zone_and_zones name)
        (guard (is_empty d.selectors) (Error.selectors_reserved name)) in
    let first =
      guard-Succeeds_iff (not (not (d.pool == "") && not (is_empty d.pools)))
        (Error.pool_and_pools name) _ in
    let pools = one_iff d.pool d.pools in
    let zones = one_iff d.zone d.zones in
    let none_left = is_empty_iff d.selectors in
    (
      λ h.
          let (a, h') = first.0 h in
          let (b, h'') = second.0 h' in (pools.0 a, zones.0 b, none_left.0 (last.0 h'')),
      λ (a, b, c). first.1 (pools.1 a, second.1 (zones.1 b, last.1 (none_left.1 c))),
    )

relabel-Succeeds_iff :
    {E F A : Type 0} (wrap : E → F) (r : Result E A) → Succeeds (relabel wrap r) ↔ Succeeds r
relabel-Succeeds_iff wrap (ok a) = (λ h. (a, refl), λ h. (a, refl))
relabel-Succeeds_iff wrap (err e) = (λ (a, h). absurd (cc h), λ (a, h). absurd (cc h))

IsPolicy-Succeeds_iff :
    (wrap : Policy.PolicyError → Error) (p : Option Types.AppNetworkPolicySpec)
    → Succeeds (relabel wrap (convert_policy p)) ↔ IsPolicy p
IsPolicy-Succeeds_iff wrap p =
    let relabelled = relabel-Succeeds_iff wrap (convert_policy p) in
    (
      λ h. let (out, e) = relabelled.0 h in ((convert_policy_iff p out).0 e).0,
      λ h. relabelled.1 (policy_of p, (convert_policy_iff p (policy_of p)).1 (h, refl)),
    )

-- A block whose last step only returns.
last_iff :
    {E A B : Type 0} (m : Result E A) (f : A → B) → Succeeds (m >>= λ a. ok (f a)) ↔ Succeeds m
last_iff (ok a) f = (λ h. (a, refl), λ h. (f a, refl))
last_iff (err e) f = (λ (b, h). absurd (cc h), λ (b, h). absurd (cc h))

module _ (lib : Library) where
  abbrev pub HasSize : Types.AppVolumeSpec → Type 0
  HasSize v = Succeeds (parse_volume_size lib v.size)

  volume_iff : (i : ℕ) (v : Types.AppVolumeSpec) → Succeeds (convert_volume lib i v) ↔ HasSize v
  unfolding convert_volume
  volume_iff i v =
      let (to, from) =
        last_iff (relabel (Error.bad_size v.name) (parse_volume_size lib v.size)) _ in
      let (inside, outside) =
        relabel-Succeeds_iff (Error.bad_size v.name) (parse_volume_size lib v.size) in
      (λ h. inside (to h), λ h. from (outside h))

  abbrev pub IsApp : Types.App → Type 0
  IsApp a =
      All HasSize a.spec.volumes × (IsDeployment a.spec.deployment × IsPolicy a.spec.network_policy)

  pub workspace_iff :
      (w : Types.Workspace)
      → Succeeds (convert_workspace lib w) ↔ (Succeeds (id_of lib workspace w.meta) × Unit {0})
  unfolding convert_workspace
  workspace_iff w =
      let (to, from) = last_iff (id_of lib workspace w.meta) _ in
      (λ h. (to h, tt), λ (h, _). from h)

  pub provider_iff :
      (p : Types.Provider)
      → Succeeds (convert_provider lib p) ↔ (Succeeds (id_of lib provider p.meta) × Unit {0})
  unfolding convert_provider
  provider_iff p =
      let (to, from) = last_iff (id_of lib provider p.meta) _ in (λ h. (to h, tt), λ (h, _). from h)

  pub cluster_iff :
      (c : Types.Cluster)
      → Succeeds (convert_cluster lib c)
        ↔ (Succeeds (id_of lib cluster c.meta) × IsProtection c.spec.protection)
  unfolding convert_cluster
  cluster_iff c =
      bind-Succeeds_iff (IsProtection c.spec.protection) (id_of lib cluster c.meta) _ (λ f.
        let (to, from) = last_iff (convert_protection c.meta.name c.spec.protection) _ in
        let (a, b) = IsProtection-iff c.meta.name c.spec.protection in
        (λ h. a (to h), λ h. from (b h)))

  pub box_iff :
      (b : Types.Box)
      → Succeeds (convert_box lib b)
        ↔ (Succeeds (id_of lib box b.meta) × IsPolicy b.spec.network_policy)
  unfolding convert_box
  box_iff b = bind-Succeeds_iff (IsPolicy b.spec.network_policy) (id_of lib box b.meta) _ (λ f.
      let (to, from) =
        last_iff (relabel (Error.bad_policy box b.meta.name) (convert_policy b.spec.network_policy))
          _ in
      let (inside, outside) =
        IsPolicy-Succeeds_iff (Error.bad_policy box b.meta.name) b.spec.network_policy in
      (λ h. inside (to h), λ h. from (outside h)))

  pub app_iff :
      (app_file : String) (a : Types.App)
      → Succeeds (convert_app lib app_file a) ↔ (Succeeds (id_of lib app a.meta) × IsApp a)
  unfolding convert_app
  app_iff app_file a = bind-Succeeds_iff (IsApp a) (id_of lib app a.meta) _ (λ f.
      let sizes = each-Succeeds_iff HasSize (convert_volume lib) volume_iff 0 a.spec.volumes in
      let loop =
        bind-Succeeds_iff (IsDeployment a.spec.deployment × IsPolicy a.spec.network_policy)
          (each (convert_volume lib) 0 a.spec.volumes) _
          (λ vs.
            let deployment = IsDeployment-iff a.meta.name a.spec.deployment in
            let check =
              bind-Succeeds_iff (IsPolicy a.spec.network_policy)
                (validate_app_deployment_spec a.meta.name a.spec.deployment) _
                (λ u.
                  let (to, from) =
                    last_iff
                      (relabel (Error.bad_policy app a.meta.name)
                        (convert_policy a.spec.network_policy))
                      _ in
                  let (inside, outside) =
                    IsPolicy-Succeeds_iff (Error.bad_policy app a.meta.name)
                      a.spec.network_policy in
                  (λ h. inside (to h), λ h. from (outside h))) in
            (
              λ h. let (d, p) = check.0 h in (deployment.0 d, p),
              λ (d, p). check.1 (deployment.1 d, p),
            )) in
      (λ h. let (s, rest) = loop.0 h in (sizes.0 s, rest), λ (s, rest). loop.1 (sizes.1 s, rest)))
