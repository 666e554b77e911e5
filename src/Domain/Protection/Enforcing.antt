-- ===== src/Domain/Protection/Enforcing.antt =====
-- Which operations the two checks of a cluster's protection refuse.
use kompox.Prelude.{
  ◌≡◌, ◌⊎◌, ◌↔◌, refl, sym, ap, ◌∙◌, inl, inr, Option, Option-cases, Result, ok, err,
}
use kompox.Domain.Model.{Error, cluster_protected, Level, ClusterProtection, Cluster}
use kompox.Domain.Protection.{
  Operation, create, update, delete, check_level, check_provisioning_protection,
  check_installation_protection, check-cases,
}

-- The level of a cluster's protection, by what it is for.
abbrev pub HasLevel : (ClusterProtection → Level) → Cluster → Level → Type 0
HasLevel level_of c l = (p : ClusterProtection) × (c.protection ≡ Option.some p) × (level_of p ≡ l)

-- What the documentation says that the levels refuse: cannotDelete a deletion, readOnly an update
-- too.
abbrev pub Refuses : Level → Operation → Type 0
Refuses l op =
    ((op ≡ delete) × ((l ≡ Level.cannot_delete) ⊎ (l ≡ Level.read_only)))
    ⊎ ((op ≡ update) × (l ≡ Level.read_only))

level-Refuses :
    (l : Level) (op : Operation) → check_level l op ≡ err cluster_protected → Refuses l op
unfolding check_level
level-Refuses Level.none op h = absurd (cc h)
level-Refuses Level.unset op h = absurd (cc h)
level-Refuses Level.read_only create h = absurd (cc h)
level-Refuses Level.read_only update h = inr (refl, refl)
level-Refuses Level.read_only delete h = inl (refl, inr refl)
level-Refuses Level.cannot_delete create h = absurd (cc h)
level-Refuses Level.cannot_delete update h = absurd (cc h)
level-Refuses Level.cannot_delete delete h = inl (refl, inl refl)
level-Refuses (Level.other s) op h = absurd (cc h)

Refuses-level :
    (l : Level) (op : Operation) → Refuses l op → check_level l op ≡ err cluster_protected
unfolding check_level
Refuses-level l op (inl (is, inl held)) =
    ap (λ o. check_level l o) is ∙ ap (λ k. check_level k delete) held
Refuses-level l op (inl (is, inr held)) =
    ap (λ o. check_level l o) is ∙ ap (λ k. check_level k delete) held
Refuses-level l op (inr (is, held)) =
    ap (λ o. check_level l o) is ∙ ap (λ k. check_level k update) held

-- The check answers with an error exactly where the cluster has a level that refuses.
abbrev pub Enforces :
    (ClusterProtection → Level)
    → (Cluster → Operation → Result Error (Unit {0}))
    → Cluster
    → Operation
    → Type 0
Enforces level_of check c op =
    ((check c op ≡ ok tt) ⊎ (check c op ≡ err cluster_protected))
    × ((check c op ≡ err cluster_protected) ↔ ((l : Level) × HasLevel level_of c l × Refuses l op))

Enforces-of :
    (level_of : ClusterProtection → Level) (check : Cluster → Operation → Result Error (Unit {0}))
    (c : Cluster) (op : Operation)
    → (c.protection ≡ Option.none → check c op ≡ ok tt)
    → ((p : ClusterProtection)
        → c.protection ≡ Option.some p
        → check c op ≡ check_level (level_of p) op)
    → ((check c op ≡ ok tt) ⊎ (check c op ≡ err cluster_protected))
    → Enforces level_of check c op
Enforces-of level_of check c op free by either = (
  either,
  (
    λ h. elim (Option-cases c.protection) [
      | inl missing ↦ absurd (cc (sym (free missing) ∙ h))
      | inr (p, there) ↦
          (level_of p, (p, there, refl), level-Refuses (level_of p) op (sym (by p there) ∙ h))
    ],
    λ (l, (p, there, is), refuses).
        by p there ∙ ap (λ k. check_level k op) is ∙ Refuses-level l op refuses,
  ),
)

-- Each check answers ok or that the cluster is protected, and the latter exactly where the level of
-- its own kind of protection refuses the operation: cannotDelete a deletion, and readOnly a
-- deletion or an update. Creating is never refused.
pub protection-Enforces :
    (c : Cluster) (op : Operation)
    → Enforces (λ p. p.provisioning) check_provisioning_protection c op
      × Enforces (λ p. p.installation) check_installation_protection c op
unfolding check_provisioning_protection check_installation_protection
protection-Enforces c op =
    let (provisioning, installation) = check-cases c op in
    (
      Enforces-of (λ p. p.provisioning) check_provisioning_protection c op
          (λ free. rw (free, check_provisioning_protection) refl)
          (λ p there. rw (there, check_provisioning_protection) refl) provisioning,
      Enforces-of (λ p. p.installation) check_installation_protection c op
          (λ free. rw (free, check_installation_protection) refl)
          (λ p there. rw (there, check_installation_protection) refl) installation,
    )

-- Creating is let through.
pub Enforces-create :
    (level_of : ClusterProtection → Level) (check : Cluster → Operation → Result Error (Unit {0}))
    (c : Cluster)
    → Enforces level_of check c create
    → check c create ≡ ok tt
Enforces-create level_of check c (inl allowed, _) = allowed
Enforces-create level_of check c (inr refused, (to, _)) = elim (to refused).2 [
  | inl (is, _) ↦ absurd (cc is)
  | inr (is, _) ↦ absurd (cc is)
]
