-- ===== src/Domain/Protection.antt =====
-- domain/model/cluster_protection.go: which operations a cluster's protection lets through.
pub mod Enforcing
use kompox.Prelude.{
  ◌≡◌, ◌⊎◌, ◌↔◌, ap, refl, sym, ◌∙◌, inl, inr, Option, Option-cases, Result, ok, err,
}
use kompox.Domain.Model.{Error, cluster_protected, Level, Cluster}

pub data Operation : Type 0 where
  create update delete : Operation

-- The shared body: `none` and "" let everything through.
unfoldable pub check_level : Level → Operation → Result Error (Unit {0})
check_level Level.none op = ok tt
check_level Level.unset op = ok tt
check_level Level.read_only update = err cluster_protected
check_level Level.read_only delete = err cluster_protected
check_level Level.cannot_delete delete = err cluster_protected
check_level _ _ = ok tt

unfoldable pub check_provisioning_protection : Cluster → Operation → Result Error (Unit {0})
check_provisioning_protection c op = elim c.protection [
  | Option.none ↦ ok tt
  | Option.some p ↦ check_level p.provisioning op
]

unfoldable pub check_installation_protection : Cluster → Operation → Result Error (Unit {0})
check_installation_protection c op = elim c.protection [
  | Option.none ↦ ok tt
  | Option.some p ↦ check_level p.installation op
]

-- A check lets everything through, or goes by a level.
abbrev GoesBy : (Operation → Result Error (Unit {0})) → Type 0
GoesBy f =
    ((op : Operation) → f op ≡ ok tt) ⊎ ((l : Level) × ((op : Operation) → f op ≡ check_level l op))

provisioning-GoesBy : (c : Cluster) → GoesBy (check_provisioning_protection c)
unfolding check_provisioning_protection
provisioning-GoesBy c = elim (Option-cases c.protection) [
  | inl free ↦ inl (λ op. rw (free, check_provisioning_protection))
  | inr (p, e) ↦ inr (p.provisioning, λ op. rw (e, check_provisioning_protection))
]

installation-GoesBy : (c : Cluster) → GoesBy (check_installation_protection c)
unfolding check_installation_protection
installation-GoesBy c = elim (Option-cases c.protection) [
  | inl free ↦ inl (λ op. rw (free, check_installation_protection))
  | inr (p, e) ↦ inr (p.installation, λ op. rw (e, check_installation_protection))
]

level-cases :
    (l : Level) (op : Operation)
    → (check_level l op ≡ ok tt) ⊎ (check_level l op ≡ err cluster_protected)
unfolding check_level
level-cases Level.none op = inl refl
level-cases Level.unset op = inl refl
level-cases Level.read_only create = inl refl
level-cases Level.read_only update = inr refl
level-cases Level.read_only delete = inr refl
level-cases Level.cannot_delete create = inl refl
level-cases Level.cannot_delete update = inl refl
level-cases Level.cannot_delete delete = inr refl
level-cases (Level.other s) op = inl refl

GoesBy-cases :
    (f : Operation → Result Error (Unit {0})) (op : Operation)
    → GoesBy f
    → (f op ≡ ok tt) ⊎ (f op ≡ err cluster_protected)
GoesBy-cases f op (inl free) = inl (free op)
GoesBy-cases f op (inr (l, by)) = elim (level-cases l op) [
  | inl allowed ↦ inl (by op ∙ allowed)
  | inr refused ↦ inr (by op ∙ refused)
]

abbrev Decides : (Cluster → Operation → Result Error (Unit {0})) → Cluster → Operation → Type 0
Decides check c op = (check c op ≡ ok tt) ⊎ (check c op ≡ err cluster_protected)

-- Both checks let an operation through or answer that the cluster is protected.
pub check-cases :
    (c : Cluster) (op : Operation)
    → Decides check_provisioning_protection c op × Decides check_installation_protection c op
check-cases c op = (
  GoesBy-cases (check_provisioning_protection c) op (provisioning-GoesBy c),
  GoesBy-cases (check_installation_protection c) op (installation-GoesBy c),
)
