-- ===== src/Volume/Deleting.antt =====
-- Deleting disks: an assigned disk is not lost.
use mathlib.Core.Path.{subst}
use kompox.Prelude.{
  ◌≡◌, ◌≢◌, ◌⊎◌, refl, sym, ap, ◌∙◌, inl, inr, String, Bool, true, false, ◌&&◌, List, [], ◌∷◌, ◌==◌,
  Bool-cases, Result, ok, eq_iff, arith,
}
use kompox.Prelude.Actions.{
  ◌>>=◌, ◌>>◌, lift, require, wrapped, bind-leaves, bind-found, bind-Keeps, require-leaves,
  wrapped-ok,
}
use kompox.Domain.Model.{Cluster, App}
use kompox.Naming.{validate_volume_name, validate_disk_name}
use kompox.Store.{cluster_entity, app_entity}
use kompox.Volume.{
  Error, VolumeDisk, VolumePort, Repos, DiskInput, check_deletable, check_names, delete_listed,
  disk_delete, given, model, missing_parameters, bad_volume_name, bad_disk_name, target, rewrap,
}
use kompox.Volume.Owner.{IsStored, target-cases}

abbrev pub Holds : VolumeDisk → List VolumeDisk → Type 0
Holds d [] = ⊥
Holds d (x ∷ disks) = (x ≡ d) ⊎ Holds d disks

-- No two disks have one name.
abbrev pub DistinctDisks : List VolumeDisk → Type 0
DistinctDisks [] = Unit
DistinctDisks (x ∷ disks) =
    ((d : VolumeDisk) → Holds d disks → d.name ≢ x.name) × DistinctDisks disks

-- What the theorem relies on of the port: the disks of a volume are a fact of the world, which
-- DiskList shows and does not change, and DiskDelete takes away no disk of another name.
pub record Keeper {W : Type 0} (p : VolumePort W) : Type 0 where
  pub disks : Cluster → App → String → W → List VolumeDisk
  pub list_keeps : (c : Cluster) (a : App) (v : String) (w : W) → (p.disk_list c a v w).1 ≡ w
  pub list_shows :
      (c : Cluster) (a : App) (v : String) (w : W) (found : List VolumeDisk)
      → (p.disk_list c a v w).0 ≡ ok found
      → found ≡ disks c a v w
  pub delete_others :
      (c : Cluster) (a : App) (v name : String) (w : W) (d : VolumeDisk)
      → d.name ≢ name
      → Holds d (disks c a v w)
      → Holds d (disks c a v (p.disk_delete c a v name w).1)

check_deletable-cons :
    (name : String) (x : VolumeDisk) (disks : List VolumeDisk)
    → check_deletable name (x ∷ disks) ≡ ok tt
    → ((x.name ≡ name) × (x.assigned ≡ false))
      ⊎ ((x.name ≢ name) × (check_deletable name disks ≡ ok tt))
unfolding check_deletable
check_deletable-cons name x disks h = elim (Bool-cases (x.name == name)) [
  | inl same ↦ inl ((eq_iff x.name name).0 same, ground arith)
  | inr other ↦ inr (λ e. absurd (ground (arith, eq_iff x.name name)), ground arith)
]

-- The check lets a name through only if no assigned disk has it.
check_deletable-assigned :
    (name : String) (disks : List VolumeDisk) (d : VolumeDisk)
    → check_deletable name disks ≡ ok tt
    → DistinctDisks disks
    → Holds d disks
    → d.assigned ≡ true
    → d.name ≢ name
check_deletable-assigned name [] d h _ there assigned same = elim there [ ]
check_deletable-assigned name (x ∷ disks) d h (apart, distinct) (inl is) assigned same =
    elim (check_deletable-cons name x disks h) [
      | inl (_, free) ↦ absurd (cc (sym (ap (λ y. y.assigned) is) ∙ free, assigned))
      | inr (other, _) ↦ other (ap (λ y. y.name) is ∙ same)
    ]
check_deletable-assigned name (x ∷ disks) d h (apart, distinct) (inr there) assigned same =
    elim (check_deletable-cons name x disks h) [
      | inl (here, _) ↦ apart d there (same ∙ sym here)
      | inr (_, rest) ↦ check_deletable-assigned name disks d rest distinct there assigned same
    ]

module _ {W : Type 0} (is_label : String → Bool) (r : Repos) (p : VolumePort W) (k : Keeper p) where
  check_names-leaves :
      (complete : Bool) (v : String) (other : Result Error (Unit {0})) (w : W)
      → (check_names is_label r p complete v other w).1 ≡ w
  check_names-leaves complete v other w =
      bind-leaves (require complete missing_parameters)
        (λ _. lift (rewrap bad_volume_name (validate_volume_name is_label v)) >> lift other) w
        (require-leaves complete missing_parameters w)
        (λ _ passed.
          bind-leaves (lift (rewrap bad_volume_name (validate_volume_name is_label v)))
            (λ _. lift other) w refl (λ _ fine. refl))

  delete_listed-Holds :
      (c : Cluster) (a : App) (i : DiskInput) (d : VolumeDisk) (w : W)
      → d.assigned ≡ true
      → DistinctDisks (k.disks c a i.volume_name w)
      → Holds d (k.disks c a i.volume_name w)
      → Holds d (k.disks c a i.volume_name (delete_listed is_label r p (c, a) i w).1)
  unfolding delete_listed
  delete_listed-Holds c a i d w assigned distinct there =
      let v = i.volume_name in
      let same = k.list_keeps c a v w in
      let P = λ (u : W). Holds d (k.disks c a v u) in
      let shown =
        λ (items : List VolumeDisk) (listed : (wrapped model (p.disk_list c a v) w).0 ≡ ok items).
          k.list_shows c a v w items (wrapped-ok model (p.disk_list c a v) {w = w} listed) in
      let remove = wrapped model (p.disk_delete c a v i.disk_name) in
      bind-Keeps P (wrapped model (p.disk_list c a v))
        (λ items. lift (check_deletable i.disk_name items) >> remove) w (subst P (sym same) there)
        (λ items listed.
          bind-Keeps P (lift (check_deletable i.disk_name items)) (λ _. remove)
            (p.disk_list c a v w).1 (subst P (sym same) there)
            (λ _ passed.
              k.delete_others c a v i.disk_name (p.disk_list c a v w).1 d
                (check_deletable-assigned i.disk_name items d passed
                  (subst DistinctDisks (sym (shown items listed)) distinct)
                  (subst (Holds d) (sym (shown items listed)) there) assigned)
                (subst P (sym same) there)))

  -- Whatever DiskDelete answers, an assigned disk of the volume that it is asked to delete from is
  -- still there afterwards, if no two disks of that volume have one name and the port is as
  -- `Keeper` says.
  pub disk_delete-Holds :
      (c : Cluster) (a : App) (i : DiskInput) (d : VolumeDisk) (w : W)
      → IsStored r i.app_id c a
      → d.assigned ≡ true
      → DistinctDisks (k.disks c a i.volume_name w)
      → Holds d (k.disks c a i.volume_name w)
      → Holds d (k.disks c a i.volume_name (disk_delete is_label r p i w).1)
  unfolding disk_delete
  disk_delete-Holds c a i d w stored assigned distinct there =
      let v = i.volume_name in
      let P = λ (u : W). Holds d (k.disks c a v u) in
      let complete = given i.app_id && given i.volume_name && given i.disk_name in
      let other = rewrap bad_disk_name (validate_disk_name is_label i.disk_name) in
      let checked = check_names-leaves complete v other w in
      bind-Keeps P (check_names is_label r p complete v other)
        (λ _. target r i.app_id v >>= λ at. delete_listed is_label r p at i) w
        (subst P (sym checked) there)
        (λ _ passed.
          subst (λ u. P ((target r i.app_id v >>= λ at. delete_listed is_label r p at i) u).1)
            (sym checked)
            (elim (target-cases r i.app_id c a v w stored) [
              | inl (e, is) ↦
                  bind-Keeps P (target r i.app_id v) (λ at. delete_listed is_label r p at i) w
                    (subst (λ o. P o.1) (sym is) there)
                    (λ at found. absurd (cc (sym (ap (λ o. o.0) is) ∙ found)))
              | inr is ↦
                  subst (λ o. P o.1)
                    (sym (
                      bind-found (target r i.app_id v) (λ at. delete_listed is_label r p at i) w w
                        (c, a) is))
                    (delete_listed-Holds c a i d w assigned distinct there)
            ]))
