-- ===== src/Validations/Bound.antt =====
-- Which bindings validateAppVolumes returns, and when it says that they are complete.
use kompox.Prelude.{
  ◌+◌, ◌≤◌, ◌≡◌, ◌≢◌, ◌⊎◌, refl, sym, ap, ◌∙◌, inl, inr, Bool, true, false, Bool-cases, Option,
  none, some, Option-cases, List, [], ◌∷◌, length, nat_eq, Result, ok, err, ok_inj, Result-cases,
  arith,
}
use kompox.Domain.Model.{Cluster, App, AppVolume}
use kompox.Domain.Model
use kompox.Volume.{VolumeDisk, VolumePort}
use kompox.Validations.{
  Issue, Driver, VolumeBinding, VolumeClass, is_blank, assigned_disks, bind_class, bind_disk,
  bind_assigned, bind_volume, bind_volumes, count_ready, validate_app_volumes,
}

module _ {W : Type 0} (port : Option (VolumePort W)) (driver : Option (Driver W)) (c : Cluster)
    (a : App) where
  -- A binding of a volume: to the one assigned disk that the port lists, which has a handle, with a
  -- class that the driver answers for it, which has a CSI driver.
  pub record IsBound (v : AppVolume) (b : VolumeBinding) : Type 0 where
    pub named : b.name ≡ v.name
    pub own_port : VolumePort W
    pub has_port : port ≡ some own_port
    pub world : W
    pub disks : List VolumeDisk
    pub listed : (own_port.disk_list c a v.name world).0 ≡ ok disks
    pub only : assigned_disks disks ≡ b.volume_disk ∷ []
    pub handle : is_blank b.volume_disk.handle ≡ false
    pub csi_driver : is_blank b.volume_class.csi_driver ≡ false

  bind_class-ok :
      (v : AppVolume) (disk : VolumeDisk) (r : Result Model.Error VolumeClass) (b : VolumeBinding)
      → bind_class v disk r ≡ ok b
      → (b.name ≡ v.name) × (b.volume_disk ≡ disk) × (is_blank b.volume_class.csi_driver ≡ false)
  bind_class-ok v disk (err e) b h = absurd (cc h)
  bind_class-ok v disk (ok class) b h = elim (Bool-cases (is_blank class.csi_driver)) [
    | inl blank ↦ absurd (cc (rw blank at h))
    | inr fine ↦
        let e = ok_inj (rw fine at h) in
        (
          sym (ap (λ x. x.name) e),
          sym (ap (λ x. x.volume_disk) e),
          ap (λ x. is_blank x.volume_class.csi_driver) (sym e) ∙ fine,
        )
  ]

  bind_disk-ok :
      (v : AppVolume) (disk : VolumeDisk) (w : W) (b : VolumeBinding)
      → (bind_disk driver c a v disk w).0 ≡ ok b
      → (b.name ≡ v.name)
        × (b.volume_disk ≡ disk)
        × (is_blank b.volume_disk.handle ≡ false)
        × (is_blank b.volume_class.csi_driver ≡ false)
  bind_disk-ok v disk w b h = elim (Bool-cases (is_blank disk.handle)) [
    | inl blank ↦ absurd (cc (rw (blank, bind_disk) at h))
    | inr fine ↦ elim (Option-cases driver) [
      | inl missing ↦ absurd (cc (rw (fine, missing, bind_disk) at h))
      | inr (d, there) ↦
          let (named, own, csi) =
            bind_class-ok v disk (d.volume_class c a v w).0 b (rw (fine, there, bind_disk) at h) in
          (named, own, ap (λ x. is_blank x.handle) own ∙ fine, csi)
    ]
  ]

  bind_assigned-ok :
      (v : AppVolume) (disks : List VolumeDisk) (w : W) (b : VolumeBinding)
      → (bind_assigned driver c a v disks w).0 ≡ ok b
      → (b.name ≡ v.name)
        × (disks ≡ b.volume_disk ∷ [])
        × (is_blank b.volume_disk.handle ≡ false)
        × (is_blank b.volume_class.csi_driver ≡ false)
  bind_assigned-ok v [] w b h = absurd (cc h)
  bind_assigned-ok v (disk ∷ []) w b h =
      let (named, own, handle, csi) = bind_disk-ok v disk w b h in
      (named, ap (λ d. d ∷ []) (sym own), handle, csi)
  bind_assigned-ok v (disk ∷ next ∷ more) w b h = absurd (cc h)

  bind_volume-IsBound :
      (v : AppVolume) (w : W) (b : VolumeBinding)
      → (bind_volume port driver c a v w).0 ≡ ok b
      → IsBound v b
  unfolding bind_volume
  bind_volume-IsBound v w b h = elim (Option-cases port) [
    | inl missing ↦ absurd (cc (rw (missing, bind_volume) at h))
    | inr (p, there) ↦ elim (Result-cases (p.disk_list c a v.name w).0) [
      | inr (e, failed) ↦ absurd (cc (rw (there, failed, bind_volume) at h))
      | inl (disks, listed) ↦
          let (named, only, handle, csi) =
            bind_assigned-ok v (assigned_disks disks) (p.disk_list c a v.name w).1 b
              (rw (there, listed, bind_volume) at h) in
          record {
            named = named;
            own_port = p;
            has_port = there;
            world = w;
            disks = disks;
            listed = listed;
            only = only;
            handle = handle;
            csi_driver = csi;
          }
    ]
  ]

  -- At each place there is nothing, or a binding of the volume.
  abbrev Places : List AppVolume → List (Option VolumeBinding) → Type 0
  Places [] [] = Unit
  Places (v ∷ volumes) (none ∷ bindings) = Places volumes bindings
  Places (v ∷ volumes) (some b ∷ bindings) = IsBound v b × Places volumes bindings
  Places _ _ = ⊥

  -- Each volume has a binding, in order.
  abbrev pub AllBound : List AppVolume → List (Option VolumeBinding) → Type 0
  AllBound [] [] = Unit
  AllBound (v ∷ volumes) (some b ∷ bindings) = IsBound v b × AllBound volumes bindings
  AllBound _ _ = ⊥

  abbrev Outcome : List AppVolume → List (Option VolumeBinding) × List Issue → Type 0
  Outcome volumes (bindings, issues) =
      Places volumes bindings × (count_ready bindings + length issues ≡ length volumes)

  bind_volumes-Outcome :
      (volumes : List AppVolume) (w : W)
      → Outcome volumes (bind_volumes port driver c a volumes w).0
  unfolding bind_volumes count_ready
  bind_volumes-Outcome [] w = (tt, refl)
  bind_volumes-Outcome (v ∷ volumes) w =
      let w' = (bind_volume port driver c a v w).1 in
      let (places, counted) = bind_volumes-Outcome volumes w' in
      elim (Result-cases (bind_volume port driver c a v w).0) [
        | inl (b, bound) ↦
            rw (bound, bind_volumes)
              ((bind_volume-IsBound v w b bound, places), omega (arith, counted))
        | inr (i, failed) ↦ rw (failed, bind_volumes) (places, omega (arith, counted))
      ]

  count_ready-le :
      (volumes : List AppVolume) (bindings : List (Option VolumeBinding))
      → Places volumes bindings
      → count_ready bindings ≤ length volumes
  unfolding count_ready
  count_ready-le [] [] h = omega arith
  count_ready-le (v ∷ volumes) (none ∷ bindings) h =
      omega (arith, count_ready-le volumes bindings h)
  count_ready-le (v ∷ volumes) (some b ∷ bindings) (_, h) =
      omega (arith, count_ready-le volumes bindings h)
  count_ready-le [] (b ∷ bindings) h = absurd h
  count_ready-le (v ∷ volumes) [] h = absurd h

  Places-AllBound :
      (volumes : List AppVolume) (bindings : List (Option VolumeBinding))
      → Places volumes bindings
      → count_ready bindings ≡ length volumes
      → AllBound volumes bindings
  unfolding count_ready
  Places-AllBound [] [] h e = tt
  Places-AllBound (v ∷ volumes) (none ∷ bindings) h e =
      absurd (omega (arith, count_ready-le volumes bindings h))
  Places-AllBound (v ∷ volumes) (some b ∷ bindings) (bound, h) e =
      (bound, Places-AllBound volumes bindings h (omega arith))
  Places-AllBound [] (b ∷ bindings) h e = absurd h
  Places-AllBound (v ∷ volumes) [] h e = absurd h

  length_zero : {A : Type 0} (xs : List A) → length xs ≡ 0 → xs ≡ []
  length_zero [] h = refl
  length_zero (x ∷ xs) h = absurd (omega arith)

  abbrev pub Validated : List (Option VolumeBinding) × List Issue × Bool → Type 0
  Validated (bindings, issues, complete) =
      ((complete ≡ true) × (issues ≡ []) × AllBound a.volumes bindings)
      ⊎ ((complete ≡ false) × (issues ≢ []) × (length issues ≤ length a.volumes) × (bindings ≡ []))

  -- validateAppVolumes either says that the bindings are complete and finds no issue, and then each
  -- volume of the app has a binding in its place: to the one disk of its that is assigned in what
  -- the port listed, which has a handle, with a class that has a CSI driver. Or it says that they
  -- are not complete, returns none, and finds an issue, and at most one for each volume.
  pub validate_app_volumes-Validated :
      (w : W) → Validated (validate_app_volumes port driver c a w).0
  unfolding validate_app_volumes
  validate_app_volumes-Validated w =
      let out = (bind_volumes port driver c a a.volumes w).0 in
      let (places, counted) = bind_volumes-Outcome a.volumes w in
      elim (Bool-cases (nat_eq (count_ready out.0) (length a.volumes))) [
        | inl ready ↦
            let all : count_ready out.0 ≡ length a.volumes = ground arith in
            let none_left : length out.1 ≡ 0 = omega (arith, counted, all) in
            rw (ready, validate_app_volumes)
              (inl (refl, length_zero out.1 none_left, Places-AllBound a.volumes out.0 places all))
        | inr missing ↦
            let fewer : count_ready out.0 ≢ length a.volumes = λ e. ground arith in
            rw (missing, validate_app_volumes)
              (inr (
                refl,
                λ e. fewer (omega (arith, counted, ap length e)),
                omega (arith, counted),
                refl,
              ))
      ]
