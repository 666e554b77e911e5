-- ===== src/Volume/Guarded.antt =====
-- Which calls the use cases of disks and snapshots make of the port.
use kompox.Prelude.{
  ◌≡◌, ◌⊎◌, refl, sym, ap, ok_inj, eq_iff, ◌==◌, Bool-cases, List, [], ◌∷◌, ◌∙◌, inl, inr, String,
  Bool, true, false, ◌&&◌, Result, ok, err, Result-cases,
}
use kompox.Prelude.Actions.{Action, ◌>>=◌, ◌>>◌, pure, lift, wrapped, bind-found, bind-failed}
use kompox.Domain.Model
use kompox.Domain.Model.{Cluster, App, AppVolume, find_volume}
use kompox.Naming.{validate_volume_name, validate_disk_name, validate_snapshot_name}
use kompox.Store.{cluster_entity, app_entity, get}
use kompox.Volume.{
  Error, VolumePort, VolumeDisk, VolumeSnapshot, Repos, DiskInput, DiskCreateInput, SnapshotInput,
  check_names, given, optional, rewrap, model, missing_parameters, bad_volume_name, bad_disk_name,
  bad_snapshot_name, volume_not_defined, owner, target, disk_create, disk_assign, snapshot_create,
  snapshot_delete,
}
use kompox.Volume.Owner.{IsStored, owner-found}

abbrev pub Among : AppVolume → List AppVolume → Type 0
Among x [] = ⊥
Among x (v ∷ volumes) = (x ≡ v) ⊎ Among x volumes

-- The app is stored, with its cluster, and one of its volumes has the name.
abbrev pub IsDefined : Repos → String → String → Cluster → App → Type 0
IsDefined r app_id v c a =
    IsStored r app_id c a × ((x : AppVolume) × Among x a.volumes × (x.name ≡ v))

find_volume-Among :
    (volumes : List AppVolume) (v : String) (x : AppVolume)
    → find_volume volumes v ≡ ok x
    → Among x volumes × (x.name ≡ v)
unfolding find_volume
find_volume-Among [] v x h = absurd (cc h)
find_volume-Among (y ∷ volumes) v x h = elim (Bool-cases (y.name == v)) [
  | inl same ↦
      let here = ok_inj (rw (same, find_volume) at h) in
      (inl (sym here), ap (λ z. z.name) (sym here) ∙ (eq_iff y.name v).0 same)
  | inr differ ↦
      let (there, named) = find_volume-Among volumes v x (rw (differ, find_volume) at h) in
      (inr there, named)
]

-- An optional name is not given, or passes its check.
optional-inv :
    (name : String) (check : Result Error (Unit {0}))
    → optional name check ≡ ok tt
    → (name ≡ "") ⊎ (check ≡ ok tt)
optional-inv name check h = elim (Bool-cases (name == "")) [
  | inl empty ↦ inl ((eq_iff name "").0 empty)
  | inr named ↦ inr (rw (named, optional) at h)
]

rewrap-inv :
    {E : Type 0} (wrap : E → Error) (r : Result E (Unit {0})) → rewrap wrap r ≡ ok tt → r ≡ ok tt
rewrap-inv wrap (ok x) h = refl
rewrap-inv wrap (err e) h = absurd (cc h)

owner-inv :
    {W : Type 0} (r : Repos) (app_id : String) (w : W)
    → ((e : Error) × (owner r app_id w ≡ (err e, w)))
      ⊎ ((c : Cluster) × (a : App) × IsStored r app_id c a)
unfolding owner
owner-inv r app_id w = elim (Result-cases (get app_id r.apps)) [
  | inl (a, app) ↦ elim (Result-cases (get a.cluster_id r.clusters)) [
    | inl (c, cluster) ↦ inr (c, a, (app, cluster))
    | inr (e, missing) ↦ inl (model e, rw (app, owner) (rw (missing, owner) refl))
  ]
  | inr (e, missing) ↦ inl (model e, rw (missing, owner) refl)
]

target-inv :
    {W : Type 0} (r : Repos) (app_id v : String) (w : W)
    → ((e : Error) × (target r app_id v w ≡ (err e, w)))
      ⊎ ((c : Cluster) × (a : App) × IsDefined r app_id v c a
          × (target r app_id v w ≡ (ok (c, a), w)))
unfolding target
target-inv r app_id v w =
    let after = λ (x : Cluster × App).
      lift (rewrap volume_not_defined (find_volume x.1.volumes v)) >>= λ _. pure x in
    elim (owner-inv r app_id w) [
      | inl (e, failed) ↦ inl (e, bind-failed (owner r app_id) after w w e failed)
      | inr (c, a, stored) ↦
          let at =
            bind-found (owner r app_id) after w w (c, a) (owner-found r app_id c a w stored) in
          elim (Result-cases (find_volume a.volumes v)) [
            | inl (x, found) ↦
                let (among, named) = find_volume-Among a.volumes v x found in
                inr (c, a, (stored, (x, among, named)), at ∙ rw found refl)
            | inr (e, missing) ↦ inl (volume_not_defined e, at ∙ rw missing refl)
          ]
    ]

module _ {W : Type 0} (is_label : String → Bool) (r : Repos) (p : VolumePort W) where
  -- A use case fails where it is, or its guards hold and it is the port's call.
  abbrev pub Guarded :
      {A : Type 0}
      → String
      → String
      → Type 0
      → (Cluster → App → Action W Model.Error A)
      → Action W Error A
      → W
      → Type 0
  Guarded app_id v IsNamed call use_case w =
      ((e : Error) × (use_case w ≡ (err e, w)))
      ⊎ ((validate_volume_name is_label v ≡ ok tt)
          × IsNamed
          × ((c : Cluster) × (a : App) × IsDefined r app_id v c a
              × (use_case w ≡ wrapped model (call c a) w)))

  check_names-inv :
      (complete : Bool) (v : String) (other : Result Error (Unit {0})) (w : W)
      → ((e : Error) × (check_names is_label r p complete v other w ≡ (err e, w)))
        ⊎ ((validate_volume_name is_label v ≡ ok tt)
            × (other ≡ ok tt)
            × (check_names is_label r p complete v other w ≡ (ok tt, w)))
  check_names-inv false v other w = inl (missing_parameters, refl)
  check_names-inv true v other w = elim (Result-cases (validate_volume_name is_label v)) [
    | inl (_, fine) ↦ elim (Result-cases other) [
      | inl (_, good) ↦ inr (fine, good, rw (fine, good, check_names) refl)
      | inr (e, bad) ↦ inl (e, rw (fine, bad, check_names) refl)
    ]
    | inr (e, bad) ↦ inl (bad_volume_name e, rw (bad, check_names) refl)
  ]

  checked-Guarded :
      {A : Type 0} (complete : Bool) (app_id v : String) (other : Result Error (Unit {0}))
      (call : Cluster → App → Action W Model.Error A) (w : W) (IsNamed : Type 0)
      → (other ≡ ok tt → IsNamed)
      → Guarded app_id v IsNamed call
          (check_names is_label r p complete v other
            >> (target r app_id v >>= λ at. wrapped model (call at.0 at.1)))
          w
  checked-Guarded complete app_id v other call w IsNamed names =
      let next = λ (at : Cluster × App). wrapped model (call at.0 at.1) in
      let rest = target r app_id v >>= next in
      let checks = check_names is_label r p complete v other in
      elim (check_names-inv complete v other w) [
        | inl (e, failed) ↦ inl (e, bind-failed checks (λ _. rest) w w e failed)
        | inr (fine, good, passed) ↦
            let at = bind-found checks (λ _. rest) w w tt passed in
            elim (target-inv r app_id v w) [
              | inl (e, failed) ↦ inl (e, at ∙ bind-failed (target r app_id v) next w w e failed)
              | inr (c, a, defined, found) ↦ inr (
                fine,
                names good,
                (c, a, defined, at ∙ bind-found (target r app_id v) next w w (c, a) found),
              )
            ]
      ]

  -- The call that each of the four is for.
  abbrev pub creates : DiskCreateInput → Cluster → App → Action W Model.Error VolumeDisk
  creates n c a =
      p.disk_create c a n.volume_name n.disk_name n.source
        (record { zone = n.zone; options = n.options })

  abbrev pub assigns : DiskInput → Cluster → App → Action W Model.Error (Unit {0})
  assigns i c a = p.disk_assign c a i.volume_name i.disk_name

  abbrev pub snapshots : SnapshotInput → Cluster → App → Action W Model.Error VolumeSnapshot
  snapshots s c a = p.snapshot_create c a s.volume_name s.snapshot_name s.source

  abbrev pub drops : SnapshotInput → Cluster → App → Action W Model.Error (Unit {0})
  drops s c a = p.snapshot_delete c a s.volume_name s.snapshot_name

  abbrev pub disk_name_check : String → Result Error (Unit {0})
  disk_name_check name = rewrap bad_disk_name (validate_disk_name is_label name)

  abbrev pub snapshot_name_check : String → Result Error (Unit {0})
  snapshot_name_check name = rewrap bad_snapshot_name (validate_snapshot_name is_label name)

  abbrev pub IsDiskName : String → Type 0
  IsDiskName name = validate_disk_name is_label name ≡ ok tt

  abbrev pub IsSnapshotName : String → Type 0
  IsSnapshotName name = validate_snapshot_name is_label name ≡ ok tt

  disk_optional :
      (name : String) → optional name (disk_name_check name) ≡ ok tt → (name ≡ "") ⊎ IsDiskName name
  disk_optional name h = elim (optional-inv name (disk_name_check name) h) [
    | inl empty ↦ inl empty
    | inr fine ↦ inr (rewrap-inv bad_disk_name _ fine)
  ]

  snapshot_optional :
      (name : String)
      → optional name (snapshot_name_check name) ≡ ok tt
      → (name ≡ "") ⊎ IsSnapshotName name
  snapshot_optional name h = elim (optional-inv name (snapshot_name_check name) h) [
    | inl empty ↦ inl empty
    | inr fine ↦ inr (rewrap-inv bad_snapshot_name _ fine)
  ]

  -- Creating and assigning a disk, and creating and deleting a snapshot, either fail without any
  -- change, or are the port's call; the stored app then has a volume of the name, and the names of
  -- the volume and of the disk or snapshot (which may be left empty for a new one) are valid.
  pub volume_use_cases-Guarded :
      (n : DiskCreateInput) (i : DiskInput) (s : SnapshotInput) (w : W)
      → Guarded n.app_id n.volume_name
          ((n.disk_name ≡ "") ⊎ IsDiskName n.disk_name)
          (creates n)
          (disk_create is_label r p n)
          w
        × Guarded i.app_id i.volume_name
            (IsDiskName i.disk_name)
            (assigns i)
            (disk_assign is_label r p i)
            w
        × Guarded s.app_id s.volume_name
            ((s.snapshot_name ≡ "") ⊎ IsSnapshotName s.snapshot_name)
            (snapshots s)
            (snapshot_create is_label r p s)
            w
        × Guarded s.app_id s.volume_name
            (IsSnapshotName s.snapshot_name)
            (drops s)
            (snapshot_delete is_label r p s)
            w
  unfolding disk_create disk_assign snapshot_create snapshot_delete
  volume_use_cases-Guarded n i s w =
      let both = given s.app_id && given s.volume_name in
      (
        checked-Guarded (given n.app_id && given n.volume_name) n.app_id n.volume_name
            (optional n.disk_name (disk_name_check n.disk_name)) (creates n) w _
            (λ h. disk_optional n.disk_name h),
        checked-Guarded (given i.app_id && given i.volume_name && given i.disk_name) i.app_id
            i.volume_name (disk_name_check i.disk_name) (assigns i) w _
            (λ h. rewrap-inv bad_disk_name _ h),
        checked-Guarded both s.app_id s.volume_name
            (optional s.snapshot_name (snapshot_name_check s.snapshot_name)) (snapshots s) w _
            (λ h. snapshot_optional s.snapshot_name h),
        checked-Guarded (both && given s.snapshot_name) s.app_id s.volume_name
            (snapshot_name_check s.snapshot_name) (drops s) w _
            (λ h. rewrap-inv bad_snapshot_name _ h),
      )
