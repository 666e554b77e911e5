-- ===== src/Volume/Bootstrap/Outcome.antt =====
-- What the bootstrap answers, and when it changes anything.
use mathlib.Core.Path.{subst}
use kompox.Prelude.{
  ok_inj, ℕ, ◌≡◌, ◌⊎◌, refl, sym, ap, ◌∙◌, inl, inr, true, false, List, [], ◌∷◌, Bool-cases, Result,
  ok, err,
}
use kompox.Prelude.Actions.{Action, ◌>>=◌, pure, bind-cases, bind-ok, bind-found}
use kompox.Domain.Model.{Cluster, App, AppVolume}
use kompox.Store.{cluster_entity, app_entity}
use kompox.Volume.{
  VolState, Error, missing_parameters, invalid_state, VolumeDisk, CreateOptions, VolumePort, Repos,
  given, owner,
}
use kompox.Volume.Owner.{IsStored, owner-found}
use kompox.Volume.Bootstrap.{
  BootstrapInput, BootstrapOutput, all_assigned, sort_states, skip, gather, create_all, decide,
  bootstrap_volumes, disk_create_bootstrap,
}
use kompox.Volume.Bootstrap.Assigned.{
  Driver, DistinctVolumes, Assigned, sort-all_assigned, gather-keeps, gather-shows,
  create_all-Fills,
}

module _ {W : Type 0} (p : VolumePort W) (c : Cluster) (a : App) where
  abbrev created_output : List VolumeDisk → Action W Error BootstrapOutput
  created_output created = pure (record { created = created; skipped = false; reason = "" })

  -- The three cases of the switch.
  decide-cases :
      (o : CreateOptions) (volumes : List AppVolume) (states : List VolState) (w : W)
      → ((all_assigned 0 states ≡ true)
          × (decide p c a o volumes states w ≡ (create_all p c a o volumes >>= created_output) w))
        ⊎ ((all_assigned 0 states ≡ false)
            × (((all_assigned 1 states ≡ true)
                  × (decide p c a o volumes states w ≡ (ok (skip "already initialized"), w)))
                ⊎ (decide p c a o volumes states w ≡ (err (invalid_state states), w))))
  unfolding decide
  decide-cases o volumes states w = elim (Bool-cases (all_assigned 0 states)) [
    | inl zero ↦ inl (zero, rw (zero, decide) refl)
    | inr some ↦ inr (
      some,
      elim (Bool-cases (all_assigned 1 states)) [
        | inl one ↦ inl (one, rw (some, one, decide) refl)
        | inr other ↦ inr (rw (some, other, decide) refl)
      ],
    )
  ]

  module _ (d : Driver p) where
    -- What the gathering found, once the states are sorted.
    sorted-shows :
        (n : ℕ) (volumes : List AppVolume) (w : W) (states : List VolState)
        → (gather p c a volumes w).0 ≡ ok states
        → all_assigned n (sort_states states) ≡ true
        → Assigned p d c a n w volumes
    sorted-shows n volumes w states h all =
        gather-shows p d c a n volumes w states h (sym (sort-all_assigned n states) ∙ all)

    decide-Assigned :
        (o : CreateOptions) (volumes : List AppVolume) (states : List VolState) (w : W)
        (out : BootstrapOutput)
        → DistinctVolumes volumes
        → (gather p c a volumes w).0 ≡ ok states
        → (decide p c a o volumes (sort_states states) w).0 ≡ ok out
        → Assigned p d c a 1 (decide p c a o volumes (sort_states states) w).1 volumes
    decide-Assigned o volumes states w out distinct found h =
        elim (decide-cases o volumes (sort_states states) w) [
          | inl (zero, is) ↦
              let (created, made, is') =
                bind-ok (create_all p c a o volumes) created_output {w = w}
                  (sym (ap (λ r. r.0) is) ∙ h) in
              subst (λ u. Assigned p d c a 1 u volumes) (sym (ap (λ r. r.1) (is ∙ is')))
                (create_all-Fills p d c a o volumes created w distinct made).0
          | inr (some, inl (one, is)) ↦
              subst (λ u. Assigned p d c a 1 u volumes) (sym (ap (λ r. r.1) is))
                (sorted-shows 1 volumes w states found one)
          | inr (some, inr is) ↦ absurd (cc (sym (ap (λ r. r.0) is) ∙ h))
        ]

    bootstrap_volumes-Assigned :
        (o : CreateOptions) (volumes : List AppVolume) (w : W) (out : BootstrapOutput)
        → DistinctVolumes volumes
        → (bootstrap_volumes p c a o volumes w).0 ≡ ok out
        → Assigned p d c a 1 (bootstrap_volumes p c a o volumes w).1 volumes
    unfolding bootstrap_volumes
    bootstrap_volumes-Assigned o [] w out distinct h = tt
    bootstrap_volumes-Assigned o (v ∷ volumes) w out distinct h =
        let (states, found, is) =
          bind-ok (gather p c a (v ∷ volumes))
            (λ states. decide p c a o (v ∷ volumes) (sort_states states)) {w = w} h in
        let at =
          is
          ∙ ap (decide p c a o (v ∷ volumes) (sort_states states))
              (gather-keeps p d c a (v ∷ volumes) w) in
        subst (λ u. Assigned p d c a 1 u (v ∷ volumes)) (sym (ap (λ r. r.1) at))
          (decide-Assigned o (v ∷ volumes) states w out distinct found (sym (ap (λ r. r.0) at) ∙ h))

    -- Where some volume has an assigned disk, nothing is changed, and success is a skip.
    abbrev pub Leaves : Result Error BootstrapOutput × W → W → Type 0
    Leaves (result, w') w =
        (w' ≡ w) × ((out : BootstrapOutput) → result ≡ ok out → out.skipped ≡ true)

    decide-Leaves :
        (o : CreateOptions) (volumes : List AppVolume) (states : List VolState) (w : W)
        → (Assigned p d c a 0 w volumes → ⊥)
        → (gather p c a volumes w).0 ≡ ok states
        → Leaves (decide p c a o volumes (sort_states states) w) w
    decide-Leaves o volumes states w some found =
        elim (decide-cases o volumes (sort_states states) w) [
          | inl (zero, is) ↦ absurd (some (sorted-shows 0 volumes w states found zero))
          | inr (_, inl (one, is)) ↦
              subst (λ r. Leaves r w) (sym is) (refl, λ out h. sym (ap (λ b. b.skipped) (ok_inj h)))
          | inr (_, inr is) ↦ subst (λ r. Leaves r w) (sym is) (refl, λ out h. absurd (cc h))
        ]

    bootstrap_volumes-Leaves :
        (o : CreateOptions) (volumes : List AppVolume) (w : W)
        → (Assigned p d c a 0 w volumes → ⊥)
        → Leaves (bootstrap_volumes p c a o volumes w) w
    unfolding bootstrap_volumes
    bootstrap_volumes-Leaves o [] w some = absurd (some tt)
    bootstrap_volumes-Leaves o (v ∷ volumes) w some =
        let next = λ (states : List VolState). decide p c a o (v ∷ volumes) (sort_states states) in
        let same = gather-keeps p d c a (v ∷ volumes) w in
        elim (bind-cases (gather p c a (v ∷ volumes)) next w) [
          | inl (e, failed, is) ↦ subst (λ r. Leaves r w) (sym is) (same, λ out h. absurd (cc h))
          | inr (states, found, is) ↦
              subst (λ r. Leaves r w) (sym (is ∙ ap (next states) same))
                (decide-Leaves o (v ∷ volumes) states w some found)
        ]

module _ {W : Type 0} (r : Repos) (p : VolumePort W) (d : Driver p) (i : BootstrapInput)
    (c : Cluster) (a : App) where
  abbrev options_of : CreateOptions
  options_of = record { zone = i.zone; options = i.options }

  bootstrap-given :
      (w : W)
      → IsStored r i.app_id c a
      → given i.app_id ≡ true
      → disk_create_bootstrap r p i w ≡ bootstrap_volumes p c a options_of a.volumes w
  unfolding disk_create_bootstrap
  bootstrap-given w stored named =
      rw (named, disk_create_bootstrap)
        (bind-found (owner r i.app_id) (λ x. bootstrap_volumes p x.0 x.1 options_of x.1.volumes) w w
          (c, a) (owner-found r i.app_id c a w stored))

  bootstrap-missing :
      (w : W) → given i.app_id ≡ false → disk_create_bootstrap r p i w ≡ (err missing_parameters, w)
  unfolding disk_create_bootstrap
  bootstrap-missing w missing = rw (missing, disk_create_bootstrap) refl

  -- A bootstrap that succeeds, by creating disks or by skipping, leaves every volume of the app
  -- with exactly one assigned disk, if no two volumes have one name and the port is as `Driver`
  -- says.
  pub bootstrap-Assigned :
      (w : W) (out : BootstrapOutput)
      → IsStored r i.app_id c a
      → DistinctVolumes a.volumes
      → (disk_create_bootstrap r p i w).0 ≡ ok out
      → Assigned p d c a 1 (disk_create_bootstrap r p i w).1 a.volumes
  bootstrap-Assigned w out stored distinct h = elim (Bool-cases (given i.app_id)) [
    | inl named ↦
        let is = bootstrap-given w stored named in
        subst (λ u. Assigned p d c a 1 u a.volumes) (sym (ap (λ x. x.1) is))
          (bootstrap_volumes-Assigned p c a d options_of a.volumes w out distinct
            (sym (ap (λ x. x.0) is) ∙ h))
    | inr missing ↦ absurd (cc (sym (ap (λ x. x.0) (bootstrap-missing w missing)) ∙ h))
  ]

  -- Once some volume of the app has an assigned disk, the bootstrap creates and assigns nothing: it
  -- fails, or skips.
  pub bootstrap-Leaves :
      (w : W)
      → IsStored r i.app_id c a
      → (Assigned p d c a 0 w a.volumes → ⊥)
      → Leaves p c a d (disk_create_bootstrap r p i w) w
  bootstrap-Leaves w stored some = elim (Bool-cases (given i.app_id)) [
    | inl named ↦
        subst (λ x. Leaves p c a d x w) (sym (bootstrap-given w stored named))
          (bootstrap_volumes-Leaves p c a d options_of a.volumes w some)
    | inr missing ↦
        subst (λ x. Leaves p c a d x w) (sym (bootstrap-missing w missing))
          (refl, λ out h. absurd (cc h))
  ]
