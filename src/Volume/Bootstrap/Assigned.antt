-- ===== src/Volume/Bootstrap/Assigned.antt =====
-- What the bootstrap leaves behind, for a port that lists, creates and assigns disks
-- as design/v1/Kompox-ProviderDriver.ja.md says.
use mathlib.Core.Path.{subst}
use kompox.Prelude.{
  ok_inj, ℕ, ◌≡◌, ◌≢◌, refl, sym, ap, ◌∙◌, String, true, ◌&&◌, List, [], ◌∷◌, nat_eq, Result, ok,
  arith, All,
}
use kompox.Prelude.Actions.{
  Action, ◌>>=◌, ◌>>◌, pure, require, wrapped, bind-ok, bind-leaves, wrapped-ok, require-ok,
}
use kompox.Domain.Model.{Cluster, App, AppVolume}
use kompox.Volume.{
  VolState, Error, VolumeDisk, lookup_failed, recheck_failed, create_failed, assign_failed,
  concurrent_assignment, CreateOptions, VolumePort, model,
}
use kompox.Volume.Bootstrap.{
  count_assigned, state_of, all_assigned, insert_state, sort_states, gather, create_one, create_all,
}

-- What design/v1/Kompox-ProviderDriver.ja.md says of the port: how many disks of a volume are
-- assigned is a fact of the world, which DiskList shows and does not change; creating a disk of a
-- volume, which may be assigned at once if it is the first, leaves the disks of other volumes as
-- they are; and assigning a disk takes the assignment from the others of its volume.
pub record Driver {W : Type 0} (p : VolumePort W) : Type 0 where
  pub assigned : Cluster → App → String → W → ℕ
  pub list_keeps : (c : Cluster) (a : App) (v : String) (w : W) → (p.disk_list c a v w).1 ≡ w
  pub list_shows :
      (c : Cluster) (a : App) (v : String) (w : W) (disks : List VolumeDisk)
      → (p.disk_list c a v w).0 ≡ ok disks
      → count_assigned disks ≡ assigned c a v w
  pub create_others :
      (c : Cluster) (a : App) (v name source : String) (o : CreateOptions) (w : W) (u : String)
      → u ≢ v
      → assigned c a u (p.disk_create c a v name source o w).1 ≡ assigned c a u w
  pub assign_sets :
      (c : Cluster) (a : App) (v name : String) (w : W)
      → (p.disk_assign c a v name w).0 ≡ ok tt
      → assigned c a v (p.disk_assign c a v name w).1 ≡ 1
  pub assign_others :
      (c : Cluster) (a : App) (v name : String) (w : W) (u : String)
      → u ≢ v
      → assigned c a u (p.disk_assign c a v name w).1 ≡ assigned c a u w

-- No two volumes have one name.
abbrev pub DistinctVolumes : List AppVolume → Type 0
DistinctVolumes [] = Unit
DistinctVolumes (v ∷ volumes) = All (λ u. u.name ≢ v.name) volumes × DistinctVolumes volumes

insert-all_assigned :
    (n : ℕ) (s : VolState) (states : List VolState)
    → all_assigned n (insert_state s states) ≡ all_assigned n (s ∷ states)
unfolding all_assigned insert_state
insert-all_assigned n s [] = refl
insert-all_assigned n s (t ∷ states) = ground (arith, insert-all_assigned n s states)

pub sort-all_assigned :
    (n : ℕ) (states : List VolState) → all_assigned n (sort_states states) ≡ all_assigned n states
unfolding all_assigned sort_states
sort-all_assigned n [] = refl
sort-all_assigned n (s ∷ states) =
    insert-all_assigned n s (sort_states states)
    ∙ ap (λ b. nat_eq s.assigned n && b) (sort-all_assigned n states)

all_assigned-cons :
    (n : ℕ) (s : VolState) (states : List VolState)
    → all_assigned n (s ∷ states) ≡ true
    → (s.assigned ≡ n) × (all_assigned n states ≡ true)
unfolding all_assigned
all_assigned-cons n s states h = (ground arith, ground arith)

nat_eq-path : {m n : ℕ} → nat_eq m n ≡ true → m ≡ n
nat_eq-path h = ground arith

module _ {W : Type 0} (p : VolumePort W) (d : Driver p) (c : Cluster) (a : App) where
  abbrev listing : (String → Error → Error) → AppVolume → Action W Error (List VolumeDisk)
  listing wrap v = wrapped (λ e. wrap v.name (model e)) (p.disk_list c a v.name)

  -- Each of the volumes has `n` assigned disks.
  abbrev pub Assigned : ℕ → W → List AppVolume → Type 0
  Assigned n w volumes = All (λ v. d.assigned c a v.name w ≡ n) volumes

  -- Gathering changes nothing, and what it finds is so.
  pub gather-keeps : (volumes : List AppVolume) (w : W) → (gather p c a volumes w).1 ≡ w
  unfolding gather
  gather-keeps [] w = refl
  gather-keeps (v ∷ volumes) w =
      bind-leaves (listing lookup_failed v)
        (λ disks. gather p c a volumes >>= λ rest. pure (state_of v disks ∷ rest)) w
        (d.list_keeps c a v.name w)
        (λ disks found.
          bind-leaves (gather p c a volumes) (λ rest. pure (state_of v disks ∷ rest)) w
            (gather-keeps volumes w) (λ rest done. refl))

  pub gather-shows :
      (n : ℕ) (volumes : List AppVolume) (w : W) (states : List VolState)
      → (gather p c a volumes w).0 ≡ ok states
      → all_assigned n states ≡ true
      → Assigned n w volumes
  unfolding gather all_assigned
  gather-shows n [] w states h all = tt
  gather-shows n (v ∷ volumes) w states h all =
      let (disks, found, out) =
        bind-ok (listing lookup_failed v)
          (λ disks. gather p c a volumes >>= λ rest. pure (state_of v disks ∷ rest)) h in
      let same = d.list_keeps c a v.name w in
      let (rest, gathered, out') =
        bind-ok (gather p c a volumes) (λ rest. pure (state_of v disks ∷ rest))
          (sym (ap (λ o. o.0) out) ∙ h) in
      let made : ◌≡◌ {A = Result Error (List VolState)} (ok (state_of v disks ∷ rest)) (ok states) =
        sym (ap (λ o. o.0) (out ∙ out')) ∙ h in
      let shown = d.list_shows c a v.name w disks (wrapped-ok _ (p.disk_list c a v.name) found) in
      let both : all_assigned n (state_of v disks ∷ rest) ≡ true =
        ap (all_assigned n) (ok_inj made) ∙ all in
      let (first, others) = all_assigned-cons n (state_of v disks) rest both in
      (
        sym shown ∙ first,
        gather-shows n volumes w rest
            (ap {B = Result Error (List VolState)} (λ u. (gather p c a volumes u).0) (sym same)
              ∙ gathered)
            others,
      )

  -- The three later steps of create_one.
  abbrev assign_step : AppVolume → VolumeDisk → Action W Error VolumeDisk
  assign_step v disk =
      wrapped (λ e. assign_failed v.name (model e)) (p.disk_assign c a v.name disk.name)
      >> pure disk

  abbrev create_step : CreateOptions → AppVolume → Action W Error VolumeDisk
  create_step o v =
      wrapped (λ e. create_failed v.name (model e)) (p.disk_create c a v.name "" "" o)
      >>= assign_step v

  abbrev check_step : CreateOptions → AppVolume → List VolumeDisk → Action W Error VolumeDisk
  check_step o v disks =
      require (nat_eq (count_assigned disks) 0) (concurrent_assignment v.name) >> create_step o v

  -- Of the volumes, only `v` has changed, and it has one assigned disk.
  abbrev Fills : AppVolume → W → W → Type 0
  Fills v w w' =
      (d.assigned c a v.name w' ≡ 1)
      × ((u : String) → u ≢ v.name → d.assigned c a u w' ≡ d.assigned c a u w)

  assign_step-Fills :
      (v : AppVolume) (disk out : VolumeDisk) (w : W)
      → (assign_step v disk w).0 ≡ ok out
      → Fills v w (assign_step v disk w).1
  assign_step-Fills v disk out w h =
      let (_, assigned, is) =
        bind-ok (wrapped (λ e. assign_failed v.name (model e)) (p.disk_assign c a v.name disk.name))
          (λ _. pure disk) {w = w} h in
      let after = ap (λ o. o.1) is in
      let done =
        wrapped-ok (λ e. assign_failed v.name (model e)) (p.disk_assign c a v.name disk.name)
          {w = w} assigned in
      (
        ap (d.assigned c a v.name) after ∙ d.assign_sets c a v.name disk.name w done,
        λ u ne. ap (d.assigned c a u) after ∙ d.assign_others c a v.name disk.name w u ne,
      )

  create_step-Fills :
      (o : CreateOptions) (v : AppVolume) (out : VolumeDisk) (w : W)
      → (create_step o v w).0 ≡ ok out
      → Fills v w (create_step o v w).1
  create_step-Fills o v out w h =
      let (disk, created, is) =
        bind-ok (wrapped (λ e. create_failed v.name (model e)) (p.disk_create c a v.name "" "" o))
          (assign_step v) {w = w} h in
      let w1 = (p.disk_create c a v.name "" "" o w).1 in
      let (one, others) = assign_step-Fills v disk out w1 (sym (ap (λ r. r.0) is) ∙ h) in
      let after = ap (λ r. r.1) is in
      (
        ap (d.assigned c a v.name) after ∙ one,
        λ u ne.
            ap (d.assigned c a u) after ∙ others u ne ∙ d.create_others c a v.name "" "" o w u ne,
      )

  create_one-Fills :
      (o : CreateOptions) (v : AppVolume) (out : VolumeDisk) (w : W)
      → (create_one p c a o v w).0 ≡ ok out
      → Fills v w (create_one p c a o v w).1
  unfolding create_one
  create_one-Fills o v out w h =
      let (disks, found, is) = bind-ok (listing recheck_failed v) (check_step o v) {w = w} h in
      let same = d.list_keeps c a v.name w in
      let at = is ∙ ap (check_step o v disks) same in
      let h1 = sym (ap (λ r. r.0) at) ∙ h in
      let (_, is') =
        require-ok (nat_eq (count_assigned disks) 0) (concurrent_assignment v.name)
          (create_step o v) w h1 in
      let (one, others) = create_step-Fills o v out w (sym (ap (λ r. r.0) is') ∙ h1) in
      let after = ap (λ r. r.1) (at ∙ is') in
      (ap (d.assigned c a v.name) after ∙ one, λ u ne. ap (d.assigned c a u) after ∙ others u ne)

  pub create_all-Fills :
      (o : CreateOptions) (volumes : List AppVolume) (out : List VolumeDisk) (w : W)
      → DistinctVolumes volumes
      → (create_all p c a o volumes w).0 ≡ ok out
      → Assigned 1 (create_all p c a o volumes w).1 volumes
        × ((u : String)
            → All (λ v. v.name ≢ u) volumes
            → d.assigned c a u (create_all p c a o volumes w).1 ≡ d.assigned c a u w)
  unfolding create_all
  create_all-Fills o [] out w distinct h = (tt, λ u apart. refl)
  create_all-Fills o (v ∷ volumes) out w (apart, distinct) h =
      let (disk, made, is) =
        bind-ok (create_one p c a o v)
          (λ disk. create_all p c a o volumes >>= λ rest. pure (disk ∷ rest)) {w = w} h in
      let w1 = (create_one p c a o v w).1 in
      let (one, others) = create_one-Fills o v disk w made in
      let (rest, more, is') =
        bind-ok (create_all p c a o volumes) (λ rest. pure (disk ∷ rest)) {w = w1}
          (sym (ap (λ r. r.0) is) ∙ h) in
      let (all, kept) = create_all-Fills o volumes rest w1 distinct more in
      let after = ap (λ r. r.1) (is ∙ is') in
      (
        (
          ap (d.assigned c a v.name) after ∙ kept v.name apart ∙ one,
          subst (λ u. Assigned 1 u volumes) (sym after) all,
        ),
        λ u (ne, elsewhere).
            ap (d.assigned c a u) after ∙ kept u elsewhere ∙ others u (λ e. ne (sym e)),
      )
