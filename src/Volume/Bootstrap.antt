-- ===== src/Volume/Bootstrap.antt =====
-- usecase/volume/disk_create_bootstrap.go: one assigned disk for each volume of an app.
pub mod Assigned
pub mod Outcome
use Prim.Native.String.{compare}
use text.Mathlib.Text.{is_lt}
use kompox.Prelude.{
  ℕ, ◌+◌, String, Bool, true, false, not, ◌&&◌, Option, none, some, List, [], ◌∷◌, ◌==◌, nat_eq,
  length, Result, ok, err, if◌then◌else◌,
}
use kompox.Prelude.Actions.{Action, ◌>>=◌, ◌>>◌, pure, lift, require, wrapped}
use kompox.Crd.Types.{Members}
use kompox.Domain.Model
use kompox.Domain.Model.{Cluster, App, AppVolume}
use kompox.Volume.{
  VolState, Error, missing_parameters, model, lookup_failed, recheck_failed, create_failed,
  assign_failed, concurrent_assignment, invalid_state, VolumeDisk, CreateOptions, VolumePort, Repos,
  given, owner,
}

pub record BootstrapInput : Type 0 where
  pub app_id : String
  pub zone : String
  pub options : Option Members

-- Without the duration.
pub record BootstrapOutput : Type 0 where
  pub created : List VolumeDisk
  pub skipped : Bool
  pub reason : String

unfoldable pub count_assigned : List VolumeDisk → ℕ
count_assigned [] = 0
count_assigned (d ∷ disks) =
    let rest = count_assigned disks in if d.assigned then rest + 1 else rest

abbrev pub state_of : AppVolume → List VolumeDisk → VolState
state_of v disks = record { name = v.name; assigned = count_assigned disks; total = length disks }

unfoldable pub all_assigned : ℕ → List VolState → Bool
all_assigned n [] = true
all_assigned n (s ∷ states) = nat_eq s.assigned n && all_assigned n states

unfoldable pub insert_state : VolState → List VolState → List VolState
insert_state s [] = s ∷ []
insert_state s (t ∷ states) =
    let rest = insert_state s states in
    if is_lt (compare t.name s.name) then t ∷ rest else s ∷ t ∷ states

-- sort.Slice on the names, for the message.
unfoldable pub sort_states : List VolState → List VolState
sort_states [] = []
sort_states (s ∷ states) = insert_state s (sort_states states)

abbrev pub skip : String → BootstrapOutput
skip reason = record { created = []; skipped = true; reason = reason }

module _ {W : Type 0} (p : VolumePort W) (cluster : Cluster) (app : App) where
  unfoldable pub gather : List AppVolume → Action W Error (List VolState)
  gather [] = pure []
  gather (v ∷ volumes) = do
    disks ← wrapped (λ e. lookup_failed v.name (model e)) (p.disk_list cluster app v.name)
    rest ← gather volumes
    pure (state_of v disks ∷ rest)

  unfoldable pub create_one : CreateOptions → AppVolume → Action W Error VolumeDisk
  create_one o v = do
    disks ← wrapped (λ e. recheck_failed v.name (model e)) (p.disk_list cluster app v.name)
    require (nat_eq (count_assigned disks) 0) (concurrent_assignment v.name)
    disk ← wrapped (λ e. create_failed v.name (model e)) (p.disk_create cluster app v.name "" "" o)
    wrapped (λ e. assign_failed v.name (model e)) (p.disk_assign cluster app v.name disk.name)
    pure disk

  unfoldable pub create_all : CreateOptions → List AppVolume → Action W Error (List VolumeDisk)
  create_all o [] = pure []
  create_all o (v ∷ volumes) = do
    disk ← create_one o v
    rest ← create_all o volumes
    pure (disk ∷ rest)

  -- The switch over what the volumes have.
  unfoldable pub decide :
      CreateOptions → List AppVolume → List VolState → Action W Error BootstrapOutput
  decide o volumes states =
      if all_assigned 0 states
      then (do
        created ← create_all o volumes
        pure (record { created = created; skipped = false; reason = "" }))
      else if all_assigned 1 states
      then pure (skip "already initialized")
      else lift (err (invalid_state states))

  -- All that comes after the app is found, for its volumes.
  unfoldable pub bootstrap_volumes : CreateOptions → List AppVolume → Action W Error BootstrapOutput
  bootstrap_volumes o [] = pure (skip "no volumes defined")
  bootstrap_volumes o (v ∷ volumes) = do
    states ← gather (v ∷ volumes)
    decide o (v ∷ volumes) (sort_states states)

unfoldable pub disk_create_bootstrap :
    {W : Type 0} → Repos → VolumePort W → BootstrapInput → Action W Error BootstrapOutput
disk_create_bootstrap r p i = do
  require (given i.app_id) missing_parameters
  (cluster, app) ← owner r i.app_id
  bootstrap_volumes p cluster app (record { zone = i.zone; options = i.options }) app.volumes
