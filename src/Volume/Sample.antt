-- ===== src/Volume/Sample.antt =====
-- A port on a world in memory, which is as `Driver` and `Keeper` say.
use mathlib.Core.Path.{subst}
use kompox.Prelude.{
  is_empty, ok_inj, some_inj, ◌+◌, ◌≡◌, ◌≢◌, refl, sym, ap, ◌∙◌, inl, inr, String, true, false,
  Option, none, some, List, [], ◌∷◌, ◌==◌, Bool-cases, Option-cases, ok, err, if◌then◌else◌, eq_iff,
  eq_refl, eq-false_of_ne, append,
}
use kompox.Crd.Types.{end}
use kompox.Domain.Model.{Cluster, App, not_supported}
use kompox.Volume.{VolumeDisk, VolumePort}
use kompox.Volume.Bootstrap.{count_assigned}
use kompox.Volume.Bootstrap.Assigned.{Driver}
use kompox.Volume.Deleting.{Holds, Keeper}

-- The disks of each volume.
abbrev pub World : Type 0
World = String → List VolumeDisk

abbrev pub set : String → List VolumeDisk → World → World
set v disks w u = if v == u then disks else w u

-- The first disk of a volume is assigned at once.
abbrev pub new_disk : String → String → List VolumeDisk → VolumeDisk
new_disk v name disks = record {
  name = if name == "" then append v "1" else name;
  volume_name = v;
  assigned = is_empty disks;
  size = 1;
  zone = "";
  options = end;
  handle = "";
  created_at = 1;
  updated_at = 1;
}

unfoldable pub unassign : List VolumeDisk → List VolumeDisk
unassign [] = []
unassign (d ∷ disks) = record d { assigned = false } ∷ unassign disks

-- The first disk of the name is assigned, and the others are not.
unfoldable pub assign_first : String → List VolumeDisk → Option (List VolumeDisk)
assign_first name [] = none
assign_first name (d ∷ disks) =
    let rest = assign_first name disks in
    if d.name == name
    then some (record d { assigned = true } ∷ unassign disks)
    else elim rest [ none ↦ none | some more ↦ some (record d { assigned = false } ∷ more) ]

unfoldable pub remove_named : String → List VolumeDisk → List VolumeDisk
remove_named name [] = []
remove_named name (d ∷ disks) =
    let rest = remove_named name disks in if d.name == name then rest else d ∷ rest

abbrev pub sample_port : VolumePort World
sample_port = record {
  disk_list = λ c a v w. (ok (w v), w);
  disk_create =
      λ c a v name source o w. (ok (new_disk v name (w v)), set v (new_disk v name (w v) ∷ w v) w);
  disk_delete = λ c a v name w. (ok tt, set v (remove_named name (w v)) w);
  disk_assign = λ c a v name w. elim (assign_first name (w v)) [
    | none ↦ (err not_supported, w)
    | some disks ↦ (ok tt, set v disks w)
  ];
  snapshot_list = λ c a v w. (ok [], w);
  snapshot_create = λ c a v name source w. (err not_supported, w);
  snapshot_delete = λ c a v name w. (err not_supported, w);
}

unassign-count : (disks : List VolumeDisk) → count_assigned (unassign disks) ≡ 0
unfolding unassign count_assigned
unassign-count [] = refl
unassign-count (d ∷ disks) = unassign-count disks

assign_first-count :
    (name : String) (disks after : List VolumeDisk)
    → assign_first name disks ≡ some after
    → count_assigned after ≡ 1
unfolding assign_first count_assigned
assign_first-count name [] after h = absurd (cc h)
assign_first-count name (d ∷ disks) after h = elim (Bool-cases (d.name == name)) [
  | inl here ↦
      sym (ap count_assigned (some_inj (rw (here, assign_first) at h)))
      ∙ ap (λ n. n + 1) (unassign-count disks)
  | inr other ↦ elim (Option-cases (assign_first name disks)) [
    | inl missing ↦ absurd (cc (rw (other, missing, assign_first) at h))
    | inr (more, found) ↦
        sym (ap count_assigned (some_inj (rw (other, found, assign_first) at h)))
        ∙ assign_first-count name disks more found
  ]
]

pub remove_named-Holds :
    (name : String) (disks : List VolumeDisk) (d : VolumeDisk)
    → d.name ≢ name
    → Holds d disks
    → Holds d (remove_named name disks)
unfolding remove_named
remove_named-Holds name [] d ne h = h
remove_named-Holds name (x ∷ disks) d ne h = elim (Bool-cases (x.name == name)) [
  | inl here ↦
      rw (here, remove_named)
        (elim h [
          | inl is ↦ absurd (ne (sym (ap (λ y. y.name) is) ∙ (eq_iff x.name name).0 here))
          | inr there ↦ remove_named-Holds name disks d ne there
        ])
  | inr other ↦
      rw (other, remove_named)
        (elim h [ inl is ↦ inl is | inr there ↦ inr (remove_named-Holds name disks d ne there) ])
]

pub set_other : (v u : String) (disks : List VolumeDisk) (w : World) → u ≢ v → set v disks w u ≡ w u
set_other v u disks w ne = rw (eq-false_of_ne v u (λ e. ne (sym e)), set) refl

pub set_self : (v : String) (disks : List VolumeDisk) (w : World) → set v disks w v ≡ disks
set_self v disks w = rw (eq_refl v, set) refl

pub assign_sets-sample :
    (c : Cluster) (a : App) (v name : String) (w : World)
    → (sample_port.disk_assign c a v name w).0 ≡ ok tt
    → count_assigned ((sample_port.disk_assign c a v name w).1 v) ≡ 1
assign_sets-sample c a v name w h = elim (Option-cases (assign_first name (w v))) [
  | inl missing ↦ absurd (cc (rw (missing, sample_port) at h))
  | inr (disks, found) ↦
      rw (found, sample_port)
        (ap count_assigned (set_self v disks w) ∙ assign_first-count name (w v) disks found)
]

pub assign_others-sample :
    (c : Cluster) (a : App) (v name : String) (w : World) (u : String)
    → u ≢ v
    → count_assigned ((sample_port.disk_assign c a v name w).1 u) ≡ count_assigned (w u)
assign_others-sample c a v name w u ne = elim (Option-cases (assign_first name (w v))) [
  | inl missing ↦ rw (missing, sample_port) refl
  | inr (disks, found) ↦ rw (found, sample_port) (ap count_assigned (set_other v u disks w ne))
]

abbrev pub sample_driver : Driver sample_port
sample_driver = record {
  assigned = λ c a v w. count_assigned (w v);
  list_keeps = λ c a v w. refl;
  list_shows = λ c a v w disks h. ap count_assigned (sym (ok_inj h));
  create_others = λ c a v name source o w u ne.
      ap count_assigned (set_other v u (new_disk v name (w v) ∷ w v) w ne);
  assign_sets = assign_sets-sample;
  assign_others = assign_others-sample;
}

abbrev pub sample_keeper : Keeper sample_port
sample_keeper = record {
  disks = λ c a v w. w v;
  list_keeps = λ c a v w. refl;
  list_shows = λ c a v w disks h. sym (ok_inj h);
  delete_others = λ c a v name w d ne h.
      subst (Holds d) (sym (set_self v (remove_named name (w v)) w))
        (remove_named-Holds name (w v) d ne h);
}
