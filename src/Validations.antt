-- ===== src/Validations.antt =====
-- usecase/app/validations.go: the issues that validating an app finds, and whether each of its
-- volumes can be bound to a disk.
pub mod Bound
mod Tests
use kompox.Prelude.{
  ℕ, ◌+◌, String, Char, code, Bool, true, false, not, ◌&&◌, ◌||◌, Option, none, some, List, [], ◌∷◌,
  ◌++◌, length, leb, nat_eq, decimal, Result, ok, err, if◌then◌else◌, ◌==◌,
}
use kompox.Domain.Model.{Cluster, App, AppVolume}
use kompox.Domain.Model
use kompox.Prelude.Actions.{Action}
use kompox.Volume.{VolumeDisk, VolumePort}

-- "ERROR", "WARN", "INFO", or any other text.
pub data Severity : Type 0 where
  error warn info : Severity
  other : String → Severity

unfoldable pub severity_eq : Severity → Severity → Bool
severity_eq error error = true
severity_eq warn warn = true
severity_eq info info = true
severity_eq (other s) (other t) = s == t
severity_eq _ _ = false

-- A message is the list of the pieces that are formatted into it, and the error that ends it.
pub record Issue : Type 0 where
  pub severity : Severity
  pub code : String
  pub message : List String
  pub cause : Option Model.Error

unfoldable pub severity_weight : Severity → ℕ
severity_weight error = 2
severity_weight warn = 1
severity_weight info = 0
severity_weight (other s) = 1

unfoldable pub has_issues_at_or_above : List Issue → Severity → Bool
has_issues_at_or_above [] threshold = false
has_issues_at_or_above (i ∷ issues) threshold =
    if leb (severity_weight threshold) (severity_weight i.severity)
    then true
    else has_issues_at_or_above issues threshold

-- The counts of the others, of warnings and of errors.
unfoldable pub count_issues_by_severity : List Issue → ℕ × ℕ × ℕ
count_issues_by_severity [] = (0, 0, 0)
count_issues_by_severity (i ∷ issues) =
    let (others, warns, errs) = count_issues_by_severity issues in
    elim i.severity [
      | error ↦ (others, warns, errs + 1)
      | warn ↦ (others, warns + 1, errs)
      | _ ↦ (others + 1, warns, errs)
    ]

-- The issues whose messages are returned.
unfoldable pub issue_messages_by_severity : List Issue → Severity → List Issue
issue_messages_by_severity [] target = []
issue_messages_by_severity (i ∷ issues) target =
    let rest = issue_messages_by_severity issues target in
    if severity_eq i.severity target then i ∷ rest else rest

-- The loop at the end of Validate: errors, and all others. The code keeps the messages of these.
unfoldable pub split_issues : List Issue → List Issue × List Issue
split_issues [] = ([], [])
split_issues (i ∷ issues) =
    let (errors, warnings) = split_issues issues in
    elim i.severity [ error ↦ (i ∷ errors, warnings) | _ ↦ (errors, i ∷ warnings) ]

-- unicode.IsSpace.
unfoldable pub is_space : Char → Bool
is_space c =
    let n = code c in
    leb 9 n && leb n 13
    || nat_eq n 32
    || nat_eq n 133
    || nat_eq n 160
    || nat_eq n 5760
    || leb 8192 n && leb n 8202
    || nat_eq n 8232
    || nat_eq n 8233
    || nat_eq n 8239
    || nat_eq n 8287
    || nat_eq n 12288

-- `strings.TrimSpace(s) == ""`
unfoldable pub is_blank : String → Bool
is_blank String.[] = true
is_blank (String.◌∷◌ c s) = is_space c && is_blank s

pub record VolumeClass : Type 0 where
  pub csi_driver : String
  pub storage_class_name : String

-- The driver of the cluster's provider, as far as volumes are concerned; it may be missing.
pub record Driver (W : Type 0) : Type 0 where
  pub volume_class : Cluster → App → AppVolume → Action W Model.Error VolumeClass

pub record VolumeBinding : Type 0 where
  pub name : String
  pub volume_disk : VolumeDisk
  pub volume_class : VolumeClass

abbrev issue : Severity → String → List String → Result Issue VolumeBinding
issue severity code message =
    err (record { severity = severity; code = code; message = message; cause = none })

abbrev failure : Severity → String → List String → Model.Error → Result Issue VolumeBinding
failure severity code message e =
    err (record { severity = severity; code = code; message = message; cause = some e })

-- The loop over the disks.
unfoldable pub assigned_disks : List VolumeDisk → List VolumeDisk
assigned_disks [] = []
assigned_disks (d ∷ disks) =
    let rest = assigned_disks disks in if d.assigned then d ∷ rest else rest

abbrev bind_class :
    AppVolume → VolumeDisk → Result Model.Error VolumeClass → Result Issue VolumeBinding
bind_class v disk (err e) =
    failure warn "volume_class_resolve_failed"
      ("compose conversion failed: volume class resolve failed for " ∷ v.name ∷ ": " ∷ []) e
bind_class v disk (ok class) =
    if is_blank class.csi_driver
    then issue warn "volume_class_missing_driver"
        ("compose conversion failed: volume class missing CSI driver for " ∷ v.name ∷ [])
    else ok (record { name = v.name; volume_disk = disk; volume_class = class })

-- `ready`: how many places have a binding.
unfoldable pub count_ready : List (Option VolumeBinding) → ℕ
count_ready [] = 0
count_ready (none ∷ bindings) = count_ready bindings
count_ready (some b ∷ bindings) = count_ready bindings + 1

module _ {W : Type 0} where
  abbrev bind_disk :
      Option (Driver W)
      → Cluster
      → App
      → AppVolume
      → VolumeDisk
      → W
      → Result Issue VolumeBinding × W
  bind_disk driver c a v disk w =
      if is_blank disk.handle
      then (
        issue error "volume_disk_handle_missing"
            ("no assigned disk handle for volume " ∷ v.name ∷ []),
        w,
      )
      else elim driver [
        | none ↦ (
          issue warn "volume_class_driver_missing" (
              "compose conversion failed: provider driver unavailable for volume class resolution"
              ∷ []),
          w,
        )
        | some d ↦ let (class, w') = d.volume_class c a v w in (bind_class v disk class, w')
      ]

  abbrev bind_assigned :
      Option (Driver W)
      → Cluster
      → App
      → AppVolume
      → List VolumeDisk
      → W
      → Result Issue VolumeBinding × W
  bind_assigned driver c a v [] w = (
    issue warn "volume_assignment_missing"
        ("volume assignment missing (count=0) volume=" ∷ v.name ∷ []),
    w,
  )
  bind_assigned driver c a v (disk ∷ []) w = bind_disk driver c a v disk w
  bind_assigned driver c a v (disk ∷ next ∷ more) w = (
    issue error "volume_assignment_invalid" (
        "volume assignment invalid (count="
        ∷ decimal (length (disk ∷ next ∷ more))
        ∷ ") volume="
        ∷ v.name
        ∷ []),
    w,
  )

  -- One round: an issue, or a binding. A listing holds no nil disks, which the code skips.
  unfoldable pub bind_volume :
      Option (VolumePort W)
      → Option (Driver W)
      → Cluster
      → App
      → AppVolume
      → W
      → Result Issue VolumeBinding × W
  bind_volume none driver c a v w =
      (issue error "volume_port_unavailable" ("volume operations unavailable" ∷ []), w)
  bind_volume (some port) driver c a v w =
      let (listed, w') = port.disk_list c a v.name w in
      elim listed [
        | err e ↦ (
          failure error "volume_disk_lookup_failed"
              ("volume disk lookup failed for " ∷ v.name ∷ ": " ∷ []) e,
          w',
        )
        | ok disks ↦ bind_assigned driver c a v (assigned_disks disks) w'
      ]

  -- The loop: the bindings by place (nil where there is none), and the issues.
  unfoldable pub bind_volumes :
      Option (VolumePort W)
      → Option (Driver W)
      → Cluster
      → App
      → List AppVolume
      → W
      → (List (Option VolumeBinding) × List Issue) × W
  bind_volumes port driver c a [] w = (([], []), w)
  bind_volumes port driver c a (v ∷ volumes) w =
      let (bound, w') = bind_volume port driver c a v w in
      let ((bindings, issues), w'') = bind_volumes port driver c a volumes w' in
      (
        elim bound [ ok b ↦ (some b ∷ bindings, issues) | err i ↦ (none ∷ bindings, i ∷ issues) ],
        w'',
      )

  -- The bindings, the issues, and whether all volumes are bound.
  unfoldable pub validate_app_volumes :
      Option (VolumePort W)
      → Option (Driver W)
      → Cluster
      → App
      → W
      → (List (Option VolumeBinding) × List Issue × Bool) × W
  validate_app_volumes port driver c a w =
      let ((bindings, issues), w') = bind_volumes port driver c a a.volumes w in
      (
        if nat_eq (count_ready bindings) (length a.volumes)
            then (bindings, issues, true)
            else ([], issues, false),
        w',
      )
