-- ===== src/Naming.antt =====
-- internal/naming/validation.go: the checks of the names of volumes, disks and snapshots.
pub mod Hashes
mod Tests
use Prim.Native.String.{len}
use kompox.Prelude.{
  ℕ, ◌+◌, ◌≤◌, ◌≡◌, ◌≢◌, ◌↔◌, String, Bool, true, false, not, ltb, leb, Result, ok, err, guard,
  ◌>>=◌, ◌>>◌, ◌==◌, eq_iff, arith, if◌then◌else◌,
}
use kompox.Labels.{LabelRules}

-- `len` counts the bytes of the UTF-8 encoding, as Go's does. The text
-- of labelKind stays with the error.
pub data NameError : Type 0 where
  empty_name too_long not_label : String → NameError

module _ (is_label : String → Bool) where
  unfoldable pub validate_dns1123_label : String → ℕ → String → Result NameError (Unit {0})
  validate_dns1123_label name maximum kind = do
    guard (not (name == "")) (empty_name kind)
    guard (leb (len name) maximum) (too_long kind)
    guard (is_label name) (not_label kind)

  unfoldable pub validate_volume_name : String → Result NameError (Unit {0})
  validate_volume_name name = validate_dns1123_label name 16 "volume"

  unfoldable pub validate_disk_name : String → Result NameError (Unit {0})
  validate_disk_name name = validate_dns1123_label name 24 "disk"

  unfoldable pub validate_snapshot_name : String → Result NameError (Unit {0})
  validate_snapshot_name name = validate_dns1123_label name 24 "snapshot"

  pub label-eq-ok_iff :
      (name kind : String) (maximum : ℕ)
      → (validate_dns1123_label name maximum kind ≡ ok tt)
        ↔ (name ≢ "") × (len name ≤ maximum) × (is_label name ≡ true)
  unfolding validate_dns1123_label
  label-eq-ok_iff name kind maximum = (
    λ h. (λ empty. absurd (ground (arith, eq_iff name "")), ground arith, ground arith),
    λ (named, short, label). ground (arith, eq_iff name ""),
  )

module _ (rules : LabelRules) where
  label-rules_iff :
      (name kind : String) (maximum : ℕ)
      → (validate_dns1123_label rules.is_label name maximum kind ≡ ok tt)
        ↔ (len name ≤ maximum) × (rules.is_label name ≡ true)
  label-rules_iff name kind maximum =
      let (to, from) = label-eq-ok_iff rules.is_label name kind maximum in
      (
        λ h. let (_, short, label) = to h in (short, label),
        λ (short, label). from (rules.non_empty name label, short, label),
      )

  -- The names of volumes that the code takes are the labels of at most 16 bytes, and those of disks
  -- and of snapshots the labels of at most 24.
  pub names-eq-ok_iff :
      (name : String)
      → ((validate_volume_name rules.is_label name ≡ ok tt)
          ↔ (len name ≤ 16) × (rules.is_label name ≡ true))
        × ((validate_disk_name rules.is_label name ≡ ok tt)
            ↔ (len name ≤ 24) × (rules.is_label name ≡ true))
        × ((validate_snapshot_name rules.is_label name ≡ ok tt)
            ↔ (len name ≤ 24) × (rules.is_label name ≡ true))
  unfolding validate_volume_name validate_disk_name validate_snapshot_name
  names-eq-ok_iff name = (
    label-rules_iff name "volume" 16,
    label-rules_iff name "disk" 24,
    label-rules_iff name "snapshot" 24,
  )
