-- ===== src/Naming/Tests.antt =====
-- Names of volumes and disks, and an instance of the theorem.
use Prim.Native.String.{len}
use kompox.Prelude.{◌≤◌, ◌≡◌, ◌↔◌, refl, true, ok, err}
use kompox.Labels.Sample.{sample, sample_label}
use kompox.Naming.{
  empty_name, too_long, not_label, validate_dns1123_label, validate_volume_name, validate_disk_name,
  validate_snapshot_name, names-eq-ok_iff,
}

name_tests :
    (validate_volume_name sample.is_label "" ≡ err (empty_name "volume"))
    × (validate_volume_name sample.is_label "a0123456789abcdef" ≡ err (too_long "volume"))
    × (validate_disk_name sample.is_label "a0123456789abcdef" ≡ ok tt)
    × (validate_snapshot_name sample.is_label "A" ≡ err (not_label "snapshot"))
unfolding validate_dns1123_label validate_volume_name validate_disk_name validate_snapshot_name
    sample_label
name_tests = (refl, refl, refl, refl)

names-eq-ok_iff_example :
    ((validate_volume_name sample.is_label "data" ≡ ok tt)
      ↔ (len "data" ≤ 16) × (sample.is_label "data" ≡ true))
    × ((validate_disk_name sample.is_label "data" ≡ ok tt)
        ↔ (len "data" ≤ 24) × (sample.is_label "data" ≡ true))
    × ((validate_snapshot_name sample.is_label "data" ≡ ok tt)
        ↔ (len "data" ≤ 24) × (sample.is_label "data" ≡ true))
names-eq-ok_iff_example = names-eq-ok_iff sample "data"
