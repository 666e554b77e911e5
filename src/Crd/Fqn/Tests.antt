-- ===== src/Crd/Fqn/Tests.antt =====
-- Resource IDs at work, and instances of the theorems.
use kompox.Prelude.{
  ◌≡◌, ◌↔◌, refl, String, ok, err, is_slash, split_slash, join_slash, trim_slash, has_slash,
}
use kompox.Labels.Sample.{sample, sample_label}
use kompox.Crd.Types.{provider, box, kind_eq}
use kompox.Crd.Fqn.{
  odd_segments, unknown_short, invalid_name, wrong_count, segments, pair_up, kind_segments,
  last_name, provider_name, box_name, parent_fqn, kind_short_to_full, kind_full_to_short,
  expected_chain, check_chain, validate_parent_chain, check_pairs, parse_resource_id,
  validate_resource_id, build_resource_id,
}
use kompox.Crd.Fqn.Parse.{IsPath, parse-eq-ok_iff}
use kompox.Crd.Fqn.Validate.{IsResource, validate-eq-ok_iff}
use kompox.Crd.Fqn.Build.{build-eq-ok_iff}
use kompox.Crd.Fqn.Names.{accessors, five_names, names, validate-accessors}

all_of : Unit {0}
unfolding segments pair_up kind_segments last_name provider_name box_name parent_fqn
    kind_short_to_full kind_full_to_short expected_chain check_chain validate_parent_chain
    check_pairs parse_resource_id validate_resource_id build_resource_id kind_eq sample_label
    is_slash split_slash join_slash trim_slash has_slash
all_of = tt

box_id :
    validate_resource_id sample.is_label "/ws/w/prv/p/cls/c/app/a/box/b" box "b"
    ≡ ok "/ws/w/prv/p/cls/c/app/a/box/b"
unfolding all_of
box_id = refl

parse_tests :
    (parse_resource_id sample.is_label "/ws/w/prv" ≡ err odd_segments)
    × (parse_resource_id sample.is_label "/ws/w/zone/z" ≡ err (unknown_short "zone"))
    × (parse_resource_id sample.is_label "/ws/W" ≡ err (invalid_name "W"))
    × (validate_resource_id sample.is_label "/prv/p" provider "p" ≡ err (wrong_count provider 2 1))
    × (parent_fqn "/ws/w/prv/p" ≡ "/ws/w")
    × (provider_name "/ws/w/prv/p/cls/c" ≡ "p")
    × (box_name "/ws/w/prv/p/cls/c" ≡ "")
unfolding all_of
parse_tests = (refl, refl, refl, refl, refl, refl, refl)

parse-eq-ok_iff_example :
    (parse_resource_id sample.is_label "/ws/w/prv/p" ≡ ok ("/ws/w/prv/p", provider))
    ↔ (◌≡◌ {A = String} "/ws/w/prv/p" "/ws/w/prv/p") × IsPath sample "/ws/w/prv/p" provider
parse-eq-ok_iff_example = parse-eq-ok_iff sample "/ws/w/prv/p" "/ws/w/prv/p" provider

validate-eq-ok_iff_example :
    (validate_resource_id sample.is_label "/ws/w/prv/p" provider "p" ≡ ok "/ws/w/prv/p")
    ↔ (◌≡◌ {A = String} "/ws/w/prv/p" "/ws/w/prv/p") × IsResource sample "/ws/w/prv/p" provider "p"
validate-eq-ok_iff_example = validate-eq-ok_iff sample "/ws/w/prv/p" "/ws/w/prv/p" provider "p"

build-eq-ok_iff_example :
    (build_resource_id sample.is_label "/ws/w" provider "p" ≡ ok "/ws/w/prv/p")
    ↔ (validate_resource_id sample.is_label "/ws/w/prv/p" provider "p" ≡ ok "/ws/w/prv/p")
      × (parent_fqn "/ws/w/prv/p" ≡ "/ws/w")
build-eq-ok_iff_example = build-eq-ok_iff sample "/ws/w" "/ws/w/prv/p" "p" provider

validate-accessors_example :
    accessors "/ws/w/prv/p/cls/c/app/a/box/b"
    ≡ five_names (names (kind_segments "/ws/w/prv/p/cls/c/app/a/box/b"))
validate-accessors_example =
    validate-accessors sample "/ws/w/prv/p/cls/c/app/a/box/b" box "b" box_id
