-- ===== src/Crd/Validator/Tests.antt =====
-- Validation of small sets of documents, and instances of the theorems.
use kompox.Prelude.{
  ◌+◌, ◌≡◌, ◌↔◌, refl, false, none, some, [], ◌∷◌, length, is_slash, split_slash, join_slash,
  trim_slash,
}
use kompox.Crd.Sample.{workspace_doc, provider_doc, two_docs}
use kompox.Labels.Sample.{sample, sample_label}
use kompox.Crd.Types.{kind_eq, Box}
use kompox.Crd.Fqn.{segments, pair_up, kind_segments, parent_fqn}
use kompox.Crd.Validator.{
  duplicate, no_parent, box_reserved, error_of, has_errors, kind_order, less, insert_document,
  sort_by_topology, is_empty, validate_box, seen_at, contains, segments_differ, check_document,
  round, rounds, validate,
}
use kompox.Crd.Validator.Spec.{WellFormed}
use kompox.Crd.Validator.Accepts.{validate_accepts_iff}
use kompox.Crd.Validator.Keeps.{validate-WellFormed, validate_partition}

abbrev reserved : Box
reserved = record {
  meta = record { name = "app"; annotations = [] };
  spec = record {
    component = "";
    image = "";
    command = [];
    args = [];
    ingress = false;
    network_policy = none;
  };
}

all_of : Unit {0}
unfolding kind_order less insert_document sort_by_topology is_empty validate_box seen_at contains
    segments_differ check_document round rounds validate has_errors kind_eq segments pair_up
    kind_segments parent_fqn sample_label is_slash split_slash join_slash trim_slash
all_of = tt

validate_tests :
    (validate sample.is_label two_docs
      ≡ record { valid_documents = workspace_doc ∷ provider_doc ∷ []; errors = [] })
    × ((validate sample.is_label (workspace_doc ∷ workspace_doc ∷ [])).errors
        ≡ error_of workspace_doc (duplicate 0) ∷ [])
    × ((validate sample.is_label (provider_doc ∷ [])).errors
        ≡ error_of provider_doc (no_parent "/ws/w") ∷ [])
    × (validate_box sample.is_label reserved ≡ some box_reserved)
unfolding all_of
validate_tests = (refl, refl, refl, refl)

validate_accepts_iff_example :
    ((validate sample.is_label two_docs).errors ≡ []) ↔ WellFormed sample.is_label two_docs
validate_accepts_iff_example = validate_accepts_iff sample.is_label two_docs (tt, (tt, tt))

validate-WellFormed_example :
    WellFormed sample.is_label
      (validate sample.is_label (provider_doc ∷ provider_doc ∷ workspace_doc ∷ [])).valid_documents
validate-WellFormed_example =
    validate-WellFormed sample.is_label (provider_doc ∷ provider_doc ∷ workspace_doc ∷ [])

partition_test :
    length (validate sample.is_label two_docs).valid_documents
      + length (validate sample.is_label two_docs).errors
    ≡ 2
partition_test = validate_partition sample.is_label two_docs
