-- ===== src/Crd/Sink/Tests.antt =====
-- A sink of two documents, and instances of the theorems.
use kompox.Prelude.{
  ◌≡◌, ◌↔◌, refl, none, [], ◌∷◌, length, All, lookup, insert, ok, is_slash, split_slash, join_slash,
  trim_slash,
}
use kompox.Labels.Sample.{sample, sample_label}
use kompox.Crd.Types.{kind_eq}
use kompox.Crd.Fqn.{segments, pair_up, kind_segments, parent_fqn}
use kompox.Crd.Validator.{
  has_errors, kind_order, less, insert_document, sort_by_topology, is_empty, validate_box, seen_at,
  contains, segments_differ, check_document, round, rounds, validate,
}
use kompox.Crd.Validator.Spec.{WellFormed}
use kompox.Crd.Sample.{workspace_doc, provider_doc, two_docs}
use kompox.Crd.Sink.{
  Sink, empty, store_object, populate, new_sink, get_provider, list_workspaces, count,
}
use kompox.Crd.Sink.Storing.{Holds}
use kompox.Crd.Sink.Contents.{new_sink_succeeds_iff, new_sink-contents}

all_of : Unit {0}
unfolding kind_order less insert_document sort_by_topology is_empty validate_box seen_at contains
    segments_differ check_document round rounds validate has_errors kind_eq segments pair_up
    kind_segments parent_fqn sample_label is_slash split_slash join_slash trim_slash store_object
    populate new_sink get_provider list_workspaces count lookup insert
all_of = tt

abbrev two_in : Sink
two_in = populate empty (workspace_doc ∷ provider_doc ∷ [])

new_sink_test : new_sink sample.is_label two_docs ≡ ok two_in
unfolding all_of
new_sink_test = refl

lookup_tests : (get_provider two_in "/ws/w" ≡ none) × (length (list_workspaces two_in) ≡ 1)
unfolding all_of
lookup_tests = (refl, refl)

new_sink_succeeds_iff_example :
    ((s : Sink) × (new_sink sample.is_label two_docs ≡ ok s)) ↔ WellFormed sample.is_label two_docs
new_sink_succeeds_iff_example = new_sink_succeeds_iff sample.is_label two_docs (tt, (tt, tt))

new_sink-contents_example :
    All (λ d. Holds two_in d.fqn d.object) two_docs × (count two_in ≡ length two_docs)
new_sink-contents_example =
    new_sink-contents sample.is_label two_docs two_in (tt, (tt, tt)) (refl, (refl, tt))
      new_sink_test
