-- ===== src/Crd/Convert/Tests.antt =====
-- The sample converted, and instances of the theorems.
use kompox.Prelude.{
  ◌≡◌, ◌↔◌, refl, [], ◌∷◌, All, lookup, insert, ok, is_slash, split_slash, join_slash, trim_slash,
  has_slash, map, String,
}
use kompox.Labels.Sample.{sample, sample_label}
use kompox.Domain.Model
use kompox.Store.{create, get, next_id, list, app_entity}
use kompox.Store.Memory.{new_store}
use kompox.Crd.Types.{kind_eq}
use kompox.Crd.Fqn.{
  segments, pair_up, kind_segments, parent_fqn, last_name, kind_short_to_full, kind_full_to_short,
  expected_chain, check_chain, validate_parent_chain, check_pairs, parse_resource_id,
  validate_resource_id, extract_resource_id,
}
use kompox.Crd.Validator.{
  has_errors, kind_order, less, insert_document, sort_by_topology, is_empty, validate_box, seen_at,
  contains, segments_differ, check_document, round, rounds, validate,
}
use kompox.Crd.Sink.{
  Sink, empty, store_object, populate, new_sink, list_workspaces, list_providers, list_clusters,
  list_apps, list_boxes,
}
use kompox.Crd.Policy.{
  convert_expression, convert_selector, convert_peer, convert_port, convert_rule, convert_policy,
}
use kompox.Crd.Convert.{
  level_of, is_valid_protection_level, convert_level, convert_protection,
  validate_app_deployment_spec, parse_volume_size, convert_volume, ref_base_of, convert_workspace,
  convert_provider, convert_cluster, convert_app, convert_box,
}
use kompox.Crd.Convert.Stores.{to_models, in_memory}
use kompox.Crd.Convert.Integrity.{IsConverted, to_models-IsConverted}
use kompox.Crd.Convert.Closed.{IsClosed, to_models-IsClosed}
use kompox.Crd.Convert.Success.{AllAccepted, to_models_succeeds_iff}
use kompox.Crd.Convert.Facts.{Loaded}
use kompox.Crd.Convert.Sample.{library, docs}

all_of : Unit {0}
unfolding kind_order less insert_document sort_by_topology is_empty validate_box seen_at contains
    segments_differ check_document round rounds validate has_errors kind_eq segments pair_up
    kind_segments parent_fqn sample_label is_slash split_slash join_slash trim_slash has_slash
    store_object populate new_sink lookup insert last_name kind_short_to_full kind_full_to_short
    expected_chain check_chain validate_parent_chain check_pairs parse_resource_id
    validate_resource_id extract_resource_id list_workspaces list_providers list_clusters list_apps
    list_boxes convert_expression convert_selector convert_peer convert_port convert_rule
    convert_policy level_of is_valid_protection_level convert_level convert_protection
    validate_app_deployment_spec parse_volume_size convert_volume ref_base_of convert_workspace
    convert_provider convert_cluster convert_app convert_box to_models create get next_id list
all_of = tt

abbrev sink : Sink
sink = populate empty docs

made : new_sink sample.is_label docs ≡ ok sink
unfolding all_of
made = refl

loaded : All (Loaded library) docs
unfolding all_of
loaded = ((refl, refl), ((refl, refl), ((refl, refl), ((refl, refl), ((refl, refl), tt)))))

converted : (to_models library (in_memory 0) "/srv/app.yml" sink new_store).0 ≡ ok tt
unfolding all_of
converted = refl

stored_tests :
    map {B = String × String}
      (λ (a : Model.App). (a.cluster_id, a.ref_base))
      (list (to_models library (in_memory 0) "/srv/app.yml" sink new_store).1.apps)
    ≡ ("/ws/w/prv/p/cls/c", "file:///srv/") ∷ []
unfolding all_of
stored_tests = refl

to_models-IsConverted_example :
    IsConverted library 0 "/srv/app.yml" sink
      (to_models library (in_memory 0) "/srv/app.yml" sink new_store).1
to_models-IsConverted_example =
    to_models-IsConverted library 0 "/srv/app.yml" docs sink loaded made converted

to_models-IsClosed_example :
    IsClosed (to_models library (in_memory 0) "/srv/app.yml" sink new_store).1
to_models-IsClosed_example =
    to_models-IsClosed library 0 "/srv/app.yml" docs sink loaded made converted

to_models_succeeds_iff_example :
    ((to_models library (in_memory 0) "/srv/app.yml" sink new_store).0 ≡ ok tt)
    ↔ AllAccepted library 0 "/srv/app.yml" docs sink
to_models_succeeds_iff_example =
    to_models_succeeds_iff library 0 "/srv/app.yml" docs sink loaded made
