-- ===== src/Kom/Tests.antt =====
-- A project of one file, and instances of the theorems.
use kompox.Prelude.{
  ◌≡◌, refl, Option, some, [], ◌∷◌, All, ok, lookup, insert, is_slash, split_slash, join_slash,
  trim_slash, has_slash,
}
use kompox.Labels.Sample.{sample_label}
use kompox.Store.{create, get, next_id}
use kompox.Crd.Types.{Defaults, kind_eq}
use kompox.Crd.Fqn.{
  annotation_id, segments, pair_up, kind_segments, parent_fqn, last_name, kind_short_to_full,
  kind_full_to_short, expected_chain, check_chain, validate_parent_chain, check_pairs,
  parse_resource_id, validate_resource_id, extract_resource_id,
}
use kompox.Crd.Validator.{
  has_errors, kind_order, less, insert_document, sort_by_topology, is_empty, validate_box, seen_at,
  contains, segments_differ, check_document, round, rounds, validate,
}
use kompox.Crd.Sink.{
  empty, store_object, populate, new_sink, list_workspaces, list_providers, list_clusters,
  list_apps, list_boxes,
}
use kompox.Crd.Policy.{convert_policy}
use kompox.Crd.Convert.{
  level_of, is_valid_protection_level, convert_level, convert_protection,
  validate_app_deployment_spec, parse_volume_size, convert_volume, ref_base_of, convert_workspace,
  convert_provider, convert_cluster, convert_app, convert_box,
}
use kompox.Crd.Convert.Stores.{to_models}
use kompox.Crd.Convert.Closed.{IsClosed}
use kompox.Crd.Convert.Sample.{library}
use kompox.Crd.Loader.{
  LoaderResult, strings_of, kind_of, set_document_annotations, parse_object, parse_kind_document,
  decode_document, decode_all, load_file, visit, visit_all, load_directory, load,
}
use kompox.Crd.Loader.Sourcing.{IsSourced, load-IsSourced}
use kompox.Kom.{
  Mode, split_defaults, resources_of, count_apps, default_ids, load_app_file, load_all, enable,
  initialize_kom_mode, build_repos_from_kom,
}
use kompox.Kom.Scan.{collect_paths, find_kom_files}
use kompox.Kom.Sample.{structs, keeps, stream, files}
use kompox.Kom.Pipeline.{initialize-IsClosed}

all_of : Unit {0}
unfolding kind_order less insert_document sort_by_topology is_empty validate_box seen_at contains
    segments_differ check_document round rounds validate has_errors kind_eq segments pair_up
    kind_segments parent_fqn sample_label is_slash split_slash join_slash trim_slash has_slash
    store_object populate new_sink lookup insert last_name kind_short_to_full kind_full_to_short
    expected_chain check_chain validate_parent_chain check_pairs parse_resource_id
    validate_resource_id extract_resource_id list_workspaces list_providers list_clusters list_apps
    list_boxes convert_policy level_of is_valid_protection_level convert_level convert_protection
    validate_app_deployment_spec parse_volume_size convert_volume ref_base_of convert_workspace
    convert_provider convert_cluster convert_app convert_box to_models create get next_id strings_of
    kind_of set_document_annotations parse_object parse_kind_document decode_document decode_all
    load_file visit visit_all load_directory load split_defaults resources_of count_apps default_ids
    load_app_file load_all collect_paths find_kom_files enable initialize_kom_mode
    build_repos_from_kom
all_of = tt

abbrev result : LoaderResult
result = decode_all library.labels.is_label structs "kompoxapp.yml" 1 stream

read : load library.labels.is_label structs files "kompoxapp.yml" ≡ ok result
unfolding all_of
read = refl

load-IsSourced_example : All (IsSourced library.labels.is_label) result.documents
load-IsSourced_example =
    load-IsSourced library.labels.is_label structs keeps files "kompoxapp.yml" result read

abbrev given : Option Defaults
given = some (record {
  meta =
      set_document_annotations "kompoxapp.yml" 2
        (record { name = "d"; annotations = (annotation_id, "") ∷ [] });
  spec = record { kom_path = []; app_id = "" };
})

abbrev mode : Mode
mode = record {
  sink = populate empty (resources_of result.documents);
  kompox_app_file_path = "kompoxapp.yml";
  default_app_id = "/ws/w/prv/p/cls/c/app/a";
  default_cluster_id = "/ws/w/prv/p/cls/c";
}

enabled : initialize_kom_mode library structs files "kompoxapp.yml" [] ≡ ok (some mode)
unfolding all_of
enabled = refl

built : (build_repos_from_kom library structs files 0 mode).0 ≡ ok tt
unfolding all_of
built = refl

initialize-IsClosed_example : IsClosed (build_repos_from_kom library structs files 0 mode).1
initialize-IsClosed_example =
    initialize-IsClosed library structs files keeps 0 "kompoxapp.yml" [] mode enabled built
