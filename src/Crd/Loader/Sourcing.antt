-- ===== src/Crd/Loader/Sourcing.antt =====
-- The documents that the loader makes: their type, ID and annotations.
use kompox.Prelude.{
  ℕ, ◌≡◌, refl, sym, ap, ◌∙◌, inl, inr, String, Bool, true, false, not, ◌||◌, ◌+◌, Bool-cases,
  Option, none, some, some_inj, List, [], ◌∷◌, All, All-append, lookup, lookup-insert_self,
  lookup-insert_other, decimal, ◌==◌, ok, err, ok_inj, found, relabel, bind-eq-ok, guard_iff,
  Result, Result-cases,
}
use mathlib.Core.Path.{subst}
use kompox.Crd.Types.{
  Kind, workspace, provider, cluster, app, box, other, StringMap, Members, ObjectMeta, Workspace,
  Provider, Cluster, App, Box, Object, annotation_doc_path, annotation_doc_index,
}
use kompox.Crd.Fqn.{annotation_id, extract_resource_id, validate_resource_id}
use kompox.Crd.Sink.Storing.{object_kind}
use kompox.Crd.Convert.Sources.{object_meta, IsLoaded}
use kompox.Crd.Convert.Results.{relabel-ok}
use kompox.Crd.Loader.{
  no_metadata, no_name, bad_id, no_api_version, no_kind, bad_document, no_walk, LoadError, Loaded,
  resource, defaults, LoaderResult, Structs, FileSystem, field, as_string, as_object,
  annotations_of, kind_of, set_document_annotations, parse_object, parse_defaults, parse_resource,
  parse_kind_document, decode_document, add, decode_all, load_file, visit, visit_all,
  load_directory, load,
}

-- A struct's metadata are those of the map that it is copied from, as far as the loader reads them.
pub record HasMetadata (raw : Members) (m : ObjectMeta) : Type 0 where
  pub named :
      (metadata : Members) (name : String)
      → as_object (field "metadata" raw) ≡ some metadata
      → as_string (field "name" metadata) ≡ some name
      → m.name ≡ name
  pub identified :
      (metadata : Members) (id : String)
      → as_object (field "metadata" raw) ≡ some metadata
      → lookup annotation_id (annotations_of (as_object (field "annotations" metadata))) ≡ some id
      → lookup annotation_id m.annotations ≡ some id

-- What mapToStruct does: it keeps the metadata.
pub record KeepsMetadata (structs : Structs) : Type 0 where
  pub workspaces :
      (raw : Members) (w : Workspace) → structs.to_workspace raw ≡ some w → HasMetadata raw w.meta
  pub providers :
      (raw : Members) (p : Provider) → structs.to_provider raw ≡ some p → HasMetadata raw p.meta
  pub clusters :
      (raw : Members) (c : Cluster) → structs.to_cluster raw ≡ some c → HasMetadata raw c.meta
  pub apps : (raw : Members) (a : App) → structs.to_app raw ≡ some a → HasMetadata raw a.meta
  pub boxes : (raw : Members) (b : Box) → structs.to_box raw ≡ some b → HasMetadata raw b.meta

-- The annotations say which file, and which document of it.
abbrev pub HasPlace : String → ℕ → ObjectMeta → Type 0
HasPlace path i m =
    (lookup annotation_doc_path m.annotations ≡ some path)
    × (lookup annotation_doc_index m.annotations ≡ some (decimal i))

abbrev pub IsSourced : (String → Bool) → Loaded → Type 0
IsSourced is_label (resource d) =
    IsLoaded is_label d × HasPlace d.path d.index (object_meta d.object)
IsSourced is_label (defaults d path i) = HasPlace path i d.meta

annotated-HasPlace :
    (path : String) (i : ℕ) (m : ObjectMeta) → HasPlace path i (set_document_annotations path i m)
unfolding set_document_annotations
annotated-HasPlace path i m = (
  lookup-insert_other annotation_doc_index annotation_doc_path _ _ refl
      ∙ lookup-insert_self annotation_doc_path path m.annotations,
  lookup-insert_self annotation_doc_index _ _,
)

annotated-id :
    (path : String) (i : ℕ) (m : ObjectMeta)
    → lookup annotation_id (set_document_annotations path i m).annotations
      ≡ lookup annotation_id m.annotations
unfolding set_document_annotations
annotated-id path i m =
    lookup-insert_other annotation_doc_index annotation_id _ _ refl
    ∙ lookup-insert_other annotation_doc_path annotation_id _ _ refl

annotated-name :
    (path : String) (i : ℕ) (m : ObjectMeta) → (set_document_annotations path i m).name ≡ m.name
unfolding set_document_annotations
annotated-name path i m = refl

found-ok : {E A : Type 0} (o : Option A) (e : E) (a : A) → found o e ≡ ok a → o ≡ some a
found-ok (some b) e a h = ap some (ok_inj h)
found-ok none e a h = absurd (cc h)

module _ (is_label : String → Bool) where
  pub extract-inv :
      (kind : Kind) (name f : String) (annotations : StringMap)
      → extract_resource_id is_label kind name annotations ≡ ok f
      → (id : String) × (lookup annotation_id annotations ≡ some id)
        × (validate_resource_id is_label id kind name ≡ ok f)
  unfolding extract_resource_id
  extract-inv kind name f annotations h =
      let (id, there, valid) = bind-eq-ok (found (lookup annotation_id annotations) _) _ f h in
      (id, found-ok _ _ id there, valid)

  extract-of :
      (kind : Kind) (name f id : String) (annotations : StringMap)
      → lookup annotation_id annotations ≡ some id
      → validate_resource_id is_label id kind name ≡ ok f
      → extract_resource_id is_label kind name annotations ≡ ok f
  unfolding extract_resource_id
  extract-of kind name f id annotations there valid = rw there valid

module _ (is_label : String → Bool) (structs : Structs) (keeps : KeepsMetadata structs) where
  -- The object that parseKindDocument makes of a map.
  abbrev Made : Kind → Members → String → ℕ → Object → Type 0
  Made kind raw path i o =
      (object_kind o ≡ kind)
      × ((m : ObjectMeta) × HasMetadata raw m × (object_meta o ≡ set_document_annotations path i m))

  parse_object-Made :
      (kind : Kind) (raw : Members) (path : String) (i : ℕ) (o : Object)
      → parse_object is_label structs kind raw path i ≡ ok o
      → Made kind raw path i o
  unfolding parse_object
  parse_object-Made workspace raw path i o h =
      let (w, there, made) = bind-eq-ok (found (structs.to_workspace raw) _) _ o h in
      subst (Made workspace raw path i) (ok_inj made)
        (refl, (w.meta, keeps.workspaces raw w (found-ok _ _ w there), refl))
  parse_object-Made provider raw path i o h =
      let (p, there, made) = bind-eq-ok (found (structs.to_provider raw) _) _ o h in
      subst (Made provider raw path i) (ok_inj made)
        (refl, (p.meta, keeps.providers raw p (found-ok _ _ p there), refl))
  parse_object-Made cluster raw path i o h =
      let (c, there, made) = bind-eq-ok (found (structs.to_cluster raw) _) _ o h in
      subst (Made cluster raw path i) (ok_inj made)
        (refl, (c.meta, keeps.clusters raw c (found-ok _ _ c there), refl))
  parse_object-Made app raw path i o h =
      let (a, there, made) = bind-eq-ok (found (structs.to_app raw) _) _ o h in
      subst (Made app raw path i) (ok_inj made)
        (refl, (a.meta, keeps.apps raw a (found-ok _ _ a there), refl))
  parse_object-Made box raw path i o h =
      let (b, there, made) = bind-eq-ok (found (structs.to_box raw) _) _ o h in
      subst (Made box raw path i) (ok_inj made)
        (refl, (b.meta, keeps.boxes raw b (found-ok _ _ b there), refl))
  parse_object-Made (other kind) raw path i o h = absurd (cc h)

  parse_resource-IsSourced :
      (kind : Kind) (raw metadata : Members) (name path : String) (i : ℕ) (d : Loaded)
      → as_object (field "metadata" raw) ≡ some metadata
      → as_string (field "name" metadata) ≡ some name
      → parse_resource is_label structs kind raw name
          (annotations_of (as_object (field "annotations" metadata)))
          path
          i
        ≡ ok d
      → IsSourced is_label d
  parse_resource-IsSourced kind raw metadata name path i d in_raw in_metadata h =
      let annotations = annotations_of (as_object (field "annotations" metadata)) in
      let (f, extracted, h') =
        bind-eq-ok (relabel bad_id (extract_resource_id is_label kind name annotations)) _ d h in
      let (o, parsed, made) = bind-eq-ok (parse_object is_label structs kind raw path i) _ d h' in
      let (typed, described) = parse_object-Made kind raw path i o parsed in
      let (m, has, is) = described in
      let (id, there, valid) =
        extract-inv is_label kind name f annotations (relabel-ok bad_id _ f extracted) in
      let named = annotated-name path i m ∙ has.named metadata name in_raw in_metadata in
      let identified = annotated-id path i m ∙ has.identified metadata id in_raw there in
      subst (IsSourced is_label) (ok_inj made) (
        (
          sym typed,
          rw is (
              rw named (
                extract-of is_label kind name f id (set_document_annotations path i m).annotations
                  identified valid)),
        ),
        rw is (annotated-HasPlace path i m),
      )

  parse_defaults-IsSourced :
      (raw : Members) (path : String) (i : ℕ) (d : Loaded)
      → parse_defaults is_label structs raw path i ≡ ok d
      → IsSourced is_label d
  parse_defaults-IsSourced raw path i d h =
      let (x, _, made) = bind-eq-ok (found (structs.to_defaults raw) _) _ d h in
      subst (IsSourced is_label) (ok_inj made) (annotated-HasPlace path i x.meta)

  parse_kind_document-IsSourced :
      (raw : Members) (kind path : String) (i : ℕ) (d : Loaded)
      → parse_kind_document is_label structs raw kind path i ≡ ok d
      → IsSourced is_label d
  unfolding parse_kind_document
  parse_kind_document-IsSourced raw kind path i d h =
      let (metadata, in_raw, h1) =
        bind-eq-ok (found (as_object (field "metadata" raw)) no_metadata) _ d h in
      let (name, in_metadata, h2) =
        bind-eq-ok (found (as_string (field "name" metadata)) no_name) _ d h1 in
      let (_, h3) = (guard_iff (not (name == "")) no_name _ d).0 h2 in
      elim (Bool-cases (kind == "Defaults")) [
        | inl is ↦ parse_defaults-IsSourced raw path i d (rw is at h3)
        | inr differ ↦
            parse_resource-IsSourced (kind_of kind) raw metadata name path i d
              (found-ok _ _ metadata in_raw) (found-ok _ _ name in_metadata) (rw differ at h3)
      ]

  decode_document-IsSourced :
      (path : String) (i : ℕ) (x : Option Members) (d : Loaded)
      → decode_document is_label structs path i x ≡ ok (some d)
      → IsSourced is_label d
  unfolding decode_document
  decode_document-IsSourced path i none d h = absurd (cc h)
  decode_document-IsSourced path i (some Members.end) d h = absurd (cc h)
  decode_document-IsSourced path i (some (Members.member k v m)) d h =
      let raw = Members.member k v m in
      let (version, _, h1) =
        bind-eq-ok (found (as_string (field "apiVersion" raw)) (no_api_version i path)) _ (some d)
          h in
      let (kind, _, h2) =
        bind-eq-ok (found (as_string (field "kind" raw)) (no_kind i path)) _ (some d) h1 in
      elim (Bool-cases (version == "ops.kompox.dev/v1alpha1")) [
        | inl ours ↦
            let (e, parsed, made) =
              bind-eq-ok
                (relabel (bad_document i path)
                  (parse_kind_document is_label structs raw kind path i))
                _ (some d) (rw ours at h2) in
            parse_kind_document-IsSourced raw kind path i d
              (relabel-ok (bad_document i path) _ e parsed ∙ ap ok (some_inj (ok_inj made)))
        | inr foreign ↦ absurd (cc (rw foreign at h2))
      ]

  add-IsSourced :
      (path : String) (i : ℕ) (x : Option Members) (y : Result LoadError (Option Loaded))
      (r : LoaderResult)
      → decode_document is_label structs path i x ≡ y
      → All (IsSourced is_label) r.documents
      → All (IsSourced is_label) (add y r).documents
  add-IsSourced path i x (ok none) r h rest = rest
  add-IsSourced path i x (ok (some d)) r h rest = (decode_document-IsSourced path i x d h, rest)
  add-IsSourced path i x (err e) r h rest = rest

  decode_all-IsSourced :
      (path : String) (i : ℕ) (xs : List (Option Members))
      → All (IsSourced is_label) (decode_all is_label structs path i xs).documents
  unfolding decode_all
  decode_all-IsSourced path i [] = tt
  decode_all-IsSourced path i (x ∷ xs) =
      add-IsSourced path i x (decode_document is_label structs path i x) _ refl
        (decode_all-IsSourced path (i + 1) xs)

  module _ (files : FileSystem) where
    load_file-IsSourced :
        (path : String) (r : LoaderResult)
        → load_file is_label structs files path ≡ ok r
        → All (IsSourced is_label) r.documents
    unfolding load_file
    load_file-IsSourced path r h =
        let ((size, stream), _, h') = bind-eq-ok (found (files.open_file path) _) _ r h in
        subst (λ s. All (IsSourced is_label) s.documents) (ok_inj ((guard_iff _ _ _ r).0 h').1)
          (decode_all-IsSourced path 1 stream)

    visit-IsSourced :
        (v : String × Option Bool)
        → All (IsSourced is_label) (visit is_label structs files v).documents
    unfolding visit
    visit-IsSourced (path, none) = tt
    visit-IsSourced (path, some true) = tt
    visit-IsSourced (path, some false) =
        elim (Bool-cases
          (files.lower (files.ext path) == ".yml" || files.lower (files.ext path) == ".yaml")) [
            | inl yaml ↦ rw yaml (elim (Result-cases (load_file is_label structs files path)) [
              | inl (r, is) ↦ rw is (load_file-IsSourced path r is)
              | inr (e, is) ↦ rw is tt
            ])
            | inr skipped ↦ rw skipped tt
          ]

    visit_all-IsSourced :
        (visits : List (String × Option Bool))
        → All (IsSourced is_label) (visit_all is_label structs files visits).documents
    unfolding visit_all
    visit_all-IsSourced [] = tt
    visit_all-IsSourced (v ∷ visits) =
        All-append (IsSourced is_label) (visit is_label structs files v).documents
          (visit_all is_label structs files visits).documents (visit-IsSourced v)
          (visit_all-IsSourced visits)

    -- If copying a map into a struct keeps the metadata that the map has, every resource that Load
    -- returns, from a file or a directory, has an object of its kind's type, the ID that the
    -- object's annotations give, valid for its kind and name, and annotations that name its file
    -- and its number there. So do the annotations of a Defaults document.
    pub load-IsSourced :
        (path : String) (r : LoaderResult)
        → load is_label structs files path ≡ ok r
        → All (IsSourced is_label) r.documents
    unfolding load load_directory
    load-IsSourced path r h =
        let ((directory, size), _, h') = bind-eq-ok (found (files.stat path) _) _ r h in
        elim (Bool-cases directory) [
          | inl is ↦
              let (visits, _, made) =
                bind-eq-ok (relabel no_walk (files.walk path)) _ r (rw is at h') in
              subst (λ s. All (IsSourced is_label) s.documents) (ok_inj made)
                (visit_all-IsSourced visits)
          | inr file ↦ load_file-IsSourced path r (rw file at h')
        ]
