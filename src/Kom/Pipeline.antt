-- ===== src/Kom/Pipeline.antt =====
-- From files to repositories: what holds of the documents of a project once they are loaded.
use kompox.Prelude.{
  ℕ, ◌≡◌, refl, sym, inl, inr, Bool-cases, Option-cases, ◌>>=◌, ◌==◌, ap, ◌∙◌, String, Option, none,
  some, List, [], ◌∷◌, ◌++◌, All, All-append, Result, ok, ok_inj, some_inj, relabel, bind-eq-ok,
  guard_iff,
}
use mathlib.Core.Path.{subst}
use kompox.Crd.Types.{Defaults, Document}
use kompox.Crd.Sink.{new_sink}
use kompox.Crd.Loader.{Loaded, resource, defaults, LoaderResult, Structs, FileSystem, load}
use kompox.Crd.Loader.Sourcing.{KeepsMetadata, IsSourced, load-IsSourced}
use kompox.Crd.Convert.{Library}
use kompox.Crd.Convert.Facts
use kompox.Crd.Convert.Closed.{IsClosed, to_models-IsClosed}
use kompox.Crd.Convert.Results.{relabel-ok}
use kompox.Kom.Scan.{find_kom_files}
use kompox.Kom.{
  KomError, Mode, split_defaults, resources_of, default_ids, app_documents, load_app_file, load_all,
  enable, initialize_kom_mode, build_repos_from_kom,
}

pub split_defaults-resources :
    (path : String) (seen : Option Defaults) (docs : List Loaded) (given : Option Defaults)
    (rest : List Document)
    → split_defaults path seen docs ≡ ok (given, rest)
    → rest ≡ resources_of docs
unfolding split_defaults resources_of
split_defaults-resources path seen [] given rest h = sym (ap (λ p. p.1) (ok_inj h))
split_defaults-resources path seen (resource d ∷ docs) given rest h =
    let ((g, more), split, made) = bind-eq-ok (split_defaults path seen docs) _ (given, rest) h in
    sym (ap (λ p. p.1) (ok_inj made))
    ∙ ap (λ t. d ∷ t) (split_defaults-resources path seen docs g more split)
split_defaults-resources path none (defaults d p i ∷ docs) given rest h =
    split_defaults-resources path (some d) docs given rest h
split_defaults-resources path (some e) (defaults d p i ∷ docs) given rest h = absurd (cc h)

module _ (lib : Library) (structs : Structs) (files : FileSystem) where
  abbrev AllSourced : List Loaded → Type 0
  AllSourced docs = All (IsSourced lib.labels.is_label) docs

  abbrev pub AllLoaded : List Document → Type 0
  AllLoaded docs = All (Facts.Loaded lib) docs

  resources-AllLoaded : (docs : List Loaded) → AllSourced docs → AllLoaded (resources_of docs)
  unfolding resources_of
  resources-AllLoaded [] h = tt
  resources-AllLoaded (resource d ∷ docs) ((loaded, _), h) = (loaded, resources-AllLoaded docs h)
  resources-AllLoaded (defaults d p i ∷ docs) (_, h) = resources-AllLoaded docs h

  -- What initializeKOMMode does where it enables KOM mode.
  pub record Enabled (app_path : String) (given : Option Defaults) (app_docs docs : List Document)
      (mode : Mode) : Type 0 where
    pub app_file : load_app_file lib structs files app_path ≡ ok (given, app_docs)
    pub others : (more : List Document) × (docs ≡ more ++ app_docs)
    pub loaded : AllLoaded docs
    pub indexed : new_sink lib.labels.is_label docs ≡ ok mode.sink
    pub ids :
        default_ids lib structs files given app_docs
        ≡ ok (mode.default_app_id, mode.default_cluster_id)

  enable-Enabled :
      (app_path : String) (given : Option Defaults) (app_docs more docs : List Document)
      (mode : Mode)
      → load_app_file lib structs files app_path ≡ ok (given, app_docs)
      → docs ≡ more ++ app_docs
      → AllLoaded docs
      → enable lib structs files app_path given app_docs docs ≡ ok (some mode)
      → Enabled app_path given app_docs docs mode
  unfolding enable
  enable-Enabled app_path given app_docs more [] mode first parts loaded h = absurd (cc h)
  enable-Enabled app_path given app_docs more (d ∷ docs) mode first parts loaded h =
      let (s, made, h1) =
        bind-eq-ok (relabel KomError.not_valid (new_sink lib.labels.is_label (d ∷ docs))) _
          (some mode) h in
      let ((a, c), ids, h2) =
        bind-eq-ok (default_ids lib structs files given app_docs) _ (some mode) h1 in
      subst (Enabled app_path given app_docs (d ∷ docs)) (some_inj (ok_inj h2)) (record {
        app_file = first;
        others = (more, parts);
        loaded = loaded;
        indexed = relabel-ok KomError.not_valid _ s made;
        ids = ids;
      })

  module _ (keeps : KeepsMetadata structs) where
    app_documents-AllLoaded :
        (path : String) (given : Option Defaults) (docs : List Document)
        → relabel (KomError.not_loaded path) (load lib.labels.is_label structs files path)
            >>= app_documents lib structs files path
          ≡ ok (given, docs)
        → AllLoaded docs
    app_documents-AllLoaded path given docs h =
        let (r, loaded, h1) =
          bind-eq-ok
            (relabel (KomError.not_loaded path) (load lib.labels.is_label structs files path)) _
            (given, docs) h in
        let (_, split) = (guard_iff _ _ _ (given, docs)).0 h1 in
        subst AllLoaded (sym (split_defaults-resources path none r.documents given docs split)) (
          resources-AllLoaded r.documents (
            load-IsSourced lib.labels.is_label structs keeps files path r
              (relabel-ok (KomError.not_loaded path) _ r loaded)))

    nothing :
        {given : Option Defaults} {docs : List Document}
        → ◌≡◌ {A = Result KomError (Option Defaults × List Document)}
            (ok (none, []))
            (ok (given, docs))
        → AllLoaded docs
    nothing h = subst AllLoaded (ap (λ p. p.1) (ok_inj h)) tt

    load_app_file-AllLoaded :
        (path : String) (given : Option Defaults) (docs : List Document)
        → load_app_file lib structs files path ≡ ok (given, docs)
        → AllLoaded docs
    unfolding load_app_file
    load_app_file-AllLoaded path given docs h = elim (Bool-cases (path == "")) [
      | inl empty ↦ nothing (rw empty at h)
      | inr named ↦ elim (Option-cases (files.stat path)) [
        | inl missing ↦ nothing (rw (named, missing) at h)
        | inr (info, there) ↦ app_documents-AllLoaded path given docs (rw (named, there) at h)
      ]
    ]

    load_all-AllSourced :
        (paths : List String) (r : LoaderResult)
        → load_all lib structs files paths ≡ ok r
        → AllSourced r.documents
    unfolding load_all
    load_all-AllSourced [] r h = subst (λ s. AllSourced s.documents) (ok_inj h) tt
    load_all-AllSourced (path ∷ paths) r h =
        let (s, loaded, h1) =
          bind-eq-ok
            (relabel (KomError.not_loaded path) (load lib.labels.is_label structs files path)) _ r
            h in
        let (rest, more, h2) = bind-eq-ok (load_all lib structs files paths) _ r h1 in
        subst (λ t. AllSourced t.documents) (ok_inj h2)
          (All-append (IsSourced lib.labels.is_label) s.documents rest.documents
            (load-IsSourced lib.labels.is_label structs keeps files path s
              (relabel-ok (KomError.not_loaded path) _ s loaded))
            (load_all-AllSourced paths rest more))

    pub initialize-Enabled :
        (app_path : String) (paths : List String) (mode : Mode)
        → initialize_kom_mode lib structs files app_path paths ≡ ok (some mode)
        → (given : Option Defaults) × ((app_docs : List Document) × ((docs : List Document)
              × Enabled app_path given app_docs docs mode))
    unfolding initialize_kom_mode
    initialize-Enabled app_path paths mode h =
        let ((given, app_docs), first, h1) =
          bind-eq-ok (load_app_file lib structs files app_path) _ (some mode) h in
        let (found_files, _, h1') =
          bind-eq-ok (relabel KomError.not_scanned (find_kom_files files paths)) _ (some mode) h1 in
        let (r, loaded, h2) =
          bind-eq-ok (load_all lib structs files found_files) _ (some mode) h1' in
        let h3 = ((guard_iff _ _ _ (some mode)).0 h2).1 in
        (
          given,
          (
            app_docs,
            (
              resources_of r.documents ++ app_docs,
              enable-Enabled app_path given app_docs (resources_of r.documents)
                  (resources_of r.documents ++ app_docs) mode first refl
                  (All-append (Facts.Loaded lib) (resources_of r.documents) app_docs
                    (resources-AllLoaded r.documents (load_all-AllSourced found_files r loaded))
                    (load_app_file-AllLoaded app_path given app_docs first))
                  h3,
            ),
          ),
        )

    -- If copying a map into a struct keeps its metadata, whatever the files hold: where
    -- initializeKOMMode enables KOM mode and the repositories are then built without an error, each
    -- stored provider's workspace, cluster's provider, app's cluster and box's app is stored too.
    pub initialize-IsClosed :
        (now : ℕ) (app_path : String) (paths : List String) (mode : Mode)
        → initialize_kom_mode lib structs files app_path paths ≡ ok (some mode)
        → (build_repos_from_kom lib structs files now mode).0 ≡ ok tt
        → IsClosed (build_repos_from_kom lib structs files now mode).1
    unfolding build_repos_from_kom
    initialize-IsClosed now app_path paths mode h done =
        let (_, (_, (docs, e))) = initialize-Enabled app_path paths mode h in
        to_models-IsClosed lib now mode.kompox_app_file_path docs mode.sink e.loaded e.indexed done
