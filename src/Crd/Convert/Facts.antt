-- ===== src/Crd/Convert/Facts.antt =====
-- What is known of a sink that NewSink made of documents as the loader makes them: every entry has
-- the ID that its annotations give, and its parent is an entry of the kind above.
use kompox.Prelude.{
  ◌-◌, ◌≡◌, ◌≢◌, refl, sym, ap, ◌∙◌, inl, inr, String, true, some, Map, lookup, List, [], ◌∷◌, All,
  All-map, length, ok, ◌==◌, eq_iff, Bool-cases,
}
use mathlib.Core.Path.{subst}
use kompox.Store.{workspace_entity, provider_entity, cluster_entity, app_entity, box_entity}
use kompox.Crd.Types
use kompox.Crd.Types.{
  Kind, workspace, provider, cluster, app, box, other, Object, of_workspace, of_provider,
  of_cluster, of_app, of_box, Document,
}
use kompox.Crd.Fqn.{parent_fqn, kind_full_to_short}
use kompox.Crd.Fqn.Chains.{lineage}
use kompox.Crd.Fqn.Validate.{IsResource, IsResource-own}
use kompox.Crd.Validator.{sort_by_topology}
use kompox.Crd.Validator.Spec.{has_fqn, IsKnown, WellFormed, IsGood}
use kompox.Crd.Validator.Sorting.{sort-All}
use kompox.Crd.Validator.Accepts.{validate_accepts_iff, validate_clean-valid}
use kompox.Crd.Sink.{
  Sink, new_sink, populate, empty, get_workspace, get_provider, get_cluster, get_app,
}
use kompox.Crd.Sink.Storing.{object_kind, IsTyped, Holds}
use kompox.Crd.Sink.Contents.{new_sink-contents, new_sink_inv}
use kompox.Crd.Convert.{Library}
use kompox.Crd.Convert.Sources.{
  object_meta, IsLoaded, Occurs, All-Occurs, AllIndexed, Indexed, populate-AllIndexed,
}
use kompox.Crd.Convert.Parents.{kind_at, extract-IsResource, parent-kind}
use kompox.Crd.Convert.Results.{HasId}

-- The document of an ID in a list.
has_fqn-Occurs :
    (f : String) (docs : List Document)
    → has_fqn f docs ≡ true
    → (e : Document) × Occurs e docs × (e.fqn ≡ f)
unfolding has_fqn
has_fqn-Occurs f [] h = absurd (cc h)
has_fqn-Occurs f (d ∷ docs) h = elim (Bool-cases (d.fqn == f)) [
  | inl same ↦ (d, inl refl, (eq_iff d.fqn f).0 same)
  | inr differ ↦
      let (e, o, is) = has_fqn-Occurs f docs (rw (differ, has_fqn) at h) in (e, inr o, is)
]

IsKnown-of : (kind : Kind) (own : String) → kind_full_to_short kind ≡ some own → IsKnown kind
unfolding kind_full_to_short
IsKnown-of (other s) own h = absurd (cc h)
IsKnown-of workspace own h = tt
IsKnown-of provider own h = tt
IsKnown-of cluster own h = tt
IsKnown-of app own h = tt
IsKnown-of box own h = tt

module _ (lib : Library) where
  abbrev pub Loaded : Document → Type 0
  Loaded d = IsLoaded lib.labels.is_label d

  pub Loaded-IsResource :
      (d : Document) → Loaded d → IsResource lib.labels d.fqn d.kind (object_meta d.object).name
  Loaded-IsResource d (typed, there) = extract-IsResource lib.labels d.kind _ d.fqn _ there

  Loaded-IsKnown : (d : Document) → Loaded d → IsKnown d.kind
  Loaded-IsKnown d l =
      let r = Loaded-IsResource d l in IsKnown-of d.kind r.own (IsResource-own lib.labels r)

  -- A document's parent is another document, of the kind above.
  parent_doc :
      (docs : List Document)
      → All Loaded docs
      → WellFormed lib.labels.is_label docs
      → (d : Document) → Loaded d
      → IsGood lib.labels.is_label docs d
      → d.kind ≢ workspace
      → (e : Document) × Occurs e docs
        × (e.fqn ≡ parent_fqn d.fqn)
        × (e.kind ≡ kind_at (length (lineage d.kind) - 1))
  parent_doc docs ls w d l g child = elim g.parented [
    | inl root ↦ absurd (child root)
    | inr there ↦
        let (e, o, same) = has_fqn-Occurs (parent_fqn d.fqn) docs there in
        (
          e,
          o,
          same,
          parent-kind lib.labels (Loaded-IsResource d l)
              (Loaded-IsResource e (All-Occurs Loaded docs e ls o)) same child,
        )
  ]

  -- What is known of a sink that NewSink made of loaded documents.
  pub record Facts (docs : List Document) (s : Sink) : Type 0 where
    pub indexed : AllIndexed (sort_by_topology docs) s
    pub held : All (λ d. Holds s d.fqn d.object) docs
    pub formed : WellFormed lib.labels.is_label docs
    pub all_loaded : All Loaded docs
    pub loaded : All Loaded (sort_by_topology docs)
    pub good : All (IsGood lib.labels.is_label docs) (sort_by_topology docs)

  pub Facts-of :
      (docs : List Document) (s : Sink)
      → All Loaded docs
      → new_sink lib.labels.is_label docs ≡ ok s
      → Facts docs s
  Facts-of docs s ls made =
      let known = All-map Loaded (λ d. IsKnown d.kind) Loaded-IsKnown docs ls in
      let typed = All-map Loaded IsTyped (λ d l. l.0) docs ls in
      let (clean, out) = new_sink_inv lib.labels.is_label docs s made in
      let sorted = validate_clean-valid lib.labels.is_label docs clean in
      let w = (validate_accepts_iff lib.labels.is_label docs known).0 clean in
      record {
        indexed =
            subst (AllIndexed (sort_by_topology docs)) (ap (populate empty) (sym sorted) ∙ out)
              (populate-AllIndexed (sort_by_topology docs) (sort-All IsTyped docs typed));
        held = (new_sink-contents lib.labels.is_label docs s known typed made).0;
        formed = w;
        all_loaded = ls;
        loaded = sort-All Loaded docs ls;
        good = sort-All (IsGood lib.labels.is_label docs) docs w.good;
      }

  module _ (docs : List Document) (s : Sink) (facts : Facts docs s) where
    pub entry-HasId :
        {X : Type 0} (wrap : X → Object) (m : Map X) (f : String) (x : X)
        → Indexed wrap (sort_by_topology docs) m
        → lookup f m ≡ some x
        → HasId lib (object_kind (wrap x)) (object_meta (wrap x)) f
    entry-HasId wrap m f x i h =
        let (d, o, at, is) = i.source f x h in
        let (typed, there) = All-Occurs Loaded (sort_by_topology docs) d facts.loaded o in
        subst (λ b. HasId lib (object_kind b) (object_meta b) f) is
          (subst (λ k. HasId lib k (object_meta d.object) f) typed
            (subst (HasId lib d.kind (object_meta d.object)) at there))

    pub entry_parent :
        {X : Type 0} (wrap : X → Object) (m : Map X) (f : String) (x : X)
        → Indexed wrap (sort_by_topology docs) m
        → lookup f m ≡ some x
        → object_kind (wrap x) ≢ workspace
        → (e : Document) × Loaded e
          × Holds s (parent_fqn f) e.object
          × (object_kind e.object ≡ kind_at (length (lineage (object_kind (wrap x))) - 1))
    entry_parent wrap m f x i h child =
        let (d, o, at, is) = i.source f x h in
        let l = All-Occurs Loaded (sort_by_topology docs) d facts.loaded o in
        let g =
          All-Occurs (IsGood lib.labels.is_label docs) (sort_by_topology docs) d facts.good o in
        let kind : d.kind ≡ object_kind (wrap x) = l.0 ∙ ap object_kind is in
        let (e, oe, same, above) =
          parent_doc docs facts.all_loaded facts.formed d l g (λ w. child (sym kind ∙ w)) in
        let le = All-Occurs Loaded docs e facts.all_loaded oe in
        (
          e,
          le,
          subst (λ j. Holds s j e.object) (same ∙ ap parent_fqn at)
              (All-Occurs (λ b. Holds s b.fqn b.object) docs e facts.held oe),
          sym le.0 ∙ above ∙ ap (λ k. kind_at (length (lineage k) - 1)) kind,
        )

-- The typed object of a kind.
pub held_workspace :
    (s : Sink) (f : String) (o : Object)
    → object_kind o ≡ workspace
    → Holds s f o
    → (w : Types.Workspace) × (lookup f s.workspaces ≡ some w)
unfolding get_workspace
held_workspace s f (of_workspace w) k h = (w, h)
held_workspace s f (of_provider _) k h = absurd (cc k)
held_workspace s f (of_cluster _) k h = absurd (cc k)
held_workspace s f (of_app _) k h = absurd (cc k)
held_workspace s f (of_box _) k h = absurd (cc k)

pub held_provider :
    (s : Sink) (f : String) (o : Object)
    → object_kind o ≡ provider
    → Holds s f o
    → (w : Types.Provider) × (lookup f s.providers ≡ some w)
unfolding get_provider
held_provider s f (of_provider p) k h = (p, h)
held_provider s f (of_workspace _) k h = absurd (cc k)
held_provider s f (of_cluster _) k h = absurd (cc k)
held_provider s f (of_app _) k h = absurd (cc k)
held_provider s f (of_box _) k h = absurd (cc k)

pub held_cluster :
    (s : Sink) (f : String) (o : Object)
    → object_kind o ≡ cluster
    → Holds s f o
    → (w : Types.Cluster) × (lookup f s.clusters ≡ some w)
unfolding get_cluster
held_cluster s f (of_cluster c) k h = (c, h)
held_cluster s f (of_workspace _) k h = absurd (cc k)
held_cluster s f (of_provider _) k h = absurd (cc k)
held_cluster s f (of_app _) k h = absurd (cc k)
held_cluster s f (of_box _) k h = absurd (cc k)

pub held_app :
    (s : Sink) (f : String) (o : Object)
    → object_kind o ≡ app
    → Holds s f o
    → (w : Types.App) × (lookup f s.apps ≡ some w)
unfolding get_app
held_app s f (of_app a) k h = (a, h)
held_app s f (of_workspace _) k h = absurd (cc k)
held_app s f (of_provider _) k h = absurd (cc k)
held_app s f (of_cluster _) k h = absurd (cc k)
held_app s f (of_box _) k h = absurd (cc k)
