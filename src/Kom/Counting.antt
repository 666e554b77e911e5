-- ===== src/Kom/Counting.antt =====
-- How many of the documents are Apps, as the loop over kompoxapp.yml's documents counts them.
use kompox.Prelude.{
  ◌≤◌, Bool, true, false, ℕ, ◌+◌, ◌≡◌, ◌≢◌, ◌⊎◌, refl, sym, ap, ◌∙◌, inl, inr, String, Bool-cases,
  arith, List, [], ◌∷◌, All, ok,
}
use kompox.Crd.Types.{Kind, app, kind_eq, App, Cluster, Defaults, Object, of_app, Document}
use kompox.Crd.Types
use kompox.Crd.Fqn.{parse_resource_id, extract_resource_id}
use kompox.Crd.Fqn.Parse.{parse-eq-ok_iff}
use kompox.Crd.Sink.Storing.{object_kind}
use kompox.Crd.Convert.{Library}
use kompox.Crd.Convert.Facts
use kompox.Crd.Convert.Facts.{Facts-of, held_app, held_cluster, entry_parent}
use kompox.Crd.Convert.Sources.{Occurs, object_meta}
use kompox.Crd.Fqn.Validate.{validate-eq-ok_iff}
use kompox.Crd.Loader.{Structs, FileSystem}
use kompox.Crd.Loader.Sourcing.{extract-inv}
use kompox.Kom.{app_annotation, count_apps}

-- None of the documents is an App, or one only is.
abbrev pub NoApp : List Document → Type 0
NoApp docs = All (λ d. d.kind ≢ app) docs

abbrev pub OnlyApp : Document → List Document → Type 0
OnlyApp x [] = ⊥
OnlyApp x (d ∷ docs) = ((d ≡ x) × (d.kind ≡ app) × NoApp docs) ⊎ ((d.kind ≢ app) × OnlyApp x docs)

pub NoApp-OnlyApp : (x : Document) (docs : List Document) → NoApp docs → OnlyApp x docs → ⊥
NoApp-OnlyApp x [] free only = only
NoApp-OnlyApp x (d ∷ docs) (ne, free) (inl (_, is, _)) = ne is
NoApp-OnlyApp x (d ∷ docs) (ne, free) (inr (_, only)) = NoApp-OnlyApp x docs free only

pub OnlyApp-Occurs : (x : Document) (docs : List Document) → OnlyApp x docs → Occurs x docs
OnlyApp-Occurs x [] only = absurd only
OnlyApp-Occurs x (d ∷ docs) (inl (same, _, _)) = inl same
OnlyApp-Occurs x (d ∷ docs) (inr (_, only)) = inr (OnlyApp-Occurs x docs only)

pub OnlyApp-kind : (x : Document) (docs : List Document) → OnlyApp x docs → x.kind ≡ app
OnlyApp-kind x [] only = absurd only
OnlyApp-kind x (d ∷ docs) (inl (same, is, _)) = ap (λ y. y.kind) (sym same) ∙ is
OnlyApp-kind x (d ∷ docs) (inr (_, only)) = OnlyApp-kind x docs only

not_app : (k : Kind) → kind_eq k app ≡ false → k ≢ app
unfolding kind_eq
not_app k h is = absurd (cc (sym (ap (λ l. kind_eq l app) is) ∙ h))

is_app : (k : Kind) → kind_eq k app ≡ true → k ≡ app
unfolding kind_eq
is_app app h = refl
is_app Types.workspace h = absurd (cc h)
is_app Types.provider h = absurd (cc h)
is_app Types.cluster h = absurd (cc h)
is_app Types.box h = absurd (cc h)
is_app (Types.other s) h = absurd (cc h)

module _ (lib : Library) (structs : Structs) (files : FileSystem) where
  abbrev pub is_label : String → Bool
  is_label = lib.labels.is_label

  pub parse_same :
      (id f : String) (kind : Kind) → parse_resource_id is_label id ≡ ok (f, kind) → f ≡ id
  parse_same id f kind h = ((parse-eq-ok_iff lib.labels id f kind).0 h).0

  app_annotation-own :
      (id f : String) (o : Object)
      → app ≡ object_kind o
      → extract_resource_id is_label app (object_meta o).name (object_meta o).annotations ≡ ok f
      → app_annotation id o ≡ f
  app_annotation-own id f (of_app a) typed h =
      let (own, there, valid) = extract-inv is_label app a.meta.name f a.meta.annotations h in
      rw (there, app_annotation)
        (sym ((validate-eq-ok_iff lib.labels own f app a.meta.name).0 valid).0)
  app_annotation-own id f (Types.of_workspace _) typed h = absurd (cc typed)
  app_annotation-own id f (Types.of_provider _) typed h = absurd (cc typed)
  app_annotation-own id f (Types.of_cluster _) typed h = absurd (cc typed)
  app_annotation-own id f (Types.of_box _) typed h = absurd (cc typed)

  -- What the loop finds: no app, the only one with its ID, or several.
  abbrev pub Counted : ℕ → String → List Document → ℕ × String → Type 0
  Counted n id docs (m, out) =
      (NoApp docs × (m ≡ n) × (out ≡ id))
      ⊎ (((x : Document) × OnlyApp x docs × (m ≡ n + 1) × (out ≡ x.fqn))
          ⊎ ((NoApp docs → ⊥) × ((x : Document) → OnlyApp x docs → ⊥) × (n + 2 ≤ m)))

  count_app :
      (n : ℕ) (id : String) (d : Document) (docs : List Document) (out : ℕ × String)
      → d.kind ≡ app
      → Counted (n + 1) d.fqn docs out
      → Counted n id (d ∷ docs) out
  count_app n id d docs out is (inl (free, counted, last)) =
      inr (inl (d, inl (refl, is, free), counted, last))
  count_app n id d docs out is (inr (inl (x, only, counted, last))) = inr (
      inr (
        λ (ne, _). ne is,
        λ y both. elim both [
          | inl (_, _, free) ↦ NoApp-OnlyApp x docs free only
          | inr (ne, _) ↦ ne is
        ],
        omega (arith, counted),
      ))
  count_app n id d docs out is (inr (inr (present, several, more))) = inr (
      inr (
        λ (ne, _). ne is,
        λ y both. elim both [ inl (_, _, free) ↦ present free | inr (ne, _) ↦ ne is ],
        omega (arith, more),
      ))

  count_other :
      (n : ℕ) (id : String) (d : Document) (docs : List Document) (out : ℕ × String)
      → d.kind ≢ app
      → Counted n id docs out
      → Counted n id (d ∷ docs) out
  count_other n id d docs out ne (inl (free, counted, last)) = inl ((ne, free), counted, last)
  count_other n id d docs out ne (inr (inl (x, only, counted, last))) =
      inr (inl (x, inr (ne, only), counted, last))
  count_other n id d docs out ne (inr (inr (present, several, more))) = inr (
      inr (
        λ (_, free). present free,
        λ y both. elim both [ inl (_, is, _) ↦ ne is | inr (_, only) ↦ several y only ],
        more,
      ))

  pub count_apps-Counted :
      (n : ℕ) (id : String) (docs : List Document)
      → All (Facts.Loaded lib) docs
      → Counted n id docs (count_apps n id docs)
  unfolding count_apps
  count_apps-Counted n id [] ls = inl (tt, refl, refl)
  count_apps-Counted n id (d ∷ docs) ((typed, there), ls) = elim (Bool-cases (kind_eq d.kind app)) [
    | inl is ↦
        let k = is_app d.kind is in
        let own = app_annotation-own id d.fqn d.object (sym k ∙ typed) (
          sym (
            ap
              (λ kind.
                extract_resource_id is_label kind (object_meta d.object).name
                  (object_meta d.object).annotations)
              k)
          ∙ there) in
        rw (is, count_apps, own)
          (count_app n id d docs (count_apps (n + 1) d.fqn docs) k
            (count_apps-Counted (n + 1) d.fqn docs ls))
    | inr differs ↦
        rw (differs, count_apps)
          (count_other n id d docs (count_apps n id docs) (not_app d.kind differs)
            (count_apps-Counted n id docs ls))
  ]
