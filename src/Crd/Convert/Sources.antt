-- ===== src/Crd/Convert/Sources.antt =====
-- The entries of a sink come from its documents, each once.
use kompox.Prelude.{
  ◌≡◌, ◌⊎◌, refl, sym, ap, ◌∙◌, inl, inr, String, Bool, Bool-cases, some, some_inj, List, [], ◌∷◌,
  All, Map, lookup, insert, lookup-insert_self, lookup-insert_other, ok, ◌==◌, eq_iff, arith,
}
use mathlib.Core.Path.{subst}
use kompox.Crd.Types.{
  ObjectMeta, Object, of_workspace, of_provider, of_cluster, of_app, of_box, Document,
}
use kompox.Crd.Fqn.{extract_resource_id}
use kompox.Crd.Sink.{Sink, empty, store_object, populate}
use kompox.Crd.Sink.Storing.{object_kind, IsTyped}
use kompox.Crd.Convert.Filling.{HasKeys}

abbrev pub object_meta : Object → ObjectMeta
object_meta (of_workspace w) = w.meta
object_meta (of_provider p) = p.meta
object_meta (of_cluster c) = c.meta
object_meta (of_app a) = a.meta
object_meta (of_box b) = b.meta

-- What the loader makes: the object's type is that of the kind, and the ID is the one that the
-- object's annotations give.
abbrev pub IsLoaded : (String → Bool) → Document → Type 0
IsLoaded is_label d =
    IsTyped d
    × (extract_resource_id is_label d.kind (object_meta d.object).name
          (object_meta d.object).annotations
        ≡ ok d.fqn)

abbrev pub Occurs : Document → List Document → Type 0
Occurs d [] = ⊥
Occurs d (e ∷ docs) = (e ≡ d) ⊎ Occurs d docs

pub All-Occurs :
    (P : Document → Type 0) (docs : List Document) (d : Document) → All P docs → Occurs d docs → P d
All-Occurs P [] d h o = absurd o
All-Occurs P (e ∷ docs) d (p, h) (inl same) = subst P same p
All-Occurs P (e ∷ docs) d (p, h) (inr o) = All-Occurs P docs d h o

pub Occurs-All :
    (P : Document → Type 0) (docs : List Document)
    → ((d : Document) → Occurs d docs → P d)
    → All P docs
Occurs-All P [] h = tt
Occurs-All P (e ∷ docs) h = (h e (inl refl), Occurs-All P docs (λ d o. h d (inr o)))

HasKeys-insert :
    {X : Type 0} (key : String) (x : X) (m : Map X) → HasKeys m → HasKeys (insert key x m)
unfolding insert lookup
HasKeys-insert key x [] h = (refl, tt)
HasKeys-insert key x ((n, y) ∷ m) (fresh, keys) = elim (Bool-cases (n == key)) [
  | inl same ↦ rw same ((ap (λ k. lookup k m) (sym ((eq_iff n key).0 same)) ∙ fresh, keys))
  | inr differ ↦ rw differ (
      (
        lookup-insert_other key n x m (ground (arith, eq_iff n key, eq_iff key n)) ∙ fresh,
        HasKeys-insert key x m keys,
      ))
]

-- Each entry is some document's, and keys are not repeated.
pub record Indexed {X : Type 0} (wrap : X → Object) (docs : List Document) (m : Map X)
    : Type 0 where
  pub keys : HasKeys m
  pub source :
      (f : String) (x : X)
      → lookup f m ≡ some x
      → (d : Document) × Occurs d docs × (d.fqn ≡ f) × (d.object ≡ wrap x)

Indexed-insert :
    {X : Type 0} (wrap : X → Object) (docs : List Document) (m : Map X) (d : Document) (x : X)
    → Occurs d docs
    → d.object ≡ wrap x
    → Indexed wrap docs m
    → Indexed wrap docs (insert d.fqn x m)
Indexed-insert wrap docs m d x o same i = record {
  keys = HasKeys-insert d.fqn x m i.keys;
  source = λ f y h. elim (Bool-cases (d.fqn == f)) [
    | inl here ↦
        let e = (eq_iff d.fqn f).0 here in
        let x≡y : x ≡ y =
          some_inj
            (sym (lookup-insert_self d.fqn x m) ∙ ap (λ g. lookup g (insert d.fqn x m)) e ∙ h) in
        (d, o, e, same ∙ ap wrap x≡y)
    | inr differ ↦ i.source f y (sym (lookup-insert_other d.fqn f x m differ) ∙ h)
  ];
}

pub record AllIndexed (docs : List Document) (s : Sink) : Type 0 where
  pub workspaces : Indexed of_workspace docs s.workspaces
  pub providers : Indexed of_provider docs s.providers
  pub clusters : Indexed of_cluster docs s.clusters
  pub apps : Indexed of_app docs s.apps
  pub boxes : Indexed of_box docs s.boxes

store-AllIndexed :
    (docs : List Document) (s : Sink) (d : Document) (o : Object)
    → d.object ≡ o
    → Occurs d docs
    → AllIndexed docs s
    → AllIndexed docs (store_object (object_kind o) o d.fqn s)
unfolding store_object
store-AllIndexed docs s d (of_workspace w) e o i = record {
  workspaces = Indexed-insert of_workspace docs s.workspaces d w o e i.workspaces;
  providers = i.providers;
  clusters = i.clusters;
  apps = i.apps;
  boxes = i.boxes;
}
store-AllIndexed docs s d (of_provider p) e o i = record {
  workspaces = i.workspaces;
  providers = Indexed-insert of_provider docs s.providers d p o e i.providers;
  clusters = i.clusters;
  apps = i.apps;
  boxes = i.boxes;
}
store-AllIndexed docs s d (of_cluster c) e o i = record {
  workspaces = i.workspaces;
  providers = i.providers;
  clusters = Indexed-insert of_cluster docs s.clusters d c o e i.clusters;
  apps = i.apps;
  boxes = i.boxes;
}
store-AllIndexed docs s d (of_app a) e o i = record {
  workspaces = i.workspaces;
  providers = i.providers;
  clusters = i.clusters;
  apps = Indexed-insert of_app docs s.apps d a o e i.apps;
  boxes = i.boxes;
}
store-AllIndexed docs s d (of_box b) e o i = record {
  workspaces = i.workspaces;
  providers = i.providers;
  clusters = i.clusters;
  apps = i.apps;
  boxes = Indexed-insert of_box docs s.boxes d b o e i.boxes;
}

populate-go :
    (docs rest : List Document) (s : Sink)
    → All IsTyped rest
    → All (λ d. Occurs d docs) rest
    → AllIndexed docs s
    → AllIndexed docs (populate s rest)
unfolding populate
populate-go docs [] s ts os i = i
populate-go docs (d ∷ rest) s (t, ts) (o, os) i =
    populate-go docs rest (store_object d.kind d.object d.fqn s) ts os (
      subst (λ k. AllIndexed docs (store_object k d.object d.fqn s)) (sym t)
        (store-AllIndexed docs s d d.object refl o i))

empty-Indexed : {X : Type 0} (wrap : X → Object) (docs : List Document) → Indexed wrap docs []
unfolding lookup
empty-Indexed wrap docs = record { keys = tt; source = λ f x h. absurd (cc h) }

pub populate-AllIndexed :
    (docs : List Document) → All IsTyped docs → AllIndexed docs (populate empty docs)
populate-AllIndexed docs ts =
    populate-go docs docs empty ts (Occurs-All (λ d. Occurs d docs) docs (λ d o. o)) (record {
      workspaces = empty-Indexed of_workspace docs;
      providers = empty-Indexed of_provider docs;
      clusters = empty-Indexed of_cluster docs;
      apps = empty-Indexed of_app docs;
      boxes = empty-Indexed of_box docs;
    })
