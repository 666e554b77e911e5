-- ===== src/Cluster/Lifecycle.antt =====
-- Creating, finding and deleting clusters through the use cases.
use mathlib.Core.Path.{subst}
use text.Mathlib.TextLemmas.{cons-append}
use kompox.Prelude.{
  ne_of_eq-false, ◌⊎◌, none, false, [], Bool-cases, ◌==◌, eq_iff, if◌then◌else◌, ℕ, ◌+◌, ◌≡◌, ◌≢◌,
  refl, sym, ap, ◌∙◌, inl, inr, String, some, eq-false_of_ne, eq_refl, Result, ok, err,
}
use kompox.Domain.Model.{Error, cluster_not_found, cluster_invalid, Cluster}
use kompox.Store.{Repository, cluster_entity, get, format_id}
use kompox.Store
use kompox.Store.Laws.{get-create, get-delete, create_fresh}
use kompox.Cluster.{CreateInput, cluster_of, new_cluster, create, delete, get_cluster}

format_id-clus : (now n : ℕ) → format_id "clus" now n ≢ ""
unfolding format_id
format_id-clus now n h = cc (sym (cons-append "c" "lus" _) ∙ h)

format_id-next : (tick : ℕ) (r : Repository Cluster) → (Store.next_id tick r).0 ≢ ""
unfolding Store.next_id
format_id-next tick r = format_id-clus tick (r.seq + 1)

-- An input without a name is refused, and the repository is left as it was; otherwise the result is
-- a new cluster.
abbrev pub Creates :
    ℕ → CreateInput → Repository Cluster → Result Error Cluster × Repository Cluster → Type 0
Creates now i r (result, r') =
    ((i.name ≡ "") × (result ≡ err cluster_invalid) × (r' ≡ r))
    ⊎ ((i.name ≢ "")
        × ((id : String) × (result
              ≡ ok (record {
                id = id;
                name = i.name;
                provider_id = i.provider_id;
                existing = false;
                ingress = none;
                protection = none;
                settings = [];
                created_at = now;
                updated_at = now;
              }))
            × (get_cluster (some id) r' ≡ result)
            × ((j : String) → id ≢ j → get j r' ≡ get j r)))

cluster_of_named : (r : Repository Cluster) (id : String) → id ≢ "" → cluster_of r id ≡ get id r
cluster_of_named r id named = rw (eq-false_of_ne id "" named, cluster_of) refl

create_named :
    (now tick : ℕ) (i : CreateInput) (r : Repository Cluster)
    → i.name ≢ ""
    → create now tick (some i) r ≡ (
      ok (Store.create tick (new_cluster now i) r).0,
      (Store.create tick (new_cluster now i) r).1,
    )
unfolding create
create_named now tick i r named = rw (eq-false_of_ne i.name "" named, create) refl

delete_named :
    (id : String) (r : Repository Cluster) → id ≢ "" → delete (some id) r ≡ Store.delete id r
unfolding delete
delete_named id r named = rw (eq-false_of_ne id "" named, delete) refl

-- Create with a name makes a cluster of that name and provider, without ingress or protection, with
-- the present time as that of its creation and update; Get finds it under the ID that it was given,
-- and no other cluster changes. Without a name, Create fails and changes nothing.
pub create-Creates :
    (now tick : ℕ) (i : CreateInput) (r : Repository Cluster)
    → Creates now i r (create now tick (some i) r)
unfolding get_cluster create
create-Creates now tick i r = elim (Bool-cases (i.name == "")) [
  | inl unnamed ↦
      inl ((eq_iff i.name "").0 unnamed, rw (unnamed, create) refl, rw (unnamed, create) refl)
  | inr new ↦
      let named = ne_of_eq-false i.name "" new in
      let made = Store.create tick (new_cluster now i) r in
      let (own, others, _, _) = get-create tick (new_cluster now i) r in
      let is =
        ap {A = Cluster × Repository Cluster} (λ out. out.0)
          (create_fresh tick (new_cluster now i) r (eq_refl "")) in
      let id = ap (λ c. c.id) is in
      let has_id = λ (e : made.0.id ≡ ""). format_id-next tick r (sym id ∙ e) in
      subst (Creates now i r) (sym (create_named now tick i r named)) (
        inr (
          named,
          (
            made.0.id,
            ap ok (is ∙ ap {A = String} (λ k. record (new_cluster now i) { id = k }) (sym id)),
            cluster_of_named made.1 made.0.id has_id ∙ own,
            others,
          ),
        ))
]

missing-fails :
    (id : String) (r : Repository Cluster)
    → get id r ≡ err cluster_not_found
    → (Store.delete id r).0 ≡ err cluster_not_found
missing-fails id r h = elim (get-delete id r) [
  | inl (old, there, _, _) ↦ absurd (cc (sym there ∙ h))
  | inr (_, unchanged) ↦ rw unchanged refl
]

-- What a Delete of an ID does, in its three cases.
abbrev pub Deletes : String → Repository Cluster → Type 0
Deletes id r =
    let (result, r') = delete (some id) r in
    ((id ≡ "") × (result ≡ ok tt) × (r' ≡ r))
    ⊎ (((id ≢ "")
          × (get id r ≡ err cluster_not_found)
          × (result ≡ err cluster_not_found)
          × (r' ≡ r))
        ⊎ ((id ≢ "")
            × ((c : Cluster) × (get id r ≡ ok c))
            × (result ≡ ok tt)
            × (get_cluster (some id) r' ≡ err cluster_not_found)
            × ((delete (some id) r').0 ≡ err cluster_not_found)
            × ((j : String) → id ≢ j → get j r' ≡ get j r)))

stored-Deletes :
    (id : String) (r : Repository Cluster) (c : Cluster)
    → id ≢ ""
    → get id r ≡ ok c
    → ((j : String)
        → get j (Store.delete id r).1 ≡ (if id == j then err cluster_not_found else get j r))
    → (Store.delete id r).0 ≡ ok tt
    → Deletes id r
unfolding get_cluster
stored-Deletes id r c named there then_get succeeds =
    let same = delete_named id r named in
    let after = (delete (some id) r).1 in
    let gone : get id after ≡ err cluster_not_found =
      ap (λ out. get id out.1) same ∙ then_get id ∙ rw (eq_refl id) refl in
    inr (
      inr (
        named,
        (c, there),
        ap {A = Result Error (Unit {0}) × Repository Cluster} (λ out. out.0) same ∙ succeeds,
        cluster_of_named after id named ∙ gone,
        ap {A = Result Error (Unit {0}) × Repository Cluster} (λ out. out.0)
              (delete_named id after named)
            ∙ missing-fails id after gone,
        λ j ne. ap (λ out. get j out.1) same ∙ then_get j ∙ rw (eq-false_of_ne id j ne) refl,
      ))

-- Deleting an empty ID succeeds and changes nothing, and an ID that is not stored fails and changes
-- nothing. Deleting a stored cluster succeeds, makes Get miss it, fails the second time, and
-- changes no other cluster.
pub delete-Deletes : (id : String) (r : Repository Cluster) → Deletes id r
unfolding delete
delete-Deletes id r = elim (Bool-cases (id == "")) [
  | inl empty ↦ inl ((eq_iff id "").0 empty, rw (empty, delete) refl, rw (empty, delete) refl)
  | inr given ↦
      let named = ne_of_eq-false id "" given in
      elim (get-delete id r) [
        | inl (c, there, succeeds, then_get) ↦ stored-Deletes id r c named there then_get succeeds
        | inr (missing, unchanged) ↦
            let same = delete_named id r named ∙ unchanged in
            inr (
              inl (
                named,
                missing,
                ap {A = Result Error (Unit {0}) × Repository Cluster} (λ out. out.0) same,
                ap {A = Result Error (Unit {0}) × Repository Cluster} (λ out. out.1) same,
              ))
      ]
]
