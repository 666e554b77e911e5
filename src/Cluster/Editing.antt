-- ===== src/Cluster/Editing.antt =====
-- Changing a cluster's name and provider: Update.
use mathlib.Core.Path.{subst}
use kompox.Prelude.{
  ℕ, ◌≡◌, ◌≢◌, ◌⊎◌, refl, sym, ap, ◌∙◌, inl, inr, String, Bool, true, false, ◌||◌, Option, none,
  some, ◌==◌, Bool-cases, eq-false_of_ne, eq_iff, eq_refl, Result, ok, if◌then◌else◌, arith,
}
use kompox.Domain.Model.{Error, Cluster}
use kompox.Store.{Repository, cluster_entity, get}
use kompox.Store.Laws.{get-update}
use kompox.Cluster.{UpdateInput, cluster_of, rename, move, write_back, update}

-- What an optional new name asks for: an empty one asks for nothing.
abbrev pub wanted_name : Option String → String → String
wanted_name none old = old
wanted_name (some n) old = if n == "" then old else n

abbrev pub wanted_provider : Option String → String → String
wanted_provider none old = old
wanted_provider (some p) old = p

rename-eq :
    (n : Option String) (c : Cluster)
    → ((rename n c).0 ≡ record c { name = wanted_name n c.name })
      × ((rename n c).1 ≡ false → (rename n c).0 ≡ c)
rename-eq none c = (refl, λ h. refl)
rename-eq (some n) c = elim (Bool-cases (n == "")) [
  | inl empty ↦ (rw (empty, rename, wanted_name) refl, λ h. rw (empty, rename) refl)
  | inr named ↦ elim (Bool-cases (c.name == n)) [
    | inl same ↦ (
      rw (named, same, rename, wanted_name)
          (ap (λ m. record c { name = m }) ((eq_iff c.name n).0 same)),
      λ h. rw (named, same, rename) refl,
    )
    | inr new ↦ (rw (named, new, rename, wanted_name) refl, λ h. absurd (ground arith))
  ]
]

move-eq :
    (p : Option String) (c : Cluster)
    → ((move p c).0 ≡ record c { provider_id = wanted_provider p c.provider_id })
      × ((move p c).1 ≡ false → (move p c).0 ≡ c)
move-eq none c = (refl, λ h. refl)
move-eq (some p) c = elim (Bool-cases (c.provider_id == p)) [
  | inl same ↦ (
    rw same (ap (λ q. record c { provider_id = q }) ((eq_iff c.provider_id p).0 same)),
    λ h. rw same refl,
  )
  | inr new ↦ (rw new refl, λ h. absurd (ground arith))
]

rename-differs :
    (n : Option String) (c : Cluster) → (rename n c).1 ≡ true → wanted_name n c.name ≢ c.name
rename-differs none c h same = absurd (cc h)
rename-differs (some n) c h same = elim (Bool-cases (n == "")) [
  | inl empty ↦ absurd (cc (rw (empty, rename) at h))
  | inr named ↦ elim (Bool-cases (c.name == n)) [
    | inl old ↦ absurd (cc (rw (named, old, rename) at h))
    | inr new ↦ absurd (ground (arith, eq_iff c.name n, sym (rw (named, wanted_name) at same)))
  ]
]

move-differs :
    (p : Option String) (c : Cluster)
    → (move p c).1 ≡ true
    → wanted_provider p c.provider_id ≢ c.provider_id
move-differs none c h same = absurd (cc h)
move-differs (some p) c h same = elim (Bool-cases (c.provider_id == p)) [
  | inl old ↦ absurd (cc (rw (old, move) at h))
  | inr new ↦ absurd (ground (arith, eq_iff c.provider_id p, sym same))
]

write_back-eq :
    (now : ℕ) (changed : Bool) (c x : Cluster) (r : Repository Cluster)
    → get c.id r ≡ ok x
    → (changed ≡ false → get c.id r ≡ ok c)
    → (c' : Cluster) × ((write_back now changed c r).0 ≡ ok c')
      × (get c.id (write_back now changed c r).1 ≡ ok c')
      × ((j : String) → c.id ≢ j → get j (write_back now changed c r).1 ≡ get j r)
      × (((changed ≡ true) × (c' ≡ record c { updated_at = now }))
          ⊎ ((changed ≡ false) × (c' ≡ c) × ((write_back now changed c r).1 ≡ r)))
write_back-eq now false c x r there same =
    (c, refl, same refl, λ j ne. refl, inr (refl, refl, refl))
write_back-eq now true c x r there same = elim (get-update (record c { updated_at = now }) r) [
  | inl (old, was, succeeds, then_get) ↦ (
    record c { updated_at = now },
    rw (succeeds, write_back) refl,
    then_get c.id ∙ rw (eq_refl c.id) refl,
    λ j ne. then_get j ∙ rw (eq-false_of_ne c.id j ne) refl,
    inl (refl, refl),
  )
  | inr (missing, unchanged) ↦ absurd (cc (sym missing ∙ there))
]

-- The changes that Update makes to its copy, and whether it made one.
abbrev moved : UpdateInput → Cluster → Cluster
moved i c = (move i.provider_id (rename i.name c).0).0

abbrev changes : UpdateInput → Cluster → Bool
changes i c = (rename i.name c).1 || (move i.provider_id (rename i.name c).0).1

abbrev asked : UpdateInput → Cluster → Cluster
asked i c = record c {
  name = wanted_name i.name c.name;
  provider_id = wanted_provider i.provider_id c.provider_id;
}

moved-eq : (i : UpdateInput) (c : Cluster) → moved i c ≡ asked i c
moved-eq i c =
    (move-eq i.provider_id (rename i.name c).0).0
    ∙ ap {A = Cluster} (λ x. record x { provider_id = wanted_provider i.provider_id x.provider_id })
        (rename-eq i.name c).0

unchanged-eq : (i : UpdateInput) (c : Cluster) → changes i c ≡ false → moved i c ≡ c
unchanged-eq i c h =
    (move-eq i.provider_id (rename i.name c).0).1 (ground arith)
    ∙ (rename-eq i.name c).1 (ground arith)

-- The input asks for another name or another provider than the cluster has.
abbrev pub IsAsked : UpdateInput → Cluster → Type 0
IsAsked i c =
    (wanted_name i.name c.name ≢ c.name)
    ⊎ (wanted_provider i.provider_id c.provider_id ≢ c.provider_id)

changes-IsAsked : (i : UpdateInput) (c : Cluster) → changes i c ≡ true → IsAsked i c
changes-IsAsked i c h = elim (Bool-cases (rename i.name c).1) [
  | inl renames ↦ inl (rename-differs i.name c renames)
  | inr keeps ↦
      let provider = ap {A = Cluster} (λ x. x.provider_id) (rename-eq i.name c).0 in
      inr (
        subst (λ q. wanted_provider i.provider_id q ≢ q) provider
          (move-differs i.provider_id (rename i.name c).0 (rw keeps at h)))
]

-- What Update promises of its result and the repository after it.
abbrev pub Updates :
    ℕ
    → UpdateInput
    → Cluster
    → Repository Cluster
    → Result Error Cluster × Repository Cluster
    → Type 0
Updates now i c r (result, r') =
    (time : ℕ) × (c' : Cluster) × (c' ≡ record c {
      name = wanted_name i.name c.name;
      provider_id = wanted_provider i.provider_id c.provider_id;
      updated_at = time;
    })
    × (result ≡ ok c')
    × (get i.cluster_id r' ≡ ok c')
    × ((j : String) → i.cluster_id ≢ j → get j r' ≡ get j r)
    × ((IsAsked i c × (time ≡ now)) ⊎ ((c' ≡ c) × (r' ≡ r)))

write_back-Updates :
    (now : ℕ) (i : UpdateInput) (c : Cluster) (r : Repository Cluster)
    → c.id ≡ i.cluster_id
    → get i.cluster_id r ≡ ok c
    → Updates now i c r (write_back now (changes i c) (moved i c) r)
write_back-Updates now i c r own stored =
    let same_id : (moved i c).id ≡ i.cluster_id = ap (λ x. x.id) (moved-eq i c) ∙ own in
    let at_id = λ (s : Repository Cluster). ap (λ k. get k s) same_id in
    let (c', result, there, others, how) =
      write_back-eq now (changes i c) (moved i c) c r (at_id r ∙ stored)
        (λ h. at_id r ∙ stored ∙ ap ok (sym (unchanged-eq i c h))) in
    let after = (write_back now (changes i c) (moved i c) r).1 in
    let kept = λ (j : String) (ne : i.cluster_id ≢ j). others j (λ e. ne (sym same_id ∙ e)) in
    elim how [
      | inl (changed, is) ↦ (
        now,
        c',
        is ∙ ap {A = Cluster} (λ x. record x { updated_at = now }) (moved-eq i c),
        result,
        sym (at_id after) ∙ there,
        kept,
        inl (changes-IsAsked i c changed, refl),
      )
      | inr (unchanged, is, left) ↦ (
        c.updated_at,
        c',
        is ∙ moved-eq i c,
        result,
        sym (at_id after) ∙ there,
        kept,
        inr (is ∙ unchanged-eq i c unchanged, left),
      )
    ]

-- Update on a stored cluster gives it the name and the provider that the input asks for (an empty
-- name asks for none), and the new cluster is what Get then finds; nothing else about the cluster
-- changes but its time of update, which is the present one. If the input asks for nothing new, the
-- result is what was stored and the repository is left as it was. No other cluster changes.
pub update-Updates :
    (now : ℕ) (i : UpdateInput) (c : Cluster) (r : Repository Cluster)
    → i.cluster_id ≢ ""
    → c.id ≡ i.cluster_id
    → get i.cluster_id r ≡ ok c
    → Updates now i c r (update now (some i) r)
unfolding update
update-Updates now i c r named own stored =
    let found : cluster_of r i.cluster_id ≡ ok c =
      rw (eq-false_of_ne i.cluster_id "" named, cluster_of) stored in
    subst (Updates now i c r) (sym (rw (found, update) refl))
      (write_back-Updates now i c r own stored)
