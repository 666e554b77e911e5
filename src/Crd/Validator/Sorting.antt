-- ===== src/Crd/Validator/Sorting.antt =====
-- The topological sort only reorders documents, and puts smaller kinds first.
use kompox.Prelude.{
  suc, ◌≡◌, ◌≤◌, refl, ap, ◌∙◌, String, true, false, inl, inr, List, [], ◌∷◌, length, All,
  Bool-cases, if◌then◌else◌, arith, ◌==◌, eq_iff,
}
use kompox.Crd.Types.{Document}
use kompox.Crd.Validator.{kind_order, less, insert_document, sort_by_topology}
use kompox.Crd.Validator.Spec.{has_fqn, Distinct}

-- Kinds do not fall along the list.
abbrev pub IsSorted : List Document → Type 0
IsSorted [] = Unit
IsSorted (d ∷ docs) = All (λ e. kind_order d.kind ≤ kind_order e.kind) docs × IsSorted docs

insert-All :
    (P : Document → Type 0) (d : Document) (docs : List Document)
    → P d
    → All P docs
    → All P (insert_document d docs)
unfolding insert_document
insert-All P d [] p h = (p, tt)
insert-All P d (e ∷ docs) p (q, h) = elim (Bool-cases (less e d)) [
  | inl before ↦ rw before (q, insert-All P d docs p h)
  | inr after ↦ rw after (p, (q, h))
]

All-insert :
    (P : Document → Type 0) (d : Document) (docs : List Document)
    → All P (insert_document d docs)
    → P d × All P docs
unfolding insert_document
All-insert P d [] (p, h) = (p, tt)
All-insert P d (e ∷ docs) h = elim (Bool-cases (less e d)) [
  | inl before ↦
      let (q, rest) = rw (before, insert_document) at h in
      let (p, k) = All-insert P d docs rest in (p, (q, k))
  | inr after ↦ rw (after, insert_document) at h
]

pub sort-All :
    (P : Document → Type 0) (docs : List Document) → All P docs → All P (sort_by_topology docs)
unfolding sort_by_topology
sort-All P [] h = tt
sort-All P (d ∷ docs) (p, h) = insert-All P d (sort_by_topology docs) p (sort-All P docs h)

pub All-sort :
    (P : Document → Type 0) (docs : List Document) → All P (sort_by_topology docs) → All P docs
unfolding sort_by_topology
All-sort P [] h = tt
All-sort P (d ∷ docs) h =
    let (p, k) = All-insert P d (sort_by_topology docs) h in (p, All-sort P docs k)

has_fqn-insert :
    (f : String) (d : Document) (docs : List Document)
    → has_fqn f (insert_document d docs) ≡ (if d.fqn == f then true else has_fqn f docs)
unfolding has_fqn insert_document
has_fqn-insert f d [] = refl
has_fqn-insert f d (e ∷ docs) = ground (arith, has_fqn-insert f d docs)

pub has_fqn-sort :
    (f : String) (docs : List Document) → has_fqn f (sort_by_topology docs) ≡ has_fqn f docs
unfolding has_fqn sort_by_topology
has_fqn-sort f [] = refl
has_fqn-sort f (d ∷ docs) = rw (has_fqn-insert f d (sort_by_topology docs), has_fqn-sort f docs)

length-insert :
    (d : Document) (docs : List Document) → length (insert_document d docs) ≡ suc (length docs)
unfolding insert_document
length-insert d [] = refl
length-insert d (e ∷ docs) = elim (Bool-cases (less e d)) [
  | inl before ↦ rw before (ap suc (length-insert d docs))
  | inr after ↦ rw after
]

pub length-sort : (docs : List Document) → length (sort_by_topology docs) ≡ length docs
unfolding sort_by_topology
length-sort [] = refl
length-sort (d ∷ docs) = length-insert d (sort_by_topology docs) ∙ ap suc (length-sort docs)

pub has_fqn-cons_inv :
    (f : String) (d : Document) (docs : List Document)
    → has_fqn f (d ∷ docs) ≡ false
    → ((d.fqn == f) ≡ false) × (has_fqn f docs ≡ false)
unfolding has_fqn
has_fqn-cons_inv f d docs h = ground arith

insert-Distinct :
    (d : Document) (docs : List Document)
    → has_fqn d.fqn docs ≡ false
    → Distinct docs
    → Distinct (insert_document d docs)
unfolding has_fqn insert_document
insert-Distinct d [] h k = (refl, tt)
insert-Distinct d (e ∷ docs) h (p, k) =
    let (apart, h') = has_fqn-cons_inv d.fqn e docs h in
    elim (Bool-cases (less e d)) [
      | inl before ↦ rw before (
        ground (arith, has_fqn-insert e.fqn d docs, eq_iff e.fqn d.fqn, eq_iff d.fqn e.fqn),
        insert-Distinct d docs h' k,
      )
      | inr after ↦ rw after (h, (p, k))
    ]

Distinct-insert :
    (d : Document) (docs : List Document)
    → Distinct (insert_document d docs)
    → (has_fqn d.fqn docs ≡ false) × Distinct docs
unfolding has_fqn insert_document
Distinct-insert d [] h = (refl, tt)
Distinct-insert d (e ∷ docs) h = elim (Bool-cases (less e d)) [
  | inl before ↦
      let (apart, rest) = rw (before, insert_document) at h in
      let (p, k) = Distinct-insert d docs rest in
      (
        ground (arith, has_fqn-insert e.fqn d docs, eq_iff e.fqn d.fqn, eq_iff d.fqn e.fqn),
        (ground (arith, has_fqn-insert e.fqn d docs), k),
      )
  | inr after ↦ rw (after, insert_document) at h
]

pub sort-Distinct : (docs : List Document) → Distinct docs → Distinct (sort_by_topology docs)
unfolding sort_by_topology
sort-Distinct [] h = tt
sort-Distinct (d ∷ docs) (p, h) =
    insert-Distinct d (sort_by_topology docs) (rw (has_fqn-sort d.fqn docs) p)
      (sort-Distinct docs h)

pub Distinct-sort : (docs : List Document) → Distinct (sort_by_topology docs) → Distinct docs
unfolding sort_by_topology
Distinct-sort [] h = tt
Distinct-sort (d ∷ docs) h =
    let (p, k) = Distinct-insert d (sort_by_topology docs) h in
    (rw (has_fqn-sort d.fqn docs) at p, Distinct-sort docs k)

less-le : (e d : Document) → less e d ≡ true → kind_order e.kind ≤ kind_order d.kind
unfolding less
less-le e d h = ground arith

not_less-le : (e d : Document) → less e d ≡ false → kind_order d.kind ≤ kind_order e.kind
unfolding less
not_less-le e d h = ground arith

All-trans :
    (d e : Document)
    → kind_order d.kind ≤ kind_order e.kind
    → (docs : List Document) → All (λ f. kind_order e.kind ≤ kind_order f.kind) docs
    → All (λ f. kind_order d.kind ≤ kind_order f.kind) docs
All-trans d e low [] h = tt
All-trans d e low (f ∷ docs) (p, h) = (omega arith, All-trans d e low docs h)

insert-IsSorted :
    (d : Document) (docs : List Document) → IsSorted docs → IsSorted (insert_document d docs)
unfolding insert_document
insert-IsSorted d [] h = (tt, tt)
insert-IsSorted d (e ∷ docs) (p, h) = elim (Bool-cases (less e d)) [
  | inl before ↦ rw before (
    insert-All (λ f. kind_order e.kind ≤ kind_order f.kind) d docs (less-le e d before) p,
    insert-IsSorted d docs h,
  )
  | inr after ↦
      let low = not_less-le e d after in rw after ((low, All-trans d e low docs p), (p, h))
]

pub sort-IsSorted : (docs : List Document) → IsSorted (sort_by_topology docs)
unfolding sort_by_topology
sort-IsSorted [] = tt
sort-IsSorted (d ∷ docs) = insert-IsSorted d (sort_by_topology docs) (sort-IsSorted docs)
