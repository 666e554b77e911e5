-- ===== src/Crd/Validator/Accepts.antt =====
-- Validate accepts exactly the well-formed sets of documents.
use kompox.Prelude.{
  ◌≡◌, ◌↔◌, refl, sym, String, Bool, true, false, inl, inr, List, [], ◌∷◌, ◌++◌, All, All-map,
  arith, eq_iff, eq_refl,
}
use mathlib.Core.Path.{subst}
use mathlib.Core.List.{append_assoc}
use kompox.Crd.Types.{Document}
use kompox.Crd.Fqn.{parent_fqn}
use kompox.Crd.Validator.{sort_by_topology, validate}
use kompox.Crd.Validator.Spec.{has_fqn, has_fqn-append, Distinct, IsKnown, IsGood, WellFormed}
use kompox.Crd.Validator.Sorting.{
  IsSorted, sort-All, All-sort, has_fqn-sort, sort-Distinct, Distinct-sort, sort-IsSorted,
  has_fqn-cons_inv,
}
use kompox.Crd.Validator.Rounds.{Follows, OkFrom, rounds_clean_iff, rounds_clean-valid}
use kompox.Crd.Validator.Parents.{order_of_IsKnown, parent_before}

has_fqn-last : (d : Document) (done : List Document) → has_fqn d.fqn (done ++ d ∷ []) ≡ true
unfolding has_fqn
has_fqn-last d done = ground (arith, has_fqn-append d.fqn done (d ∷ []), eq_refl d.fqn)

fresh-nil : (docs : List Document) → All (λ d. has_fqn d.fqn [] ≡ false) docs
unfolding has_fqn
fresh-nil [] = tt
fresh-nil (d ∷ docs) = (refl, fresh-nil docs)

fresh-snoc :
    (done : List Document) (d : Document) (docs : List Document)
    → All (λ e. has_fqn e.fqn done ≡ false) docs
    → has_fqn d.fqn docs ≡ false
    → All (λ e. has_fqn e.fqn (done ++ d ∷ []) ≡ false) docs
unfolding has_fqn
fresh-snoc done d [] fs apart = tt
fresh-snoc done d (e ∷ docs) (f, fs) apart =
    let (differ, apart') = has_fqn-cons_inv d.fqn e docs apart in
    (
      ground (arith, has_fqn-append e.fqn done (d ∷ []), eq_iff e.fqn d.fqn, eq_iff d.fqn e.fqn),
      fresh-snoc done d docs fs apart',
    )

module _ (is_label : String → Bool) where
  -- More documents keep a document good.
  IsGood-append :
      (xs ys : List Document) (d : Document) → IsGood is_label xs d → IsGood is_label (xs ++ ys) d
  IsGood-append xs ys d g = record {
    counted = g.counted;
    parented = ground (arith, g.parented, has_fqn-append (parent_fqn d.fqn) xs ys);
    boxed = g.boxed;
  }

  pub OkFrom-IsGood :
      (done docs : List Document)
      → OkFrom is_label done docs
      → All (IsGood is_label (done ++ docs)) docs
  OkFrom-IsGood done [] h = tt
  OkFrom-IsGood done (d ∷ docs) (f, h) = (
    IsGood-append done (d ∷ docs) d f.good,
    subst (λ all. All (IsGood is_label all) docs) (append_assoc done (d ∷ []) docs)
        (OkFrom-IsGood (done ++ d ∷ []) docs h),
  )

  -- No later document has an ID of `done`.
  OkFrom-apart :
      (f : String) (done docs : List Document)
      → OkFrom is_label done docs
      → has_fqn f done ≡ true
      → has_fqn f docs ≡ false
  unfolding has_fqn
  OkFrom-apart f done [] h p = refl
  OkFrom-apart f done (d ∷ docs) (w, h) p = ground (
    arith,
    w.fresh,
    eq_iff d.fqn f,
    has_fqn-append f done (d ∷ []),
    OkFrom-apart f (done ++ d ∷ []) docs h,
  )

  pub OkFrom-Distinct : (done docs : List Document) → OkFrom is_label done docs → Distinct docs
  OkFrom-Distinct done [] h = tt
  OkFrom-Distinct done (d ∷ docs) (w, h) = (
    OkFrom-apart d.fqn (done ++ d ∷ []) docs h (has_fqn-last d done),
    OkFrom-Distinct (done ++ d ∷ []) docs h,
  )

  good-Follows :
      (done docs : List Document) (d : Document)
      → has_fqn d.fqn done ≡ false
      → IsSorted (d ∷ docs)
      → All (λ e. IsKnown e.kind) (d ∷ docs)
      → All (IsGood is_label (done ++ d ∷ docs)) (d ∷ docs)
      → Follows is_label done d
  good-Follows done docs d fresh (low, s) (k, ks) (g, gs) = record {
    fresh = fresh;
    good = record {
      counted = g.counted;
      boxed = g.boxed;
      parented = elim g.parented [
        | inl root ↦ inl root
        | inr found ↦ elim (order_of_IsKnown d.kind k).1 [
          | inl root ↦ inl root
          | inr deep ↦ inr (
              parent_before is_label d (done ++ d ∷ docs) done docs found k g.counted deep low ks g
                gs)
        ]
      ];
    };
  }

  OkFrom-of_good :
      (done docs : List Document)
      → All (λ d. has_fqn d.fqn done ≡ false) docs
      → Distinct docs
      → IsSorted docs
      → All (λ d. IsKnown d.kind) docs
      → All (IsGood is_label (done ++ docs)) docs
      → OkFrom is_label done docs
  OkFrom-of_good done [] fresh dist s ks gs = tt
  OkFrom-of_good done (d ∷ docs) (fresh, fs) (apart, dist) s ks gs = (
    good-Follows done docs d fresh s ks gs,
    OkFrom-of_good (done ++ d ∷ []) docs (fresh-snoc done d docs fs apart) dist s.1 ks.1 (
        subst (λ all. All (IsGood is_label all) docs) (sym (append_assoc done (d ∷ []) docs)) gs.1),
  )

  IsGood-sort :
      (docs : List Document) (d : Document)
      → IsGood is_label docs d ↔ IsGood is_label (sort_by_topology docs) d
  IsGood-sort docs d = (
    λ g. record {
      counted = g.counted;
      parented = ground (arith, g.parented, has_fqn-sort (parent_fqn d.fqn) docs);
      boxed = g.boxed;
    },
    λ g. record {
      counted = g.counted;
      parented = ground (arith, g.parented, has_fqn-sort (parent_fqn d.fqn) docs);
      boxed = g.boxed;
    },
  )

  OkFrom-sort_iff :
      (docs : List Document)
      → All (λ d. IsKnown d.kind) docs
      → OkFrom is_label [] (sort_by_topology docs) ↔ WellFormed is_label docs
  OkFrom-sort_iff docs known = (
    λ h. record {
      distinct = Distinct-sort docs (OkFrom-Distinct [] _ h);
      good =
          All-sort (IsGood is_label docs) docs
            (All-map _ _ (λ d. (IsGood-sort docs d).1) _ (OkFrom-IsGood [] _ h));
    },
    λ w.
        OkFrom-of_good [] (sort_by_topology docs) (fresh-nil _) (sort-Distinct docs w.distinct)
          (sort-IsSorted docs) (sort-All (λ d. IsKnown d.kind) docs known)
          (sort-All _ docs (All-map _ _ (λ d. (IsGood-sort docs d).0) _ w.good)),
  )

  -- Of documents of the known kinds, Validate reports no error exactly if no two have one ID and
  -- each has the number of pairs of its kind, a parent among the documents (in any place) unless
  -- it is a Workspace, and passes the checks of a Box if it is one.
  pub validate_accepts_iff :
      (docs : List Document)
      → All (λ d. IsKnown d.kind) docs
      → ((validate is_label docs).errors ≡ []) ↔ WellFormed is_label docs
  unfolding validate
  validate_accepts_iff docs known =
      let (to, from) = rounds_clean_iff is_label (sort_by_topology docs) in
      let (sound, complete) = OkFrom-sort_iff docs known in
      (λ h. sound (to h), λ w. from (complete w))

  pub validate_clean-valid :
      (docs : List Document)
      → (validate is_label docs).errors ≡ []
      → (validate is_label docs).valid_documents ≡ sort_by_topology docs
  unfolding validate
  validate_clean-valid docs h =
      rounds_clean-valid is_label (sort_by_topology docs)
        ((rounds_clean_iff is_label (sort_by_topology docs)).0 h)
