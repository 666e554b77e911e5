-- ===== src/Crd/Validator/Keeps.antt =====
-- What holds of the valid documents also when others are refused.
use mathlib.Core.List.{append-nil, append_assoc}
use kompox.Prelude.{
  ℕ, ◌+◌, ◌≡◌, refl, String, Bool, inl, inr, List, [], ◌∷◌, ◌++◌, length, length-snoc, Option-cases,
  arith,
}
use kompox.Crd.Types.{Document}
use kompox.Crd.Validator.{
  Progress, start, error_of, check_document, round, rounds, sort_by_topology, validate,
}
use kompox.Crd.Validator.Spec.{WellFormed}
use kompox.Crd.Validator.Sorting.{length-sort}
use kompox.Crd.Validator.Rounds.{
  Agrees, Follows, OkFrom, check-Follows, round-accept, round-reject, round-Agrees, start-Agrees,
}
use kompox.Crd.Validator.Accepts.{OkFrom-Distinct, OkFrom-IsGood}

module _ (is_label : String → Bool) where
  OkFrom-snoc :
      (done docs : List Document) (d : Document)
      → OkFrom is_label done docs
      → Follows is_label (done ++ docs) d
      → OkFrom is_label done (docs ++ d ∷ [])
  OkFrom-snoc done [] d h f = (rw append-nil at f, tt)
  OkFrom-snoc done (e ∷ docs) d (w, h) f =
      (w, OkFrom-snoc (done ++ e ∷ []) docs d h (rw (append_assoc done (e ∷ []) docs) f))

  -- The loop's invariant.
  record Keeps (p : Progress) (i : ℕ) : Type 0 where
    agrees : Agrees p
    ordered : OkFrom is_label [] p.valid
    counted : length p.valid + length p.errors ≡ i

  round-Keeps :
      (p : Progress) (i : ℕ) (d : Document) → Keeps p i → Keeps (round is_label p i d) (i + 1)
  round-Keeps p i d k = record {
    agrees = round-Agrees is_label p i d k.agrees;
    ordered = elim (Option-cases (check_document is_label p d)) [
      | inl good ↦
          rw (round-accept is_label p i d good)
            (OkFrom-snoc [] p.valid d k.ordered (check-Follows is_label p d k.agrees good))
      | inr (m, bad) ↦ rw (round-reject is_label p i d m bad) k.ordered
    ];
    counted = elim (Option-cases (check_document is_label p d)) [
      | inl good ↦
          rw (round-accept is_label p i d good) (omega (arith, k.counted, length-snoc p.valid d))
      | inr (m, bad) ↦
          rw (round-reject is_label p i d m bad)
            (omega (arith, k.counted, length-snoc p.errors (error_of d m)))
    ];
  }

  rounds-Keeps :
      (p : Progress) (i : ℕ) (docs : List Document)
      → Keeps p i
      → Keeps (rounds is_label p i docs) (i + length docs)
  unfolding rounds
  rounds-Keeps p i [] k = record {
    agrees = k.agrees;
    ordered = k.ordered;
    counted = omega (arith, k.counted);
  }
  rounds-Keeps p i (d ∷ docs) k =
      let r = rounds-Keeps (round is_label p i d) (i + 1) docs (round-Keeps p i d k) in
      record { agrees = r.agrees; ordered = r.ordered; counted = omega (arith, r.counted) }

  start-Keeps : Keeps start 0
  start-Keeps = record { agrees = start-Agrees; ordered = tt; counted = refl }

  -- Whatever the documents, those that Validate calls valid form a well-formed set on their own:
  -- no two have one ID, and each has its kind's number of pairs, its parent among them unless it
  -- is a Workspace, and passes the checks of a Box if it is one.
  pub validate-WellFormed :
      (docs : List Document) → WellFormed is_label (validate is_label docs).valid_documents
  unfolding validate
  validate-WellFormed docs =
      let k = rounds-Keeps start 0 (sort_by_topology docs) start-Keeps in
      record {
        distinct = OkFrom-Distinct is_label [] _ k.ordered;
        good = OkFrom-IsGood is_label [] _ k.ordered;
      }

  -- The valid documents and the errors of Validate are together as many as the documents given.
  pub validate_partition :
      (docs : List Document)
      → length (validate is_label docs).valid_documents + length (validate is_label docs).errors
        ≡ length docs
  unfolding validate
  validate_partition docs =
      let k = rounds-Keeps start 0 (sort_by_topology docs) start-Keeps in
      omega (arith, k.counted, length-sort docs)
