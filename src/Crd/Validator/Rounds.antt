-- ===== src/Crd/Validator/Rounds.antt =====
-- The loop of Validate, with its maps read as questions about the documents found valid so far.
use mathlib.Core.Path.{subst}
use mathlib.Core.List.{append-nil, append_assoc}
use kompox.Prelude.{
  ℕ, ◌+◌, ◌≡◌, ◌≢◌, ◌↔◌, refl, sym, ap, ◌∙◌, String, Bool, true, false, inl, inr, Option, none,
  some, List, [], ◌∷◌, ◌++◌, Option-cases, arith,
}
use kompox.Crd.Types.{workspace, Document}
use kompox.Crd.Fqn.{parent_fqn}
use kompox.Crd.Fqn.Chains.{kind_eq_sound, kind_eq_refl}
use kompox.Crd.Validator.{
  Message, ValidationError, Progress, seen_at, contains, check_document, error_of, reject, accept,
  start, round, rounds,
}
use kompox.Crd.Validator.Spec.{has_fqn, has_fqn-append, IsGood}

abbrev pub is_some {ℓ} : {A : Type ℓ} → Option A → Bool
is_some none = false
is_some (some a) = true

-- The two maps of the loop hold the IDs of the valid documents.
pub record Agrees (p : Progress) : Type 0 where
  pub seen : (f : String) → is_some (seen_at f p.seen) ≡ has_fqn f p.valid
  pub parents : (f : String) → contains f p.valid_parents ≡ has_fqn f p.valid

pub start-Agrees : Agrees start
unfolding seen_at contains has_fqn
start-Agrees = record { seen = λ f. refl; parents = λ f. refl }

snoc_append-ne-nil {ℓ} :
    {A : Type ℓ} (xs : List A) (x : A) (ys : List A) → (xs ++ x ∷ []) ++ ys ≢ []
snoc_append-ne-nil [] x ys = cc
snoc_append-ne-nil (y ∷ xs) x ys = cc

module _ (is_label : String → Bool) where
  -- A document that may follow `docs`.
  pub record Follows (docs : List Document) (d : Document) : Type 0 where
    pub fresh : has_fqn d.fqn docs ≡ false
    pub good : IsGood is_label docs d

  pub check-Follows :
      (p : Progress) (d : Document)
      → Agrees p
      → check_document is_label p d ≡ none
      → Follows p.valid d
  unfolding check_document
  check-Follows p d a h = record {
    fresh = ground (arith, a.seen d.fqn);
    good = record {
      counted = ground arith;
      parented = ground (arith, a.parents (parent_fqn d.fqn), kind_eq_sound d.kind workspace);
      boxed = ground arith;
    };
  }

  Follows-check :
      (p : Progress) (d : Document)
      → Agrees p
      → Follows p.valid d
      → check_document is_label p d ≡ none
  unfolding check_document
  Follows-check p d a f = ground (
    arith,
    a.seen d.fqn,
    a.parents (parent_fqn d.fqn),
    f.good.parented,
    f.good.counted,
    f.good.boxed,
    kind_eq_refl d.kind,
    kind_eq_sound d.kind workspace,
  )

  pub round-accept :
      (p : Progress) (i : ℕ) (d : Document)
      → check_document is_label p d ≡ none
      → round is_label p i d ≡ accept p i d
  unfolding round
  round-accept p i d h = rw (h, round)

  pub round-reject :
      (p : Progress) (i : ℕ) (d : Document) (m : Message)
      → check_document is_label p d ≡ some m
      → round is_label p i d ≡ reject p d m
  unfolding round
  round-reject p i d m h = rw (h, round)

  accept-Agrees : (p : Progress) (i : ℕ) (d : Document) → Agrees p → Agrees (accept p i d)
  unfolding seen_at contains has_fqn
  accept-Agrees p i d a = record {
    seen = λ f. ground (arith, a.seen f, has_fqn-append f p.valid (d ∷ []));
    parents = λ f. ground (arith, a.parents f, has_fqn-append f p.valid (d ∷ []));
  }

  pub round-Agrees :
      (p : Progress) (i : ℕ) (d : Document) → Agrees p → Agrees (round is_label p i d)
  round-Agrees p i d a = elim (Option-cases (check_document is_label p d)) [
    | inr (m, bad) ↦ rw (round-reject p i d m bad) (record { seen = a.seen; parents = a.parents })
    | inl good ↦ rw (round-accept p i d good) (accept-Agrees p i d a)
  ]

  -- Errors are only added.
  rounds-errors :
      (p : Progress) (i : ℕ) (docs : List Document)
      → (more : List ValidationError) × ((rounds is_label p i docs).errors ≡ p.errors ++ more)
  unfolding rounds
  rounds-errors p i [] = ([], sym (append-nil p.errors))
  rounds-errors p i (d ∷ docs) =
      let (more, e) = rounds-errors (round is_label p i d) (i + 1) docs in
      elim (Option-cases (check_document is_label p d)) [
        | inl good ↦ (more, e ∙ ap (λ (q : Progress). q.errors ++ more) (round-accept p i d good))
        | inr (m, bad) ↦ (
          error_of d m ∷ more,
          e
              ∙ ap (λ (q : Progress). q.errors ++ more) (round-reject p i d m bad)
              ∙ append_assoc p.errors (error_of d m ∷ []) more,
        )
      ]

  -- Each document follows the ones before it.
  abbrev pub OkFrom : List Document → List Document → Type 0
  OkFrom done [] = Unit
  OkFrom done (d ∷ docs) = Follows done d × OkFrom (done ++ d ∷ []) docs

  rounds-OkFrom :
      (p : Progress) (i : ℕ) (docs : List Document)
      → Agrees p
      → (rounds is_label p i docs).errors ≡ []
      → OkFrom p.valid docs
  unfolding rounds
  rounds-OkFrom p i [] a h = tt
  rounds-OkFrom p i (d ∷ docs) a h = elim (Option-cases (check_document is_label p d)) [
    | inl good ↦
        let e = round-accept p i d good in
        (
          check-Follows p d a good,
          rounds-OkFrom (accept p i d) (i + 1) docs (accept-Agrees p i d a)
              (subst (λ q. (rounds is_label q (i + 1) docs).errors ≡ []) e h),
        )
    | inr (m, bad) ↦
        let (more, e) = rounds-errors (round is_label p i d) (i + 1) docs in
        absurd (
          snoc_append-ne-nil p.errors (error_of d m) more
            (ap (λ (q : Progress). q.errors ++ more) (sym (round-reject p i d m bad)) ∙ sym e ∙ h))
  ]

  OkFrom-rounds :
      (p : Progress) (i : ℕ) (docs : List Document)
      → Agrees p
      → OkFrom p.valid docs
      → ((rounds is_label p i docs).errors ≡ p.errors)
        × ((rounds is_label p i docs).valid ≡ p.valid ++ docs)
  unfolding rounds
  OkFrom-rounds p i [] a h = (refl, sym (append-nil p.valid))
  OkFrom-rounds p i (d ∷ docs) a (f, h) =
      let e = round-accept p i d (Follows-check p d a f) in
      let (errors, valid) = OkFrom-rounds (accept p i d) (i + 1) docs (accept-Agrees p i d a) h in
      rw (e, rounds) (errors, valid ∙ append_assoc p.valid (d ∷ []) docs)

  pub rounds_clean_iff :
      (docs : List Document) → ((rounds is_label start 0 docs).errors ≡ []) ↔ OkFrom [] docs
  rounds_clean_iff docs =
      (rounds-OkFrom start 0 docs start-Agrees, λ h. (OkFrom-rounds start 0 docs start-Agrees h).0)

  pub rounds_clean-valid :
      (docs : List Document) → OkFrom [] docs → (rounds is_label start 0 docs).valid ≡ docs
  rounds_clean-valid docs h = (OkFrom-rounds start 0 docs start-Agrees h).1
