-- ===== src/Crd/Sink/Contents.antt =====
-- A sink holds each of its documents under the document's ID, and nothing else.
use kompox.Prelude.{
  ◌+◌, ◌≡◌, ◌≢◌, ◌↔◌, ◌⊎◌, ltb, refl, sym, ap, ◌∙◌, String, Bool, true, false, inl, inr, List, [],
  ◌∷◌, length, All, lookup, ok, arith, eq_iff,
}
use kompox.Crd.Types.{Object, Document}
use kompox.Crd.Validator.{ValidationError, ValidationResult, has_errors, validate, sort_by_topology}
use kompox.Crd.Validator.Spec.{has_fqn, Distinct, IsKnown, WellFormed}
use kompox.Crd.Validator.Sorting.{sort-All, All-sort, sort-Distinct, length-sort, has_fqn-cons_inv}
use kompox.Crd.Validator.Accepts.{validate_accepts_iff, validate_clean-valid}
use kompox.Crd.Sink.{
  Sink, empty, store_object, populate, new_sink, get_workspace, get_provider, get_cluster, get_app,
  get_box, count,
}
use kompox.Crd.Sink.Storing.{
  object_kind, IsTyped, Holds, IsFree, store-Holds, store-Holds_other, store-IsFree, store-count,
}

abbrev Stored : Sink → Document → Type 0
Stored s d = Holds s d.fqn d.object

abbrev AllFree : Sink → List Document → Type 0
AllFree s docs = All (λ d. IsFree s d.fqn) docs

-- What `populate` stores of a typed document.
step_eq :
    (s : Sink) (d : Document)
    → IsTyped d
    → store_object d.kind d.object d.fqn s ≡ store_object (object_kind d.object) d.object d.fqn s
step_eq s d t = ap (λ k. store_object k d.object d.fqn s) t

populate-Holds_other :
    (s : Sink) (docs : List Document) (f : String) (x : Object)
    → All IsTyped docs
    → has_fqn f docs ≡ false
    → Holds s f x
    → Holds (populate s docs) f x
unfolding populate
populate-Holds_other s [] f x ts fresh h = h
populate-Holds_other s (d ∷ docs) f x (t, ts) fresh h =
    let (differ, fresh') = has_fqn-cons_inv f d docs fresh in
    populate-Holds_other (store_object d.kind d.object d.fqn s) docs f x ts fresh'
      (rw (step_eq s d t) (store-Holds_other d.object d.fqn f s x differ h))

populate-Stored :
    (s : Sink) (docs : List Document)
    → All IsTyped docs
    → Distinct docs
    → All (Stored (populate s docs)) docs
unfolding populate
populate-Stored s [] ts h = tt
populate-Stored s (d ∷ docs) (t, ts) (apart, h) = (
  populate-Holds_other (store_object d.kind d.object d.fqn s) docs d.fqn d.object ts apart
      (rw (step_eq s d t) (store-Holds d.object d.fqn s)),
  populate-Stored (store_object d.kind d.object d.fqn s) docs ts h,
)

store-AllFree :
    (s : Sink) (d : Document) (docs : List Document)
    → IsTyped d
    → has_fqn d.fqn docs ≡ false
    → AllFree s docs
    → AllFree (store_object d.kind d.object d.fqn s) docs
store-AllFree s d [] t apart h = tt
store-AllFree s d (e ∷ docs) t apart (f, h) =
    let (differ, apart') = has_fqn-cons_inv d.fqn e docs apart in
    (
      rw (step_eq s d t) (
          store-IsFree d.object d.fqn e.fqn s
            (ground (arith, eq_iff e.fqn d.fqn, eq_iff d.fqn e.fqn)) f),
      store-AllFree s d docs t apart' h,
    )

populate-count :
    (s : Sink) (docs : List Document)
    → All IsTyped docs
    → Distinct docs
    → AllFree s docs
    → count (populate s docs) ≡ count s + length docs
unfolding populate
populate-count s [] ts h free = omega arith
populate-count s (d ∷ docs) (t, ts) (apart, h) (f, free) =
    populate-count (store_object d.kind d.object d.fqn s) docs ts h
      (store-AllFree s d docs t apart free)
    ∙ omega (arith, ap count (step_eq s d t) ∙ store-count d.object d.fqn s f)

empty-AllFree : (docs : List Document) → AllFree empty docs
unfolding get_workspace get_provider get_cluster get_app get_box lookup
empty-AllFree [] = tt
empty-AllFree (d ∷ docs) = (
  record { workspace = refl; provider = refl; cluster = refl; app = refl; box = refl },
  empty-AllFree docs,
)

has_errors-cases :
    (r : ValidationResult)
    → ((has_errors r ≡ true) × (r.errors ≢ [])) ⊎ ((has_errors r ≡ false) × (r.errors ≡ []))
unfolding has_errors
has_errors-cases r = go r.errors
  where
    go :
        (es : List ValidationError)
        → ((ltb 0 (length es) ≡ true) × (es ≢ [])) ⊎ ((ltb 0 (length es) ≡ false) × (es ≡ []))
    go [] = inr (refl, refl)
    go (e ∷ es) = inl (ground arith, cc)

no_errors : (r : ValidationResult) → r.errors ≡ [] → has_errors r ≡ false
unfolding has_errors
no_errors r h = ground arith

module _ (is_label : String → Bool) where
  pub new_sink_inv :
      (docs : List Document) (s : Sink)
      → new_sink is_label docs ≡ ok s
      → ((validate is_label docs).errors ≡ [])
        × (populate empty (validate is_label docs).valid_documents ≡ s)
  unfolding new_sink
  new_sink_inv docs s h = elim (has_errors-cases (validate is_label docs)) [
    | inl (failed, _) ↦ absurd (cc (rw failed at h))
    | inr (passed, clean) ↦ (clean, ground arith)
  ]

  -- NewSink succeeds on documents of the known kinds exactly if they are well formed.
  pub new_sink_succeeds_iff :
      (docs : List Document)
      → All (λ d. IsKnown d.kind) docs
      → ((s : Sink) × (new_sink is_label docs ≡ ok s)) ↔ WellFormed is_label docs
  unfolding new_sink
  new_sink_succeeds_iff docs known =
      let (to, from) = validate_accepts_iff is_label docs known in
      (
        λ (s, h). to (new_sink_inv docs s h).0,
        λ w. (
          populate empty (validate is_label docs).valid_documents,
          rw (no_errors (validate is_label docs) (from w), new_sink),
        ),
      )

  -- A sink that NewSink made of typed documents of the known kinds returns each of their objects
  -- at its ID, and counts as many as there are documents: it holds nothing else.
  pub new_sink-contents :
      (docs : List Document) (s : Sink)
      → All (λ d. IsKnown d.kind) docs
      → All IsTyped docs
      → new_sink is_label docs ≡ ok s
      → All (λ d. Holds s d.fqn d.object) docs × (count s ≡ length docs)
  unfolding count
  new_sink-contents docs s known typed h =
      let (clean, made) = new_sink_inv docs s h in
      let sorted = validate_clean-valid is_label docs clean in
      let made' = ap (populate empty) (sym sorted) ∙ made in
      let w = (validate_accepts_iff is_label docs known).0 clean in
      let typed' = sort-All IsTyped docs typed in
      let distinct' = sort-Distinct docs w.distinct in
      (
        All-sort (Stored s) docs
            (rw (← made') (populate-Stored empty (sort_by_topology docs) typed' distinct')),
        sym (ap count made')
            ∙ populate-count empty (sort_by_topology docs) typed' distinct' (empty-AllFree _)
            ∙ omega (arith, length-sort docs),
      )
