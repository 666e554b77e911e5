-- ===== src/Crd/Validator/Parents.antt =====
-- A parent's ID has one pair less, so a parent is sorted before its children.
use mathlib.Core.Path.{subst}
use kompox.Prelude.{
  ◌+◌, ◌≤◌, ◌≡◌, ◌≢◌, ◌⊎◌, refl, sym, ap, ◌∙◌, String, Bool, true, false, inl, inr, List, [], ◌∷◌,
  ◌++◌, length, length-snoc, snoc_of_ne-nil, snoc-ne-nil, All, All-append_left, NoSlash, Bool-cases,
  trim_slash, split_slash-NoSlash, ◌||◌, arith, ◌==◌, eq_iff,
}
use kompox.Crd.Types.{Kind, workspace, provider, cluster, app, box, other, Document}
use kompox.Crd.Fqn.{segments, is_odd, kind_segments, parent_fqn}
use kompox.Crd.Fqn.Paths.{flatten, render, Plain, flatten-pair_up, kind_segments-render}
use kompox.Crd.Fqn.Chains.{flatten-append}
use kompox.Crd.Fqn.Parents.{parent_of-append_cons, slash-append}
use kompox.Crd.Validator.{kind_order, segments_differ}
use kompox.Crd.Validator.Spec.{has_fqn, has_fqn-append, IsKnown, IsGood}

segments-NoSlash : (f : String) → All NoSlash (segments f)
unfolding segments
segments-NoSlash f = elim (Bool-cases (f == "" || f == "/")) [
  | inl bare ↦ rw bare tt
  | inr long ↦ rw long (split_slash-NoSlash (trim_slash f))
]

Plain-of_NoSlash : (pairs : List (String × String)) → All NoSlash (flatten pairs) → All Plain pairs
Plain-of_NoSlash [] h = tt
Plain-of_NoSlash ((k, n) ∷ pairs) (p, (q, h)) = ((p, q), Plain-of_NoSlash pairs h)

-- The pairs of an ID that has some are its segments.
flatten-kind_segments : (f : String) → kind_segments f ≢ [] → flatten (kind_segments f) ≡ segments f
unfolding kind_segments
flatten-kind_segments f ne = elim (Bool-cases (is_odd (segments f))) [
  | inl odd ↦ absurd (ne (rw odd))
  | inr even ↦ rw even (flatten-pair_up (segments f) even)
]

parent_fqn_of_segments :
    (f : String) (p : String × String) (init : List (String × String)) (k n : String)
    → segments f ≡ flatten ((p ∷ init) ++ (k, n) ∷ [])
    → parent_fqn f ≡ render (p ∷ init)
unfolding parent_fqn
parent_fqn_of_segments f (j, m) init k n e = rw e (
    rw (flatten-append init ((k, n) ∷ []))
      (parent_of-append_cons j (m ∷ flatten init) k n ∙ slash-append _))

kind_segments-parent_snoc :
    (f : String) (init : List (String × String)) (k n : String)
    → kind_segments f ≡ init ++ (k, n) ∷ []
    → init ≢ []
    → kind_segments (parent_fqn f) ≡ init
kind_segments-parent_snoc f [] k n e ne = absurd (ne refl)
kind_segments-parent_snoc f (p ∷ init) k n e ne =
    let segs = flatten-kind_segments f (λ empty. snoc-ne-nil (p ∷ init) (k, n) (sym e ∙ empty)) in
    let plain =
      Plain-of_NoSlash (kind_segments f) (subst (All NoSlash) (sym segs) (segments-NoSlash f)) in
    ap kind_segments (parent_fqn_of_segments f p init k n (sym segs ∙ ap flatten e))
    ∙ kind_segments-render (p ∷ init) (cc)
        (All-append_left Plain (p ∷ init) ((k, n) ∷ []) (subst (All Plain) e plain))

-- ParentFQN drops the last pair of an ID that has at least two.
pub length-kind_segments-parent :
    (f : String)
    → 2 ≤ length (kind_segments f)
    → length (kind_segments (parent_fqn f)) + 1 ≡ length (kind_segments f)
length-kind_segments-parent f h =
    let (init, (k, n), e) = snoc_of_ne-nil (kind_segments f) (λ empty. absurd (ground arith)) in
    let len = ap (length {A = String × String}) e ∙ length-snoc init (k, n) in
    let ne : init ≢ [] =
      λ empty. absurd (omega (arith, len, ap (length {A = String × String}) empty)) in
    omega
      (arith, ap (length {A = String × String}) (kind_segments-parent_snoc f init k n e ne), len)

pub order_of_IsKnown :
    (k : Kind) → IsKnown k → (kind_order k ≤ 5) × ((k ≡ workspace) ⊎ (2 ≤ kind_order k))
unfolding kind_order
order_of_IsKnown workspace h = (omega arith, inl refl)
order_of_IsKnown provider h = (omega arith, inr (omega arith))
order_of_IsKnown cluster h = (omega arith, inr (omega arith))
order_of_IsKnown app h = (omega arith, inr (omega arith))
order_of_IsKnown box h = (omega arith, inr (omega arith))
order_of_IsKnown (other s) h = elim h [ ]

-- A document that passed the count has as many pairs as its kind's place in the order.
pub length-kind_segments-order :
    (d : Document)
    → IsKnown d.kind
    → segments_differ d ≡ false
    → length (kind_segments d.fqn) ≡ kind_order d.kind
unfolding segments_differ
length-kind_segments-order d known h =
    let (small, _) = order_of_IsKnown d.kind known in ground arith

module _ (is_label : String → Bool) where
  -- No document of the same or a later kind has the ID of the parent.
  parent_not_later :
      (d : Document) (all docs : List Document)
      → IsKnown d.kind
      → segments_differ d ≡ false
      → 2 ≤ kind_order d.kind
      → All (λ e. kind_order d.kind ≤ kind_order e.kind) docs
      → All (λ e. IsKnown e.kind) docs
      → All (IsGood is_label all) docs
      → has_fqn (parent_fqn d.fqn) docs ≡ false
  unfolding has_fqn
  parent_not_later d all [] known counted deep low ks gs = refl
  parent_not_later d all (e ∷ docs) known counted deep (l, low) (k, ks) (g, gs) =
      let len = length-kind_segments-order d known counted in
      let len' = length-kind_segments-order e k g.counted in
      let up = length-kind_segments-parent d.fqn (omega arith) in
      let rest = parent_not_later d all docs known counted deep low ks gs in
      elim (Bool-cases (e.fqn == parent_fqn d.fqn)) [
        | inr differ ↦ rw differ rest
        | inl same ↦
            let at =
              ap (λ f. length (kind_segments f)) ((eq_iff e.fqn (parent_fqn d.fqn)).0 same) in
            absurd (omega arith)
      ]

  -- In a sorted list of good documents the parent stands before its child.
  pub parent_before :
      (d : Document) (all done docs : List Document)
      → has_fqn (parent_fqn d.fqn) (done ++ d ∷ docs) ≡ true
      → IsKnown d.kind
      → segments_differ d ≡ false
      → 2 ≤ kind_order d.kind
      → All (λ e. kind_order d.kind ≤ kind_order e.kind) docs
      → All (λ e. IsKnown e.kind) docs
      → IsGood is_label all d
      → All (IsGood is_label all) docs
      → has_fqn (parent_fqn d.fqn) done ≡ true
  parent_before d all done docs found known counted deep low ks g gs = ground (
    arith,
    has_fqn-append (parent_fqn d.fqn) done (d ∷ docs),
    parent_not_later d all (d ∷ docs) known counted deep (omega arith, low) (known, ks) (g, gs),
  )
