-- ===== src/Crd/Fqn/Parse.antt =====
-- ParseResourceID accepts exactly the printed lists of known kinds and valid names.
use kompox.Prelude.{
  suc, ◌-◌, ◌≡◌, ◌≢◌, ◌↔◌, refl, sym, ap, ◌∙◌, inl, inr, true, false, some, String, List, [], ◌∷◌,
  arith, leb, Option-cases, length, get_or, All, has_slash, is_slash, ok,
}
use kompox.Labels.{LabelRules}
use kompox.Crd.Types.{Kind, other}
use kompox.Crd.Fqn.{
  segments, pair_up, is_odd, kind_short_to_full, last_pair_kind, check_pairs, parse_resource_id,
}
use kompox.Crd.Fqn.Paths.{
  flatten, render, Plain, pair_up-flatten, is_odd-flatten, length-flatten, segments-render,
  render-segments, kind_short-NoSlash,
}

module _ (d : LabelRules) where
  -- A short kind name that the code knows, and a valid name.
  pub record Known (p : String × String) : Type 0 where
    pub kind : Kind
    pub short : kind_short_to_full p.0 ≡ some kind
    pub label : d.is_label p.1 ≡ true

  -- `id` is /k1/n1/k2/n2… for at least one pair, and the last kind is `kind`.
  pub record IsPath (id : String) (kind : Kind) : Type 0 where
    pub pairs : List (String × String)
    pub non_empty : pairs ≢ []
    pub known : All Known pairs
    pub printed : id ≡ render pairs
    pub own : kind_short_to_full (last_pair_kind pairs) ≡ some kind

  pub Known-Plain : (pairs : List (String × String)) → All Known pairs → All Plain pairs
  Known-Plain [] h = tt
  Known-Plain ((k, n) ∷ pairs) (p, h) =
      ((kind_short-NoSlash k p.kind p.short, d.no_slash n p.label), Known-Plain pairs h)

last_pair_kind-cons :
    (p q : String × String) (pairs : List (String × String))
    → last_pair_kind (p ∷ q ∷ pairs) ≡ last_pair_kind (q ∷ pairs)
last_pair_kind-cons p q pairs =
    let e : suc (suc (length pairs)) - 1 ≡ suc (suc (length pairs) - 1) = omega arith in
    ap (λ i. (get_or (p ∷ q ∷ pairs) i ("", "")).0) e

pair_up_cons :
    (segs : List String)
    → leb 2 (length segs) ≡ true
    → (p : String × String) × (pairs : List (String × String)) × (pair_up segs ≡ p ∷ pairs)
unfolding pair_up
pair_up_cons [] h = ground arith
pair_up_cons (k ∷ []) h = ground arith
pair_up_cons (k ∷ n ∷ segs) h = ((k, n), pair_up segs, refl)

long-flatten :
    (p : String × String) (pairs : List (String × String))
    → leb 2 (length (flatten (p ∷ pairs))) ≡ true
long-flatten p pairs = ground (arith, length-flatten (p ∷ pairs))

long-ne-nil : (segs : List String) → leb 2 (length segs) ≡ true → segs ≢ []
long-ne-nil segs h = ground arith

module _ (d : LabelRules) where
  check_pairs_inv :
      (k n : String) (pairs : List (String × String)) (full kind : Kind)
      → check_pairs d.is_label ((k, n) ∷ pairs) full ≡ ok kind
      → (f : Kind) × (kind_short_to_full k ≡ some f)
        × (d.is_label n ≡ true)
        × (check_pairs d.is_label pairs f ≡ ok kind)
  unfolding check_pairs
  check_pairs_inv k n pairs full kind h = elim (Option-cases (kind_short_to_full k)) [
    | inl unknown ↦ absurd (cc (rw unknown at h))
    | inr (f, short) ↦ (f, short, ground arith, ground arith)
  ]

  check_pairs_sound :
      (p : String × String) (pairs : List (String × String)) (full kind : Kind)
      → check_pairs d.is_label (p ∷ pairs) full ≡ ok kind
      → All (Known d) (p ∷ pairs) × (kind_short_to_full (last_pair_kind (p ∷ pairs)) ≡ some kind)
  unfolding check_pairs
  check_pairs_sound (k, n) [] full kind h =
      let (f, short, label, same) = check_pairs_inv k n [] full kind h in
      ((record { kind = f; short = short; label = label }, tt), ground arith)
  check_pairs_sound (k, n) (q ∷ pairs) full kind h =
      let (f, short, label, rest) = check_pairs_inv k n (q ∷ pairs) full kind h in
      let (known, own) = check_pairs_sound q pairs f kind rest in
      ((record { kind = f; short = short; label = label }, known), rw last_pair_kind-cons own)

  check_pairs_complete :
      (p : String × String) (pairs : List (String × String)) (full kind : Kind)
      → All (Known d) (p ∷ pairs)
      → kind_short_to_full (last_pair_kind (p ∷ pairs)) ≡ some kind
      → check_pairs d.is_label (p ∷ pairs) full ≡ ok kind
  unfolding check_pairs
  check_pairs_complete (k, n) [] full kind (p, _) h = rw (p.short, p.label) (ground arith)
  check_pairs_complete (k, n) (q ∷ pairs) full kind (p, ps) h =
      rw (p.short, p.label)
        (check_pairs_complete q pairs p.kind kind ps (rw last_pair_kind-cons at h))

  pub parse_inv :
      (id f : String) (kind : Kind)
      → parse_resource_id d.is_label id ≡ ok (f, kind)
      → (f ≡ id)
        × (has_slash id ≡ true)
        × (is_odd (segments id) ≡ false)
        × (leb 2 (length (segments id)) ≡ true)
        × (check_pairs d.is_label (pair_up (segments id)) (other "") ≡ ok kind)
  unfolding parse_resource_id
  parse_inv id f kind h = (ground arith, ground arith, ground arith, ground arith, ground arith)

  parse-IsPath :
      (id f : String) (kind : Kind)
      → parse_resource_id d.is_label id ≡ ok (f, kind)
      → (f ≡ id) × IsPath d id kind
  parse-IsPath id f kind h =
      let (same, slashed, even, long, checked) = parse_inv id f kind h in
      let (p, pairs, e) = pair_up_cons (segments id) long in
      let (known, own) = check_pairs_sound p pairs (other "") kind (rw e at checked) in
      let printed : render (p ∷ pairs) ≡ id =
        ap render (sym e) ∙ render-segments id slashed even (long-ne-nil (segments id) long) in
      (
        same,
        record {
          pairs = p ∷ pairs;
          non_empty = cc;
          known = known;
          printed = sym printed;
          own = own;
        },
      )

  parse-render :
      (p : String × String) (pairs : List (String × String)) (kind : Kind)
      → All (Known d) (p ∷ pairs)
      → kind_short_to_full (last_pair_kind (p ∷ pairs)) ≡ some kind
      → parse_resource_id d.is_label (render (p ∷ pairs)) ≡ ok (render (p ∷ pairs), kind)
  unfolding parse_resource_id has_slash is_slash
  parse-render p pairs kind known own =
      let segs = segments-render (p ∷ pairs) (cc) (Known-Plain d (p ∷ pairs) known) in
      rw segs (
        rw (is_odd-flatten (p ∷ pairs), pair_up-flatten (p ∷ pairs))
          (rw (long-flatten p pairs, check_pairs_complete p pairs (other "") kind known own)))

  IsPath-parse :
      (id : String) (kind : Kind)
      → IsPath d id kind
      → parse_resource_id d.is_label id ≡ ok (id, kind)
  IsPath-parse id kind p = go p.pairs p.non_empty p.known p.own p.printed
    where
      go :
          (pairs : List (String × String))
          → pairs ≢ []
          → All (Known d) pairs
          → kind_short_to_full (last_pair_kind pairs) ≡ some kind
          → id ≡ render pairs
          → parse_resource_id d.is_label id ≡ ok (id, kind)
      go [] ne known own e = absurd (ne refl)
      go (q ∷ pairs) ne known own e = rw e (parse-render q pairs kind known own)

  -- ParseResourceID returns the text itself with a kind exactly if the text is /k1/n1/k2/n2… for at
  -- least one pair, every kind is one of the five short names, every name is a label, and the
  -- last kind is the one returned.
  pub parse-eq-ok_iff :
      (id f : String) (kind : Kind)
      → (parse_resource_id d.is_label id ≡ ok (f, kind)) ↔ ((f ≡ id) × IsPath d id kind)
  parse-eq-ok_iff id f kind = (parse-IsPath id f kind, λ (e, p). rw e (IsPath-parse id kind p))
