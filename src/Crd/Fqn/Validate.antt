-- ===== src/Crd/Fqn/Validate.antt =====
-- ValidateResourceID accepts exactly the IDs whose kinds are the chain of parents of the kind.
use mathlib.Core.Path.{subst}
use kompox.Prelude.{
  ◌≡◌, ◌↔◌, refl, sym, ap, ◌∙◌, inl, inr, true, some, String, List, [], ◌∷◌, ◌++◌, arith, All,
  All-append, All-append_left, All-append_right, snoc_of_ne-nil, Result-cases, snoc-ne-nil,
  snoc_inj, ok, eq_iff, eq_refl,
}
use kompox.Labels.{LabelRules}
use kompox.Crd.Types.{Kind, workspace, provider, cluster, app, box, other}
use kompox.Crd.Fqn.{
  kind_segments, kind_short_to_full, kind_full_to_short, last_name, validate_parent_chain,
  parse_resource_id, validate_resource_id,
}
use kompox.Crd.Fqn.Paths.{
  render, Plain, segments-render, kind_segments-render, kind_full_inv, kind_short_inv,
}
use kompox.Crd.Fqn.Parse.{Known, Known-Plain, parse-eq-ok_iff}
use kompox.Crd.Fqn.Chains.{
  kind_eq_sound, kind_eq_refl, lineage, kinds, chain-lineage, last_pair_kind-snoc, last_name-snoc,
  validate_parent_chain_sound, validate_parent_chain_complete, lineage_parts,
}

abbrev pub HasLabel : LabelRules → String × String → Type 0
HasLabel d p = d.is_label p.1 ≡ true

-- `id` is /ws/w/prv/p/…/own/name: its kinds are the lineage of `kind`, its names are labels, and
-- the last is `name`.
pub record IsResource (d : LabelRules) (id : String) (kind : Kind) (name : String) : Type 0 where
  pub parents : List (String × String)
  pub own : String
  pub line : kinds parents ++ own ∷ [] ≡ lineage kind
  pub labels : All (HasLabel d) parents
  pub label : d.is_label name ≡ true
  pub printed : id ≡ render (parents ++ (own, name) ∷ [])

pub kinds-append : (xs ys : List (String × String)) → kinds (xs ++ ys) ≡ kinds xs ++ kinds ys
kinds-append [] ys = refl
kinds-append ((k, n) ∷ xs) ys = ap (λ r. k ∷ r) (kinds-append xs ys)

abbrev IsShort : String → Type 0
IsShort k = (kind : Kind) × (kind_short_to_full k ≡ some kind)

lineage-IsShort : (kind : Kind) → All IsShort (lineage kind)
unfolding kind_short_to_full
lineage-IsShort workspace = ((_, refl), tt)
lineage-IsShort provider = ((_, refl), ((_, refl), tt))
lineage-IsShort cluster = ((_, refl), ((_, refl), ((_, refl), tt)))
lineage-IsShort app = ((_, refl), ((_, refl), ((_, refl), ((_, refl), tt))))
lineage-IsShort box = ((_, refl), ((_, refl), ((_, refl), ((_, refl), ((_, refl), tt)))))
lineage-IsShort (other s) = tt

lineage-own :
    (kind : Kind) (init : List String) (own : String)
    → init ++ own ∷ [] ≡ lineage kind
    → kind_short_to_full own ≡ some kind
lineage-own kind init own line =
    let (chain, short, ch, sh) =
      lineage_parts kind (λ empty. snoc-ne-nil init own (line ∙ empty)) in
    let (same, own_eq) =
      snoc_inj init chain own short (line ∙ chain-lineage kind chain short ch sh) in
    rw own_eq (kind_full_inv kind short sh)

module _ (d : LabelRules) where
  pub validate_inv :
      (id f : String) (kind : Kind) (name : String)
      → validate_resource_id d.is_label id kind name ≡ ok f
      → (parse_resource_id d.is_label id ≡ ok (f, kind))
        × (last_name f ≡ name)
        × (validate_parent_chain f kind ≡ ok tt)
  unfolding validate_resource_id
  validate_inv id f kind name h = elim (Result-cases (parse_resource_id d.is_label id)) [
    | inr (e, failed) ↦ absurd (ground arith)
    | inl ((g, k), parsed) ↦
        let h' = rw parsed at h in
        (
          ground (arith, kind_eq_sound k kind),
          ground (arith, eq_iff (last_name g) name),
          ground arith,
        )
  ]

  Known-labels : (pairs : List (String × String)) → All (Known d) pairs → All (HasLabel d) pairs
  Known-labels [] h = tt
  Known-labels (p ∷ pairs) (k, h) = (k.label, Known-labels pairs h)

  last_name-render :
      (init : List (String × String)) (own name : String)
      → All Plain (init ++ (own, name) ∷ [])
      → last_name (render (init ++ (own, name) ∷ [])) ≡ name
  unfolding last_name
  last_name-render init own name h =
      rw (segments-render (init ++ (own, name) ∷ []) (snoc-ne-nil init (own, name)) h)
        (last_name-snoc init own name)

  IsResource-of :
      (init : List (String × String)) (own n name id : String) (kind : Kind)
      → All (Known d) (init ++ (own, n) ∷ [])
      → id ≡ render (init ++ (own, n) ∷ [])
      → last_name id ≡ name
      → validate_parent_chain id kind ≡ ok tt
      → IsResource d id kind name
  IsResource-of init own n name id kind known printed named chained =
      let plain = Known-Plain d (init ++ (own, n) ∷ []) known in
      let n_eq : n ≡ name =
        sym (last_name-render init own n plain) ∙ ap last_name (sym printed) ∙ named in
      let segs : kind_segments id ≡ init ++ (own, n) ∷ [] =
        ap kind_segments printed ∙ kind_segments-render _ (snoc-ne-nil init (own, n)) plain in
      let labels = Known-labels (init ++ (own, n) ∷ []) known in
      record {
        parents = init;
        own = own;
        line = validate_parent_chain_sound id kind init own n segs chained;
        labels = All-append_left (HasLabel d) init ((own, n) ∷ []) labels;
        label = rw (← n_eq) ((All-append_right (HasLabel d) init ((own, n) ∷ []) labels).0);
        printed = printed ∙ ap (λ m. render (init ++ (own, m) ∷ [])) n_eq;
      }

  Known-of_short :
      (pairs : List (String × String))
      → All IsShort (kinds pairs)
      → All (HasLabel d) pairs
      → All (Known d) pairs
  Known-of_short [] h k = tt
  Known-of_short ((k, n) ∷ pairs) ((kind, short), h) (l, ls) =
      (record { kind = kind; short = short; label = l }, Known-of_short pairs h ls)

  validate-render :
      (init : List (String × String)) (own name : String) (kind : Kind)
      → All (Known d) (init ++ (own, name) ∷ [])
      → kinds init ++ own ∷ [] ≡ lineage kind
      → validate_resource_id d.is_label (render (init ++ (own, name) ∷ [])) kind name
        ≡ ok (render (init ++ (own, name) ∷ []))
  unfolding validate_resource_id
  validate-render init own name kind known line =
      let plain = Known-Plain d (init ++ (own, name) ∷ []) known in
      let id : String = render (init ++ (own, name) ∷ []) in
      let segs = kind_segments-render _ (snoc-ne-nil init (own, name)) plain in
      let parsed : parse_resource_id d.is_label id ≡ ok (id, kind) =
        (parse-eq-ok_iff d id id kind).1 (
          refl,
          record {
            pairs = init ++ (own, name) ∷ [];
            non_empty = snoc-ne-nil init (own, name);
            known = known;
            printed = refl;
            own =
                rw (last_pair_kind-snoc init (own, name)) (lineage-own kind (kinds init) own line);
          },
        ) in
      rw parsed (
        rw (kind_eq_refl kind) (
          rw (last_name-render init own name plain, eq_refl name)
            (rw (validate_parent_chain_complete id kind init own name segs line))))

  validate-IsResource :
      (id f : String) (kind : Kind) (name : String)
      → validate_resource_id d.is_label id kind name ≡ ok f
      → (f ≡ id) × IsResource d id kind name
  validate-IsResource id f kind name h =
      let (parsed, named, chained) = validate_inv id f kind name h in
      let (same, path) = (parse-eq-ok_iff d id f kind).0 parsed in
      let (init, (own, n), e) = snoc_of_ne-nil path.pairs path.non_empty in
      (
        same,
        IsResource-of init own n name id kind (subst (All (Known d)) e path.known)
            (path.printed ∙ ap render e) (subst (λ g. last_name g ≡ name) same named)
            (subst (λ g. validate_parent_chain g kind ≡ ok tt) same chained),
      )

  IsResource-validate :
      (id : String) (kind : Kind) (name : String)
      → IsResource d id kind name
      → validate_resource_id d.is_label id kind name ≡ ok id
  IsResource-validate id kind name r = rw r.printed (
      validate-render r.parents r.own name kind
        (Known-of_short (r.parents ++ (r.own, name) ∷ [])
          (rw (kinds-append r.parents ((r.own, name) ∷ []), r.line) (lineage-IsShort kind))
          (All-append (HasLabel d) r.parents ((r.own, name) ∷ []) r.labels (r.label, tt)))
        r.line)

  -- ValidateResourceID accepts a text for a kind and a name exactly if it is the path of that kind:
  -- its short kinds are the lineage of the kind, all its names are labels, and the last is the
  -- given name. It returns the text itself.
  pub validate-eq-ok_iff :
      (id f : String) (kind : Kind) (name : String)
      → (validate_resource_id d.is_label id kind name ≡ ok f)
        ↔ ((f ≡ id) × IsResource d id kind name)
  validate-eq-ok_iff id f kind name =
      (validate-IsResource id f kind name, λ (e, r). rw e (IsResource-validate id kind name r))

  pub IsResource-Plain :
      {id name : String} {kind : Kind} (r : IsResource d id kind name)
      → All Plain (r.parents ++ (r.own, name) ∷ [])
  IsResource-Plain {name} {kind} r = Known-Plain d (r.parents ++ (r.own, name) ∷ []) (
      Known-of_short (r.parents ++ (r.own, name) ∷ [])
        (rw (kinds-append r.parents ((r.own, name) ∷ []), r.line) (lineage-IsShort kind))
        (All-append (HasLabel d) r.parents ((r.own, name) ∷ []) r.labels (r.label, tt)))

  pub IsResource-own :
      {id name : String} {kind : Kind} (r : IsResource d id kind name)
      → kind_full_to_short kind ≡ some r.own
  IsResource-own {kind} r =
      kind_short_inv r.own kind (lineage-own kind (kinds r.parents) r.own r.line)
