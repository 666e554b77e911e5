-- ===== src/Crd/Convert/Parents.antt =====
-- The kind of a resource whose ID is the parent of another's.
use kompox.Prelude.{
  ℕ, ◌+◌, ◌-◌, nat_eq, if◌then◌else◌, ◌≡◌, ◌≢◌, refl, sym, ap, ◌∙◌, String, some, List, [], ◌∷◌,
  ◌++◌, All, All-append_left, length, length-append, snoc-ne-nil, lookup, ok, found, bind-eq-ok,
  arith,
}
use mathlib.Core.Path.{subst}
use kompox.Labels.{LabelRules}
use kompox.Crd.Types.{Kind, workspace, provider, cluster, app, box, other, StringMap}
use kompox.Crd.Fqn.{
  annotation_id, extract_resource_id, kind_segments, parent_fqn, kind_full_to_short,
}
use kompox.Crd.Fqn.Paths.{Plain, kind_segments-render}
use kompox.Crd.Fqn.Parents.{render_parents, parent_fqn-render}
use kompox.Crd.Fqn.Chains.{lineage, kinds, length-kinds}
use kompox.Crd.Fqn.Validate.{IsResource, IsResource-Plain, IsResource-own, validate-eq-ok_iff}

-- How deep a kind lies, and back.
abbrev pub kind_at : ℕ → Kind
kind_at n =
    if nat_eq n 1
    then workspace
    else if nat_eq n 2
    then provider
    else if nat_eq n 3
    then cluster
    else if nat_eq n 4
    then app
    else box

kind_at-lineage :
    (k : Kind) (own : String) → kind_full_to_short k ≡ some own → k ≡ kind_at (length (lineage k))
unfolding kind_full_to_short
kind_at-lineage workspace own h = refl
kind_at-lineage provider own h = refl
kind_at-lineage cluster own h = refl
kind_at-lineage app own h = refl
kind_at-lineage box own h = refl
kind_at-lineage (other s) own h = absurd (cc h)

module _ (d : LabelRules) where
  -- An ID that the annotations give is valid.
  pub extract-IsResource :
      (kind : Kind) (name f : String) (annotations : StringMap)
      → extract_resource_id d.is_label kind name annotations ≡ ok f
      → IsResource d f kind name
  unfolding extract_resource_id
  extract-IsResource kind name f annotations h =
      let (id, there, valid) = bind-eq-ok (found (lookup annotation_id annotations) _) _ f h in
      let (same, r) = (validate-eq-ok_iff d id f kind name).0 valid in
      subst (λ i. IsResource d i kind name) (sym same) r

  IsResource-depth :
      (f : String) (kind : Kind) (name : String)
      → (r : IsResource d f kind name) → length r.parents + 1 ≡ length (lineage kind)
  IsResource-depth f kind name r =
      sym (length-append (kinds r.parents) (r.own ∷ []) ∙ omega (arith, length-kinds r.parents))
      ∙ ap length r.line

  IsResource-segments :
      (f : String) (kind : Kind) (name : String)
      → IsResource d f kind name
      → length (kind_segments f) ≡ length (lineage kind)
  IsResource-segments f kind name r =
      ap (λ g. length (kind_segments g)) r.printed
      ∙ ap length (
          kind_segments-render (r.parents ++ (r.own, name) ∷ [])
            (snoc-ne-nil r.parents (r.own, name)) (IsResource-Plain d r))
      ∙ length-append r.parents ((r.own, name) ∷ [])
      ∙ IsResource-depth f kind name r

  segments-parents :
      (parents : List (String × String))
      → parents ≢ []
      → All Plain parents
      → length (kind_segments (render_parents parents)) ≡ length parents
  segments-parents [] ne h = absurd (ne refl)
  segments-parents (p ∷ parents) ne h = ap length (kind_segments-render (p ∷ parents) ne h)

  IsResource-kind_at :
      {f name : String} {kind : Kind}
      → IsResource d f kind name
      → kind ≡ kind_at (length (lineage kind))
  IsResource-kind_at {kind = kind} r = kind_at-lineage kind r.own (IsResource-own d r)

  -- The parent's ID is one pair shorter, so its kind is the one before.
  pub parent-kind :
      {f g name own : String} {kind above : Kind}
      → IsResource d f kind name
      → IsResource d g above own
      → g ≡ parent_fqn f
      → kind ≢ workspace
      → above ≡ kind_at (length (lineage kind) - 1)
  parent-kind {f} {g} {name} {own} {kind} {above} r s e child =
      let depth = IsResource-depth f kind name r in
      let ne : r.parents ≢ [] = λ bare.
        child (IsResource-kind_at r ∙ ap kind_at (sym depth ∙ ap (λ ps. length ps + 1) bare)) in
      let plain = IsResource-Plain d r in
      let up : g ≡ render_parents r.parents =
        e ∙ ap parent_fqn r.printed ∙ parent_fqn-render r.parents r.own name plain in
      let same : length (lineage above) ≡ length r.parents =
        sym (IsResource-segments g above own s)
        ∙ ap (λ h. length (kind_segments h)) up
        ∙ segments-parents r.parents ne
            (All-append_left Plain r.parents ((r.own, name) ∷ []) plain) in
      let one : length (lineage above) ≡ length (lineage kind) - 1 = omega (arith, same, depth) in
      IsResource-kind_at s ∙ ap kind_at one
