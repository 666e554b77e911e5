-- ===== src/Crd/Fqn/Build.antt =====
-- BuildResourceID and ParentFQN undo one another on valid IDs.
use mathlib.Core.Path.{subst}
use text.Mathlib.TextLemmas.{append_cancel_right}
use kompox.Prelude.{
  some_inj, ◌≡◌, ◌↔◌, refl, sym, ap, ◌∙◌, inl, inr, some, String, arith, Option-cases, Result-cases,
  append, ok, eq-false_of_ne,
}
use kompox.Labels.{LabelRules}
use kompox.Crd.Types.{Kind}
use kompox.Crd.Fqn.{
  kind_full_to_short, parent_fqn, validate_resource_id, construct, build_resource_id,
}
use kompox.Crd.Fqn.Validate.{IsResource, IsResource-Plain, IsResource-own, validate-eq-ok_iff}
use kompox.Crd.Fqn.Chains.{lineage}
use kompox.Crd.Fqn.Parents.{
  render_parents, parent_fqn-render, tail_of, kind_cases, construct_child, construct_child_inv,
  construct_root, root_text, workspace_line, child_line, render_parents_lem,
}

module _ (d : LabelRules) where
  parent_fqn_of :
      {f name : String} {kind : Kind} (r : IsResource d f kind name)
      → parent_fqn f ≡ render_parents r.parents
  parent_fqn_of {name} r =
      ap parent_fqn r.printed ∙ parent_fqn-render r.parents r.own name (IsResource-Plain d r)

  -- The text that is put together from a resource's parent is the resource's ID.
  construct_of :
      (f name : String) (kind : Kind) (r : IsResource d f kind name) (short : String)
      → short ≡ r.own
      → construct (parent_fqn f) kind short name ≡ ok f
  construct_of f name kind r short e = elim (kind_cases kind) [
    | inl root ↦
        let (no_parents, ws) = workspace_line r.parents r.own (r.line ∙ ap lineage root) in
        let text : f ≡ append "/ws/" name = r.printed ∙ cc (no_parents, ws, root_text name) in
        rw (root, parent_fqn_of r, no_parents) (ap ok (sym text))
    | inr child ↦
        let (ne, joined) =
          render_parents_lem r.parents r.own name (child_line kind r.parents r.own r.line child) in
        construct_child (parent_fqn f) kind short name child
        ∙ (rw (parent_fqn_of r, eq-false_of_ne _ "" ne)
            (ap ok (
              ap (λ k. append (render_parents r.parents) (tail_of k name)) e
              ∙ sym joined
              ∙ sym r.printed)))
  ]

  -- A text that is put together from `parent` and is a resource's ID has that parent.
  parent_of_construct :
      (parent f name : String) (kind : Kind) (r : IsResource d f kind name) (short : String)
      → short ≡ r.own
      → construct parent kind short name ≡ ok f
      → parent_fqn f ≡ parent
  parent_of_construct parent f name kind r short e h = elim (kind_cases kind) [
    | inl root ↦
        let (no_parents, ws) = workspace_line r.parents r.own (r.line ∙ ap lineage root) in
        parent_fqn_of r
        ∙ ap render_parents no_parents
        ∙ sym (construct_root parent short name (rw root at h))
    | inr child ↦
        let (ne, joined) =
          render_parents_lem r.parents r.own name (child_line kind r.parents r.own r.line child) in
        let made : append parent (tail_of short name) ≡ f =
          construct_child_inv parent short name
            (sym (construct_child parent kind short name child) ∙ h) in
        parent_fqn_of r
        ∙ append_cancel_right _ parent (tail_of r.own name)
            (sym joined ∙ sym r.printed ∙ sym made ∙ ap (λ k. append parent (tail_of k name)) e)
  ]

  build_inv :
      (parent f name : String) (kind : Kind)
      → build_resource_id d.is_label parent kind name ≡ ok f
      → (short : String) × (kind_full_to_short kind ≡ some short)
        × (construct parent kind short name ≡ ok f)
        × (validate_resource_id d.is_label f kind name ≡ ok f)
  unfolding build_resource_id
  build_inv parent f name kind h = elim (Option-cases (kind_full_to_short kind)) [
    | inl no_short ↦ absurd (ground arith)
    | inr (short, s) ↦ elim (Result-cases (construct parent kind short name)) [
      | inr (e, failed) ↦ absurd (ground arith)
      | inl (g, made) ↦ elim (Result-cases (validate_resource_id d.is_label g kind name)) [
        | inr (e, failed) ↦ absurd (ground arith)
        | inl (g', valid) ↦
            let same : g ≡ f = ground arith in
            let kept = (validate-eq-ok_iff d g g' kind name).0 valid in
            (
              short,
              s,
              made ∙ ap ok same,
              subst (λ x. validate_resource_id d.is_label x kind name ≡ ok x) same
                  (valid ∙ ap ok kept.0),
            )
      ]
    ]
  ]

  -- BuildResourceID makes `f` of a parent, a kind and a name exactly if `f` is a valid ID of that
  -- kind and name, and its ParentFQN is that parent (empty for a workspace).
  pub build-eq-ok_iff :
      (parent f name : String) (kind : Kind)
      → (build_resource_id d.is_label parent kind name ≡ ok f)
        ↔ ((validate_resource_id d.is_label f kind name ≡ ok f) × (parent_fqn f ≡ parent))
  unfolding build_resource_id
  build-eq-ok_iff parent f name kind = (
    λ h.
        let (short, s, made, valid) = build_inv parent f name kind h in
        let r = ((validate-eq-ok_iff d f f kind name).0 valid).1 in
        (
          valid,
          parent_of_construct parent f name kind r short (some_inj (sym s ∙ IsResource-own d r))
              made,
        ),
    λ (valid, e).
        let r = ((validate-eq-ok_iff d f f kind name).0 valid).1 in
        let made = construct_of f name kind r r.own refl in
        rw (r.label, IsResource-own d r) (rw (← e) (rw made (rw valid))),
  )
