-- ===== src/Crd/Convert/Results.antt =====
-- The IDs of converted documents, and of their parents.
use kompox.Prelude.{
  relabel, ◌≡◌, refl, sym, ap, ◌∙◌, String, ok, err, Result, bind-eq-ok, ok_inj, each,
}
use mathlib.Core.Path.{subst}
use kompox.Domain.Model
use kompox.Crd.Types
use kompox.Crd.Types.{Kind, workspace, provider, cluster, app, box, ObjectMeta}
use kompox.Crd.Fqn.{extract_resource_id, parent_fqn}
use kompox.Crd.Policy.{convert_policy}
use kompox.Crd.Convert.{
  Error, bad_policy, Library, id_of, convert_workspace, convert_provider, convert_cluster,
  convert_app, convert_box, convert_protection, convert_volume, validate_app_deployment_spec,
}

pub relabel-ok :
    {E F A : Type 0} (wrap : E → F) (r : Result E A) (a : A) → relabel wrap r ≡ ok a → r ≡ ok a
relabel-ok wrap (ok b) a h = ap ok (ok_inj h)
relabel-ok wrap (err e) a h = absurd (cc h)

module _ (lib : Library) where
  -- The document's annotations give this ID.
  abbrev pub HasId : Kind → ObjectMeta → String → Type 0
  HasId kind m f = extract_resource_id lib.labels.is_label kind m.name m.annotations ≡ ok f

  id_of-HasId :
      (kind : Kind) (m : ObjectMeta) (f : String) → id_of lib kind m ≡ ok f → HasId kind m f
  id_of-HasId kind m f h = relabel-ok _ _ f h

  id_of-Result :
      {X : Type 0} (kind : Kind) (m : ObjectMeta) (id : X → String) (f : String) (x y : X)
      → id_of lib kind m ≡ ok f
      → ◌≡◌ {A = Result Error X} (ok x) (ok y)
      → id x ≡ f
      → HasId kind m (id y)
  id_of-Result kind m id f x y there e own =
      subst (HasId kind m) (sym own ∙ ap id (ok_inj e)) (id_of-HasId kind m f there)

  pub convert_workspace-id :
      (x : Types.Workspace) (y : Model.Workspace)
      → convert_workspace lib x ≡ ok y
      → HasId workspace x.meta y.id
  unfolding convert_workspace
  convert_workspace-id x y h =
      let (f, there, e) = bind-eq-ok (id_of lib workspace x.meta) _ y h in
      id_of-Result workspace x.meta (λ z. z.id) f _ y there e refl

  pub convert_provider-id :
      (x : Types.Provider) (y : Model.Provider)
      → convert_provider lib x ≡ ok y
      → HasId provider x.meta y.id × (y.workspace_id ≡ parent_fqn y.id)
  unfolding convert_provider
  convert_provider-id x y h =
      let (f, there, e) = bind-eq-ok (id_of lib provider x.meta) _ y h in
      (
        id_of-Result provider x.meta (λ z. z.id) f _ y there e refl,
        ap (λ z. z.workspace_id) (sym (ok_inj e)) ∙ ap (λ z. parent_fqn z.id) (ok_inj e),
      )

  pub convert_cluster-id :
      (x : Types.Cluster) (y : Model.Cluster)
      → convert_cluster lib x ≡ ok y
      → HasId cluster x.meta y.id × (y.provider_id ≡ parent_fqn y.id)
  unfolding convert_cluster
  convert_cluster-id x y h =
      let (f, there, rest) = bind-eq-ok (id_of lib cluster x.meta) _ y h in
      let (_, _, e) = bind-eq-ok (convert_protection x.meta.name x.spec.protection) _ y rest in
      (
        id_of-Result cluster x.meta (λ z. z.id) f _ y there e refl,
        ap (λ z. z.provider_id) (sym (ok_inj e)) ∙ ap (λ z. parent_fqn z.id) (ok_inj e),
      )

  pub convert_app-id :
      (app_file : String) (x : Types.App) (y : Model.App)
      → convert_app lib app_file x ≡ ok y
      → HasId app x.meta y.id × (y.cluster_id ≡ parent_fqn y.id)
  unfolding convert_app
  convert_app-id app_file x y h =
      let (f, there, rest) = bind-eq-ok (id_of lib app x.meta) _ y h in
      let (_, _, rest') = bind-eq-ok (each (convert_volume lib) 0 x.spec.volumes) _ y rest in
      let (_, _, rest'') =
        bind-eq-ok (validate_app_deployment_spec x.meta.name x.spec.deployment) _ y rest' in
      let (_, _, e) =
        bind-eq-ok (relabel (bad_policy app x.meta.name) (convert_policy x.spec.network_policy)) _ y
          rest'' in
      (
        id_of-Result app x.meta (λ z. z.id) f _ y there e refl,
        ap (λ z. z.cluster_id) (sym (ok_inj e)) ∙ ap (λ z. parent_fqn z.id) (ok_inj e),
      )

  pub convert_box-id :
      (x : Types.Box) (y : Model.Box)
      → convert_box lib x ≡ ok y
      → HasId box x.meta y.id × (y.app_id ≡ parent_fqn y.id)
  unfolding convert_box
  convert_box-id x y h =
      let (f, there, rest) = bind-eq-ok (id_of lib box x.meta) _ y h in
      let (_, _, e) =
        bind-eq-ok (relabel (bad_policy box x.meta.name) (convert_policy x.spec.network_policy)) _ y
          rest in
      (
        id_of-Result box x.meta (λ z. z.id) f _ y there e refl,
        ap (λ z. z.app_id) (sym (ok_inj e)) ∙ ap (λ z. parent_fqn z.id) (ok_inj e),
      )
