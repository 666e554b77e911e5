-- ===== src/Volume/Owner.antt =====
-- Finding an app and its cluster changes nothing.
use kompox.Prelude.{◌≡◌, ◌⊎◌, refl, inl, inr, ◌∙◌, String, ok, err, Result-cases}
use kompox.Prelude.Actions.{◌>>=◌, pure, lift, bind-found}
use kompox.Domain.Model.{Cluster, App, find_volume}
use kompox.Store.{cluster_entity, app_entity, get}
use kompox.Volume.{Error, Repos, volume_not_defined, rewrap, owner, target}

-- The app and its cluster are stored.
abbrev pub IsStored : Repos → String → Cluster → App → Type 0
IsStored r app_id c a = (get app_id r.apps ≡ ok a) × (get a.cluster_id r.clusters ≡ ok c)

module _ {W : Type 0} (r : Repos) (app_id : String) (c : Cluster) (a : App) where
  pub owner-found : (w : W) → IsStored r app_id c a → owner r app_id w ≡ (ok (c, a), w)
  unfolding owner
  owner-found w (app, cluster) = rw (app, owner) (rw (cluster, owner) refl)

  pub target-cases :
      (v : String) (w : W)
      → IsStored r app_id c a
      → ((e : Error) × (target r app_id v w ≡ (err e, w))) ⊎ (target r app_id v w ≡ (ok (c, a), w))
  unfolding target
  target-cases v w stored =
      let after = λ (x : Cluster × App).
        lift (rewrap volume_not_defined (find_volume x.1.volumes v)) >>= λ _. pure x in
      let at = bind-found (owner r app_id) after w w (c, a) (owner-found w stored) in
      elim (Result-cases (find_volume a.volumes v)) [
        | inl (volume, found) ↦ inr (at ∙ rw found refl)
        | inr (e, missing) ↦ inl (volume_not_defined e, at ∙ rw missing refl)
      ]
