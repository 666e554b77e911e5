-- ===== src/Config/Checks.antt =====
-- Which configurations Root.Validate accepts.
use Prim.Native.String.{len}
use kompox.Prelude.{
  ℕ, ◌+◌, ◌≤◌, ◌≡◌, ◌≢◌, ◌↔◌, ◌⊎◌, refl, inl, inr, String, true, false, not, ◌&&◌, ◌||◌, List, [],
  ◌∷◌, All, is_empty, is_empty_iff, ok, err, Result, guard, seq_iff, guard_iff, ◌==◌, eq_iff, arith,
}
use kompox.Domain.Model
use kompox.Naming.{NameError, validate_volume_name, label-eq-ok_iff}
use kompox.Config.{
  Root, App, AppVolume, Error, Library, is_seen, validate_deployment, validate_from,
  validate_volumes, validate, wrap_name,
}

-- No two volumes have one name.
abbrev pub DistinctNames : List AppVolume → Type 0
DistinctNames [] = Unit
DistinctNames (v ∷ volumes) = All (λ u. u.name ≢ v.name) volumes × DistinctNames volumes

abbrev Unseen : List String → List AppVolume → Type 0
Unseen seen volumes = All (λ v. is_seen v.name seen ≡ false) volumes

Unseen-cons :
    (name : String) (seen : List String) (volumes : List AppVolume)
    → Unseen (name ∷ seen) volumes ↔ (All (λ u. u.name ≢ name) volumes × Unseen seen volumes)
unfolding is_seen
Unseen-cons name seen [] = (λ h. (tt, tt), λ h. tt)
Unseen-cons name seen (u ∷ volumes) =
    let (to, from) = Unseen-cons name seen volumes in
    (
      λ (h, hs).
          let (apart, unseen) = to hs in
          (((λ e. absurd (ground (arith, eq_iff name u.name))), apart), (ground arith, unseen)),
      λ ((ne, apart), (h, unseen)). (ground (arith, eq_iff name u.name), from (apart, unseen)),
    )

wrapped_iff : (i : ℕ) (r : Result NameError (Unit {0})) → (wrap_name i r ≡ ok tt) ↔ (r ≡ ok tt)
wrapped_iff i (ok tt) = (λ h. refl, λ h. refl)
wrapped_iff i (err e) = (λ h. absurd (cc h), λ h. absurd (cc h))

type_iff :
    (t : String)
    → ((t == "" || t == "disk" || t == "files") ≡ true) ↔ ((t ≡ "") ⊎ (t ≡ "disk") ⊎ (t ≡ "files"))
type_iff t = (
  λ h. ground (arith, eq_iff t "", eq_iff t "disk", eq_iff t "files"),
  λ h. elim h [ inl e ↦ rw e refl | inr (inl e) ↦ rw e refl | inr (inr e) ↦ rw e refl ],
)

-- Not both of a text and a list are given.
either_iff :
    {A : Type 0} (s : String) (xs : List A)
    → (not (not (s == "") && not (is_empty xs)) ≡ true) ↔ ((s ≡ "") ⊎ (xs ≡ []))
either_iff s [] = (λ h. inr refl, λ h. ground arith)
either_iff s (x ∷ xs) =
    (λ h. inl ((eq_iff s "").0 (ground arith)), elim [ inl h ↦ rw h refl | inr h ↦ absurd (cc h) ])

abbrev pub IsDeployment : Model.AppDeployment → Type 0
IsDeployment d =
    ((d.pool ≡ "") ⊎ (d.pools ≡ [])) × ((d.zone ≡ "") ⊎ (d.zones ≡ [])) × (d.selectors ≡ [])

IsDeployment-iff : (a : App) → (validate_deployment a ≡ ok tt) ↔ IsDeployment a.deployment
unfolding validate_deployment
IsDeployment-iff a =
    let d = a.deployment in
    let first =
      guard_iff (not (not (d.pool == "") && not (is_empty d.pools))) Error.pool_and_pools _ tt in
    let second =
      guard_iff (not (not (d.zone == "") && not (is_empty d.zones))) Error.zone_and_zones
        (guard (is_empty d.selectors) Error.selectors_reserved) tt in
    let pools = either_iff d.pool d.pools in
    let zones = either_iff d.zone d.zones in
    let selectors = is_empty_iff d.selectors in
    (
      λ h.
          let (x, h1) = first.0 h in
          let (y, h2) = second.0 h1 in (pools.0 x, zones.0 y, selectors.0 (ground arith)),
      λ (x, y, z). first.1 (pools.1 x, second.1 (zones.1 y, rw (selectors.1 z) refl)),
    )

module _ (lib : Library) where
  abbrev pub IsVolume : AppVolume → Type 0
  IsVolume v =
      (v.name ≢ "")
      × (len v.name ≤ 16)
      × (lib.is_label v.name ≡ true)
      × ((v.type ≡ "") ⊎ (v.type ≡ "disk") ⊎ (v.type ≡ "files"))

  wrap_name_iff :
      (i : ℕ) (name : String)
      → (wrap_name i (validate_volume_name lib.is_label name) ≡ ok tt)
        ↔ ((name ≢ "") × (len name ≤ 16) × (lib.is_label name ≡ true))
  unfolding validate_volume_name
  wrap_name_iff i name =
      let (to, from) = label-eq-ok_iff lib.is_label name "volume" 16 in
      let (inner, outer) = wrapped_iff i (validate_volume_name lib.is_label name) in
      (λ h. to (inner h), λ h. outer (from h))

  validate_from_iff :
      (i : ℕ) (seen : List String) (volumes : List AppVolume)
      → (validate_from lib i seen volumes ≡ ok tt)
        ↔ (All IsVolume volumes × DistinctNames volumes × Unseen seen volumes)
  unfolding validate_from
  validate_from_iff i seen [] = (λ h. (tt, tt, tt), λ h. refl)
  validate_from_iff i seen (v ∷ volumes) =
      let named = seq_iff (wrap_name i (validate_volume_name lib.is_label v.name)) _ tt in
      let label = wrap_name_iff i v.name in
      let fresh = guard_iff (not (is_seen v.name seen)) (Error.duplicate_name i v.name) _ tt in
      let typed =
        guard_iff (v.type == "" || v.type == "disk" || v.type == "files") (Error.bad_type i v.type)
          (validate_from lib (i + 1) (v.name ∷ seen) volumes) tt in
      let types = type_iff v.type in
      let rest = validate_from_iff (i + 1) (v.name ∷ seen) volumes in
      let unseen = Unseen-cons v.name seen volumes in
      (
        λ h.
            let (n, h1) = named.0 h in
            let (f, h2) = fresh.0 h1 in
            let (t, h3) = typed.0 h2 in
            let (good, distinct, later) = rest.0 h3 in
            let (apart, before) = unseen.0 later in
            let (a, b, c) = label.0 n in
            (((a, b, c, types.0 t), good), (apart, distinct), (ground arith, before)),
        λ (((a, b, c, t), good), (apart, distinct), (f, before)). named.1 (
          label.1 (a, b, c),
          fresh.1 (
            ground arith,
            typed.1 (types.1 t, rest.1 (good, distinct, unseen.1 (apart, before))),
          ),
        ),
      )

  Unseen-nil : (volumes : List AppVolume) → Unseen [] volumes
  unfolding is_seen
  Unseen-nil [] = tt
  Unseen-nil (v ∷ volumes) = (refl, Unseen-nil volumes)

  -- Validate accepts a configuration exactly if its app's volumes have names that are labels of at
  -- most 16 bytes, no two have one name, each has the type "disk" or "files" or none, and the app's
  -- deployment names no pool beside pools, no zone beside zones and no selectors.
  pub validate_iff :
      (r : Root)
      → (validate lib r ≡ ok tt)
        ↔ (All IsVolume r.app.volumes × DistinctNames r.app.volumes × IsDeployment r.app.deployment)
  unfolding validate validate_volumes
  validate_iff r =
      let both = seq_iff (validate_volumes lib r.app) (validate_deployment r.app) tt in
      let volumes = validate_from_iff 0 [] r.app.volumes in
      let deployment = IsDeployment-iff r.app in
      (
        λ h.
            let (v, d) = both.0 h in
            let (good, distinct, _) = volumes.0 v in (good, distinct, deployment.0 d),
        λ (good, distinct, d).
            both.1 (volumes.1 (good, distinct, Unseen-nil r.app.volumes), deployment.1 d),
      )
