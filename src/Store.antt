-- ===== src/Store.antt =====
-- adapters/store/inmem: repositories in memory. A repository is a map and a counter; each method
-- holds the lock throughout, so it is one step from a state to a state.
pub mod Laws
pub mod Steps
pub mod Ids
pub mod Memory
pub mod Refinement
mod Tests
use kompox.Prelude.{
  ℕ, ◌+◌, ◌≡◌, refl, String, Bool, true, false, Option, none, some, List, [], ◌∷◌, map, ◌==◌, Map,
  lookup, insert, remove, decimal, append, Result, ok, err, if◌then◌else◌,
}
use kompox.Domain.Model.{
  Error, workspace_not_found, provider_not_found, cluster_not_found, app_not_found, box_not_found,
  Workspace, Provider, Cluster, App, Box,
}

-- What the five repositories differ in: `stored old new` is what Update writes.
pub record Entity (E : Type 0) : Type 0 where
  pub id_of : E → String
  pub with_id : String → E → E
  pub prefix : String
  pub not_found : Error
  pub stored : E → E → E
  pub id-with_id : (i : String) (x : E) → id_of (with_id i x) ≡ i
  pub id-stored : (old new : E) → id_of (stored old new) ≡ id_of new
  pub with_id-with_id : (i j : String) (x : E) → with_id i (with_id j x) ≡ with_id i x
  pub with_id-own : (x : E) → with_id (id_of x) x ≡ x

instance abbrev pub workspace_entity : Entity Workspace
workspace_entity = record {
  id_of = λ w. w.id;
  with_id = λ i w. record w { id = i };
  prefix = "ws";
  not_found = workspace_not_found;
  stored = λ old new. record new { created_at = old.created_at };
  id-with_id = λ i x. refl;
  id-stored = λ old new. refl;
  with_id-with_id = λ i j x. refl;
  with_id-own = λ x. refl;
}

instance abbrev pub provider_entity : Entity Provider
provider_entity = record {
  id_of = λ p. p.id;
  with_id = λ i p. record p { id = i };
  prefix = "prov";
  not_found = provider_not_found;
  stored = λ old new. new;
  id-with_id = λ i x. refl;
  id-stored = λ old new. refl;
  with_id-with_id = λ i j x. refl;
  with_id-own = λ x. refl;
}

instance abbrev pub cluster_entity : Entity Cluster
cluster_entity = record {
  id_of = λ c. c.id;
  with_id = λ i c. record c { id = i };
  prefix = "clus";
  not_found = cluster_not_found;
  stored = λ old new. new;
  id-with_id = λ i x. refl;
  id-stored = λ old new. refl;
  with_id-with_id = λ i j x. refl;
  with_id-own = λ x. refl;
}

instance abbrev pub app_entity : Entity App
app_entity = record {
  id_of = λ a. a.id;
  with_id = λ i a. record a { id = i };
  prefix = "app";
  not_found = app_not_found;
  stored = λ old new. new;
  id-with_id = λ i x. refl;
  id-stored = λ old new. refl;
  with_id-with_id = λ i j x. refl;
  with_id-own = λ x. refl;
}

instance abbrev pub box_entity : Entity Box
box_entity = record {
  id_of = λ b. b.id;
  with_id = λ i b. record b { id = i };
  prefix = "box";
  not_found = box_not_found;
  stored = λ old new. new;
  id-with_id = λ i x. refl;
  id-stored = λ old new. refl;
  with_id-with_id = λ i j x. refl;
  with_id-own = λ x. refl;
}

pub record Repository (E : Type 0) : Type 0 where
  pub items : Map E
  pub seq : ℕ

-- fmt.Sprintf("ws-%d-%d", now, seq)
unfoldable pub format_id : String → ℕ → ℕ → String
format_id prefix now seq =
    append prefix (append "-" (append (decimal now) (append "-" (decimal seq))))

module _ {E : Type 0} ⦃e : Entity E⦄ where
  abbrev pub new_repository : Repository E
  new_repository = record { items = []; seq = 0 }

  unfoldable pub next_id : ℕ → Repository E → String × Repository E
  next_id now r = (format_id e.prefix now (r.seq + 1), record r { seq = r.seq + 1 })

  abbrev put : E → Repository E → Repository E
  put x r = record r { items = insert (e.id_of x) x r.items }

  -- The caller's entity gets the ID, so it is returned beside the new state.
  unfoldable pub create : ℕ → E → Repository E → E × Repository E
  unfolding next_id
  create now x r =
      if e.id_of x == ""
      then (let (id, r') = next_id now r in (e.with_id id x, put (e.with_id id x) r'))
      else (x, put x r)

  unfoldable pub get : String → Repository E → Result Error E
  get id r = elim (lookup id r.items) [ some x ↦ ok x | none ↦ err e.not_found ]

  unfoldable pub list : Repository E → List E
  list r = map (λ entry. entry.1) r.items

  unfoldable pub update : E → Repository E → Result Error (Unit {0}) × Repository E
  update x r = elim (lookup (e.id_of x) r.items) [
    | some old ↦ (ok tt, record r { items = insert (e.id_of x) (e.stored old x) r.items })
    | none ↦ (err e.not_found, r)
  ]

  unfoldable pub delete : String → Repository E → Result Error (Unit {0}) × Repository E
  delete id r = elim (lookup id r.items) [
    | some x ↦ (ok tt, record r { items = remove id r.items })
    | none ↦ (err e.not_found, r)
  ]

-- The loop of BoxRepository.ListByAppID.
abbrev boxes_of : String → Map Box → List Box
boxes_of app [] = []
boxes_of app ((k, b) ∷ items) =
    let rest = boxes_of app items in if b.app_id == app then b ∷ rest else rest

unfoldable pub list_by_app_id : String → Repository Box → List Box
list_by_app_id app r = boxes_of app r.items
