-- ===== src/UseCases.antt =====
-- usecase/workspace, usecase/provider and usecase/app: creating, changing, deleting, finding and
-- listing these entities. The three packages have one shape, and an instance each of what they
-- differ in. A struct with an error is a `Result`; the output structs hold only the entity.
pub mod Editing
pub mod Updating
mod Tests
use kompox.Prelude.{
  ℕ, ◌≡◌, refl, String, Bool, true, false, not, ◌&&◌, ◌||◌, Option, none, some, List, [], ◌==◌,
  Result, ok, err, if◌then◌else◌, Bool-cases, inl, inr,
}
use kompox.Domain.Model.{
  Error, workspace_invalid, provider_invalid, app_invalid, Workspace, Provider, App,
}
use kompox.Store.{Entity, Repository, workspace_entity, provider_entity, app_entity, get, list}
use kompox.Store

-- What the packages differ in: the error of an invalid input, the guard and the entity of Create,
-- and the changes of Update, with whether there were any.
pub record Package (E C U : Type 0) : Type 0 where
  pub invalid : Error
  pub is_valid : C → Bool
  pub new_entity : ℕ → C → E
  pub edit : U → E → E × Bool
  pub touch : ℕ → E → E

-- `in.X != nil && *in.X != "" && existing.X != *in.X`, and the value that the field then has.
abbrev pub is_change : Option String → String → Bool
is_change none old = false
is_change (some new) old = not (new == "") && not (old == new)

abbrev pub changed_to : Option String → String → String
changed_to none old = old
changed_to (some new) old = if not (new == "") && not (old == new) then new else old

-- `in.X != nil && existing.X != *in.X`
abbrev pub is_move : Option String → String → Bool
is_move none old = false
is_move (some new) old = not (old == new)

abbrev pub moved_to : Option String → String → String
moved_to none old = old
moved_to (some new) old = if not (old == new) then new else old

module _ {E C U : Type 0} ⦃e : Entity E⦄ (p : Package E C U) where
  -- `in == nil || in.ID == ""`, and the Get of the repository.
  abbrev pub find : Option String → Repository E → Result Error E
  find none r = err p.invalid
  find (some id) r = if id == "" then err p.invalid else get id r

  unfoldable pub create : ℕ → ℕ → Option C → Repository E → Result Error E × Repository E
  create now tick none r = (err p.invalid, r)
  create now tick (some i) r =
      if p.is_valid i
      then (let (x, r') = Store.create tick (p.new_entity now i) r in (ok x, r'))
      else (err p.invalid, r)

  abbrev pub write_back : ℕ → E × Bool → Repository E → Result Error E × Repository E
  write_back now (x, false) r = (ok x, r)
  write_back now (x, true) r =
      let (written, r') = Store.update (p.touch now x) r in
      (elim written [ ok _ ↦ ok (p.touch now x) | err f ↦ err f ], r')

  -- The input is the ID and the changes, or nil.
  unfoldable pub update : ℕ → Option (String × U) → Repository E → Result Error E × Repository E
  update now none r = (err p.invalid, r)
  update now (some (id, u)) r = elim (find (some id) r) [
    | err f ↦ (err f, r)
    | ok x ↦ write_back now (p.edit u x) r
  ]

  -- Deleting nothing succeeds.
  unfoldable pub delete : Option String → Repository E → Result Error (Unit {0}) × Repository E
  delete none r = (ok tt, r)
  delete (some id) r = if id == "" then (ok tt, r) else Store.delete id r

  unfoldable pub get_entity : Option String → Repository E → Result Error E
  get_entity id r = find id r

  unfoldable pub list_entities : Repository E → List E
  list_entities r = list r

-- The name of a CreateInput, and the optional name of an UpdateInput.
abbrev pub workspace_package : Package Workspace String (Option String)
workspace_package = record {
  invalid = workspace_invalid;
  is_valid = λ name. not (name == "");
  new_entity = λ now name. record { id = ""; name = name; created_at = now; updated_at = now };
  edit = λ name x. (record x { name = changed_to name x.name }, is_change name x.name);
  touch = λ now x. record x { updated_at = now };
}

-- A name and a driver.
abbrev pub provider_package : Package Provider (String × String) (Option String × Option String)
provider_package = record {
  invalid = provider_invalid;
  is_valid = λ i. not (i.0 == "" || i.1 == "");
  new_entity = λ now i. record {
    id = "";
    name = i.0;
    workspace_id = "";
    driver = i.1;
    settings = [];
    created_at = now;
    updated_at = now;
  };
  edit = λ u x. (
    record x { name = changed_to u.0 x.name; driver = changed_to u.1 x.driver },
    is_change u.0 x.name || is_change u.1 x.driver,
  );
  touch = λ now x. record x { updated_at = now };
}

-- A name and the ID of a cluster, which may be empty.
abbrev pub app_package : Package App (String × String) (Option String × Option String)
app_package = record {
  invalid = app_invalid;
  is_valid = λ i. not (i.0 == "");
  new_entity = λ now i. record {
    id = "";
    name = i.0;
    cluster_id = i.1;
    compose = "";
    ingress = record { cert_resolver = ""; rules = [] };
    volumes = [];
    deployment = record { pool = ""; pools = []; zone = ""; zones = []; selectors = [] };
    network_policy = [];
    resources = [];
    settings = [];
    created_at = now;
    updated_at = now;
    ref_base = "";
  };
  edit = λ u x. (
    record x { name = changed_to u.0 x.name; cluster_id = moved_to u.1 x.cluster_id },
    is_change u.0 x.name || is_move u.1 x.cluster_id,
  );
  touch = λ now x. record x { updated_at = now };
}
