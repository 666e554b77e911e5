-- ===== src/Kubeconfig.antt =====
-- internal/kubeconfig/kubeconfig.go: a kubeconfig reduced to one context, and merged into another.
-- clientcmd reads, minifies and flattens configurations, so these calls are parameters; it makes no
-- entry that is a nil pointer. Clusters and users are copied whole, so their types are parameters.
pub mod Unique
pub mod Merging
pub mod Normalizing
mod Tests
use kompox.Prelude.{
  ℕ, zero, suc, ◌+◌, String, Bool, true, false, not, ◌&&◌, ◌||◌, Option, none, some, List, [], ◌∷◌,
  length, nat_eq, append, decimal, Map, lookup, insert, remove, ◌==◌, if◌then◌else◌, Result, ok,
  err, ◌>>=◌, ◌>>◌, guard, found,
}

pub record Context : Type 0 where
  pub cluster : String
  pub auth_info : String
  pub namespace : String

pub record Config (C U : Type 0) : Type 0 where
  pub current_context : String
  pub contexts : Map Context
  pub clusters : Map C
  pub auth_infos : Map U

abbrev pub new_config : {C U : Type 0} → Config C U
new_config = record { current_context = ""; contexts = []; clusters = []; auth_infos = [] }

pub data Error : Type 0 where
  no_current_context : Error
  context_not_found cluster_not_found user_not_found : String → Error
  parse minify flatten : String → Error
  -- No errors: a nil pointer that the code reads, and a loop that goes on.
  nil_dereference endless : Error

pub record Change : Type 0 where
  pub action : String
  pub count : ℕ
  pub current : Bool

abbrev pub candidate : String → ℕ → String
candidate name i = append name (append "-" (decimal i))

module _ {V : Type 0} where
  -- The loop of uniqueName, with fuel.
  unfoldable pub unique_from : ℕ → ℕ → String → Map V → Option String
  unique_from zero i name m = none
  unique_from (suc fuel) i name m = elim (lookup (candidate name i) m) [
    | none ↦ some (candidate name i)
    | some v ↦ unique_from fuel (i + 1) name m
  ]

  -- As many rounds as there are entries, and one.
  unfoldable pub unique_name : String → Map V → Option String
  unique_name name m = elim (lookup name m) [
    | none ↦ some name
    | some v ↦ unique_from (length m + 1) 1 name m
  ]

-- Rename an entry: `m[to] = m[from]; delete(m, from)`, with the entry at hand.
abbrev pub rename : {V : Type 0} → String → String → V → Map V → Map V
rename name old v m =
    if not (name == "") && not (name == old) then remove old (insert name v m) else m

-- The name after a renaming.
abbrev pub renamed : String → String → String
renamed name old = if not (name == "") && not (name == old) then name else old

-- The namespace set, and the entries renamed. The map has a pointer to the context, so that what
-- the code assigns to its fields later shows in the map.
abbrev pub changed_context : String → String → Context → Context
changed_context ctx_name ns_name ctx = record {
  cluster = renamed ctx_name ctx.cluster;
  auth_info = renamed ctx_name ctx.auth_info;
  namespace = if ns_name == "" then ctx.namespace else ns_name;
}

module _ {C U : Type 0} where
  -- `if setCurrent || existingCfg.CurrentContext == ""`
  abbrev select : Bool → String → Config C U → Config C U × String × Change
  select set_current name cfg =
      if set_current || cfg.current_context == ""
      then (
        record cfg { current_context = name },
        name,
        record { action = "add/update"; count = 3; current = true },
      )
      else (cfg, name, record { action = "add/update"; count = 3; current = false })

  -- The three entries, under their names, in the existing configuration.
  abbrev pub add_entries : String → String → String → Context → C → U → Config C U → Config C U
  add_entries name cluster_name user_name ctx cluster user cfg = record cfg {
    contexts =
        insert name (record ctx { cluster = cluster_name; auth_info = user_name }) cfg.contexts;
    clusters = insert cluster_name cluster cfg.clusters;
    auth_infos = insert user_name user cfg.auth_infos;
  }

  abbrev drop_entries : String → String → String → Config C U → Config C U
  drop_entries name cluster_name user_name cfg = record cfg {
    contexts = remove name cfg.contexts;
    clusters = remove cluster_name cfg.clusters;
    auth_infos = remove user_name cfg.auth_infos;
  }

  -- `if !force { … } else { … }`: the names, and the configuration to add to.
  unfoldable pub resolve :
      Bool → String → Context → Config C U → Result Error ((String × String × String) × Config C U)
  resolve true name ctx cfg =
      ok ((name, ctx.cluster, ctx.auth_info), drop_entries name ctx.cluster ctx.auth_info cfg)
  resolve false name ctx cfg = do
    n ← found (unique_name name cfg.contexts) endless
    c ← found (unique_name ctx.cluster cfg.clusters) endless
    u ← found (unique_name ctx.auth_info cfg.auth_infos) endless
    ok ((n, c, u), cfg)

  -- MergeIntoExisting. `existing` is what LoadFromFile reads, or an empty configuration if it fails.
  unfoldable pub merge_into_existing :
      Config C U → Config C U → Bool → Bool → Result Error (Config C U × String × Change)
  merge_into_existing new existing force set_current = do
    guard (not (new.current_context == "")) no_current_context
    ctx ← found (lookup new.current_context new.contexts) (context_not_found new.current_context)
    cluster ← found (lookup ctx.cluster new.clusters) (cluster_not_found ctx.cluster)
    user ← found (lookup ctx.auth_info new.auth_infos) (user_not_found ctx.auth_info)
    ((name, cluster_name, user_name), cfg) ← resolve force new.current_context ctx existing
    ok (select set_current name (add_entries name cluster_name user_name ctx cluster user cfg))

  -- The name of the current context: the only one, if none is set.
  unfoldable pub current_name : Config C U → Result Error String
  current_name cfg =
      if cfg.current_context == ""
      then elim cfg.contexts [
        | [] ↦ err no_current_context
        | (name, ctx) ∷ more ↦ elim more [ [] ↦ ok name | _ ∷ _ ↦ err no_current_context ]
      ]
      else elim (lookup cfg.current_context cfg.contexts) [
        | none ↦ err (context_not_found cfg.current_context)
        | some ctx ↦ ok cfg.current_context
      ]

  abbrev pub all_renamed : String → String → Config C U → Context → C → U → Config C U
  all_renamed ctx_name ns_name cfg ctx cluster user =
      let changed = changed_context ctx_name ns_name ctx in
      record {
        current_context = renamed ctx_name cfg.current_context;
        contexts =
            rename ctx_name cfg.current_context changed
              (insert cfg.current_context changed cfg.contexts);
        clusters = rename ctx_name ctx.cluster cluster cfg.clusters;
        auth_infos = rename ctx_name ctx.auth_info user cfg.auth_infos;
      }

  -- What LoadAndNormalize does after minifying and flattening.
  unfoldable pub rename_all : String → String → Config C U → Result Error (Config C U)
  rename_all ctx_name ns_name cfg = do
    ctx ← found (lookup cfg.current_context cfg.contexts) nil_dereference
    cluster ← found (lookup ctx.cluster cfg.clusters) (cluster_not_found ctx.cluster)
    user ← found (lookup ctx.auth_info cfg.auth_infos) (user_not_found ctx.auth_info)
    ok (all_renamed ctx_name ns_name cfg ctx cluster user)

  -- LoadAndNormalize: `loaded` is what clientcmd.Load makes of the bytes.
  unfoldable pub load_and_normalize :
      (Config C U → Result Error (Config C U))
      → (Config C U → Result Error (Config C U))
      → Result Error (Config C U)
      → String
      → String
      → Result Error (Config C U)
  load_and_normalize minify_config flatten_config loaded ctx_name ns_name = do
    cfg ← loaded
    name ← current_name cfg
    minified ← minify_config (record cfg { current_context = name })
    flat ← flatten_config minified
    rename_all ctx_name ns_name flat
