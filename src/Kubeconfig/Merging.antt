-- ===== src/Kubeconfig/Merging.antt =====
-- What MergeIntoExisting makes of two configurations.
use kompox.Prelude.{
  ◌≡◌, ◌≢◌, ◌⊎◌, refl, ap, ◌∙◌, inl, inr, String, Bool, true, false, ◌||◌, Bool-cases, none, some,
  Map, lookup, insert, remove, lookup-insert_self, lookup-insert_other, lookup-remove, ◌==◌,
  eq-false_of_ne, ok, if◌then◌else◌,
}
use kompox.Kubeconfig.{
  Context, Config, Change, resolve, add_entries, select, drop_entries, merge_into_existing,
}
use kompox.Kubeconfig.Unique.{unique_name-IsFirst}

-- A current context, with its cluster and its user.
pub record IsComplete {C U : Type 0} (cfg : Config C U) : Type 0 where
  pub ctx : Context
  pub cluster : C
  pub user : U
  pub current : cfg.current_context ≢ ""
  pub has_ctx : lookup cfg.current_context cfg.contexts ≡ some ctx
  pub has_cluster : lookup ctx.cluster cfg.clusters ≡ some cluster
  pub has_user : lookup ctx.auth_info cfg.auth_infos ≡ some user

module _ {V : Type 0} where
  -- An entry is added under a name, in place of one of that name, or where none is.
  abbrev pub Adds : Bool → String → String → V → Map V → Map V → Type 0
  Adds force old name v before m =
      (lookup name m ≡ some v)
      × ((k : String) → name ≢ k → lookup k m ≡ lookup k before)
      × (((force ≡ true) × (name ≡ old)) ⊎ ((force ≡ false) × (lookup name before ≡ none)))

  insert-Adds :
      (old name : String) (v : V) (m : Map V)
      → lookup name m ≡ none
      → Adds false old name v m (insert name v m)
  insert-Adds old name v m free = (
    lookup-insert_self name v m,
    λ k ne. lookup-insert_other name k v m (eq-false_of_ne name k ne),
    inr (refl, free),
  )

  replace-Adds :
      (name : String) (v : V) (m : Map V) → Adds true name name v m (insert name v (remove name m))
  replace-Adds name v m = (
    lookup-insert_self name v (remove name m),
    λ k ne.
        let differ = eq-false_of_ne name k ne in
        lookup-insert_other name k v (remove name m) differ ∙ rw differ at (lookup-remove name k m),
    inl (refl, refl),
  )

module _ {C U : Type 0} where
  -- The merged configuration has the new context under a name, its cluster and its user under the
  -- names that it refers to them by, and is otherwise the existing one.
  pub record IsMerged (new existing : Config C U) (force set_current : Bool) (c : IsComplete new)
      (out : Config C U) (name : String) (change : Change) : Type 0 where
    pub cluster_name : String
    pub user_name : String
    pub contexts :
        Adds force new.current_context name
          (record c.ctx { cluster = cluster_name; auth_info = user_name })
          existing.contexts
          out.contexts
    pub clusters : Adds force c.ctx.cluster cluster_name c.cluster existing.clusters out.clusters
    pub users : Adds force c.ctx.auth_info user_name c.user existing.auth_infos out.auth_infos
    pub current :
        out.current_context
        ≡ (if set_current || existing.current_context == "" then name else existing.current_context)
    pub changed : change.current ≡ (set_current || existing.current_context == "")

  abbrev Resolved :
      (new existing : Config C U) (force : Bool) (c : IsComplete new)
      → String
      → String
      → String
      → Config C U
      → Type 0
  Resolved new existing force c n cn un cfg =
      Adds force new.current_context n (record c.ctx { cluster = cn; auth_info = un })
        existing.contexts (add_entries n cn un c.ctx c.cluster c.user cfg).contexts
      × Adds force c.ctx.cluster cn c.cluster existing.clusters
          (add_entries n cn un c.ctx c.cluster c.user cfg).clusters
      × Adds force c.ctx.auth_info un c.user existing.auth_infos
          (add_entries n cn un c.ctx c.cluster c.user cfg).auth_infos
      × (cfg.current_context ≡ existing.current_context)

  resolve-Resolved :
      (new existing : Config C U) (force : Bool) (c : IsComplete new)
      → (n : String) × (cn : String) × (un : String) × (cfg : Config C U) × (resolve force
            new.current_context c.ctx existing
          ≡ ok ((n, cn, un), cfg))
        × Resolved new existing force c n cn un cfg
  unfolding resolve
  resolve-Resolved new existing true c = (
    new.current_context,
    c.ctx.cluster,
    c.ctx.auth_info,
    drop_entries new.current_context c.ctx.cluster c.ctx.auth_info existing,
    refl,
    (
      replace-Adds new.current_context _ existing.contexts,
      replace-Adds c.ctx.cluster c.cluster existing.clusters,
      replace-Adds c.ctx.auth_info c.user existing.auth_infos,
      refl,
    ),
  )
  resolve-Resolved new existing false c =
      let (n, named, free, _) = unique_name-IsFirst new.current_context existing.contexts in
      let (cn, named', free', _) = unique_name-IsFirst c.ctx.cluster existing.clusters in
      let (un, named'', free'', _) = unique_name-IsFirst c.ctx.auth_info existing.auth_infos in
      (
        n,
        cn,
        un,
        existing,
        rw (named, named', named'', resolve) refl,
        (
          insert-Adds new.current_context n _ existing.contexts free,
          insert-Adds c.ctx.cluster cn c.cluster existing.clusters free',
          insert-Adds c.ctx.auth_info un c.user existing.auth_infos free'',
          refl,
        ),
      )

  -- The end of the code: which context is current.
  select-of :
      (set_current : Bool) (name : String) (cfg : Config C U)
      → (change : Change) × (select set_current name cfg ≡ (
        record cfg {
          current_context =
              if set_current || cfg.current_context == "" then name else cfg.current_context;
        },
        name,
        change,
      ))
        × (change.current ≡ (set_current || cfg.current_context == ""))
  select-of set_current name cfg = elim (Bool-cases (set_current || cfg.current_context == "")) [
    | inl chosen ↦
        rw chosen (record { action = "add/update"; count = 3; current = true }, refl, refl)
    | inr kept ↦ rw kept (record { action = "add/update"; count = 3; current = false }, refl, refl)
  ]

  -- A configuration whose current context has its cluster and its user is merged into any other,
  -- with no error and no endless loop. The result has the context under the name that is returned,
  -- referring to the cluster and the user under the names that those are added by, and every other
  -- entry of the existing configuration as it was. With force the names are the configuration's own;
  -- without it no existing entry has them. The context becomes the current one if that is asked
  -- for or none was, and the change says so.
  pub merge-IsMerged :
      (new existing : Config C U) (force set_current : Bool) (c : IsComplete new)
      → (out : Config C U) × (name : String) × (change : Change) × (merge_into_existing new existing
            force set_current
          ≡ ok (out, name, change))
        × IsMerged new existing force set_current c out name change
  unfolding merge_into_existing
  merge-IsMerged new existing force set_current c =
      let (n, cn, un, cfg, resolved, (contexts, clusters, users, same)) =
        resolve-Resolved new existing force c in
      let added = add_entries n cn un c.ctx c.cluster c.user cfg in
      let (change, out, current) = select-of set_current n added in
      (
        record added {
          current_context =
              if set_current || added.current_context == "" then n else added.current_context;
        },
        n,
        change,
        rw
            (
              eq-false_of_ne new.current_context "" c.current,
              c.has_ctx,
              c.has_cluster,
              c.has_user,
              resolved,
              merge_into_existing,
            )
            (ap ok out),
        record {
          cluster_name = cn;
          user_name = un;
          contexts = contexts;
          clusters = clusters;
          users = users;
          current = ap (λ s. if set_current || s == "" then n else s) same;
          changed = current ∙ ap (λ s. set_current || s == "") same;
        },
      )
