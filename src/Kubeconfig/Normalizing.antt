-- ===== src/Kubeconfig/Normalizing.antt =====
-- What LoadAndNormalize returns can be merged.
use kompox.Prelude.{
  ◌≡◌, ◌≢◌, ◌⊎◌, refl, sym, ap, ◌∙◌, inl, inr, String, Bool, false, not, ◌&&◌, Bool-cases, none,
  some, Map, lookup, insert, lookup-insert_self, lookup-remove, ◌==◌, eq_iff, Result, ok, found,
  bind-eq-ok, ok_inj, Succeeds, arith,
}
use mathlib.Core.Path.{subst}
use kompox.Kubeconfig.{
  Context, Config, Error, changed_context, all_renamed, rename, renamed, rename_all, current_name,
  load_and_normalize, merge_into_existing,
}
use kompox.Kubeconfig.Merging.{IsComplete, merge-IsMerged}

found-ok : {E A : Type 0} (o : _) (e : E) (a : A) → found o e ≡ ok a → o ≡ some a
found-ok none e a h = absurd (cc h)
found-ok (some b) e a h = ap some (ok_inj h)

renamed-given : (name old : String) → name ≢ "" → renamed name old ≡ name
renamed-given name old h = elim (Bool-cases (name == old)) [
  | inl same ↦ ground (arith, eq_iff name "", eq_iff name old)
  | inr differ ↦ ground (arith, eq_iff name "")
]

module _ {V : Type 0} where
  -- A renamed entry stands under its new name.
  lookup-rename :
      (name old : String) (v : V) (m : Map V)
      → lookup old m ≡ some v
      → lookup (renamed name old) (rename name old v m) ≡ some v
  lookup-rename name old v m h = elim (Bool-cases (not (name == "") && not (name == old))) [
    | inl moved ↦
        let differ : (old == name) ≡ false = ground (arith, eq_iff name old, eq_iff old name) in
        rw moved
          (lookup-remove old name (insert name v m) ∙ rw differ (lookup-insert_self name v m))
    | inr stays ↦ rw stays h
  ]

module _ {C U : Type 0} where
  -- The current context, its cluster and its user all have the name, and it is complete.
  pub record IsNamed (name ns_name : String) (out : Config C U) : Type 0 where
    pub complete : IsComplete out
    pub current : out.current_context ≡ name
    pub cluster : complete.ctx.cluster ≡ name
    pub user : complete.ctx.auth_info ≡ name
    pub namespace : (ns_name ≡ "") ⊎ (complete.ctx.namespace ≡ ns_name)

  all_renamed-IsNamed :
      (name ns_name : String) (cfg : Config C U) (ctx : Context) (cluster : C) (user : U)
      → name ≢ ""
      → lookup cfg.current_context cfg.contexts ≡ some ctx
      → lookup ctx.cluster cfg.clusters ≡ some cluster
      → lookup ctx.auth_info cfg.auth_infos ≡ some user
      → IsNamed name ns_name (all_renamed name ns_name cfg ctx cluster user)
  all_renamed-IsNamed name ns_name cfg ctx cluster user given has_ctx has_cluster has_user =
      let changed = changed_context name ns_name ctx in
      let current = renamed-given name cfg.current_context given in
      record {
        complete = record {
          ctx = changed;
          cluster = cluster;
          user = user;
          current = λ h. given (sym current ∙ h);
          has_ctx =
              lookup-rename name cfg.current_context changed
                (insert cfg.current_context changed cfg.contexts)
                (lookup-insert_self cfg.current_context changed cfg.contexts);
          has_cluster = lookup-rename name ctx.cluster cluster cfg.clusters has_cluster;
          has_user = lookup-rename name ctx.auth_info user cfg.auth_infos has_user;
        };
        current = current;
        cluster = renamed-given name ctx.cluster given;
        user = renamed-given name ctx.auth_info given;
        namespace = elim (Bool-cases (ns_name == "")) [
          | inl none_given ↦ inl ((eq_iff ns_name "").0 none_given)
          | inr some_given ↦ inr (rw some_given refl)
        ];
      }

  rename_all-IsNamed :
      (name ns_name : String) (cfg out : Config C U)
      → name ≢ ""
      → rename_all name ns_name cfg ≡ ok out
      → IsNamed name ns_name out
  unfolding rename_all
  rename_all-IsNamed name ns_name cfg out given h =
      let (ctx, has_ctx, h1) =
        bind-eq-ok (found (lookup cfg.current_context cfg.contexts) _) _ out h in
      let (cluster, has_cluster, h2) =
        bind-eq-ok (found (lookup ctx.cluster cfg.clusters) _) _ out h1 in
      let (user, has_user, h3) =
        bind-eq-ok (found (lookup ctx.auth_info cfg.auth_infos) _) _ out h2 in
      subst (IsNamed name ns_name) (ok_inj h3) (
        all_renamed-IsNamed name ns_name cfg ctx cluster user given (found-ok _ _ _ has_ctx)
          (found-ok _ _ _ has_cluster) (found-ok _ _ _ has_user))

  -- Whatever clientcmd loads, minifies and flattens: if LoadAndNormalize is given a context name and
  -- succeeds, the current context of its result has that name, and so have the cluster and the user
  -- that it refers to, which are there; it has the namespace that was given, if one was. The result
  -- can be merged into any configuration, with or without force.
  pub normalize-merge :
      (minify_config flatten_config : Config C U → Result Error (Config C U))
      (loaded : Result Error (Config C U)) (name ns_name : String) (out : Config C U)
      → name ≢ ""
      → load_and_normalize minify_config flatten_config loaded name ns_name ≡ ok out
      → IsNamed name ns_name out
        × ((existing : Config C U) (force set_current : Bool)
            → Succeeds (merge_into_existing out existing force set_current))
  unfolding load_and_normalize
  normalize-merge minify_config flatten_config loaded name ns_name out given h =
      let (cfg, _, h1) = bind-eq-ok loaded _ out h in
      let (current, _, h2) = bind-eq-ok (current_name cfg) _ out h1 in
      let (minified, _, h3) = bind-eq-ok (minify_config _) _ out h2 in
      let (flat, _, h4) = bind-eq-ok (flatten_config minified) _ out h3 in
      let named = rename_all-IsNamed name ns_name flat out given h4 in
      (
        named,
        λ existing force set_current.
            let (merged, n, change, done, _) =
              merge-IsMerged out existing force set_current named.complete in
            ((merged, n, change), done),
      )
