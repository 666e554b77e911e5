-- ===== src/Cluster/Fixed.antt =====
-- Clusters that are read only, and what first-time provisioning and installation may do.
use kompox.Prelude.{
  ◌≡◌, ◌≢◌, ◌⊎◌, refl, sym, ok_inj, some_inj, Bool-cases, ◌∙◌, inl, inr, String, Bool, true, Option,
  none, some, Result-cases, Result, ok, err, eq-false_of_ne,
}
use kompox.Domain.Model.{Error, cluster_protected, Level, ClusterProtection, Cluster}
use kompox.Domain.Protection.{
  Operation, check_provisioning_protection, check_installation_protection,
}
use kompox.Domain.Protection.Enforcing.{HasLevel, Enforces, Enforces-create, protection-Enforces}
use kompox.Store.{cluster_entity, get}
use kompox.Cluster.{
  ClusterPort, ClusterStatus, State, ForceInput, cluster_of, is_first_time, operation_of, put_world,
  when_allowed, on_cluster, provision_cluster, deprovision_cluster, install_cluster,
  uninstall_cluster, provision, deprovision, install, uninstall,
}
use kompox.Cluster.Guarded.{
  Command, provisions, deprovisions, installs, uninstalls, run, Every, IsFixed, refused_call,
  cluster_of-get, deprovision_cluster-refused, uninstall_cluster-refused,
}

-- The status says that the work is done.
abbrev pub IsDone : (ClusterStatus → Bool) → Result Error (Option ClusterStatus) → Type 0
IsDone done status = (s : ClusterStatus) × (status ≡ ok (some s)) × (done s ≡ true)

-- The work is done, and the level of protection is readOnly.
abbrev pub IsLocked :
    (ClusterStatus → Bool)
    → (ClusterProtection → Level)
    → Cluster
    → Result Error (Option ClusterStatus)
    → Type 0
IsLocked done level_of c status = IsDone done status × HasLevel level_of c Level.read_only

-- The answer is the protection's error, or the call's.
abbrev pub Decided :
    {W : Type 0}
    → Type 0
    → (W → Result Error (Unit {0}) × W)
    → State W
    → Result Error (Unit {0}) × State W
    → Type 0
Decided Locked call st out =
    (Locked × (out ≡ (err cluster_protected, st)))
    ⊎ ((Locked → ⊥) × (out ≡ put_world st (call st.world)))

module _ {W : Type 0} (level_of : ClusterProtection → Level)
    (check : Cluster → Operation → Result Error (Unit {0})) (c : Cluster)
    (done : ClusterStatus → Bool) (call : W → Result Error (Unit {0}) × W) (st : State W) where
  -- An operation on work that is not done is let through.
  first_time-Decided :
      (status : Result Error (Option ClusterStatus))
      → Enforces level_of check c Operation.create
      → is_first_time done status ≡ true
      → (IsDone done status → ⊥)
      → Decided
          (IsLocked done level_of c status)
          call
          st
          (when_allowed (check c (operation_of (is_first_time done status))) call st)
  first_time-Decided status enforces first undone = inr (
    λ (is_done, _). undone is_done,
    rw first (rw (Enforces-create level_of check c enforces, when_allowed) refl),
  )

  done-Decided :
      (s : ClusterStatus)
      → Enforces level_of check c Operation.update
      → done s ≡ true
      → Decided
          (IsLocked done level_of c (ok (some s)))
          call
          st
          (when_allowed (check c (operation_of (is_first_time done (ok (some s))))) call st)
  done-Decided s (either, (to, from)) is = elim either [
    | inl allowed ↦ inr (
      λ (_, read_only).
          absurd (cc (sym allowed ∙ from (Level.read_only, read_only, inr (refl, refl)))),
      rw is (rw (allowed, when_allowed) refl),
    )
    | inr refused ↦
        let (l, (p, there, level), refuses) = to refused in
        elim refuses [
          | inl (wrong, _) ↦ absurd (cc wrong)
          | inr (_, read_only) ↦ inl (
            ((s, refl, is), (p, there, level ∙ read_only)),
            rw is (rw (refused, when_allowed) refl),
          )
        ]
  ]

  operation-Decided :
      (status : Result Error (Option ClusterStatus))
      → ((op : Operation) → Enforces level_of check c op)
      → Decided
          (IsLocked done level_of c status)
          call
          st
          (when_allowed (check c (operation_of (is_first_time done status))) call st)
  operation-Decided (err e) enforces =
      first_time-Decided (err e) (enforces Operation.create) refl (λ (s, h, _). cc h)
  operation-Decided (ok none) enforces =
      first_time-Decided (ok none) (enforces Operation.create) refl (λ (s, h, _). cc h)
  operation-Decided (ok (some s)) enforces = elim (Bool-cases (done s)) [
    | inl is ↦ done-Decided s (enforces Operation.update) is
    | inr not_yet ↦
        first_time-Decided (ok (some s)) (enforces Operation.create) (rw not_yet refl)
          (λ (t, h, is). cc (some_inj (ok_inj h)))
  ]

module _ {W : Type 0} (p : ClusterPort W) where
  -- What Provision and Install do to a stored cluster.
  abbrev pub Outcome :
      (Option ForceInput → State W → Result Error (Unit {0}) × State W)
      → (ClusterStatus → Bool)
      → (ClusterProtection → Level)
      → (Cluster → Bool → W → Result Error (Unit {0}) × W)
      → ForceInput
      → Cluster
      → State W
      → Type 0
  Outcome use_case done level_of call i c st =
      let (status, w) = p.status c st.world in
      Decided (IsLocked done level_of c status) (call c i.force) (record st { world = w })
        (use_case (some i) st)

  on_cluster-stored :
      (i : ForceInput) (c : Cluster) (st : State W)
      (act : Cluster → Bool → State W → Result Error (Unit {0}) × State W)
      → i.cluster_id ≢ ""
      → get i.cluster_id st.clusters ≡ ok c
      → on_cluster (some i) act st ≡ act c i.force st
  on_cluster-stored i c st act named stored =
      rw (eq-false_of_ne i.cluster_id "" named, on_cluster) (rw (stored, on_cluster) refl)

  -- For a stored cluster, Provision and Install answer with the protection's error, forced or not,
  -- if the status says that the work is done and the level of their protection is readOnly. In all
  -- other cases, those of a status that is an error or nil among them, they are the port's call.
  pub provision_install-Outcome :
      (i : ForceInput) (c : Cluster) (st : State W)
      → i.cluster_id ≢ ""
      → get i.cluster_id st.clusters ≡ ok c
      → Outcome (provision p) (λ s. s.provisioned) (λ l. l.provisioning) p.provision i c st
        × Outcome (install p) (λ s. s.installed) (λ l. l.installation) p.install i c st
  unfolding provision install provision_cluster install_cluster
  provision_install-Outcome i c st named stored =
      let (status, w) = p.status c st.world in
      let at = record st { world = w } in
      (
        rw (on_cluster-stored i c st (provision_cluster p) named stored) (
            operation-Decided (λ l. l.provisioning) check_provisioning_protection c
              (λ s. s.provisioned) (p.provision c i.force) at status
              (λ op. (protection-Enforces c op).0)),
        rw (on_cluster-stored i c st (install_cluster p) named stored) (
            operation-Decided (λ l. l.installation) check_installation_protection c
              (λ s. s.installed) (p.install c i.force) at status
              (λ op. (protection-Enforces c op).1)),
      )

  -- What the port answers in the state's world about a cluster that is in place.
  abbrev pub IsInPlace : State W → Cluster → Type 0
  IsInPlace st c =
      (s : ClusterStatus) × (p.status c st.world ≡ (ok (some s), st.world))
      × (s.provisioned ≡ true)
      × (s.installed ≡ true)

  refused-operation :
      (check : Cluster → Operation → Result Error (Unit {0})) (c : Cluster)
      (done : ClusterStatus → Bool) (s : ClusterStatus) (st : State W)
      (call : W → Result Error (Unit {0}) × W)
      → done s ≡ true
      → check c Operation.update ≡ err cluster_protected
      → when_allowed (check c (operation_of (is_first_time done (ok (some s))))) call st
        ≡ (err cluster_protected, st)
  refused-operation check c done s st call is refused = rw is (refused_call _ call st refused)

  provision_cluster-refused :
      (c : Cluster) (force : Bool) (st : State W)
      → IsFixed c
      → IsInPlace st c
      → provision_cluster p c force st ≡ (err cluster_protected, st)
  unfolding provision_cluster
  provision_cluster-refused c force st (_, refused, _) (s, answer, provisioned, _) = rw answer (
      refused-operation check_provisioning_protection c (λ s. s.provisioned) s st
        (p.provision c force) provisioned refused)

  install_cluster-refused :
      (c : Cluster) (force : Bool) (st : State W)
      → IsFixed c
      → IsInPlace st c
      → install_cluster p c force st ≡ (err cluster_protected, st)
  unfolding install_cluster
  install_cluster-refused c force st (_, _, refused) (s, answer, _, installed) = rw answer (
      refused-operation check_installation_protection c (λ s. s.installed) s st (p.install c force)
        installed refused)

  on_cluster-refused :
      (i : Option ForceInput) (st : State W)
      (act : Cluster → Bool → State W → Result Error (Unit {0}) × State W)
      → ((c : Cluster) (force : Bool)
          → (id : String) × (get id st.clusters ≡ ok c)
          → act c force st ≡ (err cluster_protected, st))
      → (e : Error) × (on_cluster i act st ≡ (err e, st))
  on_cluster-refused none st act refuses = (_, refl)
  on_cluster-refused (some i) st act refuses =
      elim (Result-cases (cluster_of st.clusters i.cluster_id)) [
        | inl (c, found) ↦ (
          cluster_protected,
          rw (found, on_cluster)
              (refuses c i.force (i.cluster_id, cluster_of-get st i.cluster_id c found)),
        )
        | inr (e, missing) ↦ (e, rw (missing, on_cluster) refl)
      ]

  -- Where every stored cluster is in place and its protection refuses updating and deleting, both
  -- for provisioning and for installation, each of the four use cases fails, forced or not, and
  -- leaves the repository and the world as they were.
  pub run-fixed :
      (command : Command) (st : State W)
      → Every (λ c. IsFixed c × IsInPlace st c) st
      → (e : Error) × (run p command st ≡ (err e, st))
  unfolding provision install deprovision uninstall
  run-fixed (provisions i) st every =
      on_cluster-refused i st (provision_cluster p) (λ c force (id, stored).
        let (fixed, placed) = every id c stored in
        provision_cluster-refused c force st fixed placed)
  run-fixed (installs i) st every =
      on_cluster-refused i st (install_cluster p) (λ c force (id, stored).
        let (fixed, placed) = every id c stored in install_cluster-refused c force st fixed placed)
  run-fixed (deprovisions i) st every =
      on_cluster-refused i st (deprovision_cluster p)
        (λ c force (id, stored). deprovision_cluster-refused p c force st (every id c stored).0.0)
  run-fixed (uninstalls i) st every =
      on_cluster-refused i st (uninstall_cluster p)
        (λ c force (id, stored). uninstall_cluster-refused p c force st (every id c stored).0.0)
