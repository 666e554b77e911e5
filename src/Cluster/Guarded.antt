-- ===== src/Cluster/Guarded.antt =====
-- The protection of clusters against the four operations of the port.
use kompox.Prelude.{
  ◌≡◌, refl, sym, ap, ◌∙◌, inl, inr, String, Bool, Option, none, some, List, [], ◌∷◌, Result-cases,
  Result, ok, err, arith,
}
use kompox.Domain.Model.{Error, cluster_protected, Cluster}
use kompox.Domain.Protection.{
  Operation, check_provisioning_protection, check_installation_protection,
}
use kompox.Store.{cluster_entity, get}
use kompox.Cluster.{
  ClusterPort, State, ForceInput, cluster_of, when_allowed, on_cluster, provision_cluster,
  deprovision_cluster, install_cluster, uninstall_cluster, provision, deprovision, install,
  uninstall,
}

-- One call of a use case that reaches the port.
pub data Command : Type 0 where
  provisions deprovisions installs uninstalls : Option ForceInput → Command

module _ {W : Type 0} (p : ClusterPort W) where
  abbrev pub run : Command → State W → Result Error (Unit {0}) × State W
  run (provisions i) st = provision p i st
  run (deprovisions i) st = deprovision p i st
  run (installs i) st = install p i st
  run (uninstalls i) st = uninstall p i st

  abbrev pub run_all : List Command → State W → State W
  run_all [] st = st
  run_all (command ∷ commands) st = run_all commands (run command st).1

-- Every cluster of a state.
abbrev pub Every : {W : Type 0} → (Cluster → Type 0) → State W → Type 0
Every P st = (id : String) (c : Cluster) → get id st.clusters ≡ ok c → P c

abbrev pub Refuses : (Cluster → Operation → Result Error (Unit {0})) → Operation → Cluster → Type 0
Refuses check op c = check c op ≡ err cluster_protected

abbrev pub IsUndeletable : Cluster → Type 0
IsUndeletable c =
    Refuses check_provisioning_protection Operation.delete c
    × Refuses check_installation_protection Operation.delete c

abbrev pub IsFixed : Cluster → Type 0
IsFixed c =
    IsUndeletable c
    × Refuses check_provisioning_protection Operation.update c
    × Refuses check_installation_protection Operation.update c

pub cluster_of-get :
    {W : Type 0} (st : State W) (id : String) (c : Cluster)
    → cluster_of st.clusters id ≡ ok c
    → get id st.clusters ≡ ok c
cluster_of-get st id c h = ground arith

module _ {W : Type 0} (P : W → Type 0) where
  -- The repository is as it was, and the world has the property.
  abbrev Keeps : State W → State W → Type 0
  Keeps st out = (out.clusters ≡ st.clusters) × P out.world

  when_allowed-Keeps :
      (check : Result Error (Unit {0})) (call : W → Result Error (Unit {0}) × W) (st : State W)
      → ((w : W) → P w → P (call w).1)
      → P st.world
      → Keeps st (when_allowed check call st).1
  when_allowed-Keeps (ok _) call st keeps h = (refl, keeps _ h)
  when_allowed-Keeps (err e) call st keeps h = (refl, h)

  on_cluster-Keeps :
      (i : Option ForceInput) (act : Cluster → Bool → State W → Result Error (Unit {0}) × State W)
      (st : State W)
      → ((c : Cluster) (force : Bool)
          → (id : String) × (get id st.clusters ≡ ok c)
          → Keeps st (act c force st).1)
      → P st.world
      → Keeps st (on_cluster i act st).1
  on_cluster-Keeps none act st keeps h = (refl, h)
  on_cluster-Keeps (some i) act st keeps h =
      elim (Result-cases (cluster_of st.clusters i.cluster_id)) [
        | inl (c, found) ↦
            rw (found, on_cluster)
              (keeps c i.force (i.cluster_id, cluster_of-get st i.cluster_id c found))
        | inr (e, missing) ↦ rw (missing, on_cluster) (refl, h)
      ]

module _ {W : Type 0} (p : ClusterPort W) (P : W → Type 0)
    (looks : (c : Cluster) (w : W) → P w → P (p.status c w).1) where
  provision_cluster-Keeps :
      (c : Cluster) (force : Bool) (st : State W)
      → ((w : W) → P w → P (p.provision c force w).1)
      → P st.world
      → Keeps P st (provision_cluster p c force st).1
  unfolding provision_cluster
  provision_cluster-Keeps c force st keeps h =
      when_allowed-Keeps P _ (p.provision c force) (record st { world = (p.status c st.world).1 })
        keeps (looks c st.world h)

  install_cluster-Keeps :
      (c : Cluster) (force : Bool) (st : State W)
      → ((w : W) → P w → P (p.install c force w).1)
      → P st.world
      → Keeps P st (install_cluster p c force st).1
  unfolding install_cluster
  install_cluster-Keeps c force st keeps h =
      when_allowed-Keeps P _ (p.install c force) (record st { world = (p.status c st.world).1 })
        keeps (looks c st.world h)

pub refused_call :
    {W : Type 0} {e : Error} (check : Result Error (Unit {0}))
    (call : W → Result Error (Unit {0}) × W) (st : State W)
    → check ≡ err e
    → when_allowed check call st ≡ (err e, st)
refused_call check call st h = rw (h, when_allowed) refl

module _ {W : Type 0} (p : ClusterPort W) where
  pub deprovision_cluster-refused :
      (c : Cluster) (force : Bool) (st : State W)
      → IsUndeletable c
      → deprovision_cluster p c force st ≡ (err cluster_protected, st)
  unfolding deprovision_cluster
  deprovision_cluster-refused c force st h = refused_call _ _ st h.0

  pub uninstall_cluster-refused :
      (c : Cluster) (force : Bool) (st : State W)
      → IsUndeletable c
      → uninstall_cluster p c force st ≡ (err cluster_protected, st)
  unfolding uninstall_cluster
  uninstall_cluster-refused c force st h = refused_call _ _ st h.1

  run-Keeps :
      (P : W → Type 0)
      → ((c : Cluster) (w : W) → P w → P (p.status c w).1)
      → ((c : Cluster) (force : Bool) (w : W) → P w → P (p.provision c force w).1)
      → ((c : Cluster) (force : Bool) (w : W) → P w → P (p.install c force w).1)
      → (command : Command) (st : State W) → Every IsUndeletable st
      → P st.world
      → Keeps P st (run p command st).1
  unfolding provision deprovision install uninstall
  run-Keeps P looks provides sets (provisions i) st every h =
      on_cluster-Keeps P i (provision_cluster p) st
        (λ c force stored. provision_cluster-Keeps p P looks c force st (provides c force) h) h
  run-Keeps P looks provides sets (installs i) st every h =
      on_cluster-Keeps P i (install_cluster p) st
        (λ c force stored. install_cluster-Keeps p P looks c force st (sets c force) h) h
  run-Keeps P looks provides sets (deprovisions i) st every h =
      on_cluster-Keeps P i (deprovision_cluster p) st
        (λ c force (id, stored).
          rw (deprovision_cluster-refused c force st (every id c stored)) (refl, h))
        h
  run-Keeps P looks provides sets (uninstalls i) st every h =
      on_cluster-Keeps P i (uninstall_cluster p) st
        (λ c force (id, stored).
          rw (uninstall_cluster-refused c force st (every id c stored)) (refl, h))
        h

-- While every stored cluster's protection refuses deleting, both for provisioning and for
-- installation, no sequence of the four use cases, forced or not, takes away a property of the
-- world that Status, Provision and Install keep; and it leaves the repository as it was.
pub run_all-undeletable :
    {W : Type 0} (p : ClusterPort W) (P : W → Type 0)
    → ((c : Cluster) (w : W) → P w → P (p.status c w).1)
    → ((c : Cluster) (force : Bool) (w : W) → P w → P (p.provision c force w).1)
    → ((c : Cluster) (force : Bool) (w : W) → P w → P (p.install c force w).1)
    → (commands : List Command) (st : State W) → Every IsUndeletable st
    → P st.world
    → ((run_all p commands st).clusters ≡ st.clusters) × P (run_all p commands st).world
run_all-undeletable p P looks provides sets [] st every h = (refl, h)
run_all-undeletable p P looks provides sets (command ∷ commands) st every h =
    let (same, kept) = run-Keeps p P looks provides sets command st every h in
    let (later, result) =
      run_all-undeletable p P looks provides sets commands (run p command st).1
        (λ id c stored. every id c (sym (ap (get id) same) ∙ stored)) kept in
    (later ∙ same, result)
