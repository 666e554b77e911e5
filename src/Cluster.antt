-- ===== src/Cluster.antt =====
-- usecase/cluster: the use cases of clusters, over the repository and a port to the cloud.
pub mod Guarded
pub mod Fixed
pub mod Editing
pub mod Lifecycle
mod Tests
use kompox.Prelude.{
  ℕ, String, Bool, true, false, not, ◌&&◌, ◌||◌, Option, none, some, List, [], ◌==◌, Result, ok,
  err, if◌then◌else◌,
}
use kompox.Domain.Model.{Error, cluster_invalid, nil_dereference, Cluster}
use kompox.Domain.Protection.{
  Operation, check_provisioning_protection, check_installation_protection,
}
use kompox.Store.{Repository, cluster_entity, get, list}
use kompox.Store

pub record ClusterStatus : Type 0 where
  pub existing : Bool
  pub provisioned : Bool
  pub installed : Bool
  pub ingress_global_ip : String
  pub ingress_fqdn : String

-- What a call of the port answers, and the world after it.
abbrev pub Answer : Type 0 → Type 0 → Type 0
Answer W A = Result Error A × W

-- domain/model/cluster_port.go. The drivers behind it act on the cloud, so it is a parameter: the
-- Boolean is the option WithCluster…Force, and a status may be a nil pointer.
pub record ClusterPort (W : Type 0) : Type 0 where
  pub status : Cluster → W → Answer W (Option ClusterStatus)
  pub provision : Cluster → Bool → W → Answer W (Unit {0})
  pub deprovision : Cluster → Bool → W → Answer W (Unit {0})
  pub install : Cluster → Bool → W → Answer W (Unit {0})
  pub uninstall : Cluster → Bool → W → Answer W (Unit {0})

pub record State (W : Type 0) : Type 0 where
  pub clusters : Repository Cluster
  pub world : W

-- ProvisionInput, DeprovisionInput, InstallInput and UninstallInput.
pub record ForceInput : Type 0 where
  pub cluster_id : String
  pub force : Bool

pub record CreateInput : Type 0 where
  pub name : String
  pub provider_id : String

pub record UpdateInput : Type 0 where
  pub cluster_id : String
  pub name : Option String
  pub provider_id : Option String

pub record StatusOutput : Type 0 where
  pub status : ClusterStatus
  pub cluster_id : String
  pub cluster_name : String

abbrev pub cluster_of : Repository Cluster → String → Result Error Cluster
cluster_of clusters id = if id == "" then err cluster_invalid else get id clusters

-- `status, statusErr := Status(...); isFirstTime := statusErr != nil || status == nil || !status.X`
abbrev pub is_first_time : (ClusterStatus → Bool) → Result Error (Option ClusterStatus) → Bool
is_first_time done (err e) = true
is_first_time done (ok none) = true
is_first_time done (ok (some s)) = not (done s)

abbrev pub operation_of : Bool → Operation
operation_of first_time = if first_time then Operation.create else Operation.update

module _ {W : Type 0} where
  abbrev pub put_world : {A : Type 0} → State W → Answer W A → Result Error A × State W
  put_world st (r, w) = (r, record st { world = w })

  -- The call of the port, once the check has passed.
  abbrev pub when_allowed :
      Result Error (Unit {0})
      → (W → Answer W (Unit {0}))
      → State W
      → Result Error (Unit {0}) × State W
  when_allowed (err e) call st = (err e, st)
  when_allowed (ok _) call st = put_world st (call st.world)

  module _ (p : ClusterPort W) where
    unfoldable pub provision_cluster : Cluster → Bool → State W → Result Error (Unit {0}) × State W
    provision_cluster c force st =
        let (status, w) = p.status c st.world in
        let op = operation_of (is_first_time (λ s. s.provisioned) status) in
        when_allowed (check_provisioning_protection c op) (p.provision c force)
          (record st { world = w })

    unfoldable pub deprovision_cluster :
        Cluster → Bool → State W → Result Error (Unit {0}) × State W
    deprovision_cluster c force st =
        when_allowed (check_provisioning_protection c Operation.delete) (p.deprovision c force) st

    unfoldable pub install_cluster : Cluster → Bool → State W → Result Error (Unit {0}) × State W
    install_cluster c force st =
        let (status, w) = p.status c st.world in
        let op = operation_of (is_first_time (λ s. s.installed) status) in
        when_allowed (check_installation_protection c op) (p.install c force)
          (record st { world = w })

    unfoldable pub uninstall_cluster : Cluster → Bool → State W → Result Error (Unit {0}) × State W
    uninstall_cluster c force st =
        when_allowed (check_installation_protection c Operation.delete) (p.uninstall c force) st

  -- The guard and the Get at the start of each of the four.
  abbrev pub on_cluster :
      Option ForceInput
      → (Cluster → Bool → State W → Result Error (Unit {0}) × State W)
      → State W
      → Result Error (Unit {0}) × State W
  on_cluster none run st = (err cluster_invalid, st)
  on_cluster (some i) run st = elim (cluster_of st.clusters i.cluster_id) [
    | err e ↦ (err e, st)
    | ok c ↦ run c i.force st
  ]

  module _ (p : ClusterPort W) where
    unfoldable pub provision : Option ForceInput → State W → Result Error (Unit {0}) × State W
    provision i st = on_cluster i (provision_cluster p) st

    unfoldable pub deprovision : Option ForceInput → State W → Result Error (Unit {0}) × State W
    deprovision i st = on_cluster i (deprovision_cluster p) st

    unfoldable pub install : Option ForceInput → State W → Result Error (Unit {0}) × State W
    install i st = on_cluster i (install_cluster p) st

    unfoldable pub uninstall : Option ForceInput → State W → Result Error (Unit {0}) × State W
    uninstall i st = on_cluster i (uninstall_cluster p) st

    abbrev output_of : Cluster → Result Error (Option ClusterStatus) → Result Error StatusOutput
    output_of c (err e) = err e
    output_of c (ok none) = err nil_dereference
    output_of c (ok (some s)) = ok (record { status = s; cluster_id = c.id; cluster_name = c.name })

    -- The ID of a StatusInput, or nil.
    unfoldable pub status : Option String → State W → Result Error StatusOutput × State W
    status none st = (err cluster_invalid, st)
    status (some id) st = elim (cluster_of st.clusters id) [
      | err e ↦ (err e, st)
      | ok c ↦ let (r, w) = p.status c st.world in (output_of c r, record st { world = w })
    ]

-- The use cases on the repository alone. `now` is time.Now of the use case, and `tick` that of the
-- repository.
abbrev pub new_cluster : ℕ → CreateInput → Cluster
new_cluster now i = record {
  id = "";
  name = i.name;
  provider_id = i.provider_id;
  existing = false;
  ingress = none;
  protection = none;
  settings = [];
  created_at = now;
  updated_at = now;
}

unfoldable pub create :
    ℕ → ℕ → Option CreateInput → Repository Cluster → Result Error Cluster × Repository Cluster
create now tick none r = (err cluster_invalid, r)
create now tick (some i) r =
    if i.name == ""
    then (err cluster_invalid, r)
    else (let (c, r') = Store.create tick (new_cluster now i) r in (ok c, r'))

-- `in.Name != nil && *in.Name != "" && existing.Name != *in.Name`
abbrev pub rename : Option String → Cluster → Cluster × Bool
rename none c = (c, false)
rename (some n) c = if n == "" || c.name == n then (c, false) else (record c { name = n }, true)

abbrev pub move : Option String → Cluster → Cluster × Bool
move none c = (c, false)
move (some p) c = if c.provider_id == p then (c, false) else (record c { provider_id = p }, true)

abbrev pub write_back :
    ℕ → Bool → Cluster → Repository Cluster → Result Error Cluster × Repository Cluster
write_back now false c r = (ok c, r)
write_back now true c r =
    let c' = record c { updated_at = now } in
    let (written, r') = Store.update c' r in (elim written [ ok _ ↦ ok c' | err e ↦ err e ], r')

unfoldable pub update :
    ℕ → Option UpdateInput → Repository Cluster → Result Error Cluster × Repository Cluster
update now none r = (err cluster_invalid, r)
update now (some i) r = elim (cluster_of r i.cluster_id) [
  | err e ↦ (err e, r)
  | ok existing ↦
      let (renamed, name_changed) = rename i.name existing in
      let (moved, provider_changed) = move i.provider_id renamed in
      write_back now (name_changed || provider_changed) moved r
]

-- Deleting nothing succeeds.
unfoldable pub delete :
    Option String → Repository Cluster → Result Error (Unit {0}) × Repository Cluster
delete none r = (ok tt, r)
delete (some id) r = if id == "" then (ok tt, r) else Store.delete id r

unfoldable pub get_cluster : Option String → Repository Cluster → Result Error Cluster
get_cluster none r = err cluster_invalid
get_cluster (some id) r = cluster_of r id

unfoldable pub list_clusters : Repository Cluster → List Cluster
list_clusters r = list r
