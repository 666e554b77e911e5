-- ===== src/Lib.antt =====
-- Kompox: deploying Compose applications to managed Kubernetes clusters. This library models the
-- part of the program that decides: how resources are named, which documents are accepted, what
-- the repositories hold, and which operations on a cluster are let through.
--
-- The parts, from the outside in:
--   * Documents. A user describes workspaces, providers, clusters, apps and boxes in YAML, each
--     with a resource ID such as /ws/w/prv/p. config/crd/ops/v1alpha1/fqn.go parses, validates and
--     builds the IDs (Crd/Fqn.antt), types.go holds the documents (Crd/Types.antt), validator.go
--     checks a set of them in topological order (Crd/Validator.antt), and sink.go indexes those
--     that passed (Crd/Sink.antt). sink_tomodels.go converts what a sink holds to entities and
--     stores them in repositories (Crd/Convert.antt, Crd/Convert/Stores.antt), the network policies
--     in Crd/Policy.antt.
--     loader.go reads the documents of files and directories (Crd/Loader.antt), and
--     cmd/kompoxops/kom_loader.go puts a project together: it searches directories for files
--     (Kom/Scan.antt), loads their documents, makes a sink of them and finds the default app, and
--     repos_builder_kom.go fills repositories (Kom.antt).
--   * Entities. domain/model has the entities and their errors (Domain/Model.antt) and the
--     protection of clusters, cluster_protection.go (Domain/Protection.antt).
--   * Repositories. adapters/store/inmem keeps the entities in maps and numbers them
--     (Store.antt): one generic model, with an instance of `Entity` for each of the five files.
--     store.go holds the five together (Store/Memory.antt). Store/Refinement.antt has what a
--     repository is to its callers: a function from IDs to entities.
--   * Configuration file. config/kompoxopscfg is the older way to describe the same things, in one
--     file: types.go, validate.go and converter.go are in Config.antt.
--   * Use cases. usecase/cluster reads a cluster from its repository, checks its protection and
--     calls the driver through domain/model/cluster_port.go (Cluster.antt). usecase/workspace,
--     usecase/provider and usecase/app create, change, delete, find and list their entities
--     (UseCases.antt): one generic model, with an instance of `Package` for each.
--   * Validation of an app. usecase/app/validations.go collects issues and binds each volume of an
--     app to its assigned disk (Validations.antt).
--   * Access. internal/kubeconfig/kubeconfig.go reduces a kubeconfig to one context and merges it
--     into the user's (Kubeconfig.antt).
--   * Volumes. usecase/volume lists, creates, assigns and deletes disks and snapshots through
--     VolumePort of domain/model/volume_port.go (Volume.antt), and disk_create_bootstrap.go gives
--     each volume of an app its first disk (Volume/Bootstrap.antt). internal/naming/validation.go
--     checks the names (Naming.antt).
--   * Names in the cloud. internal/naming/naming.go makes short hashes of identifiers
--     (Naming/Hashes.antt), and adapters/drivers/provider/aks/naming.go the names of Azure
--     resources from them (Aks.antt).
--
-- How the models correspond to the code:
--   * A function keeps its name, in lower case with `_`: ParseResourceID is parse_resource_id,
--     (r *ClusterRepository) Update is Store.update. Its (value, error) result is a `Result`, and
--     an error keeps the data that it is formatted from, not its text.
--   * A Go map is an association list with distinct keys (Prelude/Maps.antt). No theorem depends on
--     the order of a map's entries.
--   * A method on a repository is a function from a state to a result and a state; it holds the
--     repository's lock throughout, so runs of several callers are sequences of such steps
--     (Store/Steps.antt). time.Now is an argument.
--   * The cloud behind ClusterPort is an arbitrary state that the port's five methods change; the
--     port is a parameter of every definition and theorem that calls it.
--   * VolumePort is such a parameter too. The theorems on disks name what they rely on: `Driver` in
--     Volume/Bootstrap/Assigned.antt, for the calls that design/v1/Kompox-ProviderDriver.ja.md
--     describes (a driver may assign the first disk when it creates it, and the disks of the other
--     volumes stay as they are), and `Keeper` in Volume/Deleting.antt, for the deletion of a disk
--     that is not assigned. The port of Volume/Sample.antt satisfies both. A listing has no nil
--     disks. Calls of the port are chained in do blocks (Prelude/Actions.antt).
--   * A nil input of a volume use case is answered as one without parameters, so it is left out.
--   * IsDNS1123Label of k8s.io/apimachinery is a parameter too; Labels.antt has what the program
--     relies on of it (a label has no slash, is not empty and has at most 63 characters), and
--     Labels/Sample.antt a function that satisfies this.
--   * So are the library functions that the conversions call: filepath.Abs, filepath.Dir,
--     resource.ParseQuantity and, for the configuration file, yaml.Marshal and the random source
--     (`Library` in Crd/Convert.antt and in Config.antt). ToModels calls only the Create of a
--     repository, so its model takes any `Repositories`; `in_memory` is the instance that stores
--     into adapters/store/inmem.
--   * So are the file system, the YAML decoder, whose stream of documents is a list (a
--     decoder that fails without end is not modelled), and mapToStruct,
--     which copies a map into a struct by way of YAML (`FileSystem` and `Structs` in
--     Crd/Loader.antt). The theorems on loaded documents rely on mapToStruct keeping the name and
--     the ID (`KeepsMetadata` in Crd/Loader/Sourcing.antt); the structs of Kom/Sample.antt do.
--   * A panic of the configuration file's conversion, and a nil pointer read in kubeconfig.go, are
--     errors of their own. The functions of clientcmd are parameters, and so are the types of a
--     kubeconfig's clusters and users, which are only copied.
--   * Numbers do not wrap: the counters and indices count documents and created entities. The
--     numbers of a document are those of ℕ, so negative ports, which the code refuses, are left out.
--   * SHA-256 and big integers in base 36 are a parameter, `Digest` in Naming/Hashes.antt: digits of
--     one byte each. ShortHash pads in a loop, which is a recursion on as many rounds as the length
--     asked for, since each round adds a byte.
--   * uniqueName counts up until a name is free. Its model has one round more than the map has
--     entries, which is enough, since the names it tries are distinct.
--   * scanKOMDirectory is a recursion on the levels that its limit on the depth leaves, so the limit
--     is what bounds it and no other fuel is needed.
--   * The other loops are structural recursions, without fuel. sort.Slice is insertion sort;
--     the order compares kinds and then IDs, so where no two documents have one ID every sort
--     gives the same list. IDs are compared as texts.
--   * Lengths of texts are bytes, as in Go. Where s[:n] would divide a character, the model leaves
--     the whole character out.
--
-- Not modelled: reading files and YAML, the choice of the paths to search, the Kubernetes converter and clients, the use cases that
-- only call these (deploying, logs, tunnels, DNS), node pools and secrets, the drivers' calls of the
-- cloud, the relational store and the command line (input, output and calls of libraries).
pub mod Prelude
pub mod Labels
pub mod Crd
pub mod Domain
pub mod Store
pub mod Cluster
pub mod Aks
pub mod Config
pub mod Kom
pub mod Kubeconfig
pub mod Naming
pub mod UseCases
pub mod Validations
pub mod Volume
