-- ===== src/Aks/Tests.antt =====
-- Names of resources with a digest that repeats its text, and instances of the theorems.
use Prim.Native.Char.{len_utf8}
use Prim.Native.String.{len}
use kompox.Prelude.{
  ◌≤◌, ◌≡◌, refl, String, false, none, some, [], ok, err, if◌then◌else◌, IsAscii, Bool-cases, inl,
  inr, nat_eq, arith, lookup,
}
use kompox.Domain.Model.{Cluster, App}
use kompox.Naming.Hashes.{Digest, pad, short_hash, new_hashes, short_hash-len}
use kompox.Aks.{
  Driver, cluster_nil, configured, safe_truncate, cluster_resource_group_name,
  app_resource_group_name, app_disk_name, app_snapshot_name, app_storage_account_name,
}
use kompox.Aks.Bounds.{IsShort, names-IsShort, app_storage_account_name-len}

-- The characters of one byte.
unfoldable only_ascii : String → String
only_ascii String.[] = ""
only_ascii (String.◌∷◌ c s) =
    let rest = only_ascii s in if nat_eq (len_utf8 c) 1 then String.◌∷◌ c rest else rest

only_ascii-IsAscii : (s : String) → IsAscii (only_ascii s)
unfolding only_ascii
only_ascii-IsAscii String.[] = tt
only_ascii-IsAscii (String.◌∷◌ c s) = elim (Bool-cases (nat_eq (len_utf8 c) 1)) [
  | inl one ↦ rw (one, only_ascii) (ground arith, only_ascii-IsAscii s)
  | inr wide ↦ rw (wide, only_ascii) (only_ascii-IsAscii s)
]

abbrev echo : Digest
echo = record { base36 = only_ascii; digits = only_ascii-IsAscii }

abbrev driver : Driver
driver = record { workspace_name = "w"; provider_name = "p"; resource_prefix = "k4x" }

abbrev cluster : Cluster
cluster = record {
  id = "c1";
  name = "prod";
  provider_id = "p1";
  existing = false;
  ingress = none;
  protection = none;
  settings = [];
  created_at = 1;
  updated_at = 1;
}

abbrev app : App
app = record {
  id = "a1";
  name = "blog";
  cluster_id = "c1";
  compose = "";
  ingress = record { cert_resolver = ""; rules = [] };
  volumes = [];
  deployment = record { pool = ""; pools = []; zone = ""; zones = []; selectors = [] };
  network_policy = [];
  resources = [];
  settings = [];
  created_at = 1;
  updated_at = 1;
  ref_base = "";
}

name_tests :
    (cluster_resource_group_name echo driver (some cluster) ≡ ok "k4x_cls_prod_w:p:pr")
    × (cluster_resource_group_name echo driver none ≡ err cluster_nil)
    × (app_storage_account_name echo driver (some app) ≡ ok "k4x000w:pw:p:bl")
    × (short_hash echo "ab" 6 ≡ "0000ab")
unfolding only_ascii pad short_hash new_hashes safe_truncate cluster_resource_group_name
    app_storage_account_name lookup
name_tests = (refl, refl, refl, refl)

short_hash-len_test : len (short_hash echo "w:p" 6) ≡ 6
short_hash-len_test = short_hash-len echo "w:p" 6

short_names : (len "data" ≤ 16) × (len "d20240101" ≤ 24)
short_names = (omega arith, omega arith)

free : (configured cluster.settings ≡ "") × (configured app.settings ≡ "")
unfolding lookup
free = (refl, refl)

names-IsShort_example :
    IsShort 72 (cluster_resource_group_name echo driver (some cluster))
    × IsShort 72 (app_resource_group_name echo driver (some app))
    × IsShort 72 (app_disk_name echo driver app "data" "d20240101")
    × IsShort 72 (app_snapshot_name echo driver app "data" "d20240101")
names-IsShort_example =
    names-IsShort echo driver cluster app "data" "d20240101" free.0 free.1 short_names.0
      short_names.1

app_storage_account_name-len_test :
    (s : String) × (app_storage_account_name echo driver (some app) ≡ ok s) × (len s ≡ 15)
app_storage_account_name-len_test = app_storage_account_name-len echo driver app
