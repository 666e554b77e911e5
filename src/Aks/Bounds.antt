-- ===== src/Aks/Bounds.antt =====
-- The lengths of the names of Azure resources.
use Prim.Native.String.{len, slice}
use text.Mathlib.TextPositions.{len-append}
use kompox.Prelude.{
  ℕ, ◌+◌, ◌-◌, ◌≤◌, ◌≡◌, refl, inl, inr, String, true, false, some, ltb, leb, Bool-cases, append,
  Result, ok, if◌then◌else◌, arith, len-slice,
}
use kompox.Domain.Model.{Cluster, App}
use kompox.Naming.Hashes.{Digest, new_hashes, short_hash-len}
use kompox.Aks.{
  Error, Driver, safe_truncate, joined, named, configured, hashes_of, cluster_resource_group_name,
  app_resource_group_name, app_disk_name, app_snapshot_name, app_storage_account_name, first_six,
}

-- A successful result of at most `n` bytes.
abbrev pub IsShort : {E : Type 0} → ℕ → Result E String → Type 0
IsShort n r = (s : String) × (r ≡ ok s) × (len s ≤ n)

cut-len : (base : String) (n : ℕ) → len (if ltb n (len base) then slice base 0 n else base) ≤ n
cut-len base n = elim (Bool-cases (ltb n (len base))) [
  | inl long ↦ rw long (len-slice base n)
  | inr fits ↦ rw fits (ground arith)
]

safe_truncate-IsShort : (base hash : String) → len hash ≡ 6 → IsShort 72 (safe_truncate base hash)
unfolding safe_truncate
safe_truncate-IsShort base hash six =
    let n = 72 - (len hash + 1) in
    let cut : String = if ltb n (len base) then slice base 0 n else base in
    let room : ltb 0 n ≡ true = ground arith in
    (
      append cut (append "_" hash),
      rw (room, safe_truncate) refl,
      omega (arith, len-append cut (append "_" hash), len-append "_" hash, cut-len base n),
    )

named-IsShort :
    (what : String) (n : ℕ) (r : Result Error String) → IsShort n r → IsShort n (named what r)
named-IsShort what n r (s, is, short) = (s, rw (is, named) refl, short)

first_six-len : (h : String) → len h ≡ 6 → len (first_six h) ≡ 6
first_six-len h six = let fits : ltb 6 (len h) ≡ false = ground arith in rw (fits, first_six) six

module _ (sha : Digest) (d : Driver) where
  cluster-len : (cluster app : String) → len (hashes_of sha d cluster app).cluster ≡ 6
  unfolding new_hashes
  cluster-len cluster app = short_hash-len sha _ 6

  app_id-len : (cluster app : String) → len (hashes_of sha d cluster app).app_id ≡ 6
  unfolding new_hashes
  app_id-len cluster app = short_hash-len sha _ 6

  provider-len : (cluster app : String) → len (hashes_of sha d cluster app).provider ≡ 6
  unfolding new_hashes
  provider-len cluster app = short_hash-len sha _ 6

  -- The names of the resource groups of a cluster and of an app whose settings give none are made
  -- without an error and have at most 72 bytes; so have those of a disk and of a snapshot, where
  -- the volume's name has at most 16 bytes and their own at most 24.
  pub names-IsShort :
      (c : Cluster) (a : App) (v n : String)
      → configured c.settings ≡ ""
      → configured a.settings ≡ ""
      → len v ≤ 16
      → len n ≤ 24
      → IsShort 72 (cluster_resource_group_name sha d (some c))
        × IsShort 72 (app_resource_group_name sha d (some a))
        × IsShort 72 (app_disk_name sha d a v n)
        × IsShort 72 (app_snapshot_name sha d a v n)
  unfolding cluster_resource_group_name app_resource_group_name app_disk_name app_snapshot_name
  names-IsShort c a v n free_c free_a short_v short_n =
      let fits_v : leb (len v) 16 ≡ true = ground arith in
      let fits_n : leb (len n) 24 ≡ true = ground arith in
      let short = λ (base : String).
        safe_truncate-IsShort base (hashes_of sha d "" a.name).app_id (app_id-len "" a.name) in
      (
        rw (free_c, cluster_resource_group_name)
            (named-IsShort _ 72 _ (
              safe_truncate-IsShort (joined d.resource_prefix "_cls_" c.name) _
                (cluster-len c.name ""))),
        rw (free_a, app_resource_group_name)
            (named-IsShort _ 72 _ (short (joined d.resource_prefix "_app_" a.name))),
        rw (fits_v, fits_n, app_disk_name)
            (named-IsShort _ 72 _ (short (joined d.resource_prefix "_disk_" (joined v "_" n)))),
        rw (fits_v, fits_n, app_snapshot_name)
            (named-IsShort _ 72 _ (short (joined d.resource_prefix "_snap_" (joined v "_" n)))),
      )

  -- The name of an app's storage account has exactly 15 bytes.
  pub app_storage_account_name-len :
      (a : App) → (s : String) × (app_storage_account_name sha d (some a) ≡ ok s) × (len s ≡ 15)
  unfolding app_storage_account_name
  app_storage_account_name-len a =
      let h = hashes_of sha d "" a.name in
      let p = first_six-len h.provider (provider-len "" a.name) in
      let q = first_six-len h.app_id (app_id-len "" a.name) in
      (
        append "k4x" (append (first_six h.provider) (first_six h.app_id)),
        refl,
        omega (
          arith,
          len-append "k4x" (append (first_six h.provider) (first_six h.app_id)),
          len-append (first_six h.provider) (first_six h.app_id),
        ),
      )
