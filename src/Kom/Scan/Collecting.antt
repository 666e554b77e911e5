-- ===== src/Kom/Scan/Collecting.antt =====
-- The files that the search collects: at most so many, each once, and none that is ignored.
use kompox.Prelude.{
  ℕ, ◌+◌, ◌≤◌, ◌≡◌, ◌⊎◌, refl, inl, inr, String, Bool, true, false, Bool-cases, List, [], ◌∷◌, ◌++◌,
  length, length-append, All, All-append, All-map, ◌==◌, eq_iff, eq_refl, arith, ok, ok_inj, found,
  bind-eq-ok, guard_iff,
}
use mathlib.Core.Path.{subst}
use kompox.Crd.Loader.{FileSystem}
use kompox.Kom.Scan.Limits.{Fits, count_file-Fits, scan_kom_directory-Scanned}
use kompox.Kom.Scan.{
  max_kom_depth, is_member, is_path_ignored, Scan, new_scan, count_file, scan_kom_directory,
  add_new, add_single, collect_path, collect_paths, find_kom_files,
}

-- Each text once.
abbrev pub Unique : List String → Type 0
Unique [] = Unit
Unique (f ∷ all) = (is_member f all ≡ false) × Unique all

is_member-snoc :
    (f g : String) (all : List String)
    → is_member f all ≡ false
    → (g == f) ≡ false
    → is_member f (all ++ g ∷ []) ≡ false
unfolding is_member
is_member-snoc f g [] h differ = ground (arith, differ)
is_member-snoc f g (t ∷ all) h differ =
    let first : (t == f) ≡ false = ground (arith, h) in
    let rest : is_member f all ≡ false = ground (arith, h) in
    rw first (is_member-snoc f g all rest differ)

Unique-snoc :
    (g : String) (all : List String) → is_member g all ≡ false → Unique all → Unique (all ++ g ∷ [])
unfolding is_member
Unique-snoc g [] h u = (refl, tt)
Unique-snoc g (t ∷ all) h (fresh, u) =
    let first : (t == g) ≡ false = ground (arith, h) in
    let rest : is_member g all ≡ false = ground (arith, h) in
    (
      is_member-snoc t g all fresh (ground (arith, eq_iff t g, eq_iff g t)),
      Unique-snoc g all rest u,
    )

-- The files collected so far.
pub record Collected (P : String → Type 0) (all : List String) (st : Scan) : Type 0 where
  pub fits : Fits st
  pub bounded : length all ≤ st.file_count
  pub unique : Unique all
  pub allowed : All P all

module _ (P : String → Type 0) where
  add_new-keeps :
      (all more : List String)
      → Unique all
      → All P all
      → All P more
      → Unique (add_new all more)
        × All P (add_new all more)
        × (length (add_new all more) ≤ length all + length more)
  unfolding add_new
  add_new-keeps all [] u ps qs = (u, ps, omega arith)
  add_new-keeps all (f ∷ more) u ps (q, qs) = elim (Bool-cases (is_member f all)) [
    | inl known ↦
        let (u', ps', short) = add_new-keeps all more u ps qs in
        rw (known, add_new) (u', ps', omega (arith, short))
    | inr new ↦
        let (u', ps', short) =
          add_new-keeps (all ++ f ∷ []) more (Unique-snoc f all new u)
            (All-append P all (f ∷ []) ps (q, tt)) qs in
        rw (new, add_new) (u', ps', omega (arith, short, length-append all (f ∷ [])))
  ]

members : (paths : List String) → All (λ f. is_member f paths ≡ true) paths
unfolding is_member
members [] = tt
members (p ∷ paths) = (
  rw (eq_refl p) refl,
  All-map (λ f. is_member f paths ≡ true) (λ f. is_member f (p ∷ paths) ≡ true)
      (λ f h. ground (arith, h)) paths (members paths),
)

module _ (files : FileSystem) where
  module _ (P : String → Type 0) (kept : (f : String) → is_path_ignored f ≡ false → P f) where
    add_single-Collected :
        (path : String) (size : ℕ) (all : List String) (st : Scan) (out : List String × Scan)
        → P path
        → is_member path all ≡ false
        → Collected P all st
        → add_single path size all st ≡ ok out
        → Collected P out.0 out.1
    unfolding add_single
    add_single-Collected path size all st out p new c h =
        let (_, h1) = (guard_iff _ _ _ out).0 h in
        let (total, h2) = (guard_iff _ _ _ out).0 h1 in
        let (count, h3) = (guard_iff _ _ _ out).0 h2 in
        let collected : Collected P (all ++ path ∷ []) (count_file size st) = record {
          fits = count_file-Fits size st count total;
          bounded = omega (arith, length-append all (path ∷ []), c.bounded);
          unique = Unique-snoc path all new c.unique;
          allowed = All-append P all (path ∷ []) c.allowed (p, tt);
        } in
        subst (λ (o : List String × Scan). Collected P o.0 o.1) (ok_inj h3) collected

    collect_path-Collected :
        (path : String) (info : Bool × ℕ) (all : List String) (st : Scan) (out : List String × Scan)
        → P path
        → Collected P all st
        → collect_path files path info all st ≡ ok out
        → Collected P out.0 out.1
    unfolding collect_path
    collect_path-Collected path (true, size) all st out p c h =
        let ((more, st'), scan, made) =
          bind-eq-ok (scan_kom_directory files (max_kom_depth + 1) path st) _ out h in
        let s =
          scan_kom_directory-Scanned files (max_kom_depth + 1) path st (more, st') c.fits scan in
        let (u, ps, short) =
          add_new-keeps P all more c.unique c.allowed
            (All-map (λ f. is_path_ignored f ≡ false) P kept more s.kept) in
        let collected : Collected P (add_new all more) st' = record {
          fits = s.fits;
          bounded = omega (arith, short, c.bounded, s.counted);
          unique = u;
          allowed = ps;
        } in
        subst (λ (o : List String × Scan). Collected P o.0 o.1) (ok_inj made) collected
    collect_path-Collected path (false, size) all st out p c h =
        elim (Bool-cases (is_member path all)) [
          | inl known ↦
              subst (λ (o : List String × Scan). Collected P o.0 o.1) (ok_inj (rw known at h)) c
          | inr new ↦ add_single-Collected path size all st out p new c (rw new at h)
        ]

    collect_paths-Collected :
        (paths all : List String) (st : Scan) (out : List String × Scan)
        → All P paths
        → Collected P all st
        → collect_paths files paths all st ≡ ok out
        → Collected P out.0 out.1
    unfolding collect_paths
    collect_paths-Collected [] all st out ps c h =
        subst (λ (o : List String × Scan). Collected P o.0 o.1) (ok_inj h) c
    collect_paths-Collected (path ∷ paths) all st out (p, ps) c h =
        let (info, _, h1) = bind-eq-ok (found (files.stat path) _) _ out h in
        let ((all', st'), one, h2) = bind-eq-ok (collect_path files path info all st) _ out h1 in
        collect_paths-Collected paths all' st' out ps
          (collect_path-Collected path info all st (all', st') p c one) h2

  -- The search returns at most 5000 files, each once, and each of them is one of the paths given or
  -- has no ignored directory, such as .git or node_modules, in its path.
  pub find_kom_files-IsLimited :
      (paths all : List String)
      → find_kom_files files paths ≡ ok all
      → (length all ≤ 5000)
        × Unique all
        × All (λ f. (is_path_ignored f ≡ false) ⊎ (is_member f paths ≡ true)) all
  unfolding find_kom_files
  find_kom_files-IsLimited paths all h =
      let ((out, st), collected, made) =
        bind-eq-ok (collect_paths files paths [] new_scan) _ all h in
      let c =
        collect_paths-Collected (λ f. (is_path_ignored f ≡ false) ⊎ (is_member f paths ≡ true))
          (λ f k. inl k) paths [] new_scan (out, st)
          (All-map (λ f. is_member f paths ≡ true) _ (λ f h. inr h) paths (members paths))
          (record {
            fits = (omega arith, omega arith);
            bounded = omega arith;
            unique = tt;
            allowed = tt;
          })
          collected in
      subst
        (λ o.
          (length o ≤ 5000)
          × Unique o
          × All (λ f. (is_path_ignored f ≡ false) ⊎ (is_member f paths ≡ true)) o)
        (ok_inj made) (omega (arith, c.bounded, c.fits.0), c.unique, c.allowed)
