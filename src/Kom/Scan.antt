-- ===== src/Kom/Scan.antt =====
-- cmd/kompoxops/kom_loader.go: the search for KOM files in the directories of a project, with its
-- limits. The limit on the depth is also what bounds the recursion, so it needs no other fuel.
pub mod Limits
pub mod Collecting
mod Tests
use kompox.Prelude.{
  ℕ, zero, suc, ◌+◌, leb, ltb, String, Bool, true, false, not, ◌||◌, Option, none, some, List, [],
  ◌∷◌, ◌++◌, split_slash, if◌then◌else◌, ◌==◌, Result, ok, err, ◌>>=◌, ◌>>◌, guard, found,
}
use kompox.Crd.Loader.{Entry, FileSystem}

pub data ScanError : Type 0 where
  too_deep : ScanError
  no_symlinks no_directory no_info no_stat too_large : String → ScanError
  too_many total_too_large : ScanError

abbrev pub max_kom_files : ℕ
max_kom_files = 5000

abbrev pub max_kom_file_size : ℕ
max_kom_file_size = 2097152

abbrev pub max_kom_total_size : ℕ
max_kom_total_size = 33554432

-- The depths are 0 to 10.
abbrev pub max_kom_depth : ℕ
max_kom_depth = 10

abbrev pub ignored_path_components : List String
ignored_path_components =
    ".git" ∷ ".github" ∷ "node_modules" ∷ "vendor" ∷ ".direnv" ∷ ".venv" ∷ "dist" ∷ "build" ∷ []

unfoldable pub is_member : String → List String → Bool
is_member s [] = false
is_member s (t ∷ texts) = t == s || is_member s texts

unfoldable pub any_member : List String → List String → Bool
any_member [] texts = false
any_member (p ∷ parts) texts = is_member p texts || any_member parts texts

unfoldable pub is_path_ignored : String → Bool
is_path_ignored path = any_member (split_slash path) ignored_path_components

-- The directories seen, and komScanStats.
pub record Scan : Type 0 where
  pub visited : List String
  pub file_count : ℕ
  pub total_size : ℕ

abbrev pub new_scan : Scan
new_scan = record { visited = []; file_count = 0; total_size = 0 }

abbrev pub count_file : ℕ → Scan → Scan
count_file size st = record st { file_count = st.file_count + 1; total_size = st.total_size + size }

-- A file of a directory, and its limits.
unfoldable pub scan_file : String → Option ℕ → Scan → Result ScanError (List String × Scan)
scan_file path info st = do
  size ← found info (no_info path)
  guard (not (leb max_kom_files st.file_count)) too_many
  guard (not (ltb max_kom_file_size size)) (too_large path)
  guard (not (ltb max_kom_total_size (st.total_size + size))) total_too_large
  ok (path ∷ [], count_file size st)

abbrev pub is_yaml : String → Bool
is_yaml ext = ext == ".yml" || ext == ".yaml"

-- visitedFiles has the files of allKOMFiles, so the list answers for both.
unfoldable pub add_new : List String → List String → List String
add_new all [] = all
add_new all (f ∷ more) = add_new (if is_member f all then all else all ++ f ∷ []) more

unfoldable pub add_single : String → ℕ → List String → Scan → Result ScanError (List String × Scan)
add_single path size all st = do
  guard (not (ltb max_kom_file_size size)) (too_large path)
  guard (not (ltb max_kom_total_size (st.total_size + size))) total_too_large
  guard (not (leb max_kom_files st.file_count)) too_many
  ok (all ++ path ∷ [], count_file size st)

abbrev pub add_scanned : List String → List String × Scan → Result ScanError (List String × Scan)
add_scanned all (scanned, st) = ok (add_new all scanned, st)

module _ (files : FileSystem) where
  -- One entry of a directory; `recurse` is the scan of its subdirectories.
  unfoldable pub scan_entry :
      (String → Scan → Result ScanError (List String × Scan))
      → String
      → Entry
      → Scan
      → Result ScanError (List String × Scan)
  scan_entry recurse dir e st =
      if is_path_ignored (files.join dir e.name)
      then ok ([], st)
      else if e.is_dir
      then recurse (files.join dir e.name) st
      else if is_yaml (files.ext e.name)
      then scan_file (files.join dir e.name) e.size st
      else ok ([], st)

  unfoldable pub scan_entries :
      (String → Scan → Result ScanError (List String × Scan))
      → String
      → List Entry
      → Scan
      → Result ScanError (List String × Scan)
  scan_entries recurse dir [] st = ok ([], st)
  scan_entries recurse dir (e ∷ entries) st = do
    (found_here, st') ← scan_entry recurse dir e st
    (more, st'') ← scan_entries recurse dir entries st'
    ok (found_here ++ more, st'')

  -- A directory whose real path is not among those seen.
  abbrev pub scan_new :
      (String → Scan → Result ScanError (List String × Scan))
      → String
      → String
      → Scan
      → Result ScanError (List String × Scan)
  scan_new recurse dir real st = do
    entries ← found (files.read_dir dir) (no_directory dir)
    scan_entries recurse dir entries (record st { visited = real ∷ st.visited })

  -- scanKOMDirectory, by how many levels are left: max_kom_depth + 1 - depth.
  unfoldable pub scan_kom_directory : ℕ → String → Scan → Result ScanError (List String × Scan)
  scan_kom_directory zero dir st = err too_deep
  scan_kom_directory (suc levels) dir st = do
    real ← found (files.eval_symlinks dir) (no_symlinks dir)
    elim (is_member real st.visited) [
      | true ↦ ok ([], st)
      | false ↦ scan_new (scan_kom_directory levels) dir real st
    ]

  unfoldable pub collect_path :
      String → Bool × ℕ → List String → Scan → Result ScanError (List String × Scan)
  collect_path path (true, size) all st =
      scan_kom_directory (max_kom_depth + 1) path st >>= add_scanned all
  collect_path path (false, size) all st =
      if is_member path all then ok (all, st) else add_single path size all st

  -- The loop over the validated paths.
  unfoldable pub collect_paths :
      List String → List String → Scan → Result ScanError (List String × Scan)
  collect_paths [] all st = ok (all, st)
  collect_paths (path ∷ paths) all st = do
    info ← found (files.stat path) (no_stat path)
    (all', st') ← collect_path path info all st
    collect_paths paths all' st'

  unfoldable pub find_kom_files : List String → Result ScanError (List String)
  find_kom_files paths = do (all, st) ← collect_paths paths [] new_scan; ok all
