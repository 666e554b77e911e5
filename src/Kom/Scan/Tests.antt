-- ===== src/Kom/Scan/Tests.antt =====
-- A directory searched, and an instance of the theorem.
use kompox.Prelude.{
  ◌≡◌, ◌⊎◌, ◌≤◌, refl, String, true, false, List, [], ◌∷◌, length, All, split_slash, is_slash, ok,
  err,
}
use kompox.Kom.Sample.{tree}
use kompox.Kom.Scan.{
  too_deep, is_member, any_member, is_path_ignored, new_scan, scan_file, scan_entry, scan_entries,
  scan_kom_directory, add_new, add_single, collect_path, collect_paths, find_kom_files,
}
use kompox.Kom.Scan.Collecting.{Unique, find_kom_files-IsLimited}

abbrev all : List String
all = "kom/more/b.yaml" ∷ "kom/a.yml" ∷ "/etc/x.yml" ∷ []

abbrev paths : List String
paths = "kom" ∷ "/etc/x.yml" ∷ "kom/a.yml" ∷ []

searched : find_kom_files tree paths ≡ ok all
unfolding find_kom_files collect_paths collect_path add_single add_new scan_kom_directory
    scan_entries scan_entry scan_file is_path_ignored any_member is_member split_slash is_slash
searched = refl

-- No levels are left at the depth of 11.
deep_test : scan_kom_directory tree 0 "kom" new_scan ≡ err too_deep
unfolding scan_kom_directory
deep_test = refl

find_kom_files-IsLimited_example :
    (length all ≤ 5000)
    × Unique all
    × All (λ f. (is_path_ignored f ≡ false) ⊎ (is_member f paths ≡ true)) all
find_kom_files-IsLimited_example = find_kom_files-IsLimited tree paths all searched
