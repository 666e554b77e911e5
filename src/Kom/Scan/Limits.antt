-- ===== src/Kom/Scan/Limits.antt =====
-- What the scan of a directory finds: the limits, and the ignored paths.
use kompox.Prelude.{
  ℕ, zero, suc, ◌+◌, ◌≤◌, ◌≡◌, refl, inl, inr, String, true, false, not, Bool-cases, Option, List,
  [], ◌∷◌, length, length-append, All, All-append, leb, ltb, arith, Result, ok, ok_inj, found,
  bind-eq-ok, guard_iff,
}
use mathlib.Core.Path.{subst}
use kompox.Crd.Loader.{Entry, FileSystem}
use kompox.Kom.Scan.{
  ScanError, no_info, max_kom_files, max_kom_total_size, is_member, is_path_ignored, Scan,
  count_file, scan_file, is_yaml, scan_entry, scan_entries, scan_kom_directory,
}

abbrev pub Fits : Scan → Type 0
Fits st = (st.file_count ≤ 5000) × (st.total_size ≤ 33554432)

-- A scan adds its files to the count, stays in the limits and takes no ignored path.
pub record Scanned (st : Scan) (out : List String × Scan) : Type 0 where
  pub fits : Fits out.1
  pub counted : st.file_count + length out.0 ≡ out.1.file_count
  pub kept : All (λ f. is_path_ignored f ≡ false) out.0

nothing-Scanned : (st : Scan) → Fits st → Scanned st ([], st)
nothing-Scanned st fits = record { fits = fits; counted = omega arith; kept = tt }

-- The limits that the guards leave.
pub count_file-Fits :
    (size : ℕ) (st : Scan)
    → not (leb max_kom_files st.file_count) ≡ true
    → not (ltb max_kom_total_size (st.total_size + size)) ≡ true
    → Fits (count_file size st)
count_file-Fits size st count total = (ground arith, ground arith)

scan_file-Scanned :
    (path : String) (info : Option ℕ) (st : Scan) (out : List String × Scan)
    → is_path_ignored path ≡ false
    → scan_file path info st ≡ ok out
    → Scanned st out
unfolding scan_file
scan_file-Scanned path info st out allowed h =
    let (size, _, h1) = bind-eq-ok (found info (no_info path)) _ out h in
    let (count, h2) = (guard_iff _ _ _ out).0 h1 in
    let (_, h3) = (guard_iff _ _ _ out).0 h2 in
    let (total, h4) = (guard_iff _ _ _ out).0 h3 in
    let scanned : Scanned st (path ∷ [], count_file size st) = record {
      fits = count_file-Fits size st count total;
      counted = refl;
      kept = (allowed, tt);
    } in
    subst (Scanned st) (ok_inj h4) scanned

module _ (files : FileSystem) where
  abbrev KeepsScanned : (String → Scan → Result ScanError (List String × Scan)) → Type 0
  KeepsScanned recurse =
      (dir : String) (st : Scan) (out : List String × Scan)
      → Fits st
      → recurse dir st ≡ ok out
      → Scanned st out

  scan_entry-Scanned :
      (recurse : String → Scan → Result ScanError (List String × Scan)) (dir : String) (e : Entry)
      (st : Scan) (out : List String × Scan)
      → KeepsScanned recurse
      → Fits st
      → scan_entry files recurse dir e st ≡ ok out
      → Scanned st out
  unfolding scan_entry
  scan_entry-Scanned recurse dir e st out keeps fits h =
      elim (Bool-cases (is_path_ignored (files.join dir e.name))) [
        | inl ignored ↦ subst (Scanned st) (ok_inj (rw ignored at h)) (nothing-Scanned st fits)
        | inr allowed ↦ elim (Bool-cases e.is_dir) [
          | inl directory ↦ keeps _ st out fits (rw (allowed, directory) at h)
          | inr file ↦ elim (Bool-cases (is_yaml (files.ext e.name))) [
            | inl yaml ↦ scan_file-Scanned _ e.size st out allowed (rw (allowed, file, yaml) at h)
            | inr skipped ↦
                subst (Scanned st) (ok_inj (rw (allowed, file, skipped) at h))
                  (nothing-Scanned st fits)
          ]
        ]
      ]

  scan_entries-Scanned :
      (recurse : String → Scan → Result ScanError (List String × Scan)) (dir : String)
      (entries : List Entry) (st : Scan) (out : List String × Scan)
      → KeepsScanned recurse
      → Fits st
      → scan_entries files recurse dir entries st ≡ ok out
      → Scanned st out
  unfolding scan_entries
  scan_entries-Scanned recurse dir [] st out keeps fits h =
      subst (Scanned st) (ok_inj h) (nothing-Scanned st fits)
  scan_entries-Scanned recurse dir (e ∷ entries) st out keeps fits h =
      let ((here, st1), first, h1) = bind-eq-ok (scan_entry files recurse dir e st) _ out h in
      let ((more, st2), rest, h2) =
        bind-eq-ok (scan_entries files recurse dir entries st1) _ out h1 in
      let a = scan_entry-Scanned recurse dir e st (here, st1) keeps fits first in
      let b = scan_entries-Scanned recurse dir entries st1 (more, st2) keeps a.fits rest in
      subst (Scanned st) (ok_inj h2) (record {
        fits = b.fits;
        counted = omega (arith, length-append here more, a.counted, b.counted);
        kept = All-append (λ f. is_path_ignored f ≡ false) here more a.kept b.kept;
      })

  pub scan_kom_directory-Scanned : (levels : ℕ) → KeepsScanned (scan_kom_directory files levels)
  unfolding scan_kom_directory
  scan_kom_directory-Scanned zero dir st out fits h = absurd (cc h)
  scan_kom_directory-Scanned (suc levels) dir st out fits h =
      let (real, _, h1) = bind-eq-ok (found (files.eval_symlinks dir) _) _ out h in
      elim (Bool-cases (is_member real st.visited)) [
        | inl seen ↦ subst (Scanned st) (ok_inj (rw seen at h1)) (nothing-Scanned st fits)
        | inr fresh ↦
            let (entries, _, h2) =
              bind-eq-ok (found (files.read_dir dir) _) _ out (rw fresh at h1) in
            let s =
              scan_entries-Scanned (scan_kom_directory files levels) dir entries
                (record st { visited = real ∷ st.visited }) out (scan_kom_directory-Scanned levels)
                fits h2 in
            record { fits = s.fits; counted = s.counted; kept = s.kept }
      ]
