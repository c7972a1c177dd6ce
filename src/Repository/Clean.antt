-- ===== src/Repository/Clean.antt =====
-- tools/check_source_cleanliness.py
use astra_sim_fsw.Base.{
  ℕ, true, false, List, [], ◌∷◌, ◌++◌, ◌≡◌, ◌↔◌, refl, ap, inl, inr, arith, map, Text, codes,
  Result, ok, err, os_error, runtime_error, All, Bool-cases, ok-injective, if◌then◌else◌,
}
use astra_sim_fsw.Base.Int.{ℤ, pos, int_eq}
use astra_sim_fsw.Base.Sort.{sorted}
use astra_sim_fsw.Repository.{
  unique, RepositoryState, source_dirty, path_of, is_generated, collect_repository_state, paths_of,
  classify,
}
use astra_sim_fsw.Repository.Porcelain.{
  Entry, IsPlain, IsEvidence, printed, counted, path_of-printed, is_generated_iff,
}
use astra_sim_fsw.Repository.Source.{OnPath, collect_repository_state-source_iff}

abbrev listed : List Text → List Text
listed paths = map (λ path. codes "- " ++ path) paths

permitted : List Text → List Text
permitted [] = []
permitted (path ∷ paths) =
    codes "Generated evidence changes are present and permitted:" ∷ listed (path ∷ paths)

-- The printed lines and the exit code, by the state.
unfoldable pub report : RepositoryState → List Text × ℕ
unfolding permitted
report state =
    if source_dirty state
    then (
      codes "FAIL: uncommitted source or configuration changes detected:"
          ∷ listed state.source_dirty_paths,
      1,
    )
    else (
      codes "PASS: no uncommitted source or configuration changes"
          ∷ permitted state.generated_dirty_paths,
      0,
    )

-- `main`, from what `collect_repository_state` gives.
unfoldable pub main : Result RepositoryState → Result (List Text × ℕ)
unfolding report
main (err (os_error m)) = ok ((codes "ERROR: " ++ m) ∷ [], 1)
main (err (runtime_error m)) = ok ((codes "ERROR: " ++ m) ∷ [], 1)
main (err e) = err e
main (ok state) = ok (report state)

abbrev pub exit_code : Result (List Text × ℕ) → Result ℕ
exit_code (err e) = err e
exit_code (ok (lines, code)) = ok code

report_iff : (state : RepositoryState) → ((report state).1 ≡ 0) ↔ (source_dirty state ≡ false)
unfolding report
report_iff state = elim (Bool-cases (source_dirty state)) [
  | inl dirty ↦ rw dirty (λ h. absurd (omega (arith, h)), λ h. absurd (cc (h)))
  | inr clean ↦ rw clean (λ h. refl, λ h. refl)
]

-- The same over lines, by the paths that they name.
main-lines_iff :
    (return_code : ℤ) (stderr : Text) (lines : List Text)
    → (exit_code (main (collect_repository_state return_code stderr lines)) ≡ ok 0) ↔ (
        (int_eq return_code (pos 0) ≡ true)
        × All (λ line. OnPath (λ p. is_generated p ≡ true) (path_of line)) lines)
unfolding main collect_repository_state
main-lines_iff return_code stderr lines = elim (Bool-cases (int_eq return_code (pos 0))) [
  | inr failed ↦
      rw failed
        (λ h. let e : 1 ≡ 0 = ok-injective h in absurd (omega (arith, e)), λ h. absurd (cc (h.0)))
  | inl done ↦
      let state = classify (sorted (λ p. p) (unique (paths_of lines))) in
      let (there, back) = collect_repository_state-source_iff stderr lines state refl in
      let (on, off) = report_iff state in
      rw done (λ h. (refl, there (on (ok-injective h))), λ h. ap ok (off (back h.1)))
]

entries-All_iff :
    (entries : List Entry)
    → All IsPlain entries
    → All (λ line. OnPath (λ p. is_generated p ≡ true) (path_of line)) (map printed entries)
      ↔ All (λ e. IsEvidence (counted e)) entries
entries-All_iff [] plain = (λ h. tt, λ h. tt)
entries-All_iff (e ∷ entries) (one, plain) =
    let (there, back) = entries-All_iff entries plain in
    let (same, same') = is_generated_iff (counted e) in
    rw (path_of-printed e one) (λ h. (same h.0, there h.1), λ h. (same' h.0, back h.1))

-- Where the entries of the status have no white space at the outer ends of their paths, none that
-- counts begins with a quotation mark, and no path that changed, nor the old one of a rename, holds
-- the character `>`: the check returns 0 exactly when `git status` returned 0 and every path lies
-- under `reports` or `dist`; of a renamed file only the new path counts.
pub main-clean_iff :
    (return_code : ℤ) (stderr : Text) (entries : List Entry)
    → All IsPlain entries
    → (exit_code (main (collect_repository_state return_code stderr (map printed entries))) ≡ ok 0)
      ↔ ((int_eq return_code (pos 0) ≡ true) × All (λ e. IsEvidence (counted e)) entries)
main-clean_iff return_code stderr entries plain =
    let (there, back) = main-lines_iff return_code stderr (map printed entries) in
    let (each, each') = entries-All_iff entries plain in
    (λ h. let (done, all) = there h in (done, each all), λ h. back (h.0, each' h.1))
