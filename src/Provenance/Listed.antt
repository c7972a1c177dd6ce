-- ===== src/Provenance/Listed.antt =====
-- tools/generate_baseline_manifest.py: the files that a written manifest lists.
use astra_sim_fsw.Base.{
  Bool, true, false, List, [], ◌∷◌, ◌≡◌, ◌↔◌, refl, sym, ap, subst, ◌∙◌, inl, inr, some, Text, map,
  filter, All, Result, ok, err, ◌>>=◌, >>=-ok, ok-injective, Bool-cases,
}
use astra_sim_fsw.Base.Sort.{sorted, IsSorted, sorted-IsSorted, All-sorted_iff}
use astra_sim_fsw.Conformance.Tables.{some_injective}
use astra_sim_fsw.Repository.{RepositoryState, unique, contains, collect_repository_state}
use astra_sim_fsw.Repository.Source.{unique-All_iff, contains_self, dirty_iff, source_dirty_iff}
use astra_sim_fsw.Workflow.AllScenarios.{path_key}
use astra_sim_fsw.Provenance.{
  Outside, FileRecord, file_record, candidates, evidence_inputs, records_of, file_manifest,
}
use astra_sim_fsw.Provenance.Main.{
  Args, Manifest, manifest_of, describe_repository, manifest_of, probe_toolchain, compiler,
  build_manifest, write_out, deliver, main,
}

-- The size and the digest are those of the file at the path.
abbrev pub IsDigest : Outside → FileRecord → Type 0
IsDigest outside r = (outside.size r.path ≡ ok r.size_bytes) × (outside.sha256 r.path ≡ ok r.sha256)

abbrev pub paths_of : List FileRecord → List Text
paths_of records = map (λ r. r.path) records

records_of-ok :
    (outside : Outside) (paths : List Text) (records : List FileRecord)
    → records_of outside paths ≡ ok records
    → All (IsDigest outside) records × (paths_of records ≡ paths)
unfolding records_of
records_of-ok outside [] records h =
    subst (λ rs. All (IsDigest outside) rs × (paths_of rs ≡ [])) (ok-injective h) (tt, refl)
records_of-ok outside (p ∷ paths) records h =
    let (size, is_size, tail) =
      >>=-ok (outside.size p)
        (λ size. outside.sha256 p >>= λ digest.
          records_of outside paths >>= λ rest. ok (file_record p size digest ∷ rest))
        h in
    let (digest, is_digest, tail') =
      >>=-ok (outside.sha256 p)
        (λ digest. records_of outside paths >>= λ rest. ok (file_record p size digest ∷ rest))
        tail in
    let (rest, are_rest, made) =
      >>=-ok (records_of outside paths) (λ rest. ok (file_record p size digest ∷ rest)) tail' in
    let (digests, same) = records_of-ok outside paths rest are_rest in
    subst (λ rs. All (IsDigest outside) rs × (paths_of rs ≡ p ∷ paths)) (ok-injective made)
      (((is_size, is_digest), digests), ap (λ ps. p ∷ ps) same)

filter-All : (f : Text → Bool) (ps : List Text) → All (λ p. f p ≡ true) (filter f ps)
filter-All f [] = tt
filter-All f (p ∷ ps) = elim (Bool-cases (f p)) [
  | inl kept ↦ rw kept (kept, filter-All f ps)
  | inr left ↦ rw left (filter-All f ps)
]

-- What a list of files is for the candidates that were found.
pub record Lists (outside : Outside) (found : List Text) (records : List FileRecord) : Type 0 where
  pub in_order : IsSorted path_key (paths_of records)
  pub digests : All (IsDigest outside) records
  pub only_files : All (λ p. outside.is_file p ≡ true) (paths_of records)
  pub complete : All (λ p. contains p (paths_of records) ≡ true) (filter outside.is_file found)

-- The manifest holds what the arguments ask for.
abbrev pub IsAsked : Args → Manifest → Type 0
IsAsked args manifest =
    (manifest.status ≡ args.verification_status)
    × (manifest.commands ≡ args.test_command)
    × (manifest.note ≡ args.note)
    × (manifest.build_type ≡ args.build_type)
    × (manifest.warnings_as_errors ≡ args.warnings_as_errors)
    × (manifest.sanitizers_enabled ≡ args.sanitizers_enabled)
    × (manifest.coverage_enabled ≡ args.coverage_enabled)

-- The manifest holds the paths of the state, and of two of the lists whether they are empty.
abbrev pub IsState : RepositoryState → Manifest → Type 0
IsState state manifest =
    (manifest.dirty_paths ≡ state.dirty_paths)
    × (manifest.source_dirty_paths ≡ state.source_dirty_paths)
    × (manifest.generated_evidence_dirty_paths ≡ state.generated_dirty_paths)
    × ((manifest.dirty ≡ false) ↔ (state.dirty_paths ≡ []))
    × ((manifest.source_dirty ≡ false) ↔ (state.source_dirty_paths ≡ []))

-- What holds of a manifest that was built.
abbrev pub IsBuilt : Outside → Args → Manifest → Type 0
IsBuilt outside args manifest =
    IsAsked args manifest
    × ((state : RepositoryState) × (collect_repository_state outside.status_code
            outside.status_stderr outside.status_lines
          ≡ ok state)
        × IsState state manifest)
    × ((found : List Text) × (candidates outside ≡ ok found) × Lists outside found manifest.inputs)

records_of-Lists :
    (outside : Outside) (found : List Text) (records : List FileRecord)
    → records_of outside (sorted path_key (unique (filter outside.is_file found))) ≡ ok records
    → Lists outside found records
records_of-Lists outside found records h =
    let files = filter outside.is_file found in
    let inputs = sorted path_key (unique files) in
    let (digests, same) = records_of-ok outside inputs records h in
    let is_file = λ (p : Text). outside.is_file p ≡ true in
    let listed = λ (p : Text). contains p inputs ≡ true in
    let sound =
      (All-sorted_iff path_key is_file (unique files)).1
        ((unique-All_iff is_file files).1 (filter-All outside.is_file found)) in
    let all_there =
      (unique-All_iff listed files).0
        ((All-sorted_iff path_key listed (unique files)).0 (contains_self inputs)) in
    record {
      in_order = subst (IsSorted path_key) (sym same) (sorted-IsSorted path_key (unique files));
      digests = digests;
      only_files = subst (All is_file) (sym same) sound;
      complete = subst (λ ps. All (λ p. contains p ps ≡ true) files) (sym same) all_there;
    }

build_manifest-Lists :
    (outside : Outside) (args : Args) (manifest : Manifest)
    → build_manifest outside args ≡ ok manifest
    → IsBuilt outside args manifest
unfolding build_manifest file_manifest evidence_inputs manifest_of
build_manifest-Lists outside args manifest h =
    let (state, is_state, tail) =
      >>=-ok
        (collect_repository_state outside.status_code outside.status_stderr outside.status_lines) _
        h in
    let (described, _, tail') = >>=-ok (describe_repository outside) _ tail in
    let (toolchain, _, tail'') = >>=-ok (probe_toolchain outside (compiler outside)) _ tail' in
    let (inputs, are_inputs, made) = >>=-ok (file_manifest outside) _ tail'' in
    let (paths, are_paths, listed) =
      >>=-ok (evidence_inputs outside) (records_of outside) are_inputs in
    let (found, is_found, chosen) =
      >>=-ok (candidates outside)
        (λ found. ok (sorted path_key (unique (filter outside.is_file found)))) are_paths in
    let lists =
      records_of-Lists outside found inputs
        (ap (records_of outside) (ok-injective chosen) ∙ listed) in
    subst (IsBuilt outside args) (ok-injective made) (
      (refl, refl, refl, refl, refl, refl, refl),
      (state, is_state, (refl, refl, refl, dirty_iff state, source_dirty_iff state)),
      (found, is_found, lists),
    )

deliver-some :
    (outside : Outside) (built : Result Manifest) (manifest : Manifest)
    → (deliver outside built).0 ≡ some manifest
    → built ≡ ok manifest
unfolding deliver write_out
deliver-some outside (ok built) manifest h = ap ok (some_injective h)
deliver-some outside (err e) manifest h = absurd (cc h)

-- A manifest that `main` hands to the writing has the status, the commands and the options of the
-- arguments; it has the paths of the state of the repository, and says that it is changed, or its
-- source, exactly where there are such paths; and it lists in the order of their paths files only,
-- with their sizes and digests, and every candidate that is a file is among them.
pub main-Lists :
    (outside : Outside) (args : Args) (manifest : Manifest)
    → (main outside args).0 ≡ some manifest
    → IsBuilt outside args manifest
unfolding main
main-Lists outside args manifest h =
    let (done, made, built) =
      >>=-ok outside.made (λ done. build_manifest outside args)
        (deliver-some outside (outside.made >>= λ done. build_manifest outside args) manifest h) in
    build_manifest-Lists outside args manifest built
