-- ===== src/Provenance/Main.antt =====
-- tools/generate_baseline_manifest.py: the manifest and `main`.
use astra_sim_fsw.Base.{
  ℕ, Bool, List, [], ◌∷◌, Option, none, some, Text, codes, Result, ok, err, ◌>>=◌,
}
use astra_sim_fsw.Repository.{RepositoryState, dirty, source_dirty, collect_repository_state}
use astra_sim_fsw.Provenance.{Probe, Host, Outside, run_probe, git_text, FileRecord, file_manifest}

pub record Args : Type 0 where
  pub verification_status : Text
  pub test_command : List Text
  pub note : Text
  pub build_type : Text
  pub warnings_as_errors : Bool
  pub sanitizers_enabled : Bool
  pub coverage_enabled : Bool

-- What `git` says of the repository.
pub record Described : Type 0 where
  pub commit : Option Text
  pub branch : Option Text
  pub describe : Option Text
  pub remote : Option Text

pub record Toolchain : Type 0 where
  pub cmake : Probe
  pub compiler : Probe
  pub ctest : Probe
  pub git : Probe

unfoldable pub describe_repository : Outside → Result Described
unfolding git_text
describe_repository outside = do
  commit ← git_text outside (codes "rev-parse" ∷ codes "HEAD" ∷ [])
  branch ← git_text outside (codes "rev-parse" ∷ codes "--abbrev-ref" ∷ codes "HEAD" ∷ [])
  describe ←
      git_text outside (codes "describe" ∷ codes "--always" ∷ codes "--dirty" ∷ codes "--tags" ∷ [])
  remote ← git_text outside (codes "remote" ∷ codes "get-url" ∷ codes "origin" ∷ [])
  ok (record { commit = commit; branch = branch; describe = describe; remote = remote })

or_default : Option Text → Text
or_default none = codes "c++"
or_default (some cxx) = cxx

-- `os.environ.get("CXX", "c++")`
unfoldable pub compiler : Outside → Text
unfolding or_default
compiler outside = or_default (outside.environ (codes "CXX"))

unfoldable pub probe_toolchain : Outside → Text → Result Toolchain
unfolding run_probe
probe_toolchain outside cxx = do
  cmake ← run_probe outside (codes "cmake") (codes "--version" ∷ [])
  compiler ← run_probe outside cxx (codes "--version" ∷ [])
  ctest ← run_probe outside (codes "ctest") (codes "--version" ∷ [])
  git ← run_probe outside (codes "git") (codes "--version" ∷ [])
  ok (record { cmake = cmake; compiler = compiler; ctest = ctest; git = git })

pub record Manifest : Type 0 where
  pub generated_at_utc : Text
  pub status : Text
  pub commands : List Text
  pub note : Text
  pub root : Text
  pub described : Described
  pub dirty : Bool
  pub source_dirty : Bool
  pub dirty_paths : List Text
  pub source_dirty_paths : List Text
  pub generated_evidence_dirty_paths : List Text
  pub host : Host
  pub toolchain : Toolchain
  pub cxx : Text
  pub build_type : Text
  pub warnings_as_errors : Bool
  pub sanitizers_enabled : Bool
  pub coverage_enabled : Bool
  pub source_date_epoch : Option Text
  pub github_run_id : Option Text
  pub github_run_attempt : Option Text
  pub github_workflow : Option Text
  pub inputs : List FileRecord

unfoldable pub manifest_of :
    Outside → Args → RepositoryState → Described → Toolchain → List FileRecord → Manifest
unfolding compiler
manifest_of outside args state described toolchain inputs = record {
  generated_at_utc = outside.now;
  status = args.verification_status;
  commands = args.test_command;
  note = args.note;
  root = outside.root;
  described = described;
  dirty = dirty state;
  source_dirty = source_dirty state;
  dirty_paths = state.dirty_paths;
  source_dirty_paths = state.source_dirty_paths;
  generated_evidence_dirty_paths = state.generated_dirty_paths;
  host = outside.host;
  toolchain = toolchain;
  cxx = compiler outside;
  build_type = args.build_type;
  warnings_as_errors = args.warnings_as_errors;
  sanitizers_enabled = args.sanitizers_enabled;
  coverage_enabled = args.coverage_enabled;
  source_date_epoch = outside.environ (codes "SOURCE_DATE_EPOCH");
  github_run_id = outside.environ (codes "GITHUB_RUN_ID");
  github_run_attempt = outside.environ (codes "GITHUB_RUN_ATTEMPT");
  github_workflow = outside.environ (codes "GITHUB_WORKFLOW");
  inputs = inputs;
}

unfoldable pub build_manifest : Outside → Args → Result Manifest
unfolding describe_repository probe_toolchain file_manifest manifest_of
build_manifest outside args =
    collect_repository_state outside.status_code outside.status_stderr outside.status_lines
    >>= λ state. describe_repository outside >>= λ described.
        probe_toolchain outside (compiler outside) >>= λ toolchain.
        file_manifest outside >>= λ inputs.
        ok (manifest_of outside args state described toolchain inputs)

-- `main`: the manifest that is handed to the writing, and the exit code.
unfoldable pub write_out : Outside → Manifest → Option Manifest × Result ℕ
write_out outside manifest =
    (some manifest, outside.written >>= λ done. outside.shown >>= λ path. ok 0)

unfoldable pub deliver : Outside → Result Manifest → Option Manifest × Result ℕ
unfolding write_out
deliver outside (err e) = (none, err e)
deliver outside (ok manifest) = write_out outside manifest

unfoldable pub main : Outside → Args → Option Manifest × Result ℕ
unfolding build_manifest deliver
main outside args = deliver outside (outside.made >>= λ done. build_manifest outside args)
