-- ===== src/Repository.antt =====
-- tools/repository_state.py: the changes of the working tree, as source or generated evidence.
pub mod Source
pub mod Porcelain
pub mod Clean
mod Tests
use astra_sim_fsw.Base.{
  ℕ, Bool, true, false, not, ◌&&◌, ◌||◌, List, [], ◌∷◌, ◌++◌, Option, none, some, Text, codes,
  text_eq, starts_with, strip, rstrip_of, length, drop, take, any, filter, ltb, ◌-◌, ◌==◌,
  if◌then◌else◌, Result, ok, err, runtime_error,
}
use mathlib.Core.List.{reverse}
use astra_sim_fsw.Base.Int.{ℤ, pos, int_eq}
use astra_sim_fsw.Base.Sort.{sorted}

abbrev pub generated_prefixes : List Text
generated_prefixes = codes "reports/" ∷ codes "dist/" ∷ []

pub record RepositoryState : Type 0 where
  pub dirty_paths : List Text
  pub source_dirty_paths : List Text
  pub generated_dirty_paths : List Text

nonempty : List Text → Bool
nonempty [] = false
nonempty (p ∷ ps) = true

unfoldable pub dirty : RepositoryState → Bool
unfolding nonempty
dirty s = nonempty s.dirty_paths

unfoldable pub source_dirty : RepositoryState → Bool
unfolding nonempty
source_dirty s = nonempty s.source_dirty_paths

-- What stands behind the first arrow, or the text itself where there is none.
unfoldable pub behind_arrow : Text → Text → Text
behind_arrow whole [] = whole
behind_arrow whole (c ∷ s) =
    let rest = behind_arrow whole s in
    if starts_with (c ∷ s) (codes " -> ") then drop 4 (c ∷ s) else rest

unfoldable pub ends_with_quote : Text → Bool
ends_with_quote s = starts_with (reverse s) (codes "\"")

-- `value[1:-1]` of a text that begins and ends with a quote.
unfoldable pub unquoted : Text → Text
unfolding ends_with_quote
unquoted s =
    if starts_with s (codes "\"") && ends_with_quote s then take (length s - 2) (drop 1 s) else s

unfoldable pub normalize_porcelain_path : Text → Text
normalize_porcelain_path raw = let value = strip raw in unquoted (behind_arrow value value)

unfoldable pub named : Text → Option Text
named [] = none
named path = some path

-- The path that a line of the status names.
unfoldable pub path_of : Text → Option Text
unfolding named
path_of line = if ltb (length line) 4 then none else named (normalize_porcelain_path (drop 3 line))

with_path : Option Text → List Text → List Text
with_path none paths = paths
with_path (some p) paths = p ∷ paths

unfoldable pub paths_of : List Text → List Text
unfolding with_path
paths_of [] = []
paths_of (line ∷ lines) = with_path (path_of line) (paths_of lines)

-- `p in paths`
unfoldable pub contains : Text → List Text → Bool
contains p paths = any (λ q. text_eq q p) paths

-- `set(paths)`, as a list without repetitions.
unfoldable pub unique : List Text → List Text
unique [] = []
unique (p ∷ paths) = let rest = unique paths in if contains p paths then rest else p ∷ rest

is_slash : ℕ → Bool
is_slash c = c == b'/'

unfoldable pub is_generated : Text → Bool
unfolding is_slash
is_generated path =
    any (λ prefix. text_eq path (rstrip_of is_slash prefix) || starts_with path prefix)
      generated_prefixes

-- The two classes of a list of paths.
unfoldable pub classify : List Text → RepositoryState
classify paths =
    let generated = filter is_generated paths in
    record {
      dirty_paths = paths;
      source_dirty_paths = filter (λ p. not (contains p generated)) paths;
      generated_dirty_paths = generated;
    }

or_failed : Text → Text
or_failed [] = codes "git status failed"
or_failed message = message

-- `collect_repository_state`, from the return code, the error output and the lines of the output
-- of `git status`.
unfoldable pub collect_repository_state : ℤ → Text → List Text → Result RepositoryState
unfolding or_failed
collect_repository_state return_code stderr lines =
    if int_eq return_code (pos 0)
    then ok (classify (sorted (λ p. p) (unique (paths_of lines))))
    else err (runtime_error (or_failed (strip stderr)))
