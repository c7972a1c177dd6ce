-- ===== src/Repository/Source.antt =====
-- When the working tree counts as changed in its source.
use astra_sim_fsw.Base.{
  Bool, true, false, not, List, [], ◌∷◌, ◌≡◌, ◌↔◌, refl, ap, arith, inl, inr, Option, none, some,
  Text, text_eq, text_eq_iff, filter, All, Bool-cases, ok, ok-injective, subst,
}
use astra_sim_fsw.Base.Int.{pos}
use astra_sim_fsw.Base.Sort.{sorted, All-sorted_iff}
use astra_sim_fsw.Repository.{
  RepositoryState, dirty, source_dirty, nonempty, path_of, with_path, paths_of, contains, unique,
  is_generated, classify, collect_repository_state,
}

nonempty_iff : (paths : List Text) → (nonempty paths ≡ false) ↔ (paths ≡ [])
unfolding nonempty
nonempty_iff [] = (λ h. refl, λ h. refl)
nonempty_iff (p ∷ paths) = (λ h. absurd (cc (h)), λ h. absurd (cc (h)))

-- The two flags of the state.
pub dirty_iff : (state : RepositoryState) → (dirty state ≡ false) ↔ (state.dirty_paths ≡ [])
unfolding dirty
dirty_iff state = nonempty_iff state.dirty_paths

pub source_dirty_iff :
    (state : RepositoryState) → (source_dirty state ≡ false) ↔ (state.source_dirty_paths ≡ [])
unfolding source_dirty
source_dirty_iff state = nonempty_iff state.source_dirty_paths

-- A property of all paths holds of those that are listed.
pub contains-All :
    (P : Text → Type 0) (p : Text) (paths : List Text) → contains p paths ≡ true → All P paths → P p
unfolding contains
contains-All P p [] h all = absurd (cc h)
contains-All P p (q ∷ paths) h (one, all) = elim (Bool-cases (text_eq q p)) [
  | inl same ↦ subst P ((text_eq_iff q p).0 same) one
  | inr other ↦ contains-All P p paths (ground arith) all
]

pub unique-All_iff : (P : Text → Type 0) (paths : List Text) → All P (unique paths) ↔ All P paths
unfolding unique
unique-All_iff P [] = (λ h. h, λ h. h)
unique-All_iff P (p ∷ paths) =
    let (there, back) = unique-All_iff P paths in
    elim (Bool-cases (contains p paths)) [
      | inl again ↦ rw again (λ h. (contains-All P p paths again (there h), there h), λ h. back h.1)
      | inr first ↦ rw first (λ h. (h.0, there h.1), λ h. (h.0, back h.1))
    ]

-- What a property of paths says of a line.
abbrev pub OnPath : (Text → Type 0) → Option Text → Type 0
OnPath P none = Unit
OnPath P (some p) = P p

paths_of-All_iff :
    (P : Text → Type 0) (lines : List Text)
    → All P (paths_of lines) ↔ All (λ line. OnPath P (path_of line)) lines
unfolding paths_of
paths_of-All_iff P [] = (λ h. h, λ h. h)
paths_of-All_iff P (line ∷ lines) = go (path_of line) (paths_of-All_iff P lines)
  where
    go :
        (o : Option Text)
        → (All P (paths_of lines) ↔ All (λ line. OnPath P (path_of line)) lines)
        → All P (with_path o (paths_of lines))
          ↔ (OnPath P o × All (λ line. OnPath P (path_of line)) lines)
    go none (there, back) = (λ h. (tt, there h), λ h. back h.1)
    go (some p) (there, back) = (λ h. (h.0, there h.1), λ h. (h.0, back h.1))

-- A listed path is among the generated ones exactly when it is generated.
contains-filter :
    (p : Text) (paths : List Text)
    → contains p (filter is_generated paths) ≡ true
    → is_generated p ≡ true
unfolding contains
contains-filter p [] h = absurd (cc h)
contains-filter p (q ∷ paths) h = elim (Bool-cases (is_generated q)) [
  | inr source ↦ contains-filter p paths (rw source at h)
  | inl generated ↦ elim (Bool-cases (text_eq q p)) [
    | inl same ↦ subst (λ t. is_generated t ≡ true) ((text_eq_iff q p).0 same) generated
    | inr other ↦ contains-filter p paths (rw (generated, contains, other) at h)
  ]
]

-- Where all paths are generated, each is among the generated ones.
filter-generated :
    (paths : List Text) → All (λ p. is_generated p ≡ true) paths → filter is_generated paths ≡ paths
filter-generated [] all = refl
filter-generated (p ∷ paths) (one, all) = rw one (ap (◌∷◌ p) (filter-generated paths all))

contains-cons :
    (q : Text) (paths ps : List Text)
    → All (λ p. contains p paths ≡ true) ps
    → All (λ p. contains p (q ∷ paths) ≡ true) ps
unfolding contains
contains-cons q paths [] all = tt
contains-cons q paths (p ∷ ps) (one, all) = (ground arith, contains-cons q paths ps all)

pub contains_self : (paths : List Text) → All (λ p. contains p paths ≡ true) paths
unfolding contains
contains_self [] = tt
contains_self (p ∷ paths) =
    (ground (arith, text_eq_iff p p), contains-cons p paths paths (contains_self paths))

pub pointwise :
    (P Q : Text → Type 0) (paths : List Text) → ((p : Text) → P p → Q p) → All P paths → All Q paths
pointwise P Q [] f all = tt
pointwise P Q (p ∷ paths) f (one, all) = (f p one, pointwise P Q paths f all)

filter-nil_iff :
    (f : Text → Bool) (paths : List Text)
    → (nonempty (filter f paths) ≡ false) ↔ All (λ p. f p ≡ false) paths
unfolding nonempty
filter-nil_iff f [] = (λ h. tt, λ h. refl)
filter-nil_iff f (p ∷ paths) =
    let (there, back) = filter-nil_iff f paths in
    elim (Bool-cases (f p)) [
      | inl e ↦ rw e (λ h. absurd (cc h), λ h. absurd (cc (h.0)))
      | inr e ↦ rw e (λ h. (refl, there h), λ h. back h.1)
    ]

classify-source_iff :
    (paths : List Text)
    → (source_dirty (classify paths) ≡ false) ↔ All (λ p. is_generated p ≡ true) paths
unfolding source_dirty classify
classify-source_iff paths =
    let generated = filter is_generated paths in
    let outside : Text → Bool = λ p. not (contains p generated) in
    let (there, back) = filter-nil_iff outside paths in
    (
      (λ h. pointwise _ _ paths (λ p none_left. contains-filter p paths (ground arith)) (there h)),
      (λ all. back (
          pointwise (λ p. contains p paths ≡ true) (λ p. outside p ≡ false) paths
            (λ p listed. rw (filter-generated paths all) (rw listed refl)) (contains_self paths))),
    )

-- Where `git status` returns 0, the source counts as unchanged exactly when every line of its
-- output is too short to name a path, names an empty one, or names one that is generated: for a
-- renamed file only the new name counts.
pub collect_repository_state-source_iff :
    (stderr : Text) (lines : List Text) (state : RepositoryState)
    → collect_repository_state (pos 0) stderr lines ≡ ok state
    → (source_dirty state ≡ false)
      ↔ All (λ line. OnPath (λ p. is_generated p ≡ true) (path_of line)) lines
unfolding collect_repository_state
collect_repository_state-source_iff stderr lines state h =
    let P : Text → Type 0 = λ p. is_generated p ≡ true in
    let (a, a') = classify-source_iff (sorted (λ p. p) (unique (paths_of lines))) in
    let (b, b') = All-sorted_iff (λ p. p) P (unique (paths_of lines)) in
    let (c, c') = unique-All_iff P (paths_of lines) in
    let (d, d') = paths_of-All_iff P lines in
    subst (λ s. (source_dirty s ≡ false) ↔ All (λ line. OnPath P (path_of line)) lines)
      (ok-injective h) (λ e. d (c (b (a e))), λ e. a' (b' (c' (d' e))))
