-- ===== src/Assistant/Reads.antt =====
-- Which files an approved read may name.
use astra_sim_fsw.Base.{
  true, false, ◌||◌, List, [], ◌∷◌, ◌++◌, append-nil, ◌≡◌, ◌≢◌, ◌⊎◌, inl, inr, refl, sym, ◌∙◌,
  arith, none, some, Text, text_eq, text_eq_iff, text_eq_refl, text_eq_ne, Bool-cases, Option-cases,
}
use astra_sim_fsw.Assistant.{
  FilePath, World, Policy, join_path, resolved_target, is_relative_to, path_eq, find_root,
  resolve_approved_read_path, denied, decide_read,
}

-- `root` is `path`, or a folder above it.
abbrev pub IsBelow : FilePath → FilePath → Type 0
IsBelow path root = (rest : FilePath) × (path ≡ root ++ rest)

-- Some element of the list has the property.
abbrev pub Exists {ℓ} : {A : Type ℓ} → (A → Type 0) → List A → Type 0
Exists P [] = ⊥
Exists P (x ∷ xs) = P x ⊎ Exists P xs

is_relative_to→IsBelow :
    (path root : FilePath) → is_relative_to path root ≡ true → IsBelow path root
unfolding is_relative_to
is_relative_to→IsBelow path [] h = (path, refl)
is_relative_to→IsBelow [] (r ∷ root) h = cc
is_relative_to→IsBelow (p ∷ path) (r ∷ root) h =
    let same : p ≡ r = ground (arith, text_eq_iff p r) in
    let (rest, e) = is_relative_to→IsBelow path root (ground arith) in (rest, cc (same, e))

IsBelow→is_relative_to :
    (path root : FilePath) → IsBelow path root → is_relative_to path root ≡ true
unfolding is_relative_to
IsBelow→is_relative_to path [] h = refl
IsBelow→is_relative_to [] (r ∷ root) (rest, e) = cc
IsBelow→is_relative_to (p ∷ path) (r ∷ root) (rest, e) =
    ground (arith, text_eq_iff p r, IsBelow→is_relative_to path root (rest, ground arith))

path_eq→eq : (p q : FilePath) → path_eq p q ≡ true → p ≡ q
unfolding path_eq
path_eq→eq [] [] h = refl
path_eq→eq [] (q ∷ qs) h = cc
path_eq→eq (p ∷ ps) [] h = cc
path_eq→eq (p ∷ ps) (q ∷ qs) h = ground (arith, text_eq_iff p q, path_eq→eq ps qs)

-- The folder or file that one approved root stands for.
abbrev pub approved : World → Text → FilePath
approved w root_text = w.resolve (join_path (w.resolve w.repo_root) root_text)

root_test-IsBelow :
    (path root : FilePath)
    → (path_eq path root || is_relative_to path root) ≡ true
    → IsBelow path root
root_test-IsBelow path root h = elim (Bool-cases (is_relative_to path root)) [
  | inl below ↦ is_relative_to→IsBelow path root below
  | inr other ↦
      let same : path_eq path root ≡ true = ground arith in
      ([], path_eq→eq path root same ∙ sym (append-nil root))
]

find_root-some :
    (w : World) (resolved : FilePath) (roots : List Text) {p : FilePath}
    → find_root w (w.resolve w.repo_root) resolved roots ≡ some p
    → (p ≡ resolved) × Exists (λ root. IsBelow resolved (approved w root)) roots
unfolding find_root
find_root-some w resolved [] h = cc
find_root-some w resolved (root ∷ roots) {p} h =
    elim (Bool-cases
      (path_eq resolved (approved w root) || is_relative_to resolved (approved w root))) [
        | inl found ↦
            let e : some resolved ≡ some p = rw found at h in
            (cc (e), inl (root_test-IsBelow resolved (approved w root) found))
        | inr not_found ↦
            let (same, later) = find_root-some w resolved roots {p = p} (rw not_found at h) in
            (same, inr later)
      ]

find_root-found :
    (w : World) (resolved : FilePath) (roots : List Text)
    → Exists (λ root. IsBelow resolved (approved w root)) roots
    → find_root w (w.resolve w.repo_root) resolved roots ≡ some resolved
unfolding find_root
find_root-found w resolved [] h = absurd h
find_root-found w resolved (root ∷ roots) (inl below) =
    ground (arith, IsBelow→is_relative_to resolved (approved w root) below)
find_root-found w resolved (root ∷ roots) (inr later) =
    ground (arith, find_root-found w resolved roots later)

-- The file of an approved read.
pub record ReadIsApproved (w : World) (target : Text) (policy : Policy) : Type 0 where
  pub named : target ≢ []
  pub inside : IsBelow (resolved_target w target) (w.resolve w.repo_root)
  pub rooted :
      Exists
        (λ root. IsBelow (resolved_target w target) (approved w root))
        policy.approved_read_roots
  pub is_file : w.is_file (resolved_target w target) ≡ true

resolve_approved-some :
    (w : World) (target : Text) (policy : Policy) {p : FilePath}
    → resolve_approved_read_path w target policy ≡ some p
    → (p ≡ resolved_target w target)
      × IsBelow (resolved_target w target) (w.resolve w.repo_root)
      × Exists
          (λ root. IsBelow (resolved_target w target) (approved w root))
          policy.approved_read_roots
unfolding resolve_approved_read_path
resolve_approved-some w target policy {p} h =
    elim (Bool-cases (is_relative_to (resolved_target w target) (w.resolve w.repo_root))) [
      | inl below ↦
          let (same, rooted) =
            find_root-some w (resolved_target w target) policy.approved_read_roots {p = p}
              (rw below at h) in
          (same, is_relative_to→IsBelow _ _ below, rooted)
      | inr outside ↦ let e : none ≡ some p = rw outside at h in cc (e)
    ]

pub resolve_approved-found :
    (w : World) (target : Text) (policy : Policy)
    → ReadIsApproved w target policy
    → resolve_approved_read_path w target policy ≡ some (resolved_target w target)
unfolding resolve_approved_read_path
resolve_approved-found w target policy r =
    rw (IsBelow→is_relative_to _ _ r.inside)
      (find_root-found w (resolved_target w target) policy.approved_read_roots r.rooted)

-- A read that is allowed carries the file, and the file is approved.
pub decide_read-allowed :
    (w : World) (target : Text) (policy : Policy)
    → (decide_read w target policy).allowed ≡ true
    → ReadIsApproved w target policy
unfolding decide_read denied
decide_read-allowed w target policy h = elim (Bool-cases (text_eq target [])) [
  | inl empty ↦ let e : false ≡ true = rw (decide_read, empty) at h in absurd (cc e)
  | inr full ↦ elim (Option-cases (resolve_approved_read_path w target policy)) [
    | inl none_found ↦
        let e : false ≡ true = rw (decide_read, full, none_found) at h in absurd (cc e)
    | inr (p, found) ↦
        let (same, inside, rooted) = resolve_approved-some w target policy {p = p} found in
        elim (Bool-cases (w.is_file p)) [
          | inl file ↦ record {
            named = λ e. cc (e, full, text_eq_refl []);
            inside = inside;
            rooted = rooted;
            is_file = cc (same, file);
          }
          | inr other ↦
              let e : false ≡ true = rw (decide_read, full, found, other) at h in absurd (cc e)
        ]
  ]
]

pub ReadIsApproved-allowed :
    (w : World) (target : Text) (policy : Policy)
    → ReadIsApproved w target policy
    → (decide_read w target policy).allowed ≡ true
unfolding decide_read denied
ReadIsApproved-allowed w target policy r =
    let named : text_eq target [] ≡ false = text_eq_ne _ _ r.named in
    rw (named, resolve_approved-found w target policy r, r.is_file) refl
