-- ===== src/Mutation/Guard.antt =====
-- What is mutated, and what the exit code zero says.
use astra_sim_fsw.Base.{
  suc, ◌+◌, true, [], ◌∷◌, ◌++◌, ◌≡◌, ◌≢◌, refl, ap, arith, inl, inr, Text, starts_with, length,
  drop, ◌==◌, ==_iff, ok, ok-injective, >>=-ok, Bool-cases, subst,
}
use astra_sim_fsw.Base.Int.{ℤ, pos, negsuc, int_eq}
use astra_sim_fsw.Mutation.{
  original, mutated, count_from, replace_first, apply_mutation, Toolchain, verdict, main,
}

starts_with-append :
    (s pattern : Text) → starts_with s pattern ≡ true → s ≡ pattern ++ drop (length pattern) s
unfolding starts_with
starts_with-append s [] h = refl
starts_with-append [] (c ∷ p) h = absurd (cc h)
starts_with-append (x ∷ s) (c ∷ p) h =
    let same : x ≡ c = (==_iff x c).0 (ground arith) in
    let rest = starts_with-append s p (ground arith) in cc (same, rest)

-- A text in which a pattern stands, and the text with the pattern replaced there.
abbrev pub IsReplaced : Text → Text → Text → Text → Type 0
IsReplaced pattern new s t =
    (before : Text) × (after : Text) × (s ≡ before ++ (pattern ++ after))
    × (t ≡ before ++ (new ++ after))

replace_first-IsReplaced :
    (pattern new s : Text)
    → count_from pattern 0 s ≢ 0
    → IsReplaced pattern new s (replace_first pattern new s)
unfolding count_from replace_first
replace_first-IsReplaced pattern new [] counted = absurd (counted refl)
replace_first-IsReplaced pattern new (c ∷ s) counted =
    elim (Bool-cases (starts_with (c ∷ s) pattern)) [
      | inl here ↦
          ([], drop (length pattern) (c ∷ s), starts_with-append (c ∷ s) pattern here, rw here refl)
      | inr later ↦
          let (before, after, e, e') =
            replace_first-IsReplaced pattern new s (rw (count_from, later) at counted) in
          (c ∷ before, after, ap (◌∷◌ c) e, rw later (ap (◌∷◌ c) e'))
    ]

-- A content that is mutated holds the text of the guard, and the mutated content differs from it
-- only in that one occurrence of the text, where the mutated guard stands.
apply_mutation-IsReplaced :
    (content changed : Text)
    → apply_mutation content ≡ ok changed
    → IsReplaced original mutated content changed
unfolding apply_mutation
apply_mutation-IsReplaced content changed h =
    elim (Bool-cases (count_from original 0 content == 1)) [
      | inr other ↦ absurd (cc (rw other at h))
      | inl once ↦
          let one : count_from original 0 content ≡ 1 = (==_iff _ _).0 once in
          subst (IsReplaced original mutated content) (ok-injective (rw once at h))
            (replace_first-IsReplaced original mutated content (λ z. omega arith))
    ]

is_zero : (n : ℤ) → int_eq n (pos 0) ≡ true → n ≡ pos 0
is_zero (pos n) h = ap pos (omega (arith, (==_iff (n + 0) 0).0 h))
is_zero (negsuc n) h = absurd (omega (arith, (==_iff 0 (0 + suc n)).0 h))

-- The defect was built, and the tests failed on it.
abbrev pub IsKilled : Toolchain → Type 0
IsKilled tools = (tools.configure ≡ pos 0) × (tools.build ≡ pos 0) × (tools.test ≢ pos 0)

verdict-IsKilled : (tools : Toolchain) → verdict tools ≡ pos 0 → IsKilled tools
unfolding verdict
verdict-IsKilled tools h = elim (Bool-cases (int_eq tools.configure (pos 0))) [
  | inr failed ↦
      let e : tools.configure ≡ pos 0 = rw failed at h in
      absurd (cc (failed, ap (λ n. int_eq n (pos 0)) e))
  | inl configured ↦ elim (Bool-cases (int_eq tools.build (pos 0))) [
    | inr failed ↦
        let e : tools.build ≡ pos 0 = rw (configured, failed) at h in
        absurd (cc (failed, ap (λ n. int_eq n (pos 0)) e))
    | inl built ↦ elim (Bool-cases (int_eq tools.test (pos 0))) [
      | inl survived ↦
          let e : pos 1 ≡ pos 0 = rw (configured, built, survived) at h in absurd (cc e)
      | inr killed ↦
          (is_zero _ configured, is_zero _ built, λ e. cc (killed, ap (λ n. int_eq n (pos 0)) e))
    ]
  ]
]

-- A run with exit code 0 mutated the guard in one place, configured and built the mutated code
-- without an error, and the tests failed on it.
pub main-IsKilled :
    (run : Text → Toolchain) (content : Text)
    → main run content ≡ ok (pos 0)
    → (changed : Text) × IsReplaced original mutated content changed × IsKilled (run changed)
unfolding main
main-IsKilled run content h =
    let (changed, applied, ended) = >>=-ok (apply_mutation content) _ h in
    (
      changed,
      apply_mutation-IsReplaced content changed applied,
      verdict-IsKilled (run changed) (ok-injective ended),
    )
