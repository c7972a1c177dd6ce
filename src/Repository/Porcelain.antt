-- ===== src/Repository/Porcelain.antt =====
-- tools/repository_state.py: the lines that `git status --porcelain` prints.
use astra_sim_fsw.Base.{
  ℕ, Bool, true, false, ◌||◌, ◌&&◌, [], ◌∷◌, ◌++◌, ◌≡◌, ◌↔◌, ◌⊎◌, refl, ap, ◌∙◌, arith, inl, inr,
  some, Text, codes, text_eq, text_eq_iff, starts_with, strip, length, ltb, ◌==◌, ==_iff, any, All,
  Bool-cases, rstrip_of, lstrip_of,
}
use astra_sim_fsw.Repository.{
  named, behind_arrow, unquoted, normalize_porcelain_path, path_of, is_generated,
}

-- An entry of the status: a path, which begins with the first of the texts, or a path with the old
-- one that it replaces; each behind the two letters of its class.
pub data Entry : Type 0 where
  changed : ℕ → ℕ → ℕ → Text → Entry
  renamed : ℕ → ℕ → Text → ℕ → Text → Entry

-- The old path with the arrow, in front of the new one.
abbrev pub with_arrow : Text → Text → Text
with_arrow old new = old ++ (codes " -> " ++ new)

-- The letters, a space and the path, with the old path and an arrow in front of it.
abbrev pub printed : Entry → Text
printed (changed x y c s) = x ∷ y ∷ 32 ∷ c ∷ s
printed (renamed x y old c s) = x ∷ y ∷ 32 ∷ with_arrow old (c ∷ s)

-- The path that an entry counts with: the new one.
abbrev pub counted : Entry → Text
counted (changed x y c s) = c ∷ s
counted (renamed x y old c s) = c ∷ s

-- A text without the character `>`, in which an arrow ends.
abbrev pub IsArrowless : Text → Type 0
IsArrowless s = All (λ c. (c == b'>') ≡ false) s

-- There is no white space at the outer ends of what follows the two letters; the path that counts
-- begins with no quotation mark; and a changed path, or the old path of a rename, holds no `>`.
abbrev pub IsPlain : Entry → Type 0
IsPlain (changed x y c s) = (strip (c ∷ s) ≡ c ∷ s) × ((c == b'"') ≡ false) × IsArrowless (c ∷ s)
IsPlain (renamed x y old c s) =
    (strip (with_arrow old (c ∷ s)) ≡ with_arrow old (c ∷ s))
    × ((c == b'"') ≡ false)
    × IsArrowless old

pub any-IsArrowless : (s : Text) → any (λ c. c == b'>') s ≡ false → IsArrowless s
any-IsArrowless [] h = tt
any-IsArrowless (c ∷ s) h = elim (Bool-cases (c == b'>')) [
  | inl arrow ↦ absurd (cc (rw arrow at h))
  | inr other ↦ (other, any-IsArrowless s (rw other at h))
]

and-false : (x : Bool) → (x && false) ≡ false
and-false true = refl
and-false false = refl

-- No arrow starts before its end.
third-starts_with :
    (a b c : ℕ) (s : Text)
    → (c == b'>') ≡ false
    → starts_with (a ∷ b ∷ c ∷ s) (codes " -> ") ≡ false
unfolding starts_with codes
third-starts_with a b c s other =
    rw other (ap (λ (x : Bool). (a == 32) && x) (and-false (b == 45)) ∙ and-false (a == 32))

short-starts_with : (a b : ℕ) → starts_with (a ∷ b ∷ []) (codes " -> ") ≡ false
unfolding starts_with codes
short-starts_with a b =
    ap (λ (x : Bool). (a == 32) && x) (and-false (b == 45)) ∙ and-false (a == 32)

single-starts_with : (a : ℕ) → starts_with (a ∷ []) (codes " -> ") ≡ false
unfolding starts_with codes
single-starts_with a = and-false (a == 32)

space-starts_with : (a : ℕ) (s : Text) → starts_with (a ∷ 32 ∷ s) (codes " -> ") ≡ false
unfolding starts_with codes
space-starts_with a s = and-false (a == 32)

no_start : (a : ℕ) (s : Text) → IsArrowless s → starts_with (a ∷ s) (codes " -> ") ≡ false
no_start a [] plain = single-starts_with a
no_start a (b ∷ []) plain = short-starts_with a b
no_start a (b ∷ c ∷ s) (q, (r, plain)) = third-starts_with a b c s r

-- A text without the end of an arrow is left as it is.
behind_arrow-plain : (whole s : Text) → IsArrowless s → behind_arrow whole s ≡ whole
unfolding behind_arrow
behind_arrow-plain whole [] plain = refl
behind_arrow-plain whole (a ∷ s) (p, plain) =
    rw (behind_arrow, no_start a s plain) (behind_arrow-plain whole s plain)

no_start_old :
    (a : ℕ) (s new : Text)
    → IsArrowless s
    → starts_with (a ∷ with_arrow s new) (codes " -> ") ≡ false
unfolding codes
no_start_old a [] new plain = space-starts_with a (45 ∷ 62 ∷ 32 ∷ new)
no_start_old a (b ∷ []) new plain = third-starts_with a b 32 (45 ∷ 62 ∷ 32 ∷ new) refl
no_start_old a (b ∷ c ∷ s) new (q, (r, plain)) = third-starts_with a b c (with_arrow s new) r

-- What stands behind the arrow is the new path.
behind_arrow-renamed :
    (whole old new : Text) → IsArrowless old → behind_arrow whole (with_arrow old new) ≡ new
unfolding behind_arrow codes starts_with
behind_arrow-renamed whole [] new plain = refl
behind_arrow-renamed whole (a ∷ old) new (p, plain) =
    rw (behind_arrow, no_start_old a old new plain) (behind_arrow-renamed whole old new plain)

unquoted-plain : (c : ℕ) (s : Text) → (c == b'"') ≡ false → unquoted (c ∷ s) ≡ c ∷ s
unfolding unquoted starts_with codes
unquoted-plain c s other = rw other refl

path_of-line :
    (x y c : ℕ) (s path : Text)
    → normalize_porcelain_path (c ∷ s) ≡ path
    → path_of (x ∷ y ∷ 32 ∷ c ∷ s) ≡ named path
unfolding path_of
path_of-line x y c s path e =
    let long : ltb (length (x ∷ y ∷ 32 ∷ c ∷ s)) 4 ≡ false = ground arith in
    rw (path_of, long) (ap named e)

normalize-renamed :
    (old : Text) (c : ℕ) (s : Text)
    → strip (with_arrow old (c ∷ s)) ≡ with_arrow old (c ∷ s)
    → (c == b'"') ≡ false
    → IsArrowless old
    → normalize_porcelain_path (with_arrow old (c ∷ s)) ≡ c ∷ s
unfolding normalize_porcelain_path
normalize-renamed old c s outer quote plain =
    ap (λ v. unquoted (behind_arrow v v)) outer
    ∙ ap unquoted (behind_arrow-renamed (with_arrow old (c ∷ s)) old (c ∷ s) plain)
    ∙ unquoted-plain c s quote

-- An entry that is printed counts with its new path.
pub path_of-printed : (e : Entry) → IsPlain e → path_of (printed e) ≡ some (counted e)
unfolding named normalize_porcelain_path codes
path_of-printed (changed x y c s) (outer, quote, plain) = path_of-line x y c s (c ∷ s) (
    ap (λ v. unquoted (behind_arrow v v)) outer
    ∙ ap unquoted (behind_arrow-plain (c ∷ s) (c ∷ s) plain)
    ∙ unquoted-plain c s quote)
path_of-printed (renamed x y [] c s) (outer, quote, plain) =
    path_of-line x y 32 _ (c ∷ s) (normalize-renamed [] c s outer quote plain)
path_of-printed (renamed x y (a ∷ old) c s) (outer, quote, plain) =
    path_of-line x y a _ (c ∷ s) (normalize-renamed (a ∷ old) c s outer quote plain)

-- A path of the evidence: one of the two directories, or a path below one of them.
abbrev pub IsEvidence : Text → Type 0
IsEvidence path =
    ((path ≡ codes "reports") ⊎ ((rest : Text) × (path ≡ codes "reports/" ++ rest)))
    ⊎ ((path ≡ codes "dist") ⊎ ((rest : Text) × (path ≡ codes "dist/" ++ rest)))

tail_eq : {x c : ℕ} {s t : Text} → x ∷ s ≡ c ∷ t → s ≡ t
tail_eq h = cc h

head_eq : {x c : ℕ} {s t : Text} → x ∷ s ≡ c ∷ t → x ≡ c
head_eq h = cc h

starts_with_iff : (s p : Text) → (starts_with s p ≡ true) ↔ ((rest : Text) × (s ≡ p ++ rest))
unfolding starts_with
starts_with_iff s [] = (λ h. (s, refl), λ h. refl)
starts_with_iff [] (c ∷ p) = (λ h. absurd (cc (h)), λ h. absurd (cc (h.1)))
starts_with_iff (x ∷ s) (c ∷ p) =
    let (there, back) = starts_with_iff s p in
    let (same, same') = ==_iff x c in
    elim (Bool-cases (x == c)) [
      | inl e ↦
          rw e
            (λ h. let (rest, k) = there h in (rest, cc (same e, k)), λ h. back (h.0, tail_eq h.1))
      | inr e ↦ rw e (λ h. absurd (cc (h)), λ h. absurd (cc (e, same' (head_eq h.1))))
    ]

or-true_iff : (b c : Bool) → ((b || c) ≡ true) ↔ ((b ≡ true) ⊎ (c ≡ true))
or-true_iff true c = (λ h. inl refl, λ h. refl)
or-true_iff false c = (λ h. inr h, λ h. elim h [ inl e ↦ absurd (cc (e)) | inr e ↦ e ])

below_iff :
    (path directory : Text)
    → ((text_eq path directory || starts_with path (directory ++ codes "/")) ≡ true)
      ↔ ((path ≡ directory) ⊎ ((rest : Text) × (path ≡ (directory ++ codes "/") ++ rest)))
below_iff path directory =
    let (there, back) =
      or-true_iff (text_eq path directory) (starts_with path (directory ++ codes "/")) in
    let (same, same') = text_eq_iff path directory in
    let (under, under') = starts_with_iff path (directory ++ codes "/") in
    (
      λ h. elim (there h) [ inl e ↦ inl (same e) | inr e ↦ inr (under e) ],
      λ h. elim h [ inl e ↦ back (inl (same' e)) | inr e ↦ back (inr (under' e)) ],
    )

pub is_generated_iff : (path : Text) → (is_generated path ≡ true) ↔ IsEvidence path
unfolding is_generated rstrip_of lstrip_of codes
is_generated_iff path =
    let in_reports = text_eq path (codes "reports") || starts_with path (codes "reports/") in
    let in_dist = text_eq path (codes "dist") || starts_with path (codes "dist/") in
    let (there, back) = or-true_iff in_reports (in_dist || false) in
    let (there', back') = or-true_iff in_dist false in
    let (r, r') = below_iff path (codes "reports") in
    let (d, d') = below_iff path (codes "dist") in
    (
      λ h. elim (there h) [
        | inl e ↦ inl (r e)
        | inr e ↦ elim (there' e) [ inl f ↦ inr (d f) | inr f ↦ absurd (cc (f)) ]
      ],
      λ h. elim h [ inl e ↦ back (inl (r' e)) | inr e ↦ back (inr (back' (inl (d' e)))) ],
    )
