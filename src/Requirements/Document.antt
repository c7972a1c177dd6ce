-- ===== src/Requirements/Document.antt =====
-- What a requirements document that parses is made of.
use astra_sim_fsw.Base.{
  ℕ, ◌+◌, true, false, ◌||◌, List, [], ◌∷◌, ◌≡◌, ◌≢◌, refl, arith, inl, inr, Text, codes, text_eq,
  text_eq_iff, starts_with, ok, ok-injective, >>=-ok, Bool-cases, All, subst,
}
use astra_sim_fsw.Base.Dict.{Dict, insert, has_key, has_key-insert}
use astra_sim_fsw.Requirements.{
  Requirement, is_requirement_id, add_requirement, add_row, add_line, add_lines, columns,
  none_parsed, parse_requirements_doc,
}

-- A requirement of the table: filed under its own identifier, which has the form of one, with a
-- text, a method and a status.
pub record IsFiled (entry : Text × Requirement) : Type 0 where
  pub key : entry.0 ≡ entry.1.req_id
  pub form : is_requirement_id entry.0 ≡ true
  pub text : entry.1.text ≢ []
  pub method : entry.1.method ≢ []
  pub status : entry.1.status ≢ []

-- No key stands in a dictionary twice.
abbrev pub IsDistinct {ℓ} : {V : Type ℓ} → Dict V → Type 0
IsDistinct [] = Unit
IsDistinct ((k, v) ∷ d) = (has_key k d ≡ false) × IsDistinct d

abbrev pub IsTable : Dict Requirement → Type 0
IsTable d = All IsFiled d × IsDistinct d

module _ {ℓ} {V : Type ℓ} where
  -- A new key joins a dictionary whose entries have a property.
  pub All-insert :
      (P : Text × V → Type 0) (k : Text) (v : V) (d : Dict V)
      → P (k, v)
      → has_key k d ≡ false
      → All P d
      → All P (insert k v d)
  unfolding insert has_key
  All-insert P k v [] filed fresh all = (filed, tt)
  All-insert P k v ((j, w) ∷ d) filed fresh (one, all) =
      let other : text_eq j k ≡ false = ground arith in
      rw other (one, All-insert P k v d filed (ground arith) all)

  pub IsDistinct-insert :
      (k : Text) (v : V) (d : Dict V)
      → has_key k d ≡ false
      → IsDistinct d
      → IsDistinct (insert k v d)
  unfolding insert has_key
  IsDistinct-insert k v [] fresh distinct = (refl, tt)
  IsDistinct-insert k v ((j, w) ∷ d) fresh (one, distinct) =
      let other : text_eq j k ≡ false = ground arith in
      rw other (
        ground (arith, has_key-insert k j v d, text_eq_iff k j, text_eq_iff j k),
        IsDistinct-insert k v d (ground arith) distinct,
      )

add_requirement-IsTable :
    (path : Text) (n : ℕ) (r : Requirement) (d e : Dict Requirement)
    → is_requirement_id r.req_id ≡ true
    → IsTable d
    → add_requirement path n r d ≡ ok e
    → IsTable e
unfolding add_requirement
add_requirement-IsTable path n r d e form (all, distinct) h =
    elim (Bool-cases (has_key r.req_id d)) [
      | inl twice ↦ absurd (cc (rw twice at h))
      | inr fresh ↦
          elim (Bool-cases (text_eq r.text [] || text_eq r.method [] || text_eq r.status [])) [
            | inl empty ↦ absurd (cc (rw (fresh, empty) at h))
            | inr full ↦
                let filed : IsFiled (r.req_id, r) = record {
                  key = refl;
                  form = form;
                  text = λ z. ground (arith, text_eq_iff r.text [], z);
                  method = λ z. ground (arith, text_eq_iff r.method [], z);
                  status = λ z. ground (arith, text_eq_iff r.status [], z);
                } in
                subst IsTable (ok-injective (rw (fresh, full) at h)) (
                  All-insert IsFiled r.req_id r d filed fresh all,
                  IsDistinct-insert r.req_id r d fresh distinct,
                )
          ]
    ]

add_row-IsTable :
    (path : Text) (n : ℕ) (row : List Text) (d e : Dict Requirement)
    → IsTable d
    → add_row path n row d ≡ ok e
    → IsTable e
unfolding add_row
add_row-IsTable path n (req_id ∷ text ∷ method ∷ evidence ∷ status ∷ []) d e table h =
    elim (Bool-cases (is_requirement_id req_id)) [
      | inl form ↦ add_requirement-IsTable path n _ d e form table (rw form at h)
      | inr other ↦ subst IsTable (ok-injective (rw other at h)) table
    ]
add_row-IsTable path n _ d e table h = subst IsTable (ok-injective h) table

add_lines-IsTable :
    (path : Text) (lines : List Text) (n : ℕ) (d e : Dict Requirement)
    → IsTable d
    → add_lines path n lines d ≡ ok e
    → IsTable e
unfolding add_lines add_line
add_lines-IsTable path [] n d e table h = subst IsTable (ok-injective h) table
add_lines-IsTable path (line ∷ lines) n d e table h =
    let (next, e1, h1) = >>=-ok (add_line path n line d) _ h in
    let on : IsTable next = elim (Bool-cases (starts_with line (codes "|"))) [
      | inl row ↦ add_row-IsTable path n (columns line) d next table (rw (add_line, row) at e1)
      | inr other ↦ subst IsTable (ok-injective (rw (add_line, other) at e1)) table
    ] in
    add_lines-IsTable path lines (n + 1) next e on h1

-- Every requirement of a document that parses is filed under its own identifier, which has the
-- form of one, with a text, a method and a status; no identifier stands twice, and there is at
-- least one requirement.
pub parse_requirements_doc-IsTable :
    (path : Text) (lines : List Text) (requirements : Dict Requirement)
    → parse_requirements_doc path lines ≡ ok requirements
    → All IsFiled requirements × IsDistinct requirements × (requirements ≢ [])
unfolding parse_requirements_doc none_parsed
parse_requirements_doc-IsTable path lines requirements h =
    let (d, parsed, some_parsed) = >>=-ok (add_lines path 1 lines []) _ h in
    let (all, distinct) = add_lines-IsTable path lines 1 [] d (tt, tt) parsed in
    go d some_parsed all distinct
  where
    go :
        (d : Dict Requirement)
        → none_parsed path d ≡ ok requirements
        → All IsFiled d
        → IsDistinct d
        → All IsFiled requirements × IsDistinct requirements × (requirements ≢ [])
    go [] e all distinct = absurd (cc e)
    go (x ∷ d) e all distinct =
        subst (λ r. All IsFiled r × IsDistinct r × (r ≢ [])) (ok-injective e)
          (all, distinct, λ z. cc z)
