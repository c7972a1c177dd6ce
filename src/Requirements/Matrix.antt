-- ===== src/Requirements/Matrix.antt =====
-- What a verification matrix whose rows are read is made of.
use astra_sim_fsw.Base.{
  ℕ, ◌+◌, true, not, ◌&&◌, List, [], ◌∷◌, ◌≡◌, ◌≢◌, refl, arith, inl, inr, Text, codes, text_eq,
  text_eq_iff, ok, ok-injective, >>=-ok, Bool-cases, All, subst,
}
use astra_sim_fsw.Base.Dict.{Dict, has_key}
use astra_sim_fsw.Requirements.{
  MatrixEntry, is_requirement_id, entry_of, add_entry, add_entries, missing_columns, parse_rows,
  parse_verification_matrix,
}
use astra_sim_fsw.Requirements.Document.{IsDistinct, All-insert, IsDistinct-insert}

-- An entry of the matrix: filed under its own identifier, which has the form of one, allocated to
-- a component, and with a verification case unless it is planned.
pub record IsAllocated (entry : Text × MatrixEntry) : Type 0 where
  pub key : entry.0 ≡ entry.1.req_id
  pub form : is_requirement_id entry.0 ≡ true
  pub component : entry.1.component ≢ []
  pub case : entry.1.status ≢ codes "Planned" → entry.1.verification_case ≢ []

abbrev pub IsMatrix : Dict MatrixEntry → Type 0
IsMatrix d = All IsAllocated d × IsDistinct d

add_entry-IsMatrix :
    (path : Text) (n : ℕ) (r : MatrixEntry) (d e : Dict MatrixEntry)
    → IsMatrix d
    → add_entry path n r d ≡ ok e
    → IsMatrix e
unfolding add_entry
add_entry-IsMatrix path n r d e (all, distinct) h = elim (Bool-cases (is_requirement_id r.req_id)) [
  | inr bad ↦ absurd (cc (rw bad at h))
  | inl form ↦ elim (Bool-cases (has_key r.req_id d)) [
    | inl twice ↦ absurd (cc (rw (form, twice) at h))
    | inr fresh ↦ elim (Bool-cases (text_eq r.component [])) [
      | inl empty ↦ absurd (cc (rw (form, fresh, empty) at h))
      | inr full ↦
          elim (Bool-cases
            (not (text_eq r.status (codes "Planned")) && text_eq r.verification_case [])) [
              | inl unverified ↦ absurd (cc (rw (form, fresh, full, unverified) at h))
              | inr verified ↦
                  let filed : IsAllocated (r.req_id, r) = record {
                    key = refl;
                    form = form;
                    component = λ z. ground (arith, text_eq_iff r.component [], z);
                    case = λ s z. ground (
                      arith,
                      text_eq_iff r.status (codes "Planned"),
                      text_eq_iff r.verification_case [],
                      s,
                      z,
                    );
                  } in
                  subst IsMatrix (ok-injective (rw (form, fresh, full, verified) at h)) (
                    All-insert IsAllocated r.req_id r d filed fresh all,
                    IsDistinct-insert r.req_id r d fresh distinct,
                  )
            ]
    ]
  ]
]

add_entries-IsMatrix :
    (path : Text) (rows : List (Dict Text)) (n : ℕ) (d e : Dict MatrixEntry)
    → IsMatrix d
    → add_entries path n rows d ≡ ok e
    → IsMatrix e
unfolding add_entries
add_entries-IsMatrix path [] n d e table h = subst IsMatrix (ok-injective h) table
add_entries-IsMatrix path (row ∷ rows) n d e table h =
    let (next, e1, h1) = >>=-ok (add_entry path n (entry_of row) d) _ h in
    add_entries-IsMatrix path rows (n + 1) next e
      (add_entry-IsMatrix path n (entry_of row) d next table e1) h1

parse_rows-IsMatrix :
    (path : Text) (missing : List Text) (rows : List (Dict Text)) (matrix : Dict MatrixEntry)
    → parse_rows path missing rows ≡ ok matrix
    → IsMatrix matrix
unfolding parse_rows
parse_rows-IsMatrix path [] rows matrix h = add_entries-IsMatrix path rows 2 [] matrix (tt, tt) h
parse_rows-IsMatrix path (c ∷ missing) rows matrix h = absurd (cc h)

-- Every entry of a matrix that parses is filed under its own identifier, which has the form of
-- one, is allocated to a component, and has a verification case unless its status is Planned; no
-- identifier stands twice.
pub parse_verification_matrix-IsAllocated :
    (path : Text) (fieldnames : List Text) (rows : List (Dict Text)) (matrix : Dict MatrixEntry)
    → parse_verification_matrix path fieldnames rows ≡ ok matrix
    → All IsAllocated matrix × IsDistinct matrix
unfolding parse_verification_matrix
parse_verification_matrix-IsAllocated path fieldnames rows matrix h =
    parse_rows-IsMatrix path (missing_columns fieldnames) rows matrix h
