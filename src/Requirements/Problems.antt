-- ===== src/Requirements/Problems.antt =====
-- The problems that the check of the matrix and of the registered tests reports.
use astra_sim_fsw.Base.{
  not, List, [], ◌∷◌, ◌++◌, map, Option, some, Text, codes, text_eq, any, filter, if◌then◌else◌,
}
use astra_sim_fsw.Base.Dict.{Dict, lookup, has_key, keys}
use astra_sim_fsw.Base.Sort.{sorted}
use astra_sim_fsw.Requirements.{Requirement, MatrixEntry, tokens_of}

-- `sorted(names)`
unfoldable pub sorted_texts : List Text → List Text
sorted_texts = sorted (λ t. t)

-- `sorted(set(a) - set(b))` and `sorted(set(a) & set(b))` of the keys of two dictionaries.
unfoldable pub keys_without {ℓ κ} : {V : Type ℓ} {W : Type κ} → Dict V → Dict W → List Text
unfolding sorted_texts
keys_without a b = sorted_texts (filter (λ k. not (has_key k b)) (keys a))

unfoldable pub common_keys {ℓ κ} : {V : Type ℓ} {W : Type κ} → Dict V → Dict W → List Text
unfolding sorted_texts
common_keys a b = sorted_texts (filter (λ k. has_key k b) (keys a))

-- The list of what a function gives for each element.
unfoldable pub collect : (Text → List Text) → List Text → List Text
collect f [] = []
collect f (x ∷ xs) = f x ++ collect f xs

unfoldable pub mismatch : Text → Option Requirement → Option MatrixEntry → List Text
mismatch req_id (some requirement) (some entry) =
    if text_eq requirement.status entry.status
    then []
    else (codes "Status mismatch for "
        ++ (req_id
            ++ (codes ": requirements="
                ++ (requirement.status ++ (codes ", matrix=" ++ entry.status)))))
      ∷ []
mismatch req_id _ _ = []

unfoldable pub matrix_consistency_problems : Dict Requirement → Dict MatrixEntry → List Text
matrix_consistency_problems requirements matrix =
    map (λ i. codes "Requirement missing from matrix: " ++ i) (keys_without requirements matrix)
    ++ (map (λ i. codes "Matrix references unknown requirement: " ++ i)
          (keys_without matrix requirements)
        ++ collect (λ i. mismatch i (lookup i requirements) (lookup i matrix))
            (common_keys requirements matrix))

-- `matrix_verification_tokens`, as the list of the tokens that are not empty.
unfoldable pub matrix_verification_tokens : Dict MatrixEntry → List Text
matrix_verification_tokens [] = []
matrix_verification_tokens ((req_id, entry) ∷ matrix) =
    filter (λ t. not (text_eq t [])) (tokens_of entry) ++ matrix_verification_tokens matrix

-- `reverse_test_allocation_problems`, where `registered_tests` holds no name twice.
unfoldable pub reverse_test_allocation_problems : List Text → Dict MatrixEntry → List Text
unfolding sorted_texts
reverse_test_allocation_problems registered_tests matrix =
    let allocated = matrix_verification_tokens matrix in
    map (λ t. codes "Registered CTest has no requirement allocation: " ++ t)
      (sorted_texts (filter (λ t. not (any (λ u. text_eq u t) allocated)) registered_tests))
