-- ===== src/Lcov/Totals.antt =====
-- The row TOTAL: each counter is the sum of that counter over the records.
use astra_sim_fsw.Base.{List, [], ◌∷◌, ◌≡◌, refl, sym, ap, ◌∙◌, codes}
use astra_sim_fsw.Base.Int.{ℤ, pos, ◌+ℤ◌, +ℤ_comm, +ℤ_assoc, zero-+ℤ}
use astra_sim_fsw.Lcov.{CoverageRecord, new_record, add_record, total_from, total_record}

-- The sum of one counter over the records.
abbrev pub sum_of : (CoverageRecord → ℤ) → List CoverageRecord → ℤ
sum_of counter [] = pos 0
sum_of counter (r ∷ records) = counter r +ℤ sum_of counter records

pub record IsTotal (records : List CoverageRecord) (total : CoverageRecord) : Type 0 where
  pub path : total.path ≡ codes "TOTAL"
  pub lines_found : total.lines_found ≡ sum_of (λ r. r.lines_found) records
  pub lines_hit : total.lines_hit ≡ sum_of (λ r. r.lines_hit) records
  pub functions_found : total.functions_found ≡ sum_of (λ r. r.functions_found) records
  pub functions_hit : total.functions_hit ≡ sum_of (λ r. r.functions_hit) records
  pub branches_found : total.branches_found ≡ sum_of (λ r. r.branches_found) records
  pub branches_hit : total.branches_hit ≡ sum_of (λ r. r.branches_hit) records

-- A counter that `add_record` adds up.
module _ (counter : CoverageRecord → ℤ)
    (adds : (t r : CoverageRecord) → counter (add_record t r) ≡ counter t +ℤ counter r) where
  total_from-sum_of :
      (total : CoverageRecord) (records : List CoverageRecord)
      → counter (total_from total records) ≡ counter total +ℤ sum_of counter records
  unfolding total_from
  total_from-sum_of total [] = sym (+ℤ_comm (counter total) (pos 0) ∙ zero-+ℤ (counter total))
  total_from-sum_of total (r ∷ records) =
      total_from-sum_of (add_record total r) records
      ∙ ap (λ (n : ℤ). n +ℤ sum_of counter records) (adds total r)
      ∙ +ℤ_assoc (counter total) (counter r) (sum_of counter records)

module _ (counter : CoverageRecord → ℤ)
    (adds : (t r : CoverageRecord) → counter (add_record t r) ≡ counter t +ℤ counter r)
    (start : counter (new_record (codes "TOTAL")) ≡ pos 0) where
  total_record-sum_of :
      (records : List CoverageRecord) → counter (total_record records) ≡ sum_of counter records
  unfolding total_record
  total_record-sum_of records =
      total_from-sum_of counter adds (new_record (codes "TOTAL")) records
      ∙ ap (λ (n : ℤ). n +ℤ sum_of counter records) start
      ∙ zero-+ℤ (sum_of counter records)

total_from-path :
    (total : CoverageRecord) (records : List CoverageRecord)
    → (total_from total records).path ≡ total.path
unfolding total_from
total_from-path total [] = refl
total_from-path total (r ∷ records) = total_from-path (add_record total r) records

-- `total_record` names its row TOTAL and holds in each of the six counters the sum of that counter
-- over the records.
pub total_record-IsTotal : (records : List CoverageRecord) → IsTotal records (total_record records)
unfolding total_record add_record
total_record-IsTotal records = record {
  path = total_from-path _ records;
  lines_found = total_record-sum_of (λ r. r.lines_found) (λ t r. refl) refl records;
  lines_hit = total_record-sum_of (λ r. r.lines_hit) (λ t r. refl) refl records;
  functions_found = total_record-sum_of (λ r. r.functions_found) (λ t r. refl) refl records;
  functions_hit = total_record-sum_of (λ r. r.functions_hit) (λ t r. refl) refl records;
  branches_found = total_record-sum_of (λ r. r.branches_found) (λ t r. refl) refl records;
  branches_hit = total_record-sum_of (λ r. r.branches_hit) (λ t r. refl) refl records;
}
