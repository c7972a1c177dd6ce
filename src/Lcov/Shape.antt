-- ===== src/Lcov/Shape.antt =====
-- The result of `parse_lcov` against the lines of the tracefile.
use astra_sim_fsw.Base.{
  ℕ, ◌+◌, Bool, true, false, List, [], ◌∷◌, ◌≡◌, refl, ap, arith, Option, none, some, Text, codes,
  text_eq, text_eq_iff, starts_with, strip, ok, >>=-ok, length, length-append, count_if,
  if◌then◌else◌, inl, inr, Bool-cases, Option-cases, subst,
}
use astra_sim_fsw.Base.Sort.{IsSorted, sorted, sorted-IsSorted, length-sorted}
use astra_sim_fsw.Lcov.{
  CoverageRecord, Paths, State, initial, record_path, open_record, close_record, counter_line, step,
  run, finish, parse_lcov,
}

-- The lines that open a record and those that close one.
abbrev pub opens : Text → Bool
opens raw_line = starts_with (strip raw_line) (codes "SF:")

abbrev pub closes : Text → Bool
closes raw_line = text_eq (strip raw_line) (codes "end_of_record")

abbrev pending : Option CoverageRecord → ℕ
pending none = 0
pending (some r) = 1

-- What a line with these two marks does to the number of records, closed and open.
record Counts (opened closed : Bool) (s t : State) : Type 0 where
  closed_records : length t.records ≡ length s.records + (if closed then 1 else 0)
  open_records :
      pending t.current + (if closed then 1 else 0) ≡ pending s.current + (if opened then 1 else 0)

open_record-Counts :
    (paths : Paths) (s : State) (line : Text) {t : State}
    → open_record paths s line ≡ ok t
    → Counts true false s t
unfolding open_record
open_record-Counts paths s line h = ground arith

close_record-Counts : (s : State) {t : State} → close_record s ≡ ok t → Counts false true s t
unfolding close_record
close_record-Counts s h = elim (Option-cases s.current) [
  | inl e ↦ ground arith
  | inr (r, e) ↦ ground (arith, length-append s.records (r ∷ []))
]

counter_line-Counts :
    (s : State) (line : Text) {t : State} → counter_line s line ≡ ok t → Counts false false s t
unfolding counter_line
counter_line-Counts s line h = ground arith

closed-not_opened :
    (line : Text)
    → text_eq line (codes "end_of_record") ≡ true
    → starts_with line (codes "SF:") ≡ false
closed-not_opened line h =
    let e = (text_eq_iff line (codes "end_of_record")).0 h in
    rw e (unfold starts_with codes in refl)

opened-not_closed :
    (line : Text)
    → starts_with line (codes "SF:") ≡ true
    → text_eq line (codes "end_of_record") ≡ false
opened-not_closed line h = ground (arith, closed-not_opened line)

-- An empty line is neither.
step_blank :
    (paths : Paths) (s : State) (line : Text) {t : State}
    → text_eq line [] ≡ true
    → step paths s line ≡ ok t
    → Counts (starts_with line (codes "SF:")) (text_eq line (codes "end_of_record")) s t
unfolding step
step_blank paths s line {t} blank h =
    let e : line ≡ [] = (text_eq_iff line []).0 blank in
    let same : ok s ≡ ok t = rw blank at h in
    rw e (unfold starts_with codes text_eq in ground (arith, same))

step-Counts :
    (paths : Paths) (s : State) (line : Text) {t : State}
    → step paths s line ≡ ok t
    → Counts (starts_with line (codes "SF:")) (text_eq line (codes "end_of_record")) s t
unfolding step
step-Counts paths s line h = elim (Bool-cases (text_eq line [])) [
  | inl blank ↦ step_blank paths s line blank h
  | inr filled ↦ elim (Bool-cases (starts_with line (codes "SF:"))) [
    | inl opened ↦
        let closed : text_eq line (codes "end_of_record") ≡ false = opened-not_closed line opened in
        rw (opened, closed) (open_record-Counts paths s line (rw (filled, opened) at h))
    | inr not_opened ↦ elim (Bool-cases (text_eq line (codes "end_of_record"))) [
      | inl closed ↦
          rw (not_opened, closed) (close_record-Counts s (rw (filled, not_opened, closed) at h))
      | inr not_closed ↦
          rw (not_opened, not_closed)
            (counter_line-Counts s line (rw (filled, not_opened, not_closed) at h))
    ]
  ]
]

run-Counts :
    (paths : Paths) (lines : List Text) (s : State) {t : State}
    → run paths s lines ≡ ok t
    → (length t.records ≡ length s.records + count_if closes lines)
      × (pending t.current + count_if closes lines ≡ pending s.current + count_if opens lines)
unfolding run
run-Counts paths [] s h = ground arith
run-Counts paths (raw ∷ lines) s {t} h =
    let (u, first, rest) = >>=-ok (step paths s (strip raw)) (λ u. run paths u lines) h in
    let c = step-Counts paths s (strip raw) first in
    let (closed, opened) = run-Counts paths lines u rest in
    (omega (arith, c.closed_records, closed), omega (arith, c.open_records, opened))

-- If `parse_lcov` returns, it returns one record for each line `end_of_record`, as many as there
-- are lines `SF:…`, in the order of their paths.
pub parse_lcov-shape :
    (paths : Paths) (lines : List Text) {records : List CoverageRecord}
    → parse_lcov paths lines ≡ ok records
    → (length records ≡ count_if closes lines)
      × (length records ≡ count_if opens lines)
      × IsSorted record_path records
unfolding parse_lcov finish
parse_lcov-shape paths lines {records} h =
    let (t, ran, done) = >>=-ok (run paths initial lines) finish h in
    let (closed, opened) = run-Counts paths lines initial ran in
    elim (Option-cases t.current) [
      | inl e ↦
          let same : sorted record_path t.records ≡ records = ground arith in
          let size = length-sorted record_path t.records in
          let sizes = ap length same in
          (
            omega (arith, size, sizes, closed),
            ground (arith, size, sizes, closed, opened),
            subst (IsSorted record_path) same (sorted-IsSorted record_path t.records),
          )
      | inr (r, e) ↦ absurd (ground arith)
    ]
