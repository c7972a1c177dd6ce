-- ===== src/Lcov/RoundTrip.antt =====
-- `parse_lcov` reads back the summary lines that `lcov` writes for a list of modules.
use astra_sim_fsw.Base.{
  ℕ, List, [], ◌∷◌, ◌++◌, map, append_assoc, append-nil, ◌≡◌, refl, ◌∙◌, none, some, Text, codes,
  text_eq, starts_with, strip, strip-none, is_space, partition, decimal, ok, All,
}
use astra_sim_fsw.Base.Int.{pos}
use astra_sim_fsw.Base.Number.{parse_int-decimal, decimal-not_space}
use astra_sim_fsw.Base.Sort.{sorted}
use astra_sim_fsw.Lcov.{
  CoverageRecord, Paths, State, new_record, record_path, normalize_source_path, set_counter,
  open_record, close_record, counter_line, step, run, finish, parse_lcov,
}

-- One module of a tracefile.
pub record Module : Type 0 where
  pub path : Text
  pub functions_found : ℕ
  pub functions_hit : ℕ
  pub branches_found : ℕ
  pub branches_hit : ℕ
  pub lines_found : ℕ
  pub lines_hit : ℕ

abbrev pub to_record : Module → CoverageRecord
to_record m = record {
  path = m.path;
  lines_found = pos m.lines_found;
  lines_hit = pos m.lines_hit;
  functions_found = pos m.functions_found;
  functions_hit = pos m.functions_hit;
  branches_found = pos m.branches_found;
  branches_hit = pos m.branches_hit;
}

-- The lines of a module in front of what follows.
abbrev pub print_module : Module → List Text → List Text
print_module m rest =
    (codes "SF:" ++ m.path)
    ∷ (codes "FNF:" ++ decimal m.functions_found)
    ∷ (codes "FNH:" ++ decimal m.functions_hit)
    ∷ (codes "BRF:" ++ decimal m.branches_found)
    ∷ (codes "BRH:" ++ decimal m.branches_hit)
    ∷ (codes "LF:" ++ decimal m.lines_found)
    ∷ (codes "LH:" ++ decimal m.lines_hit)
    ∷ codes "end_of_record"
    ∷ rest

abbrev pub print_modules : List Module → List Text
print_modules [] = []
print_modules (m ∷ modules) = print_module m (print_modules modules)

-- The path of a module survives `strip` and is normalized already.
pub record IsPlain (paths : Paths) (m : Module) : Type 0 where
  pub stripped : strip (codes "SF:" ++ m.path) ≡ codes "SF:" ++ m.path
  pub normalized : normalize_source_path paths m.path ≡ m.path

module _ (paths : Paths) where
  abbrev at : List CoverageRecord → CoverageRecord → State
  at records r = record { records = records; current = some r }

  module _ (records : List CoverageRecord) (r : CoverageRecord) (n : ℕ) (rest : List Text) where
    read_lf :
        run paths (at records r) ((codes "LF:" ++ decimal n) ∷ rest)
        ≡ run paths (at records (record r { lines_found = pos n })) rest
    unfolding run step counter_line set_counter partition starts_with text_eq codes is_space
    read_lf = rw (
      strip-none (codes "LF:" ++ decimal n) (refl, (refl, (refl, decimal-not_space n))),
      parse_int-decimal n,
    )

    read_lh :
        run paths (at records r) ((codes "LH:" ++ decimal n) ∷ rest)
        ≡ run paths (at records (record r { lines_hit = pos n })) rest
    unfolding run step counter_line set_counter partition starts_with text_eq codes is_space
    read_lh = rw (
      strip-none (codes "LH:" ++ decimal n) (refl, (refl, (refl, decimal-not_space n))),
      parse_int-decimal n,
    )

    read_fnf :
        run paths (at records r) ((codes "FNF:" ++ decimal n) ∷ rest)
        ≡ run paths (at records (record r { functions_found = pos n })) rest
    unfolding run step counter_line set_counter partition starts_with text_eq codes is_space
    read_fnf = rw (
      strip-none (codes "FNF:" ++ decimal n) (refl, (refl, (refl, (refl, decimal-not_space n)))),
      parse_int-decimal n,
    )

    read_fnh :
        run paths (at records r) ((codes "FNH:" ++ decimal n) ∷ rest)
        ≡ run paths (at records (record r { functions_hit = pos n })) rest
    unfolding run step counter_line set_counter partition starts_with text_eq codes is_space
    read_fnh = rw (
      strip-none (codes "FNH:" ++ decimal n) (refl, (refl, (refl, (refl, decimal-not_space n)))),
      parse_int-decimal n,
    )

    read_brf :
        run paths (at records r) ((codes "BRF:" ++ decimal n) ∷ rest)
        ≡ run paths (at records (record r { branches_found = pos n })) rest
    unfolding run step counter_line set_counter partition starts_with text_eq codes is_space
    read_brf = rw (
      strip-none (codes "BRF:" ++ decimal n) (refl, (refl, (refl, (refl, decimal-not_space n)))),
      parse_int-decimal n,
    )

    read_brh :
        run paths (at records r) ((codes "BRH:" ++ decimal n) ∷ rest)
        ≡ run paths (at records (record r { branches_hit = pos n })) rest
    unfolding run step counter_line set_counter partition starts_with text_eq codes is_space
    read_brh = rw (
      strip-none (codes "BRH:" ++ decimal n) (refl, (refl, (refl, (refl, decimal-not_space n)))),
      parse_int-decimal n,
    )

  read_sf :
      (records : List CoverageRecord) (m : Module) (rest : List Text)
      → IsPlain paths m
      → run paths (record { records = records; current = none }) ((codes "SF:" ++ m.path) ∷ rest)
        ≡ run paths (at records (new_record m.path)) rest
  unfolding run step open_record starts_with text_eq codes
  read_sf records m rest p = rw (p.stripped, p.normalized)

  read_end :
      (records : List CoverageRecord) (r : CoverageRecord) (rest : List Text)
      → run paths (at records r) (codes "end_of_record" ∷ rest)
        ≡ run paths (record { records = records ++ (r ∷ []); current = none }) rest
  unfolding run step close_record starts_with text_eq codes strip is_space
  read_end records r rest = refl

  read_module :
      (records : List CoverageRecord) (m : Module) (rest : List Text)
      → IsPlain paths m
      → run paths (record { records = records; current = none }) (print_module m rest)
        ≡ run paths (record { records = records ++ (to_record m ∷ []); current = none }) rest
  read_module records m rest p =
      read_sf records m _ p
      ∙ read_fnf records _ m.functions_found _
      ∙ read_fnh records _ m.functions_hit _
      ∙ read_brf records _ m.branches_found _
      ∙ read_brh records _ m.branches_hit _
      ∙ read_lf records _ m.lines_found _
      ∙ read_lh records _ m.lines_hit _
      ∙ read_end records _ rest

  read_modules :
      (modules : List Module) (records : List CoverageRecord)
      → All (IsPlain paths) modules
      → run paths (record { records = records; current = none }) (print_modules modules)
        ≡ ok (record { records = records ++ map to_record modules; current = none })
  read_modules [] records h = rw append-nil (unfold run in refl)
  read_modules (m ∷ modules) records (p, h) =
      read_module records m (print_modules modules) p
      ∙ read_modules modules (records ++ (to_record m ∷ [])) h
      ∙ rw append_assoc

  -- For modules whose paths hold no outer white space and are normalized already, `parse_lcov`
  -- returns exactly the records that were written, sorted by path.
  pub parse_lcov-print_modules :
      (modules : List Module)
      → All (IsPlain paths) modules
      → parse_lcov paths (print_modules modules) ≡ ok (sorted record_path (map to_record modules))
  unfolding parse_lcov finish
  parse_lcov-print_modules modules h = rw (read_modules modules [] h)
