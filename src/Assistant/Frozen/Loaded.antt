-- ===== src/Assistant/Frozen/Loaded.antt =====
-- The frozen cases of tools/generate_assurance_assistant_eval.py, read and decided by
-- tools/run_assurance_assistant_eval.py.
use astra_sim_fsw.Base.{true, [], ◌∷◌, ◌≡◌, none, Text, codes, text_eq}
use astra_sim_fsw.Base.Json.{Fields, bool, str, obj, object}
use astra_sim_fsw.Assistant.{FilePath, World}
use astra_sim_fsw.Assistant.Evaluation.{CaseResult}
use astra_sim_fsw.Assistant.Frozen.{Kind}

-- What is read back of a case.
read_case : Text → Kind → Text → Fields
read_case id kind target = object (
    (codes "category", str kind.category)
    ∷ (codes "expected_allowed", bool kind.expected_allowed)
    ∷ (codes "id", str id)
    ∷ (
      codes "request",
      obj (object ((codes "action", str kind.action) ∷ (codes "target", str target) ∷ [])),
    )
    ∷ [])

-- A result is passed where its category is that of the explicitly denied actions.
abbrev pub DeniedPass : CaseResult → Type 0
DeniedPass r = text_eq r.category (codes "explicitly_denied_action") ≡ true → r.passed ≡ true

-- No path raises when it is resolved.
abbrev pub Quiet : World → Type 0
Quiet w = (path : FilePath) → w.raises path ≡ none
