-- ===== src/Assistant/Frozen/Cases.antt =====
-- tools/generate_assurance_assistant_eval.py: the number of the cases, and what each is.
use astra_sim_fsw.Base.{
  ◌+◌, ◌*◌, true, false, List, [], ◌∷◌, ◌++◌, ◌≡◌, refl, arith, Text, codes, text_eq, length,
  length-append, All, All-append, zero_padded, strip, strip_of, lstrip_of, rstrip_of, is_space,
}
use astra_sim_fsw.Base.Json.{Value}
use astra_sim_fsw.Assistant.Frozen.{
  Kind, case_of, add_cases, action_kind, read_kind, tool_kind, denied_read_kind, denied_tool_kind,
  add_actions, generate_cases,
}
use astra_sim_fsw.Assistant.Frozen.Targets.{
  allowed_reads, allowed_tools, denied_actions, denied_action_targets, denied_reads, denied_tools,
}

pub length-add_cases :
    (kind : Kind) (cases : List Value) (targets : List Text)
    → length (add_cases kind cases targets) ≡ length cases + length targets
unfolding add_cases
length-add_cases kind cases [] = omega arith
length-add_cases kind cases (target ∷ targets) = omega (
  arith,
  length-add_cases kind (cases ++ (case_of _ kind target ∷ [])) targets,
  length-append cases (case_of _ kind target ∷ []),
)

pub length-add_actions :
    (cases : List Value) (actions : List Text)
    → length (add_actions cases actions) ≡ length cases + 4 * length actions
unfolding add_actions denied_action_targets
length-add_actions cases [] = omega arith
length-add_actions cases (action ∷ actions) = omega (
  arith,
  length-add_actions (add_cases (action_kind action) cases denied_action_targets) actions,
  length-add_cases (action_kind action) cases denied_action_targets,
)

pub length-generate_cases : length generate_cases ≡ 129
unfolding generate_cases allowed_reads allowed_tools denied_actions denied_reads denied_tools
length-generate_cases =
    let reads = add_cases read_kind [] allowed_reads in
    let tools = add_cases tool_kind reads allowed_tools in
    let actions = add_actions tools denied_actions in
    let unapproved = add_cases denied_read_kind actions denied_reads in
    omega (
      arith,
      length-add_cases read_kind [] allowed_reads,
      length-add_cases tool_kind reads allowed_tools,
      length-add_actions tools denied_actions,
      length-add_cases denied_read_kind actions denied_reads,
      length-add_cases denied_tool_kind unapproved denied_tools,
    )

-- An action that is neither a read nor a run.
abbrev pub IsOther : Text → Type 0
IsOther action =
    (text_eq (strip action) (codes "read") ≡ false) × (text_eq (strip action) (codes "run") ≡ false)

-- A case that counts as explicitly denied expects the refusal of another action.
abbrev pub IsSound : Kind → Type 0
IsSound kind =
    text_eq kind.category (codes "explicitly_denied_action") ≡ true
    → (kind.expected_allowed ≡ false) × IsOther kind.action

-- A case of a sound kind, with an identifier.
abbrev pub IsCase : Value → Type 0
IsCase v =
    (id : Text) × (kind : Kind) × (target : Text) × (v ≡ case_of id kind target)
    × (text_eq id [] ≡ false)
    × IsSound kind

pub add_cases-IsCase :
    (kind : Kind) (cases : List Value) (targets : List Text)
    → ((s : Text) → text_eq (kind.prefix ++ s) [] ≡ false)
    → IsSound kind
    → All IsCase cases
    → All IsCase (add_cases kind cases targets)
unfolding add_cases
add_cases-IsCase kind cases [] named sound all = all
add_cases-IsCase kind cases (target ∷ targets) named sound all =
    let id = kind.prefix ++ zero_padded 3 (length cases + 1) in
    add_cases-IsCase kind (cases ++ (case_of id kind target ∷ [])) targets named sound (
      All-append IsCase cases (case_of id kind target ∷ []) all
        ((id, kind, target, refl, named _, sound), tt))

pub add_actions-IsCase :
    (cases : List Value) (actions : List Text)
    → All IsOther actions
    → All IsCase cases
    → All IsCase (add_actions cases actions)
unfolding add_actions text_eq codes
add_actions-IsCase cases [] other all = all
add_actions-IsCase cases (action ∷ actions) (one, other) all =
    add_actions-IsCase (add_cases (action_kind action) cases denied_action_targets) actions other (
      add_cases-IsCase (action_kind action) cases denied_action_targets (λ s. refl)
        (λ same. (refl, one)) all)

pub denied_actions-IsOther : All IsOther denied_actions
unfolding denied_actions strip strip_of lstrip_of rstrip_of is_space text_eq codes
denied_actions-IsOther = (
  (refl, refl),
  (
    (refl, refl),
    (
      (refl, refl),
      (
        (refl, refl),
        ((refl, refl), ((refl, refl), ((refl, refl), ((refl, refl), ((refl, refl), tt))))),
      ),
    ),
  ),
)

pub other-IsSound :
    (kind : Kind) → text_eq kind.category (codes "explicitly_denied_action") ≡ false → IsSound kind
other-IsSound kind other same = absurd (cc (other, same))

pub generate_cases-IsCase : All IsCase generate_cases
unfolding generate_cases text_eq codes
generate_cases-IsCase =
    let reads = add_cases read_kind [] allowed_reads in
    let tools = add_cases tool_kind reads allowed_tools in
    let actions = add_actions tools denied_actions in
    let unapproved = add_cases denied_read_kind actions denied_reads in
    let one =
      add_cases-IsCase read_kind [] allowed_reads (λ s. refl) (other-IsSound read_kind refl) tt in
    let two =
      add_cases-IsCase tool_kind reads allowed_tools (λ s. refl) (other-IsSound tool_kind refl)
        one in
    let three = add_actions-IsCase tools denied_actions denied_actions-IsOther two in
    let four =
      add_cases-IsCase denied_read_kind actions denied_reads (λ s. refl)
        (other-IsSound denied_read_kind refl) three in
    add_cases-IsCase denied_tool_kind unapproved denied_tools (λ s. refl)
      (other-IsSound denied_tool_kind refl) four
