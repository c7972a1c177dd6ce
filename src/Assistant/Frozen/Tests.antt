-- ===== src/Assistant/Frozen/Tests.antt =====
-- The frozen cases under a policy that grants nothing.
use astra_sim_fsw.Base.{
  zero_padded, zeros, decimal, decimal_loop, true, [], ◌∷◌, ◌≡◌, refl, none, codes, ok,
}
use astra_sim_fsw.Base.Int.{pos}
use astra_sim_fsw.Assistant.{World, Policy}
use astra_sim_fsw.Assistant.Frozen.{add_cases, case_of, action_kind}

-- The second case of a loop is numbered 2.
numbered :
    add_cases (action_kind (codes "push")) [] (codes "a" ∷ codes "b" ∷ [])
    ≡ case_of (codes "deny-action-001") (action_kind (codes "push")) (codes "a")
      ∷ case_of (codes "deny-action-002") (action_kind (codes "push")) (codes "b")
      ∷ []
unfolding add_cases case_of zero_padded zeros decimal decimal_loop codes
numbered = refl

abbrev world : World
world = record {
  raises = λ p. none;
  resolve = λ p. p;
  is_file = λ p. true;
  read_bytes = λ p. ok [];
  run_process = λ c. ok (pos 0, []);
  decode_utf8 = λ b. b;
  repr = λ v. codes "?";
  repo_root = [];
}

abbrev policy : Policy
policy = record { approved_read_roots = []; allowlisted_tools = []; explicitly_denied_actions = [] }
