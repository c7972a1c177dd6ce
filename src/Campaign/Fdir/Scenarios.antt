-- ===== src/Campaign/Fdir/Scenarios.antt =====
-- tools/run_fdir_campaign.py: the generated scenarios, read by tools/run_scenario.py.
use astra_sim_fsw.Base.{ℕ, ◌+◌, List, [], ◌∷◌}
use astra_sim_fsw.Base.Json.{Fields}
use astra_sim_fsw.Campaign.Fdir.{FaultCase, scenario_for}
use astra_sim_fsw.Campaign.Ready.{Ready}

-- The scenarios of the campaign, from the index of the first case.
unfoldable pub scenarios_from : ℕ → List FaultCase → List Fields
scenarios_from index [] = []
scenarios_from index (case ∷ cases) = scenario_for case index ∷ scenarios_from (1 + index) cases
