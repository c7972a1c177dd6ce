-- ===== src/Campaign/MonteCarlo/Cases.antt =====
-- tools/run_monte_carlo.py: the generated scenarios, read by tools/run_scenario.py.
use astra_sim_fsw.Base.{ℕ, ◌<◌, ◌≤◌, ◌≡◌, ◌⊎◌, none, some, Text, codes}
use astra_sim_fsw.Base.Int.{pos}
use astra_sim_fsw.Base.Json.{Fields, int, get}
use astra_sim_fsw.Campaign.MonteCarlo.{Draws}
use astra_sim_fsw.Campaign.Ready.{Ready}

-- What `randint` and `choice` promise of the draws.
pub record InRange (draws : Draws) : Type 0 where
  pub port_range : (20000 ≤ draws.command_port) × (draws.command_port ≤ 50000)
  pub sensor_range : (7 ≤ draws.sensor_loop) × (draws.sensor_loop ≤ 11)
  pub watchdog_range : (7 ≤ draws.watchdog_loop) × (draws.watchdog_loop ≤ 11)
  pub place_range : draws.place < 5

-- The loop that the scenario gives for an injected timeout, if it gives one, is at least 1 and comes
-- before the last of its loops.
abbrev pub IsTimely : Text → Fields → Type 0
IsTimely key scenario =
    (loops : ℕ) × (get (codes "loop_count") scenario ≡ some (int (pos loops)))
    × ((get key scenario ≡ none)
        ⊎ ((n : ℕ) × (get key scenario ≡ some (int (pos n))) × (0 < n) × (n < loops)))

-- A trial whose template is the one at a place.
drawn : ℕ → ℕ → ℕ → ℕ → Draws
drawn port sensor watchdog place = record {
  command_port = port;
  sensor_loop = sensor;
  watchdog_loop = watchdog;
  place = place;
}
