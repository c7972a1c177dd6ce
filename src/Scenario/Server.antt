-- ===== src/Scenario/Server.antt =====
-- The arguments of the flight software's server, which reads them by their places.
use astra_sim_fsw.Base.{
  ℕ, List, [], ◌∷◌, ◌++◌, ◌≡◌, sym, ap, ◌∙◌, Option, none, some, Text, codes, Result, ok,
  ok-injective, >>=-ok, ◌>>=◌, if◌then◌else◌, drop,
}
use astra_sim_fsw.Base.Int.{ℤ, pos, int_text}
use astra_sim_fsw.Base.Json.{Value, Fields, get, int_of, truthy}
use astra_sim_fsw.Scenario.Run.{given}

-- The numbers of a scenario that the server is started with.
pub record Config : Type 0 where
  pub command_port : ℤ
  pub telemetry_port : ℤ
  pub loop_count : ℤ
  pub sensor_timeout_loop : Option Value
  pub watchdog_timeout_loop : Option Value

-- `int(scenario.get(key, default))`
unfoldable pub int_field : Text → ℕ → Fields → Result ℤ
int_field key default scenario = elim (get key scenario) [
  | none ↦ ok (pos default)
  | some v ↦ int_of v
]

unfoldable pub config_of : Fields → Result Config
unfolding int_field
config_of scenario = do
  command_port ← int_field (codes "command_port") 6000 scenario
  telemetry_port ← int_field (codes "telemetry_port") 5005 scenario
  loop_count ← int_field (codes "loop_count") 22 scenario
  ok (record {
    command_port = command_port;
    telemetry_port = telemetry_port;
    loop_count = loop_count;
    sensor_timeout_loop = given (codes "sensor_timeout_loop") scenario;
    watchdog_timeout_loop = given (codes "watchdog_timeout_loop") scenario;
  })

-- `int(value or 0)`
unfoldable pub int_or_zero : Value → Result ℤ
int_or_zero v = if truthy v then int_of v else ok (pos 0)

-- The sensor's place is filled, by a zero if need be, as soon as either loop is given.
unfoldable pub sensor_words : Option Value → Option Value → Result (List Text)
unfolding int_or_zero
sensor_words none none = ok []
sensor_words none (some watchdog) = ok (int_text (pos 0) ∷ [])
sensor_words (some sensor) watchdog = int_or_zero sensor >>= λ n. ok (int_text n ∷ [])

unfoldable pub watchdog_words : Option Value → Result (List Text)
watchdog_words none = ok []
watchdog_words (some watchdog) = int_of watchdog >>= λ n. ok (int_text n ∷ [])

-- `server_args`, behind the path of the executable.
unfoldable pub server_args : Text → Config → Result (List Text)
server_args host config = do
  sensor ← sensor_words config.sensor_timeout_loop config.watchdog_timeout_loop
  watchdog ← watchdog_words config.watchdog_timeout_loop
  ok (
      int_text config.command_port
      ∷ host
      ∷ int_text config.telemetry_port
      ∷ int_text config.loop_count
      ∷ (sensor ++ watchdog))

sensor_words-some :
    (sensor : Option Value) (watchdog : Value) {ws : List Text}
    → sensor_words sensor (some watchdog) ≡ ok ws
    → (s : Text) × (ws ≡ s ∷ [])
unfolding sensor_words
sensor_words-some none watchdog h = (int_text (pos 0), sym (ok-injective h))
sensor_words-some (some sensor) watchdog h =
    let (n, e, h1) = >>=-ok (int_or_zero sensor) _ h in (int_text n, sym (ok-injective h1))

-- Where a scenario gives the watchdog's loop and the arguments of the server are made, that loop is
-- the sixth argument and the last, whether the scenario gives the sensor's loop or not.
pub server_args-watchdog :
    (host : Text) (config : Config) (watchdog : Value) {args : List Text}
    → config.watchdog_timeout_loop ≡ some watchdog
    → server_args host config ≡ ok args
    → (n : ℤ) × (int_of watchdog ≡ ok n) × (drop 5 args ≡ int_text n ∷ [])
unfolding server_args watchdog_words
server_args-watchdog host config watchdog given_loop h =
    let (sensor, e1, h1) =
      >>=-ok (sensor_words config.sensor_timeout_loop config.watchdog_timeout_loop) _ h in
    let (words, e2, h2) = >>=-ok (watchdog_words config.watchdog_timeout_loop) _ h1 in
    let (s, one) =
      sensor_words-some config.sensor_timeout_loop watchdog
        (ap (sensor_words config.sensor_timeout_loop) (sym given_loop) ∙ e1) in
    let (n, e3, h3) = >>=-ok (int_of watchdog) _ (ap watchdog_words (sym given_loop) ∙ e2) in
    let words_eq : words ≡ int_text n ∷ [] = sym (ok-injective h3) in
    (n, e3, ap (drop 5) (sym (ok-injective h2)) ∙ cc (one, words_eq))
