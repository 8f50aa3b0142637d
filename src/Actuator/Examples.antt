-- ===== src/Actuator/Examples.antt =====
-- Two passes round a restart, and the theorems at them.
use nut_operator.Prelude.{◌≤◌, true, false, List, [], ◌∷◌, some, ◌≡◌, refl, arith, All, length}
use nut_operator.Prelude.Int.{pos, ◌-ℤ◌}
use nut_operator.Text.{codes, text_eq, text_lt, trim_space, is_space}
use nut_operator.Text.Maps.{contains}
use nut_operator.Text.Sorting.{sort_texts}
use nut_operator.Actuator.Inspect.{ShutdownSignal, signal, signal_key, inspect_signal}
use nut_operator.Actuator.Scan.{Config, World, signal_paths_of}
use nut_operator.Actuator.Watch.{new_watch, Turn, pass, restart, watch_signals, actuated_keys}
use nut_operator.Actuator.Once.{keys_of, IsFresh, watch_signals-IsFresh}
use nut_operator.Actuator.Checked.{IsSoundIn, watch_signals-IsSoundIn}

abbrev halt : ShutdownSignal
halt = record {
  execution_id = codes "e";
  node_name = codes "n";
  plan_config_hash = codes "h";
  shutdown_flow = codes "f";
  timestamp = codes "t";
  skip_sync = false;
}

abbrev config : Config
config = record {
  node_name = codes "n";
  signal_paths = codes "p" ∷ [];
  signal_ttl = pos 100;
  shutdown_flow = codes "f";
}

abbrev world : World
world = record { parse_time = λ t. some (pos 10); now = λ path. pos 20; read = λ path. signal halt }

abbrev turns : List Turn
turns = pass world true ∷ restart true ∷ pass world true ∷ []

-- The second pass finds the same signal, and lets it be.
acted_once : length (watch_signals config turns new_watch).1 ≡ 1
unfolding watch_signals actuated_keys contains text_eq inspect_signal signal_key ◌-ℤ◌
acted_once = refl

-- Where the restarted watch cannot read its state file, the second pass acts on the signal again.
acted_twice :
    length
      (watch_signals config (pass world true ∷ restart false ∷ pass world true ∷ []) new_watch).1
    ≡ 2
unfolding watch_signals actuated_keys contains text_eq inspect_signal signal_key ◌-ℤ◌
acted_twice = refl

paths : signal_paths_of (codes "a, b\na") [] ≡ codes "a" ∷ codes "b" ∷ []
unfolding signal_paths_of contains text_eq trim_space is_space
paths = refl

-- The order of the keys is first that of the execution IDs: the later of these two comes first.
later_first :
    sort_texts (codes "b:n:h:2026-01-01" ∷ codes "a:n:h:2026-02-01" ∷ [])
    ≡ codes "a:n:h:2026-02-01" ∷ codes "b:n:h:2026-01-01" ∷ []
unfolding sort_texts text_lt
later_first = refl

few : length (watch_signals config turns new_watch).1 ≤ 64
few = omega (arith, acted_once)

watch_signals-IsFresh_example : IsFresh [] (keys_of (watch_signals config turns new_watch).1)
watch_signals-IsFresh_example = watch_signals-IsFresh config turns (refl, (refl, (refl, tt))) few

watch_signals-IsSoundIn_example :
    All (IsSoundIn config turns) (watch_signals config turns new_watch).1
watch_signals-IsSoundIn_example = watch_signals-IsSoundIn config turns new_watch
