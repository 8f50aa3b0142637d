-- ===== src/Actuator/Watch.antt =====
-- watchSignals (cmd/node-actuator/main.go) and the state file (state.go): passes and restarts.
use nut_operator.Prelude.{
  ℕ, zero, suc, ◌-◌, Bool, true, false, List, [], ◌∷◌, ◌++◌, Option, none, some, if◌then◌else◌,
  length, leb,
}
use nut_operator.Text.{Text}
use nut_operator.Text.Sorting.{sort_texts}
use nut_operator.Actuator.Scan.{Config, World, Actuation, scan_signal_paths}

abbrev pub max_actuated_keys : ℕ
max_actuated_keys = 64

unfoldable pub drop : ℕ → List Text → List Text
drop zero ks = ks
drop (suc n) [] = []
drop (suc n) (k ∷ ks) = drop n ks

unfoldable pub prune_actuated_keys : List Text → List Text
unfolding drop
prune_actuated_keys ks =
    if leb (length ks) max_actuated_keys then ks else drop (length ks - max_actuated_keys) ks

unfoldable pub actuated_keys : List Text → List Text
unfolding prune_actuated_keys sort_texts
actuated_keys seen = prune_actuated_keys (sort_texts seen)

-- The running watch: the keys in memory, and those in the state file where there is one.
pub record Watch : Type 0 where
  pub seen : List Text
  pub file : Option (List Text)

abbrev pub new_watch : Watch
new_watch = record { seen = []; file = none }

-- A pass, with whether its state file could be written, or a restart of the container between two,
-- with whether the state file can be read and parsed where there is one.
pub data Turn : Type 0 where
  pass : World → Bool → Turn
  restart : Bool → Turn

-- The keys of a state file.
abbrev pub filed : Option (List Text) → List Text
filed none = []
filed (some ks) = ks

-- The keys that a watch begins with: none after an error of `readActuatorState`.
abbrev pub restored : Bool → Option (List Text) → List Text
restored false file = []
restored true file = filed file

unfoldable pub turn : Config → Turn → Watch → Watch × List Actuation
unfolding scan_signal_paths actuated_keys
turn config (pass world written) w =
    let scan = scan_signal_paths config world config.signal_paths w.seen in
    (
      record {
        seen = scan.seen;
        file = if written then some (actuated_keys scan.seen) else w.file;
      },
      scan.acted,
    )
turn config (restart readable) w = (record w { seen = restored readable w.file }, [])

unfoldable pub watch_signals : Config → List Turn → Watch → Watch × List Actuation
unfolding turn
watch_signals config [] w = (w, [])
watch_signals config (t ∷ ts) w =
    let (next, acted) = turn config t w in
    let (last, later) = watch_signals config ts next in (last, acted ++ later)
