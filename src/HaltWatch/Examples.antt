-- ===== src/HaltWatch/Examples.antt =====
-- Calls of a watch over two nodes, and the theorems at them.
use nut_operator.Prelude.{false, some, ◌+◌, ◌≤◌, List, [], ◌∷◌, ◌≡◌, refl, length}
use nut_operator.Prelude.Int.{pos}
use nut_operator.Text.{Text, codes, text_eq}
use nut_operator.Text.Maps.{lookup}
use nut_operator.HaltWatch.{
  Attempt, Observer, new_observer, deadline, Call, call_written, call_stopped, call_expire,
  call_forget, run,
}
use nut_operator.HaltWatch.Nodes.{Condition, reporting, last_alive_at}
use nut_operator.HaltWatch.Filing.{answers, about, IsFiled}
use nut_operator.HaltWatch.Refinement.{run-answers, run-results_bound, writes, open_attempts}

abbrev signal : Text → Attempt
signal n = record {
  node = n;
  shutdown_flow = codes "flow";
  execution_id = codes "e1";
  signal_written_at = pos 5;
}

abbrev waiting : Observer
waiting = record new_observer { pending = (codes "n1", signal (codes "n1")) ∷ [] }

abbrev calls : List Call
calls =
    call_written (signal (codes "n2"))
    ∷ call_stopped (codes "n1") (pos 9)
    ∷ call_stopped (codes "n1") (pos 10)
    ∷ call_expire (pos 700000000000)
    ∷ call_forget (codes "n2")
    ∷ []

waiting-IsFiled : IsFiled waiting.pending
unfolding IsFiled lookup
waiting-IsFiled = (refl, refl, tt)

run-answers_example :
    (lookup (codes "n2") (run calls waiting).0.pending
      ≡ (answers (deadline (pos 0)) (codes "n2") calls (lookup (codes "n2") waiting.pending)).0)
    × (about (codes "n2") (run calls waiting).1
        ≡ (answers (deadline (pos 0)) (codes "n2") calls (lookup (codes "n2") waiting.pending)).1)
    × IsFiled (run calls waiting).0.pending
run-answers_example = run-answers (codes "n2") calls waiting waiting-IsFiled

run-results_bound_example :
    length (about (codes "n1") (run calls waiting).1)
      + open_attempts (lookup (codes "n1") (run calls waiting).0.pending)
    ≤ writes (codes "n1") calls + open_attempts (lookup (codes "n1") waiting.pending)
run-results_bound_example = run-results_bound (codes "n1") calls waiting waiting-IsFiled

abbrev silent : Condition
silent = record {
  kind = codes "Ready";
  status = codes "Unknown";
  heartbeat = pos 7;
  transition = pos 9;
}

earlier : last_alive_at (some (silent ∷ [])) ≡ pos 7
unfolding last_alive_at text_eq
earlier = refl

not_reporting : reporting (some (silent ∷ [])) ≡ false
unfolding reporting text_eq
not_reporting = refl
