-- ===== src/HaltWatch.antt =====
-- internal/haltwatch: the watch over nodes that were told to power off. An instant is the number of
-- nanoseconds since Go's zero time. The mutex makes each operation one step.
pub mod Filing
mod Nodes
pub mod Refinement
mod Examples
use nut_operator.Prelude.{
  ℕ, Bool, true, false, not, ◌||◌, ◌&&◌, List, [], ◌∷◌, ◌++◌, Option, none, some, if◌then◌else◌,
  is_empty, length,
}
use nut_operator.Prelude.Int.{ℤ, pos, negsuc, ◌-ℤ◌, leb_ℤ, ltb_ℤ, eq_ℤ}
use nut_operator.Text.{Text, text_eq, text_lt}
use nut_operator.Text.Maps.{lookup, insert, remove}
use nut_operator.Text.Sorting.{sort_by}

pub data Outcome : Type 0 where
  halted timed_out : Outcome

pub record Attempt : Type 0 where
  pub node : Text
  pub shutdown_flow : Text
  pub execution_id : Text
  pub signal_written_at : ℤ

pub record Result : Type 0 where
  pub attempt : Attempt
  pub outcome : Outcome
  pub observed_at : ℤ
  pub duration : ℤ

pub record Observer : Type 0 where
  pub configured : ℤ
  pub pending : List (Text × Attempt)

abbrev pub new_observer : Observer
new_observer = record { configured = pos 0; pending = [] }

-- Ten minutes, where none is set.
unfoldable pub deadline : ℤ → ℤ
deadline configured = if ltb_ℤ (pos 0) configured then configured else pos 600000000000

-- time.Time.Sub stops at the least and the greatest int64.
unfoldable pub since : ℤ → ℤ → ℤ
since t u =
    let d = t -ℤ u in
    if ltb_ℤ (pos 9223372036854775807) d
    then pos 9223372036854775807
    else if ltb_ℤ d (negsuc 9223372036854775807)
    then negsuc 9223372036854775807
    else d

-- No signal is written for a nameless node or at the zero time.
abbrev pub is_attempt : Attempt → Bool
is_attempt a = not (is_empty a.node || eq_ℤ a.signal_written_at (pos 0))

unfoldable pub signal_written : Attempt → Observer → Observer
signal_written a o = if is_attempt a then record o { pending = insert a.node a o.pending } else o

abbrev pub halt_of : Attempt → ℤ → Result
halt_of a t = record {
  attempt = a;
  outcome = halted;
  observed_at = t;
  duration =
      if ltb_ℤ (since t a.signal_written_at) (pos 0) then pos 0 else since t a.signal_written_at;
}

unfoldable pub node_stopped : Text → ℤ → Observer → Observer × Option Result
unfolding since
node_stopped node t o = elim (lookup node o.pending) [
  | none ↦ (o, none)
  | some a ↦ (record o { pending = remove node o.pending }, some (halt_of a t))
]

abbrev pub is_overdue : ℤ → ℤ → Attempt → Bool
is_overdue limit now a = not (leb_ℤ (since now a.signal_written_at) limit)

abbrev pub timeout_of : Attempt → ℤ → Result
timeout_of a now = record {
  attempt = a;
  outcome = timed_out;
  observed_at = now;
  duration = since now a.signal_written_at;
}

-- The loop of Expire: what stays, and what has expired.
unfoldable pub sweep : ℤ → ℤ → List (Text × Attempt) → List (Text × Attempt) × List Result
unfolding since
sweep limit now [] = ([], [])
sweep limit now ((k, a) ∷ m) =
    let (kept, results) = sweep limit now m in
    if is_overdue limit now a then (kept, timeout_of a now ∷ results) else ((k, a) ∷ kept, results)

abbrev pub node_lt : Result → Result → Bool
node_lt r s = text_lt r.attempt.node s.attempt.node

unfoldable pub expire : ℤ → Observer → Observer × List Result
unfolding sweep deadline sort_by text_lt
expire now o =
    let (kept, results) = sweep (deadline o.configured) now o.pending in
    (record o { pending = kept }, sort_by node_lt results)

unfoldable pub watching : Text → Observer → Bool
watching node o = elim (lookup node o.pending) [ none ↦ false | some a ↦ true ]

unfoldable pub forget : Text → Observer → Observer
forget node o = record o { pending = remove node o.pending }

unfoldable pub pending_count : Observer → ℕ
pending_count o = length o.pending

-- One call of the observer.
pub data Call : Type 0 where
  call_written : Attempt → Call
  call_stopped : Text → ℤ → Call
  call_expire : ℤ → Call
  call_forget : Text → Call

abbrev pub results_of : Option Result → List Result
results_of none = []
results_of (some r) = r ∷ []

unfoldable pub step : Call → Observer → Observer × List Result
unfolding signal_written node_stopped expire forget
step (call_written a) o = (signal_written a o, [])
step (call_stopped n t) o = let (next, result) = node_stopped n t o in (next, results_of result)
step (call_expire now) o = expire now o
step (call_forget n) o = (forget n o, [])

unfoldable pub run : List Call → Observer → Observer × List Result
unfolding step
run [] o = (o, [])
run (c ∷ cs) o =
    let (next, results) = step c o in let (last, later) = run cs next in (last, results ++ later)
