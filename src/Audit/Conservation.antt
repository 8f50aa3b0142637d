-- ===== src/Audit/Conservation.antt =====
-- internal/audit: a record that was taken is never lost, whatever the turns.
use nut_operator.Prelude.{List, [], ◌∷◌, All}
use nut_operator.Audit.Journal.{Kind, Json, IsJson}
use nut_operator.Audit.Spool.{Paths}
use nut_operator.Audit.System.{
  System, Recording, Step, step_record, record_in, step, run, new_system,
}
use nut_operator.Audit.Filed.{IsWholeWrite, IsTaken}
use nut_operator.Audit.Drains.{IsWholeStep, IsKept, Inv, new_system-Inv}
use nut_operator.Audit.Keeping.{Keeps, record-Keeps, step-Keeps}

module _ {Payload : Kind → Type 0} (json : Json Payload) (paths : Paths) (laws : IsJson json) where
  run-Keeps :
      (ts : List (Step Payload)) (s : System Payload)
      → All IsWholeStep ts
      → Inv json s
      → Keeps json paths laws s (run json paths ts s)
  unfolding run
  run-Keeps [] s whole inv = (inv, λ e k. k)
  run-Keeps (t ∷ ts) s whole inv =
      let first = step-Keeps json paths laws t s whole.0 inv in
      let rest = run-Keeps ts (step json paths t s) whole.1 first.0 in
      (rest.0, λ e k. rest.1 e (first.1 e k))

  -- Where printed records are lines that read back and no write is cut short: a record that is
  -- neither refused nor dropped, after any turns of any writers and drains and before any others,
  -- has been taken by the primary writer, or a line of the journal decodes to it.
  pub run-IsKept :
      (before after : List (Step Payload)) (r : Recording Payload)
      → All IsWholeStep before
      → IsWholeWrite r.disk
      → All IsWholeStep after
      → IsTaken r.writer (record_in json paths r (run json paths before new_system))
      → IsKept json r.entry (
          run json paths after (step json paths (step_record r) (run json paths before new_system)))
  run-IsKept before after r h whole k taken =
      let start = run-Keeps before new_system h (new_system-Inv json) in
      let s = run json paths before new_system in
      let recorded = record-Keeps json paths laws r s whole start.0 in
      (run-Keeps after (step json paths (step_record r) s) k recorded.0.0).1 r.entry
        (recorded.1 taken)
