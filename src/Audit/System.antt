-- ===== src/Audit/System.antt =====
-- The journal, the database and a replay between them, as any number of writers and drains take
-- turns at them.
use nut_operator.Prelude.{Bool, true, false, List, [], ◌∷◌, ◌++◌, Option, none, some, if◌then◌else◌}
use nut_operator.Text.{Text}
use nut_operator.Audit.Journal.{Kind, Entry, Json, Journal}
use nut_operator.Audit.Spool.{SpoolWriter, Paths, Disk, Appended, record_entry}
use nut_operator.Audit.Replay.{Drain, Opened, ended, draining, open_drain, replay_line, close_drain}

pub record System (Payload : Kind → Type 0) : Type 0 where
  pub file : Option Journal
  pub drain : Option Drain
  pub log : List (Entry Payload)

-- A call to record an entry, with what the primary writer and the file system answer.
pub record Recording (Payload : Kind → Type 0) : Type 0 where
  pub writer : SpoolWriter
  pub key : Text
  pub entry : Entry Payload
  pub answer : Option Text
  pub disk : Disk

pub data Step (Payload : Kind → Type 0) : Type 0 where
  step_record : Recording Payload → Step Payload
  step_open : (has_primary : Bool) (directory : Text) (is_canceled open_fails : Bool) → Step Payload
  step_line : (is_canceled accepts : Bool) → Step Payload
  step_close : (stat_fails remove_fails : Bool) → Step Payload

abbrev pub is_busy : Option Drain → Bool
is_busy none = false
is_busy (some d) = true

abbrev pub started : Opened → Option Drain → Option Drain
started (ended fs) d = d
started (draining d) old = some d

abbrev pub left : Drain → List Text → Drain
left d ls = record d { lines = ls }

module _ {Payload : Kind → Type 0} where
  abbrev pub on_drain :
      (Drain → System Payload → System Payload) → Option Drain → System Payload → System Payload
  on_drain turn none s = s
  on_drain turn (some d) s = turn d s

  abbrev pub log_with : Recording Payload → List (Entry Payload) → List (Entry Payload)
  log_with r log = elim r.answer [ none ↦ log ++ r.entry ∷ [] | some why ↦ log ]

module _ {Payload : Kind → Type 0} (json : Json Payload) (paths : Paths) where
  unfoldable pub record_in : Recording Payload → System Payload → Appended
  unfolding record_entry
  record_in r s = record_entry json paths r.writer r.disk r.key r.entry r.answer s.file

  -- A turn of the drain that is under way, if one is: a line, or the end once none is left.
  unfoldable pub line_turn : Bool → Bool → Drain → System Payload → System Payload
  unfolding replay_line
  line_turn is_canceled accepts d s = elim d.lines [
    | [] ↦ s
    | l ∷ ls ↦
        let (next, log) = replay_line json l accepts (left d ls) s.log in
        if is_canceled then record s { drain = none } else record s { drain = some next; log = log }
  ]

  unfoldable pub close_turn : Bool → Bool → Drain → System Payload → System Payload
  unfolding close_drain
  close_turn stat_fails remove_fails d s = elim d.lines [
    | [] ↦ record s { drain = none; file = (close_drain d stat_fails remove_fails s.file).1 }
    | l ∷ ls ↦ s
  ]

  unfoldable pub step : Step Payload → System Payload → System Payload
  unfolding record_in open_drain line_turn close_turn
  step (step_record r) s = record s { file = (record_in r s).file; log = log_with r s.log }
  step (step_open has_primary directory is_canceled open_fails) s = record s {
    drain =
        started (open_drain has_primary directory is_canceled (is_busy s.drain) open_fails s.file)
          s.drain;
  }
  step (step_line is_canceled accepts) s = on_drain (line_turn is_canceled accepts) s.drain s
  step (step_close stat_fails remove_fails) s =
      on_drain (close_turn stat_fails remove_fails) s.drain s

  unfoldable pub run : List (Step Payload) → System Payload → System Payload
  unfolding step
  run [] s = s
  run (t ∷ ts) s = run ts (step t s)

abbrev pub new_system : {Payload : Kind → Type 0} → System Payload
new_system = record { file = none; drain = none; log = [] }
