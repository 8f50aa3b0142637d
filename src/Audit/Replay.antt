-- ===== src/Audit/Replay.antt =====
-- internal/audit/replay.go and spool_sync.go: the journal handed back to the database. The log is
-- the sequence of records that the primary writer has taken. A drain is cut where the code lets
-- others in: after the snapshot, after each line, and at the removal, which the lock makes one step.
use nut_operator.Prelude.{
  ℕ, suc, Bool, not, ◌&&◌, List, [], ◌∷◌, ◌++◌, Option, none, some, if◌then◌else◌, ◌==◌, length,
  is_empty,
}
use nut_operator.Text.{Text}
use nut_operator.Text.Lines.{scan_lines}
use nut_operator.Audit.Journal.{Kind, kind_of, Entry, ReplayRecord, Json, Journal}
use nut_operator.Audit.Spool.{
  Failure, writer_required, directory_required, canceled, open_file, replay_refused, read_journal,
  stat_journal, remove_journal,
}

pub record ReplayStats : Type 0 where
  pub read : ℕ
  pub replayed : ℕ
  pub skipped : ℕ

abbrev pub no_stats : ReplayStats
no_stats = record { read = 0; replayed = 0; skipped = 0 }

-- A drain that is under way: what was there when it began, the lines that are left, whether a line
-- is too long to be read, and what came of the lines before.
pub record Drain : Type 0 where
  pub snapshot : Journal
  pub lines : List Text
  pub too_long : Bool
  pub stats : ReplayStats
  pub failures : List Failure

abbrev pub max_line : ℕ
max_line = 16777216

pub data Opened : Type 0 where
  ended : List Failure → Opened
  draining : Drain → Opened

abbrev pub drain_of : Journal → Drain
drain_of f =
    let (lines, too_long) = scan_lines max_line f.contents in
    record { snapshot = f; lines = lines; too_long = too_long; stats = no_stats; failures = [] }

-- `ReplaySpool` to the snapshot. Another drain that is under way ends it without an error, and so
-- does a journal that is not there.
unfoldable pub open_drain : Bool → Text → Bool → Bool → Bool → Option Journal → Opened
unfolding scan_lines
open_drain has_primary directory is_canceled busy open_fails file =
    if not has_primary
    then ended (writer_required ∷ [])
    else if is_empty directory
    then ended (directory_required ∷ [])
    else if is_canceled
    then ended (canceled ∷ [])
    else if busy
    then ended []
    else elim file [
      | none ↦ ended []
      | some f ↦ if open_fails then ended (open_file ∷ []) else draining (drain_of f)
    ]

-- What replaying a record comes to: the entry, with the writer's answer, or that it is not known.
pub data Replayed (Payload : Kind → Type 0) : Type 0 where
  not_applied : Replayed Payload
  refused : Replayed Payload
  applied : Entry Payload → Replayed Payload

abbrev pub read_one : Drain → Drain
read_one d = record d { stats = record d.stats { read = suc d.stats.read } }

abbrev pub skip_one : Drain → Drain
skip_one d = record d { stats = record d.stats { skipped = suc d.stats.skipped } }

abbrev pub replay_one : Drain → Drain
replay_one d = record d { stats = record d.stats { replayed = suc d.stats.replayed } }

abbrev pub refuse_one : ReplayRecord → Drain → Drain
refuse_one r d = record d { failures = d.failures ++ replay_refused r.kind r.key ∷ [] }

module _ {Payload : Kind → Type 0} where
  abbrev pub settle :
      ReplayRecord → Replayed Payload → Drain → List (Entry Payload) → Drain × List (Entry Payload)
  settle r not_applied d log = (skip_one d, log)
  settle r refused d log = (refuse_one r d, log)
  settle r (applied e) d log = (replay_one d, log ++ e ∷ [])

module _ {Payload : Kind → Type 0} (json : Json Payload) where
  unfoldable pub decode_and_apply : (k : Kind) → Text → Bool → Replayed Payload
  decode_and_apply k raw accepts = elim (json.unmarshal_payload k raw) [
    | none ↦ not_applied
    | some p ↦ if accepts then applied (k, p) else refused
  ]

  unfoldable pub replay_record : ReplayRecord → Bool → Replayed Payload
  unfolding decode_and_apply kind_of
  replay_record r accepts = elim (kind_of r.kind) [
    | none ↦ not_applied
    | some k ↦ decode_and_apply k r.payload accepts
  ]

  -- The body of the loop, for one line that is not canceled.
  unfoldable pub replay_line :
      Text → Bool → Drain → List (Entry Payload) → Drain × List (Entry Payload)
  unfolding replay_record
  replay_line line accepts d log =
      if is_empty line then (d, log) else elim (json.unmarshal_line line) [
        | none ↦ (skip_one (read_one d), log)
        | some r ↦ settle r (replay_record r accepts) (read_one d) log
      ]

-- `removeUnchangedSpool`: the errors, and the journal that stays.
abbrev pub is_same : Journal → Journal → Bool
is_same snapshot f =
    (snapshot.inode == f.inode)
    && (length snapshot.contents == length f.contents)
    && (snapshot.modified == f.modified)

unfoldable pub remove_unchanged :
    Journal → Bool → Bool → Option Journal → List Failure × Option Journal
remove_unchanged snapshot stat_fails remove_fails none = ([], none)
remove_unchanged snapshot stat_fails remove_fails (some f) =
    if stat_fails
    then (stat_journal ∷ [], some f)
    else if not (is_same snapshot f)
    then ([], some f)
    else if remove_fails
    then (remove_journal ∷ [], some f)
    else ([], none)

-- `ReplaySpool` after the loop.
unfoldable pub close_drain : Drain → Bool → Bool → Option Journal → List Failure × Option Journal
unfolding remove_unchanged
close_drain d stat_fails remove_fails file =
    if d.too_long
    then (read_journal ∷ [], file)
    else if not (is_empty d.failures)
    then (d.failures, file)
    else if d.stats.skipped == 0
    then remove_unchanged d.snapshot stat_fails remove_fails file
    else ([], file)
