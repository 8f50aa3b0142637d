-- ===== src/Audit/Examples.antt =====
-- Records of numbers in unary, a journal of them, and the theorems at them.
use nut_operator.Prelude.{
  ℕ, zero, suc, ◌-◌, ◌≤◌, ◌<◌, Bool, true, false, ◌&&◌, List, [], ◌∷◌, ◌++◌, map, none, some,
  if◌then◌else◌, ◌≡◌, refl, arith, length, ap,
}
use nut_operator.Prelude.Int.{pos}
use nut_operator.Text.{Text, codes, text_eq}
use nut_operator.Text.Laws.{text_eq→eq}
use nut_operator.Text.Lines.{Fits, is_plain, newline, split_lines}
use nut_operator.Audit.Journal.{Kind, power_event, kind_name, SpoolRecord, Json, IsJson}
use nut_operator.Audit.Spool.{SpoolWriter, Paths, Disk, take_front}
use nut_operator.Audit.Replay.{max_line}
use nut_operator.Audit.System.{
  Recording, Step, step_record, step_open, step_line, step_close, record_in, step, run, new_system,
}
use nut_operator.Audit.Filed.{bytes_of, LineOf, spool_record}
use nut_operator.Audit.Drains.{IsKept}
use nut_operator.Audit.Conservation.{run-IsKept}
use nut_operator.Audit.RoundTrip.{replay_steps, replay_steps_spooled}
use nut_operator.Audit.Bounds.{run_within}
use nut_operator.Audit.Bounded.{BoundedStore, StoreCall, spent, spent_bound}

abbrev Count : Kind → Type 0
Count k = ℕ

ones : ℕ → Text
ones zero = []
ones (suc n) = 49 ∷ ones n

abbrev event : Text
event = kind_name power_event

abbrev is_event : SpoolRecord Count → Bool
is_event r = text_eq r.kind event && text_eq r.key (codes "k")

abbrev counting : Json Count
counting = record {
  marshal = λ r. if is_event r then some (49 ∷ ones r.payload.1) else none;
  unmarshal_line = λ l. some (record { kind = event; key = codes "k"; payload = l });
  unmarshal_payload = λ k raw. some (length raw - 1);
}

ones-is_plain : (n : ℕ) → is_plain (ones n) ≡ true
unfolding ones is_plain
ones-is_plain zero = refl
ones-is_plain (suc n) = ones-is_plain n

length-ones : (n : ℕ) → length (ones n) ≡ n
unfolding ones
length-ones zero = refl
length-ones (suc n) = omega (arith, length-ones n)

counting_line :
    (r : SpoolRecord Count) (l : Text)
    → counting.marshal r ≡ some l
    → (is_event r ≡ true) × (49 ∷ ones r.payload.1 ≡ l)
counting_line r l e = ground arith

counting-IsJson : IsJson counting
unfolding is_plain
counting-IsJson = record {
  one_line = λ r l e.
      let (event, line) = counting_line r l e in rw (← line) (ones-is_plain r.payload.1, refl);
  reads_back = λ r l e.
      let (is_it, line) = counting_line r l e in
      (
        l,
        rw (text_eq→eq r.kind event (ground arith), text_eq→eq r.key (codes "k") (ground arith))
            refl,
        rw (← line) (ap some (omega (arith, length-ones r.payload.1))),
      );
}

abbrev plain_paths : Paths
plain_paths = record {
  is_abs = λ p. true;
  base = λ p. p;
  clean = λ p. p;
  join = λ d f. d ++ codes "/" ++ f;
}

abbrev writer : SpoolWriter
writer = record {
  directory = codes "/spool";
  file_name = codes "j";
  disable_sync = false;
  max_bytes = 100;
  fallback_writes = 0;
  last_primary_error = [];
  last_spool_path = [];
  dropped_writes = 0;
  journal_bytes = 0;
}

abbrev disk : Disk
disk = record {
  canceled_before = false;
  canceled_locked = false;
  clock = pos 3;
  directory_fails = false;
  open_fails = false;
  new_inode = 7;
  stat_fails = false;
  cut_short = none;
  sync_fails = false;
  close_fails = false;
  now = 4;
}

abbrev away : ℕ → Recording Count
away n = record {
  writer = writer;
  key = codes "k";
  entry = (power_event, n);
  answer = some (codes "down");
  disk = disk;
}

abbrev before : List (Step Count)
before = step_record (away 2) ∷ step_open true (codes "/spool") false false ∷ []

abbrev after : List (Step Count)
after = step_line false true ∷ step_close false false ∷ []

run-IsKept_example :
    IsKept counting
      (power_event, 1)
      (run counting plain_paths after (
        step counting plain_paths
          (step_record (away 1))
          (run counting plain_paths before new_system)))
unfolding run step record_in ones
run-IsKept_example =
    run-IsKept counting plain_paths counting-IsJson before after (away 1) (refl, (tt, tt)) refl
      (tt, (tt, tt)) (refl, refl)

-- The record that came while the drain was under way keeps the journal there.
kept_in_journal :
    bytes_of (run counting plain_paths (before ++ step_record (away 1) ∷ after) new_system).file
    ≡ 49 ∷ 49 ∷ 49 ∷ newline ∷ 49 ∷ 49 ∷ newline ∷ []
unfolding run ones
kept_in_journal = refl

line-Fits :
    (n : ℕ) → n < 1000 → (l : Text) → LineOf counting plain_paths (away n) l → Fits max_line l
line-Fits n small l (why, e, m) =
    let (is_it, line) = counting_line (spool_record counting plain_paths (away n) why) l m in
    rw (← line) (omega (arith, length-ones n))

replay_steps_spooled_example :
    run counting plain_paths
      (map step_record (away 2 ∷ away 1 ∷ []) ++ replay_steps (codes "/spool") 2)
      new_system
    ≡ record { file = none; drain = none; log = (power_event, 2) ∷ (power_event, 1) ∷ [] }
unfolding record_in step ones
replay_steps_spooled_example =
    replay_steps_spooled counting plain_paths counting-IsJson (away 2 ∷ away 1 ∷ [])
      (codes "/spool") refl
      (
        (refl, (codes "down", refl), (refl, refl), line-Fits 2 (omega arith)),
        ((refl, (codes "down", refl), (refl, refl), line-Fits 1 (omega arith)), tt),
      )

run_within_example : length (bytes_of (run counting plain_paths before new_system).file) ≤ 100
run_within_example =
    run_within counting plain_paths 100 before new_system (omega arith) (refl, (tt, tt))
      (omega arith)

-- What a cut write leaves stands in front of the next line: both are one line.
cut_merges :
    split_lines (
      bytes_of
        (run counting plain_paths
          (step_record (record (away 2) { disk = record disk { cut_short = some 2 } })
            ∷ step_record (away 1)
            ∷ [])
          new_system).file)
    ≡ (49 ∷ 49 ∷ 49 ∷ 49 ∷ []) ∷ []
unfolding run split_lines ones take_front
cut_merges = refl

abbrev slow : StoreCall
slow = record { done_before = false; done_after = true; answer = none }

abbrev fresh : BoundedStore
fresh = record { limit = pos 5; failure = none }

spent_bound_example : spent (slow ∷ slow ∷ slow ∷ []) fresh ≤ 1
spent_bound_example = spent_bound (slow ∷ slow ∷ slow ∷ []) fresh refl
