-- ===== src/Audit/RoundTrip.antt =====
-- internal/audit: what was spooled is handed back by one drain that nothing interrupts.
use nut_operator.Prelude.{
  ℕ, zero, suc, ◌<◌, true, false, List, [], ◌∷◌, ◌++◌, map, Option, none, some, ◌≡◌, refl, arith,
  inl, inr, is_empty, All, sym, ap, ◌∙◌, length, ◌==◌, ==_iff,
}
use mathlib.Core.List.{append_assoc, append-nil}
use nut_operator.Text.{Text}
use nut_operator.Text.Lines.{
  newline, unlines, IsLine, Fits, unlines-append, unlines-length, scan_lines, scan_lines-unlines,
}
use nut_operator.Audit.Journal.{
  Kind, kind_name, kind_of, kind_of-kind_name, Entry, ReplayRecord, Json, IsJson, Journal,
}
use nut_operator.Audit.Spool.{Paths}
use nut_operator.Audit.Replay.{
  Drain, drain_of, draining, open_drain, close_drain, max_line, replay_line, replay_one, read_one,
  settle, applied, replay_record, decode_and_apply,
}
use nut_operator.Audit.System.{
  System, Recording, Step, step_record, step_open, step_line, step_close, record_in, step, run,
  new_system, started, line_turn, close_turn,
}
use nut_operator.Audit.Filed.{
  bytes_of, IsWholeWrite, IsTaken, LineOf, spool_record, record_in_cases,
}

-- A drain by itself: the snapshot, a turn for each line, and the removal.
abbrev turns : {Payload : Kind → Type 0} → ℕ → List (Step Payload)
turns zero = step_close false false ∷ []
turns (suc n) = step_line false true ∷ turns n

abbrev pub replay_steps : {Payload : Kind → Type 0} → Text → ℕ → List (Step Payload)
replay_steps directory n = step_open true directory false false ∷ turns n

module _ {Payload : Kind → Type 0} (json : Json Payload) (paths : Paths) where
  -- A record that the primary writer refuses and the journal takes, in a line that a drain can read.
  abbrev pub IsSpooled : Recording Payload → System Payload → Type 0
  IsSpooled r s =
      IsWholeWrite r.disk
      × ((why : Text) × (r.answer ≡ some why))
      × IsTaken r.writer (record_in json paths r s)
      × ((l : Text) → LineOf json paths r l → Fits max_line l)

  abbrev pub AreSpooled : List (Recording Payload) → System Payload → Type 0
  AreSpooled [] s = Unit
  AreSpooled (r ∷ rs) s = IsSpooled r s × AreSpooled rs (step json paths (step_record r) s)

  -- The lines of the records, one for each.
  abbrev AreLinesOf : List (Recording Payload) → List Text → Type 0
  AreLinesOf [] [] = Unit
  AreLinesOf [] (l ∷ ls) = ⊥
  AreLinesOf (r ∷ rs) [] = ⊥
  AreLinesOf (r ∷ rs) (l ∷ ls) = LineOf json paths r l × Fits max_line l × AreLinesOf rs ls

  record Spooled (rs : List (Recording Payload)) (before : List Text) (s t : System Payload)
      : Type 0 where
    lines : List Text
    are_lines : AreLinesOf rs lines
    is_whole : bytes_of t.file ≡ unlines (before ++ lines)
    same_drain : t.drain ≡ s.drain
    same_log : t.log ≡ s.log

  some-none : {A : Type 0} {a : A} → Path (Option A) (some a) none → ⊥
  some-none e = ground arith

  spool_lines :
      (rs : List (Recording Payload)) (before : List Text) (s : System Payload)
      → bytes_of s.file ≡ unlines before
      → AreSpooled rs s
      → Spooled rs before s (run json paths (map step_record rs) s)
  unfolding run step
  spool_lines [] before s e h = record {
    lines = [];
    are_lines = tt;
    is_whole = e ∙ ap unlines (sym (append-nil before));
    same_drain = refl;
    same_log = refl;
  }
  spool_lines (r ∷ rs) before s e ((whole, (why, refused), taken, fits), h) =
      elim (record_in_cases json paths r s whole) [
        | inl (same, none_refused) ↦
            let answered = sym refused ∙ none_refused taken in elim (some-none answered) [ ]
        | inr (l, line, more) ↦
            let next = step json paths (step_record r) s in
            let rest =
              spool_lines rs (before ++ l ∷ []) next
                (more ∙ ap (λ x. x ++ (l ++ newline ∷ [])) e ∙ sym (unlines-append before l)) h in
            record {
              lines = l ∷ rest.lines;
              are_lines = (line, fits l line, rest.are_lines);
              is_whole = rest.is_whole ∙ ap unlines (append_assoc before (l ∷ []) rest.lines);
              same_drain = rest.same_drain;
              same_log = rest.same_log ∙ rw refused refl;
            }
      ]

  module _ (laws : IsJson json) where
    lines-IsLine :
        (rs : List (Recording Payload)) (ls : List Text)
        → AreLinesOf rs ls
        → All IsLine ls × All (Fits max_line) ls
    lines-IsLine [] [] h = (tt, tt)
    lines-IsLine [] (l ∷ ls) h = elim h [ ]
    lines-IsLine (r ∷ rs) [] h = elim h [ ]
    lines-IsLine (r ∷ rs) (l ∷ ls) ((why, e, is_line), fits, h) =
        let rest = lines-IsLine rs ls h in
        ((laws.one_line (spool_record json paths r why) l is_line, rest.0), (fits, rest.1))

    replay_record-applied :
        (r : ReplayRecord) (k : Kind) (p : Payload k)
        → kind_of r.kind ≡ some k
        → json.unmarshal_payload k r.payload ≡ some p
        → replay_record json r true ≡ applied (k, p)
    unfolding replay_record
    replay_record-applied r k p e f = rw (e, replay_record) (rw (f, decode_and_apply) refl)

    replay_line-LineOf :
        (r : Recording Payload) (l : Text) (d : Drain) (log : List (Entry Payload))
        → LineOf json paths r l
        → replay_line json l true d log ≡ (replay_one (read_one d), log ++ r.entry ∷ [])
    unfolding replay_line
    replay_line-LineOf r l d log (why, e, is_line) =
        let (raw, read, back) = laws.reads_back (spool_record json paths r why) l is_line in
        let plain = laws.one_line (spool_record json paths r why) l is_line in
        rw (plain.1, read)
          (ap (λ x. settle (rec raw) x (read_one d) log)
            (replay_record-applied (rec raw) r.entry.0 r.entry.1 (kind_of-kind_name r.entry.0)
              back))
      where
        rec : Text → ReplayRecord
        rec raw = record { kind = kind_name r.entry.0; key = r.key; payload = raw }

    -- A drain that has failed nowhere, with the lines that are left.
    abbrev clean_drain : Journal → List Text → ℕ → ℕ → Drain
    clean_drain f ls read replayed = record {
      snapshot = f;
      lines = ls;
      too_long = false;
      stats = record { read = read; replayed = replayed; skipped = 0 };
      failures = [];
    }

    same_number : (n : ℕ) → (n == n) ≡ true
    same_number n = (==_iff n n).1 refl

    drain_lines :
        (rs : List (Recording Payload)) (ls : List Text) (f : Journal) (read replayed : ℕ)
        (log : List (Entry Payload))
        → AreLinesOf rs ls
        → run json paths
            (turns (length rs))
            (record { file = some f; drain = some (clean_drain f ls read replayed); log = log })
          ≡ record { file = none; drain = none; log = log ++ map (λ r. r.entry) rs }
    unfolding run step line_turn close_turn close_drain
    drain_lines [] [] f read replayed log h =
        rw
          (
            same_number f.inode,
            same_number (length f.contents),
            same_number f.modified,
            append-nil log,
          )
          refl
    drain_lines [] (l ∷ ls) f read replayed log h = elim h [ ]
    drain_lines (r ∷ rs) [] f read replayed log h = elim h [ ]
    drain_lines (r ∷ rs) (l ∷ ls) f read replayed log (line, fit, h) =
        ap
          (λ p.
            run json paths (turns (length rs))
              (record { file = some f; drain = some p.0; log = p.1 }))
          (replay_line-LineOf r l (clean_drain f ls read replayed) log line)
        ∙ drain_lines rs ls f (suc read) (suc replayed) (log ++ r.entry ∷ []) h
        ∙ ap (λ x. record { file = none; drain = none; log = x })
            (append_assoc log (r.entry ∷ []) (map (λ r. r.entry) rs))

    drain_of_lines :
        (f : Journal) (ls : List Text)
        → f.contents ≡ unlines ls
        → All IsLine ls × All (Fits max_line) ls
        → drain_of f ≡ clean_drain f ls 0 0
    drain_of_lines f ls e h =
        ap
          (λ x. record {
            snapshot = f;
            lines = x.0;
            too_long = x.1;
            stats = record { read = 0; replayed = 0; skipped = 0 };
            failures = [];
          })
          (ap (scan_lines max_line) e ∙ scan_lines-unlines max_line ls h.0 h.1)

    written_not_empty : (l : Text) (ls : List Text) → [] ≡ unlines (l ∷ ls) → ⊥
    written_not_empty l ls e = let h = unlines-length l ls in no_zero (rw (sym e) at h)
      where
        no_zero : 0 < 0 → ⊥
        no_zero h = omega (arith, h)

    opens :
        (f : Journal) (directory : Text)
        → is_empty directory ≡ false
        → open_drain true directory false false false (some f) ≡ draining (drain_of f)
    unfolding open_drain
    opens f directory named = rw named refl

    open_lines :
        (rs : List (Recording Payload)) (ls : List Text) (file : Option Journal) (directory : Text)
        → is_empty directory ≡ false
        → bytes_of file ≡ unlines ls
        → AreLinesOf rs ls
        → run json paths
            (replay_steps directory (length rs))
            (record { file = file; drain = none; log = [] })
          ≡ record { file = none; drain = none; log = map (λ r. r.entry) rs }
    unfolding run step open_drain
    open_lines [] [] none directory named e h = rw named refl
    open_lines [] (l ∷ ls) none directory named e h = elim h [ ]
    open_lines (r ∷ rs) [] none directory named e h = elim h [ ]
    open_lines (r ∷ rs) (l ∷ ls) none directory named e h = elim (written_not_empty l ls e) [ ]
    open_lines rs ls (some f) directory named e h =
        let start = drain_of_lines f ls e (lines-IsLine rs ls h) in
        ap
          (λ o.
            run json paths (turns (length rs))
              (record { file = some f; drain = started o none; log = [] }))
          (opens f directory named ∙ ap draining start)
        ∙ drain_lines rs ls f 0 0 [] h

    no_bytes : [] ≡ unlines []
    unfolding unlines
    no_bytes = refl

    run-append :
        (ts us : List (Step Payload)) (s : System Payload)
        → run json paths (ts ++ us) s ≡ run json paths us (run json paths ts s)
    unfolding run
    run-append [] us s = refl
    run-append (t ∷ ts) us s = run-append ts us (step json paths t s)

    -- Where printed records are lines that read back: records that the primary writer refused and
    -- an empty journal took, in lines below 16 MiB and with no write cut short, are given to the
    -- primary writer again, each once and in their order, by one drain that nothing interrupts,
    -- and the journal is removed.
    pub replay_steps_spooled :
        (rs : List (Recording Payload)) (directory : Text)
        → is_empty directory ≡ false
        → AreSpooled rs new_system
        → run json paths (map step_record rs ++ replay_steps directory (length rs)) new_system
          ≡ record { file = none; drain = none; log = map (λ r. r.entry) rs }
    replay_steps_spooled rs directory named h =
        let spooled = spool_lines rs [] new_system no_bytes h in
        let s = run json paths (map step_record rs) new_system in
        run-append (map step_record rs) (replay_steps directory (length rs)) new_system
        ∙ ap
            (λ d.
              run json paths (replay_steps directory (length rs))
                (record { file = s.file; drain = d; log = s.log }))
            spooled.same_drain
        ∙ ap
            (λ x.
              run json paths (replay_steps directory (length rs))
                (record { file = s.file; drain = none; log = x }))
            spooled.same_log
        ∙ open_lines rs spooled.lines s.file directory named spooled.is_whole spooled.are_lines
