-- ===== src/Audit/Bounds.antt =====
-- internal/audit/spool.go: the cap on the journal.
use nut_operator.Prelude.{
  ℕ, zero, suc, ◌≤◌, ◌<◌, Bool, false, List, [], ◌∷◌, ◌++◌, Option, none, some, ◌≡◌, refl, arith,
  inl, inr, All, length, length-append, Option-cases, if_both, if_cases, is_empty,
}
use mathlib.Core.Path.{subst}
use nut_operator.Text.{Text}
use nut_operator.Text.Lines.{newline}
use nut_operator.Audit.Journal.{Kind, kind_name, Entry, Json, Journal}
use nut_operator.Audit.Spool.{
  SpoolWriter, Paths, Disk, opened, written, take_front, append_line, Appended, append, is_over,
}
use nut_operator.Audit.Replay.{Drain, close_drain}
use nut_operator.Audit.System.{
  System, Recording, Step, step_record, step_open, step_line, step_close, record_in, step, run,
  on_drain, line_turn, close_turn,
}
use nut_operator.Audit.Filed.{bytes_of}

abbrev IsWithin : ℕ → Option Journal → Type 0
IsWithin limit file = length (bytes_of file) ≤ limit

-- Every writer has this cap.
abbrev pub HasCap : {Payload : Kind → Type 0} → ℕ → Step Payload → Type 0
HasCap limit (step_record r) = r.writer.max_bytes ≡ limit
HasCap limit _ = Unit

length-take_front : (n : ℕ) (t : Text) → length (take_front n t) ≤ length t
unfolding take_front
length-take_front n [] = omega arith
length-take_front zero (c ∷ cs) = omega arith
length-take_front (suc n) (c ∷ cs) = omega (arith, length-take_front n cs)

length-written : (disk : Disk) (t : Text) → length (written disk t) ≤ length t
length-written disk t = elim (Option-cases disk.cut_short) [
  | inl e ↦ rw e (omega arith)
  | inr (n, e) ↦ rw e (length-take_front n t)
]

length-opened :
    (limit : ℕ) (disk : Disk) (file : Option Journal)
    → IsWithin limit file
    → length (opened disk file).contents ≤ limit
length-opened limit disk none h = h
length-opened limit disk (some f) h = h

fits_within :
    (w : SpoolWriter) (disk : Disk) (line : Text) (f : Journal)
    → length f.contents ≤ w.max_bytes
    → 0 < w.max_bytes
    → is_over w f line ≡ false
    → length (f.contents ++ written disk line) ≤ w.max_bytes
fits_within w disk line f h capped fits =
    ground (arith, length-append f.contents (written disk line), length-written disk line)

append_line-IsWithin :
    (w : SpoolWriter) (disk : Disk) (path why line : Text) (file : Option Journal)
    → 0 < w.max_bytes
    → IsWithin w.max_bytes file
    → IsWithin w.max_bytes (append_line w disk path why line file).file
unfolding append_line
append_line-IsWithin w disk path why line file capped h =
    let P = λ (a : Appended). IsWithin w.max_bytes a.file in
    let f = opened disk file in
    let same = length-opened w.max_bytes disk file h in
    if_both P disk.canceled_locked _ _ h (
      if_both P disk.directory_fails _ _ h (
        if_both P disk.open_fails _ _ h (
          if_both P disk.stat_fails _ _ same (
            if_cases P (is_over w f line) _ _ (λ over. same)
              (λ fits. fits_within w disk line f same capped fits)))))

module _ {Payload : Kind → Type 0} (json : Json Payload) (paths : Paths) where
  append-IsWithin :
      (w : SpoolWriter) (disk : Disk) (kind key why : Text) (e : Entry Payload)
      (file : Option Journal)
      → 0 < w.max_bytes
      → IsWithin w.max_bytes file
      → IsWithin w.max_bytes (append json paths w disk kind key why e file).file
  unfolding append
  append-IsWithin w disk kind key why e file capped h =
      if_both (λ (a : Appended). IsWithin w.max_bytes a.file) disk.canceled_before _ _ h
        (elim (Option-cases (
          json.marshal record {
            kind = kind;
            key = key;
            spooled_at = disk.clock;
            primary_error = why;
            payload = e;
          })) [
            | inl none_marshaled ↦ rw none_marshaled h
            | inr (line, marshaled) ↦ rw marshaled (
                append_line-IsWithin w disk (paths.join w.directory w.file_name) why
                  (line ++ newline ∷ []) file capped h)
          ])

  record-IsWithin :
      (r : Recording Payload) (s : System Payload)
      → 0 < r.writer.max_bytes
      → IsWithin r.writer.max_bytes s.file
      → IsWithin r.writer.max_bytes (record_in json paths r s).file
  unfolding record_in
  record-IsWithin r s capped h = elim (Option-cases r.answer) [
    | inl e ↦ rw e h
    | inr (why, e) ↦
        let a = append json paths r.writer r.disk (kind_name r.entry.0) r.key why r.entry s.file in
        let within =
          append-IsWithin r.writer r.disk (kind_name r.entry.0) r.key why r.entry s.file capped h in
        rw e (
          if_both (λ (x : Appended). IsWithin r.writer.max_bytes x.file) (is_empty a.failures) _ _
            within within)
  ]

  close-IsWithin :
      (limit : ℕ) (d : Drain) (stat_fails remove_fails : Bool) (file : Option Journal)
      → IsWithin limit file
      → IsWithin limit (close_drain d stat_fails remove_fails file).1
  unfolding close_drain
  close-IsWithin limit d stat_fails remove_fails none h = ground arith
  close-IsWithin limit d stat_fails remove_fails (some f) h = ground arith

  on_drain-IsWithin :
      (limit : ℕ) (turn : Drain → System Payload → System Payload) (d : Option Drain)
      (s : System Payload)
      → IsWithin limit s.file
      → ((x : Drain) → IsWithin limit (turn x s).file)
      → IsWithin limit (on_drain turn d s).file
  on_drain-IsWithin limit turn none s h f = h
  on_drain-IsWithin limit turn (some d) s h f = f d

  line-IsWithin :
      (limit : ℕ) (is_canceled accepts : Bool) (s : System Payload) (d : Drain) (ls : List Text)
      → d.lines ≡ ls
      → IsWithin limit s.file
      → IsWithin limit (line_turn json paths is_canceled accepts d s).file
  unfolding line_turn
  line-IsWithin limit is_canceled accepts s d [] e h = rw e h
  line-IsWithin limit is_canceled accepts s d (l ∷ ls) e h =
      rw e (if_both (λ (t : System Payload). IsWithin limit t.file) is_canceled _ _ h h)

  close_turn-IsWithin :
      (limit : ℕ) (stat_fails remove_fails : Bool) (s : System Payload) (d : Drain) (ls : List Text)
      → d.lines ≡ ls
      → IsWithin limit s.file
      → IsWithin limit (close_turn json paths stat_fails remove_fails d s).file
  unfolding close_turn
  close_turn-IsWithin limit stat_fails remove_fails s d [] e h =
      rw e (close-IsWithin limit (record d { lines = [] }) stat_fails remove_fails s.file h)
  close_turn-IsWithin limit stat_fails remove_fails s d (l ∷ ls) e h = rw e h

  step-IsWithin :
      (limit : ℕ) (t : Step Payload) (s : System Payload)
      → 0 < limit
      → HasCap limit t
      → IsWithin limit s.file
      → IsWithin limit (step json paths t s).file
  unfolding step
  step-IsWithin limit (step_record r) s pos cap h =
      subst (λ n. IsWithin n (record_in json paths r s).file) cap
        (record-IsWithin r s (rw cap pos) (rw cap h))
  step-IsWithin limit (step_open p d c f) s pos cap h = h
  step-IsWithin limit (step_line c a) s pos cap h =
      on_drain-IsWithin limit (line_turn json paths c a) s.drain s h
        (λ d. line-IsWithin limit c a s d d.lines refl h)
  step-IsWithin limit (step_close c a) s pos cap h =
      on_drain-IsWithin limit (close_turn json paths c a) s.drain s h
        (λ d. close_turn-IsWithin limit c a s d d.lines refl h)

  -- Where every writer has the same cap above 0, a journal whose text is no longer than the cap
  -- stays so over any turns, writes that are cut short and failures included.
  pub run_within :
      (limit : ℕ) (ts : List (Step Payload)) (s : System Payload)
      → 0 < limit
      → All (HasCap limit) ts
      → length (bytes_of s.file) ≤ limit
      → length (bytes_of (run json paths ts s).file) ≤ limit
  unfolding run
  run_within limit [] s pos cap h = h
  run_within limit (t ∷ ts) s pos cap h =
      run_within limit ts (step json paths t s) pos cap.1 (step-IsWithin limit t s pos cap.0 h)
