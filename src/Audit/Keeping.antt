-- ===== src/Audit/Keeping.antt =====
-- internal/audit: each turn keeps the invariant of the journal and the records that are kept.
use nut_operator.Prelude.{
  Bool, true, false, List, [], ◌∷◌, ◌++◌, Option, none, some, ◌≡◌, refl, arith, ◌⊎◌, inl, inr,
  is_empty, All, All-append, mem-of_All, Option-cases, if_both, mem_last, sym, ap, ◌∙◌, length, not,
}
use mathlib.Core.List.Memᴰ
use mathlib.Core.List.{Memᴰ, append-nil}
use mathlib.Core.Path.{subst}
use nut_operator.Text.{Text}
use nut_operator.Text.Lines.{
  newline, unlines, IsLine, split_lines, split_lines-unlines, unlines-append, unlines_same_length,
}
use nut_operator.Audit.Journal.{Kind, Entry, Json, IsJson, Journal}
use nut_operator.Audit.Spool.{Paths}
use nut_operator.Audit.Replay.{Drain, drain_of, Opened, draining, open_drain, close_drain}
use nut_operator.Audit.System.{
  System, Recording, Step, step_record, step_open, step_line, step_close, record_in, log_with, step,
  started, left, on_drain, line_turn, close_turn, is_busy,
}
use nut_operator.Audit.Filed.{bytes_of, IsWholeWrite, IsTaken, spool_record, record_in_cases}
use nut_operator.Audit.Turns.{decode_line-marshal, IsBehind, replay_line_turn}
use nut_operator.Audit.Drains.{
  IsWholeStep, IsKept, IsDrain, IsDrained, Inv, IsDrain-append, IsDrain-log, drain_of-IsDrain,
  line-IsDrain,
}

module _ {Payload : Kind → Type 0} (json : Json Payload) (paths : Paths) (laws : IsJson json) where
  -- A turn keeps the invariant and every record that is kept.
  abbrev pub Keeps : System Payload → System Payload → Type 0
  Keeps s t = Inv json t × ((e : Entry Payload) → IsKept json e s → IsKept json e t)

  log_with_keeps :
      (r : Recording Payload) (log : List (Entry Payload)) (e : Entry Payload)
      → Memᴰ e log
      → Memᴰ e (log_with r log)
  log_with_keeps r log e m = elim (Option-cases r.answer) [
    | inl a ↦ rw a (Memᴰ.append_left (r.entry ∷ []) m)
    | inr (why, a) ↦ rw a m
  ]

  IsDrained-log_with :
      (r : Recording Payload) (lines : List Text) (log : List (Entry Payload)) (d : Option Drain)
      → IsDrained json lines log d
      → IsDrained json lines (log_with r log) d
  IsDrained-log_with r lines log none h = tt
  IsDrained-log_with r lines log (some d) h = elim (Option-cases r.answer) [
    | inl a ↦ rw a (IsDrain-log json lines log (r.entry ∷ []) d h)
    | inr (why, a) ↦ rw a h
  ]

  IsDrained-append :
      (lines : List Text) (l : Text) (log : List (Entry Payload)) (d : Option Drain)
      → IsDrained json lines log d
      → IsDrained json (lines ++ l ∷ []) log d
  IsDrained-append lines l log none h = tt
  IsDrained-append lines l log (some d) h = IsDrain-append json lines l log d h

  -- What a line holds stays held while the lines only grow.
  filed_grows :
      (lines more : List Text) (s : System Payload) (file : Option Journal)
      (log : List (Entry Payload))
      → All IsLine lines
      → All IsLine more
      → bytes_of s.file ≡ unlines lines
      → bytes_of file ≡ unlines (lines ++ more)
      → ((e : Entry Payload) → Memᴰ e s.log → Memᴰ e log)
      → (e : Entry Payload) → IsKept json e s
      → IsKept json e (record s { file = file; log = log })
  filed_grows lines more s file log h k before after logged e kept = elim kept [
    | inl m ↦ inl (logged e m)
    | inr (l, m, f) ↦ inr (
      l,
      subst (λ x. Memᴰ l x) (sym later) (Memᴰ.append_left more (subst (λ x. Memᴰ l x) earlier m)),
      f,
    )
  ]
    where
      earlier : split_lines (bytes_of s.file) ≡ lines
      earlier = ap split_lines before ∙ split_lines-unlines lines h

      later : split_lines (bytes_of file) ≡ lines ++ more
      later =
          ap split_lines after
          ∙ split_lines-unlines (lines ++ more) (All-append IsLine lines more h k)

  pub record-Keeps :
      (r : Recording Payload) (s : System Payload)
      → IsWholeWrite r.disk
      → Inv json s
      → Keeps s (step json paths (step_record r) s)
        × (IsTaken r.writer (record_in json paths r s)
            → IsKept json r.entry (step json paths (step_record r) s))
  unfolding step
  record-Keeps r s whole inv = elim (record_in_cases json paths r s whole) [
    | inl (same, taken) ↦ (
      (
        record {
          lines = inv.lines;
          are_lines = inv.are_lines;
          is_whole = same ∙ inv.is_whole;
          is_drained = IsDrained-log_with r inv.lines s.log s.drain inv.is_drained;
        },
        filed_grows inv.lines [] s (record_in json paths r s).file (log_with r s.log) inv.are_lines
            tt inv.is_whole (rw (append-nil inv.lines) (same ∙ inv.is_whole))
            (log_with_keeps r s.log),
      ),
      λ t. inl (rw (taken t) (mem_last r.entry s.log)),
    )
    | inr (l, (why, answered, line), more) ↦
        let grown : bytes_of (record_in json paths r s).file ≡ unlines (inv.lines ++ l ∷ []) =
          more
          ∙ ap (λ x. x ++ (l ++ newline ∷ [])) inv.is_whole
          ∙ sym (unlines-append inv.lines l) in
        let one : All IsLine (l ∷ []) =
          (laws.one_line (spool_record json paths r why) l line, tt) in
        let all : All IsLine (inv.lines ++ l ∷ []) =
          All-append IsLine inv.lines (l ∷ []) inv.are_lines one in
        (
          (
            record {
              lines = inv.lines ++ l ∷ [];
              are_lines = all;
              is_whole = grown;
              is_drained =
                  IsDrained-append inv.lines l (log_with r s.log) s.drain
                    (IsDrained-log_with r inv.lines s.log s.drain inv.is_drained);
            },
            filed_grows inv.lines (l ∷ []) s (record_in json paths r s).file (log_with r s.log)
                inv.are_lines one inv.is_whole grown (log_with_keeps r s.log),
          ),
          λ t. inr (
            l,
            subst (λ x. Memᴰ l x)
                (sym (ap split_lines grown ∙ split_lines-unlines (inv.lines ++ l ∷ []) all))
                (mem_last l inv.lines),
            decode_line-marshal json laws (spool_record json paths r why) l refl line,
          ),
        )
  ]

  open-Keeps :
      (has_primary : Bool) (directory : Text) (is_canceled open_fails : Bool) (s : System Payload)
      → Inv json s
      → Keeps s (step json paths (step_open has_primary directory is_canceled open_fails) s)
  unfolding step open_drain
  open-Keeps has_primary directory is_canceled open_fails s inv = (
    record {
      lines = inv.lines;
      are_lines = inv.are_lines;
      is_whole = inv.is_whole;
      is_drained =
          let P = λ (o : Opened). IsDrained json inv.lines s.log (started o s.drain) in
          let kept = inv.is_drained in
          if_both P (not has_primary) _ _ kept (
            if_both P (is_empty directory) _ _ kept (
              if_both P is_canceled _ _ kept (
                if_both P (is_busy s.drain) _ _ kept (elim (Option-cases s.file) [
                  | inl e ↦ rw e kept
                  | inr (f, e) ↦ rw e (
                      if_both P open_fails _ (draining (drain_of f)) kept (
                        drain_of-IsDrain json f inv.lines s.log
                          (subst (λ x. bytes_of x ≡ unlines inv.lines) e inv.is_whole)
                          inv.are_lines))
                ]))));
    },
    λ e k. k,
  )

  line_turn-Keeps :
      (is_canceled accepts : Bool) (d : Drain) (ls : List Text) (s : System Payload)
      → d.lines ≡ ls
      → (inv : Inv json s) → IsDrain json inv.lines s.log d
      → Keeps s (line_turn json paths is_canceled accepts d s)
  unfolding line_turn
  line_turn-Keeps is_canceled accepts d [] s e inv h = rw e (inv, λ x k. k)
  line_turn-Keeps is_canceled accepts d (l ∷ ls) s e inv h =
      let t = replay_line_turn json l accepts (left d ls) s.log in
      rw e (
        if_both (Keeps s) is_canceled _ _
          (
            record {
              lines = inv.lines;
              are_lines = inv.are_lines;
              is_whole = inv.is_whole;
              is_drained = tt;
            },
            λ x k. k,
          )
          (
            record {
              lines = inv.lines;
              are_lines = inv.are_lines;
              is_whole = inv.is_whole;
              is_drained = line-IsDrain json inv.lines d l ls s.log _ e h t;
            },
            λ x k. elim k [ inl m ↦ inl (t.keeps x m) | inr f ↦ inr f ],
          ))

  on_drain-Keeps :
      (turn : Drain → System Payload → System Payload) (d : Option Drain) (s : System Payload)
      → (inv : Inv json s) → IsDrained json inv.lines s.log d
      → ((x : Drain) → IsDrain json inv.lines s.log x → Keeps s (turn x s))
      → Keeps s (on_drain turn d s)
  on_drain-Keeps turn none s inv h f = (inv, λ x k. k)
  on_drain-Keeps turn (some d) s inv h f = f d h

  line-Keeps :
      (is_canceled accepts : Bool) (s : System Payload)
      → Inv json s
      → Keeps s (step json paths (step_line is_canceled accepts) s)
  unfolding step
  line-Keeps is_canceled accepts s inv =
      on_drain-Keeps (line_turn json paths is_canceled accepts) s.drain s inv inv.is_drained
        (λ d. line_turn-Keeps is_canceled accepts d d.lines s refl inv)

  -- What a removal goes by.
  abbrev Removed : Drain → Option Journal → Type 0
  Removed d file =
      (d.too_long ≡ false)
      × (is_empty d.failures ≡ true)
      × (d.stats.skipped ≡ 0)
      × (length d.snapshot.contents ≡ length (bytes_of file))

  close_drain_cases :
      (d : Drain) (stat_fails remove_fails : Bool) (file : Option Journal)
      → ((close_drain d stat_fails remove_fails file).1 ≡ file)
        ⊎ (((close_drain d stat_fails remove_fails file).1 ≡ none) × Removed d file)
  unfolding close_drain
  close_drain_cases d stat_fails remove_fails none = ground arith
  close_drain_cases d stat_fails remove_fails (some f) = ground arith

  all_taken :
      (d : Drain) (s : System Payload)
      → d.lines ≡ []
      → (inv : Inv json s) → IsDrain json inv.lines s.log d
      → Removed d s.file
      → (e : Entry Payload) → IsKept json e s
      → Memᴰ e s.log
  all_taken d s none_left inv h (fits, clean, unskipped, same_size) e (inl m) = m
  all_taken d s none_left inv h (fits, clean, unskipped, same_size) e (inr (l, m, f)) =
      mem-of_All (λ x. IsBehind json x s.log d) l h.behind h.all_behind
        (subst (λ x. Memᴰ l x) (sym are_behind) m) clean unskipped e f
    where
      none_added : h.more ≡ []
      none_added = unlines_same_length h.start h.more (
          ap length (sym h.is_snapshot)
          ∙ same_size
          ∙ ap length (inv.is_whole ∙ ap unlines h.in_front))

      are_behind : h.behind ≡ split_lines (bytes_of s.file)
      are_behind = sym (
          ap split_lines inv.is_whole
          ∙ split_lines-unlines inv.lines inv.are_lines
          ∙ h.in_front
          ∙ ap (λ x. h.start ++ x) none_added
          ∙ append-nil h.start
          ∙ h.is_split fits
          ∙ ap (λ x. h.behind ++ x) none_left
          ∙ append-nil h.behind)

  close_turn-Keeps :
      (stat_fails remove_fails : Bool) (d : Drain) (ls : List Text) (s : System Payload)
      → d.lines ≡ ls
      → (inv : Inv json s) → IsDrain json inv.lines s.log d
      → Keeps s (close_turn json paths stat_fails remove_fails d s)
  unfolding close_turn unlines
  close_turn-Keeps stat_fails remove_fails d (l ∷ ls) s e inv h = rw e (inv, λ x k. k)
  close_turn-Keeps stat_fails remove_fails d [] s e inv h =
      rw e (elim (close_drain_cases (record d { lines = [] }) stat_fails remove_fails s.file) [
        | inl same ↦ rw same (
          record {
            lines = inv.lines;
            are_lines = inv.are_lines;
            is_whole = inv.is_whole;
            is_drained = tt;
          },
          λ x k. k,
        )
        | inr (gone, removed) ↦ rw gone (
          record { lines = []; are_lines = tt; is_whole = refl; is_drained = tt },
          λ x k. inl (all_taken d s e inv h removed x k),
        )
      ])

  close-Keeps :
      (stat_fails remove_fails : Bool) (s : System Payload)
      → Inv json s
      → Keeps s (step json paths (step_close stat_fails remove_fails) s)
  unfolding step
  close-Keeps stat_fails remove_fails s inv =
      on_drain-Keeps (close_turn json paths stat_fails remove_fails) s.drain s inv inv.is_drained
        (λ d. close_turn-Keeps stat_fails remove_fails d d.lines s refl inv)

  pub step-Keeps :
      (t : Step Payload) (s : System Payload)
      → IsWholeStep t
      → Inv json s
      → Keeps s (step json paths t s)
  step-Keeps (step_record r) s whole inv = (record-Keeps r s whole inv).0
  step-Keeps (step_open p d c f) s whole inv = open-Keeps p d c f s inv
  step-Keeps (step_line c a) s whole inv = line-Keeps c a s inv
  step-Keeps (step_close f g) s whole inv = close-Keeps f g s inv
