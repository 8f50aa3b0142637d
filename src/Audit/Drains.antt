-- ===== src/Audit/Drains.antt =====
-- internal/audit/replay.go: what is true of a journal and of a drain of it between the turns.
use nut_operator.Prelude.{
  false, List, [], ◌∷◌, ◌++◌, Option, none, some, ◌≡◌, refl, ◌⊎◌, All, All-append, All-map, sym, ap,
  ◌∙◌,
}
use mathlib.Core.List.Memᴰ
use mathlib.Core.List.{Memᴰ, append_assoc, append-nil}
use mathlib.Core.Path.{subst}
use nut_operator.Text.{Text}
use nut_operator.Text.Lines.{unlines, IsLine, split_lines, scan_lines, scan_lines_whole}
use nut_operator.Audit.Journal.{Kind, Entry, Json, Journal}
use nut_operator.Audit.Replay.{Drain, drain_of, max_line}
use nut_operator.Audit.System.{System, Step, step_record, new_system, left}
use nut_operator.Audit.Filed.{bytes_of, IsWholeWrite}
use nut_operator.Audit.Turns.{decode_line, IsBehind, Turn}

-- No write is cut short.
abbrev pub IsWholeStep : {Payload : Kind → Type 0} → Step Payload → Type 0
IsWholeStep (step_record r) = IsWholeWrite r.disk
IsWholeStep _ = Unit

module _ {Payload : Kind → Type 0} (json : Json Payload) where
  -- The primary writer has taken the entry, or a line of the journal decodes to it.
  abbrev pub IsKept : Entry Payload → System Payload → Type 0
  IsKept e s =
      Memᴰ e s.log
      ⊎ ((l : Text) × Memᴰ l (split_lines (bytes_of s.file)) × (decode_line json l ≡ some e))

  -- A drain that is under way, in a journal of these lines: what it began with is still in front, and
  -- each line behind it was taken, unless something was refused or skipped.
  pub record IsDrain (lines : List Text) (log : List (Entry Payload)) (d : Drain) : Type 0 where
    pub start : List Text
    pub more : List Text
    pub behind : List Text
    pub in_front : lines ≡ start ++ more
    pub is_snapshot : d.snapshot.contents ≡ unlines start
    pub is_split : d.too_long ≡ false → start ≡ behind ++ d.lines
    pub all_behind : All (λ l. IsBehind json l log d) behind

  abbrev pub IsDrained : List Text → List (Entry Payload) → Option Drain → Type 0
  IsDrained lines log none = Unit
  IsDrained lines log (some d) = IsDrain lines log d

  pub record Inv (s : System Payload) : Type 0 where
    pub lines : List Text
    pub are_lines : All IsLine lines
    pub is_whole : bytes_of s.file ≡ unlines lines
    pub is_drained : IsDrained lines s.log s.drain

  pub new_system-Inv : Inv new_system
  unfolding unlines
  new_system-Inv = record { lines = []; are_lines = tt; is_whole = refl; is_drained = tt }

  pub IsDrain-append :
      (lines : List Text) (l : Text) (log : List (Entry Payload)) (d : Drain)
      → IsDrain lines log d
      → IsDrain (lines ++ l ∷ []) log d
  IsDrain-append lines l log d h = record {
    start = h.start;
    more = h.more ++ l ∷ [];
    behind = h.behind;
    in_front = ap (λ x. x ++ l ∷ []) h.in_front ∙ append_assoc h.start h.more (l ∷ []);
    is_snapshot = h.is_snapshot;
    is_split = h.is_split;
    all_behind = h.all_behind;
  }

  pub IsDrain-log :
      (lines : List Text) (log more : List (Entry Payload)) (d : Drain)
      → IsDrain lines log d
      → IsDrain lines (log ++ more) d
  IsDrain-log lines log more d h = record {
    start = h.start;
    more = h.more;
    behind = h.behind;
    in_front = h.in_front;
    is_snapshot = h.is_snapshot;
    is_split = h.is_split;
    all_behind =
        All-map (λ k b clean none e f. Memᴰ.append_left more (b clean none e f)) h.behind
          h.all_behind;
  }

  pub drain_of-IsDrain :
      (f : Journal) (lines : List Text) (log : List (Entry Payload))
      → f.contents ≡ unlines lines
      → All IsLine lines
      → IsDrain lines log (drain_of f)
  drain_of-IsDrain f lines log e h = record {
    start = lines;
    more = [];
    behind = [];
    in_front = sym (append-nil lines);
    is_snapshot = e;
    is_split = λ fits. sym (
        subst (λ c. (scan_lines max_line c).1 ≡ false → (scan_lines max_line c).0 ≡ lines) (sym e)
          (scan_lines_whole max_line lines h) fits);
    all_behind = tt;
  }

  pub line-IsDrain :
      (lines : List Text) (d : Drain) (l : Text) (ls : List Text) (log : List (Entry Payload))
      (r : Drain × List (Entry Payload))
      → d.lines ≡ l ∷ ls
      → IsDrain lines log d
      → Turn json l (left d ls) log r
      → IsDrain lines r.1 r.0
  line-IsDrain lines d l ls log r e h t = record {
    start = h.start;
    more = h.more;
    behind = h.behind ++ l ∷ [];
    in_front = h.in_front;
    is_snapshot = rw t.same_snapshot h.is_snapshot;
    is_split = λ fits.
        h.is_split (sym t.same_length ∙ fits)
        ∙ ap (λ x. h.behind ++ x) (e ∙ ap (λ x. l ∷ x) (sym t.same_lines))
        ∙ sym (append_assoc h.behind (l ∷ []) r.0.lines);
    all_behind =
        All-append (λ k. IsBehind json k r.1 r.0) h.behind (l ∷ [])
          (All-map (λ k b clean none e f. t.keeps e (b (t.no_failure clean) (t.no_skip none) e f))
            h.behind h.all_behind)
          (t.behind, tt);
  }
